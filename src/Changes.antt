-- ===== src/Changes.antt =====
-- packages/torchat-runtime/src/changes.rs: what a feature says it has changed. The sections, bits of
-- a `u16`, are a Boolean function of the named bit; a `BTreeSet` is an increasing list.
pub mod Laws
use t_orca.Base.{
  ℕ, ◌+◌, Bool, true, false, not, ◌&&◌, ◌||◌, List, [], ◌∷◌, ◌++◌, ◌==◌, all, any, min,
  if◌then◌else◌, Text, text_eq, text_lt, Result, ok, err,
}

pub data Section : Type 0 where
  profile pairings contacts relationships conversations messages : Section
  receipts presence transport capabilities operations : Section

-- The position of the bit.
abbrev pub bit : Section → ℕ
bit Section.profile = 0
bit Section.pairings = 1
bit Section.contacts = 2
bit Section.relationships = 3
bit Section.conversations = 4
bit Section.messages = 5
bit Section.receipts = 6
bit Section.presence = 7
bit Section.transport = 8
bit Section.capabilities = 9
bit Section.operations = 10

abbrev pub ChangeSections : Type 0
ChangeSections = Section → Bool

abbrev pub all_sections : List Section
all_sections =
    Section.profile ∷ Section.pairings ∷ Section.contacts ∷ Section.relationships
    ∷ Section.conversations ∷ Section.messages ∷ Section.receipts ∷ Section.presence
    ∷ Section.transport ∷ Section.capabilities ∷ Section.operations ∷ []

unfoldable pub no_sections : ChangeSections
no_sections s = false

unfoldable pub only : Section → ChangeSections
only section s = bit section == bit s

unfoldable pub sections_contain : ChangeSections → ChangeSections → Bool
sections_contain self section = all (λ s. not (section s) || self s) all_sections

unfoldable pub union : ChangeSections → ChangeSections → ChangeSections
union self other s = self s || other s

unfoldable pub sections_are_empty : ChangeSections → Bool
sections_are_empty self = not (any self all_sections)

-- `BTreeSet::insert` and `BTreeSet::extend`.
unfoldable pub set_insert : Text → List Text → List Text
set_insert id [] = id ∷ []
set_insert id (x ∷ xs) =
    let rest = set_insert id xs in
    if text_lt id x then id ∷ x ∷ xs else if text_eq id x then x ∷ xs else x ∷ rest

unfoldable pub set_extend : List Text → List Text → List Text
unfolding set_insert
set_extend ids [] = ids
set_extend ids (x ∷ xs) = set_extend (set_insert x ids) xs

pub record ChangedEntities : Type 0 where
  pub pairing_ids : List Text
  pub contact_ids : List Text
  pub conversation_ids : List Text
  pub message_ids : List Text
  pub operation_ids : List Text

unfoldable pub merge_entities : ChangedEntities → ChangedEntities → ChangedEntities
unfolding set_extend
merge_entities self other = record {
  pairing_ids = set_extend self.pairing_ids other.pairing_ids;
  contact_ids = set_extend self.contact_ids other.contact_ids;
  conversation_ids = set_extend self.conversation_ids other.conversation_ids;
  message_ids = set_extend self.message_ids other.message_ids;
  operation_ids = set_extend self.operation_ids other.operation_ids;
}

pub record ChangeSet : Type 0 where
  pub sections : ChangeSections
  pub entities : ChangedEntities

abbrev pub no_entities : ChangedEntities
no_entities = record {
  pairing_ids = [];
  contact_ids = [];
  conversation_ids = [];
  message_ids = [];
  operation_ids = [];
}

-- `ChangeSet::none()` and `ChangeSet::default()`.
unfoldable pub no_changes : ChangeSet
unfolding no_sections
no_changes = record { sections = no_sections; entities = no_entities }

-- `ChangeSet::section`.
unfoldable pub change_section : Section → ChangeSet
unfolding only
change_section section = record { sections = only section; entities = no_entities }

unfoldable pub merge : ChangeSet → ChangeSet → ChangeSet
unfolding union merge_entities
merge self other = record {
  sections = union self.sections other.sections;
  entities = merge_entities self.entities other.entities;
}

unfoldable pub with_pairing : Text → ChangeSet → ChangeSet
unfolding union only set_insert
with_pairing id c = record {
  sections = union c.sections (only Section.pairings);
  entities = record c.entities { pairing_ids = set_insert id c.entities.pairing_ids };
}

unfoldable pub with_contact : Text → ChangeSet → ChangeSet
unfolding union only set_insert
with_contact id c = record {
  sections = union c.sections (only Section.contacts);
  entities = record c.entities { contact_ids = set_insert id c.entities.contact_ids };
}

unfoldable pub with_conversation : Text → ChangeSet → ChangeSet
unfolding union only set_insert
with_conversation id c = record {
  sections = union c.sections (only Section.conversations);
  entities = record c.entities { conversation_ids = set_insert id c.entities.conversation_ids };
}

unfoldable pub with_message : Text → ChangeSet → ChangeSet
unfolding union only set_insert
with_message id c = record {
  sections = union c.sections (only Section.messages);
  entities = record c.entities { message_ids = set_insert id c.entities.message_ids };
}

pub data DomainEffect : Type 0 where
  deliver_pairing deliver_message send_receipt refresh_peer : Text → DomainEffect

pub record FeatureResult (A : Type 0) : Type 0 where
  pub value : A
  pub changes : ChangeSet
  pub effects : List DomainEffect

module _ {A : Type 0} where
  unfoldable pub unchanged : A → FeatureResult A
  unfolding no_changes
  unchanged value = record { value = value; changes = no_changes; effects = [] }

  unfoldable pub changed : A → ChangeSet → FeatureResult A
  changed value changes = record { value = value; changes = changes; effects = [] }

  unfoldable pub with_effect : DomainEffect → FeatureResult A → FeatureResult A
  with_effect effect r = record r { effects = r.effects ++ effect ∷ [] }

pub record CommittedChange (A : Type 0) : Type 0 where
  pub value : A
  pub changes : ChangeSet
  pub effects : List DomainEffect
  pub revision : ℕ

-- `ChangePublisher::commit`: the publisher is its revision, a `u64`, and `committed` is the answer
-- of the persistence.
unfoldable pub commit :
    {A E : Type 0}
    → FeatureResult A
    → Result E (Unit {0})
    → (revision : ℕ) → Result E (CommittedChange A) × ℕ
commit r (err e) revision = (err e, revision)
commit r (ok u) revision =
    let next = min (revision + 1) 18446744073709551615 in
    (
      ok (record { value = r.value; changes = r.changes; effects = r.effects; revision = next }),
      next,
    )
