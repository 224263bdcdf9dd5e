-- ===== src/Changes/Laws.antt =====
-- The sets of packages/torchat-runtime/src/changes.rs: what a merge holds.
use t_orca.Base.{◌≡◌, refl, Bool, ◌||◌, List, [], ◌∷◌, any, arith, Text, text_eq, text_eq→eq}
use t_orca.Changes.{ChangeSet, Section, set_insert, set_extend, merge, union, merge_entities}

-- The id is in the set.
abbrev pub holds : Text → List Text → Bool
holds id ids = any (text_eq id) ids

holds-set_insert :
    (id x : Text) (ids : List Text) → holds id (set_insert x ids) ≡ (text_eq id x || holds id ids)
unfolding set_insert
holds-set_insert id x [] = ground arith
holds-set_insert id x (y ∷ ids) = ground (arith, holds-set_insert id x ids, text_eq→eq x y)

pub holds-set_extend :
    (id : Text) (ids xs : List Text) → holds id (set_extend ids xs) ≡ (holds id ids || holds id xs)
unfolding set_extend
holds-set_extend id ids [] = ground arith
holds-set_extend id ids (x ∷ xs) =
    ground (arith, holds-set_extend id (set_insert x ids) xs, holds-set_insert id x ids)

-- The third change set has the section, and it has the id in each of its sets, exactly where one of
-- the first two has.
abbrev pub IsUnionAt : Section → Text → ChangeSet → ChangeSet → ChangeSet → Type 0
IsUnionAt s id a b m =
    (m.sections s ≡ (a.sections s || b.sections s))
    × (holds id m.entities.pairing_ids
        ≡ (holds id a.entities.pairing_ids || holds id b.entities.pairing_ids))
    × (holds id m.entities.contact_ids
        ≡ (holds id a.entities.contact_ids || holds id b.entities.contact_ids))
    × (holds id m.entities.conversation_ids
        ≡ (holds id a.entities.conversation_ids || holds id b.entities.conversation_ids))
    × (holds id m.entities.message_ids
        ≡ (holds id a.entities.message_ids || holds id b.entities.message_ids))
    × (holds id m.entities.operation_ids
        ≡ (holds id a.entities.operation_ids || holds id b.entities.operation_ids))

-- A merged change set names a section, or an id in one of its sets, exactly where one of the two
-- change sets does.
pub merge_lem : (a b : ChangeSet) (s : Section) (id : Text) → IsUnionAt s id a b (merge a b)
unfolding merge merge_entities union
merge_lem a b s id = (
  refl,
  holds-set_extend id a.entities.pairing_ids b.entities.pairing_ids,
  holds-set_extend id a.entities.contact_ids b.entities.contact_ids,
  holds-set_extend id a.entities.conversation_ids b.entities.conversation_ids,
  holds-set_extend id a.entities.message_ids b.entities.message_ids,
  holds-set_extend id a.entities.operation_ids b.entities.operation_ids,
)
