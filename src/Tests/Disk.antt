-- ===== src/Tests/Disk.antt =====
-- The database of the runs of the engine: the storage of the runtime's tests and a table of the kept
-- answers.
use t_orca.Base.{
  ℕ, ◌+◌, ◌≡◌, refl, sym, ap, ◌∙◌, Option, none, some, List, [], ◌∷◌, find, Text, text_eq,
  text_eq_refl, codes, RuntimeError, RuntimeResult, Bool, if◌then◌else◌, ok, err, true, false,
  arith,
}
use t_orca.Base.Method.{Method}
use t_orca.Client.Events.{RuntimeEvent}
use t_orca.Client.Session.{RuntimeSession}
use t_orca.Client.Storage.{RuntimeStorage}
use t_orca.Client.Action.{
  Client, Action, pure, fail, lift, query, ◌>>=◌, store, publish, session_of, now_ms, choose,
}
use t_orca.Models.{MessageReply}
use t_orca.Client.Contacts.{publish_changed}
use t_orca.Client.Messages.{publish_state}
use t_orca.Client.Incoming.{accept_incoming, receive_message_reply}
use t_orca.Client.Memory.{MemoryStorage, memory_storage}
use t_orca.Engine.State.{ResponsePayload, EngineStorage, Host}
use t_orca.Engine.Kept.{KeepsAnswers, LeavesAnswers}
use t_orca.Tests.Client.{a_store}

pub record Disk : Type 0 where
  pub memory : MemoryStorage
  pub revision : ℕ
  pub answers : List (Text × Text × Text × ℕ)

abbrev pub a_disk : Disk
a_disk = record { memory = a_store; revision = 0; answers = [] }

abbrev pub write : {A : Type 0} → Method MemoryStorage A → Method Disk A
write m s = let (answer, memory) = m s.memory in (answer, record s { memory = memory })

abbrev pub disk_storage : RuntimeStorage Disk
disk_storage = record {
  identity = λ s. memory_storage.identity s.memory;
  profile = λ s. memory_storage.profile s.memory;
  put_profile = λ x. write (memory_storage.put_profile x);
  put_pairing_code = λ x. write (memory_storage.put_pairing_code x);
  pairing_inbox = λ s. memory_storage.pairing_inbox s.memory;
  put_pairing_inbox = λ x. write (memory_storage.put_pairing_inbox x);
  pairing_outbox = λ s. memory_storage.pairing_outbox s.memory;
  put_pairing_outbox = λ x. write (memory_storage.put_pairing_outbox x);
  contacts = λ s. memory_storage.contacts s.memory;
  put_contact = λ x. write (memory_storage.put_contact x);
  current_relationship_epoch = λ x. write (memory_storage.current_relationship_epoch x);
  apply_relationship_transition = λ x. write (memory_storage.apply_relationship_transition x);
  remove_relationship_with_id = λ id at keep removal epoch.
      write (memory_storage.remove_relationship_with_id id at keep removal epoch);
  conversations = λ s. memory_storage.conversations s.memory;
  put_conversation = λ x. write (memory_storage.put_conversation x);
  mark_conversation_read = λ x. write (memory_storage.mark_conversation_read x);
  messages = λ s. memory_storage.messages s.memory;
  message_by_id = λ s. memory_storage.message_by_id s.memory;
  put_message = λ x. write (memory_storage.put_message x);
  delete_message = λ x. write (memory_storage.delete_message x);
  pending_messages = λ s. memory_storage.pending_messages s.memory;
  pending_receipts = λ s. memory_storage.pending_receipts s.memory;
  expedite_retry_after_ready = write memory_storage.expedite_retry_after_ready;
}

abbrev pub keep : Text → Text → Text → ℕ → Disk → Disk
keep id descriptor json revision s = record s {
  answers = (id, descriptor, json, revision) ∷ s.answers;
}

unfoldable row_of : List (Text × Text × Text × ℕ) → Text → Option (Text × Text × ℕ)
row_of answers id = elim (find (λ (row : Text × Text × Text × ℕ). text_eq row.0 id) answers) [
  | none ↦ none
  | some (id, descriptor, json, revision) ↦ some (descriptor, json, revision)
]

unfoldable pub answer_of : Disk → Text → Option (Text × Text × ℕ)
unfolding row_of
answer_of s id = row_of s.answers id

abbrev pub disk : EngineStorage Disk
disk = record {
  transaction = λ s. ok tt;
  projection_head = λ s. ok (codes "store", s.revision);
  bump_projection_revision =
      λ ids s. (ok (codes "store", s.revision + 1), record s { revision = s.revision + 1 });
  save_processed_command =
      λ id descriptor json revision s. (ok tt, keep id descriptor json revision s);
  commit = λ s. ok tt;
  load_processed_command = λ s id. ok (answer_of s id);
  database_head = λ s. ok (codes "store", s.revision);
  save_processed = λ id descriptor json revision s. (ok tt, keep id descriptor json revision s);
  conversation_mls_checkpoint = λ s id. ok none;
}

abbrev pub print : ResponsePayload → Text
print ResponsePayload.empty = []
print (ResponsePayload.json value) = 58 ∷ value

abbrev pub parse : Text → Option ResponsePayload
parse [] = some ResponsePayload.empty
parse (c ∷ value) = some (ResponsePayload.json value)

abbrev pub a_host : EngineStorage Disk → Host Disk (Unit {0})
a_host storage = record {
  storage = storage;
  anchor = record {
    highest_epoch = λ a id. ok none;
    record_epoch = λ id epoch a. (ok tt, a);
    highest_checkpoint = λ a id. ok none;
    record_checkpoint = λ id checkpoint a. (ok tt, a);
  };
  restore_epoch = λ snapshot. ok 0;
  to_json = λ payload. ok (print payload);
  faults = λ point. ok tt;
}

parse-print : (payload : ResponsePayload) → parse (print payload) ≡ some payload
parse-print ResponsePayload.empty = refl
parse-print (ResponsePayload.json value) = refl

answer_of-keep :
    (id descriptor json : Text) (revision : ℕ) (s : Disk)
    → answer_of (keep id descriptor json revision s) id ≡ some (descriptor, json, revision)
unfolding answer_of
answer_of-keep id descriptor json revision s = rw (text_eq_refl id, row_of) refl

pub disk-KeepsAnswers : KeepsAnswers (a_host disk) parse
unfolding answer_of
disk-KeepsAnswers = record {
  saved = λ id descriptor json revision tx tx' fresh e committed.
      ap (λ p. ok (answer_of p.1 id)) (sym e)
      ∙ ap ok (answer_of-keep id descriptor json revision tx);
  bumped = λ ids head id tx tx' e. ap (λ p. ok (answer_of p.1 id)) (sym e);
  read_back = λ payload json e.
      let printed : json ≡ print payload = ground arith in ap parse printed ∙ parse-print payload;
}

-- An action that leaves the table of answers as it is.
pub record Keeping {A : Type 0} (m : Action Disk A) : Type 0 where
  pub at : (c : Client Disk) → (((m c).1).storage).answers ≡ (c.storage).answers

module _ {A : Type 0} where
  Keeping-pure : (a : A) → Keeping (pure a)
  unfolding pure
  Keeping-pure a = record { at = λ c. refl }

  Keeping-fail : (e : RuntimeError) → Keeping (fail {A = A} e)
  unfolding fail
  Keeping-fail e = record { at = λ c. refl }

  Keeping-lift : (r : RuntimeResult A) → Keeping (lift r)
  unfolding lift
  Keeping-lift r = record { at = λ c. refl }

  Keeping-query : (f : Disk → RuntimeResult A) → Keeping (query f)
  unfolding query
  Keeping-query f = record { at = λ c. refl }

  Keeping-session_of : (f : RuntimeSession → A) → Keeping (session_of f)
  unfolding session_of
  Keeping-session_of f = record { at = λ c. refl }

  Keeping-store : (m : Method MemoryStorage A) → Keeping (store (write m))
  unfolding store
  Keeping-store m = record { at = λ c. refl }

  Keeping-if :
      (b : Bool) (m n : Action Disk A) → Keeping m → Keeping n → Keeping (if b then m else n)
  Keeping-if true m n p q = p
  Keeping-if false m n p q = q

Keeping-publish : (event : RuntimeEvent) → Keeping (publish event)
unfolding publish
Keeping-publish event = record { at = λ c. refl }

Keeping-now_ms : Keeping now_ms
unfolding now_ms
Keeping-now_ms = record { at = λ c. refl }

module _ {A B : Type 0} where
  Keeping-continue :
      (r : RuntimeResult A) (c : Client Disk) (f : A → Action Disk B)
      → ((a : A) → Keeping (f a))
      → ((((lift r) >>= f) c).1).storage.answers ≡ c.storage.answers
  unfolding ◌>>=◌ lift
  Keeping-continue (ok a) c f p = (p a).at c
  Keeping-continue (err e) c f p = refl

  Keeping-bind :
      (m : Action Disk A) (f : A → Action Disk B)
      → Keeping m
      → ((a : A) → Keeping (f a))
      → Keeping (m >>= f)
  unfolding ◌>>=◌ lift
  Keeping-bind m f p q = record { at = λ c. Keeping-continue (m c).0 (m c).1 f q ∙ p.at c }

  Keeping-choose :
      (o : Option A) (m : Action Disk B) (f : A → Action Disk B)
      → Keeping m
      → ((a : A) → Keeping (f a))
      → Keeping (choose o m f)
  unfolding choose
  Keeping-choose none m f p q = p
  Keeping-choose (some a) m f p q = q a

ruleset keeping_rules = (
  Keeping-pure, Keeping-fail, Keeping-lift, Keeping-query, Keeping-session_of, Keeping-store,
  Keeping-if, Keeping-publish, Keeping-now_ms, Keeping-bind, Keeping-choose,
)

receive_message_reply-Keeping :
    (uuid_text : ℕ → Text) (conversation_id text : Text) (message_id : ℕ)
    (reply_to : Option MessageReply)
    → Keeping
        (receive_message_reply disk_storage uuid_text conversation_id text message_id reply_to)
unfolding receive_message_reply accept_incoming publish_state publish_changed
receive_message_reply-Keeping uuid_text conversation_id text message_id reply_to =
    search keeping_rules depth 40

-- The reception of a message leaves the table of answers as it is.
pub receive_message_reply-LeavesAnswers :
    (uuid_text : ℕ → Text) (conversation_id text : Text) (message_id : ℕ)
    (reply_to : Option MessageReply)
    → LeavesAnswers
        (a_host disk)
        (receive_message_reply disk_storage uuid_text conversation_id text message_id reply_to)
unfolding answer_of
receive_message_reply-LeavesAnswers uuid_text conversation_id text message_id reply_to c id =
    ap (λ answers. ok (row_of answers id))
      ((receive_message_reply-Keeping uuid_text conversation_id text message_id reply_to).at c)
