-- ===== src/Engine/Kept.antt =====
-- The answer that a transaction keeps for the id of its command
-- (packages/torchat-client-engine/src/actor/state/runtime_transaction.rs).
use mathlib.Core.Path.{subst}
use t_orca.Base.{
  ℕ, ◌≡◌, sym, ap, ◌∙◌, inl, inr, Bool, Bool-cases, Option, none, some, List, Text, RuntimeResult,
  ok, Result-cases, ◌>>=◌, arith,
}
use t_orca.Client.Events.{RuntimeEvent}
use t_orca.Client.Session.{pending_projection_changes}
use t_orca.Client.Action.{Client, Action}
use t_orca.Client.Staging.{Staged}
use t_orca.Engine.Errors.{EngineResult, from_runtime}
use t_orca.Engine.State.{Host, Engine, ResponsePayload, IdempotencyCommitContext}
use t_orca.Engine.Transaction.{
  in_transaction, opened, bump_revision, save_answer, seal, with_runtime_internal,
}
use t_orca.Engine.Atomicity.{IsIdle, Outcome, with_runtime_internal-Outcome}

-- What the engine relies on in its table of answers. A save adds the row of an id that has none (one
-- that is there already stays), and a commit keeps it; a change of the projection leaves the table
-- as it is; and the JSON of an answer is read back.
pub record KeepsAnswers {S A : Type 0} (host : Host S A)
    (parse_json : Text → Option ResponsePayload) : Type 0 where
  pub saved :
      (id descriptor result_json : Text) (revision : ℕ) (tx tx' : S)
      → (host.storage).load_processed_command tx id ≡ ok none
      → (host.storage).save_processed_command id descriptor result_json revision tx ≡ (ok tt, tx')
      → (host.storage).commit tx' ≡ ok tt
      → (host.storage).load_processed_command tx' id ≡ ok (some (descriptor, result_json, revision))
  pub bumped :
      (ids : List Text) (head : Text × ℕ) (id : Text) (tx tx' : S)
      → (host.storage).bump_projection_revision ids tx ≡ (ok head, tx')
      → (host.storage).load_processed_command tx' id ≡ (host.storage).load_processed_command tx id
  pub read_back :
      (payload : ResponsePayload) (result_json : Text)
      → host.to_json payload ≡ ok result_json
      → parse_json result_json ≡ some payload

-- An operation that leaves the table of answers as it is.
abbrev pub LeavesAnswers : {S A : Type 0} → Host S A → {R : Type 0} → Action S R → Type 0
LeavesAnswers {S = S} host op =
    (c : Client S) (id : Text)
    → (host.storage).load_processed_command ((op c).1).storage id
      ≡ (host.storage).load_processed_command c.storage id

module _ {S A : Type 0} (host : Host S A) (parse_json : Text → Option ResponsePayload)
    (keeps : KeepsAnswers host parse_json) where
  bump_revision-keeps :
      (changes : Bool × List Text) (id : Text) (s : S) (b : ℕ × S)
      → bump_revision host changes s ≡ ok b
      → (host.storage).load_processed_command b.1 id ≡ (host.storage).load_processed_command s id
  unfolding bump_revision in_transaction from_runtime
  bump_revision-keeps changes id s b e = elim (Result-cases ((host.storage).projection_head s)) [
    | inr (x, h) ↦ absurd (ground arith)
    | inl (head, h) ↦ elim (Bool-cases changes.0) [
      | inr same ↦ ground arith
      | inl more ↦ elim (Result-cases ((host.storage).bump_projection_revision changes.1 s).0) [
        | inr (x, failed) ↦ absurd (ground arith)
        | inl (next, done) ↦
            let tx = ((host.storage).bump_projection_revision changes.1 s).1 in
            let there : (host.storage).bump_projection_revision changes.1 s ≡ (ok next, tx) =
              cc done in
            let same : b.1 ≡ tx = ground arith in
            rw same (keeps.bumped changes.1 next id s tx there)
      ]
    ]
  ]

  save_answer-saved :
      (context : IdempotencyCommitContext) (payload : ResponsePayload) (revision : ℕ) (s tx : S)
      → save_answer host (some context) (ok (some payload)) (revision, s) ≡ ok tx
      → (result_json : Text) × (host.to_json payload ≡ ok result_json)
        × ((host.storage).save_processed_command context.command_id context.command_descriptor
              result_json revision s
            ≡ (ok tt, tx))
  unfolding save_answer in_transaction
  save_answer-saved context payload revision s tx e = elim (Result-cases (host.to_json payload)) [
    | inr (x, h) ↦ ground arith
    | inl (t, h) ↦ (t, h, ground arith)
  ]

  -- The stored answer of a sealed and committed transaction.
  seal-found :
      (context : IdempotencyCommitContext) (payload : ResponsePayload) (changes : Bool × List Text)
      (s tx : S)
      → (host.storage).load_processed_command s context.command_id ≡ ok none
      → seal host (some context) (ok (some payload)) changes s ≡ ok tx
      → (host.storage).commit tx ≡ ok tt
      → (result_json : Text) × (revision : ℕ) × ((host.storage).load_processed_command tx
            context.command_id
          ≡ ok (some (context.command_descriptor, result_json, revision)))
        × (parse_json result_json ≡ some payload)
  unfolding seal
  seal-found context payload changes s tx fresh e durable =
      elim (Result-cases (bump_revision host changes s)) [
        | inr (x, h) ↦ absurd (ground arith)
        | inl (b, h) ↦
            let sealed : save_answer host (some context) (ok (some payload)) (b.0, b.1) ≡ ok tx =
              ground arith in
            let (json, encoded, stored) = save_answer-saved context payload b.0 b.1 tx sealed in
            (
              json,
              b.0,
              keeps.saved context.command_id context.command_descriptor json b.0 b.1 tx
                  (bump_revision-keeps changes context.command_id s b h ∙ fresh) stored durable,
              keeps.read_back payload json encoded,
            )
      ]

  module _ {R : Type 0} (op : Action S R) (payload_of : R → EngineResult ResponsePayload) where
    -- An answered operation has its answer in the database.
    pub answered-found :
        (context : IdempotencyCommitContext) (engine after : Engine S A) (value : R)
        (events : List RuntimeEvent) (payload : ResponsePayload)
        → Staged op
        → LeavesAnswers host op
        → IsIdle engine.session
        → (host.storage).load_processed_command engine.database context.command_id ≡ ok none
        → with_runtime_internal host op
            (some context)
            (λ value. payload_of value >>= λ payload. ok (some payload))
            engine
          ≡ (ok (value, events), after)
        → payload_of value ≡ ok payload
        → (result_json : Text) × (revision : ℕ) × ((host.storage).load_processed_command
              after.database context.command_id
            ≡ ok (some (context.command_descriptor, result_json, revision)))
          × (parse_json result_json ≡ some payload)
    answered-found context engine after value events payload staged leaves idle fresh ran made =
        go (
          subst
            (Outcome host op (some context)
              (λ value. payload_of value >>= λ payload. ok (some payload)) engine)
            ran
            (with_runtime_internal-Outcome host op (some context)
              (λ value. payload_of value >>= λ payload. ok (some payload)) engine staged idle))
      where
        opened_fresh :
            (host.storage).load_processed_command (opened engine).storage context.command_id
            ≡ ok none
        opened_fresh = unfold opened in fresh

        go :
            Outcome host op
              (some context)
              (λ value. payload_of value >>= λ payload. ok (some payload))
              engine
              (ok (value, events), after)
            → (result_json : Text) × (revision : ℕ) × ((host.storage).load_processed_command
                  after.database context.command_id
                ≡ ok (some (context.command_descriptor, result_json, revision)))
              × (parse_json result_json ≡ some payload)
        go (_, inl rolled) = absurd (cc (rolled.failed))
        go (_, inr done) =
            let same : value ≡ done.value = ground (arith, done.answered) in
            let answer : payload_of done.value ≡ ok payload = ap payload_of (sym same) ∙ made in
            let changes = pending_projection_changes (done.client).session in
            let s = (done.client).storage in
            let sealing : seal host (some context) (ok (some payload)) changes s
                ≡ ok after.database =
              sym (
                ap
                  (λ (m : EngineResult ResponsePayload).
                    seal host (some context) (m >>= λ payload. ok (some payload)) changes s)
                  answer)
              ∙ done.sealed in
            let kept : (host.storage).load_processed_command s context.command_id ≡ ok none =
              sym (
                ap
                  (λ (p : RuntimeResult R × Client S).
                    (host.storage).load_processed_command (p.1).storage context.command_id)
                  done.performed)
              ∙ leaves (opened engine) context.command_id
              ∙ opened_fresh in
            seal-found context payload changes s after.database kept sealing (done.durable)
