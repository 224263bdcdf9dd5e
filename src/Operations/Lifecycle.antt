-- ===== src/Operations/Lifecycle.antt =====
-- What `begin_pairing` of packages/torchat-runtime/src/features/operations/mod.rs makes of the stored
-- operation.
use mathlib.Core.Path.{subst}
use t_orca.Base.{
  RuntimeError, Result-cases, is_ok, ap, sym, ◌∙◌, ◌≡◌, refl, ◌⊎◌, inl, inr, true, false, ◌||◌,
  none, some, is_empty, Text, text_eq→eq, trim, RuntimeResult, ok, err, arith, Bool-cases,
  Option-cases,
}
use t_orca.Base.Int.{ℤ}
use t_orca.Base.Method.{return, bind_ok}
use t_orca.Changes.{FeatureResult, changed, unchanged}
use t_orca.Operations.{
  DurableOperation, OperationType, OperationState, is_terminal, state_eq, state_eq→eq,
  begin_attempt, pending_operation, with_command_descriptor,
}
use t_orca.Operations.Storage.{
  OperationStorage, KeepsOperations, parse_operation_id, ensure_pairing_entity, operation_changes,
  persist_changed,
}
use t_orca.Operations.Pairing.{
  bind_descriptor, pairing_or_new, start_pairing, begin_found, begin_pairing,
}

-- The operation as a cancellation that is bound to the command.
abbrev pub as_cancellation : Text → DurableOperation → DurableOperation
as_cancellation descriptor o = record o {
  command_descriptor = some descriptor;
  operation_type = OperationType.pairing_cancellation;
}

bind_descriptor-binds :
    (descriptor : Text) (o bound : DurableOperation)
    → bind_descriptor descriptor o ≡ ok bound
    → bound ≡ record o { command_descriptor = some descriptor }
unfolding bind_descriptor
bind_descriptor-binds descriptor o bound e = elim (Option-cases o.command_descriptor) [
  | inl free ↦ ground arith
  | inr (d, h) ↦ ground (arith, text_eq→eq d descriptor)
]

-- The value and the store of an answer.
answered :
    {S : Type 0} (a b : FeatureResult DurableOperation) (s s' : S)
    → ◌≡◌ {A = RuntimeResult (FeatureResult DurableOperation) × S} (ok a, s) (ok b, s')
    → (a.value ≡ b.value) × (s ≡ s')
answered {S = S} a b s s' e = (
  ap
      (λ (x : RuntimeResult (FeatureResult DurableOperation) × S). elim x.0 [
        | ok r ↦ r.value
        | err _ ↦ a.value
      ])
      e,
  ap (λ x. x.1) e,
)

refused :
    {S : Type 0} {A : Type 0} (x : RuntimeError) (b : A) (s s' : S)
    → ◌≡◌ {A = RuntimeResult A × S} (err x, s) (ok b, s')
    → ⊥
refused {S = S} {A = A} x b s s' e =
    let impossible : false ≡ true = ap (λ (y : RuntimeResult A × S). is_ok y.0) e in cc

ensured :
    (o : DurableOperation) (pairing_id : Text)
    → ensure_pairing_entity o pairing_id ≡ ok tt
    → o.entity_id ≡ pairing_id
unfolding ensure_pairing_entity
ensured o pairing_id e = ground (arith, text_eq→eq o.entity_id pairing_id)

module _ {S : Type 0} (storage : OperationStorage S) where
  -- What a begun operation has become: it had ended well and nothing was written, or its next
  -- attempt is running and stored.
  abbrev pub IsBegun : ℤ → (before after : DurableOperation) (s s' : S) → Type 0
  IsBegun now_ms before after s s' =
      ((before.state ≡ OperationState.completed) × (after ≡ before) × (s' ≡ s))
      ⊎ ((is_terminal before.state ≡ false)
          × (after ≡ begin_attempt now_ms before)
          × (storage.operation_by_id s' after.operation_id ≡ ok (some after)))

  -- What is begun is the stored operation of the id, bound to the command, or a new one if the store
  -- has none.
  abbrev pub IsBound :
      (operation_id pairing_id descriptor : Text) → ℤ → (before : DurableOperation) → S → Type 0
  IsBound operation_id pairing_id descriptor now_ms before s =
      ((o : DurableOperation) × (storage.operation_by_id s operation_id ≡ ok (some o))
        × (before ≡ as_cancellation descriptor o))
      ⊎ ((storage.operation_by_id s operation_id ≡ ok none)
          × (before
              ≡ with_command_descriptor descriptor (
                  pending_operation operation_id OperationType.pairing_cancellation pairing_id
                    now_ms)))

  -- The operation has the id, belongs to the pairing and is bound to the command. It comes from the
  -- stored operation of the id, or from a new one if there is none; and either that had been
  -- completed and the store is as it was, or it was open and its next attempt is what the store
  -- holds.
  abbrev pub HasBegun :
      (operation_id pairing_id descriptor : Text) → ℤ → DurableOperation → (s s' : S) → Type 0
  HasBegun operation_id pairing_id descriptor now_ms after s s' =
      (after.operation_id ≡ operation_id)
      × (after.entity_id ≡ pairing_id)
      × (after.command_descriptor ≡ some descriptor)
      × ((before : DurableOperation) × IsBound operation_id pairing_id descriptor now_ms before s
          × IsBegun now_ms before after s s')

module _ {S : Type 0} (storage : OperationStorage S) (keeps : KeepsOperations storage) where
  persist_changed-put :
      (o : DurableOperation) (s s' : S) (r : FeatureResult DurableOperation)
      → persist_changed storage o s ≡ (ok r, s')
      → (r.value ≡ o) × (storage.operation_by_id s' o.operation_id ≡ ok (some o))
  unfolding persist_changed
  persist_changed-put o s s' r e =
      let done = changed o (operation_changes o.operation_id) in
      let (u, t, put, rest) =
        bind_ok (storage.put_operation o) (λ (u : Unit {0}). return done) s s' r e in
      let same : t ≡ s' = ap (λ x. x.1) rest in
      (sym (answered done r t s' rest).0, keeps.put_hit o s s' (rw (sym same) put))

  begun-same :
      (now_ms : ℤ) (before after : DurableOperation) (s s' : S)
      → IsBegun storage now_ms before after s s'
      → (after.operation_id ≡ before.operation_id)
        × (after.entity_id ≡ before.entity_id)
        × (after.command_descriptor ≡ before.command_descriptor)
  unfolding begin_attempt
  begun-same now_ms before after s s' (inl (done, same, still)) = rw same (refl, refl, refl)
  begun-same now_ms before after s s' (inr (open', next, stored)) = rw next (refl, refl, refl)

  start_pairing-IsBegun :
      (o : DurableOperation) (now_ms : ℤ) (s s' : S) (r : FeatureResult DurableOperation)
      → start_pairing storage o now_ms s ≡ (ok r, s')
      → IsBegun storage now_ms o r.value s s'
  unfolding start_pairing is_terminal state_eq
  start_pairing-IsBegun o now_ms s s' r e =
      elim (Bool-cases (state_eq o.state OperationState.completed)) [
        | inl done ↦
            let (same, still) = answered (unchanged o) r s s' (rw done at e) in
            inl (state_eq→eq _ _ done, sym same, sym still)
        | inr more ↦
            elim (Bool-cases (
              state_eq o.state OperationState.cancelled
              || state_eq o.state OperationState.failed_permanent)) [
                | inl ended ↦ absurd (refused _ r s s' (rw (more, ended) at e))
                | inr open' ↦
                    let (same, stored) =
                      persist_changed-put (begin_attempt now_ms o) s s' r (rw (more, open') at e) in
                    inr (ground arith, same, rw same stored)
              ]
      ]

  -- What is begun of an operation of the pairing, new or stored.
  begin_found-IsBegun :
      (o : DurableOperation) (pairing_id descriptor : Text) (now_ms : ℤ) (s s' : S)
      (r : FeatureResult DurableOperation)
      → begin_found storage o pairing_id descriptor now_ms s ≡ (ok r, s')
      → (o.entity_id ≡ pairing_id)
        × IsBegun storage now_ms (as_cancellation descriptor o) r.value s s'
  unfolding begin_found
  begin_found-IsBegun o pairing_id descriptor now_ms s s' r e =
      elim (Result-cases (ensure_pairing_entity o pairing_id)) [
        | inr (x, other) ↦ absurd (refused x r s s' (rw other at e))
        | inl (u, same) ↦ elim (Result-cases (bind_descriptor descriptor o)) [
          | inr (x, other) ↦ absurd (refused x r s s' (rw (same, other) at e))
          | inl (bound, b) ↦ (
            ensured o pairing_id same,
            subst (λ p. IsBegun storage now_ms p r.value s s')
                (ap
                  (λ (p : DurableOperation). record p {
                    operation_type = OperationType.pairing_cancellation;
                  })
                  (bind_descriptor-binds descriptor o bound b))
                (start_pairing-IsBegun
                  (record bound { operation_type = OperationType.pairing_cancellation }) now_ms s s'
                  r (rw (same, b) at e)),
          )
        ]
      ]

  begun-HasBegun :
      (operation_id pairing_id descriptor : Text) (o : DurableOperation) (now_ms : ℤ) (s s' : S)
      (r : FeatureResult DurableOperation)
      → o.operation_id ≡ operation_id
      → IsBound storage operation_id pairing_id descriptor now_ms (as_cancellation descriptor o) s
      → begin_found storage o pairing_id descriptor now_ms s ≡ (ok r, s')
      → HasBegun storage operation_id pairing_id descriptor now_ms r.value s s'
  begun-HasBegun operation_id pairing_id descriptor o now_ms s s' r id bound e =
      let (entity, begun) = begin_found-IsBegun o pairing_id descriptor now_ms s s' r e in
      let (same, entity', text) =
        begun-same now_ms (as_cancellation descriptor o) r.value s s' begun in
      (same ∙ id, entity' ∙ entity, text, (as_cancellation descriptor o, bound, begun))

  -- Where the store finds operations by their ids and keeps what is put into it: a pairing operation
  -- that was begun has the requested id, belongs to the pairing and is bound to the command. It is
  -- the stored operation of that id, as a cancellation bound to the command and otherwise as it was,
  -- or a new one if the store has none. Either it had been completed and the store is as it was, or
  -- it was open and its next attempt is what the store holds.
  pub begin_pairing-HasBegun :
      (operation_id pairing_id descriptor : Text) (now_ms : ℤ) (s s' : S)
      (r : FeatureResult DurableOperation)
      → begin_pairing storage operation_id pairing_id descriptor now_ms s ≡ (ok r, s')
      → HasBegun storage operation_id pairing_id descriptor now_ms r.value s s'
  unfolding begin_pairing parse_operation_id pairing_or_new
  begin_pairing-HasBegun operation_id pairing_id descriptor now_ms s s' r e =
      elim (Bool-cases (is_empty (trim descriptor))) [
        | inl no_text ↦ absurd (refused _ r s s' (rw no_text at e))
        | inr text ↦ elim (Bool-cases (is_empty (trim operation_id))) [
          | inl no_id ↦ absurd (refused _ r s s' (rw (text, no_id) at e))
          | inr id ↦ elim (Result-cases (storage.operation_by_id s operation_id)) [
            | inr (x, failed) ↦ absurd (refused x r s s' (rw (text, id, failed) at e))
            | inl (none, missing) ↦
                begun-HasBegun operation_id pairing_id descriptor
                  (with_command_descriptor descriptor (
                    pending_operation operation_id OperationType.pairing_cancellation pairing_id
                      now_ms))
                  now_ms s s' r refl (inr (missing, refl)) (rw (text, id, missing) at e)
            | inl (some o, found) ↦
                begun-HasBegun operation_id pairing_id descriptor o now_ms s s' r
                  (keeps.found_id s operation_id o found) (inl (o, found, refl))
                  (rw (text, id, found) at e)
          ]
        ]
      ]
