-- ===== src/AntiRollback/Order.antt =====
-- Why packages/torchat-crypto/src/anti_rollback.rs refuses a rollback: what it accepts is ordered,
-- and each accepted snapshot is no older than the ones before it.
use t_orca.Base.{
  ◌≡◌, ◌≢◌, ◌<◌, ◌↔◌, ◌⊎◌, Option, none, some, List, [], ◌∷◌, All, Text, text_eq_iff, Result, ok,
  err, arith, Option-cases, inl, inr,
}
use t_orca.AntiRollback.{
  MlsRecoveryState, AnchoredMlsCheckpoint, MlsEpochAnchor, validate_checkpoint,
  validate_snapshot_checkpoint,
}

-- A candidate is no older than a full anchor: its version is greater, or it is the same snapshot.
abbrev pub IsNotOlder : (anchored candidate : AnchoredMlsCheckpoint) → Type 0
IsNotOlder anchored candidate =
    (anchored.state_version < candidate.state_version)
    ⊎ ((candidate.state_version ≡ anchored.state_version)
        × (candidate.snapshot_hash ≡ anchored.snapshot_hash))

-- Against an anchor with a hash a candidate is accepted exactly where it is no older, whatever the
-- epochs are.
validate_checkpoint_iff :
    (anchored candidate : AnchoredMlsCheckpoint)
    → anchored.snapshot_hash ≢ []
    → (validate_checkpoint (some anchored) candidate ≡ MlsRecoveryState.ready)
      ↔ IsNotOlder anchored candidate
unfolding validate_checkpoint
validate_checkpoint_iff anchored candidate full =
    ground (arith, text_eq_iff candidate.snapshot_hash anchored.snapshot_hash)

-- An anchor whose last recorded checkpoint of a conversation is what it answers for it.
pub record KeepsCheckpoints {E S : Type 0} (anchor : MlsEpochAnchor E S) : Type 0 where
  pub record_hit :
      (conversation_id : Text) (c : AnchoredMlsCheckpoint) (s s' : S)
      → anchor.record_checkpoint conversation_id c s ≡ (ok tt, s')
      → anchor.highest_checkpoint s' conversation_id ≡ ok (some c)

abbrev pub IsFull : AnchoredMlsCheckpoint → Type 0
IsFull c = c.snapshot_hash ≢ []

-- Each checkpoint of the list is no older than every one before it.
abbrev pub IsAscending : List AnchoredMlsCheckpoint → Type 0
IsAscending [] = Unit
IsAscending (c ∷ cs) = All (IsNotOlder c) cs × IsAscending cs

IsNotOlder-trans :
    (a b c : AnchoredMlsCheckpoint) → IsNotOlder a b → IsNotOlder b c → IsNotOlder a c
IsNotOlder-trans a b c h k = ground arith

All-trans :
    (a c : AnchoredMlsCheckpoint) (cs : List AnchoredMlsCheckpoint)
    → IsNotOlder a c
    → All (IsNotOlder c) cs
    → All (IsNotOlder a) cs
All-trans a c [] h k = tt
All-trans a c (d ∷ cs) h k = (IsNotOlder-trans a c d h k.0, All-trans a c cs h k.1)

abbrev pub accepted : {E S : Type 0} → Result E MlsRecoveryState × S → Option S
accepted (ok MlsRecoveryState.ready, s) = some s
accepted (ok MlsRecoveryState.re_pair_required, s) = none
accepted (err e, s) = none

module _ {E S : Type 0} (anchor : MlsEpochAnchor E S) (conversation_id : Text) where
  -- The snapshots of a conversation are restored one after the other; `none` where one is refused
  -- or the anchor fails.
  abbrev pub restore : AnchoredMlsCheckpoint → S → Option S
  restore c s = accepted (validate_snapshot_checkpoint anchor conversation_id c s)

  abbrev pub restore_all : List AnchoredMlsCheckpoint → S → Option S
  restore_all [] s = some s
  restore_all (c ∷ cs) s = elim (restore c s) [ none ↦ none | some t ↦ restore_all cs t ]

  restore-recorded :
      (c : AnchoredMlsCheckpoint) (s t : S)
      → restore c s ≡ some t
      → anchor.record_checkpoint conversation_id c s ≡ (ok tt, t)
  unfolding validate_snapshot_checkpoint
  restore-recorded c s t e = ground arith

  restore-validated :
      (a c : AnchoredMlsCheckpoint) (s t : S)
      → restore c s ≡ some t
      → anchor.highest_checkpoint s conversation_id ≡ ok (some a)
      → validate_checkpoint (some a) c ≡ MlsRecoveryState.ready
  unfolding validate_snapshot_checkpoint
  restore-validated a c s t e h = ground arith

module _ {E S : Type 0} (anchor : MlsEpochAnchor E S) (keeps : KeepsCheckpoints anchor)
    (id : Text) where
  restore_all-NotOlder :
      (a : AnchoredMlsCheckpoint) (cs : List AnchoredMlsCheckpoint) (s s' : S)
      → IsFull a
      → All IsFull cs
      → anchor.highest_checkpoint s id ≡ ok (some a)
      → restore_all anchor id cs s ≡ some s'
      → All (IsNotOlder a) cs
  restore_all-NotOlder a [] s s' full fulls h e = tt
  restore_all-NotOlder a (c ∷ cs) s s' full fulls h e =
      elim (Option-cases (restore anchor id c s)) [
        | inl refused ↦ absurd (ground arith)
        | inr (t, one) ↦
            let first : IsNotOlder a c =
              (validate_checkpoint_iff a c full).0 (restore-validated anchor id a c s t one h) in
            let stored = keeps.record_hit id c s t (restore-recorded anchor id c s t one) in
            let rest = restore_all-NotOlder c cs t s' fulls.0 fulls.1 stored (ground arith) in
            (first, All-trans a c cs first rest)
      ]

  -- Where the host's store keeps what it is given, the snapshots with a hash that are accepted for
  -- a conversation come in an order in which none is older than one before it.
  pub restore_all-IsAscending :
      (cs : List AnchoredMlsCheckpoint) (s s' : S)
      → All IsFull cs
      → restore_all anchor id cs s ≡ some s'
      → IsAscending cs
  restore_all-IsAscending [] s s' fulls e = tt
  restore_all-IsAscending (c ∷ cs) s s' fulls e = elim (Option-cases (restore anchor id c s)) [
    | inl refused ↦ absurd (ground arith)
    | inr (t, one) ↦
        let stored = keeps.record_hit id c s t (restore-recorded anchor id c s t one) in
        (
          restore_all-NotOlder c cs t s' fulls.0 fulls.1 stored (ground arith),
          restore_all-IsAscending cs t s' fulls.1 (ground arith),
        )
  ]
