-- ===== src/AntiRollback.antt =====
-- packages/torchat-crypto/src/anti_rollback.rs: the checkpoint of the MLS state that the host's
-- secure store anchors, and the test of a restored snapshot against it.
pub mod Order
use t_orca.Base.{
  ℕ, Bool, true, false, not, ◌&&◌, ◌||◌, Option, none, some, List, [], ◌==◌, ltb, is_empty,
  is_some_and, if◌then◌else◌, Text, text_eq, Result, ok, err,
}

pub data MlsRecoveryState : Type 0 where
  ready re_pair_required : MlsRecoveryState

pub record AnchoredMlsCheckpoint : Type 0 where
  pub state_version : ℕ
  pub epoch : ℕ
  pub snapshot_hash : List ℕ

unfoldable pub validate_checkpoint :
    Option AnchoredMlsCheckpoint → AnchoredMlsCheckpoint → MlsRecoveryState
validate_checkpoint none candidate = MlsRecoveryState.ready
validate_checkpoint (some anchored) candidate =
    if is_empty anchored.snapshot_hash
    then if ltb candidate.epoch anchored.epoch
      then MlsRecoveryState.re_pair_required
      else MlsRecoveryState.ready
    else if ltb candidate.state_version anchored.state_version
        || (candidate.state_version == anchored.state_version
            && not (text_eq candidate.snapshot_hash anchored.snapshot_hash))
    then MlsRecoveryState.re_pair_required
    else MlsRecoveryState.ready

-- `MlsEpochAnchor`, over the type of the host's store; E is its `Error`.
pub record MlsEpochAnchor (E S : Type 0) : Type 0 where
  pub highest_epoch : S → Text → Result E (Option ℕ)
  pub record_epoch : Text → ℕ → S → Result E (Unit {0}) × S
  pub highest_checkpoint : S → Text → Result E (Option AnchoredMlsCheckpoint)
  pub record_checkpoint : Text → AnchoredMlsCheckpoint → S → Result E (Unit {0}) × S

-- The trait's own `highest_checkpoint` and `record_checkpoint`, of a host that anchors epochs only.
unfoldable pub epoch_anchor :
    {E S : Type 0}
    → (S → Text → Result E (Option ℕ))
    → (Text → ℕ → S → Result E (Unit {0}) × S)
    → MlsEpochAnchor E S
epoch_anchor highest_epoch record_epoch = record {
  highest_epoch = highest_epoch;
  record_epoch = record_epoch;
  highest_checkpoint = λ s conversation_id. elim (highest_epoch s conversation_id) [
    | err e ↦ err e
    | ok none ↦ ok none
    | ok (some epoch) ↦
        ok (some (record { state_version = epoch; epoch = epoch; snapshot_hash = [] }))
  ];
  record_checkpoint = λ conversation_id checkpoint. record_epoch conversation_id checkpoint.epoch;
}

module _ {E S : Type 0} (anchor : MlsEpochAnchor E S) where
  unfoldable pub validate_snapshot_checkpoint :
      Text → AnchoredMlsCheckpoint → S → Result E MlsRecoveryState × S
  unfolding validate_checkpoint
  validate_snapshot_checkpoint conversation_id candidate s =
      elim (anchor.highest_checkpoint s conversation_id) [
        | err e ↦ (err e, s)
        | ok anchored ↦ elim (validate_checkpoint anchored candidate) [
          | re_pair_required ↦ (ok MlsRecoveryState.re_pair_required, s)
          | ready ↦
              let (answer, s') = anchor.record_checkpoint conversation_id candidate s in
              elim answer [ err e ↦ (err e, s') | ok u ↦ (ok MlsRecoveryState.ready, s') ]
        ]
      ]

  unfoldable pub validate_snapshot_epoch : Text → ℕ → S → Result E MlsRecoveryState × S
  validate_snapshot_epoch conversation_id snapshot_epoch s =
      elim (anchor.highest_epoch s conversation_id) [
        | err e ↦ (err e, s)
        | ok stored ↦
            if is_some_and (λ epoch. ltb snapshot_epoch epoch) stored
            then (ok MlsRecoveryState.re_pair_required, s)
            else let (answer, s') = anchor.record_epoch conversation_id snapshot_epoch s in
              elim answer [ err e ↦ (err e, s') | ok u ↦ (ok MlsRecoveryState.ready, s') ]
      ]
