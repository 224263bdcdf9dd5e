-- ===== src/Relay/Frames.antt =====
-- packages/torchat-relay-protocol/src/lib.rs. A `Uuid` and a `[u8; 32]` are numbers, a `Vec<u8>` is
-- a list of numbers.
use t_orca.Base.{ℕ, Option, List, Text}

pub data ClientFrame : Type 0 where
  create_pairing_slot : (request_id rendezvous_public_key requested_ttl_seconds : ℕ) → ClientFrame
  resolve_pairing_code : (request_id : ℕ) (display_code : Text) → ClientFrame
  begin_pairing :
      (request_id pairing_id : ℕ) (slot_handle : Text) (joiner_rendezvous_public_key : ℕ)
      (encrypted_offer : List ℕ)
      → ClientFrame
  accept_pairing : (pairing_id : ℕ) (side_token : Text) (encrypted_response : List ℕ) → ClientFrame
  reject_pairing : (pairing_id : ℕ) (side_token : Text) → ClientFrame
  pairing_committed : (pairing_id : ℕ) (side_token : Text) → ClientFrame
  pairing_finalized : (pairing_id : ℕ) (side_token : Text) → ClientFrame
  cancel_pairing : (pairing_id : ℕ) (side_token : Text) → ClientFrame
  cancel_pairing_slot : (slot_handle slot_capability : Text) → ClientFrame
  ping : ClientFrame

pub data ServerFrame : Type 0 where
  pairing_slot_created :
      (request_id : ℕ) (slot_handle display_code slot_capability : Text) (expires_at_unix : ℕ)
      → ServerFrame
  pairing_slot_resolved :
      (request_id : ℕ) (slot_handle : Text) (owner_rendezvous_public_key expires_at_unix : ℕ)
      → ServerFrame
  pairing_requested :
      (pairing_id : ℕ) (slot_handle owner_side_token : Text) (joiner_rendezvous_public_key : ℕ)
      (encrypted_offer : List ℕ) (expires_at_unix : ℕ)
      → ServerFrame
  pairing_started :
      (request_id pairing_id : ℕ) (joiner_side_token : Text) (expires_at_unix : ℕ) → ServerFrame
  pairing_accepted : (pairing_id : ℕ) (encrypted_response : List ℕ) → ServerFrame
  pairing_rejected pairing_committed pairing_finalized pairing_cancelled :
      (pairing_id : ℕ) → ServerFrame
  error : (request_id : Option ℕ) (code : Text) → ServerFrame
  pong : ServerFrame

abbrev pub max_pairing_blob_bytes : ℕ
max_pairing_blob_bytes = 49152
