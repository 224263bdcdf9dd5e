-- ===== src/Client/Storage.antt =====
-- packages/torchat-runtime/src/storage.rs: the methods of the storage trait that the client runtime calls,
-- over the type of the store. `message` is the trait's alias of `message_by_id`.
use t_orca.Base.{Bool, Option, List, Text, RuntimeResult}
use t_orca.Base.Int.{ℤ}
use t_orca.Base.Method.{Method}
use t_orca.Models.{ContactRecord, ConversationSummary, ChatMessage, ReceiptSendEffect, PairingItem}
use t_orca.Client.Events.{RuntimeIdentity, RuntimeProfile, InviteCode}

pub data RelationshipTransition : Type 0 where
  begin_verified : (installation_id : Text) → (boundary_at : ℤ) → RelationshipTransition
  remove :
      (installation_id : Text)
      → (removed_at : ℤ) → (preserve_history : Bool) → (removal_id : Text)
      → (relationship_epoch : ℤ) → RelationshipTransition
  apply_remote_removal :
      (installation_id : Text)
      → (remote_removed_at : ℤ) → (removal_id : Text) → (relationship_epoch : ℤ)
      → RelationshipTransition

pub record RuntimeStorage (S : Type 0) : Type 0 where
  pub identity : S → RuntimeResult (Option RuntimeIdentity)
  pub profile : S → RuntimeResult (Option RuntimeProfile)
  pub put_profile : RuntimeProfile → Method S Unit
  pub put_pairing_code : InviteCode → Method S Unit
  pub pairing_inbox : S → RuntimeResult (List PairingItem)
  pub put_pairing_inbox : PairingItem → Method S Unit
  pub pairing_outbox : S → RuntimeResult (List PairingItem)
  pub put_pairing_outbox : PairingItem → Method S Unit
  pub contacts : S → RuntimeResult (List ContactRecord)
  pub put_contact : ContactRecord → Method S Unit
  pub current_relationship_epoch : Text → Method S ℤ
  pub apply_relationship_transition : RelationshipTransition → Method S Unit
  pub remove_relationship_with_id : Text → ℤ → Bool → Text → ℤ → Method S Unit
  pub conversations : S → RuntimeResult (List ConversationSummary)
  pub put_conversation : ConversationSummary → Method S Unit
  pub mark_conversation_read : Text → Method S Unit
  pub messages : S → Text → RuntimeResult (List ChatMessage)
  pub message_by_id : S → Text → RuntimeResult (Option ChatMessage)
  pub put_message : ChatMessage → Method S Unit
  pub delete_message : Text → Method S Unit
  pub pending_messages : S → RuntimeResult (List ChatMessage)
  pub pending_receipts : S → RuntimeResult (List ReceiptSendEffect)
  pub expedite_retry_after_ready : Method S Unit
