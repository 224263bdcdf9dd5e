-- ===== src/Client/Calls.antt =====
-- The commands of `ClientRuntime` as values. An operation of the engine is a list of them that stops at
-- the first error.
use t_orca.Base.{ℕ, Text, Option, Bool, List, RuntimeResult}
use t_orca.Base.Int.{ℤ}
use t_orca.Domain.{PairingPeerOutcome, ContactTransportPolicy, MessageTransportOutcome}
use t_orca.Models.{PairingItem, ContactRecord, MessageReply}
use t_orca.Client.Events.{
  RuntimeProfile, RuntimeTorStatus, InviteCode, TransportComponent, TransportProbeState,
}
use t_orca.Client.Storage.{RuntimeStorage}
use t_orca.Client.Action.{Action, pure, for_each, ◌>>=◌}
use t_orca.Client.Profile
use t_orca.Client.Pairings
use t_orca.Client.Requests
use t_orca.Client.Contacts
use t_orca.Client.Messages
use t_orca.Client.Incoming

pub data RuntimeCall : Type 0 where
  commit_nickname : (nickname : Text) → RuntimeCall
  apply_remote_profile : (profile : RuntimeProfile) → RuntimeCall
  bootstrap_runtime : RuntimeCall
  report_tor_status : (status : RuntimeTorStatus) → RuntimeCall
  report_transport_status :
      (component : TransportComponent)
      → (state : TransportProbeState) → (detail : Text) → (progress : Option ℤ)
      → (latency_ms : Option ℕ) → (retry_attempt : ℕ) → (retry_in_ms : Option ℕ) → (generation : ℕ)
      → (endpoint : Option Text) → (updated_at : ℤ) → RuntimeCall
  report_runtime_error : (message : Text) → RuntimeCall
  report_runtime_log : (message : Text) → RuntimeCall
  connect : (answer : RuntimeResult RuntimeTorStatus) → RuntimeCall
  require_pairing_profile_ready : RuntimeCall
  commit_pairing_code : (code : InviteCode) → RuntimeCall
  expire_pending_pairings : RuntimeCall
  merge_pairing_inbox : (remote : List PairingItem) → RuntimeCall
  receive_pairing_offer : (item : PairingItem) → RuntimeCall
  pairing_offer_payload : (pairing_id : Text) → RuntimeCall
  accept_received_pairing : (pairing_id : Text) → RuntimeCall
  prepare_accept_pairing : (pairing_id : Text) → RuntimeCall
  commit_accept_pairing :
      (pairing_id : Text) → (offer_invite_id : Text) → (offer_payload : Text) → RuntimeCall
  prepare_reject_pairing : (pairing_id : Text) → RuntimeCall
  commit_reject_pairing : (pairing_id : Text) → RuntimeCall
  prepare_submit_pairing_code : (code : Text) → RuntimeCall
  reconcile_outbox_pairing_contact : (installation_id : Text) → RuntimeCall
  commit_submitted_pairing : (item : PairingItem) → RuntimeCall
  prepare_cancel_pairing : (pairing_id : Text) → RuntimeCall
  confirm_pairing_cancelled : (pairing_id : Text) → RuntimeCall
  apply_pairing_peer_outcome : (pairing_id : Text) → (outcome : PairingPeerOutcome) → RuntimeCall
  pairing_outbox : RuntimeCall
  merge_pairing_outbox : (remote : List PairingItem) → RuntimeCall
  finalize_pairing : (pairing_id : Text) → RuntimeCall
  archive_pairing : (pairing_id : Text) → RuntimeCall
  update_contact_settings :
      (installation_id : Text)
      → (local_alias : Option Text) → (muted : Bool) → (blocked : Bool) → RuntimeCall
  set_contact_transport_policy :
      (installation_id : Text) → (policy : ContactTransportPolicy) → RuntimeCall
  remove_relationship :
      (removal_id : Text) → (installation_id : Text) → (preserve_history : Bool) → RuntimeCall
  remove_relationship_with_id :
      (installation_id : Text)
      → (removed_at : ℤ) → (preserve_history : Bool) → (removal_id : Text) → (epoch : ℤ)
      → RuntimeCall
  apply_remote_relationship_removal :
      (installation_id : Text) → (removed_at : ℤ) → (removal_id : Text) → (epoch : ℤ) → RuntimeCall
  contact_accepts_messages : (installation_id : Text) → RuntimeCall
  contact_allows_notifications : (installation_id : Text) → RuntimeCall
  verify_contact : (installation_id : Text) → RuntimeCall
  start_conversation : (contact_id : Text) → RuntimeCall
  promote_contact : (contact : ContactRecord) → (opening : Bool) → RuntimeCall
  welcome_accepted :
      (contact : ContactRecord) → (opening : Bool) → (invite_id : Option Text) → RuntimeCall
  send_message_reply :
      (new_id : ℕ)
      → (conversation_id : Text) → (text : Text) → (reply_to_message_id : Option Text) → RuntimeCall
  retry_message : (message_id : Text) → RuntimeCall
  prepare_pending_send_effects : RuntimeCall
  prepare_pending_receipt_effects : RuntimeCall
  expedite_retry_after_ready : RuntimeCall
  receive_message_reply :
      (conversation_id : Text)
      → (text : Text) → (message_id : ℕ) → (reply_to : Option MessageReply) → RuntimeCall
  apply_message_read : (message_id : ℕ) → RuntimeCall
  apply_message_transport_outcome :
      (message_id : ℕ) → (outcome : MessageTransportOutcome) → RuntimeCall
  delete_message_local : (message_id : Text) → RuntimeCall
  focus_conversation : (conversation_id : Text) → (focused : Bool) → RuntimeCall
  open_conversation : (conversation_id : Text) → RuntimeCall
  close_conversation : RuntimeCall
  foreground : (visible : Bool) → RuntimeCall

module _ {S : Type 0} where
  -- Only the answer is dropped.
  unfoldable pub ignore : {A : Type 0} → Action S A → Action S Unit
  ignore m = m >>= λ _. pure tt

module _ {S : Type 0} (storage : RuntimeStorage S) (uuid_text : ℕ → Text)
    (parse_uuid : Text → Option ℕ) where
  unfoldable pub perform : RuntimeCall → Action S Unit
  unfolding ignore
  perform (RuntimeCall.commit_nickname nickname) = ignore (Profile.commit_nickname storage nickname)
  perform (RuntimeCall.apply_remote_profile profile) =
      ignore (Profile.apply_remote_profile storage profile)
  perform RuntimeCall.bootstrap_runtime = ignore (Profile.bootstrap_runtime storage)
  perform (RuntimeCall.report_tor_status status) = Profile.report_tor_status storage status
  perform
        (RuntimeCall.report_transport_status component state detail progress latency_ms
          retry_attempt retry_in_ms generation endpoint updated_at) =
      Profile.report_transport_status storage component state detail progress latency_ms
        retry_attempt retry_in_ms generation endpoint updated_at
  perform (RuntimeCall.report_runtime_error message) = Profile.report_runtime_error storage message
  perform (RuntimeCall.report_runtime_log message) = Profile.report_runtime_log storage message
  perform (RuntimeCall.connect answer) = ignore (Profile.connect storage answer)
  perform RuntimeCall.require_pairing_profile_ready = Pairings.require_pairing_profile_ready storage
  perform (RuntimeCall.commit_pairing_code code) = Pairings.commit_pairing_code storage code
  perform RuntimeCall.expire_pending_pairings = Pairings.expire_pending_pairings storage
  perform (RuntimeCall.merge_pairing_inbox remote) =
      ignore (Pairings.merge_pairing_inbox storage remote)
  perform (RuntimeCall.receive_pairing_offer item) = Pairings.receive_pairing_offer storage item
  perform (RuntimeCall.pairing_offer_payload pairing_id) =
      ignore (Pairings.pairing_offer_payload storage pairing_id)
  perform (RuntimeCall.accept_received_pairing pairing_id) =
      Pairings.accept_received_pairing storage pairing_id
  perform (RuntimeCall.prepare_accept_pairing pairing_id) =
      ignore (Pairings.prepare_accept_pairing storage pairing_id)
  perform (RuntimeCall.commit_accept_pairing pairing_id offer_invite_id offer_payload) =
      ignore (Pairings.commit_accept_pairing storage pairing_id offer_invite_id offer_payload)
  perform (RuntimeCall.prepare_reject_pairing pairing_id) =
      ignore (Pairings.prepare_reject_pairing storage pairing_id)
  perform (RuntimeCall.commit_reject_pairing pairing_id) =
      ignore (Pairings.commit_reject_pairing storage pairing_id)
  perform (RuntimeCall.prepare_submit_pairing_code code) =
      ignore (Requests.prepare_submit_pairing_code storage code)
  perform (RuntimeCall.reconcile_outbox_pairing_contact installation_id) =
      Requests.reconcile_outbox_pairing_contact storage installation_id
  perform (RuntimeCall.commit_submitted_pairing item) =
      ignore (Requests.commit_submitted_pairing storage item)
  perform (RuntimeCall.prepare_cancel_pairing pairing_id) =
      ignore (Requests.prepare_cancel_pairing storage pairing_id)
  perform (RuntimeCall.confirm_pairing_cancelled pairing_id) =
      Requests.confirm_pairing_cancelled storage pairing_id
  perform (RuntimeCall.apply_pairing_peer_outcome pairing_id outcome) =
      Requests.apply_pairing_peer_outcome storage pairing_id outcome
  perform RuntimeCall.pairing_outbox = ignore (Requests.pairing_outbox storage)
  perform (RuntimeCall.merge_pairing_outbox remote) =
      ignore (Requests.merge_pairing_outbox storage remote)
  perform (RuntimeCall.finalize_pairing pairing_id) = Requests.finalize_pairing storage pairing_id
  perform (RuntimeCall.archive_pairing pairing_id) = Requests.archive_pairing storage pairing_id
  perform (RuntimeCall.update_contact_settings installation_id local_alias muted blocked) =
      ignore (Contacts.update_contact_settings storage installation_id local_alias muted blocked)
  perform (RuntimeCall.set_contact_transport_policy installation_id policy) =
      ignore (Contacts.set_contact_transport_policy storage installation_id policy)
  perform (RuntimeCall.remove_relationship removal_id installation_id preserve_history) =
      Contacts.remove_relationship storage removal_id installation_id preserve_history
  perform
        (RuntimeCall.remove_relationship_with_id installation_id removed_at preserve_history
          removal_id epoch) =
      Contacts.remove_relationship_with_id storage installation_id removed_at preserve_history
        removal_id epoch
  perform
        (RuntimeCall.apply_remote_relationship_removal installation_id removed_at removal_id
          epoch) =
      Contacts.apply_remote_relationship_removal storage installation_id removed_at removal_id epoch
  perform (RuntimeCall.contact_accepts_messages installation_id) =
      ignore (Contacts.contact_accepts_messages storage installation_id)
  perform (RuntimeCall.contact_allows_notifications installation_id) =
      ignore (Contacts.contact_allows_notifications storage installation_id)
  perform (RuntimeCall.verify_contact installation_id) =
      Contacts.verify_contact storage installation_id
  perform (RuntimeCall.start_conversation contact_id) =
      ignore (Contacts.start_conversation storage contact_id)
  perform (RuntimeCall.promote_contact contact opening) =
      ignore (Contacts.promote_contact storage contact opening)
  perform (RuntimeCall.welcome_accepted contact opening invite_id) =
      ignore (Contacts.welcome_accepted storage contact opening invite_id)
  perform (RuntimeCall.send_message_reply new_id conversation_id text reply_to_message_id) =
      ignore (
        Messages.send_message_reply storage uuid_text parse_uuid new_id conversation_id text
          reply_to_message_id)
  perform (RuntimeCall.retry_message message_id) =
      ignore (Messages.retry_message storage parse_uuid message_id)
  perform RuntimeCall.prepare_pending_send_effects =
      ignore (Messages.prepare_pending_send_effects storage parse_uuid)
  perform RuntimeCall.prepare_pending_receipt_effects =
      ignore (Messages.prepare_pending_receipt_effects storage)
  perform RuntimeCall.expedite_retry_after_ready = Messages.expedite_retry_after_ready storage
  perform (RuntimeCall.receive_message_reply conversation_id text message_id reply_to) =
      ignore
        (Incoming.receive_message_reply storage uuid_text conversation_id text message_id reply_to)
  perform (RuntimeCall.apply_message_read message_id) =
      ignore (Incoming.apply_message_read storage uuid_text message_id)
  perform (RuntimeCall.apply_message_transport_outcome message_id outcome) =
      ignore (Incoming.apply_message_transport_outcome storage uuid_text message_id outcome)
  perform (RuntimeCall.delete_message_local message_id) =
      Incoming.delete_message_local storage message_id
  perform (RuntimeCall.focus_conversation conversation_id focused) =
      Incoming.focus_conversation storage conversation_id focused
  perform (RuntimeCall.open_conversation conversation_id) =
      Incoming.open_conversation storage conversation_id
  perform RuntimeCall.close_conversation = Incoming.close_conversation storage
  perform (RuntimeCall.foreground visible) = Incoming.foreground storage visible

  unfoldable pub perform_all : List RuntimeCall → Action S Unit
  unfolding perform
  perform_all calls = for_each perform calls
