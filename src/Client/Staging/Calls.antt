-- ===== src/Client/Staging/Calls.antt =====
-- Every command of the client runtime only stages events while a transaction is open.
use t_orca.Base.{ℕ, Text, Option, List}
use t_orca.Client.Storage.{RuntimeStorage}
use t_orca.Client.Action.{Action, pure}
use t_orca.Client.Staging.{Staged, Staged-bind, Staged-pure, Staged-for_each}
use t_orca.Client.Staging.Profile.{
  commit_nickname-Staged, apply_remote_profile-Staged, bootstrap_runtime-Staged,
  report_tor_status-Staged, report_transport_status-Staged, report_runtime_error-Staged,
  report_runtime_log-Staged, connect-Staged,
}
use t_orca.Client.Staging.Pairings.{
  require_pairing_profile_ready-Staged, commit_pairing_code-Staged, expire_pending_pairings-Staged,
  merge_pairing_inbox-Staged, receive_pairing_offer-Staged, pairing_offer_payload-Staged,
  accept_received_pairing-Staged, prepare_accept_pairing-Staged, commit_accept_pairing-Staged,
  prepare_reject_pairing-Staged, commit_reject_pairing-Staged,
}
use t_orca.Client.Staging.Requests.{
  prepare_submit_pairing_code-Staged, reconcile_outbox_pairing_contact-Staged,
  commit_submitted_pairing-Staged, prepare_cancel_pairing-Staged, confirm_pairing_cancelled-Staged,
  apply_pairing_peer_outcome-Staged, pairing_outbox-Staged, merge_pairing_outbox-Staged,
  finalize_pairing-Staged, archive_pairing-Staged,
}
use t_orca.Client.Staging.Contacts.{
  update_contact_settings-Staged, set_contact_transport_policy-Staged, remove_relationship-Staged,
  remove_relationship_with_id-Staged, apply_remote_relationship_removal-Staged,
  contact_accepts_messages-Staged, contact_allows_notifications-Staged, verify_contact-Staged,
  start_conversation-Staged, promote_contact-Staged, welcome_accepted-Staged,
}
use t_orca.Client.Staging.Messages.{
  send_message_reply-Staged, retry_message-Staged, prepare_pending_send_effects-Staged,
  prepare_pending_receipt_effects-Staged, expedite_retry_after_ready-Staged,
}
use t_orca.Client.Staging.Incoming.{
  receive_message_reply-Staged, apply_message_read-Staged, apply_message_transport_outcome-Staged,
  delete_message_local-Staged, focus_conversation-Staged, open_conversation-Staged,
  close_conversation-Staged, foreground-Staged,
}
use t_orca.Client.Calls.{RuntimeCall, ignore, perform, perform_all}

module _ {S : Type 0} (storage : RuntimeStorage S) (uuid_text : ℕ → Text)
    (parse_uuid : Text → Option ℕ) where
  ignore-Staged : {A : Type 0} {m : Action S A} → Staged m → Staged (ignore m)
  unfolding ignore
  ignore-Staged {m = m} p = Staged-bind m (λ _. pure tt) p (λ _. Staged-pure tt)

  perform-Staged : (call : RuntimeCall) → Staged (perform storage uuid_text parse_uuid call)
  unfolding perform ignore
  perform-Staged (RuntimeCall.commit_nickname _) = ignore-Staged (commit_nickname-Staged storage _)
  perform-Staged (RuntimeCall.apply_remote_profile _) =
      ignore-Staged (apply_remote_profile-Staged storage _)
  perform-Staged RuntimeCall.bootstrap_runtime = ignore-Staged (bootstrap_runtime-Staged storage)
  perform-Staged (RuntimeCall.report_tor_status _) = report_tor_status-Staged storage _
  perform-Staged (RuntimeCall.report_transport_status _ _ _ _ _ _ _ _ _ _) =
      report_transport_status-Staged storage _ _ _ _ _ _ _ _ _ _
  perform-Staged (RuntimeCall.report_runtime_error _) = report_runtime_error-Staged storage _
  perform-Staged (RuntimeCall.report_runtime_log _) = report_runtime_log-Staged storage _
  perform-Staged (RuntimeCall.connect _) = ignore-Staged (connect-Staged storage _)
  perform-Staged RuntimeCall.require_pairing_profile_ready =
      require_pairing_profile_ready-Staged storage
  perform-Staged (RuntimeCall.commit_pairing_code _) = commit_pairing_code-Staged storage _
  perform-Staged RuntimeCall.expire_pending_pairings = expire_pending_pairings-Staged storage
  perform-Staged (RuntimeCall.merge_pairing_inbox _) =
      ignore-Staged (merge_pairing_inbox-Staged storage _)
  perform-Staged (RuntimeCall.receive_pairing_offer _) = receive_pairing_offer-Staged storage _
  perform-Staged (RuntimeCall.pairing_offer_payload _) =
      ignore-Staged (pairing_offer_payload-Staged storage _)
  perform-Staged (RuntimeCall.accept_received_pairing _) = accept_received_pairing-Staged storage _
  perform-Staged (RuntimeCall.prepare_accept_pairing _) =
      ignore-Staged (prepare_accept_pairing-Staged storage _)
  perform-Staged (RuntimeCall.commit_accept_pairing _ _ _) =
      ignore-Staged (commit_accept_pairing-Staged storage _ _ _)
  perform-Staged (RuntimeCall.prepare_reject_pairing _) =
      ignore-Staged (prepare_reject_pairing-Staged storage _)
  perform-Staged (RuntimeCall.commit_reject_pairing _) =
      ignore-Staged (commit_reject_pairing-Staged storage _)
  perform-Staged (RuntimeCall.prepare_submit_pairing_code _) =
      ignore-Staged (prepare_submit_pairing_code-Staged storage _)
  perform-Staged (RuntimeCall.reconcile_outbox_pairing_contact _) =
      reconcile_outbox_pairing_contact-Staged storage _
  perform-Staged (RuntimeCall.commit_submitted_pairing _) =
      ignore-Staged (commit_submitted_pairing-Staged storage _)
  perform-Staged (RuntimeCall.prepare_cancel_pairing _) =
      ignore-Staged (prepare_cancel_pairing-Staged storage _)
  perform-Staged (RuntimeCall.confirm_pairing_cancelled _) =
      confirm_pairing_cancelled-Staged storage _
  perform-Staged (RuntimeCall.apply_pairing_peer_outcome _ _) =
      apply_pairing_peer_outcome-Staged storage _ _
  perform-Staged RuntimeCall.pairing_outbox = ignore-Staged (pairing_outbox-Staged storage)
  perform-Staged (RuntimeCall.merge_pairing_outbox _) =
      ignore-Staged (merge_pairing_outbox-Staged storage _)
  perform-Staged (RuntimeCall.finalize_pairing _) = finalize_pairing-Staged storage _
  perform-Staged (RuntimeCall.archive_pairing _) = archive_pairing-Staged storage _
  perform-Staged (RuntimeCall.update_contact_settings _ _ _ _) =
      ignore-Staged (update_contact_settings-Staged storage _ _ _ _)
  perform-Staged (RuntimeCall.set_contact_transport_policy _ _) =
      ignore-Staged (set_contact_transport_policy-Staged storage _ _)
  perform-Staged (RuntimeCall.remove_relationship _ _ _) = remove_relationship-Staged storage _ _ _
  perform-Staged (RuntimeCall.remove_relationship_with_id _ _ _ _ _) =
      remove_relationship_with_id-Staged storage _ _ _ _ _
  perform-Staged (RuntimeCall.apply_remote_relationship_removal _ _ _ _) =
      apply_remote_relationship_removal-Staged storage _ _ _ _
  perform-Staged (RuntimeCall.contact_accepts_messages _) =
      ignore-Staged (contact_accepts_messages-Staged storage _)
  perform-Staged (RuntimeCall.contact_allows_notifications _) =
      ignore-Staged (contact_allows_notifications-Staged storage _)
  perform-Staged (RuntimeCall.verify_contact _) = verify_contact-Staged storage _
  perform-Staged (RuntimeCall.start_conversation _) =
      ignore-Staged (start_conversation-Staged storage _)
  perform-Staged (RuntimeCall.promote_contact _ _) =
      ignore-Staged (promote_contact-Staged storage _ _)
  perform-Staged (RuntimeCall.welcome_accepted _ _ _) =
      ignore-Staged (welcome_accepted-Staged storage _ _ _)
  perform-Staged (RuntimeCall.send_message_reply _ _ _ _) =
      ignore-Staged (send_message_reply-Staged storage _ _ _ _ _ _)
  perform-Staged (RuntimeCall.retry_message _) = ignore-Staged (retry_message-Staged storage _ _)
  perform-Staged RuntimeCall.prepare_pending_send_effects =
      ignore-Staged (prepare_pending_send_effects-Staged storage _)
  perform-Staged RuntimeCall.prepare_pending_receipt_effects =
      ignore-Staged (prepare_pending_receipt_effects-Staged storage)
  perform-Staged RuntimeCall.expedite_retry_after_ready = expedite_retry_after_ready-Staged storage
  perform-Staged (RuntimeCall.receive_message_reply _ _ _ _) =
      ignore-Staged (receive_message_reply-Staged storage _ _ _ _ _)
  perform-Staged (RuntimeCall.apply_message_read _) =
      ignore-Staged (apply_message_read-Staged storage _ _)
  perform-Staged (RuntimeCall.apply_message_transport_outcome _ _) =
      ignore-Staged (apply_message_transport_outcome-Staged storage _ _ _)
  perform-Staged (RuntimeCall.delete_message_local _) = delete_message_local-Staged storage _
  perform-Staged (RuntimeCall.focus_conversation _ _) = focus_conversation-Staged storage _ _
  perform-Staged (RuntimeCall.open_conversation _) = open_conversation-Staged storage _
  perform-Staged RuntimeCall.close_conversation = close_conversation-Staged storage
  perform-Staged (RuntimeCall.foreground _) = foreground-Staged storage _

  pub perform_all-Staged :
      (calls : List RuntimeCall) → Staged (perform_all storage uuid_text parse_uuid calls)
  unfolding perform_all
  perform_all-Staged calls =
      Staged-for_each (perform storage uuid_text parse_uuid) calls perform-Staged
