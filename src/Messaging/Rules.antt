-- ===== src/Messaging/Rules.antt =====
-- packages/torchat-runtime/src/message_rules.rs: the state of a message after a send is prepared,
-- and after the transport has answered.
use t_orca.Base.{Option, none, some}
use t_orca.Domain.{MessageState, MessageTransportOutcome}

unfoldable pub message_state_on_send_prepare : MessageState → Option MessageState
message_state_on_send_prepare MessageState.queued = some MessageState.sending
message_state_on_send_prepare MessageState.sending = some MessageState.sending
message_state_on_send_prepare _ = none

unfoldable pub after_persisted : MessageState → Option MessageState
after_persisted MessageState.sending = some MessageState.sent
after_persisted MessageState.sent = some MessageState.sent
after_persisted MessageState.delivered = some MessageState.delivered
after_persisted MessageState.read = some MessageState.read
after_persisted _ = none

unfoldable pub after_delivered : MessageState → Option MessageState
after_delivered MessageState.sending = some MessageState.delivered
after_delivered MessageState.sent = some MessageState.delivered
after_delivered MessageState.delivered = some MessageState.delivered
after_delivered MessageState.read = some MessageState.read
after_delivered _ = none

unfoldable pub after_unavailable : MessageState → Option MessageState
after_unavailable MessageState.queued = some MessageState.queued
after_unavailable MessageState.sending = some MessageState.queued
after_unavailable MessageState.sent = some MessageState.queued
after_unavailable _ = none

unfoldable pub after_failure : MessageState → Option MessageState
after_failure MessageState.delivered = none
after_failure MessageState.read = none
after_failure _ = some MessageState.failed

-- The match on the outcome, whose arms are the four functions above.
unfoldable pub message_state_after_transport_outcome :
    MessageState → MessageTransportOutcome → Option MessageState
unfolding after_persisted after_delivered after_unavailable after_failure
message_state_after_transport_outcome s MessageTransportOutcome.peer_persisted = after_persisted s
message_state_after_transport_outcome s MessageTransportOutcome.delivered = after_delivered s
message_state_after_transport_outcome s MessageTransportOutcome.peer_delivered = after_delivered s
message_state_after_transport_outcome s MessageTransportOutcome.peer_unavailable =
    after_unavailable s
message_state_after_transport_outcome s MessageTransportOutcome.retryable_failure =
    after_unavailable s
message_state_after_transport_outcome s MessageTransportOutcome.permanent_failure = after_failure s
message_state_after_transport_outcome s MessageTransportOutcome.peer_authentication_failed =
    after_failure s
message_state_after_transport_outcome s MessageTransportOutcome.peer_rejected = after_failure s
