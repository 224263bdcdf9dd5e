-- ===== src/Domain/Words.antt =====
-- The spelled states: `as_str` and `try_from` of `ConversationState`, `as_str` of `MessageState`
-- (packages/torchat-domain/src/lib.rs), and `runtime_message_state`
-- (packages/torchat-runtime/src/logic.rs), which reads the latter.
use t_orca.Base.{
  ◌≡◌, refl, ◌↔◌, ◌||◌, ◌++◌, Text, codes, text_eq, text_eq→eq, trim, to_ascii_uppercase, Result,
  ok, err, arith, if◌then◌else◌,
}
use t_orca.Domain.{ConversationState, MessageState}

pub as_str : ConversationState → Text
as_str ConversationState.pending = codes "PENDING"
as_str ConversationState.verifying = codes "VERIFYING"
as_str ConversationState.active = codes "ACTIVE"
as_str ConversationState.offline = codes "OFFLINE"
as_str ConversationState.failed = codes "FAILED"

parse_word : Text → Result Text ConversationState
parse_word w =
    if text_eq w (codes "PENDING")
    then ok ConversationState.pending
    else if text_eq w (codes "VERIFYING")
    then ok ConversationState.verifying
    else if text_eq w (codes "ACTIVE")
    then ok ConversationState.active
    else if text_eq w (codes "OFFLINE")
    then ok ConversationState.offline
    else if text_eq w (codes "FAILED")
    then ok ConversationState.failed
    else err (codes "unknown conversation state: " ++ w)

pub try_from : Text → Result Text ConversationState
unfolding parse_word
try_from value = parse_word (to_ascii_uppercase (trim value))

pub message_as_str : MessageState → Text
message_as_str MessageState.queued = codes "QUEUED"
message_as_str MessageState.sending = codes "SENDING"
message_as_str MessageState.sent = codes "SENT"
message_as_str MessageState.delivered = codes "DELIVERED"
message_as_str MessageState.read = codes "READ"
message_as_str MessageState.failed = codes "FAILED"

message_word : Text → MessageState
message_word w =
    if text_eq w (codes "QUEUED") || text_eq w (codes "PENDING")
    then MessageState.queued
    else if text_eq w (codes "SENDING")
    then MessageState.sending
    else if text_eq w (codes "SENT")
    then MessageState.sent
    else if text_eq w (codes "DELIVERED")
    then MessageState.delivered
    else if text_eq w (codes "READ")
    then MessageState.read
    else MessageState.failed

pub runtime_message_state : Text → MessageState
unfolding message_word
runtime_message_state state = message_word (to_ascii_uppercase state)

parse_word→eq : (w : Text) (s : ConversationState) → parse_word w ≡ ok s → w ≡ as_str s
unfolding parse_word as_str
parse_word→eq w s h = ground (
  arith,
  text_eq→eq w (codes "PENDING"),
  text_eq→eq w (codes "VERIFYING"),
  text_eq→eq w (codes "ACTIVE"),
  text_eq→eq w (codes "OFFLINE"),
  text_eq→eq w (codes "FAILED"),
)

parse_word-as_str : (s : ConversationState) → parse_word (as_str s) ≡ ok s
unfolding parse_word as_str text_eq
parse_word-as_str ConversationState.pending = refl
parse_word-as_str s = refl

-- A text is read as a state exactly when, trimmed and in upper case, it is that state's word.
try_from_iff :
    (value : Text) (s : ConversationState)
    → (try_from value ≡ ok s) ↔ (to_ascii_uppercase (trim value) ≡ as_str s)
unfolding try_from
try_from_iff value s = (parse_word→eq _ s, λ e. rw e (parse_word-as_str s))

try_from-as_str : (s : ConversationState) → try_from (as_str s) ≡ ok s
unfolding try_from as_str text_eq trim to_ascii_uppercase
try_from-as_str ConversationState.pending = refl
try_from-as_str s = refl

runtime_message_state-as_str : (s : MessageState) → runtime_message_state (message_as_str s) ≡ s
unfolding runtime_message_state message_as_str text_eq to_ascii_uppercase
runtime_message_state-as_str MessageState.queued = refl
runtime_message_state-as_str s = refl
