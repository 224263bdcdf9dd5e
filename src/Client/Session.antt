-- ===== src/Client/Session.antt =====
-- packages/torchat-runtime/src/session.rs: what the runtime keeps between two commands. Events that
-- are pushed inside a transaction are staged, and delivered when the outermost one commits.
use t_orca.Base.{
  ℕ, zero, suc, ◌+◌, Bool, true, false, not, ◌&&◌, ◌||◌, Option, none, some, List, [], ◌∷◌, ◌++◌,
  min, ◌^◌, ◌-◌, ltb, is_empty, is_some_and, if◌then◌else◌, ite, Text, text_eq, trim,
}
use t_orca.Changes.{set_insert}
use t_orca.Client.Events.{
  RuntimeEvent, RuntimeTorStatus, RuntimeTorStatus-discrete, RuntimeStatusPhase,
}

pub record RuntimeSession : Type 0 where
  pub selected_conversation_id : Option Text
  pub focused_conversation_id : Option Text
  pub app_foreground : Bool
  pub events : List RuntimeEvent
  pub staged_events : List RuntimeEvent
  pub bootstrap_emitted : Bool
  pub last_tor_status : Option RuntimeTorStatus
  pub last_runtime_error : Option Text
  pub transaction_depth : ℕ

-- The derived `Default`.
abbrev pub default_session : RuntimeSession
default_session = record {
  selected_conversation_id = none;
  focused_conversation_id = none;
  app_foreground = false;
  events = [];
  staged_events = [];
  bootstrap_emitted = false;
  last_tor_status = none;
  last_runtime_error = none;
  transaction_depth = 0;
}

abbrev pub new_session : RuntimeSession
new_session = record default_session { app_foreground = true }

-- `option.as_deref() == Some(text)`.
unfoldable pub names : Option Text → Text → Bool
names o t = is_some_and (λ s. text_eq s t) o

unfoldable pub select_conversation : Text → RuntimeSession → RuntimeSession
select_conversation id s = record s {
  selected_conversation_id = some id;
  focused_conversation_id = none;
}

unfoldable pub clear_selected_conversation : RuntimeSession → RuntimeSession
clear_selected_conversation s = record s {
  selected_conversation_id = none;
  focused_conversation_id = none;
}

unfoldable pub set_app_foreground : Bool → RuntimeSession → RuntimeSession
set_app_foreground foreground s = record s {
  app_foreground = foreground;
  focused_conversation_id = if foreground then s.focused_conversation_id else none;
}

unfoldable pub set_conversation_focus : Text → Bool → RuntimeSession → RuntimeSession
unfolding names
set_conversation_focus id focused s =
    if focused
    then record s { selected_conversation_id = some id; focused_conversation_id = some id }
    else if names s.focused_conversation_id id
    then record s { focused_conversation_id = none }
    else s

unfoldable pub conversation_is_attended : Text → RuntimeSession → Bool
unfolding names
conversation_is_attended id s =
    s.app_foreground && names s.selected_conversation_id id && names s.focused_conversation_id id

-- The depth is a `usize` that saturates.
unfoldable pub begin_transaction : RuntimeSession → RuntimeSession
begin_transaction s = record s { transaction_depth = min (s.transaction_depth + 1) (2 ^ 64 - 1) }

unfoldable pub commit_transaction : RuntimeSession → RuntimeSession
commit_transaction s = at_depth s.transaction_depth
  where
    at_depth : ℕ → RuntimeSession
    at_depth zero = s
    at_depth (suc zero) = record s {
      transaction_depth = 0;
      events = s.events ++ s.staged_events;
      staged_events = [];
    }
    at_depth (suc depth) = record s { transaction_depth = depth }

unfoldable pub rollback_transaction : RuntimeSession → RuntimeSession
rollback_transaction s = at_depth s.transaction_depth
  where
    at_depth : ℕ → RuntimeSession
    at_depth zero = s
    at_depth (suc zero) = record s { transaction_depth = 0; staged_events = [] }
    at_depth (suc depth) = record s { transaction_depth = depth }

unfoldable pub push_event : RuntimeEvent → RuntimeSession → RuntimeSession
push_event event s =
    if ltb 0 s.transaction_depth
    then record s { staged_events = s.staged_events ++ event ∷ [] }
    else record s { events = s.events ++ event ∷ [] }

-- The answer says whether this was the first call.
unfoldable pub mark_bootstrap_emitted : RuntimeSession → Bool × RuntimeSession
mark_bootstrap_emitted s =
    if s.bootstrap_emitted then (false, s) else (true, record s { bootstrap_emitted = true })

unfoldable pub clear_runtime_error_dedup : RuntimeSession → RuntimeSession
clear_runtime_error_dedup s = record s { last_runtime_error = none }

unfoldable pub is_connected : RuntimeStatusPhase → Bool
is_connected RuntimeStatusPhase.connected = true
is_connected _ = false

unfoldable pub is_last_status : Option RuntimeTorStatus → RuntimeTorStatus → Bool
unfolding RuntimeTorStatus-discrete
is_last_status none status = false
is_last_status (some last) status = ite (RuntimeTorStatus-discrete last status) true false

unfoldable pub publish_tor_status : RuntimeTorStatus → RuntimeSession → RuntimeSession
unfolding is_last_status is_connected clear_runtime_error_dedup push_event
publish_tor_status status s =
    if is_last_status s.last_tor_status status
    then s
    else (let noted = record s { last_tor_status = some status } in
        push_event (RuntimeEvent.tor_status status)
          (if is_connected status.phase then clear_runtime_error_dedup noted else noted))

unfoldable pub publish_runtime_error : Text → RuntimeSession → RuntimeSession
unfolding names push_event
publish_runtime_error message s =
    if names s.last_runtime_error message
    then s
    else push_event (RuntimeEvent.runtime_error message)
        (record s { last_runtime_error = some message })

unfoldable pub publish_runtime_log : Text → RuntimeSession → RuntimeSession
unfolding push_event
publish_runtime_log message s =
    if is_empty (trim message) then s else push_event (RuntimeEvent.runtime_log (trim message)) s

unfoldable pub drain_events : RuntimeSession → List RuntimeEvent × RuntimeSession
drain_events s = (s.events, record s { events = [] })

unfoldable pub has_pending_events : RuntimeSession → Bool
has_pending_events s = not (is_empty s.events) || not (is_empty s.staged_events)

-- The conversation that a change of messages belongs to.
with_conversation : Option Text → Bool × List Text → Bool × List Text
with_conversation none (application, conversations) = (true, conversations)
with_conversation (some id) (application, conversations) = (true, set_insert id conversations)

-- One event of the loop of `pending_projection_changes`.
unfoldable pub note_event : Bool × List Text → RuntimeEvent → Bool × List Text
unfolding with_conversation
note_event acc (RuntimeEvent.profile_ready profile) = (true, acc.1)
note_event acc (RuntimeEvent.invite_received id nickname) = (true, acc.1)
note_event acc (RuntimeEvent.invite_state_changed id state) = (true, acc.1)
note_event acc (RuntimeEvent.peer_endpoint_changed id status) = (true, acc.1)
note_event acc (RuntimeEvent.peer_connection_changed id status retry) = (true, acc.1)
note_event acc (RuntimeEvent.contact_capability_changed id capability sequence status) =
    (true, acc.1)
note_event acc (RuntimeEvent.changed kind) = (true, acc.1)
note_event acc (RuntimeEvent.message_received id conversation text) =
    with_conversation conversation acc
note_event acc (RuntimeEvent.message_state_changed id conversation state) =
    with_conversation conversation acc
note_event acc (RuntimeEvent.conversation_read_changed conversation unread) =
    with_conversation conversation acc
note_event acc _ = acc

unfoldable pub note_events : Bool × List Text → List RuntimeEvent → Bool × List Text
unfolding note_event
note_events acc [] = acc
note_events acc (event ∷ events) = note_events (note_event acc event) events

unfoldable pub pending_projection_changes : RuntimeSession → Bool × List Text
unfolding note_events
pending_projection_changes s = note_events (false, []) (s.events ++ s.staged_events)
