-- ===== src/Client/Stages.antt =====
-- What a change of the session does to the events of a transaction.
use t_orca.Base.{
  ◌<◌, ◌≡◌, refl, sym, ap, ◌∙◌, Bool, some, List, [], ◌∷◌, ◌++◌, if◌then◌else◌, arith, append_nil,
  append_assoc, lt→ltb, Text, is_empty, trim, Bool-cases, inl, inr,
}
use t_orca.Client.Events.{RuntimeEvent, RuntimeTorStatus}
use t_orca.Client.Session.{
  RuntimeSession, push_event, select_conversation, clear_selected_conversation, set_app_foreground,
  set_conversation_focus, mark_bootstrap_emitted, publish_tor_status, publish_runtime_error,
  publish_runtime_log, is_last_status, is_connected, clear_runtime_error_dedup, names,
}

-- Nothing is delivered, the transaction stays open, and events are only added to the staged ones.
pub record Stages (before after : RuntimeSession) : Type 0 where
  pub delivered : after.events ≡ before.events
  pub open_at : after.transaction_depth ≡ before.transaction_depth
  pub new : List RuntimeEvent
  pub grown : after.staged_events ≡ before.staged_events ++ new

pub Stages-refl : (s : RuntimeSession) → Stages s s
Stages-refl s = record {
  delivered = refl;
  open_at = refl;
  new = [];
  grown = sym (append_nil s.staged_events);
}

pub Stages-trans : {s t u : RuntimeSession} → Stages s t → Stages t u → Stages s u
Stages-trans {s} {t} {u} p q = record {
  delivered = q.delivered ∙ p.delivered;
  open_at = q.open_at ∙ p.open_at;
  new = p.new ++ q.new;
  grown = q.grown ∙ ap (λ es. es ++ q.new) p.grown ∙ append_assoc s.staged_events p.new q.new;
}

-- A pushed event is staged.
pub push_event-Stages :
    (event : RuntimeEvent) (s : RuntimeSession)
    → 0 < s.transaction_depth
    → Stages s (push_event event s)
unfolding push_event
push_event-Stages event s h =
    rw (lt→ltb 0 s.transaction_depth h)
      (record { delivered = refl; open_at = refl; new = event ∷ []; grown = refl })

-- A change of the other fields.
Stages-same :
    (s t : RuntimeSession)
    → t.events ≡ s.events
    → t.transaction_depth ≡ s.transaction_depth
    → t.staged_events ≡ s.staged_events
    → Stages s t
Stages-same s t p q r = record {
  delivered = p;
  open_at = q;
  new = [];
  grown = r ∙ sym (append_nil s.staged_events);
}

pub select_conversation-Stages :
    (id : Text) (s : RuntimeSession) → 0 < s.transaction_depth → Stages s (select_conversation id s)
unfolding select_conversation
select_conversation-Stages id s h = Stages-same s (select_conversation id s) refl refl refl

pub clear_selected_conversation-Stages :
    (s : RuntimeSession) → 0 < s.transaction_depth → Stages s (clear_selected_conversation s)
unfolding clear_selected_conversation
clear_selected_conversation-Stages s h =
    Stages-same s (clear_selected_conversation s) refl refl refl

pub set_app_foreground-Stages :
    (visible : Bool) (s : RuntimeSession)
    → 0 < s.transaction_depth
    → Stages s (set_app_foreground visible s)
unfolding set_app_foreground
set_app_foreground-Stages visible s h = Stages-same s (set_app_foreground visible s) refl refl refl

pub set_conversation_focus-Stages :
    (id : Text) (focused : Bool) (s : RuntimeSession)
    → 0 < s.transaction_depth
    → Stages s (set_conversation_focus id focused s)
unfolding set_conversation_focus
set_conversation_focus-Stages id focused s h =
    Stages-same s (set_conversation_focus id focused s) (ground arith) (ground arith) (ground arith)

pub mark_bootstrap_emitted-Stages :
    (s : RuntimeSession) → 0 < s.transaction_depth → Stages s (mark_bootstrap_emitted s).1
unfolding mark_bootstrap_emitted
mark_bootstrap_emitted-Stages s h =
    Stages-same s (mark_bootstrap_emitted s).1 (ground arith) (ground arith) (ground arith)

-- An event is pushed after the other fields have changed.
push_after :
    (event : RuntimeEvent) (s t : RuntimeSession)
    → Stages s t
    → 0 < s.transaction_depth
    → Stages s (push_event event t)
push_after event s t p h = Stages-trans p (push_event-Stages event t (rw (p.open_at) h))

pub publish_tor_status-Stages :
    (status : RuntimeTorStatus) (s : RuntimeSession)
    → 0 < s.transaction_depth
    → Stages s (publish_tor_status status s)
unfolding publish_tor_status
publish_tor_status-Stages status s h = elim (Bool-cases (is_last_status s.last_tor_status status)) [
  | inl e ↦ rw e (Stages-refl s)
  | inr e ↦ rw e (
      push_after (RuntimeEvent.tor_status status) s
        (if is_connected status.phase
          then clear_runtime_error_dedup (record s { last_tor_status = some status })
          else record s { last_tor_status = some status })
        (Stages-same s _ (ground arith) (ground arith) (ground arith)) h)
]

pub publish_runtime_error-Stages :
    (message : Text) (s : RuntimeSession)
    → 0 < s.transaction_depth
    → Stages s (publish_runtime_error message s)
unfolding publish_runtime_error
publish_runtime_error-Stages message s h = elim (Bool-cases (names s.last_runtime_error message)) [
  | inl e ↦ rw e (Stages-refl s)
  | inr e ↦ rw e (
      push_after (RuntimeEvent.runtime_error message) s
        (record s { last_runtime_error = some message }) (Stages-same s _ refl refl refl) h)
]

pub publish_runtime_log-Stages :
    (message : Text) (s : RuntimeSession)
    → 0 < s.transaction_depth
    → Stages s (publish_runtime_log message s)
unfolding publish_runtime_log
publish_runtime_log-Stages message s h = elim (Bool-cases (is_empty (trim message))) [
  | inl e ↦ rw e (Stages-refl s)
  | inr e ↦ rw e (push_event-Stages (RuntimeEvent.runtime_log (trim message)) s h)
]
