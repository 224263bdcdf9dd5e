-- ===== src/Messaging/Progress.antt =====
-- Where the transport's answers may take a message, by the rules of
-- packages/torchat-runtime/src/message_rules.rs.
use t_orca.Base.{
  ◌≡◌, refl, inl, inr, true, Option, some, List, [], ◌∷◌, arith, unwrap_or, Option-cases, Text, ok,
}
use t_orca.Base.Int.{ℤ}
use t_orca.Models.{ChatMessage}
use t_orca.Messaging.Outcome.{MessageStorage, apply_to, apply_outcome}
use t_orca.Domain.{message_state_eq, MessageState, MessageTransportOutcome, message_is_terminal}
use t_orca.Messaging.Rules.{message_state_on_send_prepare, message_state_after_transport_outcome}

-- What happens to an outgoing message: a send is prepared, or the transport answers. A refused rule
-- leaves the message as it is.
pub data Happening : Type 0 where
  prepare : Happening
  outcome : MessageTransportOutcome → Happening

abbrev pub rule : Happening → MessageState → Option MessageState
rule prepare s = message_state_on_send_prepare s
rule (outcome o) s = message_state_after_transport_outcome s o

abbrev pub run : List Happening → MessageState → MessageState
run [] s = s
run (h ∷ hs) s = run hs (unwrap_or (rule h s) s)

rule-final :
    (h : Happening) (s t : MessageState) → message_is_terminal s ≡ true → rule h s ≡ some t → t ≡ s
unfolding message_is_terminal message_state_on_send_prepare message_state_after_transport_outcome
rule-final prepare s t f e = ground arith
rule-final (outcome o) s t f e = ground arith

unwrap_or-rule_final :
    (h : Happening) (s : MessageState) → message_is_terminal s ≡ true → unwrap_or (rule h s) s ≡ s
unwrap_or-rule_final h s f = elim (Option-cases (rule h s)) [
  | inl e ↦ rw e refl
  | inr (t, e) ↦ rw e (rule-final h s t f e)
]

-- A message that has been delivered, read or given up stays so, whatever the transport answers
-- later and however often a send is prepared again.
pub run-final :
    (hs : List Happening) (s : MessageState) → message_is_terminal s ≡ true → run hs s ≡ s
run-final [] s f = refl
run-final (h ∷ hs) s f = rw (unwrap_or-rule_final h s f) (run-final hs s f)

-- The transport's answer for a message that has been delivered, read or given up writes nothing,
-- also where it is refused.
pub apply_outcome-final :
    {S : Type 0} (storage : MessageStorage S) (message_id : Text) (o : MessageTransportOutcome)
    (retry_at : Option ℤ) (error_detail : Option Text) (m : ChatMessage) (s : S)
    → storage.message_by_id s message_id ≡ ok (some m)
    → message_is_terminal m.state ≡ true
    → (apply_outcome storage message_id o retry_at error_detail s).1 ≡ s
unfolding apply_outcome apply_to message_is_terminal message_state_after_transport_outcome
    message_state_eq
apply_outcome-final storage message_id o retry_at error_detail m s found final = ground arith
