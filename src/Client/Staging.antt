-- ===== src/Client/Staging.antt =====
-- What a method of the runtime does to the events of a transaction: one rule for each way to build an
-- action.
pub mod Profile
pub mod Pairings
pub mod Requests
pub mod Contacts
pub mod Messages
pub mod Incoming
pub mod Calls
use t_orca.Base.{
  ℕ, ◌+◌, ◌<◌, ◌≡◌, refl, sym, ap, ◌∙◌, Bool, true, false, Option, none, some, List, [], ◌∷◌, ◌++◌,
  RuntimeError, RuntimeResult, ok, err, ok_or, find, if◌then◌else◌, arith, append_nil, append_assoc,
  lt→ltb, ltb, Text, is_empty, trim, Bool-cases, inl, inr,
}
use t_orca.Base.Method.{Method}
use t_orca.Client.Events.{RuntimeEvent, RuntimeTorStatus}
use t_orca.Client.Session.{
  RuntimeSession, push_event, select_conversation, clear_selected_conversation, set_app_foreground,
  set_conversation_focus, mark_bootstrap_emitted, publish_tor_status, publish_runtime_error,
  publish_runtime_log, is_last_status, is_connected, clear_runtime_error_dedup, names,
}
use t_orca.Client.Action.{
  Client, Action, pure, fail, lift, query, store, session_of, on_session, publish, now_ms, now_secs,
  for_each, collect, choose, required, ◌>>=◌, ◌>>◌,
}
use t_orca.Client.Stages.{
  Stages, Stages-refl, Stages-trans, push_event-Stages, select_conversation-Stages,
  clear_selected_conversation-Stages, set_app_foreground-Stages, set_conversation_focus-Stages,
  mark_bootstrap_emitted-Stages, publish_tor_status-Stages, publish_runtime_error-Stages,
  publish_runtime_log-Stages,
}

pub record Staged {S A : Type 0} (m : Action S A) : Type 0 where
  pub at : (c : Client S) → 0 < c.session.transaction_depth → Stages c.session ((m c).1).session

module _ {S A : Type 0} where
  pub Staged-pure : (a : A) → Staged (pure {S = S} a)
  unfolding pure
  Staged-pure a = record { at = λ c h. Stages-refl c.session }

  pub Staged-fail : (e : RuntimeError) → Staged (fail {S = S} {A = A} e)
  unfolding fail
  Staged-fail e = record { at = λ c h. Stages-refl c.session }

  pub Staged-lift : (r : RuntimeResult A) → Staged (lift {S = S} r)
  unfolding lift
  Staged-lift r = record { at = λ c h. Stages-refl c.session }

  pub Staged-query : (f : S → RuntimeResult A) → Staged (query f)
  unfolding query
  Staged-query f = record { at = λ c h. Stages-refl c.session }

  pub Staged-store : (m : Method S A) → Staged (store m)
  unfolding store
  Staged-store m = record { at = λ c h. Stages-refl c.session }

  pub Staged-session_of : (f : RuntimeSession → A) → Staged (session_of {S = S} f)
  unfolding session_of
  Staged-session_of f = record { at = λ c h. Stages-refl c.session }

  pub Staged-if : (b : Bool) (m n : Action S A) → Staged m → Staged n → Staged (if b then m else n)
  Staged-if true m n p q = p
  Staged-if false m n p q = q

module _ {S : Type 0} where
  pub Staged-now_ms : Staged (now_ms {S = S})
  unfolding now_ms
  Staged-now_ms = record { at = λ c h. Stages-refl c.session }

  pub Staged-now_secs : Staged (now_secs {S = S})
  unfolding now_secs
  Staged-now_secs = record { at = λ c h. Stages-refl c.session }

-- A change of the session that leaves the events alone, or pushes one.
pub Staged-on_session :
    {S : Type 0} (f : RuntimeSession → RuntimeSession)
    → ((s : RuntimeSession) → 0 < s.transaction_depth → Stages s (f s))
    → Staged (on_session {S = S} f)
unfolding on_session
Staged-on_session f p = record { at = λ c h. p c.session h }

pub Staged-publish : {S : Type 0} (event : RuntimeEvent) → Staged (publish {S = S} event)
unfolding publish
Staged-publish event = record { at = λ c h. push_event-Stages event c.session h }

module _ {S A B : Type 0} where
  Staged-continue :
      (r : RuntimeResult A) (c : Client S) (f : A → Action S B)
      → ((a : A) → Staged (f a))
      → 0 < c.session.transaction_depth
      → Stages c.session ((((lift r) >>= f) c).1).session
  unfolding ◌>>=◌ lift
  Staged-continue (ok a) c f p h = (p a).at c h
  Staged-continue (err e) c f p h = Stages-refl c.session

  pub Staged-bind :
      (m : Action S A) (f : A → Action S B) → Staged m → ((a : A) → Staged (f a)) → Staged (m >>= f)
  unfolding ◌>>=◌ lift
  Staged-bind m f p q = record {
    at = λ c h.
        let first = p.at c h in
        Stages-trans first (Staged-continue (m c).0 (m c).1 f q (rw (first.open_at) h));
  }

  pub Staged-choose :
      (o : Option A) (m : Action S B) (f : A → Action S B)
      → Staged m
      → ((a : A) → Staged (f a))
      → Staged (choose o m f)
  unfolding choose
  Staged-choose none m f p q = p
  Staged-choose (some a) m f p q = q a

module _ {S A : Type 0} where
  pub Staged-for_each :
      (body : A → Action S Unit) (xs : List A)
      → ((a : A) → Staged (body a))
      → Staged (for_each body xs)
  unfolding for_each
  Staged-for_each body [] p = Staged-pure tt
  Staged-for_each body (x ∷ xs) p =
      Staged-bind (body x) (λ _. for_each body xs) (p x) (λ _. Staged-for_each body xs p)

  pub Staged-required :
      (all : S → RuntimeResult (List A)) (test : A → Bool) (error : RuntimeError)
      → Staged (required all test error)
  unfolding required
  Staged-required all test error =
      Staged-bind (query all) (λ items. lift (ok_or (find test items) error)) (Staged-query all)
        (λ items. Staged-lift (ok_or (find test items) error))

module _ {S A B : Type 0} where
  pub Staged-collect :
      (body : A → Action S B) (xs : List A) → ((a : A) → Staged (body a)) → Staged (collect body xs)
  unfolding collect
  Staged-collect body [] p = Staged-pure []
  Staged-collect body (x ∷ xs) p =
      Staged-bind (body x) (λ y. collect body xs >>= λ ys. pure (y ∷ ys)) (p x)
        (λ y.
          Staged-bind (collect body xs) (λ ys. pure (y ∷ ys)) (Staged-collect body xs p)
            (λ ys. Staged-pure (y ∷ ys)))

pub ruleset staged_rules = (
  Staged-on_session, select_conversation-Stages, clear_selected_conversation-Stages,
  set_app_foreground-Stages, set_conversation_focus-Stages, mark_bootstrap_emitted-Stages,
  publish_tor_status-Stages, publish_runtime_error-Stages, publish_runtime_log-Stages, Staged-pure,
  Staged-fail, Staged-lift, Staged-query, Staged-store, Staged-session_of, Staged-if, Staged-now_ms,
  Staged-now_secs, Staged-publish, Staged-bind, Staged-choose, Staged-for_each, Staged-collect,
  Staged-required,
)
