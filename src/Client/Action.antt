-- ===== src/Client/Action.antt =====
-- The state of a `ClientRuntime` (packages/torchat-runtime/src/runtime.rs) and its methods as actions:
-- what was written and pushed before an error stays. `clock` has the readings of the clock in order,
-- `readings` is how many were made.
use t_orca.Base.{
  ℕ, ◌+◌, Bool, Option, none, some, List, [], ◌∷◌, RuntimeError, RuntimeResult, ok, err, ok_or,
  find,
}
use t_orca.Base.Int.{ℤ, div_ℤ}
use t_orca.Base.Method.{Method}
use t_orca.Client.Events.{RuntimeEvent}
use t_orca.Client.Session.{RuntimeSession, push_event}

pub record Client (S : Type 0) : Type 0 where
  pub storage : S
  pub session : RuntimeSession
  pub clock : ℕ → ℤ
  pub readings : ℕ

abbrev pub Action : Type 0 → Type 0 → Type 0
Action S A = Client S → RuntimeResult A × Client S

module _ {S A : Type 0} where
  unfoldable pub pure : A → Action S A
  pure a c = (ok a, c)

  unfoldable pub fail : RuntimeError → Action S A
  fail e c = (err e, c)

  unfoldable pub lift : RuntimeResult A → Action S A
  lift r c = (r, c)

  -- A query of the storage, a call that may change it, and a query of the session.
  unfoldable pub query : (S → RuntimeResult A) → Action S A
  query f c = (f c.storage, c)

  unfoldable pub store : Method S A → Action S A
  store m c = let (answer, storage) = m c.storage in (answer, record c { storage = storage })

  unfoldable pub session_of : (RuntimeSession → A) → Action S A
  session_of f c = (ok (f c.session), c)

module _ {S A B : Type 0} where
  continue : RuntimeResult A → (A → Action S B) → Action S B
  continue (ok a) f c = f a c
  continue (err e) f c = (err e, c)

  -- `?` on what a method answers.
  infixl 5 ◌>>=◌
  unfoldable pub ◌>>=◌ : Action S A → (A → Action S B) → Action S B
  unfolding continue
  (m >>= f) c = let (answer, c') = m c in continue answer f c'

module _ {S B : Type 0} where
  infixl 5 ◌>>◌
  abbrev pub ◌>>◌ : Action S (Unit {0}) → Action S B → Action S B
  m >> k = m >>= λ _. k

module _ {S : Type 0} where
  unfoldable pub on_session : (RuntimeSession → RuntimeSession) → Action S (Unit {0})
  on_session f c = (ok tt, record c { session = f c.session })

  -- `self.session.push_event`.
  unfoldable pub publish : RuntimeEvent → Action S (Unit {0})
  unfolding push_event
  publish event c = (ok tt, record c { session = push_event event c.session })

  unfoldable pub now_ms : Action S ℤ
  now_ms c = (ok (c.clock c.readings), record c { readings = c.readings + 1 })

  -- The trait's `now_ms() / 1_000`.
  unfoldable pub now_secs : Action S ℤ
  now_secs c = (ok (div_ℤ (c.clock c.readings) 1000), record c { readings = c.readings + 1 })

  -- A loop whose body may fail, and one that collects what the body answers.
  unfoldable pub for_each : {A : Type 0} → (A → Action S (Unit {0})) → List A → Action S (Unit {0})
  for_each body [] = pure tt
  for_each body (x ∷ xs) = body x >> for_each body xs

  unfoldable pub collect : {A B : Type 0} → (A → Action S B) → List A → Action S (List B)
  collect body [] = pure []
  collect body (x ∷ xs) = body x >>= λ y. collect body xs >>= λ ys. pure (y ∷ ys)

  -- A match on an option.
  unfoldable pub choose : {A B : Type 0} → Option A → Action S B → (A → Action S B) → Action S B
  choose none m f = m
  choose (some a) m f = f a

  -- `find(test).ok_or_else(error)` over a collection of the storage.
  unfoldable pub required :
      {A : Type 0} → (S → RuntimeResult (List A)) → (A → Bool) → RuntimeError → Action S A
  required all test error = query all >>= λ items. lift (ok_or (find test items) error)
