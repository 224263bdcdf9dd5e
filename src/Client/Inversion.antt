-- ===== src/Client/Inversion.antt =====
-- What a successful action has done, one lemma for each way to build one.
use t_orca.Base.{
  ◌≡◌, refl, Bool, true, false, Option, none, some, List, find, RuntimeError, RuntimeResult, ok,
  err, ok_or, if◌then◌else◌, arith, ◌∙◌,
}
use t_orca.Client.Action.{Client, Action, pure, fail, lift, query, required, ◌>>=◌}

module _ {A : Type 0} where
  pub ok_or_ok : (o : Option A) (e : RuntimeError) (a : A) → ok_or o e ≡ ok a → o ≡ some a
  ok_or_ok none e a h = cc
  ok_or_ok (some x) e a h = ground arith

module _ {S : Type 0} where
  -- A guard that lets pass.
  pub guard_ok :
      (test : Bool) (e : RuntimeError) (c c' : Client S)
      → (if test then fail e else pure tt) c ≡ (ok tt, c')
      → (test ≡ false) × (c' ≡ c)
  unfolding fail pure
  guard_ok true e c c' h = (cc, cc)
  guard_ok false e c c' h = (refl, ground arith)

module _ {S A B : Type 0} where
  pub bind_ok :
      (m : Action S A) (f : A → Action S B) (c c' : Client S) (b : B)
      → (m >>= f) c ≡ (ok b, c')
      → (a : A) × (t : Client S) × (m c ≡ (ok a, t)) × (f a t ≡ (ok b, c'))
  unfolding ◌>>=◌
  bind_ok m f c c' b e = go (m c) refl e
    where
      go :
          (r : RuntimeResult A × Client S)
          → m c ≡ r
          → ((λ _. r) >>= f) c ≡ (ok b, c')
          → (a : A) × (t : Client S) × (m c ≡ (ok a, t)) × (f a t ≡ (ok b, c'))
      go (ok a, t) h e = (a, t, h, e)
      go (err x, t) h e = cc

module _ {S A : Type 0} where
  pub lift_ok :
      (r : RuntimeResult A) (c c' : Client S) (a : A)
      → lift r c ≡ (ok a, c')
      → (r ≡ ok a) × (c' ≡ c)
  unfolding lift
  lift_ok r c c' a e = (ground arith, ground arith)

  pub pure_ok : (a b : A) (c c' : Client S) → pure a c ≡ (ok b, c') → b ≡ a
  unfolding pure
  pure_ok a b c c' e = ground arith

  pub query_ok :
      (f : S → RuntimeResult A) (c c' : Client S) (a : A)
      → query f c ≡ (ok a, c')
      → (f c.storage ≡ ok a) × (c' ≡ c)
  unfolding query
  query_ok f c c' a e = (ground arith, ground arith)

module _ {S A : Type 0} where
  pub required_ok :
      (all : S → RuntimeResult (List A)) (test : A → Bool) (error : RuntimeError) (c c' : Client S)
      (a : A)
      → required all test error c ≡ (ok a, c')
      → (xs : List A) × (all c.storage ≡ ok xs) × (find test xs ≡ some a) × (c' ≡ c)
  unfolding required
  required_ok all test error c c' a h =
      let (xs, t, asked, answered) =
        bind_ok (query all) (λ items. lift (ok_or (find test items) error)) c c' a h in
      let (all_are, same) = query_ok all c t xs asked in
      let (found, same') = lift_ok (ok_or (find test xs) error) t c' a answered in
      (xs, all_are, ok_or_ok (find test xs) error a found, same' ∙ same)
