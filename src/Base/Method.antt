-- ===== src/Base/Method.antt =====
-- A method that changes a store and may fail: on an error the store is as the writes before it
-- left it. The caller's transaction decides what becomes of them.
use mathlib.Core.Path.{◌≡◌, refl}
use t_orca.Base.Results.{RuntimeResult, ok, err}

abbrev pub Method {ℓ} : Type ℓ → Type 0 → Type ℓ
Method S A = S → RuntimeResult A × S

module _ {ℓ} {S : Type ℓ} where
  abbrev pub return : {A : Type 0} → A → Method S A
  return a s = (ok a, s)

  -- `?` on a method's answer.
  infixl 5 ◌>>=◌ ◌>>◌
  abbrev pub ◌>>=◌ : {A B : Type 0} → Method S A → (A → Method S B) → Method S B
  (m >>= f) s = let (answer, s') = m s in elim answer [ ok a ↦ f a s' | err e ↦ (err e, s') ]

  abbrev pub ◌>>◌ : {B : Type 0} → Method S (Unit {0}) → Method S B → Method S B
  m >> k = m >>= λ _. k

  -- `result?` where no store is involved, and a method that only reads it.
  abbrev pub lift : {A : Type 0} → RuntimeResult A → Method S A
  lift r s = (r, s)

  abbrev pub reading : {A : Type 0} → (S → RuntimeResult A) → Method S A
  reading f s = (f s, s)

  -- A chain that succeeds has a first step that succeeds.
  pub bind_ok :
      {A B : Type 0} (m : Method S A) (f : A → Method S B) (s s' : S) (b : B)
      → (m >>= f) s ≡ (ok b, s')
      → (a : A) × (t : S) × (m s ≡ (ok a, t)) × (f a t ≡ (ok b, s'))
  bind_ok {A = A} {B = B} m f s s' b e = go (m s) refl e
    where
      go :
          (r : RuntimeResult A × S)
          → m s ≡ r
          → ((λ _. r) >>= f) s ≡ (ok b, s')
          → (a : A) × (t : S) × (m s ≡ (ok a, t)) × (f a t ≡ (ok b, s'))
      go (ok a, t) h e = (a, t, h, e)
      go (err x, t) h e = cc
