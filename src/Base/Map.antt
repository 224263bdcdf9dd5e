-- ===== src/Base/Map.antt =====
-- A `HashMap` with numbers for keys, as a list of entries, and the laws that its users need. A
-- number stands for a UUID or a digest. No key has two entries where `Unique` holds, which every
-- operation keeps.
use Prim.Native.Nat.{ℕ, ◌+◌, ◌≤◌}
use mathlib.Core.Path.{◌≡◌, refl}
use mathlib.Core.Bool.{Bool, true, not}
use mathlib.Core.List.{List, [], ◌∷◌, map}
use mathlib.Core.Option.{Option, none, some}
use mathlib.Core.Option
use native.Mathlib.Omega.{arith}
use t_orca.Base.Tests.{◌==◌, if◌then◌else◌}
use t_orca.Base.Lists.{length}

abbrev pub Map {ℓ} : Type ℓ → Type ℓ
Map V = List (ℕ × V)

module _ {ℓ} {V : Type ℓ} where
  -- `get`.
  unfoldable pub lookup : ℕ → Map V → Option V
  lookup k [] = none
  lookup k ((j, v) ∷ m) = if j == k then some v else lookup k m

  unfoldable pub remove : ℕ → Map V → Map V
  remove k [] = []
  remove k ((j, v) ∷ m) = if j == k then remove k m else (j, v) ∷ remove k m

  unfoldable pub insert : ℕ → V → Map V → Map V
  insert k v m = (k, v) ∷ remove k m

  -- `if let Some(v) = get_mut(k) { *v = f(v) }`.
  unfoldable pub modify : ℕ → (V → V) → Map V → Map V
  modify k f [] = []
  modify k f ((j, v) ∷ m) = (if j == k then (j, f v) else (j, v)) ∷ modify k f m

  -- `retain(|_, v| test(v))`.
  unfoldable pub retain_values : (V → Bool) → Map V → Map V
  retain_values test [] = []
  retain_values test ((j, v) ∷ m) =
      if test v then (j, v) ∷ retain_values test m else retain_values test m

  -- `values()`.
  abbrev pub values : Map V → List V
  values m = map (λ e. e.1) m

  unfoldable pub Unique : Map V → Type ℓ
  Unique [] = Unit
  Unique ((k, v) ∷ m) = (lookup k m ≡ none) × Unique m

  -- The sum of a weight over the values.
  unfoldable pub total : (V → ℕ) → Map V → ℕ
  total w [] = 0
  total w ((k, v) ∷ m) = w v + total w m

  pub lookup-remove :
      (k j : ℕ) (m : Map V) → lookup j (remove k m) ≡ (if k == j then none else lookup j m)
  unfolding lookup remove
  lookup-remove k j [] = ground arith
  lookup-remove k j ((i, v) ∷ m) = ground (arith, lookup-remove k j m)

  pub lookup-insert :
      (k j : ℕ) (v : V) (m : Map V)
      → lookup j (insert k v m) ≡ (if k == j then some v else lookup j m)
  unfolding lookup insert
  lookup-insert k j v m = ground (arith, lookup-remove k j m)

  pub lookup-modify :
      (k j : ℕ) (f : V → V) (m : Map V)
      → lookup j (modify k f m) ≡ (if k == j then Option.map f (lookup j m) else lookup j m)
  unfolding lookup modify
  lookup-modify k j f [] = ground arith
  lookup-modify k j f ((i, v) ∷ m) = ground (arith, lookup-modify k j f m)

  pub remove_absent : (k : ℕ) (m : Map V) → lookup k m ≡ none → remove k m ≡ m
  unfolding lookup remove
  remove_absent k [] h = refl
  remove_absent k ((i, v) ∷ m) h = ground (arith, remove_absent k m)

  pub length-remove-le : (k : ℕ) (m : Map V) → length (remove k m) ≤ length m
  unfolding remove
  length-remove-le k [] = omega arith
  length-remove-le k ((i, v) ∷ m) = ground (arith, length-remove-le k m)

  pub length-insert-le : (k : ℕ) (v : V) (m : Map V) → length (insert k v m) ≤ length m + 1
  unfolding insert
  length-insert-le k v m = omega (arith, length-remove-le k m)

  pub length-modify : (k : ℕ) (f : V → V) (m : Map V) → length (modify k f m) ≡ length m
  unfolding modify
  length-modify k f [] = refl
  length-modify k f ((i, v) ∷ m) = omega (arith, length-modify k f m)

  pub length-retain_values-le :
      (test : V → Bool) (m : Map V) → length (retain_values test m) ≤ length m
  unfolding retain_values
  length-retain_values-le test [] = omega arith
  length-retain_values-le test ((i, v) ∷ m) = ground (arith, length-retain_values-le test m)

  lookup-retain_none :
      (k : ℕ) (test : V → Bool) (m : Map V)
      → lookup k m ≡ none
      → lookup k (retain_values test m) ≡ none
  unfolding lookup retain_values
  lookup-retain_none k test [] h = refl
  lookup-retain_none k test ((i, v) ∷ m) h = ground (arith, lookup-retain_none k test m)

  pub remove-Unique : (k : ℕ) (m : Map V) → Unique m → Unique (remove k m)
  unfolding Unique remove
  remove-Unique k [] u = tt
  remove-Unique k ((i, v) ∷ m) u = ground (arith, remove-Unique k m u.1, lookup-remove k i m)

  pub insert-Unique : (k : ℕ) (v : V) (m : Map V) → Unique m → Unique (insert k v m)
  unfolding Unique insert
  insert-Unique k v m u = (ground (arith, lookup-remove k k m), remove-Unique k m u)

  pub retain_values-Unique :
      (test : V → Bool) (m : Map V) → Unique m → Unique (retain_values test m)
  unfolding Unique retain_values
  retain_values-Unique test [] u = tt
  retain_values-Unique test ((i, v) ∷ m) u =
      ground (arith, retain_values-Unique test m u.1, lookup-retain_none i test m)

  lookup-modify_absent :
      (k j : ℕ) (f : V → V) (m : Map V) → lookup j m ≡ none → lookup j (modify k f m) ≡ none
  unfolding lookup modify
  lookup-modify_absent k j f [] h = refl
  lookup-modify_absent k j f ((i, v) ∷ m) h = ground (arith, lookup-modify_absent k j f m)

  pub modify-Unique : (k : ℕ) (f : V → V) (m : Map V) → Unique m → Unique (modify k f m)
  unfolding Unique modify
  modify-Unique k f [] u = tt
  modify-Unique k f ((i, v) ∷ m) u =
      ground (arith, modify-Unique k f m u.1, lookup-modify_absent k i f m u.0)

  -- What is retained was there, and passes the test.
  pub lookup-retain_values :
      (k : ℕ) (test : V → Bool) (m : Map V) (v : V)
      → Unique m
      → lookup k (retain_values test m) ≡ some v
      → (lookup k m ≡ some v) × (test v ≡ true)
  unfolding lookup retain_values Unique
  lookup-retain_values k test [] v u h = cc
  lookup-retain_values k test ((i, w) ∷ m) v u h =
      ground (arith, lookup-retain_values k test m v u.1, lookup-retain_none i test m u.0)

  -- What passes the test is retained.
  pub lookup-retain :
      (k : ℕ) (test : V → Bool) (m : Map V) (v : V)
      → lookup k m ≡ some v
      → test v ≡ true
      → lookup k (retain_values test m) ≡ some v
  unfolding lookup retain_values
  lookup-retain k test [] v e h = cc
  lookup-retain k test ((i, w) ∷ m) v e h = ground (arith, lookup-retain k test m v)

  pub total-remove :
      (w : V → ℕ) (k : ℕ) (m : Map V) (v : V)
      → Unique m
      → lookup k m ≡ some v
      → total w (remove k m) + w v ≡ total w m
  unfolding lookup remove total Unique
  total-remove w k [] v u h = cc
  total-remove w k ((i, x) ∷ m) v u h = ground (arith, total-remove w k m v u.1, remove_absent k m)

  pub total-remove-le : (w : V → ℕ) (k : ℕ) (m : Map V) → total w (remove k m) ≤ total w m
  unfolding remove total
  total-remove-le w k [] = omega arith
  total-remove-le w k ((i, x) ∷ m) = ground (arith, total-remove-le w k m)

  pub total-split :
      (w : V → ℕ) (test : V → Bool) (m : Map V)
      → total w (retain_values test m) + total w (retain_values (λ v. not (test v)) m) ≡ total w m
  unfolding retain_values total
  total-split w test [] = omega arith
  total-split w test ((i, x) ∷ m) = ground (arith, total-split w test m)

  pub total-retain-le :
      (w : V → ℕ) (test : V → Bool) (m : Map V) → total w (retain_values test m) ≤ total w m
  total-retain-le w test m = omega (arith, total-split w test m)

  pub total-retain_zero :
      (w : V → ℕ) (test : V → Bool) (m : Map V)
      → ((v : V) → test v ≡ true → w v ≡ 0)
      → total w (retain_values test m) ≡ 0
  unfolding retain_values total
  total-retain_zero w test [] h = refl
  total-retain_zero w test ((i, x) ∷ m) h = ground (arith, h x, total-retain_zero w test m h)

  pub total-insert :
      (w : V → ℕ) (k : ℕ) (v : V) (m : Map V) → total w (insert k v m) ≡ w v + total w (remove k m)
  unfolding insert total
  total-insert w k v m = refl

  pub lookup-total-le :
      (w : V → ℕ) (k : ℕ) (m : Map V) (v : V) → lookup k m ≡ some v → w v ≤ total w m
  unfolding lookup total
  lookup-total-le w k [] v h = cc
  lookup-total-le w k ((i, x) ∷ m) v h = ground (arith, lookup-total-le w k m v)
