-- ===== src/Relay/Drawing.antt =====
-- Why the loop that draws a code ends, in the arm of `CreatePairingSlot` of
-- services/torchat-relay/src/main.rs.
use t_orca.Base.{
  ℕ, ◌+◌, ◌<◌, ◌≤◌, ◌≡◌, refl, Bool, true, false, not, List, [], ◌∷◌, ◌==◌, some, map, any, length,
  if◌then◌else◌, All, Text, arith, Bool-cases, inl, inr,
}
use t_orca.Base.Map.{Map, values}
use t_orca.Relay.State.{Slot}
use t_orca.Relay.Code.{generate_code}
use t_orca.Relay.Slots.{code_taken, draw_code}
use t_orca.Relay.Safety.{draw_code_free}

-- No two of the numbers are the same.
abbrev pub AreDistinct : List ℕ → Type 0
AreDistinct [] = Unit
AreDistinct (h ∷ hs) = All (λ g. (g == h) ≡ false) hs × AreDistinct hs

abbrev occurs : ℕ → List ℕ → Bool
occurs h cs = any (λ c. c == h) cs

erase : ℕ → List ℕ → List ℕ
erase h [] = []
erase h (c ∷ cs) = if c == h then cs else c ∷ erase h cs

length-erase : (h : ℕ) (cs : List ℕ) → occurs h cs ≡ true → length cs ≡ length (erase h cs) + 1
unfolding erase
length-erase h [] e = cc
length-erase h (c ∷ cs) e = ground (arith, length-erase h cs)

occurs-erase :
    (g h : ℕ) (cs : List ℕ) → (g == h) ≡ false → occurs g cs ≡ true → occurs g (erase h cs) ≡ true
unfolding erase
occurs-erase g h [] other e = cc
occurs-erase g h (c ∷ cs) other e = ground (arith, occurs-erase g h cs other)

All-erase :
    (h : ℕ) (hs cs : List ℕ)
    → All (λ g. (g == h) ≡ false) hs
    → All (λ g. occurs g cs ≡ true) hs
    → All (λ g. occurs g (erase h cs) ≡ true) hs
All-erase h [] cs other there = tt
All-erase h (g ∷ hs) cs other there =
    (occurs-erase g h cs other.0 there.0, All-erase h hs cs other.1 there.1)

-- Distinct numbers that all occur in a list are no more than it has.
length-distinct-le :
    (hs cs : List ℕ) → AreDistinct hs → All (λ h. occurs h cs ≡ true) hs → length hs ≤ length cs
length-distinct-le [] cs distinct there = omega arith
length-distinct-le (h ∷ hs) cs distinct there = omega (
  arith,
  length-erase h cs there.0,
  length-distinct-le hs (erase h cs) distinct.1 (All-erase h hs cs distinct.0 there.1),
)

abbrev codes_of : Map Slot → List ℕ
codes_of slots = map (λ (slot : Slot). slot.code_hash) (values slots)

length-codes_of : (slots : Map Slot) → length (codes_of slots) ≡ length slots
length-codes_of [] = refl
length-codes_of (e ∷ slots) = omega (arith, length-codes_of slots)

module _ (hash : Text → ℕ) where
  abbrev pub digests : List (List ℕ) → List ℕ
  digests draws = map (λ digits. hash (generate_code digits)) draws

  occurs-code_taken :
      (slots : Map Slot) (digits : List ℕ)
      → code_taken hash slots (generate_code digits) ≡ true
      → occurs (hash (generate_code digits)) (codes_of slots) ≡ true
  occurs-code_taken [] digits e = cc
  occurs-code_taken ((k, slot) ∷ slots) digits e = ground (arith, occurs-code_taken slots digits)

  none_free-taken :
      (slots : Map Slot) (draws : List (List ℕ))
      → any (λ digits. not (code_taken hash slots (generate_code digits))) draws ≡ false
      → All (λ h. occurs h (codes_of slots) ≡ true) (digests draws)
  none_free-taken slots [] e = tt
  none_free-taken slots (d ∷ ds) e =
      (occurs-code_taken slots d (ground arith), none_free-taken slots ds (ground arith))

  length-digests : (draws : List (List ℕ)) → length (digests draws) ≡ length draws
  length-digests [] = refl
  length-digests (d ∷ ds) = omega (arith, length-digests ds)

  -- The loop ends, with a code that no slot has, as soon as it has drawn more codes of distinct
  -- digests than there are slots.
  pub draw_code_ends :
      (slots : Map Slot) (draws : List (List ℕ))
      → AreDistinct (digests draws)
      → length slots < length draws
      → (code : Text) × (draw_code hash slots draws ≡ some code)
        × (code_taken hash slots code ≡ false)
  draw_code_ends slots draws distinct more =
      let free : List ℕ → Bool = λ digits. not (code_taken hash slots (generate_code digits)) in
      elim (Bool-cases (any free draws)) [
        | inl there ↦ draw_code_free hash slots draws there
        | inr missing ↦ absurd (
            omega (
              arith,
              length-distinct-le (digests draws) (codes_of slots) distinct
                  (none_free-taken slots draws missing),
              length-codes_of slots,
              length-digests draws,
            ))
      ]
