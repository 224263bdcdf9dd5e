-- ===== src/Relay/CodeLaws.antt =====
-- The pairing code that the relay shows is the code that it reads back.
use t_orca.Base.{
  ℕ, ◌≤◌, ◌<◌, ◌≡◌, refl, true, not, some, List, [], ◌∷◌, ap, ◌∙◌, sym, all, retain, take, drop,
  length, Text, utf8, is_ascii_whitespace, is_ascii_digit, All, arith, retain-append,
  take-append-drop,
}
use t_orca.Relay.Code.{
  generate_code, normalize_pairing_code, format_pairing_code, pairing_code_digits,
}

abbrev IsDigit : ℕ → Type 0
IsDigit c = (48 ≤ c) × (c ≤ 57)

generate_code-IsDigit :
    (digits : List ℕ) → All (λ d. d < 10) digits → All IsDigit (generate_code digits)
unfolding generate_code
generate_code-IsDigit [] h = tt
generate_code-IsDigit (d ∷ ds) h = ((omega arith, omega arith), generate_code-IsDigit ds h.1)

length-generate_code : (digits : List ℕ) → length (generate_code digits) ≡ length digits
unfolding generate_code
length-generate_code [] = refl
length-generate_code (d ∷ ds) = omega (arith, length-generate_code ds)

kept : (s : Text) → All IsDigit s → retain (λ c. not (is_ascii_whitespace c)) s ≡ s
unfolding is_ascii_whitespace
kept [] h = refl
kept (c ∷ s) h = ground (arith, kept s h.1)

utf8_digits : (s : Text) → All IsDigit s → utf8 s ≡ s
unfolding utf8
utf8_digits [] h = refl
utf8_digits (c ∷ s) h = ground (arith, utf8_digits s h.1)

all_digits : (s : Text) → All IsDigit s → all is_ascii_digit s ≡ true
unfolding is_ascii_digit
all_digits [] h = refl
all_digits (c ∷ s) h = ground (arith, all_digits s h.1)

-- Removing the white space of the grouped form gives back the code.
ungroup :
    (s : Text)
    → retain (λ c. not (is_ascii_whitespace c)) (format_pairing_code s)
      ≡ retain (λ c. not (is_ascii_whitespace c)) s
unfolding format_pairing_code is_ascii_whitespace
ungroup s =
    let shown = λ (c : ℕ). not (is_ascii_whitespace c) in
    retain-append shown (take 4 s) (32 ∷ drop 4 s)
    ∙ sym (retain-append shown (take 4 s) (drop 4 s))
    ∙ ap (retain shown) (take-append-drop 4 s)

-- A code drawn as eight digits, shown in two groups, is read back as itself.
pub normalize-format_pairing_code :
    (digits : List ℕ)
    → length digits ≡ pairing_code_digits
    → All (λ d. d < 10) digits
    → normalize_pairing_code (format_pairing_code (generate_code digits))
      ≡ some (generate_code digits)
unfolding normalize_pairing_code
normalize-format_pairing_code digits n h =
    let s = generate_code digits in
    let ds = generate_code-IsDigit digits h in
    rw (ungroup s, kept s ds, utf8_digits s ds, all_digits s ds, length-generate_code digits, n)
      refl
