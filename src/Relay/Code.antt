-- ===== src/Relay/Code.antt =====
-- The pairing codes of services/torchat-relay/src/main.rs: drawn, shown in two groups, read back.
use t_orca.Base.{
  ℕ, ◌+◌, not, ◌&&◌, Option, none, some, List, ◌++◌, ◌∷◌, ◌==◌, map, all, retain, take, drop,
  length, if◌then◌else◌, Text, utf8, is_ascii_whitespace, is_ascii_digit,
}

abbrev pub pairing_code_digits : ℕ
pairing_code_digits = 8

-- `char::from(b'0' + digit)` for each drawn digit.
unfoldable pub generate_code : List ℕ → Text
generate_code digits = map (λ digit. b'0' + digit) digits

unfoldable pub normalize_pairing_code : Text → Option Text
unfolding is_ascii_whitespace is_ascii_digit
normalize_pairing_code value =
    let normalized = retain (λ character. not (is_ascii_whitespace character)) value in
    if length (utf8 normalized) == pairing_code_digits && all is_ascii_digit (utf8 normalized)
    then some normalized
    else none

unfoldable pub format_pairing_code : Text → Text
format_pairing_code code = take 4 code ++ b' ' ∷ drop 4 code
