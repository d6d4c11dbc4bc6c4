-- ===== src/Numeral.antt =====
-- strtol and strtoul in base ten, as C defines them on a 64-bit long. A text that holds no number leaves
-- *endptr at its start, which is none here; otherwise the rest is the text from *endptr on.
pub mod Decimal
use primo_arm_miner.Prelude.{
  ℕ, ◌+◌, ◌-◌, ◌*◌, ◌%◌, Bool, true, false, ◌&&◌, ◌||◌, Option, none, some, [], ◌∷◌, ltb, leb, ◌==◌,
  if◌then◌else◌, Bytes,
}
use primo_arm_miner.Prelude.Int.{ℤ, pos, negsuc}

abbrev pub is_digit : ℕ → Bool
is_digit c = leb b'0' c && leb c b'9'

-- isspace: a blank, or one of the five controls from tab on.
abbrev pub is_space : ℕ → Bool
is_space c = c == 32 || (leb 9 c && leb c 13)

unfoldable pub skip_spaces : Bytes → Bytes
skip_spaces [] = []
skip_spaces (c ∷ s) = if is_space c then skip_spaces s else c ∷ s

-- The value of the leading digits behind `n`, unbounded, and what follows them.
unfoldable pub take_digits : ℕ → Bytes → ℕ × Bytes
take_digits n [] = (n, [])
take_digits n (c ∷ s) = if is_digit c then take_digits (n * 10 + (c - b'0')) s else (n, c ∷ s)

-- A number behind its sign: at least one digit.
unfoldable pub unsigned : Bytes → Option (ℕ × Bytes)
unfolding take_digits
unsigned [] = none
unsigned (c ∷ s) = if is_digit c then some (take_digits 0 (c ∷ s)) else none

unfoldable pub signed_as : Bool → Option (ℕ × Bytes) → Option (Bool × ℕ × Bytes)
signed_as minus none = none
signed_as minus (some (n, rest)) = some (minus, n, rest)

-- Whether there is a minus, the magnitude, and the rest.
unfoldable pub sign_and_digits : Bytes → Option (Bool × ℕ × Bytes)
unfolding unsigned signed_as
sign_and_digits [] = none
sign_and_digits (c ∷ s) =
    if c == b'-'
    then signed_as true (unsigned s)
    else if c == b'+'
    then signed_as false (unsigned s)
    else signed_as false (unsigned (c ∷ s))

-- strtoul(text, &endptr, 10): a minus negates modulo 2^64, and ULONG_MAX stands for what is too large.
unfoldable pub unsigned_long : Bool → ℕ → ℕ
unsigned_long minus n =
    if ltb 18446744073709551615 n
    then 18446744073709551615
    else if minus
    then (18446744073709551616 - n) % 18446744073709551616
    else n

unfoldable pub strtoul : Bytes → Option (ℕ × Bytes)
unfolding skip_spaces sign_and_digits unsigned_long
strtoul text = elim (sign_and_digits (skip_spaces text)) [
  | none ↦ none
  | some (minus, n, rest) ↦ some (unsigned_long minus n, rest)
]

-- strtol(text, &endptr, 10), with whether errno is ERANGE.
unfoldable pub signed_long : Bool → ℕ → ℤ × Bool
signed_long false n =
    if ltb 9223372036854775807 n then (pos 9223372036854775807, true) else (pos n, false)
signed_long true n =
    if ltb 9223372036854775808 n
    then (negsuc 9223372036854775807, true)
    else if n == 0
    then (pos 0, false)
    else (negsuc (n - 1), false)

unfoldable pub strtol : Bytes → Option (ℤ × Bool × Bytes)
unfolding skip_spaces sign_and_digits signed_long
strtol text = elim (sign_and_digits (skip_spaces text)) [
  | none ↦ none
  | some (minus, n, rest) ↦ let (value, erange) = signed_long minus n in some (value, erange, rest)
]
