-- ===== src/Numeral/Decimal.antt =====
-- What the conversions make of a text of digits.
use primo_arm_miner.Prelude.{
  ℕ, ◌+◌, ◌-◌, ◌*◌, ◌≡◌, refl, inl, inr, true, false, some, [], ◌∷◌, arith, ◌==◌, Bytes, All,
  Bool-cases,
}
use primo_arm_miner.Numeral.{
  is_digit, is_space, skip_spaces, take_digits, unsigned, signed_as, sign_and_digits, unsigned_long,
  strtoul,
}

abbrev pub IsDigit : ℕ → Type 0
IsDigit c = is_digit c ≡ true

-- The number that digits spell behind `n`.
abbrev pub value : ℕ → Bytes → ℕ
value n [] = n
value n (c ∷ s) = value (n * 10 + (c - b'0')) s

-- The digits are read to the end exactly if there is nothing else.
pub take_digits-All : (n : ℕ) (s : Bytes) → All IsDigit s → take_digits n s ≡ (value n s, [])
unfolding take_digits
take_digits-All n [] h = refl
take_digits-All n (c ∷ s) (h, hs) = rw h (take_digits-All (n * 10 + (c - b'0')) s hs)

pub take_digits-end :
    (n : ℕ) (s : Bytes) (v : ℕ) → take_digits n s ≡ (v, []) → All IsDigit s × (v ≡ value n s)
unfolding take_digits
take_digits-end n [] v e = ground arith
take_digits-end n (c ∷ s) v e = elim (Bool-cases (is_digit c)) [
  | inl d ↦ ground (arith, take_digits-end (n * 10 + (c - b'0')) s v)
  | inr other ↦ absurd (ground arith)
]

-- A text that begins with a digit is a number without a sign.
pub sign_and_digits-digit :
    (c : ℕ) (s : Bytes)
    → IsDigit c
    → sign_and_digits (skip_spaces (c ∷ s)) ≡ signed_as false (some (take_digits 0 (c ∷ s)))
unfolding sign_and_digits skip_spaces unsigned
sign_and_digits-digit c s h =
    let visible : is_space c ≡ false = ground arith in
    let plus : (c == b'+') ≡ false = ground arith in
    let minus : (c == b'-') ≡ false = ground arith in rw (visible, minus, plus, h) refl

pub strtoul-digit :
    (c : ℕ) (s : Bytes)
    → IsDigit c
    → strtoul (c ∷ s)
      ≡ some (unsigned_long false (take_digits 0 (c ∷ s)).0, (take_digits 0 (c ∷ s)).1)
unfolding strtoul signed_as
strtoul-digit c s h = rw (sign_and_digits-digit c s h, strtoul, signed_as) refl
