-- ===== src/Hex/Accepts.antt =====
-- What `hex2bin` accepts, and what it returns.
use primo_arm_miner.Prelude.{
  ℕ, zero, suc, ◌+◌, ◌-◌, ◌*◌, ◌/◌, ◌%◌, ◌<◌, ◌≡◌, refl, inl, inr, some, [], ◌∷◌, map, arith,
  bit_or, bit_and, Bytes, length, All, Option-cases,
}
use primo_arm_miner.Prelude.Int.{ℤ, pos, negsuc}
use primo_arm_miner.Hex.{decode_hex_nibble, high_digit, low_digit, decode_pair, hex2bin, bin2hex}
use primo_arm_miner.Hex.Digits.{
  IsHexDigit, to_lower, bit_or_nibbles, bit_and_low, decode_hex_nibble_lem,
}

-- An accepted pair is two digits, and the byte's own two digits are the same pair in lower case.
abbrev PairOf : ℕ → ℕ → ℕ → Type 0
PairOf h l b =
    IsHexDigit h
    × IsHexDigit l
    × (b < 256)
    × (high_digit b ≡ to_lower h)
    × (low_digit b ≡ to_lower l)

join_nibbles :
    (h l n m b : ℕ)
    → decode_hex_nibble h ≡ pos n
    → decode_hex_nibble l ≡ pos m
    → bit_or (n * 16) m % 256 ≡ b
    → PairOf h l b
unfolding high_digit low_digit
join_nibbles h l n m b p q e =
    let (dh, fn, gn) = decode_hex_nibble_lem h n p in
    let (dl, fm, gm) = decode_hex_nibble_lem l m q in
    let e1 : b ≡ n * 16 + m = omega (arith, bit_or_nibbles n m fn fm) in
    let e2 : b / 16 ≡ n = omega arith in
    let e3 : bit_and b 0x0f ≡ m = omega (arith, bit_and_low b (omega arith)) in
    (dh, dl, omega arith, rw e2 gn, rw e3 gm)

decode_pair_lem : (h l b : ℕ) → decode_pair h l ≡ some b → PairOf h l b
unfolding decode_pair
decode_pair_lem h l b e = go (decode_hex_nibble h) (decode_hex_nibble l) refl refl
  where
    go : (x y : ℤ) → decode_hex_nibble h ≡ x → decode_hex_nibble l ≡ y → PairOf h l b
    go (pos n) (pos m) p q = join_nibbles h l n m b p q (ground arith)
    go (pos n) (negsuc m) p q = absurd (ground arith)
    go (negsuc n) y p q = absurd (ground arith)

-- hex2bin accepts a text only if it is exactly `len` pairs of hexadecimal digits; the result is then
-- `len` bytes, each below 256, and encoding them again gives the text in lower case.
pub hex2bin_sound :
    (s : Bytes) (len : ℕ) (out : Bytes)
    → hex2bin s len ≡ some out
    → (length s ≡ 2 * len)
      × All IsHexDigit s
      × (length out ≡ len)
      × All (λ b. b < 256) out
      × (bin2hex out ≡ map to_lower s)
unfolding hex2bin bin2hex
hex2bin_sound [] zero out e = ground arith
hex2bin_sound [] (suc len) out e = absurd (ground arith)
hex2bin_sound (c ∷ s) zero out e = absurd (ground arith)
hex2bin_sound (c ∷ []) (suc len) out e = absurd (ground arith)
hex2bin_sound (h ∷ l ∷ s) (suc len) out e = elim (Option-cases (decode_pair h l)) [
  | inl p ↦ absurd (ground arith)
  | inr (b, p) ↦ elim (Option-cases (hex2bin s len)) [
    | inl q ↦ absurd (ground arith)
    | inr (bs, q) ↦ ground (arith, decode_pair_lem h l b p, hex2bin_sound s len bs q)
  ]
]

decode_hex_nibble-digit : (c : ℕ) → IsHexDigit c → (n : ℕ) × (decode_hex_nibble c ≡ pos n)
unfolding decode_hex_nibble
decode_hex_nibble-digit c (inl h) = (c - b'0', ground arith)
decode_hex_nibble-digit c (inr (inl h)) = (c - b'a' + 10, ground arith)
decode_hex_nibble-digit c (inr (inr h)) = (c - b'A' + 10, ground arith)

decode_pair_digits : (h l : ℕ) → IsHexDigit h → IsHexDigit l → (b : ℕ) × (decode_pair h l ≡ some b)
unfolding decode_pair
decode_pair_digits h l p q =
    let (n, e) = decode_hex_nibble-digit h p in
    let (m, d) = decode_hex_nibble-digit l q in (bit_or (n * 16) m % 256, ground arith)

-- hex2bin accepts every text of exactly `len` pairs of hexadecimal digits, in either case.
pub hex2bin_complete :
    (s : Bytes) (len : ℕ)
    → length s ≡ 2 * len
    → All IsHexDigit s
    → (out : Bytes) × (hex2bin s len ≡ some out)
unfolding hex2bin
hex2bin_complete [] zero e d = ([], refl)
hex2bin_complete [] (suc len) e d = absurd (omega arith)
hex2bin_complete (c ∷ s) zero e d = absurd (omega arith)
hex2bin_complete (c ∷ []) (suc len) e d = absurd (omega arith)
hex2bin_complete (h ∷ l ∷ s) (suc len) e (dh, (dl, ds)) =
    let (b, p) = decode_pair_digits h l dh dl in
    let (out, q) = hex2bin_complete s len (omega arith) ds in (b ∷ out, ground arith)
