-- ===== src/Hex/Digits.antt =====
-- Single bytes and digits of the hexadecimal helpers, by tables over all byte values.
use primo_arm_miner.Prelude.{
  ℕ, ◌+◌, ◌*◌, ◌%◌, ◌≤◌, ◌<◌, ◌≡◌, refl, ◌⊎◌, true, ◌&&◌, arith, leb, ◌==◌, ==_iff, if◌then◌else◌,
  bit_or, bit_and, get_or,
}
use primo_arm_miner.Prelude.Int.{ℤ, pos, negsuc}
use primo_arm_miner.Prelude.Tables.{passes, from_table}
use primo_arm_miner.Hex.{decode_hex_nibble, hex_digits}

-- 0-9, a-f and A-F.
abbrev pub IsHexDigit : ℕ → Type 0
IsHexDigit c = ((b'0' ≤ c) × (c ≤ b'9')) ⊎ (((b'a' ≤ c) × (c ≤ b'f')) ⊎ ((b'A' ≤ c) × (c ≤ b'F')))

-- The digit that `cbin2hex` writes for the one that was read.
unfoldable pub to_lower : ℕ → ℕ
to_lower c = if leb b'A' c && leb c b'F' then c + 32 else c

nibbles_fit : passes (λ h. passes (λ l. bit_or (h * 16) l % 256 == h * 16 + l) 16 0) 16 0 ≡ true
unfolding passes
nibbles_fit = refl

pub bit_or_nibbles : (h l : ℕ) → h < 16 → l < 16 → bit_or (h * 16) l % 256 ≡ h * 16 + l
bit_or_nibbles h l p q = (==_iff _ _).0 (
    from_table _ 16 0 l (from_table _ 16 0 h nibbles_fit (omega arith) (omega arith)) (omega arith)
      (omega arith))

NibbleCases : ℕ → ℤ → Type 0
NibbleCases c (pos n) = IsHexDigit c × (n < 16)
NibbleCases c (negsuc n) = Unit {0}

nibble_cases_lem : (c : ℕ) → NibbleCases c (decode_hex_nibble c)
unfolding NibbleCases decode_hex_nibble
nibble_cases_lem c = ground arith

masks_fit : passes (λ v. bit_and v 0x0f == v % 16) 256 0 ≡ true
unfolding passes
masks_fit = refl

pub bit_and_low : (v : ℕ) → v < 256 → bit_and v 0x0f ≡ v % 16
bit_and_low v h = (==_iff _ _).0 (from_table _ 256 0 v masks_fit (omega arith) (omega arith))

-- Every accepted digit has the value at which `hex_digits` holds its lower case.
pub decode_hex_nibble_lem :
    (c n : ℕ)
    → decode_hex_nibble c ≡ pos n
    → IsHexDigit c × (n < 16) × (get_or hex_digits n 0 ≡ to_lower c)
unfolding decode_hex_nibble to_lower
decode_hex_nibble_lem c n h = ground arith
