-- ===== src/Hex.antt =====
-- src/stratum.cpp: the hexadecimal helpers of the stratum layer. A C string is the list of its
-- bytes before the NUL, so `*hexstr == 0` is the empty list. `hex2bin` reports false as `none`: its
-- callers discard the output buffer then.
pub mod Digits
pub mod Accepts
pub mod RoundTrip
mod Tests
use primo_arm_miner.Prelude.{
  ℕ, zero, suc, ◌+◌, ◌-◌, ◌*◌, ◌/◌, ◌%◌, Bool, ◌&&◌, ◌||◌, Option, none, some, List, [], ◌∷◌,
  bit_and, bit_or, leb, if◌then◌else◌, Bytes, codes, get_or,
}
use primo_arm_miner.Prelude.Int.{ℤ, pos, minus_one, ltb_ℤ, pos_part}

unfoldable pub decode_hex_nibble : ℕ → ℤ
decode_hex_nibble ch =
    if leb b'0' ch && leb ch b'9'
    then pos (ch - b'0')
    else if leb b'a' ch && leb ch b'f'
    then pos (ch - b'a' + 10)
    else if leb b'A' ch && leb ch b'F'
    then pos (ch - b'A' + 10)
    else minus_one

abbrev pub hex_digits : Bytes
hex_digits = codes "0123456789abcdef"

-- One round of the loop of `cbin2hex`: the two digits of a byte.
unfoldable pub high_digit : ℕ → ℕ
high_digit value = get_or hex_digits (value / 16) 0

unfoldable pub low_digit : ℕ → ℕ
low_digit value = get_or hex_digits (bit_and value 0x0f) 0

unfoldable pub cbin2hex : Bytes → Bytes
cbin2hex [] = []
cbin2hex (value ∷ rest) = high_digit value ∷ low_digit value ∷ cbin2hex rest

unfoldable pub bin2hex : Bytes → Bytes
unfolding cbin2hex
bin2hex bytes = cbin2hex bytes

-- The byte of two digits, or none where the code rejects the pair.
unfoldable pub decode_pair : ℕ → ℕ → Option ℕ
decode_pair high low =
    let high_nibble = decode_hex_nibble high in
    let low_nibble = decode_hex_nibble low in
    if ltb_ℤ high_nibble (pos 0) || ltb_ℤ low_nibble (pos 0)
    then none
    else some (bit_or (pos_part high_nibble * 16) (pos_part low_nibble) % 256)

-- What the loop does with a decoded byte and the rest of the text.
unfoldable pub emit : Option ℕ → Option Bytes → Option Bytes
emit none rest = none
emit (some byte) none = none
emit (some byte) (some rest) = some (byte ∷ rest)

unfoldable pub hex2bin : Bytes → ℕ → Option Bytes
unfolding emit
hex2bin [] zero = some []
hex2bin [] (suc len) = none
hex2bin (c ∷ s) zero = none
hex2bin (c ∷ []) (suc len) = none
hex2bin (high ∷ low ∷ s) (suc len) = emit (decode_pair high low) (hex2bin s len)
