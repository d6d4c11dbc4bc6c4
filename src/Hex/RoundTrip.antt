-- ===== src/Hex/RoundTrip.antt =====
-- Encoding and decoding again.
use primo_arm_miner.Prelude.{
  ℕ, ◌*◌, ◌<◌, ◌≡◌, refl, Bool, true, false, Option, none, some, [], ◌∷◌, arith, ◌==◌, Bytes,
  length, All,
}
use primo_arm_miner.Prelude.Tables.{passes, from_table}
use primo_arm_miner.Hex.{decode_hex_nibble, high_digit, low_digit, decode_pair, hex2bin, bin2hex}

-- The two digits of a byte decode to it.
decodes_to : Option ℕ → ℕ → Bool
decodes_to none v = false
decodes_to (some b) v = b == v

decodes_to_lem : (o : Option ℕ) (v : ℕ) → decodes_to o v ≡ true → o ≡ some v
unfolding decodes_to
decodes_to_lem none v h = ground arith
decodes_to_lem (some b) v h = ground arith

pair_table : passes (λ v. decodes_to (decode_pair (high_digit v) (low_digit v)) v) 256 0 ≡ true
unfolding passes decodes_to decode_pair decode_hex_nibble high_digit low_digit
pair_table = refl

decode_pair-digits : (v : ℕ) → v < 256 → decode_pair (high_digit v) (low_digit v) ≡ some v
decode_pair-digits v h = decodes_to_lem _ v (
    from_table (λ b. decodes_to (decode_pair (high_digit b) (low_digit b)) b) 256 0 v pair_table
      (omega arith) (omega arith))

-- hex2bin reads back every byte string that bin2hex has written.
pub hex2bin-bin2hex :
    (bytes : Bytes) → All (λ b. b < 256) bytes → hex2bin (bin2hex bytes) (length bytes) ≡ some bytes
unfolding hex2bin bin2hex
hex2bin-bin2hex [] h = refl
hex2bin-bin2hex (v ∷ rest) (hv, hs) =
    ground (arith, decode_pair-digits v hv, hex2bin-bin2hex rest hs)

-- bin2hex writes two characters for each byte.
pub length-bin2hex : (bytes : Bytes) → length (bin2hex bytes) ≡ 2 * length bytes
unfolding bin2hex
length-bin2hex [] = refl
length-bin2hex (v ∷ rest) = omega (arith, length-bin2hex rest)
