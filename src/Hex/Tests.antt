-- ===== src/Hex/Tests.antt =====
-- Runs of the hexadecimal helpers, and instances of their theorems.
use primo_arm_miner.Prelude.{
  ◌*◌, ◌<◌, ◌≡◌, refl, none, some, [], ◌∷◌, map, arith, Bytes, codes, length, All,
}
use primo_arm_miner.Hex.{hex2bin, bin2hex, decode_pair, decode_hex_nibble}
use primo_arm_miner.Hex.Digits.{IsHexDigit, to_lower}
use primo_arm_miner.Hex.Accepts.{hex2bin_sound, hex2bin_complete}
use primo_arm_miner.Hex.RoundTrip.{hex2bin-bin2hex}

abbrev decoded : Bytes
decoded = 0 ∷ 255 ∷ 169 ∷ []

decodes : hex2bin (codes "00fFa9") 3 ≡ some decoded
unfolding hex2bin decode_pair decode_hex_nibble
decodes = refl

too_long : hex2bin (codes "00fFa9") 2 ≡ none
unfolding hex2bin decode_pair decode_hex_nibble
too_long = refl

truncated : hex2bin (codes "00f") 2 ≡ none
unfolding hex2bin decode_pair decode_hex_nibble
truncated = refl

hex2bin_sound_example :
    (length (codes "00fFa9") ≡ 2 * 3)
    × All IsHexDigit (codes "00fFa9")
    × (length decoded ≡ 3)
    × All (λ b. b < 256) decoded
    × (bin2hex decoded ≡ map to_lower (codes "00fFa9"))
hex2bin_sound_example = hex2bin_sound (codes "00fFa9") 3 decoded decodes

hex2bin_complete_example : (out : Bytes) × (hex2bin (codes "0aBf") 2 ≡ some out)
hex2bin_complete_example = hex2bin_complete (codes "0aBf") 2 (omega arith) (ground arith)

hex2bin-bin2hex_example : hex2bin (bin2hex (1 ∷ 200 ∷ [])) 2 ≡ some (1 ∷ 200 ∷ [])
hex2bin-bin2hex_example = hex2bin-bin2hex (1 ∷ 200 ∷ []) (omega arith)
