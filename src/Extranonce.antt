-- ===== src/Extranonce.antt =====
-- The extra nonces of a session: stratum_parse_extranonce of src/stratum_handshake.cpp, for the reply to
-- mining.subscribe and for mining.set_extranonce, with stratum_set_extranonce of src/stratum_session.cpp.
pub mod Layout
use primo_arm_miner.Prelude.{
  ℕ, suc, zero, ◌+◌, ◌-◌, ◌/◌, ◌%◌, Bool, true, false, not, ◌&&◌, ◌||◌, Option, none, some, [], ◌∷◌,
  ltb, leb, ◌==◌, if◌then◌else◌, Bytes, length,
}
use primo_arm_miner.Prelude.Int.{ℤ, pos, negsuc}
use primo_arm_miner.Prelude.Options.{◌>>=◌, ◌>>◌, guard}
use primo_arm_miner.Json.{Jansson, string_at}
use primo_arm_miner.Numeral.{strtol}
use primo_arm_miner.Hex.{hex2bin}
use primo_arm_miner.DevFee.Targets.{Algo, verus}
use primo_arm_miner.Nonce.{is_verus}
use primo_arm_miner.Job.{StratumCtx}

abbrev pub size_within_32 : ℤ → Option ℕ
size_within_32 (pos n) = if leb n 32 then some n else none
size_within_32 (negsuc n) = none

-- The number must be in range and end the text.
unfoldable pub size_of_number : Option (ℤ × Bool × Bytes) → Option ℕ
size_of_number none = none
size_of_number (some (parsed, true, rest)) = none
size_of_number (some (parsed, false, [])) = size_within_32 parsed
size_of_number (some (parsed, false, c ∷ rest)) = none

-- The size that a value spells: an integer, a text, or none that is valid.
unfoldable pub spelled_size : Option ℤ → Option Bytes → Option ℕ
unfolding size_of_number
spelled_size (some n) text = size_within_32 n
spelled_size none none = none
spelled_size none (some []) = none
spelled_size none (some (c ∷ s)) = size_of_number (strtol (c ∷ s))

-- Without a size, Verus takes what is left of the 32 bytes.
unfoldable pub derived_size : (verus_protocol : Bool) → (xn1_size : ℕ) → Option ℕ
derived_size verus_protocol xn1_size =
    if verus_protocol && leb 1 (32 - xn1_size) then some (32 - xn1_size) else none

unfoldable pub xnonce2_size_of :
    (verus_protocol present : Bool) → (xn1_size : ℕ) → Option ℕ → Option ℕ
unfolding derived_size
xnonce2_size_of verus_protocol present xn1_size none =
    if present then none else derived_size verus_protocol xn1_size
xnonce2_size_of verus_protocol present xn1_size (some zero) = derived_size verus_protocol xn1_size
xnonce2_size_of verus_protocol present xn1_size (some (suc n)) = some (suc n)

unfoldable pub layout_ok : (verus_protocol : Bool) → (xn1_size xn2_size : ℕ) → Bool
layout_ok verus_protocol xn1_size xn2_size =
    if verus_protocol
    then leb 1 xn2_size && xn1_size + xn2_size == 32
    else leb 2 xn2_size && leb xn2_size 16 && leb xn1_size 12

-- json_is_null of a value that is there.
abbrev pub is_present : (j : Jansson) → Option j.Value → Bool
is_present j none = false
is_present j (some v) = not (j.json_is_null (some v))

module _ {D : Type 0} where
  abbrev pub speaks_verus : Algo → StratumCtx D → Bool
  speaks_verus opt_algo s = is_verus opt_algo || s.is_verus_protocol

  unfoldable pub stratum_set_extranonce : Bytes → ℕ → StratumCtx D → Option (StratumCtx D)
  stratum_set_extranonce xnonce1 xn2_size s = do
    bytes ← hex2bin xnonce1 (length xnonce1 / 2)
    some (record s { xnonce1 = bytes; xnonce2_size = xn2_size })

  unfoldable pub stratum_parse_extranonce :
      Algo → (j : Jansson) → Option j.Value → (pndx : ℕ) → StratumCtx D → Option (StratumCtx D)
  stratum_parse_extranonce opt_algo j params pndx s = do
    let xn2_val = j.json_array_get params (pndx + 1)
    xnonce1 ← string_at j params pndx
    guard (length xnonce1 % 2 == 0 && leb (length xnonce1 / 2) 32)
    xn2_size ←
        xnonce2_size_of (speaks_verus opt_algo s) (is_present j xn2_val) (length xnonce1 / 2)
          (spelled_size (j.json_integer xn2_val) (j.json_string_value xn2_val))
    guard (layout_ok (speaks_verus opt_algo s) (length xnonce1 / 2) xn2_size)
    stratum_set_extranonce xnonce1 xn2_size s
