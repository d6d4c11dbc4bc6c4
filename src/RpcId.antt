-- ===== src/RpcId.antt =====
-- stratum_parse_rpc_id of src/stratum_rpc.cpp: the id of a JSON-RPC message.
pub mod Exact
mod Tests
use primo_arm_miner.Prelude.{
  ℕ, Bool, true, false, Option, none, some, [], ◌∷◌, leb, ◌==◌, if◌then◌else◌, Bytes,
}
use primo_arm_miner.Prelude.Int.{ℤ, pos, negsuc}
use primo_arm_miner.Json.{Jansson}
use primo_arm_miner.Numeral.{strtoul}

abbrev pub uint32_max : ℕ
uint32_max = 4294967295

unfoldable pub id_of_integer : ℤ → Option ℕ
id_of_integer (pos id) = if leb id uint32_max then some id else none
id_of_integer (negsuc n) = none

-- Nothing may follow the number.
unfoldable pub whole_id : Option (ℕ × Bytes) → Option ℕ
whole_id none = none
whole_id (some (parsed, [])) = if leb parsed uint32_max then some parsed else none
whole_id (some (parsed, c ∷ rest)) = none

unfoldable pub id_of_text : Bytes → Option ℕ
unfolding whole_id
id_of_text [] = none
id_of_text (c ∷ s) = if c == b'-' then none else whole_id (strtoul (c ∷ s))

-- By what the value is: an integer, a string, or neither.
unfoldable pub id_of : Option ℤ → Option Bytes → Option ℕ
unfolding id_of_integer id_of_text
id_of (some id) text = id_of_integer id
id_of none (some text) = id_of_text text
id_of none none = none

unfoldable pub stratum_parse_rpc_id : (j : Jansson) → Option j.Value → Option ℕ
unfolding id_of
stratum_parse_rpc_id j none = none
stratum_parse_rpc_id j (some v) =
    if j.json_is_null (some v)
    then none
    else id_of (j.json_integer (some v)) (j.json_string_value (some v))
