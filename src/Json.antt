-- ===== src/Json.antt =====
-- The JSON library that the stratum layer calls (jansson), as a parameter: the values and what the code
-- asks of them. A json_t * that may be NULL is an Option; every call takes NULL.
pub mod Sample
use primo_arm_miner.Prelude.{ℕ, Bool, Option, Bytes}
use primo_arm_miner.Prelude.Int.{ℤ}

pub record Jansson : Type 1 where
  pub Value : Type 0
  pub json_object_get : Option Value → Bytes → Option Value
  pub json_array_get : Option Value → ℕ → Option Value
  pub json_array_size : Option Value → ℕ
  -- NULL unless the value is a string, which is what json_is_string asks.
  pub json_string_value : Option Value → Option Bytes
  -- json_integer_value where json_is_integer holds, and none elsewhere.
  pub json_integer : Option Value → Option ℤ
  pub json_is_array : Option Value → Bool
  pub json_is_object : Option Value → Bool
  pub json_is_true : Option Value → Bool
  pub json_is_false : Option Value → Bool
  pub json_is_null : Option Value → Bool

-- json_string_value(json_array_get(params, i)).
abbrev pub string_at : (j : Jansson) → Option j.Value → ℕ → Option Bytes
string_at j params i = j.json_string_value (j.json_array_get params i)

-- json_string_value(json_object_get(object, key)).
abbrev pub string_of : (j : Jansson) → Option j.Value → Bytes → Option Bytes
string_of j object key = j.json_string_value (j.json_object_get object key)
