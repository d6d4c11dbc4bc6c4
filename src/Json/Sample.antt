-- ===== src/Json/Sample.antt =====
-- JSON values as a data type: the parameter Jansson at a concrete instance, for the tests.
use primo_arm_miner.Prelude.{
  ℕ, zero, suc, ◌+◌, Option, none, some, List, [], ◌∷◌, Bytes, bytes_eq, if◌then◌else◌, ◌==◌,
}
use primo_arm_miner.Prelude.Int.{ℤ}
use primo_arm_miner.Json.{Jansson}

mutual
  pub data Value : Type 0 where
    null truth falsity : Value
    text : Bytes → Value
    integer : ℤ → Value
    array : Items → Value
    object : Members → Value

  pub data Items : Type 0 where
    nil : Items
    item : Value → Items → Items

  pub data Members : Type 0 where
    end : Members
    member : Bytes → Value → Members → Members

abbrev pub items : List Value → Items
items [] = nil
items (v ∷ vs) = item v (items vs)

abbrev pub members : List (Bytes × Value) → Members
members [] = end
members ((key, v) ∷ vs) = member key v (members vs)

abbrev item_at : Items → ℕ → Option Value
item_at nil i = none
item_at (item v vs) zero = some v
item_at (item v vs) (suc i) = item_at vs i

abbrev count : Items → ℕ
count nil = 0
count (item v vs) = count vs + 1

abbrev member_at : Members → Bytes → Option Value
member_at end key = none
member_at (member name v vs) key = if bytes_eq name key then some v else member_at vs key

abbrev get : Option Value → Bytes → Option Value
get (some (object vs)) key = member_at vs key
get (some null) key = none
get (some truth) key = none
get (some falsity) key = none
get (some (text s)) key = none
get (some (integer n)) key = none
get (some (array vs)) key = none
get none key = none

abbrev elements : Option Value → Items
elements (some (array vs)) = vs
elements (some (object vs)) = nil
elements (some null) = nil
elements (some truth) = nil
elements (some falsity) = nil
elements (some (text s)) = nil
elements (some (integer n)) = nil
elements none = nil

abbrev string_value : Option Value → Option Bytes
string_value (some (text s)) = some s
string_value (some (array vs)) = none
string_value (some (object vs)) = none
string_value (some null) = none
string_value (some truth) = none
string_value (some falsity) = none
string_value (some (integer n)) = none
string_value none = none

abbrev pub integer_value : Option Value → Option ℤ
integer_value (some (integer n)) = some n
integer_value (some (text s)) = none
integer_value (some (array vs)) = none
integer_value (some (object vs)) = none
integer_value (some null) = none
integer_value (some truth) = none
integer_value (some falsity) = none
integer_value none = none

-- The name of the kind of a value, by a number.
abbrev kind : Option Value → ℕ
kind none = 0
kind (some null) = 1
kind (some truth) = 2
kind (some falsity) = 3
kind (some (text s)) = 4
kind (some (integer n)) = 5
kind (some (array vs)) = 6
kind (some (object vs)) = 7

abbrev pub sample_json : Jansson
sample_json = record {
  Value = Value;
  json_object_get = get;
  json_array_get = λ v i. item_at (elements v) i;
  json_array_size = λ v. count (elements v);
  json_string_value = string_value;
  json_integer = integer_value;
  json_is_array = λ v. kind v == 6;
  json_is_object = λ v. kind v == 7;
  json_is_true = λ v. kind v == 2;
  json_is_false = λ v. kind v == 3;
  json_is_null = λ v. kind v == 1;
}
