-- ===== src/Extranonce/Layout.antt =====
-- How the extra nonces of a session lie in a coinbase and in a work.
use primo_arm_miner.Prelude.{
  ℕ, ◌+◌, ◌/◌, ◌≤◌, ◌≡◌, Bool, true, false, Option, some, arith, ◌==◌, leb, ◌&&◌, ◌%◌, Bytes,
  length,
}
use primo_arm_miner.Prelude.Options.{>>=-eq-some, guard-eq-some}
use primo_arm_miner.Json.{Jansson, string_at}
use primo_arm_miner.Hex.{hex2bin}
use primo_arm_miner.Job.{StratumCtx}
use primo_arm_miner.Job.Decode.{hex2bin-Field}
use primo_arm_miner.DevFee.Targets.{Algo}
use primo_arm_miner.Extranonce.{
  spelled_size, xnonce2_size_of, layout_ok, speaks_verus, is_present, stratum_set_extranonce,
  stratum_parse_extranonce,
}

-- Both extra nonces fit in 32 bytes.
abbrev pub Layout : {D : Type 0} → StratumCtx D → Type 0
Layout s = length s.xnonce1 + s.xnonce2_size ≤ 32

layout_ok-le :
    (verus_protocol : Bool) (xn1_size xn2_size : ℕ)
    → layout_ok verus_protocol xn1_size xn2_size ≡ true
    → xn1_size + xn2_size ≤ 32
unfolding layout_ok
layout_ok-le true xn1_size xn2_size h = ground arith
layout_ok-le false xn1_size xn2_size h = ground arith

module _ {D : Type 0} where
  -- What a session keeps of accepted extra nonces.
  pub record Accepted (opt_algo : Algo) (j : Jansson) (params : Option j.Value) (pndx : ℕ)
      (s s' : StratumCtx D) : Type 0 where
    pub text : Bytes
    pub given : string_at j params pndx ≡ some text
    pub bytes : hex2bin text (length s'.xnonce1) ≡ some s'.xnonce1
    pub layout : layout_ok (speaks_verus opt_algo s) (length s'.xnonce1) s'.xnonce2_size ≡ true
    pub kept : s' ≡ record s { xnonce1 = s'.xnonce1; xnonce2_size = s'.xnonce2_size }

  pub stratum_parse_extranonce-Accepted :
      (opt_algo : Algo) (j : Jansson) (params : Option j.Value) (pndx : ℕ) (s s' : StratumCtx D)
      → stratum_parse_extranonce opt_algo j params pndx s ≡ some s'
      → Accepted opt_algo j params pndx s s'
  unfolding stratum_parse_extranonce stratum_set_extranonce
  stratum_parse_extranonce-Accepted opt_algo j params pndx s s' e =
      let (text, e1, k1) = >>=-eq-some (string_at j params pndx) _ e in
      let (_, k2) = guard-eq-some (length text % 2 == 0 && leb (length text / 2) 32) _ k1 in
      let (size, e3, k3) =
        >>=-eq-some
          (xnonce2_size_of (speaks_verus opt_algo s)
            (is_present j (j.json_array_get params (pndx + 1))) (length text / 2)
            (spelled_size (j.json_integer (j.json_array_get params (pndx + 1)))
              (j.json_string_value (j.json_array_get params (pndx + 1)))))
          _ k2 in
      let (ok, k4) =
        guard-eq-some (layout_ok (speaks_verus opt_algo s) (length text / 2) size) _ k3 in
      let (bytes, e5, k5) = >>=-eq-some (hex2bin text (length text / 2)) _ k4 in
      let (n, _) = hex2bin-Field text (length text / 2) bytes e5 in
      let xn1 : s'.xnonce1 ≡ bytes = ground arith in
      let xn2 : s'.xnonce2_size ≡ size = ground arith in
      record {
        text = text;
        given = e1;
        bytes = rw (xn1, n) e5;
        layout = rw (xn1, n, xn2) ok;
        kept = ground arith;
      }

  -- Accepted extra nonces fit together.
  pub Accepted-Layout :
      (opt_algo : Algo) (j : Jansson) (params : Option j.Value) (pndx : ℕ) (s s' : StratumCtx D)
      → Accepted opt_algo j params pndx s s'
      → Layout s'
  Accepted-Layout opt_algo j params pndx s s' a =
      layout_ok-le (speaks_verus opt_algo s) (length s'.xnonce1) s'.xnonce2_size a.layout
