-- ===== src/RpcId/Tests.antt =====
-- An instance: an id that a text spells. And a negative number behind a blank, which wraps round to a small id.
use primo_arm_miner.Prelude.{◌≡◌, ◌≤◌, ◌↔◌, refl, some, [], ◌∷◌, codes, All}
use primo_arm_miner.Numeral.{
  strtoul, unsigned_long, sign_and_digits, signed_as, skip_spaces, unsigned, take_digits,
}
use primo_arm_miner.Numeral.Decimal.{IsDigit, value}
use primo_arm_miner.RpcId.{uint32_max, id_of_text, whole_id}
use primo_arm_miner.RpcId.Exact.{id_of_text_exact}

id_of_text_exact_example :
    (id_of_text (codes "12") ≡ some 12)
    ↔ (All IsDigit (codes "12") × (value 0 (codes "12") ≡ 12) × (12 ≤ uint32_max))
id_of_text_exact_example = id_of_text_exact b'1' (b'2' ∷ []) 12 refl

wraps_round : id_of_text (codes " -18446744073709551606") ≡ some 10
unfolding id_of_text whole_id strtoul unsigned_long sign_and_digits signed_as skip_spaces unsigned
    take_digits
wraps_round = refl
