-- ===== src/RpcId/Exact.antt =====
-- Which texts are ids.
use primo_arm_miner.Prelude.{
  ℕ, ◌≤◌, ◌≡◌, ◌↔◌, refl, false, some, [], ◌∷◌, arith, ◌==◌, Bytes, All, ap, ◌∙◌,
}
use primo_arm_miner.Numeral.{unsigned_long, strtoul}
use primo_arm_miner.Numeral.Decimal.{
  IsDigit, value, take_digits-All, take_digits-end, strtoul-digit,
}
use primo_arm_miner.RpcId.{uint32_max, whole_id, id_of_text}

-- What is accepted of a number and what follows it.
whole_id_lem :
    (n : ℕ) (rest : Bytes) (id : ℕ)
    → whole_id (some (unsigned_long false n, rest)) ≡ some id
    → (rest ≡ []) × (n ≡ id) × (id ≤ uint32_max)
unfolding whole_id unsigned_long
whole_id_lem n [] id e = ground arith
whole_id_lem n (c ∷ rest) id e = absurd (cc)

whole_id_fits : (n : ℕ) → n ≤ uint32_max → whole_id (some (unsigned_long false n, [])) ≡ some n
unfolding whole_id unsigned_long
whole_id_fits n h = ground arith

not_minus : (c : ℕ) → IsDigit c → (c == b'-') ≡ false
not_minus c h = ground arith

-- A text that begins with a digit is the id `id` exactly if it is digits to its end that spell `id`, and
-- `id` is a 32-bit number: nothing wraps round.
pub id_of_text_exact :
    (c : ℕ) (s : Bytes) (id : ℕ)
    → IsDigit c
    → (id_of_text (c ∷ s) ≡ some id)
      ↔ (All IsDigit (c ∷ s) × (value 0 (c ∷ s) ≡ id) × (id ≤ uint32_max))
unfolding id_of_text
id_of_text_exact c s id d =
    let plain : id_of_text (c ∷ s) ≡ whole_id (strtoul (c ∷ s)) = rw (not_minus c d) refl in
    (
      λ e.
          let e1 = rw (plain, strtoul-digit c s d) at e in
          let (end, same, fits) = whole_id_lem _ _ id e1 in
          let (digits, spelled) = take_digits-end 0 (c ∷ s) id (ground arith) in
          (digits, ground arith, fits),
      λ h.
          let read = take_digits-All 0 (c ∷ s) h.0 in
          let fits : value 0 (c ∷ s) ≤ uint32_max = omega arith in
          plain
          ∙ ap whole_id (strtoul-digit c s d)
          ∙ (rw read (whole_id_fits (value 0 (c ∷ s)) fits))
          ∙ ap some h.1,
    )
