-- ===== src/Monero/Target.antt =====
-- The compact target of the Monero dialect.
use primo_arm_miner.Prelude.{ℕ, ◌+◌, ◌*◌, ◌/◌, ◌≤◌, ◌<◌, ◌≡◌, refl, arith}
use primo_arm_miner.Monero.{expand_target32}

-- The quotient by which the 64-bit maximum is divided.
quotient_bounds :
    (t32 q : ℕ)
    → 0 < t32
    → t32 ≤ 4294967295
    → q ≡ 4294967295 / t32
    → (0 < q) × (q * t32 ≤ 4294967295)
quotient_bounds t32 q h k e = grind arith

div-le : (a q : ℕ) → 0 < q → a / q ≤ a
div-le a q h = grind arith

le-div : (n a q : ℕ) → 0 < q → q * n ≤ a → n ≤ a / q
le-div n a q h k = grind arith

both_halves : (q t : ℕ) → q * (t * 4294967296 + t) ≡ q * t * 4294967297
both_halves q t = grind arith

-- The expansion never falls short of the 32-bit target: a hash whose top bytes are within the pool's
-- boundary, in either half, is within the expanded one; and it stays a 64-bit number.
pub expand_target32_bounds :
    (t32 : ℕ)
    → 0 < t32
    → t32 ≤ 4294967295
    → (t32 * 4294967296 + t32 ≤ expand_target32 t32) × (expand_target32 t32 ≤ 18446744073709551615)
unfolding expand_target32
expand_target32_bounds t32 h k =
    let q : ℕ = 4294967295 / t32 in
    let (positive, small) = quotient_bounds t32 q h k refl in
    (
      le-div (t32 * 4294967296 + t32) 18446744073709551615 q positive
          (omega (arith, both_halves q t32)),
      div-le 18446744073709551615 q positive,
    )
