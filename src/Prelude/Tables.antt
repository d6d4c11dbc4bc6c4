-- ===== src/Prelude/Tables.antt =====
-- A test of consecutive numbers, run by evaluation.
use Prim.Native.Nat.{ℕ, zero, suc, ◌+◌, ◌≤◌, ◌<◌}
use mathlib.Core.Path.{◌≡◌}
use mathlib.Core.Bool.{Bool, true, ◌&&◌}
use native.Mathlib.Decide.{dec_lt}
use native.Mathlib.Omega.{arith}

-- Whether a test passes on `left` numbers from `at` on.
unfoldable pub passes : (test : ℕ → Bool) → (left at : ℕ) → Bool
passes test zero at = true
passes test (suc left) at = let later = passes test left (at + 1) in test at && later

pub from_table :
    (test : ℕ → Bool) (left at v : ℕ)
    → passes test left at ≡ true
    → at ≤ v
    → v < at + left
    → test v ≡ true
unfolding passes
from_table test zero at v table low high = absurd (omega arith)
from_table test (suc left) at v table low high = elim (dec_lt at v) [
  | yes above ↦ from_table test left (at + 1) v (ground arith) (omega arith) (omega arith)
  | no here ↦ let same : v ≡ at = omega arith in rw same (ground arith)
]
