-- ===== src/Pools/Usable.antt =====
-- Startup selection and timeouts.
use primo_arm_miner.Prelude.{
  ℕ, zero, suc, ◌+◌, ◌≤◌, ◌<◌, ◌≡◌, refl, ◌⊎◌, inl, inr, true, false, arith, Bool-cases,
}
use native.Mathlib.Decide.{dec_lt}
use primo_arm_miner.Prelude.Int.{ℤ, pos, minus_one}
use primo_arm_miner.Pools.{
  PoolTable, miner_pool_is_usable, miner_get_pool_timeout, first_usable_from,
  find_first_usable_pool_index,
}

-- A receive or connect timeout is never zero.
pub miner_get_pool_timeout_pos :
    (opt_timeout : ℕ) (t : PoolTable) (i : ℕ) → 0 < miner_get_pool_timeout opt_timeout t i
unfolding miner_get_pool_timeout
miner_get_pool_timeout_pos opt_timeout t i = ground arith

abbrev pub FirstUsable : PoolTable → ℕ → ℕ → ℤ → Type 0
FirstUsable t lo hi r =
    ((i : ℕ) × (r ≡ pos i)
      × (lo ≤ i)
      × (i < hi)
      × (miner_pool_is_usable t (pos i) ≡ true)
      × ((j : ℕ) → lo ≤ j → j < i → miner_pool_is_usable t (pos j) ≡ false))
    ⊎ ((r ≡ minus_one) × ((j : ℕ) → lo ≤ j → j < hi → miner_pool_is_usable t (pos j) ≡ false))

none_below :
    (t : PoolTable) (lo hi : ℕ)
    → miner_pool_is_usable t (pos lo) ≡ false
    → ((j : ℕ) → lo + 1 ≤ j → j < hi → miner_pool_is_usable t (pos j) ≡ false)
    → (j : ℕ) → lo ≤ j
    → j < hi
    → miner_pool_is_usable t (pos j) ≡ false
none_below t lo hi h rest j p q = elim (dec_lt lo j) [
  | yes later ↦ rest j (omega arith) q
  | no same ↦ let e : j ≡ lo = omega arith in rw e h
]

skip_unusable :
    (t : PoolTable) (lo hi : ℕ) (r : ℤ)
    → miner_pool_is_usable t (pos lo) ≡ false
    → FirstUsable t (lo + 1) hi r
    → FirstUsable t lo hi r
skip_unusable t lo hi r h (inl (i, e, p, q, u, rest)) =
    inl (i, e, omega arith, q, u, none_below t lo i h rest)
skip_unusable t lo hi r h (inr (e, rest)) = inr (e, none_below t lo hi h rest)

first_usable_from_lem :
    (t : PoolTable) (rounds lo hi : ℕ)
    → lo + rounds ≡ hi
    → FirstUsable t lo hi (first_usable_from t rounds lo)
unfolding first_usable_from
first_usable_from_lem t zero lo hi e = inr (refl, λ j p q. absurd (omega arith))
first_usable_from_lem t (suc rounds) lo hi e = elim (Bool-cases (miner_pool_is_usable t (pos lo))) [
  | inl u ↦ rw u (inl (lo, refl, omega arith, omega arith, u, λ j p q. absurd (omega arith)))
  | inr n ↦
      rw n (skip_unusable t lo hi _ n (first_usable_from_lem t rounds (lo + 1) hi (omega arith)))
]

-- The startup selection returns the lowest usable index, and -1 exactly if no pool is usable.
find_first_usable_pool_index_lem :
    (t : PoolTable) → FirstUsable t 0 t.num_pools (find_first_usable_pool_index t)
unfolding find_first_usable_pool_index
find_first_usable_pool_index_lem t = first_usable_from_lem t t.num_pools 0 t.num_pools (omega arith)
