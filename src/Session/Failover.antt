-- ===== src/Session/Failover.antt =====
-- Which pool the failover picks.
use native.Mathlib.Decide.{dec_lt}
use native.Mathlib.Nat.{mod-eq_of_lt, mod-eq-sub-mod}
use primo_arm_miner.Prelude.{
  ℕ, zero, suc, ◌+◌, ◌-◌, ◌%◌, ◌≤◌, ◌<◌, ◌≡◌, refl, ◌≢◌, ◌⊎◌, inl, inr, true, false, arith,
  Bool-cases,
}
use primo_arm_miner.Prelude.Int.{pos}
use primo_arm_miner.Pools.{PoolTable, miner_pool_is_usable}
use primo_arm_miner.Session.{next_from, stratum_find_next_pool_index}

-- The index `o` steps round the table from `c`.
mod_below : (x n : ℕ) → x < n → x % n ≡ x
mod_below x n h = mod-eq_of_lt h

mod_above : (x n : ℕ) → n ≤ x → x < n + n → x % n ≡ x - n
mod_above x n h k = grind (arith, mod-eq-sub-mod, mod-eq_of_lt)

around_ne : (c o n : ℕ) → c < n → 1 ≤ o → o < n → ((c + o) % n ≢ c) × ((c + o) % n < n)
around_ne c o n hc ho hn = elim (dec_lt (c + o) n) [
  | yes p ↦ omega (arith, mod_below (c + o) n p)
  | no p ↦ omega (arith, mod_above (c + o) n (omega arith) (omega arith))
]

around_reaches :
    (c j n : ℕ) → c < n → j < n → j ≢ c → (o : ℕ) × (1 ≤ o) × (o < n) × ((c + o) % n ≡ j)
around_reaches c j n hc hj h = elim (dec_lt c j) [
  | yes p ↦
      (j - c, omega arith, omega arith, omega (arith, mod_below (c + (j - c)) n (omega arith)))
  | no p ↦ (
    j + n - c,
    omega arith,
    omega arith,
    omega (arith, mod_above (c + (j + n - c)) n (omega arith) (omega arith)),
  )
]

abbrev Skipped : PoolTable → ℕ → ℕ → ℕ → Type 0
Skipped t c lo hi =
    (o : ℕ) → lo ≤ o → o < hi → miner_pool_is_usable t (pos ((c + o) % t.num_pools)) ≡ false

abbrev Picked : PoolTable → ℕ → ℕ → ℕ → Type 0
Picked t c lo r =
    ((o : ℕ) × (lo ≤ o)
      × (o < t.num_pools)
      × (r ≡ (c + o) % t.num_pools)
      × (miner_pool_is_usable t (pos r) ≡ true)
      × Skipped t c lo o)
    ⊎ ((r ≡ c) × Skipped t c lo t.num_pools)

skip_offset :
    (t : PoolTable) (c lo hi : ℕ)
    → miner_pool_is_usable t (pos ((c + lo) % t.num_pools)) ≡ false
    → Skipped t c (lo + 1) hi
    → Skipped t c lo hi
skip_offset t c lo hi h rest o p q = elim (dec_lt lo o) [
  | yes later ↦ rest o (omega arith) q
  | no same ↦ let e : o ≡ lo = omega arith in rw e h
]

skip-Picked :
    (t : PoolTable) (c lo r : ℕ)
    → miner_pool_is_usable t (pos ((c + lo) % t.num_pools)) ≡ false
    → Picked t c (lo + 1) r
    → Picked t c lo r
skip-Picked t c lo r h (inl (o, p, q, e, u, rest)) =
    inl (o, omega arith, q, e, u, skip_offset t c lo o h rest)
skip-Picked t c lo r h (inr (e, rest)) = inr (e, skip_offset t c lo t.num_pools h rest)

next_from-Picked :
    (t : PoolTable) (c rounds offset : ℕ)
    → offset + rounds ≡ t.num_pools
    → Picked t c offset (next_from t c rounds offset)
unfolding next_from
next_from-Picked t c zero offset e = inr (refl, λ o p q. absurd (omega arith))
next_from-Picked t c (suc rounds) offset e =
    elim (Bool-cases (miner_pool_is_usable t (pos ((c + offset) % t.num_pools)))) [
      | inl u ↦
          rw u (inl (offset, omega arith, omega arith, refl, u, λ o p q. absurd (omega arith)))
      | inr n ↦
          rw n (skip-Picked t c offset _ n (next_from-Picked t c rounds (offset + 1) (omega arith)))
    ]

-- The pool that follows `c`, `o` steps on: usable, another one, and none between is usable.
abbrev pub FollowsAt : PoolTable → ℕ → ℕ → ℕ → Type 0
FollowsAt t c r o =
    (1 ≤ o)
    × (o < t.num_pools)
    × (r ≡ (c + o) % t.num_pools)
    × ((i : ℕ) → 1 ≤ i → i < o → miner_pool_is_usable t (pos ((c + i) % t.num_pools)) ≡ false)

all-Skipped :
    (t : PoolTable) (c : ℕ)
    → c < t.num_pools
    → Skipped t c 1 t.num_pools
    → (j : ℕ) → j < t.num_pools
    → j ≢ c
    → miner_pool_is_usable t (pos j) ≡ false
all-Skipped t c hc h j hj ne =
    let (o, p, q, e) = around_reaches c j t.num_pools hc hj ne in rw e at (h o p q)

find_next-small : (t : PoolTable) (c : ℕ) → t.num_pools ≤ 1 → stratum_find_next_pool_index t c ≡ c
unfolding stratum_find_next_pool_index
find_next-small t c h = ground arith

find_next-large :
    (t : PoolTable) (c n : ℕ)
    → t.num_pools ≡ suc (suc n)
    → stratum_find_next_pool_index t c ≡ next_from t c (suc n) 1
unfolding stratum_find_next_pool_index
find_next-large t c n e = rw e (ground arith)

abbrev pub Next : PoolTable → ℕ → ℕ → Type 0
Next t c r =
    ((r ≢ c)
      × (r < t.num_pools)
      × (miner_pool_is_usable t (pos r) ≡ true)
      × ((o : ℕ) × FollowsAt t c r o))
    ⊎ ((r ≡ c) × ((j : ℕ) → j < t.num_pools → j ≢ c → miner_pool_is_usable t (pos j) ≡ false))

Picked-Next : (t : PoolTable) (c r : ℕ) → c < t.num_pools → Picked t c 1 r → Next t c r
Picked-Next t c r hc (inl (o, p, q, e, u, rest)) =
    let (ne, lt) = around_ne c o t.num_pools hc p q in
    inl (rw e ne, rw e lt, u, (o, (p, q, e, rest)))
Picked-Next t c r hc (inr (e, rest)) = inr (e, all-Skipped t c hc rest)

only_pool :
    (t : PoolTable) (c : ℕ)
    → c < t.num_pools
    → t.num_pools ≤ 1
    → (j : ℕ) → j < t.num_pools
    → j ≢ c
    → miner_pool_is_usable t (pos j) ≡ false
only_pool t c hc h j hj ne = absurd (omega arith)

-- From a pool of the table the failover goes on round the table, to the first usable pool after it;
-- the pool itself comes back exactly if no other pool is usable.
pub stratum_find_next_pool_index_lem :
    (t : PoolTable) (c : ℕ) → c < t.num_pools → Next t c (stratum_find_next_pool_index t c)
stratum_find_next_pool_index_lem t c hc = elim (dec_lt 1 t.num_pools) [
  | yes many ↦
      rw (find_next-large t c (t.num_pools - 2) (omega arith))
        (Picked-Next t c _ hc (next_from-Picked t c (suc (t.num_pools - 2)) 1 (omega arith)))
  | no one ↦ rw (find_next-small t c (omega arith)) (inr (refl, only_pool t c hc (omega arith)))
]
