-- ===== src/Session/Hidden.antt =====
-- Where stratum_service_thread is: on a usable pool of the user, or in the hidden slot within a slice;
-- and the ways out of the slot when its pool is lost.
use primo_arm_miner.Prelude.{
  ℕ, ◌+◌, ◌<◌, ◌≡◌, refl, sym, ◌∙◌, ◌≢◌, ◌⊎◌, inl, inr, true, false, arith,
}
use mathlib.Core.Path.{subst₂}
use primo_arm_miner.Prelude.Int.{ℤ, pos, negsuc}
use primo_arm_miner.Pools.{PoolTable, usable_at, stratum_set_url}
use primo_arm_miner.DevFee.{
  Settings, Globals, retarget, devfee_set_pool_target, devfee_advance_target, devfee_abort_slice,
}
use primo_arm_miner.Session.{
  Session, Round, move_to, stratum_switch_to_pool, set_globals, leave_dev_pool,
}

abbrev pub AtHome : Globals → ℕ → Type 0
AtHome g current = (g.devfee.in_slice ≡ false) × (usable_at g.table current ≡ true)

abbrev pub Away : ℕ → Globals → ℕ → Type 0
Away k g current =
    (g.devfee.in_slice ≡ true)
    × (current ≡ k)
    × ((u : ℕ) × ((g.devfee.user_pool_index ≡ pos u) × (usable_at g.table u ≡ true)))

-- The fee is installed in slot `k`, which pool selection skips.
pub record Hidden (k : ℕ) (g : Globals) : Type 0 where
  pub on : g.devfee.enabled ≡ true
  pub index_eq : g.devfee.dev_pool_index ≡ pos k
  pub disabled : (g.table.pools k).disabled ≡ true
  pub present : k < g.table.num_pools

-- Outside a slice the thread is on a usable pool; within a slice it is in the slot, and the pool to
-- return to is usable.
pub record Inv (k : ℕ) (g : Globals) (current : ℕ) : Type 0 where
  pub slot : Hidden k g
  pub place : AtHome g current ⊎ Away k g current

-- What an operation on the globals keeps: the slot, and every usable pool.
pub record Keeps (k : ℕ) (g g' : Globals) : Type 0 where
  pub slot : Hidden k g'
  pub usable : (j : ℕ) → usable_at g.table j ≡ true → usable_at g'.table j ≡ true

retarget_keeps :
    (cfg : Settings) (k t j : ℕ) (g : Globals)
    → Hidden k g
    → usable_at g.table j ≡ true
    → usable_at (devfee_set_pool_target cfg t g).table j ≡ true
unfolding usable_at devfee_set_pool_target
retarget_keeps cfg k t j g v u = ground arith

retarget_disabled :
    (cfg : Settings) (k t : ℕ) (g : Globals)
    → Hidden k g
    → Hidden k (devfee_set_pool_target cfg t g)
unfolding devfee_set_pool_target retarget stratum_set_url
retarget_disabled cfg k t g v = ground arith

pub set_pool_target-Keeps :
    (cfg : Settings) (k t : ℕ) (g : Globals)
    → Hidden k g
    → Keeps k g (devfee_set_pool_target cfg t g)
set_pool_target-Keeps cfg k t g v = record {
  slot = retarget_disabled cfg k t g v;
  usable = λ j u. retarget_keeps cfg k t j g v u;
}

pub usable-ne : (k j : ℕ) (g : Globals) → Hidden k g → usable_at g.table j ≡ true → j ≢ k
unfolding usable_at
usable-ne k j g v u = ground arith

pub usable-lt : (j : ℕ) (t : PoolTable) → usable_at t j ≡ true → j < t.num_pools
unfolding usable_at
usable-lt j t u = ground arith

-- A switch to another index of the table moves there and leaves the globals alone.
pub switch_moves :
    (i : ℕ) (next : ℤ) (s : Session)
    → next ≡ pos i
    → i < s.globals.table.num_pools
    → i ≢ s.current
    → let (s', moved) = stratum_switch_to_pool next s in
      (moved ≡ true) × (s'.globals ≡ s.globals) × (s'.current ≡ i)
unfolding stratum_switch_to_pool move_to
switch_moves i (pos n) s e h ne = ground arith
switch_moves i (negsuc n) s e h ne = absurd (ground arith)

pub switch-Inv :
    (k i : ℕ) (next : ℤ) (s : Session)
    → next ≡ pos i
    → i < s.globals.table.num_pools
    → i ≢ s.current
    → Inv k s.globals i
    → let s' = (stratum_switch_to_pool next s).0 in Inv k s'.globals s'.current
switch-Inv k i next s e h ne v =
    let (_, same, there) = switch_moves i next s e h ne in subst₂ (Inv k) (sym same) (sym there) v

pub target_kept :
    (cfg : Settings) (t : ℕ) (g : Globals)
    → let d = (devfee_set_pool_target cfg t g).devfee in
      (d.in_slice ≡ g.devfee.in_slice) × (d.user_pool_index ≡ g.devfee.user_pool_index)
unfolding devfee_set_pool_target
target_kept cfg t g = (refl, refl)

abbrev pub HasPlace : ℕ → Session → Type 0
HasPlace k s = Inv k s.globals s.current

-- Given up: the thread is back on the remembered pool.
abandon-Inv :
    (cfg : Settings) (k now : ℕ) (s : Session)
    → Hidden k s.globals
    → Away k s.globals s.current
    → let (g, user_pool) = devfee_abort_slice now s.globals in
      HasPlace k (stratum_switch_to_pool user_pool (set_globals g s)).0
unfolding devfee_abort_slice
abandon-Inv cfg k now s v (inside, here, (u, (e, usable))) =
    let ne = usable-ne k u s.globals v usable in
    switch-Inv k u _ (set_globals (devfee_abort_slice now s.globals).0 s) e
      (usable-lt u s.globals.table usable) (λ q. ne (q ∙ here))
      (record {
        slot = record {
          on = v.on;
          index_eq = v.index_eq;
          disabled = v.disabled;
          present = v.present;
        };
        place = inl (refl, usable);
      })

-- A move to the next target stays in the slot and keeps the pool to return to.
retarget-Inv :
    (cfg : Settings) (k t : ℕ) (s : Session)
    → Hidden k s.globals
    → Away k s.globals s.current
    → HasPlace k (set_globals (devfee_set_pool_target cfg t s.globals) s)
retarget-Inv cfg k t s v (inside, here, (u, (e, usable))) =
    let kept = set_pool_target-Keeps cfg k t s.globals v in
    let same = target_kept cfg t s.globals in
    record {
      slot = kept.slot;
      place = inr (same.0 ∙ inside, here, (u, (same.1 ∙ e, kept.usable u usable)));
    }

advance_cases :
    (cfg : Settings) (now : ℕ) (g : Globals)
    → (devfee_advance_target cfg now g
        ≡ (devfee_set_pool_target cfg (g.devfee.cur_target + 1) g, true))
      ⊎ (devfee_advance_target cfg now g ≡ (g, false))
unfolding devfee_advance_target
advance_cases cfg now g = ground arith

-- Leaving the dev pool is a move to its next target, or the way home.
pub leave_dev_pool-Inv :
    (cfg : Settings) (k : ℕ) (r : Round) (s : Session)
    → Hidden k s.globals
    → Away k s.globals s.current
    → HasPlace k (leave_dev_pool cfg r s)
unfolding leave_dev_pool
leave_dev_pool-Inv cfg k r s v a = elim (advance_cases cfg r.advance_at s.globals) [
  | inl e ↦ rw (e, leave_dev_pool) (retarget-Inv cfg k _ s v a)
  | inr e ↦ rw (e, leave_dev_pool) (abandon-Inv cfg k r.abandon_at s v a)
]
