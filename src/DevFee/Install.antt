-- ===== src/DevFee/Install.antt =====
-- What installing the hidden slot writes.
use primo_arm_miner.Prelude.{ℕ, ◌+◌, ◌*◌, ◌≤◌, ◌<◌, ◌≡◌, refl, ◌≢◌, ◌⊎◌, true, false, arith, codes}
use primo_arm_miner.Prelude.Int.{pos, minus_one}
use primo_arm_miner.Pools.{PoolInfos, zero_pool, max_pools, miner_pool_is_usable}
use primo_arm_miner.DevFee.Targets.{k_dev_fee_targets}
use primo_arm_miner.DevFee.{
  Settings, Globals, devfee_set_pool_target, claim_slot, set_cadence, test_cadence, install_target,
  devfee_install_pool,
}
use primo_arm_miner.DevFee.Slot.{
  Armed, HoldsTarget, count_targets, first_target, percent_bounds, retarget-HoldsTarget,
}

claim_slot_lem :
    (cfg : Settings) (g : Globals)
    → let k = g.table.num_pools in
      let g' = claim_slot cfg g in
      (g'.devfee.dev_pool_index ≡ pos k)
      × (g'.devfee.cur_target ≡ 0)
      × (g'.devfee.num_targets ≡ 2)
      × ((g'.table.pools k).disabled ≡ true)
      × ((g'.table.pools k).configured ≡ true)
      × (g'.table.num_pools ≡ k + 1)
      × HoldsTarget cfg 0 (g'.table.pools k)
unfolding claim_slot devfee_set_pool_target
claim_slot_lem cfg g =
    ground (arith, count_targets cfg.opt_algo, retarget-HoldsTarget cfg 0 cleared)
  where
    cleared : PoolInfos
    cleared = record zero_pool { name = codes "dev fee" }

claim_slot_others :
    (cfg : Settings) (g : Globals) (j : ℕ)
    → j ≢ g.table.num_pools
    → (claim_slot cfg g).table.pools j ≡ g.table.pools j
unfolding claim_slot devfee_set_pool_target
claim_slot_others cfg g j h = ground arith

-- What a successful installation at slot `k` leaves behind.
pub record Installed (cfg : Settings) (g g' : Globals) : Type 0 where
  pub armed : Armed cfg g.table.num_pools g'
  pub one_more : g'.table.num_pools ≡ g.table.num_pools + 1
  pub first : g'.devfee.cur_target ≡ 0
  pub skipped : miner_pool_is_usable g'.table g'.devfee.dev_pool_index ≡ false
  pub kept : (j : ℕ) → j ≢ g.table.num_pools → g'.table.pools j ≡ g.table.pools j

abbrev switched_off : Globals → Globals
switched_off g = record g {
  devfee = record g.devfee { enabled = false; dev_pool_index = minus_one };
}

abbrev installed_state : Settings → Globals → Globals
installed_state cfg g =
    let g' = claim_slot cfg (switched_off g) in
    record g' { devfee = set_cadence cfg (k_dev_fee_targets cfg.opt_algo 0).percent g'.devfee }

install_runs :
    (cfg : Settings) (g : Globals)
    → cfg.opt_benchmark ≡ false
    → g.table.num_pools < max_pools
    → devfee_install_pool cfg g ≡ (installed_state cfg g, pos g.table.num_pools)
unfolding devfee_install_pool install_target
install_runs cfg g hb hn = rw (first_target cfg.opt_algo) (ground arith)

installed_state-Armed :
    (cfg : Settings) (g : Globals) → Armed cfg g.table.num_pools (installed_state cfg g)
unfolding set_cadence
installed_state-Armed cfg g = ground (arith, claim_slot_lem cfg (switched_off g))

installed_state-Installed : (cfg : Settings) (g : Globals) → Installed cfg g (installed_state cfg g)
unfolding set_cadence miner_pool_is_usable
installed_state-Installed cfg g = record {
  armed = installed_state-Armed cfg g;
  one_more = (claim_slot_lem cfg (switched_off g)).5;
  first = (claim_slot_lem cfg (switched_off g)).1;
  skipped = ground (arith, claim_slot_lem cfg (switched_off g));
  kept = λ j h. claim_slot_others cfg (switched_off g) j h;
}

-- Outside benchmark mode, with a slot left above the user's pools, the installation returns the
-- index of the slot, which it enables and fills with the URL, the user and the password of the first
-- target, each cut to its buffer; pool selection skips the slot, and the other pools are as before.
pub devfee_install_pool_lem :
    (cfg : Settings) (g : Globals)
    → cfg.opt_benchmark ≡ false
    → g.table.num_pools < max_pools
    → let (g', index) = devfee_install_pool cfg g in
      (index ≡ pos g.table.num_pools) × Installed cfg g g'
devfee_install_pool_lem cfg g hb hn =
    rw (install_runs cfg g hb hn) (refl, installed_state-Installed cfg g)

-- Without the test cadence the slice is the table's percentage of the cycle.
install_duty :
    (cfg : Settings) (g : Globals)
    → cfg.opt_benchmark ≡ false
    → g.table.num_pools < max_pools
    → test_cadence cfg.devfee_test ≡ false
    → let d = (devfee_install_pool cfg g).0.devfee in
      (d.slice_seconds ≡ 60)
      × (d.cycle_seconds * (k_dev_fee_targets cfg.opt_algo 0).percent ≡ d.slice_seconds * 100)
unfolding devfee_install_pool install_target set_cadence
install_duty cfg g hb hn ht = ground (arith, first_target cfg.opt_algo, percent_bounds cfg.opt_algo)

-- In benchmark mode, or with no slot left, nothing is installed and the fee is off.
install_refused :
    (cfg : Settings) (g : Globals)
    → (cfg.opt_benchmark ≡ true) ⊎ (max_pools ≤ g.table.num_pools)
    → let (g', index) = devfee_install_pool cfg g in
      (index ≡ minus_one) × (g'.devfee.enabled ≡ false) × (g'.table ≡ g.table)
unfolding devfee_install_pool install_target
install_refused cfg g h = ground (arith, first_target cfg.opt_algo)
