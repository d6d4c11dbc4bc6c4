-- ===== src/DevFee/Tests.antt =====
-- Runs of the scheduler, and instances of its theorems.
use primo_arm_miner.Prelude.{
  ◌+◌, ◌-◌, ◌*◌, ◌≤◌, ◌<◌, ◌≡◌, ◌↔◌, ℕ, refl, true, false, none, [], ◌∷◌, arith,
}
use primo_arm_miner.Prelude.Int.{pos}
use primo_arm_miner.Pools.{zero_pool}
use primo_arm_miner.DevFee.Targets.{verus}
use primo_arm_miner.DevFee.{
  DevfeeState, initial_devfee, Settings, Globals, devfee_install_pool, devfee_transition_due,
  devfee_take_transition, devfee_advance_target, devfee_abort_slice,
}
use primo_arm_miner.DevFee.Slot.{Armed, operations-Armed}
use primo_arm_miner.DevFee.Install.{Installed, devfee_install_pool_lem}
use primo_arm_miner.DevFee.Cycle.{
  ended, advances, after_advances, slice_returns, slices_apart, advances-lt,
}

abbrev cfg : Settings
cfg = record { opt_algo = verus; opt_benchmark = false; platform = none; devfee_test = none }

abbrev two_pools : Globals
two_pools = record {
  table = record { pools = λ _. zero_pool; num_pools = 2 };
  devfee = initial_devfee;
}

abbrev running : DevfeeState
running = record initial_devfee {
  enabled = true;
  dev_pool_index = pos 2;
  slice_seconds = 60;
  cycle_seconds = 3000;
  percent = 2;
  num_targets = 2;
}

abbrev mining : Globals
mining = record two_pools { devfee = running }

devfee_install_pool_lem_example :
    let (g', index) = devfee_install_pool cfg two_pools in
    (index ≡ pos 2) × Installed cfg two_pools g'
devfee_install_pool_lem_example = devfee_install_pool_lem cfg two_pools refl (omega arith)

-- A slice that ends three seconds after it was seen to run.
slices_apart_example :
    ((5062 - 5000) * 100 ≤ (8072 - 5062) * 2 + 3 * 100) × (60 * 100 ≤ (8072 - 5000) * 2)
unfolding devfee_transition_due devfee_take_transition
slices_apart_example =
    slices_apart cfg 2 5000 5062 8072 5059 3 (pos 1) (pos 2) mining
      (devfee_take_transition cfg 5062 (pos 2) (devfee_take_transition cfg 5000 (pos 1) mining).0).0
      refl (record { on = refl; ratio = refl }) (omega arith) refl (omega arith) (ended refl) refl

slice_returns_example :
    let g1 =
      after_advances cfg (5001 ∷ 5002 ∷ []) (devfee_take_transition cfg 5000 (pos 1) mining).0 in
    let (g', next) = devfee_take_transition cfg 5060 (pos 2) g1 in
    (next ≡ pos 1)
    × (devfee_abort_slice 5060 g1 ≡ (g', next))
    × (g'.devfee.in_slice ≡ false)
    × ((x : ℕ) → (devfee_transition_due x g'.devfee ≡ true) ↔ (5060 + 3000 ≤ x))
slice_returns_example =
    slice_returns cfg 5000 5060 (pos 1) (pos 2) (5001 ∷ 5002 ∷ []) mining refl refl

abbrev in_slice : Globals
in_slice = record mining {
  devfee = record running { in_slice = true; user_pool_index = pos 0; next_transition = 5060 };
}

advances-lt_example : 0 + advances cfg (5001 ∷ 5002 ∷ 5003 ∷ []) in_slice < 2
advances-lt_example = advances-lt cfg (5001 ∷ 5002 ∷ 5003 ∷ []) in_slice (omega arith)

operations-Armed_example :
    let g = (devfee_install_pool cfg two_pools).0 in
    Armed cfg 2 (devfee_take_transition cfg 5000 (pos 1) g).0
    × Armed cfg 2 (devfee_advance_target cfg 5000 g).0
    × Armed cfg 2 (devfee_abort_slice 5000 g).0
operations-Armed_example =
    operations-Armed cfg 2 5000 (pos 1) (devfee_install_pool cfg two_pools).0
      (devfee_install_pool_lem cfg two_pools refl (omega arith)).1.armed
