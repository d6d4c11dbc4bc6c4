-- ===== src/Session/Tests.antt =====
-- Runs of the service thread, and instances of its theorems: two pools of the user in slots 0 and 1,
-- and the dev pool in slot 2.
use primo_arm_miner.Prelude.{
  ℕ, ◌+◌, ◌≤◌, ◌<◌, ◌≡◌, refl, ◌⊎◌, inl, inr, Bool, true, false, none, [], ◌∷◌, arith, ltb,
  if◌then◌else◌, codes,
}
use primo_arm_miner.Prelude.Int.{pos}
use primo_arm_miner.Pools.{PoolInfos, PoolTable, zero_pool, usable_at}
use primo_arm_miner.DevFee.Targets.{verus}
use primo_arm_miner.DevFee.{initial_devfee, Settings, DevfeeState}
use primo_arm_miner.Session.{
  Session, Round, service_round, service_run, stratum_find_next_pool_index,
}
use primo_arm_miner.Session.Failover.{Next, stratum_find_next_pool_index_lem}
use primo_arm_miner.Session.Hidden.{Hidden, AtHome, Away, Inv}
use primo_arm_miner.Session.Places.{service_round-Inv}
use primo_arm_miner.Session.Retries.{Fails}
use primo_arm_miner.Session.Spin.{CycleLost, service_run_spins}
use primo_arm_miner.Session.Limit.{OnlyPool, service_run_limit}
use primo_arm_miner.Session.Flags.{slot_request_sticks}

abbrev cfg : Settings
cfg = record { opt_algo = verus; opt_benchmark = false; platform = none; devfee_test = none }

abbrev user_pool : PoolInfos
user_pool = record zero_pool { configured = true; url = codes "pool" }

abbrev dev_pool : PoolInfos
dev_pool = record zero_pool { configured = true; disabled = true; url = codes "dev" }

abbrev pool_at : ℕ → ℕ → PoolInfos
pool_at users i = if ltb i users then user_pool else dev_pool

abbrev table : ℕ → PoolTable
table users = record { pools = pool_at users; num_pools = users + 1 }

abbrev fee : ℕ → DevfeeState
fee k = record initial_devfee {
  enabled = true;
  dev_pool_index = pos k;
  slice_seconds = 60;
  cycle_seconds = 3000;
  next_transition = 5000;
  percent = 2;
  num_targets = 2;
}

-- With `users` pools, on pool 0 outside a slice.
abbrev at_home : ℕ → Session
at_home users = record {
  globals = record { table = table users; devfee = fee users };
  current = 0;
  reconnect_requested = λ j. false;
  thread_active = λ j. ltb j 1;
  current_pool_index = 0;
  retry_count = 0;
  retry_cycle_start = 0;
  aborted = false;
}

abbrev away : Bool → Session
away requested = record (at_home 2) {
  globals = record {
    table = table 2;
    devfee = record (fee 2) { in_slice = true; user_pool_index = pos 1 };
  };
  current = 2;
  reconnect_requested = λ j. requested;
  retry_cycle_start = 2;
}

abbrev failing : Round
failing = record {
  abort_top = false;
  opened = false;
  opt_timeout = 300;
  idle_keepalive = false;
  turns = [];
  abort_due = false;
  reconnect_due = false;
  due_at = 100;
  take_at = 100;
  advance_at = 100;
  abandon_at = 100;
  abort_lost = false;
  reconnect_lost = false;
  abort_wait = false;
}

abbrev late : Round
late = record failing { opened = true; due_at = 5001; take_at = 5001 }

failing-Fails : Fails failing
failing-Fails = record { unopened = refl; top = refl; lost = refl; wait = refl; still = refl }

home_slot : Hidden 2 (at_home 2).globals
home_slot = record { on = refl; index_eq = refl; disabled = refl; present = omega arith }

home_2 : AtHome (at_home 2).globals 0
unfolding usable_at
home_2 = (refl, refl)

home-Inv : Inv 2 (at_home 2).globals 0
home-Inv = record { slot = home_slot; place = inl home_2 }

away_slot : (requested : Bool) → Hidden 2 (away requested).globals
away_slot requested = record { on = refl; index_eq = refl; disabled = refl; present = omega arith }

away-Away : (requested : Bool) → Away 2 (away requested).globals 2
unfolding usable_at
away-Away requested = (refl, refl, (1, (refl, refl)))

away-Inv : Inv 2 (away true).globals 2
away-Inv = record { slot = away_slot true; place = inr (away-Away true) }

stratum_find_next_pool_index_lem_example :
    Next (table 2) 0 (stratum_find_next_pool_index (table 2) 0)
stratum_find_next_pool_index_lem_example =
    stratum_find_next_pool_index_lem (table 2) 0 (omega arith)

service_round-Inv_example :
    let s = (service_round cfg (pos 3) late (at_home 2)).0 in Inv 2 s.globals s.current
service_round-Inv_example = service_round-Inv cfg (pos 3) 2 late (at_home 2) home-Inv

slot_request_sticks_example :
    (service_run cfg (pos 3) (late ∷ failing ∷ []) (away true)).0.reconnect_requested 2 ≡ true
slot_request_sticks_example =
    slot_request_sticks cfg (pos 3) 2 (late ∷ failing ∷ []) (away true) away-Inv refl

abbrev lost_cycle : Session
lost_cycle = record (at_home 2) { retry_cycle_start = 2 }

lost_cycle-CycleLost : CycleLost 2 lost_cycle
unfolding usable_at
lost_cycle-CycleLost = record {
  slot = record { on = refl; index_eq = refl; disabled = refl; present = omega arith };
  home = (refl, refl);
  quiet = record { running = refl; settled = λ j. refl };
  start_eq = refl;
  other = 1;
  other_usable = refl;
  other_ne = λ e. absurd (omega arith);
}

service_run_spins_example :
    let (s', go_on) = service_run cfg (pos 0) (failing ∷ failing ∷ failing ∷ []) lost_cycle in
    (go_on ≡ true) × (s'.retry_count ≡ 0) × (s'.aborted ≡ false)
service_run_spins_example =
    service_run_spins cfg (pos 0) 2 (failing ∷ failing ∷ failing ∷ []) lost_cycle
      lost_cycle-CycleLost (failing-Fails, (failing-Fails, (failing-Fails, tt)))

-- One pool of the user, and the dev pool in slot 1.
only_one : (j : ℕ) → usable_at (table 1) j ≡ true → j ≡ 0
unfolding usable_at
only_one j u = ground arith

lone-OnlyPool : OnlyPool 1 2 (at_home 1)
unfolding usable_at
lone-OnlyPool = record {
  slot = record { on = refl; index_eq = refl; disabled = refl; present = omega arith };
  home = (refl, refl);
  quiet = record { running = refl; settled = λ j. refl };
  only = only_one;
  within = omega arith;
}

service_run_limit_example :
    let (s', go_on) = service_run cfg (pos 2) (failing ∷ failing ∷ failing ∷ []) (at_home 1) in
    ((0 + 3 ≤ 2) × (go_on ≡ true) × (s'.retry_count ≡ 3))
    ⊎ ((2 < 0 + 3) × (go_on ≡ false) × (s'.aborted ≡ true))
service_run_limit_example =
    service_run_limit cfg 1 2 (failing ∷ failing ∷ failing ∷ []) (at_home 1) lone-OnlyPool
      (failing-Fails, (failing-Fails, (failing-Fails, tt)))
