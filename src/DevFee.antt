-- ===== src/DevFee.antt =====
-- src/dev_fee.cpp: the dev fee scheduler. Times are seconds as natural numbers, `time(NULL)` is an
-- argument of each call that reads it, and so are the environment variables and `rand_r`. The
-- percentages of the table are whole numbers, so the cycle length is computed exactly.
pub mod Targets
pub mod Slot
pub mod Install
pub mod Cycle
mod Tests
use primo_arm_miner.Prelude.{
  ℕ, zero, suc, ◌+◌, ◌-◌, ◌*◌, ◌/◌, ◌%◌, Bool, true, false, not, ◌&&◌, ◌||◌, Option, none, some,
  List, [], ◌∷◌, ◌++◌, ltb, leb, ◌==◌, if◌then◌else◌, Bytes, codes, update, bytes_eq,
}
use primo_arm_miner.Prelude.Int.{ℤ, pos, negsuc, minus_one, pos_part, sub_ℕ, ltb_ℤ, eq_ℤ}
use primo_arm_miner.Pools.{
  PoolInfos, PoolTable, zero_pool, max_pools, snprintf_str, is_empty, stratum_set_url,
}
use Targets.{Algo, Target, k_dev_fee_targets, devfee_max_targets, package_version}

pub record DevfeeState : Type 0 where
  pub enabled : Bool
  pub in_slice : Bool
  pub dev_pool_index : ℤ
  pub user_pool_index : ℤ
  pub next_transition : ℕ
  pub slice_seconds : ℕ
  pub cycle_seconds : ℕ
  pub percent : ℕ
  pub cur_target : ℕ
  pub num_targets : ℕ

abbrev pub initial_devfee : DevfeeState
initial_devfee = record {
  enabled = false;
  in_slice = false;
  dev_pool_index = minus_one;
  user_pool_index = minus_one;
  next_transition = 0;
  slice_seconds = 0;
  cycle_seconds = 0;
  percent = 0;
  cur_target = 0;
  num_targets = 0;
}

-- `opt_algo`, `opt_benchmark` and the two environment variables.
pub record Settings : Type 0 where
  pub opt_algo : Algo
  pub opt_benchmark : Bool
  pub platform : Option Bytes
  pub devfee_test : Option Bytes

-- The globals that the scheduler writes: `g_devfee`, `pools` and `num_pools`.
pub record Globals : Type 0 where
  pub table : PoolTable
  pub devfee : DevfeeState

unfoldable pub devfee_target_valid : Target → Bool
devfee_target_valid target = not (is_empty target.url) && ltb 0 target.percent

-- The loop of `devfee_count_targets` with `rounds` entries left.
count_from : Algo → ℕ → ℕ → ℕ
count_from algo zero n = n
count_from algo (suc rounds) n =
    if devfee_target_valid (k_dev_fee_targets algo n) then count_from algo rounds (n + 1) else n

unfoldable pub devfee_count_targets : Algo → ℕ
unfolding count_from devfee_target_valid
devfee_count_targets algo = count_from algo devfee_max_targets 0

unfoldable pub dev_fee_target_for_algo : Algo → Option Target
unfolding devfee_target_valid
dev_fee_target_for_algo algo =
    let target = k_dev_fee_targets algo 0 in
    if devfee_target_valid target then some target else none

is_apk : Option Bytes → Bool
is_apk none = false
is_apk (some platform) = bytes_eq platform (codes "apk")

unfoldable pub devfee_client_tag : Option Bytes → Bytes
unfolding is_apk
devfee_client_tag platform =
    snprintf_str 64
      (package_version ++ codes "-" ++ (if is_apk platform then codes "apk" else codes "cli"))

-- The slot as `devfee_set_pool_target` leaves it.
unfoldable pub retarget : Option Bytes → Target → PoolInfos → PoolInfos
unfolding devfee_client_tag stratum_set_url
retarget platform target pool =
    let pool' = record pool {
      url = snprintf_str 512 target.url;
      user =
          snprintf_str 192
            (if is_empty target.user then devfee_client_tag platform else target.user);
      pass = snprintf_str 384 (if is_empty target.pass then codes "x" else target.pass);
    } in
    stratum_set_url pool' pool'.url

unfoldable pub devfee_set_pool_target : Settings → ℕ → Globals → Globals
unfolding retarget
devfee_set_pool_target cfg t g =
    let index = pos_part g.devfee.dev_pool_index in
    record {
      table = record g.table {
        pools =
            update g.table.pools index
              (retarget cfg.platform (k_dev_fee_targets cfg.opt_algo t) (g.table.pools index));
      };
      devfee = record g.devfee { cur_target = t };
    }

abbrev pub slice_seconds_default : ℕ
slice_seconds_default = 60

unfoldable pub test_cadence : Option Bytes → Bool
test_cadence none = false
test_cadence (some []) = false
test_cadence (some (c ∷ s)) = c == b'1'

-- The slot is claimed: `pools[pool_index]` is cleared, named and given the first target.
claim_slot : Settings → Globals → Globals
unfolding devfee_set_pool_target devfee_count_targets
claim_slot cfg g =
    let index = g.table.num_pools in
    let cleared = record zero_pool { name = codes "dev fee" } in
    let g' = devfee_set_pool_target cfg 0 (record {
      table = record g.table { pools = update g.table.pools index cleared };
      devfee = record g.devfee {
        dev_pool_index = pos index;
        num_targets = devfee_count_targets cfg.opt_algo;
      };
    }) in
    record g' {
      table = record {
        pools =
            update g'.table.pools index
              (record (g'.table.pools index) { configured = true; disabled = true });
        num_pools = index + 1;
      };
    }

-- The slice and cycle lengths of the target's percentage, or of the test cadence.
set_cadence : Settings → ℕ → DevfeeState → DevfeeState
unfolding test_cadence
set_cadence cfg percent d =
    let test = test_cadence cfg.devfee_test in
    record d {
      percent = percent;
      slice_seconds = if test then 20 else slice_seconds_default;
      cycle_seconds = if test then 120 else slice_seconds_default * 100 / percent;
      enabled = true;
    }

-- With no target the function returns before it claims a slot.
install_target : Settings → Option Target → Globals → Globals × ℤ
unfolding claim_slot set_cadence
install_target cfg none g = (g, minus_one)
install_target cfg (some target) g =
    if cfg.opt_benchmark || leb max_pools g.table.num_pools
    then (g, minus_one)
    else (let g' = claim_slot cfg g in
        (record g' { devfee = set_cadence cfg target.percent g'.devfee }, pos g.table.num_pools))

unfoldable pub devfee_install_pool : Settings → Globals → Globals × ℤ
unfolding install_target dev_fee_target_for_algo
devfee_install_pool cfg g =
    install_target cfg (dev_fee_target_for_algo cfg.opt_algo)
      (record g { devfee = record g.devfee { enabled = false; dev_pool_index = minus_one } })

-- `draw` is the value of `rand_r`.
unfoldable pub devfee_runtime_begin : ℕ → ℕ → DevfeeState → DevfeeState
devfee_runtime_begin draw now d =
    let extra =
      (if ltb d.slice_seconds d.cycle_seconds
        then draw % (d.cycle_seconds - d.slice_seconds + 1)
        else 0) in
    if d.enabled
    then record d { in_slice = false; next_transition = now + (d.slice_seconds + extra) }
    else d

unfoldable pub devfee_is_dev_pool : DevfeeState → ℤ → Bool
devfee_is_dev_pool d pool_index = d.enabled && eq_ℤ pool_index d.dev_pool_index

unfoldable pub devfee_seconds_until_transition : ℕ → DevfeeState → ℤ
devfee_seconds_until_transition now d =
    if not d.enabled
    then minus_one
    else if leb d.next_transition now
    then pos 0
    else pos (d.next_transition - now)

unfoldable pub devfee_transition_due : ℕ → DevfeeState → Bool
unfolding devfee_seconds_until_transition
devfee_transition_due now d = eq_ℤ (devfee_seconds_until_transition now d) (pos 0)

unfoldable pub devfee_take_transition : Settings → ℕ → ℤ → Globals → Globals × ℤ
devfee_take_transition cfg now current_pool_index g =
    let begun = record g {
      devfee = record g.devfee {
        in_slice = true;
        user_pool_index = current_pool_index;
        next_transition = now + g.devfee.slice_seconds;
      };
    } in
    let ended = record g {
      devfee = record g.devfee { in_slice = false; next_transition = now + g.devfee.cycle_seconds };
    } in
    if not g.devfee.in_slice
    then (
      (if not (g.devfee.cur_target == 0) then devfee_set_pool_target cfg 0 begun else begun),
      g.devfee.dev_pool_index,
    )
    else (ended, g.devfee.user_pool_index)

unfoldable pub devfee_advance_target : Settings → ℕ → Globals → Globals × Bool
devfee_advance_target cfg now g =
    if not g.devfee.enabled || not g.devfee.in_slice
    then (g, false)
    else if leb g.devfee.num_targets (g.devfee.cur_target + 1)
    then (g, false)
    else if ltb_ℤ (sub_ℕ g.devfee.next_transition now) (pos (g.devfee.slice_seconds / 4))
    then (g, false)
    else (devfee_set_pool_target cfg (g.devfee.cur_target + 1) g, true)

unfoldable pub devfee_abort_slice : ℕ → Globals → Globals × ℤ
devfee_abort_slice now g = (
  record g {
    devfee = record g.devfee { in_slice = false; next_transition = now + g.devfee.cycle_seconds };
  },
  g.devfee.user_pool_index,
)
