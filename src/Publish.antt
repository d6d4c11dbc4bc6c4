-- ===== src/Publish.antt =====
-- src/stratum_state.cpp: the published work with its counters, and the totals of the shares; every
-- operation holds stratum_work_lock. What the work carries beside its identity (header words, payload)
-- is a parameter, and so is the type of a difficulty.
pub mod Wake
pub mod Restart
pub mod Shares
mod Tests
use primo_arm_miner.Prelude.{
  ℕ, ◌+◌, ◌%◌, Bool, true, false, not, ◌&&◌, ◌||◌, Option, none, some, List, [], ◌∷◌, ltb, ◌==◌,
  if◌then◌else◌, Bytes, bytes_eq, update, take,
}
use primo_arm_miner.Prelude.Int.{ℤ, pos, negsuc}
use primo_arm_miner.Pools.{snprintf_str, is_empty}
use primo_arm_miner.DevFee.{DevfeeState, devfee_is_dev_pool}

-- include/miner.h, struct work: `payload` is the rest of it.
pub record PublishedWork (P : Type 0) : Type 0 where
  pub job_id : Bytes
  pub height : ℕ
  pub target : List ℕ
  pub pooln : ℕ
  pub restart_generation : ℕ
  pub payload : P

-- g_runtime_state, with g_miner_work_generation.
pub record RuntimeState (P : Type 0) : Type 0 where
  pub generation : ℕ
  pub current_work : PublishedWork P
  pub work_ready : Bool
  pub last_job_id : Bytes
  pub work_updates_total : ℕ
  pub work_updates_clean : ℕ
  pub work_restart_total : ℕ
  pub work_restart_clean : ℕ
  pub work_restart_height : ℕ
  pub work_restart_target : ℕ

-- A 64-bit counter and the 32-bit generation.
abbrev pub count_up : ℕ → ℕ
count_up n = (n + 1) % 18446744073709551616

abbrev pub bump : ℕ → ℕ
bump n = (n + 1) % 4294967296

abbrev pub count_if : Bool → ℕ → ℕ
count_if b n = if b then count_up n else n

module _ {P : Type 0} where
  unfoldable pub height_changed : PublishedWork P → RuntimeState P → Bool
  height_changed new s = not s.work_ready || not (new.height == s.current_work.height)

  unfoldable pub target_changed : PublishedWork P → RuntimeState P → Bool
  target_changed new s = not s.work_ready || not (bytes_eq new.target s.current_work.target)

  unfoldable pub should_restart : PublishedWork P → (clean : Bool) → RuntimeState P → Bool
  should_restart new clean s =
      not s.work_ready || clean || height_changed new s || target_changed new s

  unfoldable pub stratum_publish_work :
      PublishedWork P → (clean : Bool) → RuntimeState P → RuntimeState P
  stratum_publish_work new clean s =
      let restart = should_restart new clean s in
      let generation = if restart then bump s.generation else s.generation in
      record {
        generation = generation;
        current_work = record new { restart_generation = generation };
        work_ready = true;
        last_job_id =
            if bytes_eq s.last_job_id new.job_id
            then s.last_job_id
            else snprintf_str 128 new.job_id;
        work_updates_total = count_up s.work_updates_total;
        work_updates_clean = count_if clean s.work_updates_clean;
        work_restart_total = count_if restart s.work_restart_total;
        work_restart_clean = count_if (restart && clean) s.work_restart_clean;
        work_restart_height = count_if (restart && height_changed new s) s.work_restart_height;
        work_restart_target = count_if (restart && target_changed new s) s.work_restart_target;
      }

  unfoldable pub stratum_copy_work : RuntimeState P → Option (PublishedWork P)
  stratum_copy_work s = if s.work_ready then some s.current_work else none

  -- miner_work_reset (src/miner.cpp) zeroes the work; `zero_payload` is the zeroed rest.
  abbrev pub zero_work : P → PublishedWork P
  zero_work zero_payload = record {
    job_id = [];
    height = 0;
    target = 0 ∷ 0 ∷ 0 ∷ 0 ∷ 0 ∷ 0 ∷ 0 ∷ 0 ∷ [];
    pooln = 0;
    restart_generation = 0;
    payload = zero_payload;
  }

  unfoldable pub stratum_reset_work_state : P → RuntimeState P → RuntimeState P
  stratum_reset_work_state zero_payload s = record s {
    current_work = zero_work zero_payload;
    work_ready = false;
    last_job_id = [];
    generation = bump s.generation;
  }

  unfoldable pub stratum_update_active_work_height :
      (pooln : ℕ) → Bytes → (height : ℕ) → RuntimeState P → RuntimeState P × Bool
  stratum_update_active_work_height pooln job_id height s =
      if height == 0 || is_empty job_id
      then (s, false)
      else if s.work_ready
          && pooln == s.current_work.pooln
          && bytes_eq s.current_work.job_id job_id
          && not (s.current_work.height == height)
      then (record s { current_work = record s.current_work { height = height } }, true)
      else (s, false)

  -- miner_work_restart_requested (include/miner.h).
  abbrev pub miner_work_restart_requested : ℕ → RuntimeState P → Bool
  miner_work_restart_requested local_generation s = not (s.generation == local_generation)

  -- The test of wait_for_work_restart_after_nonce_exhaustion (src/miner.cpp), without the abort flag:
  -- the generation is read first, the update counter later.
  unfoldable pub keeps_waiting :
      (restart_generation work_update_snapshot : ℕ) → (at_first later : RuntimeState P) → Bool
  keeps_waiting restart_generation work_update_snapshot at_first later =
      not (miner_work_restart_requested restart_generation at_first)
      && later.work_updates_total == work_update_snapshot

-- The totals of the shares, and those of each pool.
pub record ShareStats : Type 0 where
  pub share_accepted_total : ℕ
  pub share_rejected_total : ℕ
  pub accepted_count : ℕ → ℕ
  pub rejected_count : ℕ → ℕ

abbrev pub bump_if : Bool → ℕ → ℕ
bump_if b n = if b then bump n else n

unfoldable pub stratum_update_share_stats :
    DevfeeState → (num_pools : ℕ) → ℤ → (accepted : Bool) → ShareStats → ShareStats
stratum_update_share_stats d num_pools (negsuc n) accepted s =
    let shown = not (devfee_is_dev_pool d (negsuc n)) in
    record s {
      share_accepted_total = bump_if (shown && accepted) s.share_accepted_total;
      share_rejected_total = bump_if (shown && not accepted) s.share_rejected_total;
    }
stratum_update_share_stats d num_pools (pos i) accepted s =
    let shown = not (devfee_is_dev_pool d (pos i)) in
    let listed = ltb i num_pools in
    record {
      accepted_count =
          update s.accepted_count i (bump_if (listed && accepted) (s.accepted_count i));
      rejected_count =
          update s.rejected_count i (bump_if (listed && not accepted) (s.rejected_count i));
      share_accepted_total = bump_if (shown && accepted) s.share_accepted_total;
      share_rejected_total = bump_if (shown && not accepted) s.share_rejected_total;
    }
