-- ===== src/Reply.antt =====
-- The replies to submitted shares: stratum_handle_submit_response of src/stratum_rpc.cpp, with
-- miner_record_thread_share_result of src/miner.cpp. The JSON value of `result` is given by what the code
-- asks of it.
pub mod Accounting
mod Tests
use primo_arm_miner.Prelude.{
  ℕ, ◌+◌, ◌-◌, ◌%◌, Bool, true, false, not, ◌&&◌, Option, none, some, List, [], ◌∷◌, ltb, leb, ◌==◌,
  if◌then◌else◌, Bytes, bytes_eq, codes, map, update,
}
use primo_arm_miner.Prelude.Int.{ℤ, pos, negsuc}
use primo_arm_miner.DevFee.{DevfeeState, devfee_is_dev_pool}
use primo_arm_miner.Submit.{SubmitState, submit_id_take_metadata}
use primo_arm_miner.Publish.{ShareStats, bump, bump_if, stratum_update_share_stats}

-- true; an object, with its "status" if that is a string; or anything else, a missing result too.
pub data ResultView : Type 0 where
  json_true : ResultView
  json_object : Option Bytes → ResultView
  json_other : ResultView

-- strcasecmp(a, b) == 0, in ASCII.
abbrev pub to_lower : ℕ → ℕ
to_lower c = if leb b'A' c && leb c b'Z' then c + 32 else c

abbrev pub strcasecmp_eq : Bytes → Bytes → Bool
strcasecmp_eq a b = bytes_eq (map to_lower a) (map to_lower b)

unfoldable pub result_ok : ResultView → Bool
result_ok json_true = true
result_ok (json_object none) = false
result_ok (json_object (some status)) = strcasecmp_eq status (codes "OK")
result_ok json_other = false

-- A session's pending shares, the share totals, and the counters of each thread.
pub record Books (D : Type 0) : Type 0 where
  pub submits : SubmitState D
  pub stats : ShareStats
  pub thread_accepted : ℕ → ℕ
  pub thread_rejected : ℕ → ℕ

module _ {D : Type 0} where
  unfoldable pub miner_record_thread_share_result :
      (opt_n_threads : ℕ) → ℤ → Bool → Books D → Books D
  miner_record_thread_share_result opt_n_threads (negsuc n) accepted s = s
  miner_record_thread_share_result opt_n_threads (pos thread) accepted s =
      let known = ltb thread opt_n_threads in
      record s {
        thread_accepted =
            update s.thread_accepted thread
              (bump_if (known && accepted) (s.thread_accepted thread));
        thread_rejected =
            update s.thread_rejected thread
              (bump_if (known && not accepted) (s.thread_rejected thread));
      }

  -- What a matched reply is booked as: a share of the dev pool is kept from the thread's counters.
  unfoldable pub book :
      DevfeeState → (num_pools opt_n_threads pooln : ℕ) → (accepted : Bool) → ℤ → Books D → Books D
  book d num_pools opt_n_threads pooln accepted thread s =
      let booked = record s {
        stats = stratum_update_share_stats d num_pools (pos pooln) accepted s.stats;
      } in
      if devfee_is_dev_pool d (pos pooln)
      then booked
      else miner_record_thread_share_result opt_n_threads thread accepted booked

  -- An uncorrelated reply is dropped.
  book_found :
      DevfeeState → (num_pools opt_n_threads pooln : ℕ) → Bool → Option (D × ℤ) → Books D → Books D
  unfolding book
  book_found d num_pools opt_n_threads pooln accepted none s = s
  book_found d num_pools opt_n_threads pooln accepted (some (sharediff, thread)) s =
      book d num_pools opt_n_threads pooln accepted thread s

  -- The reply with an id, on the session of a pool.
  unfoldable pub stratum_handle_submit_response :
      DevfeeState → (num_pools opt_n_threads pooln id : ℕ) → ResultView → Books D → Books D
  unfolding book_found
  stratum_handle_submit_response d num_pools opt_n_threads pooln id result s =
      let (submits, found) = submit_id_take_metadata id s.submits in
      book_found d num_pools opt_n_threads pooln (result_ok result) found
        (record s { submits = submits })
