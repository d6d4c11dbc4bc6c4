-- ===== src/Nonce/Tests.antt =====
-- Runs of the nonce scanner, and instances of its theorems: two threads on a Verus job.
use primo_arm_miner.Prelude.{ℕ, ◌≤◌, ◌<◌, ◌≡◌, refl, true, false, none, some, [], ◌∷◌, arith, codes}
use primo_arm_miner.DevFee.Targets.{verus}
use primo_arm_miner.Nonce.{
  Work, Scanner, Thread, miner_get_thread_nonce_range, scan_turn, prepare, take_space, take_job,
  take_preimage, take_epoch, work_is_new_job, verus_nonce_epoch_can_roll, advance, scan_count,
}
use primo_arm_miner.Nonce.Range.{thread_ranges_apart, thread_ranges_cover}
use primo_arm_miner.Nonce.Turn.{Placed, Inside, scan_turn-Placed}
use primo_arm_miner.Nonce.Scans.{Apart, scans_of, scans-Apart}

-- A space of 8 nonces, of which thread 1 of 2 owns 4 to 7.
abbrev thread : Thread
thread = record { opt_algo = verus; opt_n_threads = 2; nonce_span_test = none; thread_id = 1 }

abbrev work : Work
work = record {
  data_words = 1 ∷ 2 ∷ [];
  job_id = codes "job";
  has_solution = true;
  rx_nonce_mask = 0;
}

abbrev fresh : Scanner
fresh = record {
  nonce_space = 8;
  thread_nonce_start = 4;
  thread_nonce_end = 8;
  next_nonce_index = 4;
  verus_nonce_epoch = 0;
  first_work = true;
  have_previous_verus_header = false;
  previous_verus_header = [];
  previous_job_id = [];
  last_scanned_header = [];
}

-- Two turns use the range up, and the third one rolls the epoch.
rolls :
    scans_of thread work ((3, 3) ∷ (3, 1) ∷ (3, 2) ∷ []) fresh
    ≡ record { epoch = 0; from = 4; count = 3 }
      ∷ record { epoch = 0; from = 7; count = 1 }
      ∷ record { epoch = 1; from = 4; count = 2 }
      ∷ []
unfolding scans_of scan_turn prepare take_space take_job take_preimage take_epoch work_is_new_job
    verus_nonce_epoch_can_roll advance scan_count miner_get_thread_nonce_range
rolls = refl

fresh-Placed : Placed thread fresh
unfolding miner_get_thread_nonce_range
fresh-Placed = record { share = refl; low = omega arith; high = omega arith }

scan_turn-Placed_example :
    let (s', scan) = scan_turn thread work 3 2 fresh in Placed thread s' × Inside thread s' scan
scan_turn-Placed_example = scan_turn-Placed thread work 3 2 fresh (omega arith) tt fresh-Placed

scans-Apart_example : Apart (scans_of thread work ((3, 3) ∷ (3, 1) ∷ (3, 2) ∷ []) fresh)
scans-Apart_example = scans-Apart thread work ((3, 3) ∷ (3, 1) ∷ (3, 2) ∷ []) fresh (omega arith)

thread_ranges_apart_example :
    let (start, end) = miner_get_thread_nonce_range 3 (some 100) 0 4294967296 in
    let (start', end') = miner_get_thread_nonce_range 3 (some 100) 2 4294967296 in
    (start ≤ end) × (end ≤ start') × (start' ≤ end') × (end' ≤ 4294967296)
thread_ranges_apart_example =
    thread_ranges_apart 3 4294967296 0 2 (some 100) (omega arith) (omega arith) (omega arith)

thread_ranges_cover_example :
    (i : ℕ) × ((i < 3)
      × (let (start, end) = miner_get_thread_nonce_range 3 none i 4294967296 in
          (start ≤ 5) × (5 < end)))
thread_ranges_cover_example = thread_ranges_cover 3 4294967296 5 (omega arith) (omega arith)
