-- ===== src/Nonce.antt =====
-- src/miner.cpp: which nonces a miner thread scans. A thread's turn is the part of miner_thread between
-- two copies of the published work; the clock, the hash rate and its chunk size are given.
pub mod Range
pub mod Turn
pub mod Fresh
pub mod Scans
mod Tests
use primo_arm_miner.Prelude.{
  ℕ, ◌+◌, ◌-◌, ◌*◌, ◌/◌, ◌%◌, Bool, true, false, not, ◌&&◌, ◌||◌, Option, none, some, List, [], ◌∷◌,
  ltb, leb, ◌==◌, if◌then◌else◌, Bytes, bytes_eq, take,
}
use primo_arm_miner.DevFee.Targets.{Algo, verus, sha256d, scrypt, randomx}

-- What PRIMO_NONCE_SPAN_TEST does to the end of a range; the sum wraps round at 2^64.
abbrev pub span_end : Option ℕ → ℕ → ℕ → ℕ
span_end none range_start range_end = range_end
span_end (some span) range_start range_end =
    let cut = (range_start + span) % 18446744073709551616 in
    if ltb 0 span && ltb cut range_end then cut else range_end

-- `opt_n_threads` threads share the space; the result is the start and the end of a thread's part.
unfoldable pub miner_get_thread_nonce_range :
    (opt_n_threads : ℕ) → Option ℕ → (thread_id nonce_space : ℕ) → ℕ × ℕ
miner_get_thread_nonce_range opt_n_threads span thread_id nonce_space =
    let range_start = thread_id * nonce_space / opt_n_threads in
    let range_end = (thread_id + 1) * nonce_space / opt_n_threads in
    (range_start, span_end span range_start range_end)

-- What the loop reads of a struct work: the header words, the job, the solution of a Verus job, and the
-- bits of the nonce that a RandomX miner owns (0 for all).
pub record Work : Type 0 where
  pub data_words : List ℕ
  pub job_id : Bytes
  pub has_solution : Bool
  pub rx_nonce_mask : ℕ

-- The variables of miner_thread that outlive a turn.
pub record Scanner : Type 0 where
  pub nonce_space : ℕ
  pub thread_nonce_start : ℕ
  pub thread_nonce_end : ℕ
  pub next_nonce_index : ℕ
  pub verus_nonce_epoch : ℕ
  pub first_work : Bool
  pub have_previous_verus_header : Bool
  pub previous_verus_header : List ℕ
  pub previous_job_id : Bytes
  pub last_scanned_header : List ℕ

-- What the thread is: its algorithm, its number, and how many there are.
pub record Thread : Type 0 where
  pub opt_algo : Algo
  pub opt_n_threads : ℕ
  pub nonce_span_test : Option ℕ
  pub thread_id : ℕ

abbrev pub is_verus : Algo → Bool
is_verus verus = true
is_verus sha256d = false
is_verus scrypt = false
is_verus randomx = false

abbrev pub is_randomx : Algo → Bool
is_randomx verus = false
is_randomx sha256d = false
is_randomx scrypt = false
is_randomx randomx = true

unfoldable pub work_is_new_job : Thread → Work → Scanner → Bool
work_is_new_job t w s =
    if is_verus t.opt_algo
    then s.first_work
      || not s.have_previous_verus_header
      || not (bytes_eq (take 9 w.data_words) (take 9 s.previous_verus_header))
    else s.first_work || not (bytes_eq w.job_id s.previous_job_id)

unfoldable pub verus_nonce_epoch_can_roll : Thread → Work → ℕ → Bool
verus_nonce_epoch_can_roll t w current_epoch =
    is_verus t.opt_algo && not (current_epoch == 4294967295) && w.has_solution

-- The space that a RandomX miner owns for a work.
abbrev pub space_of : Work → ℕ
space_of w = if w.rx_nonce_mask == 0 then 4294967296 else w.rx_nonce_mask + 1

-- A change of the space that a RandomX miner owns.
unfoldable pub take_space : Thread → Work → Scanner → Scanner
take_space t w s =
    let space = space_of w in
    let (range_start, range_end) =
      miner_get_thread_nonce_range t.opt_n_threads t.nonce_span_test t.thread_id space in
    if is_randomx t.opt_algo && not (space == s.nonce_space)
    then record s {
      nonce_space = space;
      thread_nonce_start = range_start;
      thread_nonce_end = range_end;
      next_nonce_index = range_start;
    }
    else s

-- A new job: the range is scanned from its start.
unfoldable pub take_job : Thread → Work → Scanner → Scanner
take_job t w s = record s {
  next_nonce_index = s.thread_nonce_start;
  verus_nonce_epoch = 0;
  previous_verus_header =
      if is_verus t.opt_algo then take 9 w.data_words else s.previous_verus_header;
  have_previous_verus_header = is_verus t.opt_algo || s.have_previous_verus_header;
  previous_job_id = take 127 w.job_id;
  first_work = false;
}

abbrev pub preimage_words : Algo → ℕ
preimage_words verus = 30
preimage_words sha256d = 19
preimage_words scrypt = 19
preimage_words randomx = 0

-- After an exhausted range, a header that differs from the one scanned last is fresh space.
unfoldable pub take_preimage : Thread → Work → (new_job : Bool) → Scanner → Scanner
take_preimage t w new_job s =
    let words = preimage_words t.opt_algo in
    let changed = not (bytes_eq (take words w.data_words) (take words s.last_scanned_header)) in
    let next =
      if not new_job && not (words == 0) && leb s.thread_nonce_end s.next_nonce_index && changed
      then s.thread_nonce_start
      else s.next_nonce_index in
    record s {
      next_nonce_index = next;
      last_scanned_header = if words == 0 then s.last_scanned_header else take words w.data_words;
    }

-- The exhausted range: the next epoch, or none if the thread has to wait for other work.
unfoldable pub take_epoch : Thread → Work → Scanner → Option Scanner
take_epoch t w s =
    if not (leb s.thread_nonce_end s.next_nonce_index)
    then some s
    else if verus_nonce_epoch_can_roll t w s.verus_nonce_epoch
    then some (record s {
      verus_nonce_epoch = s.verus_nonce_epoch + 1;
      next_nonce_index = s.thread_nonce_start;
    })
    else none

-- The scanner from the copy of the work to the test for an exhausted range.
unfoldable pub prepare : Thread → Work → Scanner → Scanner
prepare t w s0 =
    let s = take_space t w s0 in
    let new_job = work_is_new_job t w s in
    take_preimage t w new_job (if new_job then take_job t w s else s)

-- How many nonces the backend is asked to scan.
unfoldable pub scan_count : (chunk_size : ℕ) → Scanner → ℕ
scan_count chunk_size s =
    let remaining = s.thread_nonce_end - s.next_nonce_index in
    if ltb remaining chunk_size then remaining else chunk_size

-- A scan of `hashes_done` nonces from the position; a backend that reports more than it was asked for
-- ends the thread.
unfoldable pub advance : (chunk_size hashes_done : ℕ) → Scanner → Option Scanner
advance chunk_size hashes_done s =
    if ltb (scan_count chunk_size s) hashes_done
    then none
    else some (record s { next_nonce_index = s.next_nonce_index + hashes_done })

-- What a turn scanned: so many nonces from a position, in an epoch.
pub record Scan : Type 0 where
  pub epoch : ℕ
  pub from : ℕ
  pub count : ℕ

-- The end of a turn, after the backend.
report : (hashes_done : ℕ) → Scanner → Option Scanner → Scanner × Option Scan
report hashes_done s none = (s, none)
report hashes_done s (some s') = (
  s',
  some (record { epoch = s.verus_nonce_epoch; from = s.next_nonce_index; count = hashes_done }),
)

-- The turn from the test for an exhausted range on: a thread that has to wait scans nothing.
scan_or_wait : (chunk_size hashes_done : ℕ) → Scanner → Option Scanner → Scanner × Option Scan
unfolding report
scan_or_wait chunk_size hashes_done waiting none = (waiting, none)
scan_or_wait chunk_size hashes_done waiting (some s) =
    report hashes_done s (advance chunk_size hashes_done s)

-- A turn of miner_thread with the work that it copied.
unfoldable pub scan_turn :
    Thread → Work → (chunk_size hashes_done : ℕ) → Scanner → Scanner × Option Scan
unfolding scan_or_wait
scan_turn t w chunk_size hashes_done s =
    let s' = prepare t w s in scan_or_wait chunk_size hashes_done s' (take_epoch t w s')
