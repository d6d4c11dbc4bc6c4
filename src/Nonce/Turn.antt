-- ===== src/Nonce/Turn.antt =====
-- The position of a miner thread within its range, in src/miner.cpp.
use primo_arm_miner.Prelude.{
  ℕ, ◌+◌, ◌-◌, ◌≤◌, ◌<◌, ◌≡◌, ◌⊎◌, inl, inr, Bool, Option, none, some, arith, if-choice,
}
use primo_arm_miner.Nonce.{
  Work, space_of, Scanner, Thread, Scan, miner_get_thread_nonce_range, take_space, take_job,
  take_preimage, take_epoch, prepare, scan_count, advance, report, scan_or_wait, scan_turn,
  work_is_new_job,
}
use primo_arm_miner.Nonce.Range.{SpanFits, range_ordered}

-- The range is the thread's share of the space, and the position is in it or at its end.
pub record Placed (t : Thread) (s : Scanner) : Type 0 where
  pub share :
      miner_get_thread_nonce_range t.opt_n_threads t.nonce_span_test t.thread_id s.nonce_space
      ≡ (s.thread_nonce_start, s.thread_nonce_end)
  pub low : s.thread_nonce_start ≤ s.next_nonce_index
  pub high : s.next_nonce_index ≤ s.thread_nonce_end

abbrev pub Ordered : Scanner → Type 0
Ordered s = s.thread_nonce_start ≤ s.thread_nonce_end

take_space-Placed :
    (t : Thread) (w : Work) (s : Scanner)
    → t.thread_id < t.opt_n_threads
    → SpanFits t.nonce_span_test (space_of w)
    → Placed t s
    → Placed t (take_space t w s)
unfolding take_space
take_space-Placed t w s n fits v = ground (
  arith,
  v.share,
  v.low,
  v.high,
  range_ordered t.opt_n_threads (space_of w) t.thread_id t.nonce_span_test n fits,
)

take_job-Placed : (t : Thread) (w : Work) (s : Scanner) → Placed t s → Placed t (take_job t w s)
unfolding take_job
take_job-Placed t w s v = ground (arith, v.share, v.low, v.high)

take_preimage-Placed :
    (t : Thread) (w : Work) (b : Bool) (s : Scanner) → Placed t s → Placed t (take_preimage t w b s)
unfolding take_preimage
take_preimage-Placed t w b s v = ground (arith, v.share, v.low, v.high)

pub prepare-Placed :
    (t : Thread) (w : Work) (s : Scanner)
    → t.thread_id < t.opt_n_threads
    → SpanFits t.nonce_span_test (space_of w)
    → Placed t s
    → Placed t (prepare t w s)
unfolding prepare
prepare-Placed t w s n fits v =
    let s' = take_space t w s in
    let v' = take_space-Placed t w s n fits v in
    take_preimage-Placed t w (work_is_new_job t w s') _ (
      if-choice (λ (x : Scanner). Placed t x) (work_is_new_job t w s') {x = take_job t w s'}
        {y = s'} (take_job-Placed t w s' v') v')

-- What a turn reports is inside the thread's range.
abbrev pub Inside : Thread → Scanner → Option Scan → Type 0
Inside t s none = Unit
Inside t s (some scan) =
    (s.thread_nonce_start ≤ scan.from) × (scan.from + scan.count ≤ s.thread_nonce_end)

-- The next epoch, or the position as it is.
pub epoch_cases :
    (t : Thread) (w : Work) (s : Scanner)
    → (take_epoch t w s ≡ none)
      ⊎ (((take_epoch t w s ≡ some s) × (s.next_nonce_index < s.thread_nonce_end))
          ⊎ ((take_epoch t w s
                ≡ some (record s {
                  verus_nonce_epoch = s.verus_nonce_epoch + 1;
                  next_nonce_index = s.thread_nonce_start;
                }))
              × (s.thread_nonce_end ≤ s.next_nonce_index)))
unfolding take_epoch
epoch_cases t w s = ground arith

pub advance_cases :
    (chunk_size hashes_done : ℕ) (s : Scanner)
    → (advance chunk_size hashes_done s ≡ none)
      ⊎ ((advance chunk_size hashes_done s
            ≡ some (record s { next_nonce_index = s.next_nonce_index + hashes_done }))
          × (hashes_done ≤ s.thread_nonce_end - s.next_nonce_index))
unfolding advance scan_count
advance_cases chunk_size hashes_done s = ground arith

scan-Placed :
    (t : Thread) (chunk_size hashes_done : ℕ) (s : Scanner)
    → Placed t s
    → let (s', scan) = report hashes_done s (advance chunk_size hashes_done s) in
      Placed t s' × Inside t s' scan
unfolding report
scan-Placed t chunk_size hashes_done s v = elim (advance_cases chunk_size hashes_done s) [
  | inl stop ↦ rw stop (v, tt)
  | inr (go, most) ↦ rw go (
    record { share = v.share; low = omega (arith, v.low); high = omega (arith, v.high, most) },
    (v.low, omega (arith, v.high, most)),
  )
]

-- Whatever work comes in and whatever the backend reports, a thread of the miner that is in its own share
-- of the nonce space stays there: its position is in the share or at its end, and a scan covers nonces of
-- the share only. If the test hook is set, its span can be added to a nonce without a wrap round 2^64.
pub scan_turn-Placed :
    (t : Thread) (w : Work) (chunk_size hashes_done : ℕ) (s : Scanner)
    → t.thread_id < t.opt_n_threads
    → SpanFits t.nonce_span_test (space_of w)
    → Placed t s
    → let (s', scan) = scan_turn t w chunk_size hashes_done s in Placed t s' × Inside t s' scan
unfolding scan_turn scan_or_wait
scan_turn-Placed t w chunk_size hashes_done s0 n fits v0 =
    let s = prepare t w s0 in
    let v = prepare-Placed t w s0 n fits v0 in
    elim (epoch_cases t w s) [
      | inl stop ↦ rw stop (v, tt)
      | inr (inl (same, _)) ↦ rw same (scan-Placed t chunk_size hashes_done s v)
      | inr (inr (next, _)) ↦ rw next (
          scan-Placed t chunk_size hashes_done _
            (record { share = v.share; low = omega arith; high = omega (arith, v.low, v.high) }))
    ]
