-- ===== src/Nonce/Scans.antt =====
-- No nonce is scanned twice for one work, in src/miner.cpp: the scans of a thread, in order.
use primo_arm_miner.Prelude.{
  ℕ, ◌+◌, ◌≤◌, ◌<◌, ◌≡◌, refl, sym, ◌⊎◌, inl, inr, Option, none, some, List, [], ◌∷◌, arith, length,
  All,
}
use mathlib.Core.Path.{subst₂}
use primo_arm_miner.Nonce.{
  Work, Scanner, Thread, Scan, prepare, advance, report, scan_or_wait, scan_turn,
}
use primo_arm_miner.Nonce.Turn.{epoch_cases, advance_cases}
use primo_arm_miner.Nonce.Fresh.{Settled, moved, moved-Settled, prepare-Settled, prepare_position}

-- The scans of a row of turns with one work, each turn with its chunk size and what the backend reports.
add_scan : Option Scan → List Scan → List Scan
add_scan none scans = scans
add_scan (some scan) scans = scan ∷ scans

unfoldable pub scans_of : Thread → Work → List (ℕ × ℕ) → Scanner → List Scan
unfolding add_scan
scans_of t w [] s = []
scans_of t w ((chunk_size, hashes_done) ∷ turns) s =
    let (s', scan) = scan_turn t w chunk_size hashes_done s in
    let rest = scans_of t w turns s' in add_scan scan rest

-- A scan that begins in a later epoch, or in the same one at or after a position.
abbrev pub After : ℕ → ℕ → Scan → Type 0
After epoch next scan = (epoch < scan.epoch) ⊎ ((epoch ≡ scan.epoch) × (next ≤ scan.from))

-- Two scans of one list have no nonce in common: the epochs differ, or the later one begins where the
-- earlier one ends, or after it.
pub Apart : List Scan → Type 0
Apart [] = Unit
Apart (scan ∷ scans) = All (After scan.epoch (scan.from + scan.count)) scans × Apart scans

-- A turn of a settled thread.
abbrev pub Reached : ℕ → ℕ → Scanner → Option Scan → Type 0
Reached epoch next s' none =
    (epoch < s'.verus_nonce_epoch) ⊎ ((epoch ≡ s'.verus_nonce_epoch) × (next ≤ s'.next_nonce_index))
Reached epoch next s' (some scan) =
    After epoch next scan
    × (s'.verus_nonce_epoch ≡ scan.epoch)
    × (s'.next_nonce_index ≡ scan.from + scan.count)

report_lem :
    (t : Thread) (w : Work) (chunk_size hashes_done epoch next : ℕ) (s : Scanner)
    → Settled t w s
    → (epoch < s.verus_nonce_epoch) ⊎ ((epoch ≡ s.verus_nonce_epoch) × (next ≤ s.next_nonce_index))
    → let (s', scan) = report hashes_done s (advance chunk_size hashes_done s) in
      Settled t w s' × Reached epoch next s' scan
unfolding report moved
report_lem t w chunk_size hashes_done epoch next s v at =
    elim (advance_cases chunk_size hashes_done s) [
      | inl stop ↦ rw stop (v, at)
      | inr (go, most) ↦ rw go (
        moved-Settled t w s.verus_nonce_epoch (s.next_nonce_index + hashes_done) s v,
        (at, refl, refl),
      )
    ]

turn_lem :
    (t : Thread) (w : Work) (chunk_size hashes_done : ℕ) (s0 : Scanner)
    → length w.job_id ≤ 127
    → let (s', scan) = scan_turn t w chunk_size hashes_done s0 in
      let s = prepare t w s0 in
      Settled t w s' × Reached s.verus_nonce_epoch s.next_nonce_index s' scan
unfolding scan_turn scan_or_wait moved
turn_lem t w chunk_size hashes_done s0 fits =
    let s = prepare t w s0 in
    let v = prepare-Settled t w s0 fits in
    let epoch = s.verus_nonce_epoch in
    let next = s.next_nonce_index in
    elim (epoch_cases t w s) [
      | inl stop ↦ rw stop (v, inr (refl, omega arith))
      | inr (inl (same, _)) ↦
          rw same (report_lem t w chunk_size hashes_done epoch next s v (inr (refl, omega arith)))
      | inr (inr (later, _)) ↦ rw later (
          report_lem t w chunk_size hashes_done epoch next
            (moved (epoch + 1) s.thread_nonce_start s)
            (moved-Settled t w (epoch + 1) s.thread_nonce_start s v) (inl (omega arith)))
    ]

After-trans :
    (epoch next : ℕ) (s : Scanner) (scans : List Scan)
    → (epoch < s.verus_nonce_epoch) ⊎ ((epoch ≡ s.verus_nonce_epoch) × (next ≤ s.next_nonce_index))
    → All (After s.verus_nonce_epoch s.next_nonce_index) scans
    → All (After epoch next) scans
After-trans epoch next s [] h all = tt
After-trans epoch next s (scan ∷ scans) h (here, all) =
    (ground arith, After-trans epoch next s scans h all)

add-Apart :
    (epoch next : ℕ) (s : Scanner) (scan : Option Scan) (rest : List Scan)
    → Reached epoch next s scan
    → All (After s.verus_nonce_epoch s.next_nonce_index) rest
    → Apart rest
    → All (After epoch next) (add_scan scan rest) × Apart (add_scan scan rest)
unfolding add_scan Apart
add-Apart epoch next s none rest h all apart = (After-trans epoch next s rest h all, apart)
add-Apart epoch next s (some scan) rest (first, e, at) all apart =
    let later =
      After-trans scan.epoch (scan.from + scan.count) s rest (inr (sym e, omega (arith, at))) all in
    let reached = reaches epoch next s scan first e at in
    ((first, After-trans epoch next s rest reached all), (later, apart))
  where
    reaches :
        (epoch next : ℕ) (s : Scanner) (scan : Scan)
        → After epoch next scan
        → s.verus_nonce_epoch ≡ scan.epoch
        → s.next_nonce_index ≡ scan.from + scan.count
        → (epoch < s.verus_nonce_epoch)
          ⊎ ((epoch ≡ s.verus_nonce_epoch) × (next ≤ s.next_nonce_index))
    reaches epoch next s scan first e at = ground arith

Settled-Apart :
    (t : Thread) (w : Work) (turns : List (ℕ × ℕ)) (s : Scanner)
    → length w.job_id ≤ 127
    → Settled t w s
    → All (After s.verus_nonce_epoch s.next_nonce_index) (scans_of t w turns s)
      × Apart (scans_of t w turns s)
unfolding scans_of Apart
Settled-Apart t w [] s fits v = (tt, tt)
Settled-Apart t w ((chunk_size, hashes_done) ∷ turns) s fits v =
    let (s', scan) = scan_turn t w chunk_size hashes_done s in
    let (v', reached) = turn_lem t w chunk_size hashes_done s fits in
    let (same_next, same_epoch) = prepare_position t w s v in
    let (all, apart) = Settled-Apart t w turns s' fits v' in
    let (here, apart') = add-Apart _ _ s' scan (scans_of t w turns s') reached all apart in
    (
      subst₂
          (λ epoch next.
            All (After epoch next) (scans_of t w ((chunk_size, hashes_done) ∷ turns) s))
          same_epoch same_next here,
      apart',
    )

-- However many turns a thread works on one work, whose job id fits its buffer, and whatever the chunk
-- sizes and the backend's reports: no two of its scans have a nonce of the same epoch in common.
pub scans-Apart :
    (t : Thread) (w : Work) (turns : List (ℕ × ℕ)) (s : Scanner)
    → length w.job_id ≤ 127
    → Apart (scans_of t w turns s)
unfolding scans_of Apart
scans-Apart t w [] s fits = tt
scans-Apart t w ((chunk_size, hashes_done) ∷ turns) s fits =
    let (s', scan) = scan_turn t w chunk_size hashes_done s in
    let (v', reached) = turn_lem t w chunk_size hashes_done s fits in
    let (all, apart) = Settled-Apart t w turns s' fits v' in
    (add-Apart _ _ s' scan (scans_of t w turns s') reached all apart).1
