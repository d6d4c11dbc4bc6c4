-- ===== src/Coinbase/Height.antt =====
-- get_block_height of src/stratum_standard.cpp: its reads, and what it finds.
use primo_arm_miner.Prelude.{
  ℕ, zero, suc, ◌+◌, ◌-◌, ◌*◌, ◌≤◌, ◌<◌, ◌≡◌, refl, inl, inr, Bool, true, false, not, some, [], ◌∷◌,
  ◌++◌, arith, ltb, leb, ◌==◌, if◌then◌else◌, Bytes, length, get_elem?, get_elem?-lt, Bool-cases,
  if-choice, if-cases, Option, ◌||◌, ap, ◌∙◌, All, length-append, get_elem?-append, All-map,
}
use mathlib.Core.List.{append_assoc}
use primo_arm_miner.Coinbase.{
  skip_while, add_high_bytes, height_at, two_ff_before, after_run, get_block_height, is_ff, le16dec,
  at_most_128,
}

-- A scan inside the coinbase stops between where it began and scan_end.
skip_while_lem :
    (test : ℕ → Bool) (left i : ℕ) (p : Bytes)
    → i + left ≤ length p
    → (k : ℕ) × (skip_while test left i p ≡ some k) × (i ≤ k) × (k ≤ i + left)
unfolding skip_while
skip_while_lem test zero i p h = (i, refl, omega arith, omega arith)
skip_while_lem test (suc left) i p h =
    let (b, e) = get_elem?-lt p i (omega arith) in
    let (k, f, low, high) = skip_while_lem test left (i + 1) p (omega arith) in
    elim (Bool-cases (test b)) [
      | inl goes ↦ (k, rw (e, goes, f) refl, omega arith, omega arith)
      | inr stops ↦ (i, rw (e, stops) refl, omega arith, omega arith)
    ]

abbrev Reads : Option ℕ → Type 0
Reads o = (v : ℕ) × (o ≡ some v)

le16dec-Reads : (p : Bytes) (i : ℕ) → i + 1 < length p → Reads (le16dec p i)
le16dec-Reads p i h =
    let (low, e) = get_elem?-lt p i (omega arith) in
    let (high, f) = get_elem?-lt p (i + 1) h in (low + high * 256, rw (e, f) refl)

add_high_bytes-Reads :
    (p : Bytes) (scan_end q hlen height : ℕ)
    → scan_end ≤ length p
    → Reads (add_high_bytes p scan_end q hlen height)
unfolding add_high_bytes
add_high_bytes-Reads p scan_end q hlen height h =
    if-choice Reads (hlen == 4)
      (if-cases Reads (ltb (scan_end - q) 2) (λ _. (0, refl))
        (λ room.
          let (high, e) = le16dec-Reads p q (ground arith) in (height + 65536 * high, rw e refl)))
      (if-choice Reads (hlen == 3)
        (if-cases Reads (leb scan_end q) (λ _. (0, refl))
          (λ room.
            let (high, e) = get_elem?-lt p q (ground arith) in (height + 65536 * high, rw e refl)))
        (height, refl))

height_at-Reads :
    (p : Bytes) (scan_end i : ℕ) → scan_end ≤ length p → Reads (height_at p scan_end i)
unfolding height_at
height_at-Reads p scan_end i h =
    if-cases Reads (ltb (scan_end - i) 4) (λ _. (0, refl))
      (λ room.
        let (hlen, e) = get_elem?-lt p (i + 1) (ground arith) in
        let (height, f) = le16dec-Reads p (i + 2) (ground arith) in
        let (v, g) = add_high_bytes-Reads p scan_end (i + 4) hlen height h in
        (v, rw (e, f, g) refl))

two_ff_before_lem :
    (p : Bytes) (i : ℕ) → i ≤ length p → 2 ≤ i → (b : Bool) × (two_ff_before p i ≡ some b)
unfolding two_ff_before
two_ff_before_lem p i h two =
    let (last, e) = get_elem?-lt p (i - 1) (omega arith) in
    let (before, f) = get_elem?-lt p (i - 2) (omega arith) in
    elim (Bool-cases (is_ff last)) [
      | inl ff ↦ (is_ff before, rw (e, ff, f) refl)
      | inr other ↦ (false, rw (e, other) refl)
    ]

after_run-Reads :
    (p : Bytes) (scan_end i : ℕ) → scan_end ≤ length p → Reads (after_run p scan_end i)
unfolding after_run
after_run-Reads p scan_end i h =
    if-cases Reads (ltb i 34 || leb scan_end i) (λ _. (0, refl))
      (λ inside.
        let (found, e) = two_ff_before_lem p i (ground arith) (ground arith) in
        let (v, f) : Reads (if found then height_at p scan_end i else some 0) =
          if-choice Reads found (height_at-Reads p scan_end i h) (0, refl) in
        (v, rw (e, f) refl))

-- Whatever the coinbase is, the height is found, or taken to be 0, without a read outside it.
pub get_block_height-Reads :
    (coinbase : Bytes) → (height : ℕ) × (get_block_height coinbase ≡ some height)
unfolding get_block_height
get_block_height-Reads coinbase =
    if-cases Reads (leb (length coinbase) 32) (λ _. (0, refl))
      (λ long.
        let scan_end : ℕ = 32 + at_most_128 (length coinbase - 32) in
        let fits : scan_end ≤ length coinbase = ground arith in
        let (first, e, low, high) =
          skip_while_lem (λ b. not (is_ff b)) (scan_end - 32) 32 coinbase (ground arith) in
        let (i, f, low', high') =
          skip_while_lem is_ff (scan_end - first) first coinbase (ground arith) in
        let (height, g) = after_run-Reads coinbase scan_end i fits in (height, rw (e, f, g) refl))

-- A scan runs over the bytes that pass, to the first that does not.
skip_run :
    (test : ℕ → Bool) (left : ℕ) (pre run : Bytes) (stop : ℕ) (rest : Bytes)
    → All (λ b. test b ≡ true) run
    → test stop ≡ false
    → length run < left
    → skip_while test left (length pre) (pre ++ (run ++ stop ∷ rest))
      ≡ some (length pre + length run)
unfolding skip_while
skip_run test zero pre run stop rest goes stops h = absurd (omega arith)
skip_run test (suc left) pre [] stop rest goes stops h =
    let here : get_elem? (pre ++ stop ∷ rest) (length pre) ≡ some stop =
      let e : length pre ≡ length pre + 0 = omega arith in
      ap (get_elem? (pre ++ stop ∷ rest)) e ∙ get_elem?-append pre (stop ∷ rest) 0 in
    let e : length pre ≡ length pre + 0 = omega arith in rw (here, stops) (ap some e)
skip_run test (suc left) pre (b ∷ run) stop rest (goes, more) stops h =
    let here : get_elem? (pre ++ b ∷ (run ++ stop ∷ rest)) (length pre) ≡ some b =
      let e : length pre ≡ length pre + 0 = omega arith in
      ap (get_elem? (pre ++ b ∷ (run ++ stop ∷ rest))) e
      ∙ get_elem?-append pre (b ∷ (run ++ stop ∷ rest)) 0 in
    let moved : length (pre ++ b ∷ []) ≡ length pre + 1 =
      omega (arith, length-append pre (b ∷ [])) in
    let later = skip_run test left (pre ++ b ∷ []) run stop rest more stops (omega arith) in
    let same : (pre ++ b ∷ []) ++ (run ++ stop ∷ rest) ≡ pre ++ b ∷ (run ++ stop ∷ rest) =
      append_assoc pre (b ∷ []) (run ++ stop ∷ rest) in
    let later' : skip_while test left (length pre + 1) (pre ++ b ∷ (run ++ stop ∷ rest))
        ≡ some (length pre + 1 + length run) =
      rw (moved, same) at later in
    rw (here, goes, later') (ap some (omega arith))

-- A byte inside a run.
in_run :
    (run rest : Bytes) (i : ℕ)
    → All (λ b. is_ff b ≡ true) run
    → i < length run
    → (b : ℕ) × (get_elem? (run ++ rest) i ≡ some b) × (is_ff b ≡ true)
in_run [] rest i h lt = absurd (omega arith)
in_run (b ∷ run) rest zero (h, hs) lt = (b, refl, h)
in_run (b ∷ run) rest (suc i) (h, hs) lt = in_run run rest i hs (omega arith)

-- The two bytes before the place where a run of at least two ends.
two_ff_before-run :
    (pre run rest : Bytes)
    → All (λ b. is_ff b ≡ true) run
    → 2 ≤ length run
    → two_ff_before (pre ++ (run ++ rest)) (length pre + length run) ≡ some true
unfolding two_ff_before
two_ff_before-run pre run rest ffs two =
    let (last, e, p) = in_run run rest (length run - 1) ffs (omega arith) in
    let (before, f, q) = in_run run rest (length run - 2) ffs (omega arith) in
    let i1 : length pre + length run - 1 ≡ length pre + (length run - 1) = omega arith in
    let i2 : length pre + length run - 2 ≡ length pre + (length run - 2) = omega arith in
    let e' = get_elem?-append pre (run ++ rest) (length run - 1) ∙ e in
    let f' = get_elem?-append pre (run ++ rest) (length run - 2) ∙ f in
    rw (i1, e', p, i2, f', q) refl

height_at_lem :
    (pre : Bytes) (c h0 h1 h2 : ℕ) (rest : Bytes) (scan_end : ℕ)
    → length pre + 5 ≤ scan_end
    → height_at (pre ++ c ∷ 3 ∷ h0 ∷ h1 ∷ h2 ∷ rest) scan_end (length pre)
      ≡ some (h0 + h1 * 256 + 65536 * h2)
unfolding height_at add_high_bytes
height_at_lem pre c h0 h1 h2 rest scan_end room =
    let tail : Bytes = c ∷ 3 ∷ h0 ∷ h1 ∷ h2 ∷ rest in
    let e1 = get_elem?-append pre tail 1 in
    let e2 = get_elem?-append pre tail 2 in
    let e3 : get_elem? (pre ++ tail) (length pre + 2 + 1) ≡ some h1 =
      let i : length pre + 2 + 1 ≡ length pre + 3 = omega arith in
      rw i (get_elem?-append pre tail 3) in
    let e4 = get_elem?-append pre tail 4 in
    let enough : ltb (scan_end - length pre) 4 ≡ false = ground arith in
    let more : leb scan_end (length pre + 4) ≡ false = ground arith in
    rw (enough, e1, e2, e3, more, e4) refl

-- A coinbase script as the height rule of Bitcoin has it: behind the 32 bytes that are not looked at come
-- bytes other than 0xff, a run of at least two 0xff, the length of the script, and the height as a push
-- of three bytes, all inside the 128 bytes that are searched. That height is found.
pub get_block_height_lem :
    (skipped zeros ffs : Bytes) (len h0 h1 h2 : ℕ) (rest : Bytes)
    → length skipped ≡ 32
    → All (λ b. is_ff b ≡ false) zeros
    → All (λ b. is_ff b ≡ true) ffs
    → 2 ≤ length ffs
    → is_ff len ≡ false
    → length zeros + length ffs + 5 ≤ 128
    → get_block_height (skipped ++ (zeros ++ (ffs ++ len ∷ 3 ∷ h0 ∷ h1 ∷ h2 ∷ rest)))
      ≡ some (h0 + h1 * 256 + 65536 * h2)
unfolding get_block_height after_run
get_block_height_lem skipped zeros [] len h0 h1 h2 rest e z f two other room = absurd (omega arith)
get_block_height_lem skipped zeros (ff ∷ ffs) len h0 h1 h2 rest e z (f, fs) two other room =
    let tail : Bytes = len ∷ 3 ∷ h0 ∷ h1 ∷ h2 ∷ rest in
    let run : Bytes = ff ∷ ffs in
    let cb : Bytes = skipped ++ (zeros ++ (run ++ tail)) in
    let n : length cb ≡ 32 + (length zeros + (length run + length tail)) = omega (
      arith,
      length-append skipped (zeros ++ (run ++ tail)),
      length-append zeros (run ++ tail),
      length-append run tail,
    ) in
    let scan_end : ℕ = 32 + at_most_128 (length cb - 32) in
    let long : leb (length cb) 32 ≡ false = ground arith in
    let enough : 32 + length zeros + length run + 5 ≤ scan_end = ground arith in
    let passes = All-map (λ b h. ap not h) zeros z in
    let first : skip_while (λ b. not (is_ff b)) (scan_end - 32) 32 cb ≡ some (32 + length zeros) =
      let found =
        skip_run (λ b. not (is_ff b)) (scan_end - 32) skipped zeros ff (ffs ++ tail) passes
          (ap not f) (omega arith) in
      rw e at found in
    let pre : Bytes = skipped ++ zeros in
    let size : length pre ≡ 32 + length zeros = omega (arith, length-append skipped zeros) in
    let same : pre ++ (run ++ tail) ≡ cb = append_assoc skipped zeros (run ++ tail) in
    let end : length (pre ++ run) ≡ 32 + length zeros + length run =
      omega (arith, length-append pre run) in
    let whole : (pre ++ run) ++ tail ≡ cb = append_assoc pre run tail ∙ same in
    let second : skip_while is_ff (scan_end - (32 + length zeros)) (32 + length zeros) cb
        ≡ some (32 + length zeros + length run) =
      let found =
        skip_run is_ff (scan_end - (32 + length zeros)) pre run len (3 ∷ h0 ∷ h1 ∷ h2 ∷ rest)
          (f, fs) other (omega arith) in
      rw (size, same) at found in
    let marked : two_ff_before cb (32 + length zeros + length run) ≡ some true =
      rw (size, same) at (two_ff_before-run pre run tail (f, fs) two) in
    let height : height_at cb scan_end (32 + length zeros + length run)
        ≡ some (h0 + h1 * 256 + 65536 * h2) =
      rw (end, whole) at (height_at_lem (pre ++ run) len h0 h1 h2 rest scan_end (omega arith)) in
    let inside : (ltb (32 + length zeros + length run) 34
          || leb scan_end (32 + length zeros + length run))
        ≡ false =
      ground arith in
    rw (long, first, second, inside, marked, height) refl
