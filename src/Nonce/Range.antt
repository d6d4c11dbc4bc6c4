-- ===== src/Nonce/Range.antt =====
-- The shares of the threads in the nonce space, in src/miner.cpp.
use primo_arm_miner.Prelude.{
  ℕ, zero, suc, ◌+◌, ◌*◌, ◌/◌, ◌%◌, ◌≤◌, ◌<◌, ◌≡◌, sym, subst, Option, none, some, arith,
}
use native.Mathlib.Nat.{
  le-div_iff_mul-le, div-mul-le_self, mul-le-mul_right, mul-div_right, zero-div, mod-eq_of_lt,
}
use native.Mathlib.Decide.{dec_lt}
use primo_arm_miner.Nonce.{span_end, miner_get_thread_nonce_range}

bound : ℕ → ℕ → ℕ → ℕ
bound n space i = i * space / n

bound_mono : (n space i j : ℕ) → 0 < n → i ≤ j → bound n space i ≤ bound n space j
unfolding bound
bound_mono n space i j h le =
    let below : i * space / n * n ≤ j * space =
      (let a = div-mul-le_self (i * space) n in
        let b = mul-le-mul_right space le in omega (arith, a, b)) in
    (le-div_iff_mul-le h).1 below

last_bound : (n space : ℕ) → 0 < n → bound n space n ≡ space
unfolding bound
last_bound n space h = mul-div_right space h

-- The span of the test hook, if there is one, keeps the sum with any nonce of the space below 2^64.
abbrev pub SpanFits : Option ℕ → ℕ → Type 0
SpanFits none space = Unit {0}
SpanFits (some span) space = space + span < 18446744073709551616

bound_within : (n space i : ℕ) → i ≤ n → 0 < n → bound n space i ≤ space
bound_within n space i le h = omega (arith, bound_mono n space i n h le, last_bound n space h)

span_within :
    (span : Option ℕ) (space lo hi : ℕ)
    → SpanFits span space
    → lo ≤ space
    → lo ≤ hi
    → (lo ≤ span_end span lo hi) × (span_end span lo hi ≤ hi)
span_within none space lo hi fits below h = (h, omega arith)
span_within (some span) space lo hi fits below h =
    let small : (lo + span) % 18446744073709551616 ≡ lo + span =
      mod-eq_of_lt {n = lo + span} {m = 18446744073709551616} (omega arith) in
    rw small (ground arith)

pub range_ordered :
    (n space i : ℕ) (span : Option ℕ)
    → i < n
    → SpanFits span space
    → let (start, end) = miner_get_thread_nonce_range n span i space in start ≤ end
unfolding miner_get_thread_nonce_range bound
range_ordered n space i span h fits =
    (span_within span space _ _ fits (bound_within n space i (omega arith) (omega arith))
      (bound_mono n space i (i + 1) (omega arith) (omega arith))).0

-- The ranges of two threads do not meet, and they stay in the space: without the test hook, and with one
-- whose span can be added to a nonce of the space without a wrap round 2^64.
pub thread_ranges_apart :
    (n space i j : ℕ) (span : Option ℕ)
    → i < j
    → j < n
    → SpanFits span space
    → let (start, end) = miner_get_thread_nonce_range n span i space in
      let (start', end') = miner_get_thread_nonce_range n span j space in
      (start ≤ end) × (end ≤ start') × (start' ≤ end') × (end' ≤ space)
unfolding miner_get_thread_nonce_range bound
thread_ranges_apart n space i j span lt below fits =
    let some_thread : 0 < n = omega arith in
    let own =
      span_within span space _ _ fits (bound_within n space i (omega arith) some_thread)
        (bound_mono n space i (i + 1) some_thread (omega arith)) in
    let other =
      span_within span space _ _ fits (bound_within n space j (omega arith) some_thread)
        (bound_mono n space j (j + 1) some_thread (omega arith)) in
    let between = bound_mono n space (i + 1) j some_thread (omega arith) in
    let top = bound_mono n space (j + 1) n some_thread (omega arith) in
    (
      own.0,
      omega (arith, own.1, between),
      other.0,
      omega (arith, other.1, top, last_bound n space some_thread),
    )

-- One of the first `m` threads has a nonce that lies below their ranges' end.
cover_below :
    (n space c m : ℕ)
    → c < bound n space m
    → (i : ℕ) × ((i < m) × ((bound n space i ≤ c) × (c < bound n space (i + 1))))
unfolding bound
cover_below n space c zero lt = absurd (omega (arith, zero-div n))
cover_below n space c (suc m) lt = elim (dec_lt c (bound n space m)) [
  | yes before ↦
      let (i, (below, at)) = cover_below n space c m before in (i, (omega (arith, below), at))
  | no here ↦
      let e : suc m ≡ m + 1 = omega arith in
      let later = subst (λ x. c < bound n space x) e lt in
      (m, (omega arith, (omega (arith, here), later)))
]

-- Without the hook every nonce of the space is in the range of a thread.
pub thread_ranges_cover :
    (n space c : ℕ)
    → 0 < n
    → c < space
    → (i : ℕ) × ((i < n)
        × (let (start, end) = miner_get_thread_nonce_range n none i space in
            (start ≤ c) × (c < end)))
unfolding miner_get_thread_nonce_range bound
thread_ranges_cover n space c h lt =
    cover_below n space c n (subst (λ top. c < top) (sym (last_bound n space h)) lt)
