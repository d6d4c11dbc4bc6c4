-- ===== src/Publish/Shares.antt =====
-- The accounting of share results, in src/stratum_state.cpp.
use primo_arm_miner.Prelude.{
  ℕ, ◌+◌, ◌%◌, ◌≡◌, ap, inl, inr, Bool-cases, Bool, not, ◌&&◌, List, [], ◌∷◌, arith, ltb, ◌==◌,
  if◌then◌else◌,
}
use primo_arm_miner.Prelude.Int.{pos}
use primo_arm_miner.DevFee.{DevfeeState, devfee_is_dev_pool}
use primo_arm_miner.Publish.{ShareStats, bump_if, stratum_update_share_stats}

-- A row of results, each with the pool it came from.
unfoldable pub after_results : DevfeeState → ℕ → List (ℕ × Bool) → ShareStats → ShareStats
after_results d num_pools [] s = s
after_results d num_pools ((i, accepted) ∷ results) s =
    after_results d num_pools results (stratum_update_share_stats d num_pools (pos i) accepted s)

-- How many of the results are of a kind.
unfoldable pub count : (ℕ → Bool → Bool) → List (ℕ × Bool) → ℕ
count kind [] = 0
count kind ((i, accepted) ∷ results) =
    let rest = count kind results in if kind i accepted then rest + 1 else rest

-- One result more.
counted :
    (more : Bool) (before rest total : ℕ)
    → total % 4294967296 ≡ (bump_if more before + rest) % 4294967296
    → total % 4294967296 ≡ (before + (if more then rest + 1 else rest)) % 4294967296
counted more before rest total h = ground arith

counted_at :
    (i j num_pools rest total : ℕ) (more : Bool) (counts : ℕ → ℕ)
    → total % 4294967296
      ≡ ((if i == j then bump_if (ltb i num_pools && more) (counts i) else counts j) + rest)
        % 4294967296
    → total % 4294967296
      ≡ (counts j + (if i == j && ltb j num_pools && more then rest + 1 else rest)) % 4294967296
counted_at i j num_pools rest total more counts h = elim (Bool-cases (i == j)) [
  | inl e ↦ let same : i ≡ j = ground arith in ground (arith, ap counts same)
  | inr e ↦ ground arith
]

-- After any row of results, modulo 2^32: the totals that the user sees count the accepted and the rejected shares of
-- every pool but the dev pool, and each pool of the table, the dev pool too, counts its own.
pub after_results_lem :
    (d : DevfeeState) (num_pools j : ℕ) (results : List (ℕ × Bool)) (s : ShareStats)
    → let s' = after_results d num_pools results s in
      (s'.share_accepted_total % 4294967296
        ≡ (s.share_accepted_total
            + count (λ i accepted. not (devfee_is_dev_pool d (pos i)) && accepted) results)
          % 4294967296)
      × (s'.share_rejected_total % 4294967296
          ≡ (s.share_rejected_total
              + count (λ i accepted. not (devfee_is_dev_pool d (pos i)) && not accepted) results)
            % 4294967296)
      × (s'.accepted_count j % 4294967296
          ≡ (s.accepted_count j
              + count (λ i accepted. i == j && ltb j num_pools && accepted) results)
            % 4294967296)
      × (s'.rejected_count j % 4294967296
          ≡ (s.rejected_count j
              + count (λ i accepted. i == j && ltb j num_pools && not accepted) results)
            % 4294967296)
unfolding after_results count stratum_update_share_stats
after_results_lem d num_pools j [] s = ground arith
after_results_lem d num_pools j ((i, accepted) ∷ results) s =
    let s1 = stratum_update_share_stats d num_pools (pos i) accepted s in
    let (a, b, c, e) = after_results_lem d num_pools j results s1 in
    (
      counted _ _ _ _ a,
      counted _ _ _ _ b,
      counted_at i j num_pools _ _ accepted s.accepted_count c,
      counted_at i j num_pools _ _ (not accepted) s.rejected_count e,
    )
