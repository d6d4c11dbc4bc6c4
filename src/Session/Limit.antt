-- ===== src/Session/Limit.antt =====
-- The limit on the retries, with a single usable pool.
use primo_arm_miner.Prelude.{
  ℕ, ◌+◌, ◌≤◌, ◌<◌, ◌≡◌, refl, sym, ◌∙◌, ◌⊎◌, inl, inr, Bool, true, false, List, [], ◌∷◌, arith,
  All, length,
}
use primo_arm_miner.Prelude.Int.{pos}
use primo_arm_miner.Pools.{usable_at}
use primo_arm_miner.DevFee.{Settings}
use primo_arm_miner.Session.{Session, Round, service_round, service_run}
use primo_arm_miner.Session.Hidden.{Hidden, AtHome}
use primo_arm_miner.Session.Retries.{Fails, Quiet}
use primo_arm_miner.Session.Handling.{Handled, round-Failed}

-- The thread is on the only usable pool, nothing is pending, and the limit is not passed.
pub record OnlyPool (k m : ℕ) (s : Session) : Type 0 where
  pub slot : Hidden k s.globals
  pub home : AtHome s.globals s.current
  pub quiet : Quiet s
  pub only : (j : ℕ) → usable_at s.globals.table j ≡ true → j ≡ s.current
  pub within : s.retry_count ≤ m

retried :
    (m next : ℕ) (s : Session) (out : Session × Bool)
    → next ≡ s.current
    → Handled (pos m) s next out
    → ((m < s.retry_count + 1) × (out.1 ≡ false) × (out.0.aborted ≡ true))
      ⊎ ((s.retry_count + 1 ≤ m)
          × (out.1 ≡ true)
          × (out.0.current ≡ s.current)
          × (out.0.retry_count ≡ s.retry_count + 1)
          × (out.0.aborted ≡ false))
retried m next s (s', go_on) e h = ground arith

only_round :
    (cfg : Settings) (k m : ℕ) (r : Round) (s : Session)
    → OnlyPool k m s
    → Fails r
    → let (s', go_on) = service_round cfg (pos m) r s in
      ((m < s.retry_count + 1) × (go_on ≡ false) × (s'.aborted ≡ true))
      ⊎ ((go_on ≡ true) × (s'.retry_count ≡ s.retry_count + 1) × OnlyPool k m s')
only_round cfg k m r s v f =
    let x = round-Failed cfg (pos m) k r s v.slot v.home v.quiet f in
    let same : x.next ≡ s.current = v.only x.next (sym (x.usable_eq x.next) ∙ x.next_usable) in
    elim (retried m x.next s (service_round cfg (pos m) r s) same x.handled) [
      | inl stop ↦ inl stop
      | inr (fits, go, at, count, run) ↦ inr (
        go,
        count,
        record {
          slot = x.slot;
          home = (x.outside, rw at (x.usable s.current v.home.1));
          quiet = record { running = run; settled = x.settled };
          only = λ j u. v.only j (sym (x.usable_eq j) ∙ u) ∙ sym at;
          within = omega arith;
        },
      )
    ]

-- On the only usable pool, outside a slice, with nothing pending and at most `m` retries counted: if the
-- pool does not answer and the limit is `m` retries, the thread goes on exactly as
-- long as the failed rounds, with those counted before, are at most `m`; then it stops and asks the
-- other threads to stop.
pub service_run_limit :
    (cfg : Settings) (k m : ℕ) (rounds : List Round) (s : Session)
    → OnlyPool k m s
    → All Fails rounds
    → let (s', go_on) = service_run cfg (pos m) rounds s in
      ((s.retry_count + length rounds ≤ m)
        × (go_on ≡ true)
        × (s'.retry_count ≡ s.retry_count + length rounds))
      ⊎ ((m < s.retry_count + length rounds) × (go_on ≡ false) × (s'.aborted ≡ true))
unfolding service_run
service_run_limit cfg k m [] s v f = inl (omega (arith, v.within), refl, omega arith)
service_run_limit cfg k m (r ∷ rs) s v (f, fs) = elim (only_round cfg k m r s v f) [
  | inl stop ↦ ground (arith, stop)
  | inr (go, count, v') ↦
      let rest = service_run_limit cfg k m rs (service_round cfg (pos m) r s).0 v' fs in
      ground (arith, rest, go, count)
]
