-- ===== src/Session/Spin.antt =====
-- What a slice does to the retry cycle of stratum_service_thread.
use primo_arm_miner.Prelude.{
  ℕ, ◌≡◌, refl, sym, ◌∙◌, ◌≢◌, Bool, true, false, List, [], ◌∷◌, arith, All,
}
use primo_arm_miner.Prelude.Int.{ℤ}
use primo_arm_miner.Pools.{usable_at}
use primo_arm_miner.DevFee.{Settings}
use primo_arm_miner.Session.{Session, Round, service_round, service_run}
use primo_arm_miner.Session.Hidden.{Hidden, AtHome, usable-ne}
use primo_arm_miner.Session.Retries.{Fails, Quiet}
use primo_arm_miner.Session.Handling.{Handled, round-Failed}

-- The thread is on a usable pool of the user, another one is usable, nothing is pending, and the
-- retry cycle is recorded as beginning in the hidden slot `k`.
pub record CycleLost (k : ℕ) (s : Session) : Type 0 where
  pub slot : Hidden k s.globals
  pub home : AtHome s.globals s.current
  pub quiet : Quiet s
  pub start_eq : s.retry_cycle_start ≡ k
  pub other : ℕ
  pub other_usable : usable_at s.globals.table other ≡ true
  pub other_ne : other ≢ s.current

moved_on :
    (opt_retries : ℤ) (k next : ℕ) (s : Session) (out : Session × Bool)
    → s.retry_cycle_start ≡ k
    → next ≢ k
    → next ≢ s.current
    → Handled opt_retries s next out
    → (out.1 ≡ true)
      × (out.0.current ≡ next)
      × (out.0.retry_count ≡ s.retry_count)
      × (out.0.retry_cycle_start ≡ k)
      × (out.0.aborted ≡ false)
moved_on opt_retries k next s (s', go_on) e a b h = ground arith

lost_round :
    (cfg : Settings) (opt_retries : ℤ) (k : ℕ) (r : Round) (s : Session)
    → CycleLost k s
    → Fails r
    → let (s', go_on) = service_round cfg opt_retries r s in
      (go_on ≡ true) × (s'.retry_count ≡ s.retry_count) × CycleLost k s'
lost_round cfg opt_retries k r s v f =
    let x = round-Failed cfg opt_retries k r s v.slot v.home v.quiet f in
    let ne = x.other v.other v.other_usable v.other_ne in
    let (go, at, count, start, run) =
      moved_on opt_retries k x.next s (service_round cfg opt_retries r s) v.start_eq
        (usable-ne k x.next (service_round cfg opt_retries r s).0.globals x.slot x.next_usable) ne
        x.handled in
    (
      go,
      count,
      record {
        slot = x.slot;
        home = (x.outside, rw at x.next_usable);
        quiet = record { running = run; settled = x.settled };
        start_eq = start;
        other = s.current;
        other_usable = x.usable s.current v.home.1;
        other_ne = λ e. ne (sym at ∙ sym e);
      },
    )

-- Outside a slice, with nothing pending, two usable pools, and the retry cycle recorded as beginning in
-- the hidden slot: while no pool answers the thread goes on, however many rounds fail and whatever limit
-- is set on the retries; no retry is counted, and it is not told to stop.
pub service_run_spins :
    (cfg : Settings) (opt_retries : ℤ) (k : ℕ) (rounds : List Round) (s : Session)
    → CycleLost k s
    → All Fails rounds
    → let (s', go_on) = service_run cfg opt_retries rounds s in
      (go_on ≡ true) × (s'.retry_count ≡ s.retry_count) × (s'.aborted ≡ false)
unfolding service_run
service_run_spins cfg opt_retries k [] s v f = (refl, refl, v.quiet.running)
service_run_spins cfg opt_retries k (r ∷ rs) s v (f, fs) =
    let (go, count, v') = lost_round cfg opt_retries k r s v f in
    let rest = service_run_spins cfg opt_retries k rs (service_round cfg opt_retries r s).0 v' fs in
    ground (arith, rest, go, count)
