-- ===== src/Session/Retries.antt =====
-- A round of stratum_service_thread whose setup fails, off the slot and with nothing pending.
use primo_arm_miner.Prelude.{
  ℕ, ◌≡◌, ◌∙◌, inl, Bool, false, not, ◌&&◌, arith, if_true, if_false, ap, ◌||◌,
}
use primo_arm_miner.Prelude.Int.{ℤ, pos, ltb_ℤ}
use primo_arm_miner.Pools.{usable_at, stratum_set_url}
use primo_arm_miner.DevFee.{Settings}
use primo_arm_miner.Session.{
  Session, Round, note_abort, fill_url, set_pool, stratum_handle_disconnected_session,
  stratum_open_pool_connection, after_failed_setup, service_round,
}
use primo_arm_miner.Session.Steps.{Undisturbed, open_pool-Undisturbed}
use primo_arm_miner.Session.Places.{is_dev_home, Undisturbed-Inv}
use primo_arm_miner.Session.Hidden.{Hidden, AtHome, HasPlace}

-- A round in which the setup of the session fails and nobody asks the thread to stop or to reconnect.
pub record Fails (r : Round) : Type 0 where
  pub unopened : r.opened ≡ false
  pub top : r.abort_top ≡ false
  pub lost : r.abort_lost ≡ false
  pub wait : r.abort_wait ≡ false
  pub still : r.reconnect_lost ≡ false

-- No stop and no reconnect is pending.
pub record Quiet (s : Session) : Type 0 where
  pub running : s.aborted ≡ false
  pub settled : (j : ℕ) → s.reconnect_requested j ≡ false

-- The state in which the setup has failed: the current pool's URL may have been filled in.
pub record Opened (s s' : Session) : Type 0 where
  pub undisturbed : Undisturbed s s'
  pub flags : s'.reconnect_requested ≡ s.reconnect_requested
  pub aborted : s'.aborted ≡ false
  pub count : s'.retry_count ≡ s.retry_count
  pub start : s'.retry_cycle_start ≡ s.retry_cycle_start
  pub usable_eq : (j : ℕ) → usable_at s'.globals.table j ≡ usable_at s.globals.table j

open_pool_usable :
    (r : Round) (s : Session) (j : ℕ)
    → usable_at (stratum_open_pool_connection r s).0.globals.table j ≡ usable_at s.globals.table j
unfolding stratum_open_pool_connection fill_url set_pool usable_at stratum_set_url
open_pool_usable r s j = ground arith

open_pool-Opened :
    (r : Round) (s : Session)
    → r.opened ≡ false
    → s.aborted ≡ false
    → ((stratum_open_pool_connection r s).1 ≡ false) × Opened s (stratum_open_pool_connection r s).0
unfolding stratum_open_pool_connection set_pool
open_pool-Opened r s h a = (
  ground arith,
  record {
    undisturbed = open_pool-Undisturbed r s;
    flags = ground arith;
    aborted = ground arith;
    count = ground arith;
    start = ground arith;
    usable_eq = open_pool_usable r s;
  },
)

-- Off the slot a failed setup is handled as a lost session.
pub failed_round :
    (cfg : Settings) (opt_retries : ℤ) (k : ℕ) (r : Round) (s : Session)
    → Hidden k s.globals
    → AtHome s.globals s.current
    → Quiet s
    → Fails r
    → (s' : Session) × Opened s s'
      × (service_round cfg opt_retries r s ≡ stratum_handle_disconnected_session opt_retries r s')
unfolding service_round after_failed_setup
failed_round cfg opt_retries k r s v home q f =
    let s0 = note_abort r.abort_top s in
    let go : (s.aborted || r.abort_top) ≡ false = ground (arith, q.running, f.top) in
    let (closed, o) = open_pool-Opened r s0 f.unopened go in
    let s' = (stratum_open_pool_connection r s0).0 in
    let v' : HasPlace k s' =
      Undisturbed-Inv k s0 s' o.undisturbed (record { slot = v; place = inl home }) in
    let home' : AtHome s'.globals s'.current = (
      rw (o.undisturbed.devfee) home.0,
      rw (o.undisturbed.current) (o.undisturbed.usable s.current home.1),
    ) in
    let off = is_dev_home k s'.current s'.globals v'.slot home' in
    (
      s',
      record {
        undisturbed = record {
          current = o.undisturbed.current;
          devfee = o.undisturbed.devfee;
          num_pools = o.undisturbed.num_pools;
          disabled = o.undisturbed.disabled;
          usable = o.undisturbed.usable;
        };
        flags = o.flags;
        aborted = o.aborted;
        count = o.count;
        start = o.start;
        usable_eq = o.usable_eq;
      },
      if_false _ _ _ go ∙ (if_true _ _ _ (ap not closed) ∙ if_false _ _ _ off),
    )

abbrev pub limit_reached : ℤ → ℕ → Bool
limit_reached opt_retries count = not (ltb_ℤ opt_retries (pos 0)) && ltb_ℤ opt_retries (pos count)
