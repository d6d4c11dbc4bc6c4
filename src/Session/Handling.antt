-- ===== src/Session/Handling.antt =====
-- How a failed round is handled: when the thread moves on, waits or stops.
use primo_arm_miner.Prelude.{ℕ, ◌+◌, ◌<◌, ◌≡◌, refl, ◌≢◌, ◌⊎◌, inl, inr, Bool, true, false, arith}
use primo_arm_miner.Prelude.Int.{ℤ}
use primo_arm_miner.Pools.{PoolTable, usable_at, miner_pool_is_usable}
use primo_arm_miner.DevFee.{Settings}
use primo_arm_miner.Session.{
  Session, Round, stratum_find_next_pool_index, stratum_handle_disconnected_session, service_round,
}
use primo_arm_miner.Session.Failover.{stratum_find_next_pool_index_lem}
use primo_arm_miner.Session.Places.{Undisturbed-Inv, next_usable}
use primo_arm_miner.Session.Hidden.{Hidden, AtHome, HasPlace, usable-lt}
use primo_arm_miner.Session.Retries.{Opened, Fails, Quiet, failed_round, limit_reached}

-- With another usable pool that is not the start of the cycle the thread moves there at once, with the
-- bookkeeping as it was. Otherwise it counts a retry: past the limit it stops and asks everybody to;
-- below it, it waits, moves to the pool found, and a new cycle starts there.
abbrev pub Handled : ℤ → Session → ℕ → Session × Bool → Type 0
Handled opt_retries s next (s', go_on) =
    ((next ≢ s.current)
      × (next ≢ s.retry_cycle_start)
      × (go_on ≡ true)
      × (s'.current ≡ next)
      × (s'.retry_count ≡ s.retry_count)
      × (s'.retry_cycle_start ≡ s.retry_cycle_start)
      × (s'.aborted ≡ false))
    ⊎ (((next ≡ s.current) ⊎ (next ≡ s.retry_cycle_start))
        × (limit_reached opt_retries (s.retry_count + 1) ≡ true)
        × (go_on ≡ false)
        × (s'.aborted ≡ true)
        × (s'.current ≡ s.current))
    ⊎ (((next ≡ s.current) ⊎ (next ≡ s.retry_cycle_start))
        × (limit_reached opt_retries (s.retry_count + 1) ≡ false)
        × (go_on ≡ true)
        × (s'.current ≡ next)
        × (s'.retry_count ≡ s.retry_count + 1)
        × (s'.retry_cycle_start ≡ next)
        × (s'.aborted ≡ false))

handled :
    (opt_retries : ℤ) (r : Round) (s : Session) (next : ℕ)
    → stratum_find_next_pool_index s.globals.table s.current ≡ next
    → next < s.globals.table.num_pools
    → s.aborted ≡ false
    → s.reconnect_requested s.current ≡ false
    → Fails r
    → Handled opt_retries s next (stratum_handle_disconnected_session opt_retries r s)
unfolding stratum_handle_disconnected_session
handled opt_retries r s next e lt a q f = ground arith

handled_quiet :
    (opt_retries : ℤ) (r : Round) (s : Session)
    → let s' = (stratum_handle_disconnected_session opt_retries r s).0 in
      (s'.globals ≡ s.globals)
      × (r.reconnect_lost ≡ false
          → ((j : ℕ) → s.reconnect_requested j ≡ false)
          → (j : ℕ) → s'.reconnect_requested j ≡ false)
unfolding stratum_handle_disconnected_session
handled_quiet opt_retries r s = (ground arith, λ still h j. ground (arith, h j, h s.current))

-- A failed round, off the slot and with nothing pending, is handled as described by `Handled`, from
-- the pool that the failover finds.
pub record Failed (opt_retries : ℤ) (k : ℕ) (s : Session) (out : Session × Bool) : Type 0 where
  pub next : ℕ
  pub next_usable : usable_at out.0.globals.table next ≡ true
  pub other : (j : ℕ) → usable_at s.globals.table j ≡ true → j ≢ s.current → next ≢ s.current
  pub slot : Hidden k out.0.globals
  pub outside : out.0.globals.devfee.in_slice ≡ false
  pub usable : (j : ℕ) → usable_at s.globals.table j ≡ true → usable_at out.0.globals.table j ≡ true
  pub usable_eq : (j : ℕ) → usable_at out.0.globals.table j ≡ usable_at s.globals.table j
  pub settled : (j : ℕ) → out.0.reconnect_requested j ≡ false
  pub handled : Handled opt_retries s next out

next_other :
    (t : PoolTable) (c j : ℕ)
    → usable_at t c ≡ true
    → usable_at t j ≡ true
    → j ≢ c
    → stratum_find_next_pool_index t c ≢ c
unfolding miner_pool_is_usable
next_other t c j u w ne = elim (stratum_find_next_pool_index_lem t c (usable-lt c t u)) [
  | inl other ↦ other.0
  | inr same ↦ λ e. cc (same.1 j (usable-lt j t w) ne)
]

handled_same :
    (opt_retries : ℤ) (s s' : Session) (next : ℕ) (out : Session × Bool)
    → Opened s s'
    → Handled opt_retries s' next out
    → Handled opt_retries s next out
handled_same opt_retries s s' next (t, go_on) o h =
    ground (arith, o.undisturbed.current, o.count, o.start)

handled-Failed :
    (opt_retries : ℤ) (k : ℕ) (r : Round) (s s' : Session)
    → HasPlace k s'
    → AtHome s'.globals s'.current
    → Quiet s
    → Fails r
    → Opened s s'
    → Failed opt_retries k s (stratum_handle_disconnected_session opt_retries r s')
handled-Failed opt_retries k r s s' v home q f o =
    let next = stratum_find_next_pool_index s'.globals.table s'.current in
    let out = stratum_handle_disconnected_session opt_retries r s' in
    let (same, flags) = handled_quiet opt_retries r s' in
    let usable' = next_usable s'.globals.table s'.current home.1 in
    let settled' : (j : ℕ) → s'.reconnect_requested j ≡ false = λ j. rw o.flags (q.settled j) in
    record {
      next = next;
      next_usable = rw same usable';
      other = λ j u ne. rw (← o.undisturbed.current) (
          next_other s'.globals.table s'.current j home.1 (o.undisturbed.usable j u)
            (rw o.undisturbed.current ne));
      slot = rw same v.slot;
      outside = rw same home.0;
      usable = λ j u. rw same (o.undisturbed.usable j u);
      usable_eq = λ j. rw same (o.usable_eq j);
      settled = flags f.still settled';
      handled = handled_same opt_retries s s' next out o (
          handled opt_retries r s' next refl (usable-lt next s'.globals.table usable') o.aborted
            (settled' s'.current) f);
    }

pub round-Failed :
    (cfg : Settings) (opt_retries : ℤ) (k : ℕ) (r : Round) (s : Session)
    → Hidden k s.globals
    → AtHome s.globals s.current
    → Quiet s
    → Fails r
    → Failed opt_retries k s (service_round cfg opt_retries r s)
round-Failed cfg opt_retries k r s v home q f =
    let (s', o, e) = failed_round cfg opt_retries k r s v home q f in
    let v' : HasPlace k s' =
      Undisturbed-Inv k s s' o.undisturbed (record { slot = v; place = inl home }) in
    let home' : AtHome s'.globals s'.current = (
      rw (o.undisturbed.devfee) home.0,
      rw (o.undisturbed.current) (o.undisturbed.usable s.current home.1),
    ) in
    rw e (handled-Failed opt_retries k r s s' v' home' q f o)
