-- ===== src/Session/Places.antt =====
-- The service thread keeps its place, whatever its rounds meet.
use primo_arm_miner.Prelude.{
  ℕ, ◌≡◌, ◌∙◌, ◌⊎◌, inl, inr, Bool, true, false, not, ◌&&◌, arith, Bool-cases, if◌then◌else◌,
  if-choice,
}
use primo_arm_miner.Prelude.Int.{ℤ, pos}
use primo_arm_miner.Pools.{PoolTable, usable_at, miner_pool_is_usable}
use primo_arm_miner.DevFee.{Settings, Globals, devfee_is_dev_pool, devfee_transition_due}
use primo_arm_miner.Session.{
  Session, Round, note_abort, note_reconnect, stratum_find_next_pool_index,
  stratum_reset_retry_cycle, stratum_handle_disconnected_session, stratum_open_pool_connection,
  stratum_run_message_loop, leave_dev_pool, after_session, after_failed_setup, service_round,
}
use primo_arm_miner.Session.Failover.{stratum_find_next_pool_index_lem}
use primo_arm_miner.Session.Steps.{Undisturbed, open_pool-Undisturbed, message_loop-Undisturbed}
use primo_arm_miner.Session.Hidden.{
  AtHome, Away, Hidden, Inv, HasPlace, usable-ne, usable-lt, leave_dev_pool-Inv,
}
use primo_arm_miner.Session.Boundary.{cross_boundary-Inv}

-- A change that leaves the slot and the usable pools alone keeps the place.
pub Undisturbed-Inv : (k : ℕ) (s s' : Session) → Undisturbed s s' → HasPlace k s → HasPlace k s'
Undisturbed-Inv k s s' q v = record {
  slot = record {
    on = rw q.devfee v.slot.on;
    index_eq = rw q.devfee v.slot.index_eq;
    disabled = q.disabled k ∙ v.slot.disabled;
    present = rw q.num_pools v.slot.present;
  };
  place = elim v.place [
    | inl home ↦ inl (rw q.devfee home.0, rw q.current (q.usable s.current home.1))
    | inr away ↦ inr (
      rw q.devfee away.0,
      q.current ∙ away.1,
      (away.2.0, (rw q.devfee away.2.1.0, q.usable away.2.0 away.2.1.1)),
    )
  ];
}

-- Off the slot, or told to stop, the thread's handling of a lost session keeps its place.
pub next_usable :
    (t : PoolTable) (c : ℕ)
    → usable_at t c ≡ true
    → usable_at t (stratum_find_next_pool_index t c) ≡ true
unfolding miner_pool_is_usable
next_usable t c u = elim (stratum_find_next_pool_index_lem t c (usable-lt c t u)) [
  | inl other ↦ other.2
  | inr same ↦ rw same.0 u
]

handle_where :
    (opt_retries : ℤ) (r : Round) (s : Session)
    → let s' = (stratum_handle_disconnected_session opt_retries r s).0 in
      (s'.globals ≡ s.globals)
      × ((s'.current ≡ s.current)
          ⊎ (s'.current ≡ stratum_find_next_pool_index s.globals.table s.current))
unfolding stratum_handle_disconnected_session
handle_where opt_retries r s = ground arith

handle_home-Inv :
    (opt_retries : ℤ) (k : ℕ) (r : Round) (s : Session)
    → Hidden k s.globals
    → AtHome s.globals s.current
    → HasPlace k (stratum_handle_disconnected_session opt_retries r s).0
handle_home-Inv opt_retries k r s v home =
    let (same, there) = handle_where opt_retries r s in
    record {
      slot = rw same v;
      place = elim there [
        | inl e ↦ rw (same, e) (inl home)
        | inr e ↦ rw (same, e) (inl (home.0, next_usable s.globals.table s.current home.1))
      ];
    }

handle_aborted :
    (opt_retries : ℤ) (r : Round) (s : Session)
    → s.aborted ≡ true
    → stratum_handle_disconnected_session opt_retries r s
      ≡ (note_reconnect r.reconnect_lost (note_abort r.abort_lost s), false)
unfolding stratum_handle_disconnected_session
handle_aborted opt_retries r s h = ground arith

pub is_dev_home :
    (k c : ℕ) (g : Globals) → Hidden k g → AtHome g c → devfee_is_dev_pool g.devfee (pos c) ≡ false
unfolding devfee_is_dev_pool
is_dev_home k c g v home = ground (arith, usable-ne k c g v home.1)

pub is_dev-Away :
    (k c : ℕ) (g : Globals) → Hidden k g → Away k g c → devfee_is_dev_pool g.devfee (pos c) ≡ true
unfolding devfee_is_dev_pool
is_dev-Away k c g v away = ground arith

-- The two ways on from a session that is gone: on the slot, and off it.
lost-Inv :
    (cfg : Settings) (opt_retries : ℤ) (k : ℕ) (r : Round) (s : Session)
    → HasPlace k s
    → (s.aborted ≡ true) ⊎ (devfee_is_dev_pool s.globals.devfee (pos s.current) ≡ false)
    → HasPlace k (stratum_handle_disconnected_session opt_retries r s).0
lost-Inv cfg opt_retries k r s v (inl stop) =
    rw (handle_aborted opt_retries r s stop) (record { slot = v.slot; place = v.place })
lost-Inv cfg opt_retries k r s v (inr off) = elim v.place [
  | inl home ↦ handle_home-Inv opt_retries k r s v.slot home
  | inr away ↦ cc (is_dev-Away k s.current s.globals v.slot away)
]

on_slot :
    (k : ℕ) (s : Session)
    → HasPlace k s
    → devfee_is_dev_pool s.globals.devfee (pos s.current) ≡ true
    → Away k s.globals s.current
on_slot k s v h = elim v.place [
  | inl home ↦ cc (is_dev_home k s.current s.globals v.slot home)
  | inr away ↦ away
]

after_failed_setup-Inv :
    (cfg : Settings) (opt_retries : ℤ) (k : ℕ) (r : Round) (s : Session)
    → HasPlace k s
    → HasPlace k (after_failed_setup cfg opt_retries r s).0
unfolding after_failed_setup
after_failed_setup-Inv cfg opt_retries k r s v =
    elim (Bool-cases (devfee_is_dev_pool s.globals.devfee (pos s.current))) [
      | inl e ↦ rw e (leave_dev_pool-Inv cfg k r s v.slot (on_slot k s v e))
      | inr e ↦ rw e (lost-Inv cfg opt_retries k r s v (inr e))
    ]

both_left : (a b : Bool) → (a && b) ≡ true → a ≡ true
both_left a b h = ground arith

either_off : (stop slot : Bool) → (slot && not stop) ≡ false → (stop ≡ true) ⊎ (slot ≡ false)
either_off stop slot h = ground arith

lost_or_left-Inv :
    (cfg : Settings) (opt_retries : ℤ) (k : ℕ) (r : Round) (s : Session)
    → HasPlace k s
    → HasPlace k
        (if devfee_is_dev_pool s.globals.devfee (pos s.current) && not s.aborted
          then (leave_dev_pool cfg r s, true)
          else stratum_handle_disconnected_session opt_retries r s).0
lost_or_left-Inv cfg opt_retries k r s v =
    let slot = devfee_is_dev_pool s.globals.devfee (pos s.current) in
    elim (Bool-cases (slot && not s.aborted)) [
      | inl e ↦ rw e (leave_dev_pool-Inv cfg k r s v.slot (on_slot k s v (both_left slot _ e)))
      | inr e ↦ rw e (lost-Inv cfg opt_retries k r s v (either_off s.aborted slot e))
    ]

after_session-Inv :
    (cfg : Settings) (opt_retries : ℤ) (k : ℕ) (r : Round) (s0 : Session)
    → HasPlace k s0
    → HasPlace k (after_session cfg opt_retries r s0).0
unfolding after_session
after_session-Inv cfg opt_retries k r s0 v0 =
    let s = note_reconnect r.reconnect_due (note_abort r.abort_due s0) in
    let v : HasPlace k s = record { slot = v0.slot; place = v0.place } in
    let due =
      devfee_transition_due r.due_at s.globals.devfee
      && not s.aborted
      && not (s.reconnect_requested s.current) in
    elim (Bool-cases due) [
      | inl e ↦ rw e (cross_boundary-Inv cfg k r s v)
      | inr e ↦ rw e (lost_or_left-Inv cfg opt_retries k r s v)
    ]

round_body-Inv :
    (cfg : Settings) (opt_retries : ℤ) (k : ℕ) (r : Round) (s : Session) (opened : Bool)
    → HasPlace k s
    → HasPlace k
        (if not opened
          then after_failed_setup cfg opt_retries r s
          else after_session cfg opt_retries r
              (stratum_run_message_loop r (stratum_reset_retry_cycle s))).0
unfolding stratum_reset_retry_cycle
round_body-Inv cfg opt_retries k r s false v = after_failed_setup-Inv cfg opt_retries k r s v
round_body-Inv cfg opt_retries k r s true v =
    let s' = stratum_reset_retry_cycle s in
    after_session-Inv cfg opt_retries k r _ (
      Undisturbed-Inv k s' _ (message_loop-Undisturbed r s')
        (record { slot = v.slot; place = v.place }))

-- With the fee installed in a disabled slot: every round of the service thread that begins with the
-- thread in its place leaves it there, whatever the round meets. Its place is a usable pool of the user
-- outside a slice, and the hidden slot within one, with a usable pool to go back to.
pub service_round-Inv :
    (cfg : Settings) (opt_retries : ℤ) (k : ℕ) (r : Round) (s0 : Session)
    → Inv k s0.globals s0.current
    → let s = (service_round cfg opt_retries r s0).0 in Inv k s.globals s.current
unfolding service_round
service_round-Inv cfg opt_retries k r s0 v0 =
    let s = note_abort r.abort_top s0 in
    let v : HasPlace k s = record { slot = v0.slot; place = v0.place } in
    let s' = (stratum_open_pool_connection r s).0 in
    if-choice (λ (out : Session × Bool). HasPlace k out.0) s.aborted v
      (round_body-Inv cfg opt_retries k r s' _
        (Undisturbed-Inv k s s' (open_pool-Undisturbed r s) v))
