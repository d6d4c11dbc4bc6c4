-- ===== src/Session/Flags.antt =====
-- The reconnect request of the hidden slot, through the rounds of stratum_service_thread.
use primo_arm_miner.Prelude.{
  ℕ, ◌≡◌, refl, sym, ◌≢◌, ◌⊎◌, inl, inr, Bool, true, false, not, ◌&&◌, if◌then◌else◌, Option, none,
  some, List, [], ◌∷◌, arith, Bool-cases, if-choice,
}
use primo_arm_miner.Prelude.Int.{ℤ, pos, negsuc}
use primo_arm_miner.DevFee.{
  Settings, devfee_is_dev_pool, devfee_transition_due, devfee_advance_target, devfee_abort_slice,
  devfee_take_transition,
}
use primo_arm_miner.Service.{
  note_reconnect, Heard, line, silence, Turn, follow_redirect, take_heard, message_turn, turns_from,
}
use primo_arm_miner.Session.{
  Session, Round, note_abort, stratum_switch_to_pool, stratum_reset_retry_cycle,
  stratum_handle_disconnected_session, stratum_open_pool_connection, stratum_run_message_loop,
  leave_dev_pool, cross_boundary, after_session, after_failed_setup, service_round, service_run,
  finish, set_pool, set_globals,
}
use primo_arm_miner.Session.Hidden.{Inv, HasPlace, usable-ne}
use primo_arm_miner.Session.Steps.{open_pool-Undisturbed, message_loop-Undisturbed}
use primo_arm_miner.Session.Places.{is_dev-Away, Undisturbed-Inv, service_round-Inv}

switch_flags :
    (next : ℤ) (s : Session)
    → (stratum_switch_to_pool next s).0.reconnect_requested ≡ s.reconnect_requested
unfolding stratum_switch_to_pool
switch_flags (pos i) s = ground arith
switch_flags (negsuc i) s = refl

leave_flags :
    (cfg : Settings) (r : Round) (s : Session)
    → (leave_dev_pool cfg r s).reconnect_requested ≡ s.reconnect_requested
unfolding leave_dev_pool
leave_flags cfg r s =
    let (g, advanced) = devfee_advance_target cfg r.advance_at s.globals in
    let (g', user_pool) = devfee_abort_slice r.abandon_at g in
    if-choice (λ (t : Session). t.reconnect_requested ≡ s.reconnect_requested) advanced
      {x = set_globals g s} {y = (stratum_switch_to_pool user_pool (set_globals g' s)).0} refl
      (switch_flags user_pool (set_globals g' s))

cross_flags :
    (cfg : Settings) (r : Round) (s : Session)
    → (cross_boundary cfg r s).reconnect_requested ≡ s.reconnect_requested
unfolding cross_boundary
cross_flags cfg r s =
    let (g, target) = devfee_take_transition cfg r.take_at (pos s.current) s.globals in
    switch_flags target (set_globals g s)

-- A round may raise a request, but the one of the hidden slot is never taken back.
abbrev Up : ℕ → Session → Type 0
Up k s = s.reconnect_requested k ≡ true

open_flags :
    (r : Round) (s : Session)
    → (stratum_open_pool_connection r s).0.reconnect_requested ≡ s.reconnect_requested
unfolding stratum_open_pool_connection set_pool
open_flags r s = ground arith

redirect_flags :
    (redirect : Option (List ℕ)) (k : ℕ) (s : Session) → Up k s → Up k (follow_redirect redirect s)
unfolding follow_redirect set_pool
redirect_flags none k s h = h
redirect_flags (some []) k s h = h
redirect_flags (some (c ∷ url)) k s h = ground arith

heard_flags :
    (r : Round) (now k : ℕ) (h : Heard) (s : Session) → Up k s → Up k (take_heard r now h s).0
unfolding take_heard
heard_flags r now k (line redirect handled) s up = redirect_flags redirect k s up
heard_flags r now k (silence timed_out silent_for pinged) s up = up

turn_flags : (r : Round) (t : Turn) (k : ℕ) (s : Session) → Up k s → Up k (message_turn r t s).0
unfolding message_turn
turn_flags r t k s up =
    let s' = note_reconnect t.reconnect (note_abort t.abort s) in
    let up' : Up k s' = ground (arith, up) in
    ground (arith, up', heard_flags r t.deadline_at k t.heard s' up')

turns_flags : (r : Round) (ts : List Turn) (k : ℕ) (s : Session) → Up k s → Up k (turns_from r ts s)
unfolding turns_from
turns_flags r [] k s up = up
turns_flags r (t ∷ ts) k s up =
    let (s', go_on) = message_turn r t s in
    let up' = turn_flags r t k s up in
    if-choice (λ (out : Session). Up k out) go_on {x = turns_from r ts s'} {y = s'}
      (turns_flags r ts k s' up') up'

loop_flags : (r : Round) (k : ℕ) (s : Session) → Up k s → Up k (stratum_run_message_loop r s)
unfolding stratum_run_message_loop
loop_flags r k s up = turns_flags r r.turns k s up

-- Handling a lost session takes the request of the current pool at most, and none when told to stop.
handle-Up :
    (opt_retries : ℤ) (k : ℕ) (r : Round) (s : Session)
    → (k ≢ s.current) ⊎ (s.aborted ≡ true)
    → Up k s
    → Up k (stratum_handle_disconnected_session opt_retries r s).0
unfolding stratum_handle_disconnected_session
handle-Up opt_retries k r s h up = ground arith

off_slot :
    (k : ℕ) (s : Session)
    → HasPlace k s
    → devfee_is_dev_pool s.globals.devfee (pos s.current) ≡ false
    → k ≢ s.current
off_slot k s v off = elim v.place [
  | inl home ↦ λ e. usable-ne k s.current s.globals v.slot home.1 (sym e)
  | inr away ↦ cc (is_dev-Away k s.current s.globals v.slot away)
]

failed-Up :
    (cfg : Settings) (opt_retries : ℤ) (k : ℕ) (r : Round) (s : Session)
    → HasPlace k s
    → Up k s
    → Up k (after_failed_setup cfg opt_retries r s).0
unfolding after_failed_setup
failed-Up cfg opt_retries k r s v up =
    elim (Bool-cases (devfee_is_dev_pool s.globals.devfee (pos s.current))) [
      | inl e ↦ rw (e, leave_flags cfg r s) up
      | inr e ↦ rw e (handle-Up opt_retries k r s (inl (off_slot k s v e)) up)
    ]

stop_or_off : (stop slot : Bool) → (slot && not stop) ≡ false → (stop ≡ true) ⊎ (slot ≡ false)
stop_or_off stop slot h = ground arith

lost-Up :
    (opt_retries : ℤ) (k : ℕ) (r : Round) (s : Session)
    → HasPlace k s
    → (devfee_is_dev_pool s.globals.devfee (pos s.current) && not s.aborted) ≡ false
    → Up k s
    → Up k (stratum_handle_disconnected_session opt_retries r s).0
lost-Up opt_retries k r s v h up =
    elim (stop_or_off s.aborted (devfee_is_dev_pool s.globals.devfee (pos s.current)) h) [
      | inl stop ↦ handle-Up opt_retries k r s (inr stop) up
      | inr off ↦ handle-Up opt_retries k r s (inl (off_slot k s v off)) up
    ]

session-Up :
    (cfg : Settings) (opt_retries : ℤ) (k : ℕ) (r : Round) (s0 : Session)
    → HasPlace k s0
    → Up k s0
    → Up k (after_session cfg opt_retries r s0).0
unfolding after_session
session-Up cfg opt_retries k r s0 v0 up0 =
    let s = note_reconnect r.reconnect_due (note_abort r.abort_due s0) in
    let up : Up k s = ground (arith, up0) in
    let v : HasPlace k s = record { slot = v0.slot; place = v0.place } in
    let slot = devfee_is_dev_pool s.globals.devfee (pos s.current) && not s.aborted in
    if-choice (λ (out : Session × Bool). Up k out.0)
      (devfee_transition_due r.due_at s.globals.devfee
        && not s.aborted
        && not (s.reconnect_requested s.current))
      {x = (cross_boundary cfg r s, true)} (rw (cross_flags cfg r s) up)
      (elim (Bool-cases slot) [
        | inl e ↦ rw (e, leave_flags cfg r s) up
        | inr e ↦ rw e (lost-Up opt_retries k r s v e up)
      ])

round-Up :
    (cfg : Settings) (opt_retries : ℤ) (k : ℕ) (r : Round) (s : Session) (opened : Bool)
    → HasPlace k s
    → Up k s
    → Up k
        (if not opened
          then after_failed_setup cfg opt_retries r s
          else after_session cfg opt_retries r
              (stratum_run_message_loop r (stratum_reset_retry_cycle s))).0
unfolding stratum_reset_retry_cycle
round-Up cfg opt_retries k r s false v up = failed-Up cfg opt_retries k r s v up
round-Up cfg opt_retries k r s true v up =
    let s' = stratum_reset_retry_cycle s in
    session-Up cfg opt_retries k r _
      (Undisturbed-Inv k s' _ (message_loop-Undisturbed r s')
        (record { slot = v.slot; place = v.place }))
      (loop_flags r k s' up)

service_round-Up :
    (cfg : Settings) (opt_retries : ℤ) (k : ℕ) (r : Round) (s0 : Session)
    → HasPlace k s0
    → Up k s0
    → Up k (service_round cfg opt_retries r s0).0
unfolding service_round
service_round-Up cfg opt_retries k r s0 v0 up =
    let s = note_abort r.abort_top s0 in
    let v : HasPlace k s = record { slot = v0.slot; place = v0.place } in
    let s' = (stratum_open_pool_connection r s).0 in
    if-choice (λ (out : Session × Bool). Up k out.0) s.aborted up
      (round-Up cfg opt_retries k r s' _ (Undisturbed-Inv k s s' (open_pool-Undisturbed r s) v)
        (rw (open_flags r s) up))

-- With the fee installed and the thread in its place, a reconnect request that was once raised in the
-- hidden slot is never taken: it is still up after any rounds of the service thread, whatever they meet.
pub slot_request_sticks :
    (cfg : Settings) (opt_retries : ℤ) (k : ℕ) (rounds : List Round) (s : Session)
    → Inv k s.globals s.current
    → s.reconnect_requested k ≡ true
    → (service_run cfg opt_retries rounds s).0.reconnect_requested k ≡ true
unfolding service_run
slot_request_sticks cfg opt_retries k [] s v up = up
slot_request_sticks cfg opt_retries k (r ∷ rs) s v up =
    let (s', go_on) = service_round cfg opt_retries r s in
    let up' = service_round-Up cfg opt_retries k r s v up in
    let rest =
      slot_request_sticks cfg opt_retries k rs s' (service_round-Inv cfg opt_retries k r s v) up' in
    if-choice (λ (out : Session × Bool). Up k out.0) go_on {x = service_run cfg opt_retries rs s'}
      {y = (finish s', false)} rest up'
