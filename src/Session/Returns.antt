-- ===== src/Session/Returns.antt =====
-- The end of a dev slice in stratum_service_thread: the pool that the thread goes back to, and what the
-- slice leaves of the retry bookkeeping.
use primo_arm_miner.Prelude.{ℕ, ◌<◌, ◌≡◌, refl, ap, ◌∙◌, Bool, true, false, not, ◌&&◌, ◌||◌, arith}
use primo_arm_miner.Prelude.Int.{ℤ, pos, negsuc}
use primo_arm_miner.Pools.{usable_at}
use primo_arm_miner.DevFee.{
  Settings, devfee_is_dev_pool, devfee_transition_due, devfee_take_transition,
}
use primo_arm_miner.Session.{
  Session, Round, note_abort, note_reconnect, stratum_switch_to_pool, leave_dev_pool,
  cross_boundary, after_session, set_globals,
}
use primo_arm_miner.Session.Hidden.{Away, Hidden, usable-ne, usable-lt, switch_moves}
use primo_arm_miner.Session.Boundary.{end_lem}
use primo_arm_miner.Session.Places.{is_dev-Away}

stop_at_request : (a b c : Bool) → c ≡ true → (a && not b && not c) ≡ false
stop_at_request a b c h = ground arith

pass_request : (a b c : Bool) → a ≡ true → b ≡ false → c ≡ false → (a && not b && not c) ≡ true
pass_request a b c h h' h'' = ground arith

both_on : (a b c : Bool) → a ≡ true → b ≡ false → c ≡ false → (a && not (b || c)) ≡ true
both_on a b c h h' h'' = ground arith

neither : (b c : Bool) → b ≡ false → c ≡ false → (b || c) ≡ false
neither b c h h' = ground arith

-- Within a slice, with no stop asked for, a pending request in the slot cuts the slice short: whatever
-- the clock says, the thread takes its pool for lost, and does not take the boundary of the slice.
stale_request_cuts_slice :
    (cfg : Settings) (opt_retries : ℤ) (k : ℕ) (r : Round) (s : Session)
    → Hidden k s.globals
    → Away k s.globals s.current
    → s.aborted ≡ false
    → r.abort_due ≡ false
    → s.reconnect_requested k ≡ true
    → after_session cfg opt_retries r s
      ≡ (leave_dev_pool cfg r (note_reconnect r.reconnect_due (note_abort r.abort_due s)), true)
unfolding after_session
stale_request_cuts_slice cfg opt_retries k r s v a run quiet up =
    let s' = note_reconnect r.reconnect_due (note_abort r.abort_due s) in
    let here : s.reconnect_requested s.current ≡ true = rw a.1 up in
    let up' : s'.reconnect_requested s'.current ≡ true = ground (arith, here) in
    let dev = is_dev-Away k s.current s.globals v a in
    let due = devfee_transition_due r.due_at s.globals.devfee in
    let stays : (due && not (s.aborted || r.abort_due) && not (s'.reconnect_requested s'.current))
        ≡ false =
      stop_at_request due (s.aborted || r.abort_due) _ up' in
    let lost : (devfee_is_dev_pool s.globals.devfee (pos s.current)
          && not (s.aborted || r.abort_due))
        ≡ true =
      both_on _ _ _ dev run quiet in
    rw (stays, lost) refl

switch_kept :
    (next : ℤ) (s : Session)
    → let s' = (stratum_switch_to_pool next s).0 in
      (s'.retry_cycle_start ≡ s.retry_cycle_start) × (s'.aborted ≡ s.aborted)
unfolding stratum_switch_to_pool
switch_kept (pos i) s = ground arith
switch_kept (negsuc i) s = (refl, refl)

-- At the boundary that ends a slice whose retry cycle was recorded as beginning in the slot, with no
-- stop and no reconnect pending: the thread is back on the pool that it remembered, the slice is over,
-- and the retry cycle still begins in the slot.
slice_end_leaves_cycle_in_slot :
    (cfg : Settings) (opt_retries : ℤ) (k u : ℕ) (r : Round) (s : Session)
    → Hidden k s.globals
    → s.globals.devfee.in_slice ≡ true
    → s.current ≡ k
    → s.globals.devfee.user_pool_index ≡ pos u
    → usable_at s.globals.table u ≡ true
    → s.retry_cycle_start ≡ k
    → s.aborted ≡ false
    → r.abort_due ≡ false
    → r.reconnect_due ≡ false
    → s.reconnect_requested k ≡ false
    → devfee_transition_due r.due_at s.globals.devfee ≡ true
    → let (s', go_on) = after_session cfg opt_retries r s in
      (go_on ≡ true)
      × (s'.current ≡ u)
      × (s'.globals.devfee.in_slice ≡ false)
      × (s'.retry_cycle_start ≡ k)
      × (s'.aborted ≡ false)
unfolding after_session cross_boundary
slice_end_leaves_cycle_in_slot cfg opt_retries k u r s v inside here back usable start run quiet
      calm flag late =
    let s' = note_reconnect r.reconnect_due (note_abort r.abort_due s) in
    let down : s.reconnect_requested s.current ≡ false = rw here flag in
    let flag' : s'.reconnect_requested s'.current ≡ false = ground (arith, down) in
    let due : (devfee_transition_due r.due_at s.globals.devfee
          && not (s.aborted || r.abort_due)
          && not (s'.reconnect_requested s'.current))
        ≡ true =
      pass_request _ _ _ late (neither s.aborted r.abort_due run quiet) flag' in
    let g = (devfee_take_transition cfg r.take_at (pos s.current) s.globals).0 in
    let (target, same, after) = end_lem cfg k r.take_at (pos s.current) s.globals inside in
    let lt : u < g.table.num_pools = rw same (usable-lt u s.globals.table usable) in
    let (moved, globals, there) =
      switch_moves u _ (set_globals g s') (target ∙ back) lt
        (λ q. usable-ne k u s.globals v usable (q ∙ here)) in
    let kept =
      switch_kept (devfee_take_transition cfg r.take_at (pos s.current) s.globals).1
        (set_globals g s') in
    rw due (
      refl,
      there,
      ap (λ x. x.devfee.in_slice) globals ∙ ap (λ x. x.in_slice) after,
      kept.0 ∙ start,
      kept.1 ∙ neither s.aborted r.abort_due run quiet,
    )
