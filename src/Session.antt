-- ===== src/Session.antt =====
-- src/stratum_session.cpp: the service thread, which moves between the pools on failures and at the
-- boundaries of the dev fee. A round of its loop is a function of the state and of what the round
-- meets: whether the pool answers, the turns of the message loop, the clock at each read, and the
-- flags that other threads raise meanwhile. They are never cleared by other threads, so the value at
-- each read is the flag or what has come since.
pub mod Failover
pub mod Steps
pub mod Hidden
pub mod Boundary
pub mod Places
pub mod Returns
pub mod Flags
pub mod Reconnect
pub mod Retries
pub mod Handling
pub mod Spin
pub mod Limit
mod Tests
use primo_arm_miner.Prelude.{
  ℕ, zero, suc, ◌+◌, ◌%◌, Bool, true, false, not, ◌&&◌, ◌||◌, Option, none, some, List, [], ◌∷◌,
  ltb, leb, ◌==◌, if◌then◌else◌, Bytes, update,
}
use primo_arm_miner.Prelude.Int.{ℤ, pos, negsuc, ltb_ℤ, pos_part, eq_ℤ}
use primo_arm_miner.Pools.{
  PoolInfos, PoolTable, usable_at, miner_pool_is_usable, is_empty, snprintf_str, stratum_set_url,
}
use primo_arm_miner.DevFee.{
  Settings, Globals, devfee_is_dev_pool, devfee_transition_due, devfee_take_transition,
  devfee_advance_target, devfee_abort_slice,
}
pub use primo_arm_miner.Service.{Session, Round, note_abort, note_reconnect}
unfoldable pub use primo_arm_miner.Service.{set_pool, stratum_run_message_loop}

-- The loop of `stratum_find_next_pool_index` with `rounds` offsets left to try.
unfoldable pub next_from : PoolTable → ℕ → ℕ → ℕ → ℕ
next_from t current zero offset = current
next_from t current (suc rounds) offset =
    if miner_pool_is_usable t (pos ((current + offset) % t.num_pools))
    then (current + offset) % t.num_pools
    else next_from t current rounds (offset + 1)

rounds_of : ℕ → ℕ
rounds_of zero = 0
rounds_of (suc n) = n

unfoldable pub stratum_find_next_pool_index : PoolTable → ℕ → ℕ
unfolding next_from rounds_of
stratum_find_next_pool_index t current =
    if leb t.num_pools 1 then current else next_from t current (rounds_of t.num_pools) 1

-- The switch itself, to an index that passed the guard.
move_to : ℕ → Session → Session
move_to i s = record s {
  current = i;
  thread_active = update (update s.thread_active s.current false) i true;
  current_pool_index = i;
}

unfoldable pub stratum_switch_to_pool : ℤ → Session → Session × Bool
unfolding move_to
stratum_switch_to_pool (negsuc n) s = (s, false)
stratum_switch_to_pool (pos i) s =
    if leb s.globals.table.num_pools i || i == s.current then (s, false) else (move_to i s, true)

unfoldable pub stratum_reset_retry_cycle : Session → Session
stratum_reset_retry_cycle s = record s { retry_count = 0; retry_cycle_start = s.current }

-- `opt_retries` is negative for no limit. The sleep ends early if the abort flag rises.
unfoldable pub stratum_wait_before_retry : ℤ → Bool → Session → Session × Bool
stratum_wait_before_retry opt_retries later s =
    if not (ltb_ℤ opt_retries (pos 0)) && ltb_ℤ opt_retries (pos s.retry_count)
    then (record s { aborted = true }, false)
    else (note_abort later s, not (note_abort later s).aborted)

unfoldable pub stratum_take_reconnect_request : Session → Session × Bool
stratum_take_reconnect_request s = (
  record s { reconnect_requested = update s.reconnect_requested s.current false },
  s.reconnect_requested s.current,
)

-- The retry branch: wait, then move on if another pool was found.
retry_same_or_next : ℤ → Round → ℕ → Session → Session × Bool
unfolding stratum_wait_before_retry stratum_switch_to_pool
retry_same_or_next opt_retries r next s =
    let available = not (next == s.current) in
    let (waited, go_on) =
      stratum_wait_before_retry opt_retries r.abort_wait
        (record s { retry_count = s.retry_count + 1 }) in
    let (moved, switched) =
      if available then stratum_switch_to_pool (pos next) waited else (waited, true) in
    if not go_on
    then (waited, false)
    else if not switched
    then (moved, false)
    else (record moved { retry_cycle_start = moved.current }, true)

unfoldable pub stratum_handle_disconnected_session : ℤ → Round → Session → Session × Bool
unfolding retry_same_or_next stratum_take_reconnect_request stratum_reset_retry_cycle
stratum_handle_disconnected_session opt_retries r s0 =
    let s = note_reconnect r.reconnect_lost (note_abort r.abort_lost s0) in
    let next = stratum_find_next_pool_index s.globals.table s.current in
    let available = not (next == s.current) in
    let wrapped = available && next == s.retry_cycle_start in
    let (s', requested) = stratum_take_reconnect_request s in
    if s.aborted
    then (s, false)
    else if requested
    then (stratum_reset_retry_cycle s', true)
    else if available && not wrapped
    then stratum_switch_to_pool (pos next) s'
    else retry_same_or_next opt_retries r next s'

-- stratum_open_pool_connection: the session's URL is filled in if it is missing; then the handshake
-- succeeds or not.
fill_url : PoolInfos → PoolInfos
unfolding stratum_set_url
fill_url pool = if is_empty pool.stratum_url then stratum_set_url pool pool.url else pool

unfoldable pub stratum_open_pool_connection : Round → Session → Session × Bool
unfolding fill_url set_pool
stratum_open_pool_connection r s =
    let pool = s.globals.table.pools s.current in
    if is_empty pool.stratum_url && is_empty pool.url
    then (s, false)
    else (set_pool s.current (fill_url pool) s, r.opened)

abbrev pub set_globals : Globals → Session → Session
set_globals g s = record s { globals = g }

-- The dev pool is down or lost: try its next target, or give the slice up and go back.
unfoldable pub leave_dev_pool : Settings → Round → Session → Session
unfolding stratum_switch_to_pool
leave_dev_pool cfg r s =
    let (g, advanced) = devfee_advance_target cfg r.advance_at s.globals in
    let (g', user_pool) = devfee_abort_slice r.abandon_at g in
    if advanced then set_globals g s else (stratum_switch_to_pool user_pool (set_globals g' s)).0

-- The boundary of a slice: the pool that the scheduler names.
unfoldable pub cross_boundary : Settings → Round → Session → Session
unfolding stratum_switch_to_pool
cross_boundary cfg r s =
    let (g, target) = devfee_take_transition cfg r.take_at (pos s.current) s.globals in
    (stratum_switch_to_pool target (set_globals g s)).0

-- The round from the end of the message loop on.
unfoldable pub after_session : Settings → ℤ → Round → Session → Session × Bool
after_session cfg opt_retries r s0 =
    let s = note_reconnect r.reconnect_due (note_abort r.abort_due s0) in
    if devfee_transition_due r.due_at s.globals.devfee
      && not s.aborted
      && not (s.reconnect_requested s.current)
    then (cross_boundary cfg r s, true)
    else if devfee_is_dev_pool s.globals.devfee (pos s.current) && not s.aborted
    then (leave_dev_pool cfg r s, true)
    else stratum_handle_disconnected_session opt_retries r s

-- The round from the failed setup on.
unfoldable pub after_failed_setup : Settings → ℤ → Round → Session → Session × Bool
after_failed_setup cfg opt_retries r s =
    if devfee_is_dev_pool s.globals.devfee (pos s.current)
    then (leave_dev_pool cfg r s, true)
    else stratum_handle_disconnected_session opt_retries r s

-- One round of the loop of stratum_service_thread; false means that the loop ends.
unfoldable pub service_round : Settings → ℤ → Round → Session → Session × Bool
service_round cfg opt_retries r s0 =
    let s = note_abort r.abort_top s0 in
    let (s', opened) = stratum_open_pool_connection r s in
    if s.aborted
    then (s, false)
    else if not opened
    then after_failed_setup cfg opt_retries r s'
    else after_session cfg opt_retries r (stratum_run_message_loop r (stratum_reset_retry_cycle s'))

-- The loop over the rounds that it is given; at its end the current context is not active any more.
abbrev pub finish : Session → Session
finish s = record s { thread_active = update s.thread_active s.current false }

unfoldable pub service_run : Settings → ℤ → List Round → Session → Session × Bool
service_run cfg opt_retries [] s = (s, true)
service_run cfg opt_retries (r ∷ rs) s =
    let (s', go_on) = service_round cfg opt_retries r s in
    let rest = service_run cfg opt_retries rs s' in if go_on then rest else (finish s', false)
