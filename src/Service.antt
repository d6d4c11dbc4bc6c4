-- ===== src/Service.antt =====
-- The state of the service thread (src/stratum_session.cpp, include/miner.h), and the loop in which it
-- reads a pool's lines.
pub mod Receive
mod Tests
use primo_arm_miner.Prelude.{
  ℕ, ◌+◌, Bool, true, false, not, ◌&&◌, ◌||◌, Option, none, some, List, [], ◌∷◌, ltb, if◌then◌else◌,
  Bytes, update,
}
use primo_arm_miner.Prelude.Int.{ℤ, pos, ltb_ℤ, pos_part}
use primo_arm_miner.Pools.{
  PoolInfos, PoolTable, snprintf_str, stratum_set_url, miner_get_pool_timeout,
}
use primo_arm_miner.DevFee.{Globals, devfee_transition_due, devfee_seconds_until_transition}

-- The thread's variables `pool` and `sctx` are the index `current`: stratum_init_context gives the
-- context of slot i the number i.
pub record Session : Type 0 where
  pub globals : Globals
  pub current : ℕ
  pub reconnect_requested : ℕ → Bool
  pub thread_active : ℕ → Bool
  pub current_pool_index : ℕ
  pub retry_count : ℕ
  pub retry_cycle_start : ℕ
  pub aborted : Bool

-- What a wait for a line comes to: a line, with the redirect that it carries if it is a valid
-- client.reconnect and whether its handler succeeds; or none, by a timeout or not, after so many
-- seconds of silence, and whether the keepalive can be sent.
pub data Heard : Type 0 where
  line : (redirect : Option Bytes) (handled : Bool) → Heard
  silence : (timed_out : Bool) (silent_for : ℕ) (pinged : Bool) → Heard

-- A turn of the message loop: the flags that other threads raise before its tests, the clock at its
-- two looks at the boundary, and the wait.
pub record Turn : Type 0 where
  pub abort : Bool
  pub reconnect : Bool
  pub due_at : ℕ
  pub deadline_at : ℕ
  pub heard : Heard

-- What one round of the service thread meets, in the order of the reads: the outcome of the setup, the
-- turns of the message loop, whose last one ends it, and the later tests.
pub record Round : Type 0 where
  pub abort_top : Bool
  pub opened : Bool
  pub opt_timeout : ℕ
  pub idle_keepalive : Bool
  pub turns : List Turn
  pub abort_due : Bool
  pub reconnect_due : Bool
  pub due_at : ℕ
  pub take_at : ℕ
  pub advance_at : ℕ
  pub abandon_at : ℕ
  pub abort_lost : Bool
  pub reconnect_lost : Bool
  pub abort_wait : Bool

abbrev pub note_abort : Bool → Session → Session
note_abort b s = record s { aborted = s.aborted || b }

abbrev pub note_reconnect : Bool → Session → Session
note_reconnect b s = record s {
  reconnect_requested =
      update s.reconnect_requested s.current (s.reconnect_requested s.current || b);
}

unfoldable pub set_pool : ℕ → PoolInfos → Session → Session
set_pool i pool s = record s {
  globals = record s.globals {
    table = record s.globals.table { pools = update s.globals.table.pools i pool };
  };
}

-- stratum_reconnect (src/stratum_rpc.cpp), from the assembled URL on: both URLs of the current pool
-- become the new one, and the reconnect flag is up.
unfoldable pub redirected : Bool → Bytes → PoolInfos → PoolInfos
redirected listed url pool =
    let pool' = stratum_set_url pool url in
    record pool' { url = if listed then snprintf_str 512 url else pool'.url }

unfoldable pub follow_redirect : Option Bytes → Session → Session
follow_redirect none s = s
follow_redirect (some []) s = s
follow_redirect (some (c ∷ url)) s =
    let listed = ltb s.current s.globals.table.num_pools in
    note_reconnect true
      (set_pool s.current (redirected listed (c ∷ url) (s.globals.table.pools s.current)) s)

abbrev pub stratum_idle_keepalive_sec : ℕ
stratum_idle_keepalive_sec = 60

-- The bounds on a wait: the pool's timeout, the keepalive, and the boundary of the dev fee.
abbrev pub keepalive_bounded : Round → Session → Bool
keepalive_bounded r s =
    r.idle_keepalive
    && ltb stratum_idle_keepalive_sec
        (miner_get_pool_timeout r.opt_timeout s.globals.table s.current)

unfoldable pub idle_timeout : Round → Session → ℕ
idle_timeout r s =
    if keepalive_bounded r s
    then stratum_idle_keepalive_sec
    else miner_get_pool_timeout r.opt_timeout s.globals.table s.current

unfoldable pub devfee_bounded : Round → ℕ → Session → Bool
devfee_bounded r now s =
    let deadline = devfee_seconds_until_transition now s.globals.devfee in
    not (ltb_ℤ deadline (pos 0)) && ltb_ℤ deadline (pos (idle_timeout r s))

unfoldable pub receive_timeout : Round → ℕ → Session → ℕ
receive_timeout r now s =
    let deadline = pos_part (devfee_seconds_until_transition now s.globals.devfee) in
    if devfee_bounded r now s then (if ltb 0 deadline then deadline else 1) else idle_timeout r s

-- The two `continue`s after a wait without a line.
unfoldable pub waits_on : Round → ℕ → Bool → ℕ → Bool → Session → Bool
waits_on r now timed_out silent_for pinged s =
    (timed_out && devfee_bounded r now s)
    || (timed_out
        && keepalive_bounded r s
        && ltb silent_for (miner_get_pool_timeout r.opt_timeout s.globals.table s.current)
        && pinged)

-- What the thread does with what it heard: its state, and whether the loop goes on.
unfoldable pub take_heard : Round → ℕ → Heard → Session → Session × Bool
take_heard r now (line redirect handled) s = (follow_redirect redirect s, handled)
take_heard r now (silence timed_out silent_for pinged) s =
    (s, waits_on r now timed_out silent_for pinged s)

unfoldable pub message_turn : Round → Turn → Session → Session × Bool
message_turn r t s0 =
    let s = note_abort t.abort s0 in
    let s' = note_reconnect t.reconnect s in
    if s.aborted
    then (s, false)
    else if s'.reconnect_requested s'.current
    then (s', false)
    else if devfee_transition_due t.due_at s'.globals.devfee
    then (s', false)
    else take_heard r t.deadline_at t.heard s'

unfoldable pub turns_from : Round → List Turn → Session → Session
turns_from r [] s = s
turns_from r (t ∷ ts) s =
    let (s', go_on) = message_turn r t s in
    let rest = turns_from r ts s' in if go_on then rest else s'

unfoldable pub stratum_run_message_loop : Round → Session → Session
stratum_run_message_loop r s = turns_from r r.turns s
