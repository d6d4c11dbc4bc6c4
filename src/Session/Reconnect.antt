-- ===== src/Session/Reconnect.antt =====
-- A reconnect request on a pool of the user, in stratum_handle_disconnected_session.
use primo_arm_miner.Prelude.{ℕ, ◌≡◌, true, false, arith}
use primo_arm_miner.Prelude.Int.{ℤ}
use primo_arm_miner.DevFee.{Settings}
use primo_arm_miner.Session.{Session, Round, stratum_handle_disconnected_session, after_session}
use primo_arm_miner.Session.Hidden.{Hidden, AtHome}
use primo_arm_miner.Session.Places.{is_dev_home}

-- On a usable pool of the user, outside a slice and with no stop asked for, a reconnect request is met in place: the same pool is tried again at once, with
-- a new retry cycle, and the request is taken.
reconnect_taken :
    (cfg : Settings) (opt_retries : ℤ) (k : ℕ) (r : Round) (s : Session)
    → Hidden k s.globals
    → AtHome s.globals s.current
    → s.aborted ≡ false
    → r.abort_due ≡ false
    → r.abort_lost ≡ false
    → s.reconnect_requested s.current ≡ true
    → let (s', go_on) = after_session cfg opt_retries r s in
      (go_on ≡ true)
      × (s'.current ≡ s.current)
      × (s'.globals ≡ s.globals)
      × (s'.retry_count ≡ 0)
      × (s'.retry_cycle_start ≡ s.current)
      × (s'.reconnect_requested s.current ≡ false)
unfolding after_session stratum_handle_disconnected_session
reconnect_taken cfg opt_retries k r s v home a b c up =
    ground (arith, is_dev_home k s.current s.globals v home)
