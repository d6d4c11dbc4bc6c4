-- ===== src/Service/Receive.antt =====
-- How long the thread waits for a line.
use primo_arm_miner.Prelude.{◌+◌, ℕ, ◌≤◌, ◌<◌, ◌≡◌, true, arith}
use primo_arm_miner.Pools.{miner_get_pool_timeout}
use primo_arm_miner.Pools.Usable.{miner_get_pool_timeout_pos}
use primo_arm_miner.DevFee.{devfee_seconds_until_transition}
use primo_arm_miner.Service.{Session, Round, idle_timeout, devfee_bounded, receive_timeout}

-- A wait for a line is at least a second and at most the pool's timeout; and while the fee is on and
-- its boundary is not reached, the wait does not go past the boundary, nor does one that a keepalive
-- is due in go past that.
pub receive_timeout_bounds :
    (r : Round) (now : ℕ) (s : Session)
    → let d = s.globals.devfee in
      let own = miner_get_pool_timeout r.opt_timeout s.globals.table s.current in
      (1 ≤ receive_timeout r now s)
      × (receive_timeout r now s ≤ own)
      × (r.idle_keepalive ≡ true → receive_timeout r now s ≤ 60)
      × (d.enabled ≡ true
          → now < d.next_transition
          → now + receive_timeout r now s ≤ d.next_transition)
unfolding receive_timeout idle_timeout devfee_bounded devfee_seconds_until_transition
receive_timeout_bounds r now s =
    ground (arith, miner_get_pool_timeout_pos r.opt_timeout s.globals.table s.current)
