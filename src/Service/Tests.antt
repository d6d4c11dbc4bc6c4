-- ===== src/Service/Tests.antt =====
-- Instances of the theorem on the waits: a slice boundary 20 seconds away.
use primo_arm_miner.Prelude.{◌+◌, ◌≤◌, ◌<◌, ◌≡◌, Bool, true, false, []}
use primo_arm_miner.Pools.{zero_pool, miner_get_pool_timeout}
use primo_arm_miner.DevFee.{initial_devfee}
use primo_arm_miner.Service.{Session, Round, receive_timeout}
use primo_arm_miner.Service.Receive.{receive_timeout_bounds}

abbrev session : Session
session = record {
  globals = record {
    table = record { pools = λ i. zero_pool; num_pools = 1 };
    devfee = record initial_devfee { enabled = true; next_transition = 120 };
  };
  current = 0;
  reconnect_requested = λ j. false;
  thread_active = λ j. true;
  current_pool_index = 0;
  retry_count = 0;
  retry_cycle_start = 0;
  aborted = false;
}

abbrev quiet : Round
quiet = record {
  abort_top = false;
  opened = true;
  opt_timeout = 300;
  idle_keepalive = true;
  turns = [];
  abort_due = false;
  reconnect_due = false;
  due_at = 100;
  take_at = 100;
  advance_at = 100;
  abandon_at = 100;
  abort_lost = false;
  reconnect_lost = false;
  abort_wait = false;
}

receive_timeout_bounds_example :
    (1 ≤ receive_timeout quiet 100 session)
    × (receive_timeout quiet 100 session ≤ miner_get_pool_timeout 300 session.globals.table 0)
    × (◌≡◌ {A = Bool} true true → receive_timeout quiet 100 session ≤ 60)
    × (◌≡◌ {A = Bool} true true → 100 < 120 → 100 + receive_timeout quiet 100 session ≤ 120)
receive_timeout_bounds_example = receive_timeout_bounds quiet 100 session
