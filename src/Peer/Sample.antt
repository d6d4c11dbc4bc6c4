-- ===== src/Peer/Sample.antt =====
-- A session with its settings, for the tests: a hash of 32 fixed bytes, and natural numbers for difficulties.
use primo_arm_miner.Prelude.{ℕ, ◌/◌, true, false, Option, none, some, [], ◌∷◌, ltb, replicate}
use primo_arm_miner.Prelude.Int.{ℤ, pos, negsuc}
use primo_arm_miner.Json.Sample.{integer_value, sample_json}
use primo_arm_miner.DevFee.{initial_devfee}
use primo_arm_miner.DevFee.Targets.{Algo}
use primo_arm_miner.Publish.{RuntimeState, zero_work}
use primo_arm_miner.Submit.{entry}
use primo_arm_miner.Reply.{Books}
use primo_arm_miner.Job.{StratumJob, StratumCtx, WorkBody, zero_memory}
use primo_arm_miner.Peer.{Settings, Peer, Moment}

abbrev number : Option ℤ → ℕ
number none = 0
number (some (pos n)) = n
number (some (negsuc n)) = 0

abbrev pub settings : Algo → Settings ℕ sample_json
settings opt_algo = record {
  opt_algo = opt_algo;
  opt_n_threads = 4;
  num_pools = 2;
  use_tls = false;
  zero = 0;
  one = 1;
  devfee = initial_devfee;
  json_number_value = λ v. number (integer_value v);
  is_positive = λ n. ltb 0 n;
  sha256d_neon = λ message. replicate 32 7;
  targets = record { diff_to_target = λ n. n ∷ []; over_65536 = λ n. n / 65536 };
  verus_targets = record { diff_of_bits = λ n. n; diff_to_target_verus = λ n. n ∷ [] };
  diff_of_target = λ n. n;
}

abbrev no_job : StratumJob ℕ
no_job = record {
  job_id = none;
  prevhash = replicate 32 0;
  coinbase = [];
  xnonce2 = 0;
  merkle = [];
  version = replicate 4 0;
  nbits = replicate 4 0;
  ntime = replicate 4 0;
  height = 0;
  diff = 1;
  solution = replicate 1344 0;
  rx_blob = [];
  rx_target64 = 0;
}

abbrev pub session : StratumCtx ℕ
session = record {
  next_diff = 16;
  session_id = none;
  xnonce1 = 1 ∷ 2 ∷ 3 ∷ 4 ∷ [];
  xnonce2_size = 4;
  job = no_job;
  pooln = 0;
  is_verus_protocol = false;
  xmr_nicehash = false;
  srvtime_diff = pos 0;
  authenticated = true;
}

abbrev pub no_body : WorkBody ℕ
no_body = record {
  bytes = zero_memory;
  xnonce2 = [];
  targetdiff = 0;
  solution = [];
  rx_blob_len = 0;
  rx_nonce_mask = 0;
}

abbrev pub runtime : RuntimeState (WorkBody ℕ)
runtime = record {
  generation = 0;
  current_work = zero_work no_body;
  work_ready = false;
  last_job_id = [];
  work_updates_total = 0;
  work_updates_clean = 0;
  work_restart_total = 0;
  work_restart_clean = 0;
  work_restart_height = 0;
  work_restart_target = 0;
}

abbrev books : Books ℕ
books = record {
  submits = record {
    next_submit_id = 12;
    pending_submits = entry 50 11 7 (pos 0) ∷ [];
    reconnect_requested = false;
    connected = true;
    shut_down = false;
  };
  stats = record {
    share_accepted_total = 0;
    share_rejected_total = 0;
    accepted_count = λ i. 0;
    rejected_count = λ i. 0;
  };
  thread_accepted = λ i. 0;
  thread_rejected = λ i. 0;
}

abbrev pub peer : Peer ℕ sample_json
peer = record { ctx = session; runtime = runtime; books = books; outbox = []; redirect = none }

abbrev pub moment : Moment
moment = record { now = 100; sends = true }
