-- ===== src/Verus/Tests.antt =====
-- Instances: a Verus notify that is taken whole, and a share of a work.
use primo_arm_miner.Prelude.{
  ℕ, ◌<◌, refl, arith, some, [], ◌∷◌, codes, replicate, length-replicate, All-replicate,
}
use primo_arm_miner.Prelude.Memory.{IsByte, memcpy, memcpy-IsByte, read, store_word}
use primo_arm_miner.Job.{StratumCtx, WorkBody, zero_memory}
use primo_arm_miner.Publish.{PublishedWork, zero_work}
use primo_arm_miner.Peer.Sample.{no_body}
use primo_arm_miner.Verus.{verus_validate_nonce_layout}
use primo_arm_miner.Verus.Payload.{IsPayload}
use primo_arm_miner.Verus.Share.{VerusShare, verus_submit_params_lem}
use primo_arm_miner.Json.Sample.{Value, text, array, truth, items, sample_json}
use primo_arm_miner.DevFee.Targets.{verus}
use primo_arm_miner.Peer.Sample.{settings, session, runtime}
use primo_arm_miner.Verus.{parse_verus_notify, verus_stratum_notify}
use primo_arm_miner.Verus.Outcome.{VerusOutcome, verus_stratum_notify_lem}

abbrev params : Value
params = array (
    items (
      text (codes "v1")
      ∷ text (codes "04000100")
      ∷ text (replicate 64 b'a')
      ∷ text (replicate 64 b'b')
      ∷ text (replicate 64 b'c')
      ∷ text (codes "60000000")
      ∷ text (codes "1d00ffff")
      ∷ truth
      ∷ text (codes "0700")
      ∷ []))

verus_stratum_notify_lem_example :
    VerusOutcome
      (settings verus).verus_targets
      (parse_verus_notify sample_json (some params))
      session
      runtime
      (verus_stratum_notify
        (settings verus).verus_targets
        sample_json
        100
        (some params)
        session
        runtime)
verus_stratum_notify_lem_example =
    verus_stratum_notify_lem (settings verus).verus_targets sample_json 100 (some params) session
      runtime

abbrev verus_session : StratumCtx ℕ
verus_session = record session { xnonce2_size = 28 }

abbrev work : PublishedWork (WorkBody ℕ)
work = record (zero_work no_body) {
  job_id = codes "v1";
  payload = record no_body {
    bytes = memcpy 108 (1 ∷ 2 ∷ 3 ∷ 4 ∷ []) zero_memory;
    solution = replicate 1344 0;
  };
}

zeros-IsPayload : IsPayload (replicate 1388 0) (replicate 15 0) (replicate 1344 0)
zeros-IsPayload = record {
  extra_size = length-replicate {A = ℕ} 1388 0;
  tail_size = length-replicate {A = ℕ} 15 0;
  solution_size = length-replicate {A = ℕ} 1344 0;
  extra_bytes = All-replicate IsByte 1388 0 (omega arith);
  tail_bytes = All-replicate IsByte 15 0 (omega arith);
  solution_bytes = All-replicate IsByte 1344 0 (omega arith);
}

work-bytes : (k : ℕ) → work.payload.bytes k < 256
work-bytes =
    memcpy-IsByte 108 (1 ∷ 2 ∷ 3 ∷ 4 ∷ []) zero_memory
      (omega arith, (omega arith, (omega arith, (omega arith, tt)))) (λ k. omega arith)

verus_submit_params_lem_example :
    VerusShare
      (codes "user")
      77
      (replicate 1388 0)
      (replicate 15 0)
      verus_session
      work
      (store_word 30 77 work.payload.bytes)
unfolding verus_validate_nonce_layout read memcpy
verus_submit_params_lem_example =
    verus_submit_params_lem (codes "user") 77 (replicate 1388 0) (replicate 15 0) verus_session work
      refl work-bytes refl zeros-IsPayload
