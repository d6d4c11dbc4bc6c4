-- ===== src/Monero/Tests.antt =====
-- An instance: a job of the Monero dialect.
use primo_arm_miner.Prelude.{◌≡◌, ◌⊎◌, true, some, [], ◌∷◌, arith, codes, replicate}
use primo_arm_miner.Prelude.Int.{pos}
use primo_arm_miner.Json.Sample.{Value, text, integer, object, members, sample_json}
use primo_arm_miner.Job.Decode.{Refused}
use primo_arm_miner.Peer.Sample.{session, runtime}
use primo_arm_miner.Monero.{XmrJobView, xmr_stratum_handle_job}
use primo_arm_miner.Monero.Jobs.{ParsedJob, XmrPublished, xmr_stratum_handle_job_lem}

abbrev job : Value
job = object (
    members (
      (codes "job_id", text (codes "m1"))
      ∷ (codes "blob", text (replicate 152 b'0'))
      ∷ (codes "target", text (codes "b88d0600"))
      ∷ (codes "seed_hash", text (replicate 64 b'e'))
      ∷ (codes "height", integer (pos 3000000))
      ∷ []))

xmr_stratum_handle_job_lem_example :
    let (s', r', result) = xmr_stratum_handle_job (λ n. n) sample_json (some job) session runtime in
    Refused session s' runtime r' result
    ⊎ ((result ≡ true)
        × (v : XmrJobView) × ParsedJob sample_json (some job) v
        × XmrPublished (λ n. n) v session r')
xmr_stratum_handle_job_lem_example =
    xmr_stratum_handle_job_lem (λ n. n) sample_json (some job) session runtime (omega arith)
