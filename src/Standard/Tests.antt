-- ===== src/Standard/Tests.antt =====
-- Instances: a coinbase with a height, and a notify that is taken whole.
use primo_arm_miner.Prelude.Memory.{IsByte}
use primo_arm_miner.Prelude.{
  ℕ, length-replicate, All-replicate, ◌+◌, ◌*◌, ◌≡◌, refl, some, [], ◌∷◌, ◌++◌, arith, codes,
  replicate,
}
use primo_arm_miner.Json.Sample.{Value, text, array, truth, nil, items, sample_json}
use primo_arm_miner.DevFee.Targets.{sha256d}
use primo_arm_miner.Peer.Sample.{settings, session, runtime}
use primo_arm_miner.Standard.{parse_standard_notify, stratum_notify_standard}
use primo_arm_miner.Coinbase.{get_block_height}
use primo_arm_miner.Coinbase.Height.{get_block_height_lem}
use primo_arm_miner.Standard.Notify.{Outcome, stratum_notify_standard_lem}

get_block_height_lem_example :
    get_block_height
      (replicate 32 1 ++ ((0 ∷ []) ++ ((255 ∷ 255 ∷ []) ++ 5 ∷ 3 ∷ 64 ∷ 66 ∷ 15 ∷ [])))
    ≡ some (64 + 66 * 256 + 65536 * 15)
get_block_height_lem_example =
    get_block_height_lem (replicate 32 1) (0 ∷ []) (255 ∷ 255 ∷ []) 5 64 66 15 [] refl (refl, tt)
      (refl, (refl, tt)) (omega arith) refl (omega arith)

abbrev params : Value
params = array (
    items (
      text (codes "j7")
      ∷ text (replicate 64 b'a')
      ∷ text (codes "01")
      ∷ text (codes "02ff")
      ∷ array nil
      ∷ text (codes "20000000")
      ∷ text (codes "1d00ffff")
      ∷ text (codes "60000000")
      ∷ truth
      ∷ []))

stratum_notify_standard_lem_example :
    Outcome
      (λ message. replicate 32 7)
      (settings sha256d).targets
      sha256d
      sample_json
      (parse_standard_notify sample_json (some params))
      session
      runtime
      (stratum_notify_standard
        (λ message. replicate 32 7)
        (settings sha256d).targets
        sha256d
        sample_json
        100
        (some params)
        session
        runtime)
stratum_notify_standard_lem_example =
    stratum_notify_standard_lem (λ message. replicate 32 7) (settings sha256d).targets sha256d
      sample_json
      (λ message. (length-replicate {A = ℕ} 32 7, All-replicate IsByte 32 7 (omega arith))) 100
      (some params) session runtime
