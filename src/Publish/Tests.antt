-- ===== src/Publish/Tests.antt =====
-- Instances of the theorems on the published work and on the share totals.
use primo_arm_miner.Prelude.{
  ℕ, ◌+◌, ◌%◌, ◌≡◌, ◌≢◌, refl, ◌⊎◌, Bool, true, false, not, ◌&&◌, some, List, [], ◌∷◌, arith, codes,
  ltb, ◌==◌,
}
use primo_arm_miner.Prelude.Int.{pos}
use primo_arm_miner.DevFee.{DevfeeState, initial_devfee, devfee_is_dev_pool}
use primo_arm_miner.Publish.{
  PublishedWork, RuntimeState, ShareStats, stratum_publish_work, stratum_copy_work,
  miner_work_restart_requested, zero_work, keeps_waiting, stratum_update_active_work_height,
}
use primo_arm_miner.Publish.Restart.{stratum_publish_work_lem}
use primo_arm_miner.Publish.Wake.{
  publications, corrects_height, Current, SameWork, run, apply, no_missed_work,
}
use primo_arm_miner.Publish.Shares.{after_results, count, after_results_lem}

abbrev job : PublishedWork ℕ
job = record (zero_work 7) { job_id = codes "job"; height = 5; restart_generation = 3 }

abbrev ready : RuntimeState ℕ
ready = record {
  generation = 3;
  current_work = job;
  work_ready = true;
  last_job_id = codes "job";
  work_updates_total = 1;
  work_updates_clean = 0;
  work_restart_total = 1;
  work_restart_clean = 0;
  work_restart_height = 1;
  work_restart_target = 1;
}

abbrev next_job : PublishedWork ℕ
next_job = record job { height = 6 }

stratum_publish_work_lem_example :
    let s' = stratum_publish_work next_job false ready in
    (stratum_copy_work s' ≡ some (record next_job { restart_generation = s'.generation }))
    × (((miner_work_restart_requested 3 s' ≡ false)
          × (◌≡◌ {A = Bool} true true)
          × (◌≡◌ {A = Bool} false false)
          × (◌≡◌ {A = ℕ} 6 5)
          × (next_job.target ≡ job.target))
        ⊎ ((miner_work_restart_requested 3 s' ≡ true)
            × ((◌≡◌ {A = Bool} true false)
                ⊎ ((◌≡◌ {A = Bool} false true)
                    ⊎ ((◌≢◌ {A = ℕ} 6 5) ⊎ (next_job.target ≢ job.target))))))
stratum_publish_work_lem_example = stratum_publish_work_lem next_job false ready (omega arith)

ready-Current : Current ready
ready-Current = record {
  generation_fits = omega arith;
  updates_fit = omega arith;
  stamped = λ h. refl;
}

waits :
    let s' = run (corrects_height 1 (codes "job") 9 ∷ []) (run [] ready) in
    keeps_waiting 3 1 s' (run [] s') ≡ true
unfolding keeps_waiting run apply stratum_update_active_work_height
waits = refl

copied : stratum_copy_work (run [] ready) ≡ some job
unfolding stratum_copy_work run
copied = refl

no_missed_work_example :
    let s' = run (corrects_height 1 (codes "job") 9 ∷ []) (run [] ready) in
    ((s'.work_ready ≡ true) × SameWork s'.current_work job) × (publications {P = ℕ} [] ≡ 0)
no_missed_work_example =
    no_missed_work [] (corrects_height 1 (codes "job") 9 ∷ []) [] ready job ready-Current
      (omega arith) copied waits

abbrev fee : DevfeeState
fee = record initial_devfee { enabled = true; dev_pool_index = pos 1 }

abbrev zero_stats : ShareStats
zero_stats = record {
  share_accepted_total = 0;
  share_rejected_total = 0;
  accepted_count = λ i. 0;
  rejected_count = λ i. 0;
}

-- One accepted share of the user, one of the dev pool in slot 1.
abbrev results : List (ℕ × Bool)
results = (0, true) ∷ (1, true) ∷ []

after_results_lem_example :
    let s' = after_results fee 2 results zero_stats in
    (s'.share_accepted_total % 4294967296
      ≡ (0 + count (λ i accepted. not (devfee_is_dev_pool fee (pos i)) && accepted) results)
        % 4294967296)
    × (s'.share_rejected_total % 4294967296
        ≡ (0 + count (λ i accepted. not (devfee_is_dev_pool fee (pos i)) && not accepted) results)
          % 4294967296)
    × (s'.accepted_count 1 % 4294967296
        ≡ (0 + count (λ i accepted. i == 1 && ltb 1 2 && accepted) results) % 4294967296)
    × (s'.rejected_count 1 % 4294967296
        ≡ (0 + count (λ i accepted. i == 1 && ltb 1 2 && not accepted) results) % 4294967296)
after_results_lem_example = after_results_lem fee 2 1 results zero_stats
