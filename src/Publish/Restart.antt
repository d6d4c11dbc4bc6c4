-- ===== src/Publish/Restart.antt =====
-- What a publication tells the miner threads, in src/stratum_state.cpp.
use primo_arm_miner.Prelude.{
  ◌<◌, ◌≡◌, ◌⊎◌, inl, inr, ◌≢◌, Bool, true, false, some, arith, bytes_eq, bytes_eq_sound,
  bytes_eq_ne, Bool-cases,
}
use primo_arm_miner.Publish.{
  PublishedWork, RuntimeState, height_changed, target_changed, should_restart, stratum_publish_work,
  stratum_copy_work, miner_work_restart_requested,
}

module _ {P : Type 0} where
  -- With a generation of 32 bits: a thread that copies the work after a publication gets the published work, under the generation that
  -- is then current; and a thread that still works under the generation before is told to restart, except
  -- when work was out already and the new one is not clean and has the same height and the same target.
  pub stratum_publish_work_lem :
      (new : PublishedWork P) (clean : Bool) (s : RuntimeState P)
      → s.generation < 4294967296
      → let s' = stratum_publish_work new clean s in
        (stratum_copy_work s' ≡ some (record new { restart_generation = s'.generation }))
        × (((miner_work_restart_requested s.generation s' ≡ false)
              × (s.work_ready ≡ true)
              × (clean ≡ false)
              × (new.height ≡ s.current_work.height)
              × (new.target ≡ s.current_work.target))
            ⊎ ((miner_work_restart_requested s.generation s' ≡ true)
                × ((s.work_ready ≡ false)
                    ⊎ ((clean ≡ true)
                        ⊎ ((new.height ≢ s.current_work.height)
                            ⊎ (new.target ≢ s.current_work.target))))))
  unfolding stratum_publish_work stratum_copy_work should_restart height_changed target_changed
  stratum_publish_work_lem new clean s fits =
      elim (Bool-cases (bytes_eq new.target s.current_work.target)) [
        | inl e ↦ let same = bytes_eq_sound new.target s.current_work.target e in ground arith
        | inr e ↦ let other = bytes_eq_ne new.target s.current_work.target e in ground arith
      ]
