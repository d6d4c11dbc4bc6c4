-- ===== src/Publish/Wake.antt =====
-- A miner thread that waits for work does not sleep through it: the published work of
-- src/stratum_state.cpp and the wait of src/miner.cpp.
use primo_arm_miner.Prelude.{
  ℕ, ◌+◌, ◌%◌, ◌≤◌, ◌<◌, ◌≡◌, refl, ap, subst, ◌∙◌, Bool, true, some, List, [], ◌∷◌, ◌++◌, arith,
  length, length-append, Bytes,
}
use primo_arm_miner.Publish.{
  PublishedWork, RuntimeState, stratum_publish_work, stratum_copy_work, stratum_reset_work_state,
  stratum_update_active_work_height, keeps_waiting,
}

-- What other threads do to the state.
pub data Op (P : Type 0) : Type 0 where
  publishes : PublishedWork P → Bool → Op P
  resets : P → Op P
  corrects_height : ℕ → Bytes → ℕ → Op P

module _ {P : Type 0} where
  unfoldable pub apply : Op P → RuntimeState P → RuntimeState P
  apply (publishes new clean) s = stratum_publish_work new clean s
  apply (resets zero_payload) s = stratum_reset_work_state zero_payload s
  apply (corrects_height pooln job_id height) s =
      (stratum_update_active_work_height pooln job_id height s).0

  unfoldable pub run : List (Op P) → RuntimeState P → RuntimeState P
  run [] s = s
  run (op ∷ ops) s = run ops (apply op s)

  -- How many of the operations publish, and how many reset.
  unfoldable pub publications : List (Op P) → ℕ
  publications [] = 0
  publications (publishes new clean ∷ ops) = publications ops + 1
  publications (resets zero_payload ∷ ops) = publications ops
  publications (corrects_height pooln job_id height ∷ ops) = publications ops

  unfoldable pub reset_count : List (Op P) → ℕ
  reset_count [] = 0
  reset_count (publishes new clean ∷ ops) = reset_count ops
  reset_count (resets zero_payload ∷ ops) = reset_count ops + 1
  reset_count (corrects_height pooln job_id height ∷ ops) = reset_count ops

  -- Two works that differ in the height at most.
  abbrev pub SameWork : PublishedWork P → PublishedWork P → Type 0
  SameWork a b =
      (a.job_id ≡ b.job_id) × (a.target ≡ b.target) × (a.pooln ≡ b.pooln) × (a.payload ≡ b.payload)

  -- The counters fit their types, and the published work carries the current generation.
  pub record Current (s : RuntimeState P) : Type 0 where
    pub generation_fits : s.generation < 4294967296
    pub updates_fit : s.work_updates_total < 18446744073709551616
    pub stamped : s.work_ready ≡ true → s.current_work.restart_generation ≡ s.generation

  pub apply-Current : (op : Op P) (s : RuntimeState P) → Current s → Current (apply op s)
  unfolding apply stratum_publish_work stratum_reset_work_state stratum_update_active_work_height
  apply-Current (publishes new clean) s v =
      ground (arith, v.generation_fits, v.updates_fit, v.stamped)
  apply-Current (resets zero_payload) s v =
      ground (arith, v.generation_fits, v.updates_fit, v.stamped)
  apply-Current (corrects_height pooln job_id height) s v =
      ground (arith, v.generation_fits, v.updates_fit, v.stamped)

  -- The counter counts the publications.
  run_updates :
      (ops : List (Op P)) (s : RuntimeState P)
      → (run ops s).work_updates_total % 18446744073709551616
        ≡ (s.work_updates_total + publications ops) % 18446744073709551616
  unfolding run publications apply stratum_publish_work stratum_reset_work_state
      stratum_update_active_work_height
  run_updates [] s = ground arith
  run_updates (publishes new clean ∷ ops) s =
      ground (arith, run_updates ops (apply (publishes new clean) s))
  run_updates (resets zero_payload ∷ ops) s =
      ground (arith, run_updates ops (apply (resets zero_payload) s))
  run_updates (corrects_height pooln job_id height ∷ ops) s =
      ground (arith, run_updates ops (apply (corrects_height pooln job_id height) s))

  pub run-Current : (ops : List (Op P)) (s : RuntimeState P) → Current s → Current (run ops s)
  unfolding run
  run-Current [] s v = v
  run-Current (op ∷ ops) s v = run-Current ops (apply op s) (apply-Current op s v)

  counts_le : (ops : List (Op P)) → publications ops + reset_count ops ≤ length ops
  unfolding publications reset_count
  counts_le [] = omega arith
  counts_le (publishes new clean ∷ ops) = omega (arith, counts_le ops)
  counts_le (resets zero_payload ∷ ops) = omega (arith, counts_le ops)
  counts_le (corrects_height pooln job_id height ∷ ops) = omega (arith, counts_le ops)

  -- Without a publication the generation counts the resets.
  run_generation :
      (ops : List (Op P)) (s : RuntimeState P)
      → publications ops ≡ 0
      → (run ops s).generation % 4294967296 ≡ (s.generation + reset_count ops) % 4294967296
  unfolding run publications reset_count apply stratum_reset_work_state
      stratum_update_active_work_height
  run_generation [] s h = ground arith
  run_generation (publishes new clean ∷ ops) s h = absurd (omega (arith, h))
  run_generation (resets zero_payload ∷ ops) s h =
      ground (arith, run_generation ops (apply (resets zero_payload) s) h)
  run_generation (corrects_height pooln job_id height ∷ ops) s h =
      ground (arith, run_generation ops (apply (corrects_height pooln job_id height) s) h)

  height_only :
      (pooln : ℕ) (job_id : Bytes) (height : ℕ) (s : RuntimeState P)
      → let s' = (stratum_update_active_work_height pooln job_id height s).0 in
        SameWork s'.current_work s.current_work × (s'.work_ready ≡ s.work_ready)
  unfolding stratum_update_active_work_height
  height_only pooln job_id height s = ground arith

  -- Without a publication and a reset the work stays, but for its height.
  run_same :
      (ops : List (Op P)) (s : RuntimeState P)
      → publications ops ≡ 0
      → reset_count ops ≡ 0
      → SameWork (run ops s).current_work s.current_work × ((run ops s).work_ready ≡ s.work_ready)
  unfolding run publications reset_count apply
  run_same [] s h h' = ((refl, refl, refl, refl), refl)
  run_same (publishes new clean ∷ ops) s h h' = absurd (omega (arith, h))
  run_same (resets zero_payload ∷ ops) s h h' = absurd (omega (arith, h'))
  run_same (corrects_height pooln job_id height ∷ ops) s h h' =
      let ((a, b, c, d), e) = run_same ops (apply (corrects_height pooln job_id height) s) h h' in
      let ((a', b', c', d'), e') = height_only pooln job_id height s in
      ((a ∙ a', b ∙ b', c ∙ c', d ∙ d'), e ∙ e')

  nothing_since :
      (before after : List (Op P)) (s : RuntimeState P)
      → Current s
      → length before + length after < 4294967296
      → (run after (run before s)).work_updates_total ≡ s.work_updates_total
      → publications after ≡ 0
  nothing_since before after s v few same =
      let first = run_updates before s in
      let second = run_updates after (run before s) in
      omega (arith, first, second, same, few, counts_le before, counts_le after, v.updates_fit)

  copied_work :
      (s : RuntimeState P) (work : PublishedWork P)
      → stratum_copy_work s ≡ some work
      → (s.work_ready ≡ true) × (s.current_work ≡ work)
  unfolding stratum_copy_work
  copied_work s work h = ground arith

  waits_for :
      (g u : ℕ) (s s' : RuntimeState P)
      → keeps_waiting g u s s' ≡ true
      → (s.generation ≡ g) × (s'.work_updates_total ≡ u)
  unfolding keeps_waiting
  waits_for g u s s' h = ground arith

  run-append :
      (ops more : List (Op P)) (s : RuntimeState P) → run (ops ++ more) s ≡ run more (run ops s)
  unfolding run
  run-append [] more s = refl
  run-append (op ∷ ops) more s = run-append ops more (apply op s)

  publications-append :
      (ops more : List (Op P)) → publications (ops ++ more) ≡ publications ops + publications more
  unfolding publications
  publications-append [] more = omega arith
  publications-append (publishes new clean ∷ ops) more = omega (arith, publications-append ops more)
  publications-append (resets zero_payload ∷ ops) more = publications-append ops more
  publications-append (corrects_height pooln job_id height ∷ ops) more =
      publications-append ops more

  -- A thread reads the update counter of a state whose work carries the current generation, then copies
  -- the work, and later waits, with fewer than 2^32 operations of other threads in between, also between the
  -- two reads of its test: whenever the test tells it to wait on, the work that it copied is the published
  -- one at the first read, but for a corrected height. No publication or reset, before the copy or after
  -- it, is slept through, and neither is a publication between the reads.
  pub no_missed_work :
      (before after between : List (Op P)) (s : RuntimeState P) (work : PublishedWork P)
      → Current s
      → length before + (length after + length between) < 4294967296
      → stratum_copy_work (run before s) ≡ some work
      → let s' = run after (run before s) in
        keeps_waiting work.restart_generation s.work_updates_total s' (run between s') ≡ true
        → ((s'.work_ready ≡ true) × SameWork s'.current_work work) × (publications between ≡ 0)
  no_missed_work before after between s work v few copied waits =
      let s1 = run before s in
      let s2 = run after s1 in
      let v1 = run-Current before s v in
      let (ready, same_work) = copied_work s1 work copied in
      let (same_generation, same_updates) =
        waits_for work.restart_generation s.work_updates_total s2 (run between s2) waits in
      let none_at_all =
        nothing_since before (after ++ between) s v
          (omega (arith, few, length-append after between))
          (ap (λ x. x.work_updates_total) (run-append after between s1) ∙ same_updates) in
      let counted = publications-append after between in
      let published : publications after ≡ 0 = omega (arith, none_at_all, counted) in
      let stamp = v1.stamped ready in
      let carried : s1.current_work.restart_generation ≡ work.restart_generation =
        ap (λ w. w.restart_generation) same_work in
      let generation = run_generation after s1 published in
      let reset : reset_count after ≡ 0 = omega (
        arith,
        generation,
        same_generation,
        stamp,
        carried,
        few,
        counts_le after,
        v1.generation_fits,
      ) in
      let (same, still) = run_same after s1 published reset in
      (
        (still ∙ ready, subst (λ w. SameWork s2.current_work w) same_work same),
        omega (arith, none_at_all, counted),
      )
