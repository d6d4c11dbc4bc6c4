-- ===== src/DevFee/Cycle.antt =====
-- The slices in time, and the order of the targets within one.
use primo_arm_miner.Prelude.{
  ℕ, ◌+◌, ◌-◌, ◌*◌, ◌/◌, ◌≤◌, ◌<◌, ◌≡◌, ◌↔◌, refl, ap, subst, ◌⊎◌, ◌∙◌, true, false, List, [], ◌∷◌,
  arith, if◌then◌else◌,
}
use native.Mathlib.Nat.{mod-eq_of_lt}
use primo_arm_miner.Prelude.Int.{ℤ}
use primo_arm_miner.DevFee.{
  DevfeeState, Settings, Globals, devfee_set_pool_target, devfee_runtime_begin,
  devfee_transition_due, devfee_take_transition, devfee_advance_target, devfee_abort_slice,
}

-- The first slice of an enabled fee, whose slice is at most its cycle, begins at least one slice length and at most one cycle length
-- after the start, whatever number is drawn.
runtime_begin_bounds :
    (draw now : ℕ) (d : DevfeeState)
    → d.enabled ≡ true
    → d.slice_seconds ≤ d.cycle_seconds
    → let d' = devfee_runtime_begin draw now d in
      (d'.in_slice ≡ false)
      × (now + d.slice_seconds ≤ d'.next_transition)
      × (d'.next_transition ≤ now + d.cycle_seconds)
unfolding devfee_runtime_begin
runtime_begin_bounds draw now d on fits = ground arith

-- Of an enabled fee, every moment of the first cycle after the first slice length can be drawn.
runtime_begin_reaches :
    (at now : ℕ) (d : DevfeeState)
    → d.enabled ≡ true
    → now + d.slice_seconds ≤ at
    → at ≤ now + d.cycle_seconds
    → (draw : ℕ) × ((devfee_runtime_begin draw now d).next_transition ≡ at)
unfolding devfee_runtime_begin
runtime_begin_reaches at now d on lo hi =
    let x = at - (now + d.slice_seconds) in
    (
      x,
      ground
          (arith, mod-eq_of_lt {n = x} {m = d.cycle_seconds - d.slice_seconds + 1} (omega arith)),
    )

-- A scheduler that is enabled, with its slice within a cycle of the given percentage.
pub record Paced (percent : ℕ) (d : DevfeeState) : Type 0 where
  pub on : d.enabled ≡ true
  pub ratio : d.cycle_seconds * percent ≡ d.slice_seconds * 100

set_pool_target_times :
    (cfg : Settings) (t : ℕ) (g : Globals)
    → let d = (devfee_set_pool_target cfg t g).devfee in
      (d.enabled ≡ g.devfee.enabled)
      × (d.in_slice ≡ g.devfee.in_slice)
      × (d.user_pool_index ≡ g.devfee.user_pool_index)
      × (d.dev_pool_index ≡ g.devfee.dev_pool_index)
      × (d.next_transition ≡ g.devfee.next_transition)
      × (d.slice_seconds ≡ g.devfee.slice_seconds)
      × (d.cycle_seconds ≡ g.devfee.cycle_seconds)
      × (d.num_targets ≡ g.devfee.num_targets)
      × (d.cur_target ≡ t)
unfolding devfee_set_pool_target
set_pool_target_times cfg t g = (refl, refl, refl, refl, refl, refl, refl, refl, refl)

-- What a slice that began at `t` is at the moment `e`, when it ends by its time or is given up.
pub data Over (cfg : Settings) (e : ℕ) (current : ℤ) (g : Globals) (g' : Globals) : Type 0 where
  ended : g' ≡ (devfee_take_transition cfg e current g).0 → Over cfg e current g g'
  given_up : g' ≡ (devfee_abort_slice e g).0 → Over cfg e current g g'

Over-times :
    (cfg : Settings) (e : ℕ) (current : ℤ) (g g' : Globals)
    → g.devfee.in_slice ≡ true
    → Over cfg e current g g'
    → (g'.devfee.next_transition ≡ e + g.devfee.cycle_seconds)
      × (g'.devfee.enabled ≡ g.devfee.enabled)
      × (g'.devfee.in_slice ≡ false)
unfolding devfee_take_transition devfee_abort_slice
Over-times cfg e current g g' h (ended p) = ground arith
Over-times cfg e current g g' h (given_up p) = ground arith

begin_times :
    (cfg : Settings) (t : ℕ) (current : ℤ) (g : Globals)
    → g.devfee.in_slice ≡ false
    → let d = (devfee_take_transition cfg t current g).0.devfee in
      (d.in_slice ≡ true)
      × (d.enabled ≡ g.devfee.enabled)
      × (d.cycle_seconds ≡ g.devfee.cycle_seconds)
      × (d.slice_seconds ≡ g.devfee.slice_seconds)
unfolding devfee_take_transition devfee_set_pool_target
begin_times cfg t current g h = ground arith

due_after :
    (now : ℕ) (d : DevfeeState)
    → d.enabled ≡ true
    → devfee_transition_due now d ≡ true
    → d.next_transition ≤ now
unfolding devfee_transition_due
due_after now d on h = ground arith

scaled : (p c x s : ℕ) → c * p ≡ s * 100 → c ≤ x → s * 100 ≤ x * p
scaled p c x s e h = grind arith

-- Within a slice: when the transition is due.
running_due :
    (cfg : Settings) (t x : ℕ) (current : ℤ) (g : Globals)
    → g.devfee.in_slice ≡ false
    → g.devfee.enabled ≡ true
    → devfee_transition_due x (devfee_take_transition cfg t current g).0.devfee ≡ false
    → x < t + g.devfee.slice_seconds
unfolding devfee_take_transition devfee_set_pool_target devfee_transition_due
running_due cfg t x current g idle on early = ground arith

duty : (p c s u v l : ℕ) → c * p ≡ s * 100 → u ≤ s + l → c ≤ v → u * 100 ≤ v * p + l * 100
duty p c s u v l e le more = grind arith

-- The fee is at most its percentage. A scheduler is on, and its slice is the percentage of its cycle; a slice
-- starts at `t`, and at `e` it has run to its end or is given up, at most `late` seconds after a moment `x`
-- at which its end was not yet due; at `t'` the next slice is due. Then the time in the slice is at most
-- the percentage of the time that the user has after it, `late` aside; and from start to start, the time
-- is at least the slice's length over the percentage.
pub slices_apart :
    (cfg : Settings) (percent t e t' x late : ℕ) (c c' : ℤ) (g g' : Globals)
    → g.devfee.in_slice ≡ false
    → Paced percent g.devfee
    → t ≤ e
    → devfee_transition_due x (devfee_take_transition cfg t c g).0.devfee ≡ false
    → e ≤ x + late
    → Over cfg e c' (devfee_take_transition cfg t c g).0 g'
    → devfee_transition_due t' g'.devfee ≡ true
    → ((e - t) * 100 ≤ (t' - e) * percent + late * 100)
      × (g.devfee.slice_seconds * 100 ≤ (t' - t) * percent)
slices_apart cfg percent t e t' x late c c' g g' idle v later early soon over due =
    let b = begin_times cfg t c g idle in
    let o = Over-times cfg e c' (devfee_take_transition cfg t c g).0 g' b.0 over in
    let on : g'.devfee.enabled ≡ true = o.1 ∙ (b.1 ∙ v.on) in
    let reached : g'.devfee.next_transition ≤ t' = due_after t' g'.devfee on due in
    let ending = running_due cfg t x c g idle v.on early in
    (
      duty percent g.devfee.cycle_seconds g.devfee.slice_seconds (e - t) (t' - e) late v.ratio
          (omega (arith, ending)) (omega (arith, o.0, b.2)),
      scaled percent g.devfee.cycle_seconds (t' - t) g.devfee.slice_seconds v.ratio
          (omega (arith, o.0, b.2)),
    )

-- The scheduler after a row of attempts to move to the next target.
abbrev pub after_advances : Settings → List ℕ → Globals → Globals
after_advances cfg [] g = g
after_advances cfg (now ∷ later) g = after_advances cfg later (devfee_advance_target cfg now g).0

-- What moving between targets keeps of the scheduler.
abbrev Keeps : DevfeeState → DevfeeState → Type 0
Keeps d d' = d' ≡ record d { cur_target = d'.cur_target }

advance-Keeps :
    (cfg : Settings) (now : ℕ) (g : Globals)
    → Keeps g.devfee (devfee_advance_target cfg now g).0.devfee
unfolding devfee_advance_target devfee_set_pool_target
advance-Keeps cfg now g = ground arith

after_advances-Keeps :
    (cfg : Settings) (times : List ℕ) (g : Globals)
    → Keeps g.devfee (after_advances cfg times g).devfee
after_advances-Keeps cfg [] g = refl
after_advances-Keeps cfg (now ∷ later) g =
    let g' = (devfee_advance_target cfg now g).0 in
    after_advances-Keeps cfg later g'
    ∙ ap
        (λ (d : DevfeeState). record d {
          cur_target = (after_advances cfg later g').devfee.cur_target;
        })
        (advance-Keeps cfg now g)

due_iff :
    (x : ℕ) (d : DevfeeState)
    → d.enabled ≡ true
    → (devfee_transition_due x d ≡ true) ↔ (d.next_transition ≤ x)
unfolding devfee_transition_due
due_iff x d on = (λ h. ground arith, λ h. ground arith)

ending :
    (cfg : Settings) (e : ℕ) (current : ℤ) (g : Globals)
    → g.devfee.in_slice ≡ true
    → let (g', next) = devfee_take_transition cfg e current g in
      (next ≡ g.devfee.user_pool_index)
      × (devfee_abort_slice e g ≡ (g', next))
      × (g'.devfee.in_slice ≡ false)
      × (g'.devfee.next_transition ≡ e + g.devfee.cycle_seconds)
      × (g'.devfee.enabled ≡ g.devfee.enabled)
unfolding devfee_take_transition devfee_abort_slice
ending cfg e current g h = ground arith

home_kept :
    (cfg : Settings) (t : ℕ) (home : ℤ) (g : Globals)
    → g.devfee.in_slice ≡ false
    → (devfee_take_transition cfg t home g).0.devfee.user_pool_index ≡ home
unfolding devfee_take_transition devfee_set_pool_target
home_kept cfg t home g h = ground arith

-- A slice leads back. The fee is on, and a slice starts at `t` from the pool `home`; whatever moves between
-- the targets are tried in it, at whatever times, and whichever pool it is ended from at `e`: the thread is
-- sent to `home`, no slice runs, and the next one is due from a full cycle after `e` on. Giving the slice
-- up at `e` comes to the same.
pub slice_returns :
    (cfg : Settings) (t e : ℕ) (home current : ℤ) (times : List ℕ) (g : Globals)
    → g.devfee.in_slice ≡ false
    → g.devfee.enabled ≡ true
    → let g1 = after_advances cfg times (devfee_take_transition cfg t home g).0 in
      let (g', next) = devfee_take_transition cfg e current g1 in
      (next ≡ home)
      × (devfee_abort_slice e g1 ≡ (g', next))
      × (g'.devfee.in_slice ≡ false)
      × ((x : ℕ) → (devfee_transition_due x g'.devfee ≡ true) ↔ (e + g.devfee.cycle_seconds ≤ x))
slice_returns cfg t e home current times g idle on =
    let started = (devfee_take_transition cfg t home g).0 in
    let g1 = after_advances cfg times started in
    let b = begin_times cfg t home g idle in
    let kept = after_advances-Keeps cfg times started in
    let runs : g1.devfee.in_slice ≡ true = ap (λ (d : DevfeeState). d.in_slice) kept ∙ b.0 in
    let still_on : g1.devfee.enabled ≡ true =
      ap (λ (d : DevfeeState). d.enabled) kept ∙ (b.1 ∙ on) in
    let cycle : g1.devfee.cycle_seconds ≡ g.devfee.cycle_seconds =
      ap (λ (d : DevfeeState). d.cycle_seconds) kept ∙ b.2 in
    let user : g1.devfee.user_pool_index ≡ home =
      ap (λ (d : DevfeeState). d.user_pool_index) kept ∙ home_kept cfg t home g idle in
    let (next, same, over, after, enabled) = ending cfg e current g1 runs in
    (
      next ∙ user,
      same,
      over,
      λ x.
          subst
            (λ n.
              (devfee_transition_due x (devfee_take_transition cfg e current g1).0.devfee ≡ true)
              ↔ (n ≤ x))
            (after ∙ ap (λ n. e + n) cycle) (due_iff x _ (enabled ∙ still_on)),
    )

-- Advancing succeeds exactly if a slice of an enabled fee runs, a target is left, and at least a
-- quarter of the slice is; it then moves to the next target, and changes nothing else than the slot.
advance_target_lem :
    (cfg : Settings) (now : ℕ) (g : Globals)
    → let (g', moved) = devfee_advance_target cfg now g in
      let d = g.devfee in
      ((moved ≡ true)
        × (d.enabled ≡ true)
        × (d.in_slice ≡ true)
        × (d.cur_target + 1 < d.num_targets)
        × (now + d.slice_seconds / 4 ≤ d.next_transition)
        × (g'.devfee ≡ record d { cur_target = d.cur_target + 1 }))
      ⊎ ((moved ≡ false)
          × (g' ≡ g)
          × ((d.enabled ≡ false)
              ⊎ ((d.in_slice ≡ false)
                  ⊎ ((d.num_targets ≤ d.cur_target + 1)
                      ⊎ (d.next_transition < now + d.slice_seconds / 4)))))
unfolding devfee_advance_target devfee_set_pool_target
advance_target_lem cfg now g = ground arith

-- How many of a row of calls of `devfee_advance_target`, at the given times, move to a new target.
abbrev pub advances : Settings → List ℕ → Globals → ℕ
advances cfg [] g = 0
advances cfg (now ∷ later) g =
    let (g', moved) = devfee_advance_target cfg now g in
    (if moved then 1 else 0) + advances cfg later g'

-- From a target of the list on, the failover between targets ends: however often it is asked for, the
-- moves stay below the number of targets.
pub advances-lt :
    (cfg : Settings) (times : List ℕ) (g : Globals)
    → g.devfee.cur_target < g.devfee.num_targets
    → g.devfee.cur_target + advances cfg times g < g.devfee.num_targets
advances-lt cfg [] g h = omega arith
advances-lt cfg (now ∷ later) g h =
    ground (
      arith,
      advance_target_lem cfg now g,
      advances-lt cfg later (devfee_advance_target cfg now g).0,
    )
