-- ===== src/Session/Boundary.antt =====
-- The ways in and out of the hidden slot at the boundaries of a slice.
use primo_arm_miner.Prelude.{ℕ, ◌+◌, ◌<◌, ◌≡◌, refl, sym, ◌∙◌, ◌⊎◌, inl, inr, true, false, arith}
use primo_arm_miner.Prelude.Int.{ℤ, pos}
use primo_arm_miner.DevFee.{Settings, Globals, devfee_set_pool_target, devfee_take_transition}
use primo_arm_miner.Session.{Session, Round, stratum_switch_to_pool, set_globals, cross_boundary}
use primo_arm_miner.Session.Hidden.{
  AtHome, Away, HasPlace, Hidden, Keeps, set_pool_target-Keeps, switch-Inv, target_kept, usable-lt,
  usable-ne,
}

-- The state in which a slice begins, before the slot is reset to the first target.
abbrev begun : ℕ → ℕ → Globals → Globals
begun now c g = record g {
  devfee = record g.devfee {
    in_slice = true;
    user_pool_index = pos c;
    next_transition = now + g.devfee.slice_seconds;
  };
}

begin_cases :
    (cfg : Settings) (now c : ℕ) (g : Globals)
    → g.devfee.in_slice ≡ false
    → (devfee_take_transition cfg now (pos c) g ≡ (begun now c g, g.devfee.dev_pool_index))
      ⊎ (devfee_take_transition cfg now (pos c) g
          ≡ (devfee_set_pool_target cfg 0 (begun now c g), g.devfee.dev_pool_index))
unfolding devfee_take_transition
begin_cases cfg now c g outside = ground arith

begun-Hidden : (k now c : ℕ) (g : Globals) → Hidden k g → Hidden k (begun now c g)
begun-Hidden k now c g v = record {
  on = v.on;
  index_eq = v.index_eq;
  disabled = v.disabled;
  present = v.present;
}

take_begins :
    (cfg : Settings) (k now c : ℕ) (g : Globals)
    → Hidden k g
    → g.devfee.in_slice ≡ false
    → let (g', target) = devfee_take_transition cfg now (pos c) g in
      (target ≡ pos k)
      × Keeps k g g'
      × (g'.devfee.in_slice ≡ true)
      × (g'.devfee.user_pool_index ≡ pos c)
take_begins cfg k now c g v outside = elim (begin_cases cfg now c g outside) [
  | inl e ↦
      rw e (v.index_eq, record { slot = begun-Hidden k now c g v; usable = λ j u. u }, refl, refl)
  | inr e ↦
      let kept = set_pool_target-Keeps cfg k 0 (begun now c g) (begun-Hidden k now c g v) in
      let same = target_kept cfg 0 (begun now c g) in
      rw e (v.index_eq, record { slot = kept.slot; usable = kept.usable }, same.0, same.1)
]

-- The start of a slice enters the slot, and remembers the pool it leaves.
enter-Inv :
    (cfg : Settings) (k now : ℕ) (s : Session)
    → Hidden k s.globals
    → AtHome s.globals s.current
    → let (g, target) = devfee_take_transition cfg now (pos s.current) s.globals in
      HasPlace k (stratum_switch_to_pool target (set_globals g s)).0
enter-Inv cfg k now s v (outside, usable) =
    let begun = devfee_take_transition cfg now (pos s.current) s.globals in
    let (e, kept, inside, back) = take_begins cfg k now s.current s.globals v outside in
    switch-Inv k k _ (set_globals begun.0 s) e kept.slot.present
      (λ q. usable-ne k s.current s.globals v usable (sym q))
      (record {
        slot = kept.slot;
        place = inr (inside, refl, (s.current, (back, kept.usable s.current usable)));
      })

pub end_lem :
    (cfg : Settings) (k now : ℕ) (c : ℤ) (g : Globals)
    → g.devfee.in_slice ≡ true
    → let (g', target) = devfee_take_transition cfg now c g in
      (target ≡ g.devfee.user_pool_index)
      × (g'.table ≡ g.table)
      × (g'.devfee
          ≡ record g.devfee { in_slice = false; next_transition = now + g.devfee.cycle_seconds })
unfolding devfee_take_transition
end_lem cfg k now c g inside = ground arith

-- The end of a slice is the way home.
leave-Inv :
    (cfg : Settings) (k now : ℕ) (s : Session)
    → Hidden k s.globals
    → Away k s.globals s.current
    → let (g, target) = devfee_take_transition cfg now (pos s.current) s.globals in
      HasPlace k (stratum_switch_to_pool target (set_globals g s)).0
leave-Inv cfg k now s v (inside, here, (u, (e, usable))) =
    let (t, same, after) = end_lem cfg k now (pos s.current) s.globals inside in
    let ended = (devfee_take_transition cfg now (pos s.current) s.globals).0 in
    let lt : u < ended.table.num_pools = rw same (usable-lt u s.globals.table usable) in
    switch-Inv k u _ (set_globals ended s) (t ∙ e) lt
      (λ q. usable-ne k u s.globals v usable (q ∙ here))
      (record {
        slot = record {
          on = rw after v.on;
          index_eq = rw after v.index_eq;
          disabled = rw same v.disabled;
          present = rw same v.present;
        };
        place = inl (rw after refl, rw same usable);
      })

pub cross_boundary-Inv :
    (cfg : Settings) (k : ℕ) (r : Round) (s : Session)
    → HasPlace k s
    → HasPlace k (cross_boundary cfg r s)
unfolding cross_boundary
cross_boundary-Inv cfg k r s v = elim v.place [
  | inl home ↦ enter-Inv cfg k r.take_at s v.slot home
  | inr away ↦ leave-Inv cfg k r.take_at s v.slot away
]
