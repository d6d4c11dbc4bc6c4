-- ===== src/Submit/Slots.antt =====
-- The table of src/stratum_rpc.cpp seen as a map from the ids to the entries: what each loop over the
-- slots does to the map.
use primo_arm_miner.Prelude.{
  ℕ, ◌+◌, ◌≡◌, refl, ◌⊎◌, inl, inr, true, false, Option, none, some, List, [], ◌∷◌, ◌==◌,
  if◌then◌else◌, subst, Bool-cases, arith,
}
use primo_arm_miner.Prelude.Int.{ℤ}
use primo_arm_miner.Submit.{
  PendingSubmit, holds, is_stale, submit_id_reap_stale, store_first, release_first, take_first,
}

module _ {D : Type 0} where
  -- The entry of an id: the first slot that is used for it.
  unfoldable pub lookup : ℕ → List (PendingSubmit D) → Option (PendingSubmit D)
  lookup id [] = none
  lookup id (p ∷ slots) = let rest = lookup id slots in if holds id p then some p else rest

  -- No slot is used for the id.
  unfoldable pub Absent : ℕ → List (PendingSubmit D) → Type 0
  Absent id [] = Unit
  Absent id (p ∷ slots) = (holds id p ≡ false) × Absent id slots

  -- No two slots are used for one id.
  unfoldable pub Distinct : List (PendingSubmit D) → Type 0
  unfolding Absent
  Distinct [] = Unit
  Distinct (p ∷ slots) = (p.used ≡ true → Absent p.id slots) × Distinct slots

  -- The slots that are free.
  unfoldable pub free_slots : List (PendingSubmit D) → ℕ
  free_slots [] = 0
  free_slots (p ∷ slots) = let rest = free_slots slots in if p.used then rest else rest + 1

  pub Absent-lookup :
      (id : ℕ) (slots : List (PendingSubmit D)) → Absent id slots → lookup id slots ≡ none
  unfolding lookup Absent
  Absent-lookup id [] h = refl
  Absent-lookup id (p ∷ slots) (h, hs) = ground (arith, Absent-lookup id slots hs)

  held_id : (id : ℕ) (p : PendingSubmit D) → holds id p ≡ true → p.id ≡ id
  held_id id p h = ground arith

  pub lookup-store :
      (new : PendingSubmit D) (slots : List (PendingSubmit D)) (id : ℕ)
      → new.used ≡ true
      → Absent new.id slots
      → let (slots', stored) = store_first new slots in
        lookup id slots'
        ≡ (if stored then (if new.id == id then some new else lookup id slots) else lookup id slots)
  unfolding lookup Absent store_first
  lookup-store new [] id u h = refl
  lookup-store new (p ∷ slots) id u (h, hs) = ground (arith, lookup-store new slots id u hs)

  pub store-stored :
      (new : PendingSubmit D) (slots : List (PendingSubmit D))
      → new.used ≡ true
      → let (slots', stored) = store_first new slots in
        ((stored ≡ true) × (free_slots slots ≡ free_slots slots' + 1))
        ⊎ ((stored ≡ false) × (free_slots slots ≡ 0) × (slots' ≡ slots))
  unfolding free_slots store_first
  store-stored new [] u = inr (refl, refl, refl)
  store-stored new (p ∷ slots) u = ground (arith, store-stored new slots u)

  pub lookup-take :
      (taken : ℕ) (slots : List (PendingSubmit D)) (id : ℕ)
      → Distinct slots
      → lookup id (take_first taken slots).0 ≡ (if taken == id then none else lookup id slots)
  unfolding lookup Absent Distinct take_first
  lookup-take taken [] id v = ground arith
  lookup-take taken (p ∷ slots) id (h, hs) =
      ground (arith, h, lookup-take taken slots id hs, Absent-lookup p.id slots)

  -- What a share's reply is matched with.
  abbrev pub metadata : Option (PendingSubmit D) → Option (D × ℤ)
  metadata none = none
  metadata (some p) = some (p.sharediff, p.thread_id)

  pub take-found :
      (taken : ℕ) (slots : List (PendingSubmit D))
      → (take_first taken slots).1 ≡ metadata (lookup taken slots)
  unfolding lookup take_first
  take-found taken [] = refl
  take-found taken (p ∷ slots) = ground (arith, take-found taken slots)

  pub lookup-release :
      (released : ℕ) (slots : List (PendingSubmit D)) (id : ℕ)
      → Distinct slots
      → lookup id (release_first released slots)
        ≡ (if released == id then none else lookup id slots)
  unfolding lookup Absent Distinct release_first
  lookup-release released [] id v = ground arith
  lookup-release released (p ∷ slots) id (h, hs) =
      ground (arith, h, lookup-release released slots id hs, Absent-lookup p.id slots)

  -- What reaping leaves of an entry.
  abbrev pub unless_stale : ℕ → ℕ → Option (PendingSubmit D) → Option (PendingSubmit D)
  unless_stale now timeout none = none
  unless_stale now timeout (some p) = if is_stale now timeout p then none else some p

  pub reap-Absent :
      (now timeout id : ℕ) (slots : List (PendingSubmit D))
      → Absent id slots
      → Absent id (submit_id_reap_stale now timeout slots).0
  unfolding Absent submit_id_reap_stale
  reap-Absent now timeout id [] h = h
  reap-Absent now timeout id (p ∷ slots) (h, hs) =
      ground (arith, reap-Absent now timeout id slots hs)

  pub reap-Distinct :
      (now timeout : ℕ) (slots : List (PendingSubmit D))
      → Distinct slots
      → Distinct (submit_id_reap_stale now timeout slots).0
  unfolding Distinct submit_id_reap_stale
  reap-Distinct now timeout [] h = h
  reap-Distinct now timeout (p ∷ slots) (h, hs) =
      ground (arith, h, reap-Distinct now timeout slots hs, reap-Absent now timeout p.id slots)

  stale_used :
      (now timeout : ℕ) (p : PendingSubmit D) → is_stale now timeout p ≡ true → p.used ≡ true
  unfolding is_stale
  stale_used now timeout p h = ground arith

  pub lookup-reap :
      (now timeout : ℕ) (slots : List (PendingSubmit D)) (id : ℕ)
      → Distinct slots
      → lookup id (submit_id_reap_stale now timeout slots).0
        ≡ unless_stale now timeout (lookup id slots)
  unfolding lookup Distinct submit_id_reap_stale
  lookup-reap now timeout [] id v = refl
  lookup-reap now timeout (p ∷ slots) id (h, hs) =
      let rest = lookup-reap now timeout slots id hs in
      let none_there : holds id p ≡ true → is_stale now timeout p ≡ true → lookup id slots ≡ none =
        λ held stale.
          Absent-lookup id slots (
            subst (λ i. Absent i slots) (held_id id p held) (h (stale_used now timeout p stale))) in
      elim (Bool-cases (is_stale now timeout p)) [
        | inl stale ↦ elim (Bool-cases (holds id p)) [
          | inl held ↦ ground (arith, rest, none_there held stale)
          | inr free ↦ ground (arith, rest)
        ]
        | inr fresh ↦ ground (arith, rest)
      ]

  -- The count that is returned is the number of slots set free.
  pub reap-count :
      (now timeout : ℕ) (slots : List (PendingSubmit D))
      → let (slots', reaped) = submit_id_reap_stale now timeout slots in
        free_slots slots' ≡ free_slots slots + reaped
  unfolding free_slots submit_id_reap_stale
  reap-count now timeout [] = refl
  reap-count now timeout (p ∷ slots) =
      ground (arith, stale_used now timeout p, reap-count now timeout slots)
