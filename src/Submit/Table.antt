-- ===== src/Submit/Table.antt =====
-- The operations of src/stratum_rpc.cpp on the table of pending shares, each as one change of the map
-- from ids to entries.
use primo_arm_miner.Prelude.{ℕ, ◌≡◌, refl, ◌≢◌, none, List, [], ◌∷◌, arith}
use primo_arm_miner.Submit.{PendingSubmit, store_first, release_first, take_first}
use primo_arm_miner.Submit.Slots.{lookup, Absent, Distinct}

module _ {D : Type 0} where
  pub lookup-Absent :
      (id : ℕ) (slots : List (PendingSubmit D)) → lookup id slots ≡ none → Absent id slots
  unfolding lookup Absent
  lookup-Absent id [] h = tt
  lookup-Absent id (p ∷ slots) h = ground (arith, lookup-Absent id slots)

  store-Absent :
      (new : PendingSubmit D) (id : ℕ) (slots : List (PendingSubmit D))
      → new.id ≢ id
      → Absent id slots
      → Absent id (store_first new slots).0
  unfolding Absent store_first
  store-Absent new id [] ne h = h
  store-Absent new id (p ∷ slots) ne (h, hs) = ground (arith, store-Absent new id slots ne hs)

  pub store-Distinct :
      (new : PendingSubmit D) (slots : List (PendingSubmit D))
      → Absent new.id slots
      → Distinct slots
      → Distinct (store_first new slots).0
  unfolding Absent Distinct store_first
  store-Distinct new [] a v = v
  store-Distinct new (p ∷ slots) (a, rest) (h, hs) =
      ground (arith, h, store-Distinct new slots rest hs, store-Absent new p.id slots)

  take-Absent :
      (taken id : ℕ) (slots : List (PendingSubmit D))
      → Absent id slots
      → Absent id (take_first taken slots).0
  unfolding Absent take_first
  take-Absent taken id [] h = h
  take-Absent taken id (p ∷ slots) (h, hs) = ground (arith, take-Absent taken id slots hs)

  pub take-Distinct :
      (taken : ℕ) (slots : List (PendingSubmit D))
      → Distinct slots
      → Distinct (take_first taken slots).0
  unfolding Distinct take_first
  take-Distinct taken [] v = v
  take-Distinct taken (p ∷ slots) (h, hs) =
      ground (arith, h, take-Distinct taken slots hs, take-Absent taken p.id slots)

  -- Releasing an id is taking it and dropping what was found.
  pub release-take :
      (id : ℕ) (slots : List (PendingSubmit D)) → release_first id slots ≡ (take_first id slots).0
  unfolding release_first take_first
  release-take id [] = refl
  release-take id (p ∷ slots) = ground (arith, release-take id slots)
