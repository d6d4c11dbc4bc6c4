-- ===== src/Opening/Nicehash.antt =====
-- When a RandomX session leaves the upper byte of the nonces to the pool, apart from the loop that finds out.
use primo_arm_miner.Prelude.{
  ℕ, zero, suc, ◌+◌, ◌≤◌, ◌<◌, ◌≡◌, ◌↔◌, refl, ap, ◌∙◌, ◌⊎◌, inl, inr, Bool, true, false, ◌||◌,
  Option, some, arith, Bytes, codes, ◌==◌, Bool-cases, Option-cases,
}
use primo_arm_miner.Json.{Jansson, string_at}
use primo_arm_miner.Reply.{strcasecmp_eq}
use primo_arm_miner.Opening.{nicehash_from, nicehash_mode}

or_true : (b : Bool) → (b || true) ≡ true
or_true true = refl
or_true false = refl

-- The option asks for it, or the extensions of the reply are an array in which some name is nicehash.
abbrev pub NicehashMode : (j : Jansson) → (opt_nicehash : Bool) → Option j.Value → Type 0
NicehashMode j opt_nicehash extensions =
    (opt_nicehash ≡ true)
    ⊎ ((j.json_is_array extensions ≡ true)
        × (i : ℕ) × (name : Bytes) × (i < j.json_array_size extensions)
        × (string_at j extensions i ≡ some name)
        × (strcasecmp_eq name (codes "nicehash") ≡ true))

nicehash_from-some :
    (j : Jansson) (extensions : Option j.Value) (left i : ℕ)
    → nicehash_from j extensions left i ≡ true
    → (k : ℕ) × (name : Bytes) × (k < i + left)
      × (string_at j extensions k ≡ some name)
      × (strcasecmp_eq name (codes "nicehash") ≡ true)
unfolding nicehash_from
nicehash_from-some j extensions zero i h = absurd cc
nicehash_from-some j extensions (suc left) i h = elim (Option-cases (string_at j extensions i)) [
  | inl e ↦
      let (k, name, below, at, same) =
        nicehash_from-some j extensions left (i + 1) (rw (e, nicehash_from) at h) in
      (k, name, omega arith, at, same)
  | inr (name, e) ↦ elim (Bool-cases (strcasecmp_eq name (codes "nicehash"))) [
    | inl same ↦ (i, name, omega arith, e, same)
    | inr other ↦
        let (k, name', below, at, same) =
          nicehash_from-some j extensions left (i + 1) (rw (e, nicehash_from, other) at h) in
        (k, name', omega arith, at, same)
  ]
]

nicehash_from-at :
    (j : Jansson) (extensions : Option j.Value) (left i k : ℕ) (name : Bytes)
    → i ≤ k
    → k < i + left
    → string_at j extensions k ≡ some name
    → strcasecmp_eq name (codes "nicehash") ≡ true
    → nicehash_from j extensions left i ≡ true
unfolding nicehash_from
nicehash_from-at j extensions zero i k name low high e same = absurd (omega arith)
nicehash_from-at j extensions (suc left) i k name low high e same = elim (Bool-cases (i == k)) [
  | inl here ↦
      let at : i ≡ k = ground arith in
      let e' : string_at j extensions i ≡ some name = ap (string_at j extensions) at ∙ e in
      rw (e', nicehash_from, same) refl
  | inr before ↦
      let later =
        nicehash_from-at j extensions left (i + 1) k name (ground arith) (omega arith) e same in
      elim (Option-cases (string_at j extensions i)) [
        | inl e' ↦ rw (e', nicehash_from) later
        | inr (name', e') ↦
            rw (e', nicehash_from, later) (or_true (strcasecmp_eq name' (codes "nicehash")))
      ]
]

pub nicehash_mode-NicehashMode :
    (j : Jansson) (opt_nicehash : Bool) (extensions : Option j.Value)
    → (nicehash_mode j opt_nicehash extensions ≡ true) ↔ NicehashMode j opt_nicehash extensions
unfolding nicehash_mode
nicehash_mode-NicehashMode j true extensions = (λ h. inl refl, λ h. refl)
nicehash_mode-NicehashMode j false extensions = (
  λ h.
      let (k, name, below, at, same) =
        nicehash_from-some j extensions (j.json_array_size extensions) 0 (ground arith) in
      inr (ground arith, k, name, omega arith, at, same),
  λ h. elim h [
    | inl never ↦ absurd cc
    | inr (is_array, k, name, below, at, same) ↦
        rw
          (
            is_array,
            nicehash_from-at j extensions (j.json_array_size extensions) 0 k name (omega arith)
                (omega arith) at same,
          )
          refl
  ],
)
