-- ===== src/Verus/Payload.antt =====
-- What a share of a Verus pool carries: the nonce field and the payload that were hashed.
use primo_arm_miner.Prelude.{
  ℕ, zero, suc, ◌+◌, ◌-◌, ◌≤◌, ◌<◌, ◌≡◌, refl, sym, ap, ◌∙◌, inl, some, [], ◌∷◌, ◌++◌, arith, Bytes,
  length, length-append, length-take, length-drop, take, drop, All, All-append, All-take, All-drop,
}
use primo_arm_miner.Prelude.Memory.{
  Memory, memcpy, read, le32enc, le32dec, store_word, IsByte, memcpy_outside, read_frame,
  read-append,
}
use primo_arm_miner.Hex.{cbin2hex, bin2hex, hex2bin}
use primo_arm_miner.Hex.RoundTrip.{hex2bin-bin2hex}
use primo_arm_miner.Job.{be32dec}
use primo_arm_miner.Verus.Wire.{splice, restored_extra, solution_text, be32enc}

cbin2hex-append : (xs ys : Bytes) → cbin2hex (xs ++ ys) ≡ cbin2hex xs ++ cbin2hex ys
unfolding cbin2hex
cbin2hex-append [] ys = refl
cbin2hex-append (x ∷ xs) ys = rw (cbin2hex-append xs ys) refl

take-cbin2hex : (n : ℕ) (xs : Bytes) → take (n + n) (cbin2hex xs) ≡ cbin2hex (take n xs)
unfolding cbin2hex
take-cbin2hex zero xs = refl
take-cbin2hex (suc n) [] = let e : suc n + suc n ≡ suc (suc (n + n)) = omega arith in rw e refl
take-cbin2hex (suc n) (x ∷ xs) =
    let e : suc n + suc n ≡ suc (suc (n + n)) = omega arith in rw (e, take-cbin2hex n xs) refl

drop-cbin2hex : (n : ℕ) (xs : Bytes) → drop (n + n) (cbin2hex xs) ≡ cbin2hex (drop n xs)
unfolding cbin2hex
drop-cbin2hex zero xs = refl
drop-cbin2hex (suc n) [] = let e : suc n + suc n ≡ suc (suc (n + n)) = omega arith in rw e refl
drop-cbin2hex (suc n) (x ∷ xs) =
    let e : suc n + suc n ≡ suc (suc (n + n)) = omega arith in rw (e, drop-cbin2hex n xs) refl

length-cbin2hex : (xs : Bytes) → length (cbin2hex xs) ≡ length xs + length xs
unfolding cbin2hex
length-cbin2hex [] = omega arith
length-cbin2hex (x ∷ xs) = omega (arith, length-cbin2hex xs)

-- Copying digits into a text of digits is copying the bytes.
splice-cbin2hex :
    (at : ℕ) (source target : Bytes)
    → splice (at + at) (cbin2hex source) (cbin2hex target) ≡ cbin2hex (splice at source target)
unfolding splice
splice-cbin2hex at source target =
    let n : at + at + length (cbin2hex source) ≡ at + length source + (at + length source) =
      omega (arith, length-cbin2hex source) in
    rw
      (
        n,
        take-cbin2hex at target,
        drop-cbin2hex (at + length source) target,
        cbin2hex-append (take at target) (source ++ drop (at + length source) target),
        cbin2hex-append source (drop (at + length source) target),
      )
      refl

-- The digits of a solution are those of the payload with 64 bytes of the job's solution at byte 11.
pub solution_text_lem :
    (extra solution : Bytes)
    → solution_text extra solution
      ≡ cbin2hex (splice 11 (take 64 (drop 8 solution)) (take 1347 extra))
unfolding solution_text
solution_text_lem extra solution = splice-cbin2hex 11 (take 64 (drop 8 solution)) (take 1347 extra)

pub be32enc-be32dec :
    (a b c d : ℕ)
    → a < 256
    → b < 256
    → c < 256
    → d < 256
    → be32enc (be32dec (a ∷ b ∷ c ∷ d ∷ [])) ≡ a ∷ b ∷ c ∷ d ∷ []
unfolding le32dec
be32enc-be32dec a b c d ha hb hc hd = ground arith

-- The pool's part of the nonce and the part that a share spells are the field that was hashed.
pub nonce_field :
    (xnonce1 : Bytes) (nonce : ℕ) (bytes : Memory)
    → length xnonce1 ≤ 12
    → read 108 (length xnonce1) bytes ≡ xnonce1
    → xnonce1 ++ read (108 + length xnonce1) (32 - length xnonce1) (store_word 30 nonce bytes)
      ≡ read 108 32 (store_word 30 nonce bytes)
unfolding store_word
nonce_field xnonce1 nonce bytes short kept =
    let n : ℕ = length xnonce1 in
    let rolled : Memory = memcpy 120 (le32enc nonce) bytes in
    let untouched : read 108 n rolled ≡ read 108 n bytes =
      read_frame 108 n rolled bytes
        (λ k low high. memcpy_outside 120 (le32enc nonce) bytes k (inl (omega arith))) in
    let whole : n + (32 - n) ≡ 32 = omega arith in
    ap (λ s. s ++ read (108 + n) (32 - n) rolled) (sym (untouched ∙ kept))
    ∙ sym (read-append 108 n (32 - n) rolled)
    ∙ ap (λ k. read 108 k rolled) whole

-- The payload that a share spells: the one that was hashed, with the tail of its nonce, and 64 bytes of
-- the job's solution restored.
abbrev pub submitted_payload : (extra tail solution : Bytes) → Bytes
submitted_payload extra tail solution =
    splice 11 (take 64 (drop 8 solution)) (take 1347 (splice 1332 tail extra))

length-splice :
    (at : ℕ) (source target : Bytes)
    → at + length source ≤ length target
    → length (splice at source target) ≡ length target
unfolding splice
length-splice at source target h =
    let rest = drop (at + length source) target in
    omega (
      arith,
      length-append (take at target) (source ++ rest),
      length-append source rest,
      length-take at target (omega arith),
      length-drop (at + length source) target,
    )

splice-IsByte :
    (at : ℕ) (source target : Bytes)
    → All IsByte source
    → All IsByte target
    → All IsByte (splice at source target)
unfolding splice
splice-IsByte at source target hs ht =
    All-append IsByte (take at target) (source ++ drop (at + length source) target)
      (All-take IsByte at target ht)
      (All-append IsByte source (drop (at + length source) target) hs
        (All-drop IsByte (at + length source) target ht))

-- The payload of a share: its parts have their sizes, and are bytes.
pub record IsPayload (extra tail solution : Bytes) : Type 0 where
  pub extra_size : length extra ≡ 1388
  pub tail_size : length tail ≡ 15
  pub solution_size : length solution ≡ 1344
  pub extra_bytes : All IsByte extra
  pub tail_bytes : All IsByte tail
  pub solution_bytes : All IsByte solution

module _ (extra tail solution : Bytes) (h : IsPayload extra tail solution) where
  restored_size : length (take 64 (drop 8 solution)) ≡ 64
  restored_size =
      let shorter = length-drop 8 solution in
      let size = h.solution_size in length-take 64 (drop 8 solution) (omega arith)

  cut_size : length (take 1347 (splice 1332 tail extra)) ≡ 1347
  cut_size =
      let e = h.extra_size in
      let t = h.tail_size in
      let whole = length-splice 1332 tail extra (omega arith) in
      length-take 1347 (splice 1332 tail extra) (omega arith)

  payload_size : length (submitted_payload extra tail solution) ≡ 1347
  payload_size =
      let r = restored_size in
      let c = cut_size in
      length-splice 11 (take 64 (drop 8 solution)) (take 1347 (splice 1332 tail extra))
        (omega arith)
      ∙ cut_size

  payload-IsByte : All IsByte (submitted_payload extra tail solution)
  payload-IsByte =
      splice-IsByte 11 (take 64 (drop 8 solution)) (take 1347 (splice 1332 tail extra))
        (All-take IsByte 64 (drop 8 solution) (All-drop IsByte 8 solution h.solution_bytes))
        (All-take IsByte 1347 (splice 1332 tail extra)
          (splice-IsByte 1332 tail extra h.tail_bytes h.extra_bytes))

  -- What the pool decodes.
  pub decoded_payload :
      hex2bin (solution_text (restored_extra extra tail) solution) 1347
      ≡ some (submitted_payload extra tail solution)
  unfolding restored_extra
  decoded_payload =
      ap (λ s. hex2bin s 1347) (solution_text_lem (splice 1332 tail extra) solution)
      ∙ ap (hex2bin (cbin2hex (submitted_payload extra tail solution))) (sym payload_size)
      ∙ unfold bin2hex in hex2bin-bin2hex (submitted_payload extra tail solution) payload-IsByte
