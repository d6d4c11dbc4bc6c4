-- ===== src/Prelude/Memory.antt =====
-- Memory as a function of the address, copies into it, and the words of a little-endian machine.
use Prim.Native.Nat.{ℕ, zero, suc, ◌+◌, ◌*◌, ◌/◌, ◌%◌, ◌≤◌, ◌<◌}
use mathlib.Core.Path.{◌≡◌, refl, sym, ap, ◌∙◌}
use mathlib.Core.Logic.{◌⊎◌, inl, inr}
use mathlib.Core.List.{[], ◌∷◌, ◌++◌}
use native.Mathlib.Omega.{arith}
use primo_arm_miner.Prelude.Tests.{◌==◌, if-choice}
use primo_arm_miner.Prelude.Lists.{Bytes, length, get_or, update, All, drop, replicate}

abbrev pub Memory : Type 0
Memory = ℕ → ℕ

-- memcpy(base + at, src, length src).
unfoldable pub memcpy : ℕ → Bytes → Memory → Memory
memcpy at [] m = m
memcpy at (b ∷ src) m = memcpy (at + 1) src (update m at b)

-- The `n` bytes from `at` on.
unfoldable pub read : (at n : ℕ) → Memory → Bytes
read at zero m = []
read at (suc n) m = m at ∷ read (at + 1) n m

-- The value of four bytes, the lowest first (le32dec of include/byteorder.h).
unfoldable pub le32dec : Bytes → ℕ
le32dec p = get_or p 0 0 + get_or p 1 0 * 256 + get_or p 2 0 * 65536 + get_or p 3 0 * 16777216

-- The four bytes of a 32-bit word (le32enc of include/byteorder.h).
unfoldable pub le32enc : ℕ → Bytes
le32enc x = x % 256 ∷ x / 256 % 256 ∷ x / 65536 % 256 ∷ x / 16777216 % 256 ∷ []

-- `words[i] = value`.
unfoldable pub store_word : ℕ → ℕ → Memory → Memory
store_word i value = memcpy (4 * i) (le32enc value)

-- `for (k = 0; k < left; k++) words[i + k] = le32dec(src + 4 * k);`
unfoldable pub store_words : (i left : ℕ) → Bytes → Memory → Memory
store_words i zero src m = m
store_words i (suc left) src m =
    store_words (i + 1) left (drop 4 src) (store_word i (le32dec src) m)

abbrev pub IsByte : ℕ → Type 0
IsByte b = b < 256

pub memcpy-append :
    (at : ℕ) (xs ys : Bytes) (m : Memory)
    → memcpy at (xs ++ ys) m ≡ memcpy (at + length xs) ys (memcpy at xs m)
unfolding memcpy
memcpy-append at [] ys m = ap (λ k. memcpy k ys m) (omega arith)
memcpy-append at (x ∷ xs) ys m =
    let e : at + 1 + length xs ≡ at + suc (length xs) = omega arith in
    rw (← e) (memcpy-append (at + 1) xs ys (update m at x))

-- Copies that follow each other are one.
pub memcpy-then :
    (at n : ℕ) (xs ys : Bytes) (m : Memory)
    → length xs ≡ n
    → memcpy (at + n) ys (memcpy at xs m) ≡ memcpy at (xs ++ ys) m
memcpy-then at n xs ys m e = rw (← e) (sym (memcpy-append at xs ys m))

-- A copy changes nothing outside its target.
pub memcpy_outside :
    (at : ℕ) (src : Bytes) (m : Memory) (j : ℕ)
    → (j < at) ⊎ (at + length src ≤ j)
    → memcpy at src m j ≡ m j
unfolding memcpy
memcpy_outside at [] m j h = refl
memcpy_outside at (x ∷ xs) m j (inl h) =
    ground (arith, memcpy_outside (at + 1) xs (update m at x) j)
memcpy_outside at (x ∷ xs) m j (inr h) =
    ground (arith, memcpy_outside (at + 1) xs (update m at x) j)

-- What was copied is read back.
pub read-memcpy : (at : ℕ) (src : Bytes) (m : Memory) → read at (length src) (memcpy at src m) ≡ src
unfolding memcpy read
read-memcpy at [] m = refl
read-memcpy at (x ∷ xs) m =
    let e : memcpy (at + 1) xs (update m at x) at ≡ x =
      ground (arith, memcpy_outside (at + 1) xs (update m at x) at (inl (omega arith))) in
    rw (e, read-memcpy (at + 1) xs (update m at x)) refl

-- A 32-bit word has the bytes that it was read from.
pub le32enc-le32dec :
    (a b c d : ℕ) (rest : Bytes)
    → a < 256
    → b < 256
    → c < 256
    → d < 256
    → le32enc (le32dec (a ∷ b ∷ c ∷ d ∷ rest)) ≡ a ∷ b ∷ c ∷ d ∷ []
unfolding le32enc le32dec
le32enc-le32dec a b c d rest ha hb hc hd = ground arith

-- Storing the words of a text is copying it.
pub store_words-memcpy :
    (i left : ℕ) (src : Bytes) (m : Memory)
    → length src ≡ 4 * left
    → All IsByte src
    → store_words i left src m ≡ memcpy (4 * i) src m
unfolding store_words
store_words-memcpy i zero [] m e h = unfold memcpy in refl
store_words-memcpy i zero (a ∷ src) m e h = absurd (omega arith)
store_words-memcpy i (suc left) (a ∷ b ∷ c ∷ d ∷ src) m e (ha, (hb, (hc, (hd, hs)))) =
    let next : 4 * (i + 1) ≡ 4 * i + 4 = omega arith in
    let word : store_word i (le32dec (a ∷ b ∷ c ∷ d ∷ src)) m
        ≡ memcpy (4 * i) (a ∷ b ∷ c ∷ d ∷ []) m =
      unfold store_word in
      ap (λ bs. memcpy (4 * i) bs m) (le32enc-le32dec a b c d src ha hb hc hd) in
    store_words-memcpy (i + 1) left src _ (omega arith) hs
    ∙ ap (λ k. memcpy k src (store_word i (le32dec (a ∷ b ∷ c ∷ d ∷ src)) m)) next
    ∙ ap (memcpy (4 * i + 4) src) word
    ∙ sym (memcpy-append (4 * i) (a ∷ b ∷ c ∷ d ∷ []) src m)
store_words-memcpy i (suc left) [] m e h = absurd (omega arith)
store_words-memcpy i (suc left) (a ∷ []) m e h = absurd (omega arith)
store_words-memcpy i (suc left) (a ∷ b ∷ []) m e h = absurd (omega arith)
store_words-memcpy i (suc left) (a ∷ b ∷ c ∷ []) m e h = absurd (omega arith)

-- A read depends only on the bytes that it reads.
pub read_frame :
    (at n : ℕ) (f g : Memory)
    → ((k : ℕ) → at ≤ k → k < at + n → f k ≡ g k)
    → read at n f ≡ read at n g
unfolding read
read_frame at zero f g h = refl
read_frame at (suc n) f g h =
    let here = h at (omega arith) (omega arith) in
    let later = read_frame (at + 1) n f g (λ k low high. h k (omega arith) (omega arith)) in
    rw (here, later) refl

pub read-append : (at n k : ℕ) (m : Memory) → read at (n + k) m ≡ read at n m ++ read (at + n) k m
unfolding read
read-append at zero k m =
    let e : at + 0 ≡ at = omega arith in let z : 0 + k ≡ k = omega arith in rw (e, z) refl
read-append at (suc n) k m =
    let e : at + suc n ≡ at + 1 + n = omega arith in
    let z : suc n + k ≡ suc (n + k) = omega arith in rw (e, z, read-append (at + 1) n k m) refl

-- Clear memory reads as zeros.
pub read-zeros : (at n : ℕ) → read at n (λ _. 0) ≡ replicate n 0
unfolding read
read-zeros at zero = refl
read-zeros at (suc n) = ap (λ s. 0 ∷ s) (read-zeros (at + 1) n)

pub length-read : (at n : ℕ) (m : Memory) → length (read at n m) ≡ n
unfolding read
length-read at zero m = refl
length-read at (suc n) m = ap suc (length-read (at + 1) n m)

pub read-IsByte : (at n : ℕ) (m : Memory) → ((k : ℕ) → m k < 256) → All IsByte (read at n m)
unfolding read
read-IsByte at zero m h = tt
read-IsByte at (suc n) m h = (h at, read-IsByte (at + 1) n m h)

pub memcpy-IsByte :
    (at : ℕ) (src : Bytes) (m : Memory)
    → All IsByte src
    → ((k : ℕ) → m k < 256)
    → (k : ℕ) → memcpy at src m k < 256
unfolding memcpy
memcpy-IsByte at [] m h old k = old k
memcpy-IsByte at (b ∷ src) m (byte, h) old k =
    memcpy-IsByte (at + 1) src (update m at b) h
      (λ i. if-choice (λ v. v < 256) (at == i) byte (old i)) k

pub le32enc-IsByte : (x : ℕ) → All IsByte (le32enc x)
unfolding le32enc
le32enc-IsByte x = omega arith
