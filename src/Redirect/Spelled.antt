-- ===== src/Redirect/Spelled.antt =====
-- Which texts strtol reads as a port, apart from how it reads them.
use primo_arm_miner.Prelude.{
  ℕ, ◌≤◌, ◌<◌, ◌≡◌, ◌⊎◌, inl, inr, refl, sym, ap, ◌∙◌, Bool, true, false, Option, some, none, [],
  ◌∷◌, ◌++◌, arith, ◌==◌, Bytes, codes, length, All, Bool-cases,
}
use primo_arm_miner.Prelude.Options.{result-eq}
use primo_arm_miner.Numeral.{
  is_digit, is_space, skip_spaces, take_digits, unsigned, signed_as, sign_and_digits, signed_long,
  strtol,
}
use primo_arm_miner.Numeral.Decimal.{
  IsDigit, value, take_digits-All, take_digits-end, sign_and_digits-digit,
}
use primo_arm_miner.Redirect.{port_within, port_of_number}

abbrev pub IsSpace : ℕ → Type 0
IsSpace c = is_space c ≡ true

-- White space, perhaps a plus, and digits to the end that spell `n`.
pub record SpellsPort (text : Bytes) (n : ℕ) : Type 0 where
  pub spaces : Bytes
  pub sign : Bytes
  pub digits : Bytes
  pub cut : text ≡ spaces ++ (sign ++ digits)
  pub blank : All IsSpace spaces
  pub plus : (sign ≡ []) ⊎ (sign ≡ codes "+")
  pub all_digits : All IsDigit digits
  pub some_digit : 0 < length digits
  pub spelled : value 0 digits ≡ n

skip_run :
    (spaces rest : Bytes) → All IsSpace spaces → skip_spaces (spaces ++ rest) ≡ skip_spaces rest
unfolding skip_spaces
skip_run [] rest h = refl
skip_run (c ∷ spaces) rest (blank, h) = rw blank (skip_run spaces rest h)

skip_split :
    (text : Bytes) → (spaces : Bytes) × (text ≡ spaces ++ skip_spaces text) × All IsSpace spaces
unfolding skip_spaces
skip_split [] = ([], refl, tt)
skip_split (c ∷ s) = elim (Bool-cases (is_space c)) [
  | inl blank ↦
      let (spaces, e, h) = skip_split s in (c ∷ spaces, rw blank (ap (λ r. c ∷ r) e), (blank, h))
  | inr other ↦ ([], rw other refl, tt)
]

unsigned_digit : (c : ℕ) (s : Bytes) → IsDigit c → unsigned (c ∷ s) ≡ some (take_digits 0 (c ∷ s))
unfolding unsigned take_digits
unsigned_digit c s d = rw d refl

unsigned-digits :
    (digits : Bytes)
    → All IsDigit digits
    → 0 < length digits
    → unsigned digits ≡ some (value 0 digits, [])
unsigned-digits [] h some_digit = absurd (omega arith)
unsigned-digits (c ∷ s) h some_digit =
    unsigned_digit c s h.0 ∙ ap some (take_digits-All 0 (c ∷ s) h)

digits-unsigned :
    (s : Bytes) (n : ℕ)
    → unsigned s ≡ some (n, [])
    → All IsDigit s × (0 < length s) × (value 0 s ≡ n)
unfolding unsigned
digits-unsigned [] n e = absurd cc
digits-unsigned (c ∷ s) n e = elim (Bool-cases (is_digit c)) [
  | inl d ↦
      let (all, same) =
        take_digits-end 0 (c ∷ s) n (sym (result-eq (sym (unsigned_digit c s d) ∙ e))) in
      (all, omega arith, sym same)
  | inr other ↦ absurd (let e' = rw other at e in cc)
]

signed_cases :
    (minus : Bool) (o : Option (ℕ × Bytes)) (n : ℕ)
    → signed_as minus o ≡ some (false, n, [])
    → (minus ≡ false) × (o ≡ some (n, []))
unfolding signed_as
signed_cases minus none n e = absurd cc
signed_cases minus (some (m, rest)) n e = (cc, cc)

-- What is read as a number without a minus and without a rest.
sign_split :
    (s : Bytes) (n : ℕ)
    → sign_and_digits s ≡ some (false, n, [])
    → (sign : Bytes) × (digits : Bytes) × (s ≡ sign ++ digits)
      × ((sign ≡ []) ⊎ (sign ≡ codes "+"))
      × All IsDigit digits
      × (0 < length digits)
      × (value 0 digits ≡ n)
unfolding sign_and_digits
sign_split [] n e = absurd cc
sign_split (c ∷ s) n e = elim (Bool-cases (c == b'-')) [
  | inl minus ↦ absurd (let (wrong, _) = signed_cases true (unsigned s) n (rw minus at e) in cc)
  | inr no_minus ↦ elim (Bool-cases (c == b'+')) [
    | inl plus ↦
        let (_, u) = signed_cases false (unsigned s) n (rw (no_minus, plus) at e) in
        let same : c ≡ b'+' = ground arith in
        let (all, positive, spelled) = digits-unsigned s n u in
        (c ∷ [], s, refl, inr (ap (λ x. x ∷ []) same), all, positive, spelled)
    | inr no_plus ↦
        let (_, u) = signed_cases false (unsigned (c ∷ s)) n (rw (no_minus, no_plus) at e) in
        let (all, positive, spelled) = digits-unsigned (c ∷ s) n u in
        ([], c ∷ s, refl, inl refl, all, positive, spelled)
  ]
]

-- A number that is read and is a port.
abbrev read_port : Option (Bool × ℕ × Bytes) → ℕ
read_port none = 0
read_port (some (minus, n, [])) = port_within (signed_long minus n).0
read_port (some (minus, n, c ∷ rest)) = 0

port_of-read :
    (text : Bytes) → port_of_number (strtol text) ≡ read_port (sign_and_digits (skip_spaces text))
unfolding port_of_number strtol
port_of-read text = go (sign_and_digits (skip_spaces text))
  where
    go :
        (o : Option (Bool × ℕ × Bytes))
        → port_of_number (elim o [
          | none ↦ none
          | some (minus, n, rest) ↦
              let (value, erange) = signed_long minus n in some (value, erange, rest)
        ])
          ≡ read_port o
    go none = refl
    go (some (minus, n, [])) = refl
    go (some (minus, n, c ∷ rest)) = refl

read_port_lem :
    (o : Option (Bool × ℕ × Bytes)) (n : ℕ) → read_port o ≡ n → 0 < n → o ≡ some (false, n, [])
unfolding signed_long
read_port_lem none n e h = absurd (omega arith)
read_port_lem (some (minus, m, c ∷ rest)) n e h = absurd (omega arith)
read_port_lem (some (false, m, [])) n e h = let same : m ≡ n = ground arith in rw same refl
read_port_lem (some (true, m, [])) n e h = absurd (ground arith)

-- Whatever is taken for a port is spelled as one.
pub port_of_number-SpellsPort :
    (text : Bytes) (n : ℕ) → port_of_number (strtol text) ≡ n → 0 < n → SpellsPort text n
port_of_number-SpellsPort text n e h =
    let read =
      read_port_lem (sign_and_digits (skip_spaces text)) n (sym (port_of-read text) ∙ e) h in
    let (spaces, cut, blank) = skip_split text in
    let (sign, digits, rest, plus, all, positive, spelled) = sign_split (skip_spaces text) n read in
    record {
      spaces = spaces;
      sign = sign;
      digits = digits;
      cut = cut ∙ ap (λ r. spaces ++ r) rest;
      blank = blank;
      plus = plus;
      all_digits = all;
      some_digit = positive;
      spelled = spelled;
    }

signed_digits :
    (sign digits : Bytes)
    → (sign ≡ []) ⊎ (sign ≡ codes "+")
    → All IsDigit digits
    → 0 < length digits
    → sign_and_digits (skip_spaces (sign ++ digits)) ≡ some (false, value 0 digits, [])
unfolding sign_and_digits signed_as skip_spaces
signed_digits sign [] plus all positive = absurd (omega arith)
signed_digits sign (c ∷ s) (inl e) all positive =
    rw (e, sign_and_digits-digit c s all.0, take_digits-All 0 (c ∷ s) all) refl
signed_digits sign (c ∷ s) (inr e) all positive = rw (e, unsigned-digits (c ∷ s) all positive) refl

-- Whatever is spelled as a port is taken for it.
pub SpellsPort-port_of_number :
    (text : Bytes) (n : ℕ)
    → SpellsPort text n
    → 0 < n
    → n ≤ 65535
    → port_of_number (strtol text) ≡ n
unfolding signed_long
SpellsPort-port_of_number text n v h small =
    let read : sign_and_digits (skip_spaces text) ≡ some (false, value 0 v.digits, []) =
      ap (λ t. sign_and_digits (skip_spaces t)) v.cut
      ∙ ap sign_and_digits (skip_run v.spaces (v.sign ++ v.digits) v.blank)
      ∙ signed_digits v.sign v.digits v.plus v.all_digits v.some_digit in
    rw (port_of-read text, read, v.spelled) (ground arith)
