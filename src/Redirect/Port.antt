-- ===== src/Redirect/Port.antt =====
-- The ports that a redirect may name, and the URL that is made of it.
use primo_arm_miner.Prelude.{
  ℕ, zero, suc, ◌+◌, ◌*◌, ◌/◌, ◌%◌, ◌≤◌, ◌<◌, ◌≡◌, ◌⊎◌, inl, inr, refl, ap, ◌∙◌, Bool, true, false,
  not, ◌&&◌, Option, some, none, [], ◌∷◌, ◌++◌, arith, ltb, ◌==◌, Bytes, codes, length,
  length-append, All, Bool-cases, Option-cases,
}
use primo_arm_miner.Prelude.Int.{ℤ, pos, negsuc}
use primo_arm_miner.Json.{Jansson, string_at}
use primo_arm_miner.Pools.{is_empty}
use primo_arm_miner.Numeral.{is_digit, strtol}
use primo_arm_miner.Numeral.Decimal.{IsDigit, value}
use primo_arm_miner.Redirect.Spelled.{
  SpellsPort, port_of_number-SpellsPort, SpellsPort-port_of_number,
}
use primo_arm_miner.Redirect.{
  port_within, port_of_number, port_of, print_from, print_port, scheme, redirect_url, redirect_of,
}

-- The first number with more than so many digits.
abbrev bound : ℕ → ℕ
bound zero = 1
bound (suc digits) = 10 * bound digits

print_from-value :
    (digits n : ℕ) (out : Bytes)
    → n < bound digits
    → value 0 (print_from digits n out) ≡ value n out
unfolding print_from
print_from-value zero n out h = let e : n ≡ 0 = omega arith in rw e refl
print_from-value (suc digits) n out h = elim (Bool-cases (n / 10 == 0)) [
  | inl last ↦ rw last (ap (λ k. value k out) (ground arith))
  | inr more ↦ rw more (
      print_from-value digits (n / 10) ((b'0' + n % 10) ∷ out) (omega arith)
      ∙ ap (λ k. value k out) (omega arith))
]

print_from-digits :
    (digits n : ℕ) (out : Bytes) → All IsDigit out → All IsDigit (print_from digits n out)
unfolding print_from
print_from-digits zero n out h = h
print_from-digits (suc digits) n out h =
    let digit : is_digit (b'0' + n % 10) ≡ true = ground arith in
    elim (Bool-cases (n / 10 == 0)) [
      | inl last ↦ rw last (digit, h)
      | inr more ↦ rw more (print_from-digits digits (n / 10) ((b'0' + n % 10) ∷ out) (digit, h))
    ]

length-print_from :
    (digits n : ℕ) (out : Bytes) → length (print_from digits n out) ≤ digits + length out
unfolding print_from
length-print_from zero n out = omega arith
length-print_from (suc digits) n out = elim (Bool-cases (n / 10 == 0)) [
  | inl last ↦ rw last (omega arith)
  | inr more ↦ rw more (omega (arith, length-print_from digits (n / 10) ((b'0' + n % 10) ∷ out)))
]

-- What a port is printed as.
pub record Prints (port : ℕ) (text : Bytes) : Type 0 where
  pub digits : All IsDigit text
  pub spells : value 0 text ≡ port
  pub short : length text ≤ 5

print_port-Prints : (port : ℕ) → port ≤ 65535 → Prints port (print_port port)
unfolding print_port
print_port-Prints port h = record {
  digits = print_from-digits 5 port [] tt;
  spells = print_from-value 5 port [] (omega arith);
  short = length-print_from 5 port [];
}

port_within-le : (n : ℤ) → port_within n ≤ 65535
port_within-le (pos n) = ground arith
port_within-le (negsuc n) = omega arith

port_of-le : (text : Option Bytes) (number : Option ℤ) → port_of text number ≤ 65535
unfolding port_of port_of_number
port_of-le (some text) number = go (strtol text)
  where
    go : (o : Option (ℤ × Bool × Bytes)) → port_of_number o ≤ 65535
    go none = omega arith
    go (some (n, erange, [])) = port_within-le n
    go (some (n, erange, c ∷ rest)) = omega arith
port_of-le none (some n) = port_within-le n
port_of-le none none = omega arith

-- The length of a URL with a port of at most five digits.
length-redirect_url :
    (use_tls : Bool) (host : Bytes) (port : ℕ)
    → port ≤ 65535
    → length (redirect_url use_tls host port) < 32 + length host
unfolding redirect_url
length-redirect_url true host port h =
    omega (arith, length-append host (codes ":" ++ print_port port), print_port-Prints port h)
length-redirect_url false host port h =
    omega (arith, length-append host (codes ":" ++ print_port port), print_port-Prints port h)

-- The port that the code computes, 0 for none.
abbrev found : (j : Jansson) → Option j.Value → ℕ
found j params = port_of (string_at j params 1) (j.json_integer (j.json_array_get params 1))

-- The parameters name a port: a text spells it, or what is no text is this integer.
abbrev pub NamesPort : (j : Jansson) → Option j.Value → ℕ → Type 0
NamesPort j params port =
    ((text : Bytes) × (string_at j params 1 ≡ some text) × SpellsPort text port)
    ⊎ ((string_at j params 1 ≡ none)
        × (j.json_integer (j.json_array_get params 1) ≡ some (pos port)))

named_of : (n : ℤ) (port : ℕ) → port_within n ≡ port → 0 < port → n ≡ pos port
named_of (pos n) port e h = ground arith
named_of (negsuc n) port e h = absurd (omega arith)

found-NamesPort :
    (j : Jansson) (params : Option j.Value) (port : ℕ)
    → found j params ≡ port
    → 0 < port
    → NamesPort j params port
unfolding port_of
found-NamesPort j params port e h =
    go (string_at j params 1) (j.json_integer (j.json_array_get params 1)) refl refl e
  where
    go :
        (text : Option Bytes) (number : Option ℤ)
        → string_at j params 1 ≡ text
        → j.json_integer (j.json_array_get params 1) ≡ number
        → port_of text number ≡ port
        → NamesPort j params port
    go (some text) number e1 e2 e3 = inl (text, e1, port_of_number-SpellsPort text port e3 h)
    go none (some n) e1 e2 e3 = inr (e1, e2 ∙ ap some (named_of n port e3 h))
    go none none e1 e2 e3 = absurd (omega arith)

NamesPort-found :
    (j : Jansson) (params : Option j.Value) (port : ℕ)
    → NamesPort j params port
    → 0 < port
    → port ≤ 65535
    → found j params ≡ port
unfolding port_of
NamesPort-found j params port (inl (text, e, spelled)) h small =
    rw e (SpellsPort-port_of_number text port spelled h small)
NamesPort-found j params port (inr (e, e')) h small = rw (e, e') (ground arith)

-- A redirect to a host and a port.
pub record ValidRedirect (j : Jansson) (use_tls : Bool) (params : Option j.Value) (url : Bytes)
    : Type 0 where
  pub host : Bytes
  pub port : ℕ
  pub port_text : Bytes
  pub named : string_at j params 0 ≡ some host
  pub not_empty : is_empty host ≡ false
  pub named_port : NamesPort j params port
  pub positive : 0 < port
  pub in_range : port ≤ 65535
  pub printed : Prints port port_text
  pub assembled : url ≡ scheme use_tls ++ (codes "://" ++ (host ++ (codes ":" ++ port_text)))
  pub fits_buffer : length url < 32 + length host

-- No host, an empty one, or no port from 1 to 65535.
abbrev pub NoTarget : (j : Jansson) → Option j.Value → Type 0
NoTarget j params =
    (string_at j params 0 ≡ none)
    ⊎ ((string_at j params 0 ≡ some [])
        ⊎ ((port : ℕ) → ¬ (NamesPort j params port × (0 < port) × (port ≤ 65535))))

empty_host : (host : Bytes) → is_empty host ≡ true → host ≡ []
empty_host [] e = refl
empty_host (c ∷ s) e = absurd cc

no_target :
    (j : Jansson) (params : Option j.Value) (host : Bytes)
    → string_at j params 0 ≡ some host
    → not (is_empty host) && ltb 0 (found j params) ≡ false
    → NoTarget j params
no_target j params host e refused = elim (Bool-cases (is_empty host)) [
  | inl empty ↦ inr (inl (e ∙ ap some (empty_host host empty)))
  | inr full ↦ inr (
      inr (λ port (named, positive, small).
        let same = NamesPort-found j params port named positive small in ground arith))
]

-- A redirect is refused exactly if it names no host, an empty one, or no port from 1 to 65535: the port is
-- an integer, or a text of white space, perhaps a plus, and digits to the end. Otherwise its URL is the
-- scheme of the session, the host, and at most five digits that spell the port, and is shorter than its
-- buffer, which has 32 bytes more than the host.
pub redirect_of_lem :
    (j : Jansson) (use_tls : Bool) (params : Option j.Value)
    → ((redirect_of j use_tls params ≡ none) × NoTarget j params)
      ⊎ ((url : Bytes) × (redirect_of j use_tls params ≡ some url)
          × ValidRedirect j use_tls params url)
unfolding redirect_of
redirect_of_lem j use_tls params = elim (Option-cases (string_at j params 0)) [
  | inl e ↦ inl (rw e refl, inl e)
  | inr (host, e) ↦ elim (Bool-cases (not (is_empty host) && ltb 0 (found j params))) [
    | inl valid ↦
        let port = found j params in
        let range : port ≤ 65535 = port_of-le (string_at j params 1) _ in
        let positive : 0 < port = ground arith in
        inr (
          redirect_url use_tls host port,
          rw (e, valid) refl,
          record {
            host = host;
            port = port;
            port_text = print_port port;
            named = e;
            not_empty = ground arith;
            named_port = found-NamesPort j params port refl positive;
            positive = positive;
            in_range = range;
            printed = print_port-Prints port range;
            assembled = unfold redirect_url in refl;
            fits_buffer = length-redirect_url use_tls host port range;
          },
        )
    | inr refused ↦ inl (rw (e, refused) refl, no_target j params host e refused)
  ]
]
