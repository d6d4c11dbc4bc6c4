-- ===== src/Transport/Receive.antt =====
-- A line that comes in whole is handed over, in src/stratum_transport.cpp.
use primo_arm_miner.Prelude.{
  ℕ, ◌≤◌, ◌≡◌, refl, sym, ap, subst, ◌∙◌, inl, inr, true, false, Option, none, some, List, [], ◌∷◌,
  ◌++◌, arith, Bytes, length, ◌==◌, Bool-cases,
}
use mathlib.Core.List.{append-nil, append_assoc}
use primo_arm_miner.Transport.{
  LineBuffer, stratum_max_line_bytes, stratum_reserve_socket_buffer, stratum_buffer_append,
  at_newline, put_before, hand_over, stratum_take_buffer_line, Arrival, expired, again, closed,
  chunk, Ending, got, waiting, has_nul, take_chunk, turn_of, settle, receive,
}
use primo_arm_miner.Transport.Capacity.{length-append}
use primo_arm_miner.Transport.Framing.{bytes_of}

-- Only bytes come in, and none of them is NUL.
abbrev pub Calm : List Arrival → Type 0
Calm [] = Unit
Calm (expired ∷ later) = ⊥
Calm (again ∷ later) = Calm later
Calm (closed ∷ later) = ⊥
Calm (chunk s ∷ later) = (has_nul s ≡ false) × Calm later

-- Where the first newline of a text with more behind it is.
after : Bytes → Option (Bytes × Bytes) → Option (Bytes × Bytes)
after s none = none
after s (some (line, rest)) = some (s ++ line, rest)

either : Bytes → Bytes → Option (Bytes × Bytes) → Option (Bytes × Bytes) → Option (Bytes × Bytes)
unfolding after
either s t (some (line, rest)) later = some (line, rest ++ t)
either s t none later = after s later

put-either :
    (c : ℕ) (s t : Bytes) (here later : Option (Bytes × Bytes))
    → put_before c (either s t here later) ≡ either (c ∷ s) t (put_before c here) later
unfolding put_before either
put-either c s t (some (line, rest)) later = refl
put-either c s t none none = refl
put-either c s t none (some (line, rest)) = refl

after_nothing : (t : Bytes) (o : Option (Bytes × Bytes)) → o ≡ either [] t none o
unfolding either
after_nothing t none = refl
after_nothing t (some (line, rest)) = refl

either_here :
    (rest t : Bytes) (later : Option (Bytes × Bytes)) (s : Bytes)
    → some ([], rest ++ t) ≡ either s t (some ([], rest)) later
unfolding either
either_here rest t later s = refl

at_newline-append : (s t : Bytes) → at_newline (s ++ t) ≡ either s t (at_newline s) (at_newline t)
unfolding at_newline
at_newline-append [] t = after_nothing t (at_newline t)
at_newline-append (c ∷ s) t = elim (Bool-cases (c == b'\n')) [
  | inl e ↦ rw e (either_here s t (at_newline t) (c ∷ s))
  | inr e ↦
      rw e
        (ap (put_before c) (at_newline-append s t) ∙ put-either c s t (at_newline s) (at_newline t))
]

room :
    (s : Bytes) (b : LineBuffer)
    → length (b.sockbuf ++ s) ≤ stratum_max_line_bytes
    → let (b', ok) = stratum_buffer_append s b in (ok ≡ true) × (b'.sockbuf ≡ b.sockbuf ++ s)
unfolding stratum_buffer_append stratum_reserve_socket_buffer
room s b h = ground (arith, length-append b.sockbuf s)

chunk_room :
    (s : Bytes) (b : LineBuffer)
    → has_nul s ≡ false
    → length (b.sockbuf ++ s) ≤ stratum_max_line_bytes
    → let (b', ok) = take_chunk s b in (ok ≡ true) × (b'.sockbuf ≡ b.sockbuf ++ s)
unfolding take_chunk
chunk_room s b n h = rw n (room s b h)

-- A line that is there is handed over; and else the loop goes on.
found_first :
    (b : LineBuffer) (t line rest : Bytes) (o later : Option (Bytes × Bytes))
    (turn : LineBuffer × Option Ending) (next : LineBuffer × Ending)
    → either b.sockbuf t o later ≡ some (line, rest)
    → (o ≡ none → (settle (b, none) turn next).1 ≡ got line)
    → (settle (hand_over b o) turn next).1 ≡ got line
unfolding either hand_over settle
found_first b t line rest none later turn next h go = go refl
found_first b t line rest (some (line', rest')) later turn next h go = ground arith

-- What is still to come, after a turn that does not end the loop.
turn-Calm :
    (a : Arrival) (later : List Arrival) (b : LineBuffer)
    → Calm (a ∷ later)
    → length (b.sockbuf ++ bytes_of (a ∷ later)) ≤ stratum_max_line_bytes
    → let (b', ending) = turn_of a b in
      Calm later
      × (ending ≡ none)
      × (b'.sockbuf ++ bytes_of later ≡ b.sockbuf ++ bytes_of (a ∷ later))
unfolding turn_of
turn-Calm expired later b h fit = absurd h
turn-Calm again later b h fit = (h, refl, refl)
turn-Calm closed later b h fit = absurd h
turn-Calm (chunk s) later b (n, h) fit =
    let (fits, more) = chunk_room s b n (
      omega (
        arith,
        fit,
        length-append b.sockbuf s,
        length-append b.sockbuf (s ++ bytes_of later),
        length-append s (bytes_of later),
      )) in
    (
      h,
      rw fits refl,
      ap (λ t. t ++ bytes_of later) more ∙ append_assoc b.sockbuf s (bytes_of later),
    )

settle_next :
    (b : LineBuffer) (turn : LineBuffer × Option Ending) (next : LineBuffer × Ending)
    → turn.1 ≡ none
    → settle (b, none) turn next ≡ next
unfolding settle
settle_next b (b', none) next h = refl
settle_next b (b', some ending) next h = ground arith

-- Bytes without a NUL, at most the longest line in all, however they are cut up: as soon as they and
-- the buffer hold a newline, the call hands over the text before the first one.
pub receive_line :
    (arrivals : List Arrival) (b : LineBuffer) (line rest : Bytes)
    → Calm arrivals
    → length (b.sockbuf ++ bytes_of arrivals) ≤ stratum_max_line_bytes
    → at_newline (b.sockbuf ++ bytes_of arrivals) ≡ some (line, rest)
    → (receive arrivals b).1 ≡ got line
unfolding receive stratum_take_buffer_line
receive_line [] b line rest calm fit h =
    found_first b [] line rest (at_newline b.sockbuf) (at_newline []) (b, some waiting) (b, waiting)
      (sym (at_newline-append b.sockbuf []) ∙ h)
      (λ e. cc (sym e ∙ ap at_newline (sym (append-nil b.sockbuf)) ∙ h))
receive_line (a ∷ later) b line rest calm fit h =
    let (calm', goes_on, same) = turn-Calm a later b calm fit in
    let turn = turn_of a b in
    let next = receive later turn.0 in
    let ih =
      receive_line later turn.0 line rest calm'
        (subst (λ t. length t ≤ stratum_max_line_bytes) (sym same) fit) (ap at_newline same ∙ h) in
    found_first b (bytes_of (a ∷ later)) line rest (at_newline b.sockbuf)
      (at_newline (bytes_of (a ∷ later))) turn next
      (sym (at_newline-append b.sockbuf (bytes_of (a ∷ later))) ∙ h)
      (λ e. ap (λ out. out.1) (settle_next b turn next goes_on) ∙ ih)
