-- ===== src/Transport/Framing.antt =====
-- Framing: bytes come out of the buffer of src/stratum_transport.cpp in the order in which they came in.
use primo_arm_miner.Prelude.{
  ℕ, ◌≡◌, refl, sym, ap, ◌∙◌, ◌⊎◌, inl, inr, true, false, Option, none, some, List, [], ◌∷◌, ◌++◌,
  arith, Bytes, ◌==◌, Bool-cases,
}
use mathlib.Core.List.{append-nil, append_assoc}
use primo_arm_miner.Transport.{
  LineBuffer, stratum_buffer_append, stratum_reserve_socket_buffer, at_newline, put_before,
  hand_over, stratum_take_buffer_line, Arrival, expired, again, closed, chunk, Ending, got,
  timed_out, failed, waiting, take_chunk, turn_of, settle, receive,
}

-- What the newline splits is what there was.
Joins : Bytes → Option (Bytes × Bytes) → Type 0
Joins s none = Unit
Joins s (some (line, rest)) = line ++ (b'\n' ∷ rest) ≡ s

put-Joins :
    (c : ℕ) (s : Bytes) (o : Option (Bytes × Bytes)) → Joins s o → Joins (c ∷ s) (put_before c o)
unfolding put_before Joins
put-Joins c s none h = tt
put-Joins c s (some (line, rest)) h = ap (λ t. c ∷ t) h

at_newline-Joins : (s : Bytes) → Joins s (at_newline s)
unfolding at_newline Joins
at_newline-Joins [] = tt
at_newline-Joins (c ∷ s) = elim (Bool-cases (c == b'\n')) [
  | inl e ↦ let here : c ≡ b'\n' = ground arith in rw (e, here) refl
  | inr e ↦ rw e (put-Joins c s (at_newline s) (at_newline-Joins s))
]

-- What has come to light of the stream: the line that is handed over, and the buffer.
abbrev pub seen : LineBuffer × Ending → Bytes
seen (b, got line) = line ++ (b'\n' ∷ b.sockbuf)
seen (b, timed_out) = b.sockbuf
seen (b, failed) = b.sockbuf
seen (b, waiting) = b.sockbuf

abbrev pub bytes_of : List Arrival → Bytes
bytes_of [] = []
bytes_of (expired ∷ later) = bytes_of later
bytes_of (again ∷ later) = bytes_of later
bytes_of (closed ∷ later) = bytes_of later
bytes_of (chunk s ∷ later) = s ++ bytes_of later

taken-seen :
    (b : LineBuffer) (o : Option (Bytes × Bytes)) (turn : LineBuffer × Option Ending)
    (rest : LineBuffer × Ending)
    → Joins b.sockbuf o
    → ((line : Bytes) × (((hand_over b o).1 ≡ some line)
          × (seen (settle (hand_over b o) turn rest) ≡ b.sockbuf)))
      ⊎ (settle (hand_over b o) turn rest ≡ settle (b, none) turn rest)
unfolding hand_over settle Joins
taken-seen b none turn rest h = inr refl
taken-seen b (some (line, left)) turn rest h = inl (line, (refl, h))

-- The stream as it was read: a part of the arrivals, whose bytes follow what the buffer held.
abbrev pub Reads : LineBuffer → List Arrival → LineBuffer × Ending → Type 0
Reads b arrivals out =
    (used : List Arrival) × ((left : List Arrival) × ((used ++ left ≡ arrivals)
        × (seen out ≡ b.sockbuf ++ bytes_of used)))

append_sockbuf :
    (s : Bytes) (b : LineBuffer)
    → let (b', ok) = stratum_buffer_append s b in
      ((ok ≡ true) × (b'.sockbuf ≡ b.sockbuf ++ s)) ⊎ ((ok ≡ false) × (b' ≡ b))
unfolding stratum_buffer_append stratum_reserve_socket_buffer
append_sockbuf s b = ground arith

chunk_sockbuf :
    (s : Bytes) (b : LineBuffer)
    → let (b', ok) = take_chunk s b in
      ((ok ≡ true) × (b'.sockbuf ≡ b.sockbuf ++ s)) ⊎ ((ok ≡ false) × (b' ≡ b))
unfolding take_chunk
chunk_sockbuf s b = ground (arith, append_sockbuf s b)

-- A turn that ends the loop reads nothing; one that does not passes its bytes on.
nothing_read :
    (b : LineBuffer) (arrivals : List Arrival) (e : Ending)
    → seen (b, e) ≡ b.sockbuf
    → Reads b arrivals (b, e)
nothing_read b arrivals e h = ([], (arrivals, (refl, h ∙ sym (append-nil b.sockbuf))))

one_more :
    (b b' : LineBuffer) (a : Arrival) (later : List Arrival) (out : LineBuffer × Ending)
    → ((used : List Arrival) → b'.sockbuf ++ bytes_of used ≡ b.sockbuf ++ bytes_of (a ∷ used))
    → Reads b' later out
    → Reads b (a ∷ later) out
one_more b b' a later out moved (used, (left, (e, h))) =
    (a ∷ used, (left, (ap (λ l. a ∷ l) e, h ∙ moved used)))

-- A turn, when no line is there yet.
turn-Reads :
    (a : Arrival) (later : List Arrival) (b : LineBuffer) (rest : LineBuffer × Ending)
    → Reads (turn_of a b).0 later rest
    → Reads b (a ∷ later) (settle (b, none) (turn_of a b) rest)
unfolding turn_of settle
turn-Reads expired later b rest h = nothing_read b (expired ∷ later) timed_out refl
turn-Reads again later b rest h = one_more b b again later rest (λ used. refl) h
turn-Reads closed later b rest h = nothing_read b (closed ∷ later) failed refl
turn-Reads (chunk s) later b rest h =
    let b' = (take_chunk s b).0 in
    elim (chunk_sockbuf s b) [
      | inl (fits, more) ↦ rw fits (
          one_more b b' (chunk s) later rest
            (λ used. ap (λ t. t ++ bytes_of used) more ∙ append_assoc b.sockbuf s (bytes_of used))
            h)
      | inr (full, same) ↦ rw (full, same) (nothing_read b (chunk s ∷ later) failed refl)
    ]

-- However the bytes of a pool arrive, and however the call ends: what the call hands over, with its
-- newline, and what the buffer then holds, is what the buffer held before with the bytes of the
-- arrivals up to some point. No byte is lost, repeated or moved, and a timeout keeps a partial line.
pub receive-Reads :
    (arrivals : List Arrival) (b : LineBuffer) → Reads b arrivals (receive arrivals b)
unfolding receive stratum_take_buffer_line settle
receive-Reads [] b =
    elim (taken-seen b (at_newline b.sockbuf) (b, some waiting) (b, waiting)
      (at_newline-Joins b.sockbuf)) [
        | inl (line, (found, h)) ↦ ([], ([], (refl, h ∙ sym (append-nil b.sockbuf))))
        | inr none_yet ↦ rw none_yet (nothing_read b [] waiting refl)
      ]
receive-Reads (a ∷ later) b =
    let turn = turn_of a b in
    let rest = receive later turn.0 in
    elim (taken-seen b (at_newline b.sockbuf) turn rest (at_newline-Joins b.sockbuf)) [
      | inl (line, (found, h)) ↦ ([], (a ∷ later, (refl, h ∙ sym (append-nil b.sockbuf))))
      | inr none_yet ↦ rw none_yet (turn-Reads a later b rest (receive-Reads later turn.0))
    ]
