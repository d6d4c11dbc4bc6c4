-- ===== src/Transport/Capacity.antt =====
-- The bounds of the line buffer of src/stratum_transport.cpp: every write stays within the allocation.
use primo_arm_miner.Prelude.{
  ℕ, suc, ◌+◌, ◌≤◌, ◌<◌, ◌≡◌, inl, inr, false, Option, none, some, List, [], ◌∷◌, ◌++◌, arith,
  Bytes, length, ◌==◌, Bool, Bool-cases, if-choice,
}
use primo_arm_miner.Transport.{
  LineBuffer, stratum_max_line_bytes, stratum_reserve_socket_buffer, stratum_buffer_append,
  stratum_ensure_socket_buffer, at_newline, put_before, hand_over, stratum_take_buffer_line,
  Arrival, expired, again, closed, chunk, Ending, waiting, has_nul, take_chunk, turn_of, settle,
  receive,
}

pub length-append : (s t : Bytes) → length (s ++ t) ≡ length s + length t
length-append [] t = omega arith
length-append (c ∷ s) t = omega (arith, length-append s t)

-- The text with its NUL is inside the allocation, and no longer than a line may be.
pub record Fits (b : LineBuffer) : Type 0 where
  pub inside : length b.sockbuf < b.sockbuf_size
  pub bounded : length b.sockbuf ≤ stratum_max_line_bytes

pub append-Fits : (s : Bytes) (b : LineBuffer) → Fits b → Fits (stratum_buffer_append s b).0
unfolding stratum_buffer_append stratum_reserve_socket_buffer
append-Fits s b v = ground (arith, length-append b.sockbuf s)

Shorter : ℕ → Option (Bytes × Bytes) → Type 0
Shorter n none = Unit
Shorter n (some (line, rest)) = length rest < n

put-Shorter :
    (c n : ℕ) (o : Option (Bytes × Bytes)) → Shorter n o → Shorter (suc n) (put_before c o)
unfolding Shorter put_before
put-Shorter c n none h = tt
put-Shorter c n (some (line, rest)) h = omega (arith, h)

at_newline-Shorter : (s : Bytes) → Shorter (length s) (at_newline s)
unfolding at_newline Shorter
at_newline-Shorter [] = tt
at_newline-Shorter (c ∷ s) = elim (Bool-cases (c == b'\n')) [
  | inl e ↦ rw e (omega arith)
  | inr e ↦ rw e (put-Shorter c (length s) (at_newline s) (at_newline-Shorter s))
]

-- A line that is taken out leaves less in the buffer.
Shorter-Fits :
    (b : LineBuffer) (o : Option (Bytes × Bytes))
    → Shorter (length b.sockbuf) o
    → Fits b
    → Fits (hand_over b o).0
unfolding Shorter hand_over
Shorter-Fits b none h v = v
Shorter-Fits b (some (line, rest)) h v = record {
  inside = omega (arith, h, v.inside);
  bounded = omega (arith, h, v.bounded);
}

pub take_line-Fits : (b : LineBuffer) → Fits b → Fits (stratum_take_buffer_line b).0
unfolding stratum_take_buffer_line
take_line-Fits b v = Shorter-Fits b (at_newline b.sockbuf) (at_newline-Shorter b.sockbuf) v

chunk-Fits : (s : Bytes) (b : LineBuffer) → Fits b → Fits (take_chunk s b).0
unfolding take_chunk
chunk-Fits s b v =
    if-choice (λ (out : LineBuffer × Bool). Fits out.0) (has_nul s) {x = (b, false)}
      {y = stratum_buffer_append s b} v (append-Fits s b v)

turn-Fits : (a : Arrival) (b : LineBuffer) → Fits b → Fits (turn_of a b).0
unfolding turn_of
turn-Fits expired b v = v
turn-Fits again b v = v
turn-Fits closed b v = v
turn-Fits (chunk s) b v = chunk-Fits s b v

settle-Fits :
    (line : LineBuffer × Option Bytes) (turn : LineBuffer × Option Ending)
    (rest : LineBuffer × Ending)
    → Fits line.0
    → Fits turn.0
    → Fits rest.0
    → Fits (settle line turn rest).0
unfolding settle
settle-Fits (b, some line) turn rest v w x = v
settle-Fits (b, none) (b', some ending) rest v w x = w
settle-Fits (b, none) (b', none) rest v w x = x

-- From a buffer whose text fits, whatever a pool sends and however it is cut up: after every call the text and its NUL are inside the
-- allocation, and the text is at most the longest line that is allowed.
pub receive-Fits : (arrivals : List Arrival) (b : LineBuffer) → Fits b → Fits (receive arrivals b).0
unfolding receive
receive-Fits [] b v = settle-Fits _ (b, some waiting) (b, waiting) (take_line-Fits b v) v v
receive-Fits (a ∷ later) b v =
    let turn = turn-Fits a b v in
    settle-Fits _ (turn_of a b) (receive later (turn_of a b).0) (take_line-Fits b v) turn
      (receive-Fits later (turn_of a b).0 turn)

pub ensure-Fits : (b : LineBuffer) → Fits (stratum_ensure_socket_buffer b)
unfolding stratum_ensure_socket_buffer
ensure-Fits b = ground arith
