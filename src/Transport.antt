-- ===== src/Transport.antt =====
-- src/stratum_transport.cpp: the buffer in which received bytes gather until they make a line. The
-- buffer is a C string: the list of its bytes before the NUL, and the size of its allocation.
pub mod Framing
pub mod Capacity
pub mod Receive
mod Tests
use primo_arm_miner.Prelude.{
  ℕ, ◌+◌, ◌-◌, ◌%◌, Bool, true, false, not, ◌||◌, Option, none, some, List, [], ◌∷◌, ◌++◌, ltb,
  ◌==◌, if◌then◌else◌, Bytes, length,
}

abbrev pub rbufsize : ℕ
rbufsize = 2048

abbrev pub stratum_max_line_bytes : ℕ
stratum_max_line_bytes = 262144

-- `sockbuf` and `sockbuf_size`.
pub record LineBuffer : Type 0 where
  pub sockbuf : Bytes
  pub sockbuf_size : ℕ

unfoldable pub stratum_reserve_socket_buffer : ℕ → LineBuffer → LineBuffer × Bool
stratum_reserve_socket_buffer min_size b =
    if ltb (stratum_max_line_bytes + 1) min_size
    then (b, false)
    else if ltb min_size b.sockbuf_size
    then (b, true)
    else (record b { sockbuf_size = min_size + (rbufsize - min_size % rbufsize) }, true)

unfoldable pub stratum_buffer_append : Bytes → LineBuffer → LineBuffer × Bool
stratum_buffer_append s b =
    let (b', fits) = stratum_reserve_socket_buffer (length b.sockbuf + length s + 1) b in
    if not fits then (b', false) else (record b' { sockbuf = b.sockbuf ++ s }, true)

-- An unallocated buffer is one of size 0.
unfoldable pub stratum_ensure_socket_buffer : LineBuffer → LineBuffer
stratum_ensure_socket_buffer b = record b {
  sockbuf = [];
  sockbuf_size = if b.sockbuf_size == 0 then rbufsize else b.sockbuf_size;
}

unfoldable pub stratum_reset_socket_buffer : LineBuffer → LineBuffer
stratum_reset_socket_buffer b = record b { sockbuf = [] }

-- strchr(s, '\n'): the bytes before the first newline and those after it.
put_before : ℕ → Option (Bytes × Bytes) → Option (Bytes × Bytes)
put_before c none = none
put_before c (some (line, rest)) = some (c ∷ line, rest)

unfoldable pub at_newline : Bytes → Option (Bytes × Bytes)
unfolding put_before
at_newline [] = none
at_newline (c ∷ s) =
    let later = at_newline s in if c == b'\n' then some ([], s) else put_before c later

-- The two outcomes of a search for the newline.
hand_over : LineBuffer → Option (Bytes × Bytes) → LineBuffer × Option Bytes
hand_over b none = (b, none)
hand_over b (some (line, rest)) = (record b { sockbuf = rest }, some line)

unfoldable pub stratum_take_buffer_line : LineBuffer → LineBuffer × Option Bytes
unfolding hand_over
stratum_take_buffer_line b = hand_over b (at_newline b.sockbuf)

-- What one turn of the receive loop meets: the deadline is over or the poll ends without data; the
-- socket or TLS layer asks to try again; the connection is closed or broken; or bytes came.
pub data Arrival : Type 0 where
  expired : Arrival
  again : Arrival
  closed : Arrival
  chunk : Bytes → Arrival

-- How stratum_recv_line_timeout ends: with a line, by a timeout, or by a failure; or it still waits
-- when the arrivals that are looked at are over.
pub data Ending : Type 0 where
  got : Bytes → Ending
  timed_out : Ending
  failed : Ending
  waiting : Ending

-- memchr(s, 0, n).
unfoldable pub has_nul : Bytes → Bool
has_nul [] = false
has_nul (c ∷ s) = c == 0 || has_nul s

-- A chunk: an embedded NUL and a buffer that cannot grow are fatal.
unfoldable pub take_chunk : Bytes → LineBuffer → LineBuffer × Bool
take_chunk s b = if has_nul s then (b, false) else stratum_buffer_append s b

-- A turn: the buffer after it, and how the loop ends, if it does.
unfoldable pub turn_of : Arrival → LineBuffer → LineBuffer × Option Ending
turn_of expired b = (b, some timed_out)
turn_of again b = (b, none)
turn_of closed b = (b, some failed)
turn_of (chunk s) b = let (b', taken) = take_chunk s b in (b', if taken then none else some failed)

-- A line in the buffer goes before the turn, and the end of the turn before the rest.
unfoldable pub settle :
    LineBuffer × Option Bytes
    → LineBuffer × Option Ending
    → LineBuffer × Ending
    → LineBuffer × Ending
settle (b, some line) turn rest = (b, got line)
settle (b, none) (b', some ending) rest = (b', ending)
settle (b, none) (b', none) rest = rest

-- The loop of stratum_recv_line_timeout, over the arrivals of its turns.
unfoldable pub receive : List Arrival → LineBuffer → LineBuffer × Ending
receive [] b = settle (stratum_take_buffer_line b) (b, some waiting) (b, waiting)
receive (arrival ∷ later) b =
    let turn = turn_of arrival b in
    let rest = receive later turn.0 in settle (stratum_take_buffer_line b) turn rest
