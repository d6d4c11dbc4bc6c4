-- ===== src/Transport/Tests.antt =====
-- Runs of the line buffer, and instances of its theorems: "ab\n" in two chunks, and one byte more.
use primo_arm_miner.Prelude.{◌≡◌, refl, List, [], ◌∷◌, some, codes, arith}
use primo_arm_miner.Transport.{
  LineBuffer, Arrival, chunk, again, got, at_newline, receive, has_nul, rbufsize,
  stratum_take_buffer_line, turn_of, settle, take_chunk, stratum_buffer_append,
  stratum_reserve_socket_buffer, expired,
}
use primo_arm_miner.Transport.Capacity.{Fits, receive-Fits}
use primo_arm_miner.Transport.Framing.{Reads, receive-Reads}
use primo_arm_miner.Transport.Receive.{Calm, receive_line}

abbrev empty : LineBuffer
empty = record { sockbuf = []; sockbuf_size = rbufsize }

abbrev two_chunks : List Arrival
two_chunks = chunk (codes "a") ∷ again ∷ chunk (codes "b\nc") ∷ expired ∷ []

keeps_rest : receive two_chunks empty ≡ (record empty { sockbuf = codes "c" }, got (codes "ab"))
unfolding receive at_newline stratum_take_buffer_line turn_of settle take_chunk has_nul
    stratum_buffer_append stratum_reserve_socket_buffer
keeps_rest = refl

empty-Fits : Fits empty
empty-Fits = record { inside = omega arith; bounded = omega arith }

receive-Fits_example : Fits (receive two_chunks empty).0
receive-Fits_example = receive-Fits two_chunks empty empty-Fits

receive-Reads_example : Reads empty two_chunks (receive two_chunks empty)
receive-Reads_example = receive-Reads two_chunks empty

abbrev calm_chunks : List Arrival
calm_chunks = chunk (codes "a") ∷ again ∷ chunk (codes "b\nc") ∷ []

calm_chunks-Calm : Calm calm_chunks
unfolding has_nul
calm_chunks-Calm = (refl, (refl, tt))

splits : at_newline (codes "ab\nc") ≡ some (codes "ab", codes "c")
unfolding at_newline
splits = refl

receive_line_example : (receive calm_chunks empty).1 ≡ got (codes "ab")
receive_line_example =
    receive_line calm_chunks empty (codes "ab") (codes "c") calm_chunks-Calm (omega arith) splits
