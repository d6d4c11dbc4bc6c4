-- ===== src/Coinbase.antt =====
-- get_block_height of src/stratum_standard.cpp: the height in the coinbase of a Bitcoin-style job.
pub mod Height
use primo_arm_miner.Prelude.{
  ℕ, zero, suc, ◌+◌, ◌-◌, ◌*◌, ◌/◌, ◌%◌, Bool, true, false, not, ◌&&◌, ◌||◌, Option, none, some,
  List, [], ◌∷◌, ◌++◌, ltb, leb, ◌==◌, if◌then◌else◌, Bytes, length, get_elem?, take, drop,
  replicate,
}
use primo_arm_miner.Prelude.Options.{◌>>=◌, ◌>>◌, guard}
use primo_arm_miner.Prelude.Memory.{Memory, memcpy, read, le32dec, le32enc, store_word, store_words}
use primo_arm_miner.Json.{Jansson, string_at}
use primo_arm_miner.Hex.{hex2bin, bin2hex, cbin2hex}
use primo_arm_miner.Pools.{snprintf_str}
use primo_arm_miner.DevFee.Targets.{Algo, verus, sha256d, scrypt, randomx}
use primo_arm_miner.Publish.{PublishedWork, RuntimeState}
use primo_arm_miner.Job.{
  StratumJob, StratumCtx, WorkBody, zero_memory, stratum_check_job_id_length,
  stratum_update_time_offset, stratum_capture_next_diff, stratum_commit_job_update,
  stratum_decode_merkle_array,
}

-- A read of the coinbase: none is a read outside it.
abbrev pub le16dec : Bytes → ℕ → Option ℕ
le16dec p i = do low ← get_elem? p i; high ← get_elem? p (i + 1); some (low + high * 256)

-- `while (p < scan_end && test(*p)) p++;` from index `i`, with `left` bytes before scan_end.
unfoldable pub skip_while : (test : ℕ → Bool) → (left i : ℕ) → Bytes → Option ℕ
skip_while test zero i p = some i
skip_while test (suc left) i p = do
  b ← get_elem? p i
  let further = skip_while test left (i + 1) p
  if test b then further else some i

abbrev pub at_most_128 : ℕ → ℕ
at_most_128 n = if ltb 128 n then 128 else n

abbrev pub is_ff : ℕ → Bool
is_ff b = b == 255

-- The switch on the length byte: `q` stands behind the first two bytes of the height.
unfoldable pub add_high_bytes : Bytes → (scan_end q hlen height : ℕ) → Option ℕ
add_high_bytes p scan_end q hlen height =
    if hlen == 4
    then if ltb (scan_end - q) 2
      then some 0
      else le16dec p q >>= (λ high. some (height + 65536 * high))
    else if hlen == 3
    then if leb scan_end q then some 0 else get_elem? p q >>= (λ high. some (height + 65536 * high))
    else some height

-- What follows the run of 0xff, at index `i`.
unfoldable pub height_at : Bytes → (scan_end i : ℕ) → Option ℕ
unfolding add_high_bytes
height_at p scan_end i = if ltb (scan_end - i) 4 then some 0 else do
  hlen ← get_elem? p (i + 1)
  height ← le16dec p (i + 2)
  add_high_bytes p scan_end (i + 4) hlen height

-- `*(p - 1) == 0xff && *(p - 2) == 0xff`.
unfoldable pub two_ff_before : Bytes → ℕ → Option Bool
two_ff_before p i = do
  last ← get_elem? p (i - 1)
  let again = get_elem? p (i - 2) >>= (λ before. some (is_ff before))
  if is_ff last then again else some false

-- From the place where the run of 0xff ends.
unfoldable pub after_run : Bytes → (scan_end i : ℕ) → Option ℕ
unfolding height_at two_ff_before
after_run p scan_end i =
    if ltb i 34 || leb scan_end i
    then some 0
    else do found ← two_ff_before p i; if found then height_at p scan_end i else some 0

unfoldable pub get_block_height : Bytes → Option ℕ
unfolding skip_while after_run
get_block_height coinbase = if leb (length coinbase) 32 then some 0 else do
  let scan_end = 32 + at_most_128 (length coinbase - 32)
  first ← skip_while (λ b. not (is_ff b)) (scan_end - 32) 32 coinbase
  i ← skip_while is_ff (scan_end - first) first coinbase
  after_run coinbase scan_end i
