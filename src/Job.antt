-- ===== src/Job.antt =====
-- The session state that jobs live in (include/miner.h), and what the protocols share of it:
-- src/stratum_job.cpp and stratum_check_job_id_length of src/stratum.cpp. A difficulty is a double that is
-- stored and handed on: its type is a parameter. The service thread is the only one that writes a job or
-- publishes work, so a commit is one step.
pub mod Decode
use primo_arm_miner.Prelude.{
  ℕ, zero, suc, ◌+◌, ◌-◌, ◌*◌, Bool, true, false, not, ◌&&◌, ◌||◌, Option, none, some, List, [],
  ◌∷◌, ltb, leb, ◌==◌, if◌then◌else◌, Bytes, length, get_or,
}
use primo_arm_miner.Prelude.Int.{ℤ, pos, negsuc, ◌-ℤ◌, ltb_ℤ, signed32}
use primo_arm_miner.Prelude.Options.{◌>>=◌, ◌>>◌, guard}
use primo_arm_miner.Prelude.Memory.{Memory, le32dec}
use primo_arm_miner.Json.{Jansson, string_at}
use primo_arm_miner.Hex.{hex2bin}
use primo_arm_miner.Publish.{PublishedWork, RuntimeState, stratum_publish_work}

-- `xnonce2` is a pointer into the coinbase: its offset there.
pub record StratumJob (D : Type 0) : Type 0 where
  pub job_id : Option Bytes
  pub prevhash : Bytes
  pub coinbase : Bytes
  pub xnonce2 : ℕ
  pub merkle : List Bytes
  pub version : Bytes
  pub nbits : Bytes
  pub ntime : Bytes
  pub height : ℕ
  pub diff : D
  pub solution : Bytes
  pub rx_blob : Bytes
  pub rx_target64 : ℕ

-- struct stratum_ctx without the connection and the submit table; xnonce1_size is the length of `xnonce1`.
pub record StratumCtx (D : Type 0) : Type 0 where
  pub next_diff : D
  pub session_id : Option Bytes
  pub xnonce1 : Bytes
  pub xnonce2_size : ℕ
  pub job : StratumJob D
  pub pooln : ℕ
  pub is_verus_protocol : Bool
  pub xmr_nicehash : Bool
  pub srvtime_diff : ℤ
  pub authenticated : Bool

-- struct work, beside what PublishedWork holds: the bytes of data[], and the payload of each algorithm.
pub record WorkBody (D : Type 0) : Type 0 where
  pub bytes : Memory
  pub xnonce2 : Bytes
  pub targetdiff : D
  pub solution : Bytes
  pub rx_blob_len : ℕ
  pub rx_nonce_mask : ℕ

-- memset(data, 0, sizeof(data)).
abbrev pub zero_memory : Memory
zero_memory address = 0

-- stratum_bswap32 of a word in memory: the bytes in the other order.
abbrev pub be32dec : Bytes → ℕ
be32dec p = le32dec (get_or p 3 0 ∷ get_or p 2 0 ∷ get_or p 1 0 ∷ get_or p 0 0 ∷ [])

unfoldable pub stratum_check_job_id_length : Bytes → Bool
stratum_check_job_id_length job_id = leb (length job_id) 127

-- The four bytes that the code reads of a time.
unfoldable pub raw_time : Bytes → Option Bytes
raw_time stime = if length stime == 8 then hex2bin stime 4 else none

module _ {D : Type 0} where
  -- `now` is time(0), as an int. Where the difference leaves the range of int, C leaves it undefined, and
  -- the model goes on with the exact one.
  unfoldable pub stratum_update_time_offset :
      (now : ℕ) → Bytes → (swap32 : Bool) → StratumCtx D → Option (StratumCtx D)
  stratum_update_time_offset now stime swap32 s = do
    raw ← raw_time stime
    let delta = signed32 (if swap32 then be32dec raw else le32dec raw) -ℤ signed32 now
    some (if ltb_ℤ s.srvtime_diff delta then record s { srvtime_diff = delta } else s)

  abbrev pub stratum_capture_next_diff : D → StratumJob D → StratumJob D
  stratum_capture_next_diff next_diff job = record job { diff = next_diff }

  -- memset of the job; `zero_diff` is the difficulty whose bytes are zero, and a zeroed array is given by
  -- its size.
  unfoldable pub stratum_free_job : D → (zeros : ℕ → Bytes) → StratumCtx D → StratumCtx D
  stratum_free_job zero_diff zeros s = record s {
    job = record {
      job_id = none;
      prevhash = zeros 32;
      coinbase = [];
      xnonce2 = 0;
      merkle = [];
      version = zeros 4;
      nbits = zeros 4;
      ntime = zeros 4;
      height = 0;
      diff = zero_diff;
      solution = zeros 1344;
      rx_blob = [];
      rx_target64 = 0;
    };
  }

  -- A job that applies is built into work and published; one that does not changes nothing.
  unfoldable pub stratum_commit_job_update :
      {P : Type 0}
      → (apply_job : StratumCtx D → Option (StratumCtx D))
      → (build_work : StratumCtx D → PublishedWork P) → (clean : Bool) → StratumCtx D
      → RuntimeState P
      → StratumCtx D × RuntimeState P × Bool
  stratum_commit_job_update apply_job build_work clean s r = elim (apply_job s) [
    | none ↦ (s, r, false)
    | some s' ↦ (s', stratum_publish_work (build_work s') clean r, true)
  ]

-- One turn of the loop over the branches.
unfoldable pub decode_branch : Option Bytes → Option Bytes
decode_branch none = none
decode_branch (some branch) = if length branch == 64 then hex2bin branch 32 else none

module _ (j : Jansson) where
  -- The loop from index `i` on, with `left` branches to go.
  unfoldable pub decode_branches : Option j.Value → (left i : ℕ) → Option (List Bytes)
  decode_branches merkle_arr zero i = some []
  decode_branches merkle_arr (suc left) i = do
    branch ← decode_branch (string_at j merkle_arr i)
    rest ← decode_branches merkle_arr left (i + 1)
    some (branch ∷ rest)

  unfoldable pub stratum_decode_merkle_array : Option j.Value → Option (List Bytes)
  stratum_decode_merkle_array merkle_arr = do
    guard (j.json_is_array merkle_arr)
    decode_branches merkle_arr (j.json_array_size merkle_arr) 0
