-- ===== src/Verus.antt =====
-- src/stratum_verus.cpp: the jobs of a Verus pool, its target, and what a share says. The targets that
-- are computed in floating point are parameters. The end of the coinbase that the code leaves
-- uninitialised, and never reads, is left out.
pub mod Apply
pub mod Wire
pub mod Payload
pub mod Share
pub mod Header
pub mod Notify
pub mod Outcome
mod Tests
use primo_arm_miner.Prelude.{
  ℕ, zero, suc, ◌+◌, ◌-◌, ◌*◌, ◌/◌, ◌%◌, Bool, true, false, not, ◌&&◌, ◌||◌, Option, none, some,
  List, [], ◌∷◌, ◌++◌, ltb, leb, ◌==◌, if◌then◌else◌, Bytes, bytes_eq, length, get_or, take, drop,
  replicate,
}
use primo_arm_miner.Prelude.Options.{◌>>=◌, ◌>>◌, guard}
use primo_arm_miner.Prelude.Memory.{Memory, memcpy, read, le32dec, le32enc, store_word}
use primo_arm_miner.Json.{Jansson, string_at}
use primo_arm_miner.Hex.{hex2bin, bin2hex, cbin2hex}
use primo_arm_miner.Pools.{snprintf_str}
use primo_arm_miner.Publish.{PublishedWork, RuntimeState}
use primo_arm_miner.Job.{
  StratumJob, StratumCtx, WorkBody, zero_memory, be32dec, stratum_check_job_id_length,
  stratum_update_time_offset, stratum_capture_next_diff, stratum_commit_job_update,
}
use primo_arm_miner.Standard.{id_or_empty, is_even}

abbrev pub verus_work_solution_size : ℕ
verus_work_solution_size = 1344

-- decode_verus_solution_field, on a buffer of the size of a solution; a missing text is all zeros.
unfoldable pub padded : Bytes → Bytes
padded bytes = bytes ++ replicate (verus_work_solution_size - length bytes) 0

unfoldable pub decode_verus_solution_field : Bytes → Option Bytes
unfolding padded
decode_verus_solution_field hexstr = do
  guard (is_even (length hexstr) && leb (length hexstr / 2) verus_work_solution_size)
  bytes ← hex2bin hexstr (length hexstr / 2)
  some (padded bytes)

unfoldable pub decoded_solution : Option Bytes → Option Bytes
unfolding decode_verus_solution_field padded
decoded_solution none = some (padded [])
decoded_solution (some []) = some (padded [])
decoded_solution (some (c ∷ s)) = decode_verus_solution_field (c ∷ s)

unfoldable pub verus_validate_nonce_layout : (xnonce1_size xnonce2_size : ℕ) → Bool
verus_validate_nonce_layout xnonce1_size xnonce2_size =
    leb xnonce1_size 32 && xnonce1_size + xnonce2_size == 32 && leb xnonce1_size 12

-- The loop of verus_stratum_set_target, on the bytes from the most significant on: those up to the third
-- that is not zero are kept, the others are 0xff.
unfoldable pub significant_bytes : (filled : ℕ) → Bytes → Bytes
significant_bytes filled [] = []
significant_bytes filled (b ∷ target) =
    let full = filled == 3 in
    (if full then 255 else b)
    ∷ significant_bytes (if full || b == 0 then filled else filled + 1) target

-- The integer of target_to_diff_equi: bytes 27 to 30 of the little-endian target.
unfoldable pub equi_bits : Bytes → ℕ
equi_bits target =
    get_or target 1 0 * 16777216
    + get_or target 2 0 * 65536
    + get_or target 3 0 * 256
    + get_or target 4 0

-- A text of 32 bytes; the difficulty is 0xffff0000 / m, which is positive, and 0 where m is 0.
unfoldable pub target_bits : Option Bytes → Option ℕ
unfolding significant_bytes equi_bits
target_bits none = none
target_bits (some []) = none
target_bits (some (c ∷ s)) = do
  target ← hex2bin (c ∷ s) 32
  let m = equi_bits (significant_bytes 0 target)
  guard (not (m == 0))
  some m

-- struct verus_notify_view.
pub record VerusNotify : Type 0 where
  pub job_id : Bytes
  pub version : Bytes
  pub prevhash : Bytes
  pub coinb1 : Bytes
  pub coinb2 : Bytes
  pub stime : Bytes
  pub nbits : Bytes
  pub solution : Option Bytes
  pub clean : Bool

-- What the code computes in floating point: 0xffff0000 / m, and diff_to_target_verus.
pub record VerusTargets (D : Type 0) : Type 0 where
  pub diff_of_bits : ℕ → D
  pub diff_to_target_verus : D → List ℕ

abbrev pub even_solution : Option Bytes → Bool
even_solution none = true
even_solution (some solution) = is_even (length solution)

-- Whether the job goes on with the block of the job before.
unfoldable pub same_block :
    (job_id : Option Bytes) → (version prevhash version' prevhash' : Bytes) → Bool
same_block none version prevhash version' prevhash' = false
same_block (some job_id) version prevhash version' prevhash' =
    bytes_eq version version' && bytes_eq prevhash prevhash'

module _ (j : Jansson) where
  unfoldable pub parse_verus_notify : Option j.Value → Option VerusNotify
  parse_verus_notify params = do
    job_id ← string_at j params 0
    version ← string_at j params 1
    prevhash ← string_at j params 2
    coinb1 ← string_at j params 3
    coinb2 ← string_at j params 4
    stime ← string_at j params 5
    nbits ← string_at j params 6
    guard (even_solution (string_at j params 8))
    guard (length prevhash == 64 && length version == 8)
    guard (length coinb1 == 64 && length coinb2 == 64)
    guard (length nbits == 8 && length stime == 8)
    some (record {
      job_id = job_id;
      version = version;
      prevhash = prevhash;
      coinb1 = coinb1;
      coinb2 = coinb2;
      stime = stime;
      nbits = nbits;
      solution = string_at j params 8;
      clean = j.json_is_true (j.json_array_get params 7);
    })

module _ {D : Type 0} where
  unfoldable pub verus_stratum_set_target :
      VerusTargets D → (j : Jansson) → Option j.Value → StratumCtx D → Option (StratumCtx D)
  unfolding target_bits
  verus_stratum_set_target t j params s = do
    m ← target_bits (string_at j params 0)
    some (record s { next_diff = t.diff_of_bits m })

  unfoldable pub apply_verus_job_locked :
      VerusNotify → (solution : Bytes) → StratumCtx D → Option (StratumCtx D)
  apply_verus_job_locked msg solution s = do
    guard (verus_validate_nonce_layout (length s.xnonce1) s.xnonce2_size)
    version ← hex2bin msg.version 4
    prevhash ← hex2bin msg.prevhash 32
    nbits ← hex2bin msg.nbits 4
    ntime ← hex2bin msg.stime 4
    head ← hex2bin msg.coinb1 (length msg.coinb1 / 2)
    tail ← hex2bin msg.coinb2 (length msg.coinb2 / 2)
    some (record s {
      job = stratum_capture_next_diff s.next_diff (record s.job {
        job_id = some msg.job_id;
        coinbase = head ++ (tail ++ s.xnonce1);
        merkle = [];
        solution = solution;
        version = version;
        prevhash = prevhash;
        nbits = nbits;
        ntime = ntime;
        height =
            if same_block s.job.job_id s.job.version s.job.prevhash version prevhash
            then s.job.height
            else 0;
      });
    })

  -- data[]: the copies in their order, and the mark in word 35.
  unfoldable pub verus_header : StratumCtx D → Memory
  verus_header s = store_word 35 128 (
      memcpy 108 s.xnonce1 (
        memcpy 104 s.job.nbits (
          memcpy 100 s.job.ntime (
            memcpy 36 (take 64 s.job.coinbase)
              (memcpy 4 s.job.prevhash (memcpy 0 s.job.version zero_memory))))))

  module _ (t : VerusTargets D) where
    unfoldable pub build_verus_work : StratumCtx D → PublishedWork (WorkBody D)
    build_verus_work s = record {
      job_id = snprintf_str 128 (id_or_empty s.job.job_id);
      height = s.job.height;
      target = t.diff_to_target_verus s.job.diff;
      pooln = s.pooln;
      restart_generation = 0;
      payload = record {
        bytes = verus_header s;
        xnonce2 = [];
        targetdiff = s.job.diff;
        solution = s.job.solution;
        rx_blob_len = 0;
        rx_nonce_mask = 0;
      };
    }

    -- What follows the time offset, which is kept even if a later step fails.
    unfoldable pub commit_verus_notify :
        VerusNotify
        → StratumCtx D
        → RuntimeState (WorkBody D)
        → StratumCtx D × RuntimeState (WorkBody D) × Bool
    commit_verus_notify msg s r = elim (decoded_solution msg.solution) [
      | none ↦ (s, r, false)
      | some solution ↦
          if stratum_check_job_id_length msg.job_id
          then stratum_commit_job_update (apply_verus_job_locked msg solution) build_verus_work
              msg.clean s r
          else (s, r, false)
    ]

    unfoldable pub apply_verus_notify :
        (now : ℕ)
        → VerusNotify
        → StratumCtx D
        → RuntimeState (WorkBody D)
        → StratumCtx D × RuntimeState (WorkBody D) × Bool
    unfolding commit_verus_notify
    apply_verus_notify now msg s r = elim (stratum_update_time_offset now msg.stime false s) [
      | none ↦ (s, r, false)
      | some s' ↦ commit_verus_notify msg s' r
    ]

    unfoldable pub verus_stratum_notify :
        (j : Jansson)
        → (now : ℕ) → Option j.Value
        → StratumCtx D
        → RuntimeState (WorkBody D)
        → StratumCtx D × RuntimeState (WorkBody D) × Bool
    unfolding apply_verus_notify
    verus_stratum_notify j now params s r = elim (parse_verus_notify j params) [
      | none ↦ (s, r, false)
      | some msg ↦ apply_verus_notify now msg s r
    ]
