-- ===== src/Standard.antt =====
-- src/stratum_standard.cpp: the jobs of a Bitcoin-style pool, from the parameters of mining.notify to the
-- header that is hashed, and the parameters of mining.submit. The double SHA-256 kernel and the floating
-- point target are parameters.
pub mod Header
pub mod Apply
pub mod Notify
mod Tests
use primo_arm_miner.Prelude.{
  ℕ, zero, suc, ◌+◌, ◌-◌, ◌*◌, ◌/◌, ◌%◌, Bool, true, false, not, ◌&&◌, ◌||◌, Option, none, some,
  List, [], ◌∷◌, ◌++◌, ltb, leb, ◌==◌, if◌then◌else◌, Bytes, length, get_elem?, take, drop,
  replicate,
}
use primo_arm_miner.Prelude.Options.{◌>>=◌, ◌>>◌, guard}
use primo_arm_miner.Prelude.Memory.{Memory, memcpy, read, le32dec, le32enc, store_word, store_words}
use primo_arm_miner.Json.{Jansson, string_at}
use primo_arm_miner.Hex.{hex2bin, bin2hex, cbin2hex}
use primo_arm_miner.Pools.{snprintf_str}
use primo_arm_miner.DevFee.Targets.{Algo, verus, sha256d, scrypt, randomx}
use primo_arm_miner.Publish.{PublishedWork, RuntimeState}
use primo_arm_miner.Job.{
  StratumJob, StratumCtx, WorkBody, zero_memory, stratum_check_job_id_length,
  stratum_update_time_offset, stratum_capture_next_diff, stratum_commit_job_update,
  stratum_decode_merkle_array,
}
use primo_arm_miner.Coinbase.{get_block_height}

-- struct standard_notify_view.
pub record StandardNotify (V : Type 0) : Type 0 where
  pub job_id : Bytes
  pub prevhash : Bytes
  pub coinb1 : Bytes
  pub coinb2 : Bytes
  pub version : Bytes
  pub nbits : Bytes
  pub stime : Bytes
  pub merkle_arr : Option V
  pub clean : Bool

abbrev pub is_even : ℕ → Bool
is_even n = n % 2 == 0

module _ (j : Jansson) where
  unfoldable pub parse_standard_notify : Option j.Value → Option (StandardNotify j.Value)
  parse_standard_notify params = do
    guard (j.json_is_array (j.json_array_get params 4))
    job_id ← string_at j params 0
    prevhash ← string_at j params 1
    coinb1 ← string_at j params 2
    coinb2 ← string_at j params 3
    version ← string_at j params 5
    nbits ← string_at j params 6
    stime ← string_at j params 7
    guard (is_even (length coinb1) && is_even (length coinb2))
    guard (length prevhash == 64 && length version == 8)
    guard (length nbits == 8 && length stime == 8)
    some (record {
      job_id = job_id;
      prevhash = prevhash;
      coinb1 = coinb1;
      coinb2 = coinb2;
      version = version;
      nbits = nbits;
      stime = stime;
      merkle_arr = j.json_array_get params 4;
      clean = j.json_is_true (j.json_array_get params 8);
    })

-- The size that is allocated for the coinbase before the lock is taken.
unfoldable pub coinbase_prealloc : (coinb1 coinb2 : Bytes) → ℕ
coinbase_prealloc coinb1 coinb2 = length coinb1 / 2 + 32 + length coinb2 / 2

-- The loop of build_merkle_root over the branches.
unfoldable pub fold_branches : (sha256d_neon : Bytes → Bytes) → Bytes → List Bytes → Bytes
fold_branches sha256d_neon hash [] = hash
fold_branches sha256d_neon hash (branch ∷ merkle) =
    fold_branches sha256d_neon (sha256d_neon (hash ++ branch)) merkle

module _ {D : Type 0} where
  -- A read of get_block_height outside the coinbase would come out as a refusal here; Height shows that
  -- there is none.
  unfoldable pub apply_standard_job_locked :
      {V : Type 0} → StandardNotify V → (merkle : List Bytes) → StratumCtx D → Option (StratumCtx D)
  apply_standard_job_locked msg merkle s = do
    head ← hex2bin msg.coinb1 (length msg.coinb1 / 2)
    tail ← hex2bin msg.coinb2 (length msg.coinb2 / 2)
    let coinbase = head ++ (s.xnonce1 ++ (replicate s.xnonce2_size 0 ++ tail))
    prevhash ← hex2bin msg.prevhash 32
    version ← hex2bin msg.version 4
    nbits ← hex2bin msg.nbits 4
    ntime ← hex2bin msg.stime 4
    height ← get_block_height coinbase
    some (record s {
      job = stratum_capture_next_diff s.next_diff (record s.job {
        job_id = some msg.job_id;
        coinbase = coinbase;
        xnonce2 = length head + length s.xnonce1;
        prevhash = prevhash;
        height = height;
        merkle = merkle;
        version = version;
        nbits = nbits;
        ntime = ntime;
      });
    })

  unfoldable pub build_merkle_root : (sha256d_neon : Bytes → Bytes) → StratumJob D → Bytes
  build_merkle_root sha256d_neon job =
      fold_branches sha256d_neon (sha256d_neon job.coinbase) job.merkle

  -- data[]: the twenty words of the header, stored one by one in cleared memory.
  unfoldable pub standard_header : (sha256d_neon : Bytes → Bytes) → StratumJob D → Memory
  standard_header sha256d_neon job = store_word 19 0 (
      store_word 18 (le32dec job.nbits) (
        store_word 17 (le32dec job.ntime) (
          store_words 9 8 (build_merkle_root sha256d_neon job)
            (store_words 1 8 job.prevhash (store_word 0 (le32dec job.version) zero_memory)))))

-- What the code computes in floating point: diff_to_target of src/stratum.cpp, and the division by 65536
-- of a scrypt difficulty.
pub record Targets (D : Type 0) : Type 0 where
  pub diff_to_target : D → List ℕ
  pub over_65536 : D → D

abbrev pub target_diff : {D : Type 0} → Targets D → Algo → D → D
target_diff t scrypt diff = t.over_65536 diff
target_diff t verus diff = diff
target_diff t sha256d diff = diff
target_diff t randomx diff = diff

abbrev pub id_or_empty : Option Bytes → Bytes
id_or_empty none = []
id_or_empty (some job_id) = job_id

module _ {D : Type 0} (sha256d_neon : Bytes → Bytes) (t : Targets D) (opt_algo : Algo) where
  unfoldable pub build_standard_work : StratumCtx D → PublishedWork (WorkBody D)
  build_standard_work s = record {
    job_id = snprintf_str 128 (id_or_empty s.job.job_id);
    height = s.job.height;
    target = t.diff_to_target (target_diff t opt_algo s.job.diff);
    pooln = s.pooln;
    restart_generation = 0;
    payload = record {
      bytes = standard_header sha256d_neon s.job;
      xnonce2 = take s.xnonce2_size (drop s.job.xnonce2 s.job.coinbase);
      targetdiff = s.job.diff;
      solution = [];
      rx_blob_len = 0;
      rx_nonce_mask = 0;
    };
  }

  -- What follows the time offset, which is kept even if a later step fails.
  unfoldable pub commit_standard_notify :
      (j : Jansson)
      → StandardNotify j.Value
      → StratumCtx D
      → RuntimeState (WorkBody D)
      → StratumCtx D × RuntimeState (WorkBody D) × Bool
  commit_standard_notify j msg s r = elim (stratum_decode_merkle_array j msg.merkle_arr) [
    | none ↦ (s, r, false)
    | some merkle ↦
        if stratum_check_job_id_length msg.job_id
        then stratum_commit_job_update (apply_standard_job_locked msg merkle) build_standard_work
            msg.clean s r
        else (s, r, false)
  ]

  unfoldable pub apply_standard_notify :
      (j : Jansson)
      → (now : ℕ) → StandardNotify j.Value
      → StratumCtx D
      → RuntimeState (WorkBody D)
      → StratumCtx D × RuntimeState (WorkBody D) × Bool
  unfolding commit_standard_notify
  apply_standard_notify j now msg s r = elim (stratum_update_time_offset now msg.stime true s) [
    | none ↦ (s, r, false)
    | some s' ↦ commit_standard_notify j msg s' r
  ]

  unfoldable pub stratum_notify_standard :
      (j : Jansson)
      → (now : ℕ) → Option j.Value
      → StratumCtx D
      → RuntimeState (WorkBody D)
      → StratumCtx D × RuntimeState (WorkBody D) × Bool
  unfolding apply_standard_notify
  stratum_notify_standard j now params s r = elim (parse_standard_notify j params) [
    | none ↦ (s, r, false)
    | some msg ↦ apply_standard_notify j now msg s r
  ]

-- The strings of mining.submit, for the nonce that is submitted.
unfoldable pub standard_submit_params :
    {D : Type 0} → (user : Bytes) → (nonce : ℕ) → PublishedWork (WorkBody D) → List Bytes
standard_submit_params user nonce work =
    let bytes = store_word 19 nonce work.payload.bytes in
    user
    ∷ work.job_id
    ∷ bin2hex work.payload.xnonce2
    ∷ cbin2hex (read 68 4 bytes)
    ∷ cbin2hex (read 76 4 bytes)
    ∷ []
