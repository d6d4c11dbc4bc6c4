-- ===== src/Monero.antt =====
-- src/stratum_xmr.cpp: the jobs of a pool that speaks the Monero dialect, their compact target, and what
-- a share says. A difficulty is a double, 2^64 over the target, and is a parameter. A change of the seed
-- rebuilds the RandomX dataset, which is not modelled.
pub mod Target
pub mod Jobs
mod Tests
use primo_arm_miner.Prelude.{
  ℕ, suc, ◌+◌, ◌-◌, ◌*◌, ◌/◌, ◌%◌, Bool, true, false, not, ◌&&◌, ◌||◌, Option, none, some, List, [],
  ◌∷◌, ltb, leb, ◌==◌, if◌then◌else◌, Bytes, codes, length, get_or, drop,
}
use primo_arm_miner.Prelude.Int.{ℤ, pos, negsuc}
use primo_arm_miner.Prelude.Options.{◌>>=◌, ◌>>◌, guard}
use primo_arm_miner.Prelude.Memory.{Memory, memcpy, le32dec, le32enc}
use primo_arm_miner.Json.{Jansson, string_of}
use primo_arm_miner.Hex.{hex2bin, cbin2hex}
use primo_arm_miner.Pools.{snprintf_str, is_empty}
use primo_arm_miner.Publish.{PublishedWork, RuntimeState}
use primo_arm_miner.Job.{
  StratumJob, StratumCtx, WorkBody, zero_memory, stratum_check_job_id_length,
  stratum_commit_job_update,
}
use primo_arm_miner.Standard.{id_or_empty, is_even}

abbrev pub randomx_blob_max : ℕ
randomx_blob_max = 256

-- The expansion of a 32-bit target to the top 64 bits of the boundary.
unfoldable pub expand_target32 : ℕ → ℕ
expand_target32 t32 = 18446744073709551615 / (4294967295 / t32)

-- Eight bytes, the lowest first.
unfoldable pub le64dec : Bytes → ℕ
le64dec raw = le32dec raw + 4294967296 * le32dec (drop 4 raw)

unfoldable pub target_of_4 : Bytes → Option ℕ
unfolding expand_target32
target_of_4 raw = if le32dec raw == 0 then none else some (expand_target32 (le32dec raw))

unfoldable pub target_of_8 : Bytes → Option ℕ
unfolding le64dec
target_of_8 raw = if le64dec raw == 0 then none else some (le64dec raw)

-- The target without its difficulty.
unfoldable pub xmr_parse_target : Bytes → Option ℕ
unfolding target_of_4 target_of_8
xmr_parse_target tstr =
    if length tstr == 8
    then hex2bin tstr 4 >>= target_of_4
    else if length tstr == 16
    then hex2bin tstr 8 >>= target_of_8
    else none

-- struct xmr_job_view: have_seed is always set on success.
pub record XmrJobView : Type 0 where
  pub job_id : Bytes
  pub blob : Bytes
  pub target64 : ℕ
  pub seed : Bytes
  pub height : ℕ

-- (uint32_t) of a height that is an integer; 0 for any other value.
abbrev pub uint32_of : Option ℤ → ℕ
uint32_of none = 0
uint32_of (some (pos n)) = n % 4294967296
uint32_of (some (negsuc n)) = 4294967295 - n % 4294967296

abbrev pub blob_length_ok : ℕ → Bool
blob_length_ok hex_len =
    is_even hex_len && leb (hex_len / 2) randomx_blob_max && leb 43 (hex_len / 2)

module _ (j : Jansson) where
  unfoldable pub xmr_parse_job_view : Option j.Value → Option XmrJobView
  xmr_parse_job_view job = do
    job_id ← string_of j job (codes "job_id")
    blob ← string_of j job (codes "blob")
    target ← string_of j job (codes "target")
    guard (not (is_empty job_id) && stratum_check_job_id_length job_id)
    guard (blob_length_ok (length blob))
    bytes ← hex2bin blob (length blob / 2)
    target64 ← xmr_parse_target target
    seed ← string_of j job (codes "seed_hash")
    guard (length seed == 64)
    seed_bytes ← hex2bin seed 32
    some (record {
      job_id = job_id;
      blob = bytes;
      target64 = target64;
      seed = seed_bytes;
      height = uint32_of (j.json_integer (j.json_object_get job (codes "height")));
    })

abbrev pub randomx_nicehash_nonce_mask : ℕ
randomx_nicehash_nonce_mask = 0x00ffffff

module _ {D : Type 0} where
  unfoldable pub build_xmr_work : StratumCtx D → PublishedWork (WorkBody D)
  build_xmr_work s = record {
    job_id = snprintf_str 128 (id_or_empty s.job.job_id);
    height = s.job.height;
    target =
        4294967295
        ∷ 4294967295
        ∷ 4294967295
        ∷ 4294967295
        ∷ 4294967295
        ∷ 4294967295
        ∷ s.job.rx_target64 % 4294967296
        ∷ s.job.rx_target64 / 4294967296
        ∷ [];
    pooln = s.pooln % 256;
    restart_generation = 0;
    payload = record {
      bytes = memcpy 0 s.job.rx_blob zero_memory;
      xnonce2 = [];
      targetdiff = s.job.diff;
      solution = [];
      rx_blob_len = length s.job.rx_blob;
      rx_nonce_mask = if s.xmr_nicehash then randomx_nicehash_nonce_mask else 0;
    };
  }

module _ {D : Type 0} (diff_of_target : ℕ → D) where
  -- The job is applied whatever the session holds.
  unfoldable pub xmr_apply_job_locked : XmrJobView → StratumCtx D → Option (StratumCtx D)
  xmr_apply_job_locked v s = some (record s {
    job = record s.job {
      job_id = some v.job_id;
      rx_blob = v.blob;
      rx_target64 = v.target64;
      diff = diff_of_target v.target64;
      height = v.height;
    };
  })

  unfoldable pub xmr_stratum_handle_job :
      (j : Jansson)
      → Option j.Value
      → StratumCtx D
      → RuntimeState (WorkBody D)
      → StratumCtx D × RuntimeState (WorkBody D) × Bool
  xmr_stratum_handle_job j params s r = elim (xmr_parse_job_view j params) [
    | none ↦ (s, r, false)
    | some v ↦ stratum_commit_job_update (xmr_apply_job_locked v) build_xmr_work true s r
  ]

-- The members of a submit: the session, the job, the nonce and the hash.
unfoldable pub xmr_submit_params :
    {D : Type 0}
    → (nonce : ℕ) → (rx_hash : Bytes) → StratumCtx D
    → PublishedWork (WorkBody D)
    → List Bytes
xmr_submit_params nonce rx_hash s work =
    id_or_empty s.session_id ∷ work.job_id ∷ cbin2hex (le32enc nonce) ∷ cbin2hex rx_hash ∷ []
