-- ===== src/Monero/Jobs.antt =====
-- xmr_stratum_handle_job of src/stratum_xmr.cpp: what becomes of a job object.
use primo_arm_miner.Prelude.{
  ℕ, zero, suc, ◌+◌, ◌*◌, ◌/◌, ◌≤◌, ◌<◌, ◌≡◌, refl, sym, ap, subst, ◌∙◌, ◌⊎◌, inl, inr, true, false,
  not, Option, some, [], ◌∷◌, arith, Bytes, codes, length, ◌==◌, ◌&&◌, if◌then◌else◌, Option-cases,
  Bool-cases, get_or,
}
use primo_arm_miner.Prelude.Options.{◌>>=◌, >>=-eq-some, guard-eq-some, result-eq}
use primo_arm_miner.Prelude.Memory.{read, read-memcpy, le32dec}
use primo_arm_miner.Json.{Jansson, string_of}
use primo_arm_miner.Hex.{hex2bin}
use primo_arm_miner.Pools.{is_empty}
use primo_arm_miner.Publish.{PublishedWork, RuntimeState, stratum_publish_work, stratum_copy_work}
use primo_arm_miner.Job.{
  StratumCtx, WorkBody, zero_memory, stratum_check_job_id_length, stratum_commit_job_update,
}
use primo_arm_miner.Job.Decode.{Field, Refused, hex2bin-Field, snprintf-job_id}
use primo_arm_miner.Monero.{
  XmrJobView, expand_target32, le64dec, target_of_4, target_of_8, xmr_parse_target, blob_length_ok,
  xmr_parse_job_view, xmr_apply_job_locked, build_xmr_work, xmr_stratum_handle_job,
  randomx_nicehash_nonce_mask,
}
use primo_arm_miner.Monero.Target.{expand_target32_bounds}

-- The bytes of a 4-byte target are a 32-bit number.
le32dec-lt : (raw : Bytes) → Field 4 raw → le32dec raw < 4294967296
unfolding le32dec
le32dec-lt (a ∷ b ∷ c ∷ d ∷ []) (n, (ha, (hb, (hc, (hd, _))))) = omega arith
le32dec-lt [] (n, h) = absurd (omega arith)
le32dec-lt (a ∷ []) (n, h) = absurd (omega arith)
le32dec-lt (a ∷ b ∷ []) (n, h) = absurd (omega arith)
le32dec-lt (a ∷ b ∷ c ∷ []) (n, h) = absurd (omega arith)
le32dec-lt (a ∷ b ∷ c ∷ d ∷ e ∷ raw) (n, h) = absurd (omega arith)

le64dec-le : (raw : Bytes) → Field 8 raw → le64dec raw ≤ 18446744073709551615
unfolding le64dec le32dec
le64dec-le (a ∷ b ∷ c ∷ d ∷ e ∷ f ∷ g ∷ h ∷ [])
      (n, (ha, (hb, (hc, (hd, (he, (hf, (hg, (hh, _))))))))) =
    omega arith
le64dec-le [] (n, x) = absurd (omega arith)
le64dec-le (a ∷ []) (n, x) = absurd (omega arith)
le64dec-le (a ∷ b ∷ []) (n, x) = absurd (omega arith)
le64dec-le (a ∷ b ∷ c ∷ []) (n, x) = absurd (omega arith)
le64dec-le (a ∷ b ∷ c ∷ d ∷ []) (n, x) = absurd (omega arith)
le64dec-le (a ∷ b ∷ c ∷ d ∷ e ∷ []) (n, x) = absurd (omega arith)
le64dec-le (a ∷ b ∷ c ∷ d ∷ e ∷ f ∷ []) (n, x) = absurd (omega arith)
le64dec-le (a ∷ b ∷ c ∷ d ∷ e ∷ f ∷ g ∷ []) (n, x) = absurd (omega arith)
le64dec-le (a ∷ b ∷ c ∷ d ∷ e ∷ f ∷ g ∷ h ∷ i ∷ raw) (n, x) = absurd (omega arith)

-- What a target text stands for: four bytes of a number that is then scaled up, or eight of the number.
abbrev pub StandsFor : Bytes → ℕ → Type 0
StandsFor text target64 =
    ((raw : Bytes) × (hex2bin text 4 ≡ some raw)
      × (le32dec raw * 4294967296 + le32dec raw ≤ target64))
    ⊎ ((raw : Bytes) × (hex2bin text 8 ≡ some raw) × (target64 ≡ le64dec raw))

-- A target is positive, has 64 bits, and never falls short of what the pool has sent.
pub xmr_parse_target_lem :
    (text : Bytes) (target64 : ℕ)
    → xmr_parse_target text ≡ some target64
    → (0 < target64) × (target64 ≤ 18446744073709551615) × StandsFor text target64
unfolding xmr_parse_target target_of_4 target_of_8
xmr_parse_target_lem text target64 e = elim (Bool-cases (length text == 8)) [
  | inl four ↦
      let e' : (hex2bin text 4 >>= target_of_4) ≡ some target64 = rw four at e in
      let (raw, h, k) = >>=-eq-some (hex2bin text 4) target_of_4 e' in
      let below = le32dec-lt raw (hex2bin-Field text 4 raw h) in
      elim (Bool-cases (le32dec raw == 0)) [
        | inl empty ↦ absurd (ground arith)
        | inr positive ↦
            let same : target64 ≡ expand_target32 (le32dec raw) = ground arith in
            let (low, high) = expand_target32_bounds (le32dec raw) (ground arith) (omega arith) in
            (ground arith, omega arith, inl (raw, h, omega arith))
      ]
  | inr other ↦ elim (Bool-cases (length text == 16)) [
    | inl eight ↦
        let e' : (hex2bin text 8 >>= target_of_8) ≡ some target64 = rw (other, eight) at e in
        let (raw, h, k) = >>=-eq-some (hex2bin text 8) target_of_8 e' in
        let most = le64dec-le raw (hex2bin-Field text 8 raw h) in
        elim (Bool-cases (le64dec raw == 0)) [
          | inl empty ↦ absurd (ground arith)
          | inr positive ↦
              let same : target64 ≡ le64dec raw = ground arith in
              (ground arith, omega arith, inr (raw, h, same))
        ]
    | inr neither ↦ absurd (ground arith)
  ]
]

-- What a job object must hold to be taken.
pub record ParsedJob (j : Jansson) (params : Option j.Value) (v : XmrJobView) : Type 0 where
  pub job_id : string_of j params (codes "job_id") ≡ some v.job_id
  pub named : is_empty v.job_id ≡ false
  pub short : stratum_check_job_id_length v.job_id ≡ true
  pub blob : Bytes
  pub blob_text : string_of j params (codes "blob") ≡ some blob
  pub blob_bytes : hex2bin blob (length v.blob) ≡ some v.blob
  pub blob_size : (43 ≤ length v.blob) × (length v.blob ≤ 256)
  pub target : Bytes
  pub target_text : string_of j params (codes "target") ≡ some target
  pub positive : 0 < v.target64
  pub in_range : v.target64 ≤ 18446744073709551615
  pub stands_for : StandsFor target v.target64
  pub seed : Bytes
  pub seed_text : string_of j params (codes "seed_hash") ≡ some seed
  pub seed_bytes : hex2bin seed 32 ≡ some v.seed

pub xmr_parse_job_view-ParsedJob :
    (j : Jansson) (params : Option j.Value) (v : XmrJobView)
    → xmr_parse_job_view j params ≡ some v
    → ParsedJob j params v
unfolding xmr_parse_job_view
xmr_parse_job_view-ParsedJob j params v e =
    let (job_id, e1, k1) = >>=-eq-some (string_of j params (codes "job_id")) _ e in
    let (blob, e2, k2) = >>=-eq-some (string_of j params (codes "blob")) _ k1 in
    let (target, e3, k3) = >>=-eq-some (string_of j params (codes "target")) _ k2 in
    let (id_ok, k4) =
      guard-eq-some (not (is_empty job_id) && stratum_check_job_id_length job_id) _ k3 in
    let (blob_ok, k5) = guard-eq-some (blob_length_ok (length blob)) _ k4 in
    let (bytes, e6, k6) = >>=-eq-some (hex2bin blob (length blob / 2)) _ k5 in
    let (target64, e7, k7) = >>=-eq-some (xmr_parse_target target) _ k6 in
    let (seed, e8, k8) = >>=-eq-some (string_of j params (codes "seed_hash")) _ k7 in
    let (seed_ok, k9) = guard-eq-some (length seed == 64) _ k8 in
    let (seed_bytes, e10, k10) = >>=-eq-some (hex2bin seed 32) _ k9 in
    let same = result-eq k10 in
    let id = ap (λ (x : XmrJobView). x.job_id) same in
    let b = ap (λ (x : XmrJobView). x.blob) same in
    let t = ap (λ (x : XmrJobView). x.target64) same in
    let (size, _) = hex2bin-Field blob (length blob / 2) bytes e6 in
    let (positive, in_range, stands) = xmr_parse_target_lem target target64 e7 in
    let sizes : (43 ≤ length bytes) × (length bytes ≤ 256) = ground arith in
    record {
      job_id = e1 ∙ ap some (sym id);
      named = ap is_empty id ∙ ground arith;
      short = ap stratum_check_job_id_length id ∙ ground arith;
      blob = blob;
      blob_text = e2;
      blob_bytes = rw (b, size) e6;
      blob_size = rw b sizes;
      target = target;
      target_text = e3;
      positive = subst (λ x. 0 < x) (sym t) positive;
      in_range = subst (λ x. x ≤ 18446744073709551615) (sym t) in_range;
      stands_for = subst (StandsFor target) (sym t) stands;
      seed = seed;
      seed_text = e8;
      seed_bytes = e10 ∙ ap some (sym (ap (λ (x : XmrJobView). x.seed) same));
    }

all_ones :
    {D : Type 0} (s : StratumCtx D) (i : ℕ)
    → i < 6
    → get_or (build_xmr_work s).target i 0 ≡ 4294967295
unfolding build_xmr_work
all_ones s zero h = refl
all_ones s (suc zero) h = refl
all_ones s (suc (suc zero)) h = refl
all_ones s (suc (suc (suc zero))) h = refl
all_ones s (suc (suc (suc (suc zero)))) h = refl
all_ones s (suc (suc (suc (suc (suc zero))))) h = refl
all_ones s (suc (suc (suc (suc (suc (suc i)))))) h = absurd (omega arith)

module _ {D : Type 0} (diff_of_target : ℕ → D) where
  -- What a thread finds in the work of a job.
  pub record XmrPublished (v : XmrJobView) (s : StratumCtx D) (r' : RuntimeState (WorkBody D))
      : Type 0 where
    pub work : PublishedWork (WorkBody D)
    pub copied : stratum_copy_work r' ≡ some work
    pub job_id : work.job_id ≡ v.job_id
    pub blob_len : work.payload.rx_blob_len ≡ length v.blob
    pub blob : read 0 (length v.blob) work.payload.bytes ≡ v.blob
    pub saturated : (i : ℕ) → i < 6 → get_or work.target i 0 ≡ 4294967295
    pub boundary : get_or work.target 6 0 + 4294967296 * get_or work.target 7 0 ≡ v.target64
    pub owned :
        work.payload.rx_nonce_mask ≡ (if s.xmr_nicehash then randomx_nicehash_nonce_mask else 0)
    pub height : work.height ≡ v.height
    pub pool : work.pooln ≡ s.pooln
    pub targetdiff : work.payload.targetdiff ≡ diff_of_target v.target64

  published :
      {j : Jansson} {params : Option j.Value} (v : XmrJobView) (s : StratumCtx D)
      → (r : RuntimeState (WorkBody D)) → ParsedJob j params v
      → s.pooln < 256
      → XmrPublished v s
          (stratum_commit_job_update
            (xmr_apply_job_locked diff_of_target v)
            build_xmr_work
            true
            s
            r).1
  unfolding build_xmr_work stratum_publish_work stratum_copy_work stratum_commit_job_update
      xmr_apply_job_locked
  published v s r p small =
      let s' : StratumCtx D =
        (stratum_commit_job_update (xmr_apply_job_locked diff_of_target v) build_xmr_work true s
          r).0 in
      record {
        work = (stratum_publish_work (build_xmr_work s') true r).current_work;
        copied = refl;
        job_id = snprintf-job_id v.job_id p.short;
        blob_len = refl;
        blob = read-memcpy 0 v.blob zero_memory;
        saturated = all_ones s';
        boundary = omega arith;
        owned = refl;
        height = refl;
        pool = omega arith;
        targetdiff = refl;
      }

  -- On a pool of the table: a job object is refused, which leaves the job and the published work alone, or it has a job
  -- id, a blob of 43 to 256 bytes, a target and a seed that are well formed, and a thread that copies the work gets
  -- them: the job id in full, the blob as it was sent, a boundary whose upper 64 bits are a positive number that
  -- does not fall short of the target and whose lower words are all ones, the bits of the nonce that the
  -- session owns, and the pool.
  pub xmr_stratum_handle_job_lem :
      (j : Jansson) (params : Option j.Value) (s : StratumCtx D) (r : RuntimeState (WorkBody D))
      → s.pooln < 256
      → let (s', r', result) = xmr_stratum_handle_job diff_of_target j params s r in
        Refused s s' r r' result
        ⊎ ((result ≡ true) × (v : XmrJobView) × ParsedJob j params v × XmrPublished v s r')
  unfolding xmr_stratum_handle_job stratum_commit_job_update xmr_apply_job_locked
  xmr_stratum_handle_job_lem j params s r small =
      elim (Option-cases (xmr_parse_job_view j params)) [
        | inl e ↦ rw (e, xmr_stratum_handle_job) (inl (refl, refl, refl, refl, refl, refl))
        | inr (v, e) ↦
            let p = xmr_parse_job_view-ParsedJob j params v e in
            rw (e, xmr_stratum_handle_job) (inr (refl, v, p, published v s r p small))
      ]
