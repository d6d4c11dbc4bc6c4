-- ===== src/Rpc/Layouts.antt =====
-- Whatever messages a pool sends, what the session holds fits the buffers that it is copied to.
use primo_arm_miner.Prelude.{
  ℕ, ◌-◌, ◌/◌, ◌≤◌, ◌≡◌, sym, ap, subst, Bool, not, true, false, Option, none, some, List, [], ◌∷◌,
  arith, Bytes, codes, length, length-append, length-replicate, replicate, leb, ◌&&◌, ◌==◌,
  Bool-cases, Option-cases, inl, inr,
}
use primo_arm_miner.Prelude.Options.{>>=-eq-some, guard-eq-some, result-eq}
use primo_arm_miner.Json.{Jansson, string_of}
use primo_arm_miner.Hex.{hex2bin}
use primo_arm_miner.Job.{
  StratumCtx, stratum_update_time_offset, stratum_check_job_id_length, stratum_commit_job_update,
  stratum_decode_merkle_array,
}
use primo_arm_miner.Pools.{is_empty}
use primo_arm_miner.Job.Decode.{hex2bin-Field, time_offset_lem, commit-choice}
use primo_arm_miner.Extranonce.{speaks_verus}
use primo_arm_miner.Extranonce.Layout.{Layout}
use primo_arm_miner.Standard.{
  StandardNotify, parse_standard_notify, apply_standard_job_locked, build_standard_work,
  commit_standard_notify, apply_standard_notify, stratum_notify_standard,
}
use primo_arm_miner.Standard.{is_even}
use primo_arm_miner.Nonce.{is_randomx}
use primo_arm_miner.Standard.Apply.{Announced, apply_standard_job-Announced}
use primo_arm_miner.Verus.{
  VerusNotify, padded, decode_verus_solution_field, decoded_solution, parse_verus_notify,
  apply_verus_job_locked, build_verus_work, commit_verus_notify, apply_verus_notify,
  verus_stratum_notify,
}
use primo_arm_miner.Verus.Apply.{VerusAnnounced, apply_verus_job-VerusAnnounced}
use primo_arm_miner.Monero.{
  XmrJobView, xmr_parse_job_view, xmr_apply_job_locked, xmr_stratum_handle_job, blob_length_ok,
  xmr_parse_target,
}
use primo_arm_miner.Peer.{Settings, Peer, Moment, handle_notify}

-- The job id fits the 128 bytes of a work.
abbrev pub IdFits : Option Bytes → Type 0
IdFits none = Unit {0}
IdFits (some job_id) = length job_id ≤ 127

-- Both extra nonces fit in 32 bytes, the job id in 128, the RandomX blob in 256, and the solution of a
-- Verus job fills its 1344.
abbrev pub SessionFits : {D : Type 0} → StratumCtx D → Type 0
SessionFits s =
    Layout s × IdFits s.job.job_id × (length s.job.rx_blob ≤ 256) × (length s.job.solution ≡ 1344)

decoded_solution-length :
    (text : Option Bytes) (out : Bytes) → decoded_solution text ≡ some out → length out ≡ 1344
unfolding decoded_solution padded decode_verus_solution_field
decoded_solution-length none out e = rw (result-eq e) (length-replicate {A = ℕ} 1344 0)
decoded_solution-length (some []) out e = rw (result-eq e) (length-replicate {A = ℕ} 1344 0)
decoded_solution-length (some (c ∷ s)) out e =
    let (fits, k1) =
      guard-eq-some (is_even (length (c ∷ s)) && leb (length (c ∷ s) / 2) 1344) _ e in
    let (bytes, e2, k2) = >>=-eq-some (hex2bin (c ∷ s) (length (c ∷ s) / 2)) _ k1 in
    let (n, _) = hex2bin-Field (c ∷ s) (length (c ∷ s) / 2) bytes e2 in
    rw (result-eq k2) (
      omega (
        arith,
        length-append bytes (replicate (1344 - length bytes) 0),
        length-replicate {A = ℕ} (1344 - length bytes) 0,
        le_of fits,
      ))
  where
    le_of :
        (is_even (length (c ∷ s)) && leb (length (c ∷ s) / 2) 1344) ≡ true
        → length (c ∷ s) / 2 ≤ 1344
    le_of h = ground arith

xmr_view-fits :
    (j : Jansson) (params : Option j.Value) (v : XmrJobView)
    → xmr_parse_job_view j params ≡ some v
    → (length v.job_id ≤ 127) × (length v.blob ≤ 256)
unfolding xmr_parse_job_view stratum_check_job_id_length
xmr_view-fits j params v e =
    let (job_id, _, k1) = >>=-eq-some (string_of j params (codes "job_id")) _ e in
    let (blob, _, k2) = >>=-eq-some (string_of j params (codes "blob")) _ k1 in
    let (target, _, k3) = >>=-eq-some (string_of j params (codes "target")) _ k2 in
    let (short, k4) =
      guard-eq-some (not (is_empty job_id) && stratum_check_job_id_length job_id) _ k3 in
    let (within, k5) = guard-eq-some (blob_length_ok (length blob)) _ k4 in
    let (bytes, b, k6) = >>=-eq-some (hex2bin blob (length blob / 2)) _ k5 in
    let (target64, _, k7) = >>=-eq-some (xmr_parse_target target) _ k6 in
    let (seed, _, k8) = >>=-eq-some (string_of j params (codes "seed_hash")) _ k7 in
    let (_, k9) = guard-eq-some (length seed == 64) _ k8 in
    let (seed_bytes, _, k10) = >>=-eq-some (hex2bin seed 32) _ k9 in
    let (size, _) = hex2bin-Field blob (length blob / 2) bytes b in
    let same = result-eq k10 in
    let short_id : length job_id ≤ 127 = ground arith in
    let small : length bytes ≤ 256 = ground arith in
    (
      rw (ap (λ (x : XmrJobView). x.job_id) same) short_id,
      rw (ap (λ (x : XmrJobView). x.blob) same) small,
    )

module _ {D : Type 0} where
  standard-SessionFits :
      {V : Type 0} (msg : StandardNotify V) (merkle : List Bytes) (s s' : StratumCtx D)
      → stratum_check_job_id_length msg.job_id ≡ true
      → SessionFits s
      → Announced msg merkle s s'
      → SessionFits s'
  unfolding stratum_check_job_id_length
  standard-SessionFits msg merkle s s' short (layout, _, blob, solution) a = (
    rw (a.same_xnonce1, a.same_xnonce2_size) layout,
    rw a.job_id (ground arith),
    rw a.same_blob blob,
    rw a.same_solution solution,
  )

  verus-SessionFits :
      (msg : VerusNotify) (solution : Bytes) (s s' : StratumCtx D)
      → stratum_check_job_id_length msg.job_id ≡ true
      → length solution ≡ 1344
      → SessionFits s
      → VerusAnnounced msg solution s s'
      → SessionFits s'
  unfolding stratum_check_job_id_length
  verus-SessionFits msg solution s s' short full (layout, _, blob, _) a = (
    rw (a.same_xnonce1, a.same_xnonce2_size) layout,
    rw a.job_id (ground arith),
    rw a.same_blob blob,
    rw a.solved full,
  )

  offset-SessionFits :
      (now : ℕ) (stime : Bytes) (swap32 : Bool) (s s' : StratumCtx D)
      → SessionFits s
      → stratum_update_time_offset now stime swap32 s ≡ some s'
      → SessionFits s'
  offset-SessionFits now stime swap32 s s' h e =
      let (o, same) = time_offset_lem now stime swap32 s s' e in subst SessionFits (sym same) h

module _ {D : Type 0} {j : Jansson} (c : Settings D j) where
  standard_notify-SessionFits :
      (now : ℕ) (params : Option j.Value) (p : Peer D j)
      → SessionFits p.ctx
      → SessionFits
          (stratum_notify_standard c.sha256d_neon c.targets c.opt_algo j now params p.ctx
            p.runtime).0
  unfolding stratum_notify_standard
  standard_notify-SessionFits now params p h =
      elim (Option-cases (parse_standard_notify j params)) [
        | inl e ↦ rw (e, stratum_notify_standard) h
        | inr (msg, e) ↦ elim (Option-cases (stratum_update_time_offset now msg.stime true p.ctx)) [
          | inl f ↦ rw (e, stratum_notify_standard, f, apply_standard_notify) h
          | inr (s, f) ↦
              let h' = offset-SessionFits now msg.stime true p.ctx s h f in
              elim (Option-cases (stratum_decode_merkle_array j msg.merkle_arr)) [
                | inl g ↦
                    rw
                      (
                        e, stratum_notify_standard, f, apply_standard_notify, g,
                        commit_standard_notify,
                      )
                      h'
                | inr (merkle, g) ↦ elim (Bool-cases (stratum_check_job_id_length msg.job_id)) [
                  | inl short ↦
                      rw
                        (
                          e, stratum_notify_standard, f, apply_standard_notify, g,
                          commit_standard_notify, short,
                        )
                        (commit-choice SessionFits (apply_standard_job_locked msg merkle)
                          (build_standard_work c.sha256d_neon c.targets c.opt_algo) msg.clean s
                          p.runtime h'
                          (λ s' applied.
                            standard-SessionFits msg merkle s s' short h'
                              (apply_standard_job-Announced msg merkle s s' applied)))
                  | inr long ↦
                      rw
                        (
                          e, stratum_notify_standard, f, apply_standard_notify, g,
                          commit_standard_notify, long,
                        )
                        h'
                ]
              ]
        ]
      ]

  verus_notify-SessionFits :
      (now : ℕ) (params : Option j.Value) (p : Peer D j)
      → SessionFits p.ctx
      → SessionFits (verus_stratum_notify c.verus_targets j now params p.ctx p.runtime).0
  unfolding verus_stratum_notify
  verus_notify-SessionFits now params p h = elim (Option-cases (parse_verus_notify j params)) [
    | inl e ↦ rw (e, verus_stratum_notify) h
    | inr (msg, e) ↦ elim (Option-cases (stratum_update_time_offset now msg.stime false p.ctx)) [
      | inl f ↦ rw (e, verus_stratum_notify, f, apply_verus_notify) h
      | inr (s, f) ↦
          let h' = offset-SessionFits now msg.stime false p.ctx s h f in
          elim (Option-cases (decoded_solution msg.solution)) [
            | inl g ↦ rw (e, verus_stratum_notify, f, apply_verus_notify, g, commit_verus_notify) h'
            | inr (solution, g) ↦ elim (Bool-cases (stratum_check_job_id_length msg.job_id)) [
              | inl short ↦
                  rw (e, verus_stratum_notify, f, apply_verus_notify, g, commit_verus_notify, short)
                    (commit-choice SessionFits (apply_verus_job_locked msg solution)
                      (build_verus_work c.verus_targets) msg.clean s p.runtime h'
                      (λ s' applied.
                        verus-SessionFits msg solution s s' short
                          (decoded_solution-length msg.solution solution g) h'
                          (apply_verus_job-VerusAnnounced msg solution s s' applied)))
              | inr long ↦
                  rw (e, verus_stratum_notify, f, apply_verus_notify, g, commit_verus_notify, long)
                    h'
            ]
          ]
    ]
  ]

  pub xmr_job-SessionFits :
      (params : Option j.Value) (p : Peer D j)
      → SessionFits p.ctx
      → SessionFits (xmr_stratum_handle_job c.diff_of_target j params p.ctx p.runtime).0
  unfolding xmr_stratum_handle_job
  xmr_job-SessionFits params p h = elim (Option-cases (xmr_parse_job_view j params)) [
    | inl e ↦ rw (e, xmr_stratum_handle_job) h
    | inr (v, e) ↦
        let (short, small) = xmr_view-fits j params v e in
        rw (e, xmr_stratum_handle_job)
          (unfold stratum_commit_job_update xmr_apply_job_locked in (h.0, short, small, h.3))
  ]

  pub notify-SessionFits :
      (m : Moment) (params : Option j.Value) (p : Peer D j)
      → SessionFits p.ctx
      → SessionFits (handle_notify c m params p).0.ctx
  unfolding handle_notify
  notify-SessionFits m params p h = elim (Bool-cases (speaks_verus c.opt_algo p.ctx)) [
    | inl e ↦ rw (e, handle_notify) (verus_notify-SessionFits m.now params p h)
    | inr e ↦ elim (Bool-cases (is_randomx c.opt_algo)) [
      | inl f ↦ rw (e, f, handle_notify) (xmr_job-SessionFits params p h)
      | inr f ↦ rw (e, f, handle_notify) (standard_notify-SessionFits m.now params p h)
    ]
  ]
