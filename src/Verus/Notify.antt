-- ===== src/Verus/Notify.antt =====
-- verus_stratum_notify of src/stratum_verus.cpp as a whole: what is published, and what is left alone when
-- the notify is refused.
use primo_arm_miner.Prelude.{
  ◌-◌, ◌/◌, ◌≤◌, ◌≡◌, refl, sym, ap, ◌∙◌, true, Option, some, ◌++◌, arith, Bytes, length,
  length-append, take, take-append, replicate, ◌==◌, ◌&&◌,
}
use mathlib.Core.List.{append_assoc}
use primo_arm_miner.Prelude.Memory.{read}
use primo_arm_miner.Prelude.Options.{>>=-eq-some, guard-eq-some, result-eq}
use primo_arm_miner.Json.{Jansson, string_at}
use primo_arm_miner.Pools.{snprintf_str}
use primo_arm_miner.Publish.{PublishedWork, RuntimeState, stratum_publish_work, stratum_copy_work}
use primo_arm_miner.Job.{StratumCtx, WorkBody, stratum_check_job_id_length}
use primo_arm_miner.Job.Decode.{hex2bin-Field, snprintf-job_id}
use primo_arm_miner.Standard.{id_or_empty}
use primo_arm_miner.Verus.{
  VerusNotify, VerusTargets, even_solution, parse_verus_notify, decoded_solution,
  verus_validate_nonce_layout, build_verus_work,
}
use primo_arm_miner.Verus.Header.{VerusFields, read-verus_header}
use primo_arm_miner.Verus.Apply.{VerusAnnounced}

-- The roots of a notify have 32 bytes each.
pub parse_verus_notify-roots :
    (j : Jansson) (params : Option j.Value) (msg : VerusNotify)
    → parse_verus_notify j params ≡ some msg
    → (length msg.coinb1 ≡ 64) × (length msg.coinb2 ≡ 64)
unfolding parse_verus_notify
parse_verus_notify-roots j params msg e =
    let (job_id, _, k0) = >>=-eq-some (string_at j params 0) _ e in
    let (version, _, k1) = >>=-eq-some (string_at j params 1) _ k0 in
    let (prevhash, _, k2) = >>=-eq-some (string_at j params 2) _ k1 in
    let (coinb1, _, k3) = >>=-eq-some (string_at j params 3) _ k2 in
    let (coinb2, _, k4) = >>=-eq-some (string_at j params 4) _ k3 in
    let (stime, _, k5) = >>=-eq-some (string_at j params 5) _ k4 in
    let (nbits, _, k6) = >>=-eq-some (string_at j params 6) _ k5 in
    let (_, k7) = guard-eq-some (even_solution (string_at j params 8)) _ k6 in
    let (_, k8) = guard-eq-some (length prevhash == 64 && length version == 8) _ k7 in
    let (sizes, k9) = guard-eq-some (length coinb1 == 64 && length coinb2 == 64) _ k8 in
    let (_, k10) = guard-eq-some (length nbits == 8 && length stime == 8) _ k9 in
    let same = result-eq k10 in
    let size1 : length coinb1 ≡ 64 = ground arith in
    let size2 : length coinb2 ≡ 64 = ground arith in
    (
      ap (λ (x : VerusNotify). length x.coinb1) same ∙ size1,
      ap (λ (x : VerusNotify). length x.coinb2) same ∙ size2,
    )

module _ {D : Type 0} (t : VerusTargets D) where
  -- What a session publishes for a notify.
  pub record VerusPublished (msg : VerusNotify) (s s' : StratumCtx D)
      (r' : RuntimeState (WorkBody D)) : Type 0 where
    pub solution : Bytes
    pub decoded : decoded_solution msg.solution ≡ some solution
    pub announced : VerusAnnounced msg solution s s'
    pub work : PublishedWork (WorkBody D)
    pub copied : stratum_copy_work r' ≡ some work
    pub job_id : work.job_id ≡ msg.job_id
    pub header :
        read 0 140 work.payload.bytes
        ≡ (s'.job.version
            ++ (s'.job.prevhash
                ++ ((announced.head ++ announced.tail)
                    ++ (s'.job.ntime ++ (s'.job.nbits ++ s.xnonce1)))))
          ++ replicate (32 - length s.xnonce1) 0
    pub worked : work.payload.solution ≡ solution
    pub height : work.height ≡ s'.job.height
    pub pool : work.pooln ≡ s.pooln
    pub target : work.target ≡ t.diff_to_target_verus s.next_diff
    pub targetdiff : work.payload.targetdiff ≡ s.next_diff

  roots :
      (msg : VerusNotify) (solution : Bytes) (s s' : StratumCtx D)
      → length msg.coinb1 ≡ 64
      → length msg.coinb2 ≡ 64
      → (a : VerusAnnounced msg solution s s')
      → (take 64 s'.job.coinbase ≡ a.head ++ a.tail) × (length (a.head ++ a.tail) ≡ 64)
  roots msg solution s s' c1 c2 a =
      let (n1, _) = hex2bin-Field msg.coinb1 (length msg.coinb1 / 2) a.head a.coinb1 in
      let (n2, _) = hex2bin-Field msg.coinb2 (length msg.coinb2 / 2) a.tail a.coinb2 in
      let size : length (a.head ++ a.tail) ≡ 64 = omega (arith, length-append a.head a.tail) in
      (
        ap (take 64) (a.coinbase ∙ sym (append_assoc a.head a.tail s.xnonce1))
            ∙ ap (λ n. take n ((a.head ++ a.tail) ++ s.xnonce1)) (sym size)
            ∙ take-append (a.head ++ a.tail) s.xnonce1,
        size,
      )

  fields :
      (msg : VerusNotify) (solution : Bytes) (s s' : StratumCtx D)
      → length msg.coinb1 ≡ 64
      → length msg.coinb2 ≡ 64
      → VerusAnnounced msg solution s s'
      → VerusFields s'
  fields msg solution s s' c1 c2 a =
      let (same, size) = roots msg solution s s' c1 c2 a in
      let short : length s.xnonce1 ≤ 12 =
        let valid = a.layout in unfold verus_validate_nonce_layout in ground arith in
      record {
        version = (hex2bin-Field msg.version 4 s'.job.version a.version).0;
        prevhash = (hex2bin-Field msg.prevhash 32 s'.job.prevhash a.prevhash).0;
        coinbase = ap length same ∙ size;
        ntime = (hex2bin-Field msg.stime 4 s'.job.ntime a.ntime).0;
        nbits = (hex2bin-Field msg.nbits 4 s'.job.nbits a.nbits).0;
        xnonce1 = rw a.same_xnonce1 short;
      }

  pub built :
      (msg : VerusNotify) (solution : Bytes) (s s' : StratumCtx D) (r : RuntimeState (WorkBody D))
      → length msg.coinb1 ≡ 64
      → length msg.coinb2 ≡ 64
      → decoded_solution msg.solution ≡ some solution
      → stratum_check_job_id_length msg.job_id ≡ true
      → VerusAnnounced msg solution s s'
      → VerusPublished msg s s' (stratum_publish_work (build_verus_work t s') msg.clean r)
  unfolding build_verus_work stratum_publish_work stratum_copy_work
  built msg solution s s' r c1 c2 e short a =
      let work = build_verus_work t s' in
      record {
        solution = solution;
        decoded = e;
        announced = a;
        work = (stratum_publish_work work msg.clean r).current_work;
        copied = refl;
        job_id =
            ap (λ o. snprintf_str 128 (id_or_empty o)) a.job_id ∙ snprintf-job_id msg.job_id short;
        header =
            read-verus_header s' (fields msg solution s s' c1 c2 a)
            ∙ rw (a.same_xnonce1, (roots msg solution s s' c1 c2 a).0) refl;
        worked = a.solved;
        height = refl;
        pool = a.same_pool;
        target = ap t.diff_to_target_verus a.difficulty;
        targetdiff = a.difficulty;
      }
