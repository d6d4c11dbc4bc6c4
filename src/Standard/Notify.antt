-- ===== src/Standard/Notify.antt =====
-- stratum_notify_standard of src/stratum_standard.cpp as a whole: what is published, and what is left
-- alone when the notify is refused.
use primo_arm_miner.Prelude.{
  ℕ, ◌+◌, ◌≡◌, refl, sym, ap, subst, ◌∙◌, ◌⊎◌, inl, inr, Bool, true, Option, some, List, ◌++◌,
  arith, Bytes, length, take, drop, drop-append, take-append, replicate, length-replicate,
  Bool-cases, Option-cases,
}
use primo_arm_miner.Prelude.Int.{ℤ}
use primo_arm_miner.Prelude.Memory.{read}
use primo_arm_miner.Json.{Jansson}
use primo_arm_miner.DevFee.Targets.{Algo}
use primo_arm_miner.Pools.{snprintf_str}
use primo_arm_miner.Publish.{PublishedWork, RuntimeState, stratum_publish_work, stratum_copy_work}
use primo_arm_miner.Job.{
  StratumCtx, WorkBody, stratum_update_time_offset, stratum_check_job_id_length,
  stratum_commit_job_update, stratum_decode_merkle_array,
}
use primo_arm_miner.Job.Decode.{Refused, snprintf-job_id, time_offset_lem}
use primo_arm_miner.Standard.{
  StandardNotify, Targets, target_diff, parse_standard_notify, apply_standard_job_locked,
  id_or_empty, build_standard_work, commit_standard_notify, apply_standard_notify,
  stratum_notify_standard,
}
use primo_arm_miner.Standard.Header.{Digests, header_bytes, read-standard_header}
use primo_arm_miner.Standard.Apply.{Announced, apply_standard_job-Announced, Announced-HeaderFields}

-- The second extra nonce is where the pointer says.
xnonce2-lem :
    (head xnonce1 tail : Bytes) (size : ℕ)
    → take size
        (drop (length head + length xnonce1) (head ++ (xnonce1 ++ (replicate size 0 ++ tail))))
      ≡ replicate size 0
xnonce2-lem head xnonce1 tail size =
    let zeros : Bytes = replicate size 0 in
    let at : length head + length xnonce1 ≡ length head + (length xnonce1 + 0) = omega arith in
    let skipped =
      drop-append head (xnonce1 ++ (zeros ++ tail)) (length xnonce1 + 0)
      ∙ drop-append xnonce1 (zeros ++ tail) 0 in
    rw (at, skipped)
      (ap (λ n. take n (zeros ++ tail)) (sym (length-replicate size 0)) ∙ take-append zeros tail)

module _ {D : Type 0} (sha256d_neon : Bytes → Bytes) (t : Targets D) (opt_algo : Algo)
    (j : Jansson) where
  -- What a session publishes for a notify.
  pub record Published (msg : StandardNotify j.Value) (s s' : StratumCtx D)
      (r' : RuntimeState (WorkBody D)) : Type 0 where
    pub merkle : List Bytes
    pub branches : stratum_decode_merkle_array j msg.merkle_arr ≡ some merkle
    pub announced : Announced msg merkle s s'
    pub work : PublishedWork (WorkBody D)
    pub copied : stratum_copy_work r' ≡ some work
    pub job_id : work.job_id ≡ msg.job_id
    pub header : read 0 80 work.payload.bytes ≡ header_bytes sha256d_neon s'.job
    pub xnonce2 : work.payload.xnonce2 ≡ replicate s.xnonce2_size 0
    pub height : work.height ≡ s'.job.height
    pub pool : work.pooln ≡ s.pooln
    pub target : work.target ≡ t.diff_to_target (target_diff t opt_algo s.next_diff)
    pub targetdiff : work.payload.targetdiff ≡ s.next_diff

  built :
      Digests sha256d_neon
      → (msg : StandardNotify j.Value) (merkle : List Bytes) (s s' : StratumCtx D)
      → (r : RuntimeState (WorkBody D)) → stratum_decode_merkle_array j msg.merkle_arr ≡ some merkle
      → stratum_check_job_id_length msg.job_id ≡ true
      → Announced msg merkle s s'
      → Published msg s s'
          (stratum_publish_work (build_standard_work sha256d_neon t opt_algo s') msg.clean r)
  unfolding build_standard_work stratum_publish_work stratum_copy_work
  built digests msg merkle s s' r e short a =
      let work = build_standard_work sha256d_neon t opt_algo s' in
      record {
        merkle = merkle;
        branches = e;
        announced = a;
        work = (stratum_publish_work work msg.clean r).current_work;
        copied = refl;
        job_id =
            ap (λ o. snprintf_str 128 (id_or_empty o)) a.job_id ∙ snprintf-job_id msg.job_id short;
        header =
            read-standard_header sha256d_neon s'.job digests
              (Announced-HeaderFields msg merkle s s' a);
        xnonce2 =
            rw (a.same_xnonce2_size, a.xnonce2, a.coinbase)
              (xnonce2-lem a.head s.xnonce1 a.tail s.xnonce2_size);
        height = refl;
        pool = a.same_pool;
        target = ap (λ d. t.diff_to_target (target_diff t opt_algo d)) a.difficulty;
        targetdiff = a.difficulty;
      }

  -- A notify is refused, or it is published.
  abbrev pub Outcome :
      Option (StandardNotify j.Value)
      → (s : StratumCtx D) → RuntimeState (WorkBody D)
      → StratumCtx D × RuntimeState (WorkBody D) × Bool
      → Type 0
  Outcome parsed s r (s', r', result) =
      Refused s s' r r' result
      ⊎ ((result ≡ true)
          × (msg : StandardNotify j.Value) × (parsed ≡ some msg)
          × Published msg s s' r')

  committed :
      Digests sha256d_neon
      → (msg : StandardNotify j.Value) (s : StratumCtx D) (r : RuntimeState (WorkBody D))
      → Outcome (some msg) s r (commit_standard_notify sha256d_neon t opt_algo j msg s r)
  unfolding commit_standard_notify stratum_commit_job_update
  committed digests msg s r = elim (Option-cases (stratum_decode_merkle_array j msg.merkle_arr)) [
    | inl e ↦ rw (e, commit_standard_notify) (inl (refl, refl, refl, refl, refl, refl))
    | inr (merkle, e) ↦ elim (Bool-cases (stratum_check_job_id_length msg.job_id)) [
      | inl short ↦ elim (Option-cases (apply_standard_job_locked msg merkle s)) [
        | inl refused ↦
            rw (e, short, refused, commit_standard_notify, stratum_commit_job_update)
              (inl (refl, refl, refl, refl, refl, refl))
        | inr (s', applied) ↦
            rw (e, short, applied, commit_standard_notify, stratum_commit_job_update)
              (inr (
                refl,
                msg,
                refl,
                built digests msg merkle s s' r e short
                    (apply_standard_job-Announced msg merkle s s' applied),
              ))
      ]
      | inr long ↦ rw (e, long, commit_standard_notify) (inl (refl, refl, refl, refl, refl, refl))
    ]
  ]

  -- The time offset of the session plays no part.
  offset-Published :
      (msg : StandardNotify j.Value) (s s' : StratumCtx D) (r' : RuntimeState (WorkBody D)) (o : ℤ)
      → Published msg (record s { srvtime_diff = o }) s' r'
      → Published msg s s' r'
  offset-Published msg s s' r' o p =
      let a = p.announced in
      record {
        merkle = p.merkle;
        branches = p.branches;
        announced = record {
          head = a.head;
          tail = a.tail;
          coinb1 = a.coinb1;
          coinb2 = a.coinb2;
          coinbase = a.coinbase;
          xnonce2 = a.xnonce2;
          prevhash = a.prevhash;
          version = a.version;
          nbits = a.nbits;
          ntime = a.ntime;
          height = a.height;
          job_id = a.job_id;
          branches = a.branches;
          difficulty = a.difficulty;
          same_pool = a.same_pool;
          same_xnonce2_size = a.same_xnonce2_size;
          same_xnonce1 = a.same_xnonce1;
          same_solution = a.same_solution;
          same_blob = a.same_blob;
        };
        work = p.work;
        copied = p.copied;
        job_id = p.job_id;
        header = p.header;
        xnonce2 = p.xnonce2;
        height = p.height;
        pool = p.pool;
        target = p.target;
        targetdiff = p.targetdiff;
      }

  offset-Outcome :
      (parsed : Option (StandardNotify j.Value)) (s s1 : StratumCtx D)
      (r : RuntimeState (WorkBody D))
      → (out : StratumCtx D × RuntimeState (WorkBody D) × Bool) → (o : ℤ)
      → s1 ≡ record s { srvtime_diff = o }
      → Outcome parsed s1 r out
      → Outcome parsed s r out
  offset-Outcome parsed s s1 r (s', r', result) o e h =
      let h' : Outcome parsed (record s { srvtime_diff = o }) r (s', r', result) =
        subst (λ x. Outcome parsed x r (s', r', result)) e h in
      elim h' [
        | inl refused ↦ inl refused
        | inr (ok, msg, q, p) ↦ inr (ok, msg, q, offset-Published msg s s' r' o p)
      ]

  -- With a hash of 32 bytes: a notify is refused, which leaves the job, the extra nonces, the next
  -- difficulty and the published work alone; or its fields have become the job, and a thread that copies the
  -- work gets its job id in full, the pool and the difficulty of the session, its height, the second extra
  -- nonce as zeros, and a header whose eighty bytes are the version, the previous hash, the Merkle root of
  -- the coinbase under the branches, the time and the bits that the notify spells, with a nonce of zero.
  pub stratum_notify_standard_lem :
      Digests sha256d_neon
      → (now : ℕ) (params : Option j.Value) (s : StratumCtx D) (r : RuntimeState (WorkBody D))
      → Outcome
          (parse_standard_notify j params)
          s
          r
          (stratum_notify_standard sha256d_neon t opt_algo j now params s r)
  unfolding stratum_notify_standard
  stratum_notify_standard_lem digests now params s r =
      elim (Option-cases (parse_standard_notify j params)) [
        | inl e ↦ rw (e, stratum_notify_standard) (inl (refl, refl, refl, refl, refl, refl))
        | inr (msg, e) ↦ elim (Option-cases (stratum_update_time_offset now msg.stime true s)) [
          | inl late ↦
              rw (e, late, stratum_notify_standard, apply_standard_notify)
                (inl (refl, refl, refl, refl, refl, refl))
          | inr (s1, offset) ↦
              let (o, same) = time_offset_lem now msg.stime true s s1 offset in
              rw (e, offset, stratum_notify_standard, apply_standard_notify)
                (offset-Outcome (some msg) s s1 r _ o same (committed digests msg s1 r))
        ]
      ]
