-- ===== src/Verus/Outcome.antt =====
-- Every way that verus_stratum_notify of src/stratum_verus.cpp can end.
use primo_arm_miner.Prelude.{
  ℕ, ◌≡◌, refl, subst, ◌⊎◌, inl, inr, Bool, true, false, Option, some, length, Bool-cases,
  Option-cases,
}
use primo_arm_miner.Prelude.Int.{ℤ}
use primo_arm_miner.Json.{Jansson}
use primo_arm_miner.Publish.{RuntimeState}
use primo_arm_miner.Job.{
  StratumCtx, WorkBody, stratum_update_time_offset, stratum_check_job_id_length,
  stratum_commit_job_update,
}
use primo_arm_miner.Job.Decode.{Refused, time_offset_lem}
use primo_arm_miner.Verus.{
  VerusNotify, VerusTargets, parse_verus_notify, decoded_solution, apply_verus_job_locked,
  commit_verus_notify, apply_verus_notify, verus_stratum_notify,
}
use primo_arm_miner.Verus.Apply.{apply_verus_job-VerusAnnounced}
use primo_arm_miner.Verus.Notify.{VerusPublished, parse_verus_notify-roots, built}

module _ {D : Type 0} (t : VerusTargets D) where
  -- A notify is refused, or it is published.
  abbrev pub VerusOutcome :
      Option VerusNotify
      → (s : StratumCtx D) → RuntimeState (WorkBody D)
      → StratumCtx D × RuntimeState (WorkBody D) × Bool
      → Type 0
  VerusOutcome parsed s r (s', r', result) =
      Refused s s' r r' result
      ⊎ ((result ≡ true) × (msg : VerusNotify) × (parsed ≡ some msg) × VerusPublished t msg s s' r')

  committed :
      (msg : VerusNotify) (s : StratumCtx D) (r : RuntimeState (WorkBody D))
      → length msg.coinb1 ≡ 64
      → length msg.coinb2 ≡ 64
      → VerusOutcome (some msg) s r (commit_verus_notify t msg s r)
  unfolding commit_verus_notify stratum_commit_job_update
  committed msg s r c1 c2 = elim (Option-cases (decoded_solution msg.solution)) [
    | inl e ↦ rw (e, commit_verus_notify) (inl (refl, refl, refl, refl, refl, refl))
    | inr (solution, e) ↦ elim (Bool-cases (stratum_check_job_id_length msg.job_id)) [
      | inl short ↦ elim (Option-cases (apply_verus_job_locked msg solution s)) [
        | inl refused ↦
            rw (e, short, refused, commit_verus_notify, stratum_commit_job_update)
              (inl (refl, refl, refl, refl, refl, refl))
        | inr (s', applied) ↦
            rw (e, short, applied, commit_verus_notify, stratum_commit_job_update)
              (inr (
                refl,
                msg,
                refl,
                built t msg solution s s' r c1 c2 e short
                    (apply_verus_job-VerusAnnounced msg solution s s' applied),
              ))
      ]
      | inr long ↦ rw (e, long, commit_verus_notify) (inl (refl, refl, refl, refl, refl, refl))
    ]
  ]

  -- The time offset of the session plays no part.
  offset-VerusPublished :
      (msg : VerusNotify) (s s' : StratumCtx D) (r' : RuntimeState (WorkBody D)) (o : ℤ)
      → VerusPublished t msg (record s { srvtime_diff = o }) s' r'
      → VerusPublished t msg s s' r'
  offset-VerusPublished msg s s' r' o p =
      let a = p.announced in
      record {
        solution = p.solution;
        decoded = p.decoded;
        announced = record {
          head = a.head;
          tail = a.tail;
          layout = a.layout;
          coinb1 = a.coinb1;
          coinb2 = a.coinb2;
          coinbase = a.coinbase;
          prevhash = a.prevhash;
          version = a.version;
          nbits = a.nbits;
          ntime = a.ntime;
          height = a.height;
          job_id = a.job_id;
          solved = a.solved;
          difficulty = a.difficulty;
          same_pool = a.same_pool;
          same_xnonce1 = a.same_xnonce1;
          same_xnonce2_size = a.same_xnonce2_size;
          same_blob = a.same_blob;
        };
        work = p.work;
        copied = p.copied;
        job_id = p.job_id;
        header = p.header;
        worked = p.worked;
        height = p.height;
        pool = p.pool;
        target = p.target;
        targetdiff = p.targetdiff;
      }

  offset-VerusOutcome :
      (parsed : Option VerusNotify) (s s1 : StratumCtx D) (r : RuntimeState (WorkBody D))
      → (out : StratumCtx D × RuntimeState (WorkBody D) × Bool) → (o : ℤ)
      → s1 ≡ record s { srvtime_diff = o }
      → VerusOutcome parsed s1 r out
      → VerusOutcome parsed s r out
  offset-VerusOutcome parsed s s1 r (s', r', result) o e h =
      let h' : VerusOutcome parsed (record s { srvtime_diff = o }) r (s', r', result) =
        subst (λ x. VerusOutcome parsed x r (s', r', result)) e h in
      elim h' [
        | inl refused ↦ inl refused
        | inr (ok, msg, q, p) ↦ inr (ok, msg, q, offset-VerusPublished msg s s' r' o p)
      ]

  -- A Verus notify is refused, which leaves the job, the extra nonces, the next difficulty and the published
  -- work alone; or its fields have become the job, and a thread that copies the work gets its job id in full,
  -- the pool and the difficulty of the session, its solution filled up with zeros to 1344 bytes, and a
  -- header whose first 140 bytes are the version, the previous hash, both roots, the time and the bits that
  -- the notify spells, and a nonce field that begins with the pool's extra nonce and is otherwise zero. The
  -- height is that of the job before if that had the same version and previous hash, and else 0.
  pub verus_stratum_notify_lem :
      (j : Jansson) (now : ℕ) (params : Option j.Value) (s : StratumCtx D)
      → (r : RuntimeState (WorkBody D))
      → VerusOutcome (parse_verus_notify j params) s r (verus_stratum_notify t j now params s r)
  unfolding verus_stratum_notify
  verus_stratum_notify_lem j now params s r = elim (Option-cases (parse_verus_notify j params)) [
    | inl e ↦ rw (e, verus_stratum_notify) (inl (refl, refl, refl, refl, refl, refl))
    | inr (msg, e) ↦ elim (Option-cases (stratum_update_time_offset now msg.stime false s)) [
      | inl late ↦
          rw (e, late, verus_stratum_notify, apply_verus_notify)
            (inl (refl, refl, refl, refl, refl, refl))
      | inr (s1, offset) ↦
          let (o, same) = time_offset_lem now msg.stime false s s1 offset in
          let (c1, c2) = parse_verus_notify-roots j params msg e in
          rw (e, offset, verus_stratum_notify, apply_verus_notify)
            (offset-VerusOutcome (some msg) s s1 r _ o same (committed msg s1 r c1 c2))
    ]
  ]
