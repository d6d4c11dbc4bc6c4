-- ===== src/Verus/Apply.antt =====
-- What apply_verus_job_locked of src/stratum_verus.cpp makes of a notify.
use primo_arm_miner.Prelude.{◌/◌, ◌≡◌, sym, ap, ◌∙◌, true, some, ◌++◌, Bytes, length, if◌then◌else◌}
use primo_arm_miner.Prelude.Options.{>>=-eq-some, guard-eq-some, result-eq}
use primo_arm_miner.Hex.{hex2bin}
use primo_arm_miner.Job.{StratumCtx}
use primo_arm_miner.Verus.{
  VerusNotify, verus_validate_nonce_layout, same_block, apply_verus_job_locked,
}

module _ {D : Type 0} where
  -- The job of a session is the notify: each field is the bytes of its text.
  pub record VerusAnnounced (msg : VerusNotify) (solution : Bytes) (s s' : StratumCtx D)
      : Type 0 where
    pub head : Bytes
    pub tail : Bytes
    pub layout : verus_validate_nonce_layout (length s.xnonce1) s.xnonce2_size ≡ true
    pub coinb1 : hex2bin msg.coinb1 (length msg.coinb1 / 2) ≡ some head
    pub coinb2 : hex2bin msg.coinb2 (length msg.coinb2 / 2) ≡ some tail
    pub coinbase : s'.job.coinbase ≡ head ++ (tail ++ s.xnonce1)
    pub prevhash : hex2bin msg.prevhash 32 ≡ some s'.job.prevhash
    pub version : hex2bin msg.version 4 ≡ some s'.job.version
    pub nbits : hex2bin msg.nbits 4 ≡ some s'.job.nbits
    pub ntime : hex2bin msg.stime 4 ≡ some s'.job.ntime
    pub height : s'.job.height ≡ (
        if same_block s.job.job_id s.job.version s.job.prevhash s'.job.version s'.job.prevhash
        then s.job.height
        else 0)
    pub job_id : s'.job.job_id ≡ some msg.job_id
    pub solved : s'.job.solution ≡ solution
    pub difficulty : s'.job.diff ≡ s.next_diff
    pub same_pool : s'.pooln ≡ s.pooln
    pub same_xnonce1 : s'.xnonce1 ≡ s.xnonce1
    pub same_xnonce2_size : s'.xnonce2_size ≡ s.xnonce2_size
    pub same_blob : s'.job.rx_blob ≡ s.job.rx_blob

  pub apply_verus_job-VerusAnnounced :
      (msg : VerusNotify) (solution : Bytes) (s s' : StratumCtx D)
      → apply_verus_job_locked msg solution s ≡ some s'
      → VerusAnnounced msg solution s s'
  unfolding apply_verus_job_locked
  apply_verus_job-VerusAnnounced msg solution s s' e =
      let (layout, k0) =
        guard-eq-some (verus_validate_nonce_layout (length s.xnonce1) s.xnonce2_size) _ e in
      let (version, e1, k1) = >>=-eq-some (hex2bin msg.version 4) _ k0 in
      let (prevhash, e2, k2) = >>=-eq-some (hex2bin msg.prevhash 32) _ k1 in
      let (nbits, e3, k3) = >>=-eq-some (hex2bin msg.nbits 4) _ k2 in
      let (ntime, e4, k4) = >>=-eq-some (hex2bin msg.stime 4) _ k3 in
      let (head, e5, k5) = >>=-eq-some (hex2bin msg.coinb1 (length msg.coinb1 / 2)) _ k4 in
      let (tail, e6, k6) = >>=-eq-some (hex2bin msg.coinb2 (length msg.coinb2 / 2)) _ k5 in
      let same = result-eq k6 in
      let v = ap (λ (x : StratumCtx D). x.job.version) same in
      let p = ap (λ (x : StratumCtx D). x.job.prevhash) same in
      record {
        head = head;
        tail = tail;
        layout = layout;
        coinb1 = e5;
        coinb2 = e6;
        coinbase = ap (λ (x : StratumCtx D). x.job.coinbase) same;
        prevhash = e2 ∙ ap some (sym p);
        version = e1 ∙ ap some (sym v);
        nbits = e3 ∙ ap some (sym (ap (λ (x : StratumCtx D). x.job.nbits) same));
        ntime = e4 ∙ ap some (sym (ap (λ (x : StratumCtx D). x.job.ntime) same));
        height = rw (v, p) (ap (λ (x : StratumCtx D). x.job.height) same);
        job_id = ap (λ (x : StratumCtx D). x.job.job_id) same;
        solved = ap (λ (x : StratumCtx D). x.job.solution) same;
        difficulty = ap (λ (x : StratumCtx D). x.job.diff) same;
        same_pool = ap (λ (x : StratumCtx D). x.pooln) same;
        same_xnonce1 = ap (λ (x : StratumCtx D). x.xnonce1) same;
        same_xnonce2_size = ap (λ (x : StratumCtx D). x.xnonce2_size) same;
        same_blob = ap (λ (x : StratumCtx D). x.job.rx_blob) same;
      }
