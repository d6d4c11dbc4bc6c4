-- ===== src/Standard/Apply.antt =====
-- What apply_standard_job_locked of src/stratum_standard.cpp makes of a notify.
use primo_arm_miner.Prelude.{◌+◌, ◌/◌, ◌≡◌, some, List, ◌++◌, arith, Bytes, length, replicate}
use primo_arm_miner.Prelude.Options.{>>=-eq-some}
use primo_arm_miner.Hex.{hex2bin}
use primo_arm_miner.Job.{StratumCtx}
use primo_arm_miner.Job.Decode.{hex2bin-Field}
use primo_arm_miner.Standard.{StandardNotify, apply_standard_job_locked}
use primo_arm_miner.Coinbase.{get_block_height}
use primo_arm_miner.Standard.Header.{HeaderFields}

-- The coinbase of a notify: its two parts around the extra nonces, the second of which is zero.
abbrev pub coinbase_of : {D : Type 0} → (head tail : Bytes) → StratumCtx D → Bytes
coinbase_of head tail s = head ++ (s.xnonce1 ++ (replicate s.xnonce2_size 0 ++ tail))

module _ {V D : Type 0} where
  -- The job of a session is the notify: each field is the bytes of its text.
  pub record Announced (msg : StandardNotify V) (merkle : List Bytes) (s s' : StratumCtx D)
      : Type 0 where
    pub head : Bytes
    pub tail : Bytes
    pub coinb1 : hex2bin msg.coinb1 (length msg.coinb1 / 2) ≡ some head
    pub coinb2 : hex2bin msg.coinb2 (length msg.coinb2 / 2) ≡ some tail
    pub coinbase : s'.job.coinbase ≡ coinbase_of head tail s
    pub xnonce2 : s'.job.xnonce2 ≡ length head + length s.xnonce1
    pub prevhash : hex2bin msg.prevhash 32 ≡ some s'.job.prevhash
    pub version : hex2bin msg.version 4 ≡ some s'.job.version
    pub nbits : hex2bin msg.nbits 4 ≡ some s'.job.nbits
    pub ntime : hex2bin msg.stime 4 ≡ some s'.job.ntime
    pub height : get_block_height (coinbase_of head tail s) ≡ some s'.job.height
    pub job_id : s'.job.job_id ≡ some msg.job_id
    pub branches : s'.job.merkle ≡ merkle
    pub difficulty : s'.job.diff ≡ s.next_diff
    pub same_pool : s'.pooln ≡ s.pooln
    pub same_xnonce2_size : s'.xnonce2_size ≡ s.xnonce2_size
    pub same_xnonce1 : s'.xnonce1 ≡ s.xnonce1
    pub same_solution : s'.job.solution ≡ s.job.solution
    pub same_blob : s'.job.rx_blob ≡ s.job.rx_blob

  pub Announced-HeaderFields :
      (msg : StandardNotify V) (merkle : List Bytes) (s s' : StratumCtx D)
      → Announced msg merkle s s'
      → HeaderFields s'.job
  Announced-HeaderFields msg merkle s s' a = record {
    version = hex2bin-Field msg.version 4 s'.job.version a.version;
    prevhash = hex2bin-Field msg.prevhash 32 s'.job.prevhash a.prevhash;
    ntime = hex2bin-Field msg.stime 4 s'.job.ntime a.ntime;
    nbits = hex2bin-Field msg.nbits 4 s'.job.nbits a.nbits;
  }

  pub apply_standard_job-Announced :
      (msg : StandardNotify V) (merkle : List Bytes) (s s' : StratumCtx D)
      → apply_standard_job_locked msg merkle s ≡ some s'
      → Announced msg merkle s s'
  unfolding apply_standard_job_locked
  apply_standard_job-Announced msg merkle s s' e =
      let (head, e1, k1) = >>=-eq-some (hex2bin msg.coinb1 (length msg.coinb1 / 2)) _ e in
      let (tail, e2, k2) = >>=-eq-some (hex2bin msg.coinb2 (length msg.coinb2 / 2)) _ k1 in
      let (prevhash, e3, k3) = >>=-eq-some (hex2bin msg.prevhash 32) _ k2 in
      let (version, e4, k4) = >>=-eq-some (hex2bin msg.version 4) _ k3 in
      let (nbits, e5, k5) = >>=-eq-some (hex2bin msg.nbits 4) _ k4 in
      let (ntime, e6, k6) = >>=-eq-some (hex2bin msg.stime 4) _ k5 in
      let (height, e7, k7) = >>=-eq-some (get_block_height (coinbase_of head tail s)) _ k6 in
      record {
        head = head;
        tail = tail;
        coinb1 = e1;
        coinb2 = e2;
        coinbase = ground arith;
        xnonce2 = ground arith;
        prevhash = ground arith;
        version = ground arith;
        nbits = ground arith;
        ntime = ground arith;
        height = ground arith;
        job_id = ground arith;
        branches = ground arith;
        difficulty = ground arith;
        same_pool = ground arith;
        same_xnonce2_size = ground arith;
        same_xnonce1 = ground arith;
        same_solution = ground arith;
        same_blob = ground arith;
      }
