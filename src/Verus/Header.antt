-- ===== src/Verus/Header.antt =====
-- The header that build_verus_work of src/stratum_verus.cpp copies together.
use primo_arm_miner.Prelude.{
  ℕ, ◌+◌, ◌-◌, ◌≤◌, ◌≡◌, sym, ap, ◌∙◌, ◌++◌, arith, Bytes, length, length-append, take, replicate,
  inl, inr,
}
use primo_arm_miner.Prelude.Memory.{
  Memory, memcpy, read, le32enc, store_word, memcpy-then, memcpy_outside, read_frame, read-append,
  read-memcpy, read-zeros,
}
use primo_arm_miner.Job.{StratumCtx, zero_memory}
use primo_arm_miner.Verus.{verus_header}

-- The fields of a job and of its session that the header is made of, by their sizes.
pub record VerusFields {D : Type 0} (s : StratumCtx D) : Type 0 where
  pub version : length s.job.version ≡ 4
  pub prevhash : length s.job.prevhash ≡ 32
  pub coinbase : length (take 64 s.job.coinbase) ≡ 64
  pub ntime : length s.job.ntime ≡ 4
  pub nbits : length s.job.nbits ≡ 4
  pub xnonce1 : length s.xnonce1 ≤ 12

module _ {D : Type 0} (s : StratumCtx D) where
  abbrev pub verus_header_bytes : Bytes
  verus_header_bytes =
      s.job.version
      ++ (s.job.prevhash ++ (take 64 s.job.coinbase ++ (s.job.ntime ++ (s.job.nbits ++ s.xnonce1))))

  copied :
      VerusFields s → verus_header s ≡ store_word 35 128 (memcpy 0 verus_header_bytes zero_memory)
  unfolding verus_header
  copied h =
      let roots = take 64 s.job.coinbase in
      let m1 = memcpy 0 s.job.version zero_memory in
      let m2 = memcpy 4 s.job.prevhash m1 in
      let m3 = memcpy 36 roots m2 in
      let m4 = memcpy 100 s.job.ntime m3 in
      ap (store_word 35 128) (
        memcpy-then 104 4 s.job.nbits s.xnonce1 m4 h.nbits
        ∙ memcpy-then 100 4 s.job.ntime (s.job.nbits ++ s.xnonce1) m3 h.ntime
        ∙ memcpy-then 36 64 roots (s.job.ntime ++ (s.job.nbits ++ s.xnonce1)) m2 h.coinbase
        ∙ memcpy-then 4 32 s.job.prevhash (roots ++ (s.job.ntime ++ (s.job.nbits ++ s.xnonce1))) m1
            h.prevhash
        ∙ memcpy-then 0 4 s.job.version
            (s.job.prevhash ++ (roots ++ (s.job.ntime ++ (s.job.nbits ++ s.xnonce1)))) zero_memory
            h.version)

  length-verus_header_bytes : VerusFields s → length verus_header_bytes ≡ 108 + length s.xnonce1
  length-verus_header_bytes h =
      let roots = take 64 s.job.coinbase in
      omega (
        arith,
        h.version,
        h.prevhash,
        h.coinbase,
        h.ntime,
        h.nbits,
        length-append s.job.nbits s.xnonce1,
        length-append s.job.ntime (s.job.nbits ++ s.xnonce1),
        length-append roots (s.job.ntime ++ (s.job.nbits ++ s.xnonce1)),
        length-append s.job.prevhash (roots ++ (s.job.ntime ++ (s.job.nbits ++ s.xnonce1))),
        length-append s.job.version
            (s.job.prevhash ++ (roots ++ (s.job.ntime ++ (s.job.nbits ++ s.xnonce1)))),
      )

  -- The header up to its mark: the fields of the job, and the nonce field with the pool's part in front.
  pub read-verus_header :
      VerusFields s
      → read 0 140 (verus_header s) ≡ verus_header_bytes ++ replicate (32 - length s.xnonce1) 0
  read-verus_header h =
      let m : Memory = memcpy 0 verus_header_bytes zero_memory in
      let size = length-verus_header_bytes h in
      let n : ℕ = length verus_header_bytes in
      let short = h.xnonce1 in
      let end : n + (32 - length s.xnonce1) ≡ 140 = omega arith in
      let marked : read 0 140 (verus_header s) ≡ read 0 140 m =
        ap (read 0 140) (copied h)
        ∙ unfold store_word in
          read_frame 0 140 (memcpy 140 (le32enc 128) m) m
            (λ k low high. memcpy_outside 140 (le32enc 128) m k (inl high)) in
      let rest : read (0 + n) (32 - length s.xnonce1) m ≡ replicate (32 - length s.xnonce1) 0 =
        read_frame (0 + n) (32 - length s.xnonce1) m zero_memory
          (λ k low high. memcpy_outside 0 verus_header_bytes zero_memory k (inr low))
        ∙ read-zeros (0 + n) (32 - length s.xnonce1) in
      marked
      ∙ ap (λ k. read 0 k m) (sym end)
      ∙ read-append 0 n (32 - length s.xnonce1) m
      ∙ ap (λ b. b ++ read (0 + n) (32 - length s.xnonce1) m)
          (read-memcpy 0 verus_header_bytes zero_memory)
      ∙ ap (λ b. verus_header_bytes ++ b) rest
