-- ===== src/Standard/Header.antt =====
-- The header that build_standard_work of src/stratum_standard.cpp stores word by word.
use primo_arm_miner.Prelude.{
  ℕ, ◌*◌, ◌≡◌, refl, ◌∙◌, List, [], ◌∷◌, ◌++◌, arith, Bytes, length, length-append,
}
use primo_arm_miner.Prelude.Memory.{
  Memory, memcpy, memcpy-then, read, le32dec, le32enc, store_word, store_words, store_words-memcpy,
  read-memcpy,
}
use primo_arm_miner.Job.{StratumJob, zero_memory}
use primo_arm_miner.Job.Decode.{Field}
use primo_arm_miner.Standard.{fold_branches, build_merkle_root, standard_header}

-- Every digest has 32 bytes.
abbrev pub Digests : (Bytes → Bytes) → Type 0
Digests hash = (message : Bytes) → Field 32 (hash message)

-- The fields of a job that the header is made of.
pub record HeaderFields {D : Type 0} (job : StratumJob D) : Type 0 where
  pub version : Field 4 job.version
  pub prevhash : Field 32 job.prevhash
  pub ntime : Field 4 job.ntime
  pub nbits : Field 4 job.nbits

-- The words of a field, stored one by one, are its bytes.
store_word-Field :
    (i : ℕ) (field : Bytes) (m : Memory)
    → Field 4 field
    → store_word i (le32dec field) m ≡ memcpy (4 * i) field m
store_word-Field i field m (size, fits) =
    unfold store_words in store_words-memcpy i 1 field m size fits

pub fold_branches-Field :
    (sha256d_neon : Bytes → Bytes) (hash : Bytes) (merkle : List Bytes)
    → Digests sha256d_neon
    → Field 32 hash
    → Field 32 (fold_branches sha256d_neon hash merkle)
unfolding fold_branches
fold_branches-Field sha256d_neon hash [] digests h = h
fold_branches-Field sha256d_neon hash (branch ∷ merkle) digests h =
    fold_branches-Field sha256d_neon (sha256d_neon (hash ++ branch)) merkle digests
      (digests (hash ++ branch))

module _ {D : Type 0} (sha256d_neon : Bytes → Bytes) (job : StratumJob D) where
  pub build_merkle_root-Field : Digests sha256d_neon → Field 32 (build_merkle_root sha256d_neon job)
  unfolding build_merkle_root
  build_merkle_root-Field digests =
      fold_branches-Field sha256d_neon _ job.merkle digests (digests job.coinbase)

  -- The fields in the order of the header, the nonce as zero.
  abbrev pub header_bytes : Bytes
  header_bytes =
      job.version
      ++ (job.prevhash
          ++ (build_merkle_root sha256d_neon job
              ++ (job.ntime ++ (job.nbits ++ 0 ∷ 0 ∷ 0 ∷ 0 ∷ []))))

  -- Stored word by word, the header is one copy of its fields.
  pub standard_header-memcpy :
      Digests sha256d_neon
      → HeaderFields job
      → standard_header sha256d_neon job ≡ memcpy 0 header_bytes zero_memory
  unfolding standard_header
  standard_header-memcpy digests h =
      let root = build_merkle_root sha256d_neon job in
      let (root_size, root_fits) = build_merkle_root-Field digests in
      let zero : Bytes = 0 ∷ 0 ∷ 0 ∷ 0 ∷ [] in
      let m1 = memcpy 0 job.version zero_memory in
      let m2 = memcpy 4 job.prevhash m1 in
      let m3 = memcpy 36 root m2 in
      let m4 = memcpy 68 job.ntime m3 in
      let stored : standard_header sha256d_neon job ≡ memcpy 76 zero (memcpy 72 job.nbits m4) =
        unfold standard_header in
        rw
          (
            store_word-Field 0 job.version zero_memory h.version,
            store_words-memcpy 1 8 job.prevhash m1 h.prevhash.0 h.prevhash.1,
            store_words-memcpy 9 8 root m2 root_size root_fits,
            store_word-Field 17 job.ntime m3 h.ntime,
            store_word-Field 18 job.nbits m4 h.nbits,
          )
          (unfold store_word le32enc in refl) in
      stored
      ∙ memcpy-then 72 4 job.nbits zero m4 h.nbits.0
      ∙ memcpy-then 68 4 job.ntime (job.nbits ++ zero) m3 h.ntime.0
      ∙ memcpy-then 36 32 root (job.ntime ++ (job.nbits ++ zero)) m2 root_size
      ∙ memcpy-then 4 32 job.prevhash (root ++ (job.ntime ++ (job.nbits ++ zero))) m1 h.prevhash.0
      ∙ memcpy-then 0 4 job.version (job.prevhash ++ (root ++ (job.ntime ++ (job.nbits ++ zero))))
          zero_memory h.version.0

  pub length-header_bytes : Digests sha256d_neon → HeaderFields job → length header_bytes ≡ 80
  length-header_bytes digests h =
      let root = build_merkle_root sha256d_neon job in
      let zero : Bytes = 0 ∷ 0 ∷ 0 ∷ 0 ∷ [] in
      omega (
        arith,
        build_merkle_root-Field digests,
        length-append job.nbits zero,
        length-append job.ntime (job.nbits ++ zero),
        length-append root (job.ntime ++ (job.nbits ++ zero)),
        length-append job.prevhash (root ++ (job.ntime ++ (job.nbits ++ zero))),
        length-append job.version (job.prevhash ++ (root ++ (job.ntime ++ (job.nbits ++ zero)))),
      )

  -- The eighty bytes that are hashed are the fields of the job.
  pub read-standard_header :
      Digests sha256d_neon
      → HeaderFields job
      → read 0 80 (standard_header sha256d_neon job) ≡ header_bytes
  read-standard_header digests h =
      rw (standard_header-memcpy digests h, ← length-header_bytes digests h)
        (read-memcpy 0 header_bytes zero_memory)
