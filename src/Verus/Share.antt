-- ===== src/Verus/Share.antt =====
-- What the pool reads out of a submitted Verus share.
use primo_arm_miner.Prelude.{
  ℕ, ◌+◌, ◌-◌, ◌≤◌, ◌<◌, ◌≡◌, refl, sym, ap, ◌∙◌, true, some, [], ◌∷◌, ◌++◌, arith, Bytes, length,
}
use primo_arm_miner.Prelude.Memory.{
  Memory, memcpy, read, le32enc, store_word, length-read, read-memcpy, read-IsByte, memcpy-IsByte,
  le32enc-IsByte,
}
use primo_arm_miner.Hex.{cbin2hex, bin2hex, hex2bin}
use primo_arm_miner.Hex.RoundTrip.{hex2bin-bin2hex}
use primo_arm_miner.Publish.{PublishedWork}
use primo_arm_miner.Job.{StratumCtx, WorkBody, be32dec}
use primo_arm_miner.Verus.{verus_validate_nonce_layout}
use primo_arm_miner.Verus.Wire.{restored_extra, solution_text, verus_submit_params, be32enc}
use primo_arm_miner.Verus.Payload.{
  IsPayload, submitted_payload, decoded_payload, nonce_field, be32enc-be32dec,
}

hex2bin-read :
    (at n : ℕ) (m : Memory)
    → ((k : ℕ) → m k < 256)
    → hex2bin (bin2hex (read at n m)) n ≡ some (read at n m)
hex2bin-read at n m fits =
    ap (hex2bin (bin2hex (read at n m))) (sym (length-read at n m))
    ∙ hex2bin-bin2hex (read at n m) (read-IsByte at n m fits)

time_text : (m : Memory) → ((k : ℕ) → m k < 256) → be32enc (be32dec (read 100 4 m)) ≡ read 100 4 m
unfolding read
time_text m fits =
    be32enc-be32dec (m 100) (m 101) (m 102) (m 103) (fits 100) (fits 101) (fits 102) (fits 103)

module _ {D : Type 0} where
  -- The strings of a share, and what they decode to: `hashed` is the header that was hashed, with the
  -- nonce of the share in word 30.
  pub record VerusShare (user : Bytes) (nonce : ℕ) (extra tail : Bytes) (s : StratumCtx D)
      (work : PublishedWork (WorkBody D)) (hashed : Memory) : Type 0 where
    pub time : Bytes
    pub nonce_text : Bytes
    pub solution : Bytes
    pub strings :
        verus_submit_params user nonce extra tail s work
        ≡ some (user ∷ work.job_id ∷ time ∷ nonce_text ∷ solution ∷ [])
    pub time_of : hex2bin time 4 ≡ some (read 100 4 hashed)
    pub own_part : Bytes
    pub nonce_of : hex2bin nonce_text (32 - length s.xnonce1) ≡ some own_part
    pub field_of : s.xnonce1 ++ own_part ≡ read 108 32 hashed
    pub nonce_at : read 120 4 hashed ≡ le32enc nonce
    pub solution_of :
        hex2bin solution 1347 ≡ some (submitted_payload extra tail work.payload.solution)

  -- Of a work of bytes that starts its nonce field with the first extra nonce of the session, whose layout is
  -- valid, and a payload of the right sizes: the share is built, and the pool that decodes its strings
  -- gets the time of the hashed header, the whole nonce field of that header once it puts its own extra nonce
  -- in front, with the nonce of the share in it, and the hashed payload with the restored part of the
  -- job's solution.
  pub verus_submit_params_lem :
      (user : Bytes) (nonce : ℕ) (extra tail : Bytes) (s : StratumCtx D)
      → (work : PublishedWork (WorkBody D))
      → verus_validate_nonce_layout (length s.xnonce1) s.xnonce2_size ≡ true
      → ((k : ℕ) → work.payload.bytes k < 256)
      → read 108 (length s.xnonce1) work.payload.bytes ≡ s.xnonce1
      → IsPayload extra tail work.payload.solution
      → VerusShare user nonce extra tail s work (store_word 30 nonce work.payload.bytes)
  unfolding verus_submit_params store_word
  verus_submit_params_lem user nonce extra tail s work valid fits kept payload =
      let hashed : Memory = memcpy 120 (le32enc nonce) work.payload.bytes in
      let fits' =
        memcpy-IsByte 120 (le32enc nonce) work.payload.bytes (le32enc-IsByte nonce) fits in
      let n : ℕ = length s.xnonce1 in
      let short : n ≤ 12 = unfold verus_validate_nonce_layout in ground arith in
      record {
        time = cbin2hex (be32enc (be32dec (read 100 4 hashed)));
        nonce_text = bin2hex (read (108 + n) (32 - n) hashed);
        solution = solution_text (restored_extra extra tail) work.payload.solution;
        strings = rw valid refl;
        time_of =
            ap (λ b. hex2bin (cbin2hex b) 4) (time_text hashed fits')
            ∙ unfold bin2hex in hex2bin-read 100 4 hashed fits';
        own_part = read (108 + n) (32 - n) hashed;
        nonce_of = hex2bin-read (108 + n) (32 - n) hashed fits';
        field_of = unfold store_word in nonce_field s.xnonce1 nonce work.payload.bytes short kept;
        nonce_at = unfold le32enc in read-memcpy 120 (le32enc nonce) work.payload.bytes;
        solution_of = decoded_payload extra tail work.payload.solution payload;
      }
