-- ===== src/Verus/Wire.antt =====
-- What a Verus share says: build_verus_submit_view of src/stratum_verus.cpp.
use primo_arm_miner.Prelude.{
  ℕ, ◌+◌, ◌-◌, ◌/◌, ◌%◌, Option, some, List, [], ◌∷◌, ◌++◌, Bytes, length, take, drop,
}
use primo_arm_miner.Prelude.Options.{◌>>◌, guard}
use primo_arm_miner.Prelude.Memory.{read, store_word}
use primo_arm_miner.Hex.{bin2hex, cbin2hex}
use primo_arm_miner.Publish.{PublishedWork}
use primo_arm_miner.Job.{StratumCtx, WorkBody, be32dec}
use primo_arm_miner.Verus.{verus_validate_nonce_layout}

-- memcpy(&target[at], source, length source), in a text.
unfoldable pub splice : ℕ → Bytes → Bytes → Bytes
splice at source target = take at target ++ (source ++ drop (at + length source) target)

-- The four bytes of a word, the highest first (%08x prints their digits).
abbrev pub be32enc : ℕ → Bytes
be32enc x = x / 16777216 % 256 ∷ x / 65536 % 256 ∷ x / 256 % 256 ∷ x % 256 ∷ []

-- The payload that a share carries beside its header: work->extra with the tail of the nonce that is
-- submitted, and the solution of the job.
unfoldable pub restored_extra : (extra tail : Bytes) → Bytes
unfolding splice
restored_extra extra tail = splice 1332 tail extra

-- The text of the solution: 1347 bytes of the payload, with 64 bytes of the job's solution restored.
unfoldable pub solution_text : (extra solution : Bytes) → Bytes
unfolding splice
solution_text extra solution =
    splice 22 (cbin2hex (take 64 (drop 8 solution))) (cbin2hex (take 1347 extra))

-- The strings of mining.submit for a nonce, with its payload and tail.
unfoldable pub verus_submit_params :
    {D : Type 0}
    → (user : Bytes) → (nonce : ℕ) → (extra tail : Bytes) → StratumCtx D
    → PublishedWork (WorkBody D)
    → Option (List Bytes)
unfolding restored_extra solution_text
verus_submit_params user nonce extra tail s work = do
  guard (verus_validate_nonce_layout (length s.xnonce1) s.xnonce2_size)
  let bytes = store_word 30 nonce work.payload.bytes
  some (
      user
      ∷ work.job_id
      ∷ cbin2hex (be32enc (be32dec (read 100 4 bytes)))
      ∷ bin2hex (read (108 + length s.xnonce1) (32 - length s.xnonce1) bytes)
      ∷ solution_text (restored_extra extra tail) work.payload.solution
      ∷ [])
