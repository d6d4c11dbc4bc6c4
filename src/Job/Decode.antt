-- ===== src/Job/Decode.antt =====
-- What the decoding of fields and branches gives: bytes, as many as the field has.
use primo_arm_miner.Prelude.{
  ℕ, zero, suc, ◌+◌, ◌≤◌, ◌≡◌, refl, true, false, some, none, Option, List, [], ◌∷◌, arith, Bytes,
  length, All, take, Bool, Bool-cases, Option-cases, inl, inr, ◌==◌,
}
use primo_arm_miner.Prelude.Memory.{IsByte}
use primo_arm_miner.Prelude.Options.{>>=-eq-some}
use primo_arm_miner.Json.{Jansson, string_at}
use primo_arm_miner.Hex.{hex2bin}
use primo_arm_miner.Hex.Accepts.{hex2bin_sound}
use primo_arm_miner.Pools.{snprintf_str}
use primo_arm_miner.Prelude.Int.{ℤ}
use primo_arm_miner.Publish.{PublishedWork, RuntimeState}
use primo_arm_miner.Job.{
  StratumCtx, raw_time, stratum_update_time_offset, stratum_commit_job_update,
  stratum_check_job_id_length, decode_branch, decode_branches,
}

-- A field of so many bytes.
abbrev pub Field : ℕ → Bytes → Type 0
Field size field = (length field ≡ size) × All IsByte field

pub hex2bin-Field : (s : Bytes) (len : ℕ) (out : Bytes) → hex2bin s len ≡ some out → Field len out
hex2bin-Field s len out e = let (_, _, size, fits, _) = hex2bin_sound s len out e in (size, fits)

take_all : (n : ℕ) (s : Bytes) → length s ≤ n → take n s ≡ s
take_all zero [] h = refl
take_all zero (c ∷ s) h = absurd (omega arith)
take_all (suc n) [] h = refl
take_all (suc n) (c ∷ s) h = ground (arith, take_all n s)

-- A job id that is accepted is not cut off in the work.
pub snprintf-job_id :
    (job_id : Bytes) → stratum_check_job_id_length job_id ≡ true → snprintf_str 128 job_id ≡ job_id
unfolding stratum_check_job_id_length
snprintf-job_id job_id h = take_all 127 job_id (ground arith)

decode_branch-Field :
    (text : Option Bytes) (out : Bytes) → decode_branch text ≡ some out → Field 32 out
unfolding decode_branch
decode_branch-Field none out e = absurd (cc)
decode_branch-Field (some branch) out e = elim (Bool-cases (length branch == 64)) [
  | inl long ↦ hex2bin-Field branch 32 out (ground arith)
  | inr other ↦ absurd (ground arith)
]

-- Every branch has 32 bytes, and there are as many as the array has elements.
pub decode_branches-Field :
    (j : Jansson) (merkle_arr : Option j.Value) (left i : ℕ) (merkle : List Bytes)
    → decode_branches j merkle_arr left i ≡ some merkle
    → (length merkle ≡ left) × All (Field 32) merkle
unfolding decode_branches
decode_branches-Field j merkle_arr zero i merkle e = ground arith
decode_branches-Field j merkle_arr (suc left) i merkle e =
    let (branch, b, e1) = >>=-eq-some (decode_branch (string_at j merkle_arr i)) _ e in
    let (rest, r, e2) = >>=-eq-some (decode_branches j merkle_arr left (i + 1)) _ e1 in
    let f = decode_branch-Field _ branch b in
    let (n, fs) = decode_branches-Field j merkle_arr left (i + 1) rest r in ground arith

-- A time offset touches nothing else of the session.
pub time_offset_lem :
    {D : Type 0} (now : ℕ) (stime : Bytes) (swap32 : Bool) (s s' : StratumCtx D)
    → stratum_update_time_offset now stime swap32 s ≡ some s'
    → (offset : ℤ) × (s' ≡ record s { srvtime_diff = offset })
unfolding stratum_update_time_offset
time_offset_lem now stime swap32 s s' e =
    let (raw, e1, k) = >>=-eq-some (raw_time stime) _ e in (s'.srvtime_diff, ground arith)

-- What holds of a session before a commit, and of the job that is applied, holds after it.
pub commit-choice :
    {D P : Type 0} (Q : StratumCtx D → Type 0) (apply_job : StratumCtx D → Option (StratumCtx D))
    → (build_work : StratumCtx D → PublishedWork P) (clean : Bool) (s : StratumCtx D)
      (r : RuntimeState P)
    → Q s
    → ((s' : StratumCtx D) → apply_job s ≡ some s' → Q s')
    → Q (stratum_commit_job_update apply_job build_work clean s r).0
unfolding stratum_commit_job_update
commit-choice Q apply_job build_work clean s r old new = elim (Option-cases (apply_job s)) [
  | inl e ↦ rw (e, stratum_commit_job_update) old
  | inr (s', e) ↦ rw (e, stratum_commit_job_update) (new s' e)
]

-- What a refused notify leaves alone.
abbrev pub Refused :
    {D P : Type 0} → (s s' : StratumCtx D) → (r r' : RuntimeState P) → (result : Bool) → Type 0
Refused s s' r r' result =
    (result ≡ false)
    × (s'.job ≡ s.job)
    × (s'.xnonce1 ≡ s.xnonce1)
    × (s'.xnonce2_size ≡ s.xnonce2_size)
    × (s'.next_diff ≡ s.next_diff)
    × (r' ≡ r)
