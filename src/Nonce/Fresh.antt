-- ===== src/Nonce/Fresh.antt =====
-- What a turn of miner_thread in src/miner.cpp does with a work that the thread has taken already.
use primo_arm_miner.Prelude.{
  ℕ, zero, suc, ◌≤◌, ◌≡◌, refl, ap, inl, inr, Bool, true, false, not, ◌&&◌, [], ◌∷◌, arith,
  if◌then◌else◌, ◌==◌, bytes_eq_self, take, length, Bytes, Bool-cases,
}
use primo_arm_miner.Nonce.{
  Work, Scanner, Thread, space_of, is_randomx, preimage_words, take_space, take_job, take_preimage,
  prepare, work_is_new_job,
}

pub take-take : (n : ℕ) (xs : Bytes) → take n (take n xs) ≡ take n xs
take-take zero xs = refl
take-take (suc n) [] = refl
take-take (suc n) (x ∷ xs) = ap (λ l. x ∷ l) (take-take n xs)

pub take-long : (n : ℕ) (xs : Bytes) → length xs ≤ n → take n xs ≡ xs
take-long zero [] h = refl
take-long zero (x ∷ xs) h = absurd (omega arith)
take-long (suc n) [] h = refl
take-long (suc n) (x ∷ xs) h = ap (λ l. x ∷ l) (take-long n xs (omega arith))

-- The thread has taken the work: it is no new job, the space is the work's, and the header is the one
-- that was scanned last.
pub record Settled (t : Thread) (w : Work) (s : Scanner) : Type 0 where
  pub known : work_is_new_job t w s ≡ false
  pub own_space : (is_randomx t.opt_algo && not (space_of w == s.nonce_space)) ≡ false
  pub header :
      take (preimage_words t.opt_algo) s.last_scanned_header
      ≡ take (preimage_words t.opt_algo) w.data_words

-- The position may move without unsettling the thread.
unfoldable pub moved : ℕ → ℕ → Scanner → Scanner
moved epoch next s = record s { verus_nonce_epoch = epoch; next_nonce_index = next }

pub moved-Settled :
    (t : Thread) (w : Work) (epoch next : ℕ) (s : Scanner)
    → Settled t w s
    → Settled t w (moved epoch next s)
unfolding work_is_new_job moved
moved-Settled t w epoch next s v = record {
  known = v.known;
  own_space = v.own_space;
  header = v.header;
}

take_job_known :
    (t : Thread) (w : Work) (s : Scanner)
    → length w.job_id ≤ 127
    → work_is_new_job t w (take_job t w s) ≡ false
unfolding work_is_new_job take_job
take_job_known t w s fits = ground (
  arith,
  take-take 9 w.data_words,
  take-long 127 w.job_id fits,
  bytes_eq_self w.job_id,
  bytes_eq_self (take 9 w.data_words),
)

kept_header : (n : ℕ) (xs ys : Bytes) → take n (if n == 0 then xs else take n ys) ≡ take n ys
kept_header zero xs ys = refl
kept_header (suc n) xs ys = ground (arith, take-take (suc n) ys)

preimage-Settled :
    (t : Thread) (w : Work) (b : Bool) (s : Scanner)
    → work_is_new_job t w s ≡ false
    → (is_randomx t.opt_algo && not (space_of w == s.nonce_space)) ≡ false
    → Settled t w (take_preimage t w b s)
unfolding take_preimage work_is_new_job
preimage-Settled t w b s known own = record {
  known = known;
  own_space = own;
  header = kept_header (preimage_words t.opt_algo) s.last_scanned_header w.data_words;
}

space_taken :
    (t : Thread) (w : Work) (s : Scanner)
    → (is_randomx t.opt_algo && not (space_of w == (take_space t w s).nonce_space)) ≡ false
unfolding take_space
space_taken t w s = ground arith

-- Every turn takes its work, whatever the thread did before.
pub prepare-Settled :
    (t : Thread) (w : Work) (s : Scanner) → length w.job_id ≤ 127 → Settled t w (prepare t w s)
unfolding prepare take_job
prepare-Settled t w s0 fits =
    let s = take_space t w s0 in
    let own = space_taken t w s0 in
    elim (Bool-cases (work_is_new_job t w s)) [
      | inl e ↦ rw e (preimage-Settled t w true (take_job t w s) (take_job_known t w s fits) own)
      | inr e ↦ rw e (preimage-Settled t w false s e own)
    ]

-- With the work taken, a turn looks at the position as it is.
pub prepare_position :
    (t : Thread) (w : Work) (s : Scanner)
    → Settled t w s
    → let s' = prepare t w s in
      (s'.next_nonce_index ≡ s.next_nonce_index) × (s'.verus_nonce_epoch ≡ s.verus_nonce_epoch)
unfolding prepare take_preimage take_space
prepare_position t w s v =
    rw (v.own_space, v.known, v.header)
      (ground (arith, bytes_eq_self (take (preimage_words t.opt_algo) w.data_words)))
