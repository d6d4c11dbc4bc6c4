-- ===== src/Reply/Accounting.antt =====
-- What the replies of a session leave in the books, in src/stratum_rpc.cpp.
use primo_arm_miner.Prelude.{
  ℕ, ◌+◌, ◌%◌, ◌≡◌, refl, subst, ◌∙◌, inl, inr, Bool, true, false, not, ◌&&◌, Option, none, some,
  List, [], ◌∷◌, arith, if◌then◌else◌, Bool-cases,
}
use primo_arm_miner.Prelude.Int.{ℤ, pos, negsuc}
use primo_arm_miner.DevFee.{DevfeeState, devfee_is_dev_pool}
use primo_arm_miner.Submit.{SubmitState, submit_id_take_metadata}
use primo_arm_miner.Publish.{ShareStats, stratum_update_share_stats}
use primo_arm_miner.Reply.{
  ResultView, result_ok, Books, miner_record_thread_share_result, book, book_found,
  stratum_handle_submit_response,
}

stats_total :
    (d : DevfeeState) (num_pools pooln : ℕ) (accepted : Bool) (s : ShareStats)
    → let s' = stratum_update_share_stats d num_pools (pos pooln) accepted s in
      (s'.share_accepted_total + s'.share_rejected_total) % 4294967296
      ≡ (s.share_accepted_total
          + s.share_rejected_total
          + (if devfee_is_dev_pool d (pos pooln) then 0 else 1))
        % 4294967296
unfolding stratum_update_share_stats
stats_total d num_pools pooln accepted s = ground arith

one_more :
    (dev found : Bool) (before mid after rest : ℕ)
    → mid % 4294967296 ≡ (before + (if found && not dev then 1 else 0)) % 4294967296
    → after % 4294967296 ≡ (mid + (if dev then 0 else rest)) % 4294967296
    → after % 4294967296
      ≡ (before + (if dev then 0 else (if found then rest + 1 else rest))) % 4294967296
one_more dev found before mid after rest h h' = ground arith

module _ {D : Type 0} where
  -- The replies of a session, in order.
  unfoldable pub after_replies :
      DevfeeState → (num_pools opt_n_threads pooln : ℕ) → List (ℕ × ResultView) → Books D → Books D
  after_replies d num_pools opt_n_threads pooln [] s = s
  after_replies d num_pools opt_n_threads pooln ((id, result) ∷ replies) s =
      after_replies d num_pools opt_n_threads pooln replies
        (stratum_handle_submit_response d num_pools opt_n_threads pooln id result s)

  -- How many of the replies are matched with a share.
  abbrev pub is_some : Option (D × ℤ) → Bool
  is_some none = false
  is_some (some x) = true

  unfoldable pub matched : List (ℕ × ResultView) → SubmitState D → ℕ
  matched [] s = 0
  matched ((id, result) ∷ replies) s =
      let (s', found) = submit_id_take_metadata id s in
      let rest = matched replies s' in if is_some found then rest + 1 else rest

  abbrev pub total : Books D → ℕ
  total s = s.stats.share_accepted_total + s.stats.share_rejected_total

  record_keeps :
      (n : ℕ) (thread : ℤ) (accepted : Bool) (s : Books D)
      → let s' = miner_record_thread_share_result n thread accepted s in
        (s'.stats ≡ s.stats) × (s'.submits ≡ s.submits)
  unfolding miner_record_thread_share_result
  record_keeps n (pos thread) accepted s = (refl, refl)
  record_keeps n (negsuc thread) accepted s = (refl, refl)

  -- One reply: the table is the one that the match leaves, the totals grow by one for a matched share of
  -- the user, and a share of the dev pool leaves the counters of the threads alone.
  abbrev pub Booked : Bool → Bool → Books D → Books D → Type 0
  Booked dev found s s' =
      (total s' % 4294967296 ≡ (total s + (if found && not dev then 1 else 0)) % 4294967296)
      × (dev ≡ true
          → (s'.thread_accepted ≡ s.thread_accepted) × (s'.thread_rejected ≡ s.thread_rejected))

  book-Booked :
      (d : DevfeeState) (num_pools n pooln : ℕ) (accepted : Bool) (thread : ℤ) (s : Books D)
      → let s' = book d num_pools n pooln accepted thread s in
        Booked (devfee_is_dev_pool d (pos pooln)) true s s' × (s'.submits ≡ s.submits)
  unfolding book
  book-Booked d num_pools n pooln accepted thread s =
      let grown = stats_total d num_pools pooln accepted s.stats in
      let stats = stratum_update_share_stats d num_pools (pos pooln) accepted s.stats in
      let (same, kept) = record_keeps n thread accepted (record s { stats = stats }) in
      elim (Bool-cases (devfee_is_dev_pool d (pos pooln))) [
        | inl e ↦ rw e ((ground (arith, grown, e), λ h. (refl, refl)), refl)
        | inr e ↦ rw e ((rw same (ground (arith, grown, e)), λ h. cc h), kept)
      ]

  found-Booked :
      (d : DevfeeState) (num_pools n pooln : ℕ) (accepted : Bool) (found : Option (D × ℤ))
      (s : Books D)
      → let s' = book_found d num_pools n pooln accepted found s in
        Booked (devfee_is_dev_pool d (pos pooln)) (is_some found) s s' × (s'.submits ≡ s.submits)
  unfolding book_found
  found-Booked d num_pools n pooln accepted none s = ((ground arith, λ h. (refl, refl)), refl)
  found-Booked d num_pools n pooln accepted (some (sharediff, thread)) s =
      book-Booked d num_pools n pooln accepted thread s

  reply-Booked :
      (d : DevfeeState) (num_pools n pooln id : ℕ) (result : ResultView) (s : Books D)
      → let s' = stratum_handle_submit_response d num_pools n pooln id result s in
        let (submits, found) = submit_id_take_metadata id s.submits in
        Booked (devfee_is_dev_pool d (pos pooln)) (is_some found) s s' × (s'.submits ≡ submits)
  unfolding stratum_handle_submit_response
  reply-Booked d num_pools n pooln id result s =
      let (submits, found) = submit_id_take_metadata id s.submits in
      found-Booked d num_pools n pooln (result_ok result) found (record s { submits = submits })

  -- Over the replies of a session, accepted or not, in whatever form: the totals of the user grow, modulo
  -- 2^32, by the number of replies that are matched with a share, and not at all on the dev pool; and on
  -- the dev pool no counter of a thread changes.
  pub after_replies_lem :
      (d : DevfeeState) (num_pools n pooln : ℕ) (replies : List (ℕ × ResultView)) (s : Books D)
      → let s' = after_replies d num_pools n pooln replies s in
        let dev = devfee_is_dev_pool d (pos pooln) in
        (total s' % 4294967296
          ≡ (total s + (if dev then 0 else matched replies s.submits)) % 4294967296)
        × (dev ≡ true
            → (s'.thread_accepted ≡ s.thread_accepted) × (s'.thread_rejected ≡ s.thread_rejected))
  unfolding after_replies matched
  after_replies_lem d num_pools n pooln [] s = (ground arith, λ h. (refl, refl))
  after_replies_lem d num_pools n pooln ((id, result) ∷ replies) s =
      let s1 = stratum_handle_submit_response d num_pools n pooln id result s in
      let ((grown, threads), table) = reply-Booked d num_pools n pooln id result s in
      let (rest, later) = after_replies_lem d num_pools n pooln replies s1 in
      let dev = devfee_is_dev_pool d (pos pooln) in
      let rest' : total (after_replies d num_pools n pooln replies s1) % 4294967296
          ≡ (total s1
              + (if dev then 0 else matched replies (submit_id_take_metadata id s.submits).0))
            % 4294967296 =
        subst
          (λ t.
            total (after_replies d num_pools n pooln replies s1) % 4294967296
            ≡ (total s1 + (if dev then 0 else matched replies t)) % 4294967296)
          table rest in
      (
        one_more dev _ (total s) (total s1) _ _ grown rest',
        λ h. ((later h).0 ∙ (threads h).0, (later h).1 ∙ (threads h).1),
      )
