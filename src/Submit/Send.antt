-- ===== src/Submit/Send.antt =====
-- Reserving a slot and sending a share, in src/stratum_rpc.cpp.
use primo_arm_miner.Prelude.{
  ℕ, ◌+◌, ◌≡◌, refl, ◌∙◌, ◌⊎◌, inl, inr, Bool, true, false, ◌&&◌, Option, none, some, List, ◌==◌,
  ltb, if◌then◌else◌, arith,
}
use primo_arm_miner.Prelude.Int.{ℤ}
use primo_arm_miner.Submit.{
  PendingSubmit, SubmitState, entry, submit_id_reap_stale, store_first, submit_id_timeout_seconds,
  submit_id_reserve, submit_id_release, submit_id_request_reconnect, stratum_send_submit,
}
use primo_arm_miner.Submit.Slots.{
  lookup, Absent, Distinct, free_slots, unless_stale, Absent-lookup, lookup-store, store-stored,
  lookup-release, lookup-reap, reap-Distinct, reap-count, reap-Absent,
}
use primo_arm_miner.Submit.Table.{store-Distinct}

module _ {D : Type 0} where
  abbrev pub kept : ℕ → ℕ → SubmitState D → List (PendingSubmit D) × ℕ
  kept now timeout s =
      submit_id_reap_stale now (submit_id_timeout_seconds timeout) s.pending_submits

  -- What a reservation is: the stale entries are gone, and the new one is there if it was stored. It is
  -- refused only if every slot is used and none is stale; a reaped slot asks for a reconnect.
  pub record Reserved (now timeout id : ℕ) (d : D) (t : ℤ) (s s' : SubmitState D) (stored : Bool)
      : Type 0 where
    pub map_eq :
        (j : ℕ)
        → lookup j s'.pending_submits ≡ (
            if stored && id == j
            then some (entry now id d t)
            else unless_stale now (submit_id_timeout_seconds timeout) (lookup j s.pending_submits))
    pub distinct : Distinct s'.pending_submits
    pub outcome :
        ((stored ≡ true)
          × (free_slots s'.pending_submits + 1
              ≡ free_slots s.pending_submits + (kept now timeout s).1))
        ⊎ ((stored ≡ false) × (free_slots s.pending_submits ≡ 0) × ((kept now timeout s).1 ≡ 0))
    pub asks :
        s'.reconnect_requested
        ≡ (if ltb 0 (kept now timeout s).1 then true else s.reconnect_requested)
    pub next_same : s'.next_submit_id ≡ s.next_submit_id

  reserve_eq :
      (now timeout id : ℕ) (d : D) (t : ℤ) (s : SubmitState D)
      → let (s', stored) = submit_id_reserve now timeout id d t s in
        let (slots, put) = store_first (entry now id d t) (kept now timeout s).0 in
        (s'.pending_submits ≡ slots)
        × (stored ≡ put)
        × (s'.next_submit_id ≡ s.next_submit_id)
        × (s'.reconnect_requested
            ≡ (if ltb 0 (kept now timeout s).1 then true else s.reconnect_requested))
  unfolding submit_id_reserve submit_id_request_reconnect
  reserve_eq now timeout id d t s = ground arith

  if_and :
      (a b : Bool) (x y : Option (PendingSubmit D))
      → (if a then (if b then x else y) else y) ≡ (if a && b then x else y)
  if_and a b x y = ground arith

  -- On a table that uses no id twice, reserving a slot for an id that the table does not hold: what is stale is dropped, every other entry
  -- is kept, the new one is stored exactly if a slot is free then, the ids stay distinct, and a
  -- reconnect is requested if anything was dropped.
  pub submit_id_reserve_lem :
      (now timeout id : ℕ) (d : D) (t : ℤ) (s : SubmitState D)
      → Distinct s.pending_submits
      → Absent id s.pending_submits
      → let (s', stored) = submit_id_reserve now timeout id d t s in
        Reserved now timeout id d t s s' stored
  submit_id_reserve_lem now timeout id d t s v a =
      let (slots_eq, stored_eq, next_eq, asks) = reserve_eq now timeout id d t s in
      let new = entry now id d t in
      let left = (kept now timeout s).0 in
      let gone = reap-Absent now (submit_id_timeout_seconds timeout) id s.pending_submits a in
      let count = reap-count now (submit_id_timeout_seconds timeout) s.pending_submits in
      record {
        map_eq = λ j.
            rw (slots_eq, stored_eq)
              (lookup-store new left j refl gone
                ∙ if_and (store_first new left).1 (id == j) (some new) (lookup j left)
                ∙ rw (lookup-reap now (submit_id_timeout_seconds timeout) s.pending_submits j v)
                    refl);
        distinct =
            rw slots_eq (store-Distinct new left gone (reap-Distinct now _ s.pending_submits v));
        outcome =
            rw (slots_eq, stored_eq)
              (elim (store-stored new left refl) [
                | inl (put, one) ↦ inl (put, omega (arith, one, count))
                | inr (put, one, same) ↦
                    inr (put, omega (arith, one, count), omega (arith, one, count))
              ]);
        asks = asks;
        next_same = next_eq;
      }

  release_gone :
      (id : ℕ) (s : SubmitState D)
      → Distinct s.pending_submits
      → lookup id (submit_id_release id s).pending_submits ≡ none
  unfolding submit_id_release
  release_gone id s v = ground (arith, lookup-release id s.pending_submits id v)

  request_raises :
      (s : SubmitState D)
      → let s' = submit_id_request_reconnect s in
        (s'.reconnect_requested ≡ true) × (s'.pending_submits ≡ s.pending_submits)
  unfolding submit_id_request_reconnect
  request_raises s = ground arith

  -- On a table that uses no id twice, sending a share under an id that the table does not hold, whatever the other threads do meanwhile
  -- short of using one id twice: it succeeds exactly if the entry was stored and the line was sent, and
  -- then the reply finds the share's own data; a failure leaves no entry behind, and a full table asks
  -- for a reconnect.
  pub stratum_send_submit_lem :
      (now timeout id : ℕ) (d : D) (t : ℤ) (between : SubmitState D → SubmitState D) (sent : Bool)
      (s : SubmitState D)
      → ((x : SubmitState D) → Distinct x.pending_submits → Distinct (between x).pending_submits)
      → Distinct s.pending_submits
      → Absent id s.pending_submits
      → let (reserved, stored) = submit_id_reserve now timeout id d t s in
        let (s', ok) = stratum_send_submit now timeout id d t between sent s in
        ((ok ≡ true)
          × (sent ≡ true)
          × (s' ≡ between reserved)
          × (lookup id reserved.pending_submits ≡ some (entry now id d t)))
        ⊎ ((ok ≡ false)
            × (lookup id s'.pending_submits ≡ none)
            × (((stored ≡ true) × (sent ≡ false))
                ⊎ ((stored ≡ false) × (s'.reconnect_requested ≡ true))))
  unfolding stratum_send_submit
  stratum_send_submit_lem now timeout id d t between sent s safe v a =
      let (s', stored) = submit_id_reserve now timeout id d t s in
      let x = submit_id_reserve_lem now timeout id d t s v a in
      let here = x.map_eq id in
      let before = Absent-lookup id s.pending_submits a in
      let raised = request_raises s' in
      let gone = release_gone id (between s') (safe s' x.distinct) in
      ground (arith, here, before, raised, gone)
