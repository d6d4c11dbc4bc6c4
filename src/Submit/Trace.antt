-- ===== src/Submit/Trace.antt =====
-- The pending shares of one session under any interleaving of the miner threads, which send, and the
-- service thread, which takes the replies: the accounting of the shares in src/stratum_rpc.cpp. A new
-- session resets the table and the counter, and is a new trace.
use primo_arm_miner.Prelude.{
  ℕ, zero, suc, replicate, ◌≤◌, ◌<◌, ◌≡◌, refl, ◌⊎◌, true, false, none, arith,
}
use primo_arm_miner.Prelude.Int.{ℤ}
use primo_arm_miner.Submit.{
  PendingSubmit, SubmitState, stratum_reset_session_runtime, max_pending_submits, zero_slots,
  submit_id_take_metadata,
}
use primo_arm_miner.Submit.Slots.{Absent, Distinct, Absent-lookup, take-found}
use primo_arm_miner.Submit.Ledger.{
  Ledger, draw, reserve, release, reply, Accounted, draw-Accounted, reserve-Accounted,
  reply-Accounted, release-Accounted,
}

-- A step of the threads: an id is drawn while the 32-bit counter has room, reserved by the thread that
-- drew it, released, or asked for by a reply with any id.
pub data Step {D : Type 0} : Ledger D → Ledger D → Type 0 where
  draws : (w : Ledger D) → w.state.next_submit_id < 4294967295 → Step w (draw w)
  reserves :
      (now timeout id : ℕ) (d : D) (t : ℤ) (w : Ledger D)
      → w.drawn id ≡ true
      → Step w (reserve now timeout id d t w)
  releases : (id : ℕ) (w : Ledger D) → Step w (release id w)
  replies : (id : ℕ) (w : Ledger D) → Step w (reply id w)

pub data Steps {D : Type 0} : Ledger D → Ledger D → Type 0 where
  nothing : (w : Ledger D) → Steps w w
  after : (u v w : Ledger D) → Steps u v → Step v w → Steps u w

module _ {D : Type 0} where
  pub Steps-Accounted : (u w : Ledger D) → Steps u w → Accounted u → Accounted w
  Steps-Accounted u w (nothing _) v = v
  Steps-Accounted u w (after _ _ _ before (draws x room)) v =
      draw-Accounted x room (Steps-Accounted u x before v)
  Steps-Accounted u w (after _ _ _ before (reserves now timeout id d t x own)) v =
      reserve-Accounted now timeout id d t x own (Steps-Accounted u x before v)
  Steps-Accounted u w (after _ _ _ before (releases id x)) v =
      release-Accounted id x (Steps-Accounted u x before v)
  Steps-Accounted u w (after _ _ _ before (replies id x)) v =
      reply-Accounted id x (Steps-Accounted u x before v)

  zero_Absent : (n id : ℕ) (p : PendingSubmit D) → p.used ≡ false → Absent id (replicate n p)
  unfolding Absent
  zero_Absent zero id p h = tt
  zero_Absent (suc n) id p h = ground (arith, zero_Absent n id p h)

  zero_Distinct : (n : ℕ) (p : PendingSubmit D) → p.used ≡ false → Distinct (replicate n p)
  unfolding Distinct
  zero_Distinct zero p h = tt
  zero_Distinct (suc n) p h = ground (arith, zero_Distinct n p h)

  -- A session begins with the state that stratum_reset_session_runtime leaves.
  abbrev pub fresh : D → SubmitState D → Ledger D
  fresh zero_diff s = record {
    state = stratum_reset_session_runtime zero_diff s;
    drawn = λ j. false;
    sent = λ j. none;
    answers = λ j. 0;
  }

  fresh-Accounted : (zero_diff : D) (s : SubmitState D) → Accounted (fresh zero_diff s)
  unfolding stratum_reset_session_runtime
  fresh-Accounted zero_diff s = record {
    distinct = zero_Distinct max_pending_submits _ refl;
    started = omega arith;
    account = λ j.
        ground (
          arith,
          Absent-lookup j (zero_slots zero_diff) (zero_Absent max_pending_submits j _ refl),
        );
  }

  -- In a session, however its threads interleave while the 32-bit id counter has room, a reply with any id is matched with nothing, or with
  -- the very difficulty and thread that the share of that id was reserved with, and then for the first
  -- time; no share is counted twice.
  pub replies_match :
      (zero_diff : D) (s : SubmitState D) (w : Ledger D) (id : ℕ)
      → Steps (fresh zero_diff s) w
      → let found = (submit_id_take_metadata id w.state).1 in
        ((found ≡ none) ⊎ ((found ≡ w.sent id) × (w.answers id ≡ 0))) × (w.answers id ≤ 1)
  unfolding submit_id_take_metadata
  replies_match zero_diff s w id steps =
      let v = Steps-Accounted (fresh zero_diff s) w steps (fresh-Accounted zero_diff s) in
      ground (arith, v.account id, take-found id w.state.pending_submits)
