-- ===== src/Handshake/Waiting.antt =====
-- The wait for a reply: what it handles on the way, and how it ends.
use primo_arm_miner.Prelude.{
  ℕ, ◌≡◌, refl, sym, subst, map, Bool, false, ◌++◌, ap, ◌∙◌, ◌⊎◌, inl, inr, true, false, Option,
  none, some, List, [], ◌∷◌, All, if-cases,
}
use primo_arm_miner.Json.{Jansson}
use primo_arm_miner.Peer.{Settings, Peer, Moment}
use primo_arm_miner.Rpc.{stratum_dispatch_json_message}
use primo_arm_miner.Rpc.Buffers.{after_messages}
use primo_arm_miner.Handshake.{
  WaitStatus, timeout, recv_error, json_error, Delivery, line, silence, Receipt, Wait, waiting,
  answered, failed, is_over, stratum_reply_matches_id, take_delivery, wait_turn,
  stratum_wait_for_response,
}

-- The message of a line.
abbrev pub delivered : {V : Type 0} → Delivery V → Option V
delivered (line val) = val
delivered (silence timed_out) = none

module _ {D : Type 0} {j : Jansson} (c : Settings D j) (expected_id : ℕ) (deadline : Option ℕ) where
  -- A turn that begins before the deadline.
  abbrev pub OnTime : Receipt j.Value → Type 0
  OnTime r = is_over deadline r.clock ≡ false

  abbrev pub matches : j.Value → Bool
  matches val = stratum_reply_matches_id j (some val) expected_id

  -- A turn on time with a message that is not the reply.
  abbrev pub Passed : Receipt j.Value → Type 0
  Passed r = OnTime r × ((val : j.Value) × (r.delivery ≡ line (some val)) × (matches val ≡ false))

  -- The message of a turn.
  abbrev pub heard : Receipt j.Value → Moment × Option j.Value
  heard r = (r.moment, delivered r.delivery)

  -- Why a delivery fails a wait.
  abbrev pub FailedBy : Delivery j.Value → WaitStatus → Type 0
  FailedBy (line none) status = status ≡ json_error
  FailedBy (line (some val)) status = false ≡ true
  FailedBy (silence true) status = status ≡ timeout
  FailedBy (silence false) status = status ≡ recv_error

  -- What the turn that ends a wait meets: the reply on time, a deadline that is over, or a failed delivery.
  abbrev pub LastTurn : Receipt j.Value → Wait j.Value → Type 0
  LastTurn r waiting = false ≡ true
  LastTurn r (answered reply) = OnTime r × (r.delivery ≡ line (some reply)) × (matches reply ≡ true)
  LastTurn r (failed status) =
      ((is_over deadline r.clock ≡ true) × (status ≡ timeout))
      ⊎ (OnTime r × FailedBy r.delivery status)

  -- What follows the turns that passed: nothing while the wait goes on, and else the turn that ends it.
  abbrev pub Ends : List (Receipt j.Value) → Wait j.Value → Type 0
  Ends [] outcome = outcome ≡ waiting
  Ends (r ∷ later) outcome = LastTurn r outcome

  pub record Waited (receipts : List (Receipt j.Value)) (p p' : Peer D j) (outcome : Wait j.Value)
      : Type 0 where
    pub passed : List (Receipt j.Value)
    pub rest : List (Receipt j.Value)
    pub in_order : receipts ≡ passed ++ rest
    pub others : All Passed passed
    pub handled : p' ≡ after_messages c (map heard passed) p
    pub ends : Ends rest outcome

  -- What one turn comes to: it ends the wait and keeps the state, or a message is handled and the wait
  -- goes on.
  abbrev TurnEnds : Receipt j.Value → Peer D j → Peer D j × Wait j.Value → Type 0
  TurnEnds r p (p', outcome) =
      ((p' ≡ p) × LastTurn r outcome)
      ⊎ ((outcome ≡ waiting) × (p' ≡ after_messages c (heard r ∷ []) p) × Passed r)

  take_delivery-TurnEnds :
      (d : Delivery j.Value) (r : Receipt j.Value) (p : Peer D j)
      → r.delivery ≡ d
      → OnTime r
      → TurnEnds r p (take_delivery c expected_id d r.moment p)
  unfolding take_delivery
  take_delivery-TurnEnds (line none) r p e early =
      inl (refl, inr (early, subst (λ d. FailedBy d json_error) (sym e) refl))
  take_delivery-TurnEnds (line (some val)) r p e early =
      if-cases {A = Peer D j × Wait j.Value} (TurnEnds r p) (matches val) {x = (p, answered val)}
        (λ same. inl (refl, (early, e, same)))
        (λ other. inr (
          refl,
          ap (λ d. (stratum_dispatch_json_message c r.moment (delivered d) p).0) (sym e),
          (early, (val, e, other)),
        ))
  take_delivery-TurnEnds (silence true) r p e early =
      inl (refl, inr (early, subst (λ d. FailedBy d timeout) (sym e) refl))
  take_delivery-TurnEnds (silence false) r p e early =
      inl (refl, inr (early, subst (λ d. FailedBy d recv_error) (sym e) refl))

  wait_turn-TurnEnds :
      (r : Receipt j.Value) (p : Peer D j) → TurnEnds r p (wait_turn c expected_id deadline r p)
  unfolding wait_turn
  wait_turn-TurnEnds r p =
      if-cases (TurnEnds r p) (is_over deadline r.clock) (λ late. inl (refl, inl (late, refl)))
        (λ early. take_delivery-TurnEnds r.delivery r p refl early)

  -- However a wait ends: the first turns met, on time, messages that do not have the awaited id, and exactly
  -- these were handled, in their order; nothing else has changed. While the wait goes on these are all the
  -- turns. Else the next turn ended it: on time, with the message that has the id, which is the answer; or
  -- the deadline was over, or the receive timed out, which is a timeout; or the connection or the JSON of
  -- the line failed, and the status says which.
  pub stratum_wait_for_response_lem :
      (receipts : List (Receipt j.Value)) (p : Peer D j)
      → let (p', outcome) = stratum_wait_for_response c expected_id deadline receipts p in
        Waited receipts p p' outcome
  unfolding stratum_wait_for_response
  stratum_wait_for_response_lem [] p = record {
    passed = [];
    rest = [];
    in_order = refl;
    others = tt;
    handled = refl;
    ends = refl;
  }
  stratum_wait_for_response_lem (r ∷ receipts) p =
      go (wait_turn c expected_id deadline r p) (wait_turn-TurnEnds r p)
        (stratum_wait_for_response_lem receipts (wait_turn c expected_id deadline r p).0)
    where
      Rest : Peer D j × Wait j.Value → Peer D j × Wait j.Value
      Rest (p', outcome) = elim outcome [
        | waiting ↦ stratum_wait_for_response c expected_id deadline receipts p'
        | answered reply ↦ (p', answered reply)
        | failed status ↦ (p', failed status)
      ]

      last :
          (p' : Peer D j) (outcome : Wait j.Value)
          → p' ≡ p
          → LastTurn r outcome
          → Waited (r ∷ receipts) p p' outcome
      last p' outcome same turn = record {
        passed = [];
        rest = r ∷ receipts;
        in_order = refl;
        others = tt;
        handled = same;
        ends = turn;
      }

      go :
          (x : Peer D j × Wait j.Value)
          → TurnEnds r p x
          → Waited receipts x.0
              (stratum_wait_for_response c expected_id deadline receipts x.0).0
              (stratum_wait_for_response c expected_id deadline receipts x.0).1
          → Waited (r ∷ receipts) p (Rest x).0 (Rest x).1
      go (p', waiting) (inl (same, never)) later = absurd cc
      go (p', waiting) (inr (_, step, passed)) later = record {
        passed = r ∷ later.passed;
        rest = later.rest;
        in_order = ap (λ rs. r ∷ rs) later.in_order;
        others = (passed, later.others);
        handled = later.handled ∙ ap (after_messages c (map heard later.passed)) step;
        ends = later.ends;
      }
      go (p', answered reply) (inl (same, turn)) later = last p' (answered reply) same turn
      go (p', answered reply) (inr (e, _, _)) later = absurd cc
      go (p', failed status) (inl (same, turn)) later = last p' (failed status) same turn
      go (p', failed status) (inr (e, _, _)) later = absurd cc
