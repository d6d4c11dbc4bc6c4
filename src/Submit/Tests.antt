-- ===== src/Submit/Tests.antt =====
-- Runs of the table of pending shares, and instances of its theorems.
use primo_arm_miner.Prelude.{
  ℕ, ◌≤◌, ◌<◌, ◌≡◌, refl, ◌⊎◌, Bool, true, false, none, some, [], ◌∷◌, arith,
}
use primo_arm_miner.Prelude.Int.{pos}
use primo_arm_miner.Submit.{
  PendingSubmit, SubmitState, entry, vacate, stratum_submit_id_next, submit_id_reserve,
  submit_id_take_metadata, stratum_send_submit, submit_id_reap_stale, store_first,
  stratum_reset_session_runtime, submit_id_timeout_seconds, is_stale, submit_id_request_reconnect,
}
use primo_arm_miner.Submit.Slots.{lookup, Absent, Distinct}
use primo_arm_miner.Submit.Send.{Reserved, submit_id_reserve_lem, stratum_send_submit_lem}
use primo_arm_miner.Submit.Ledger.{Ledger, draw, reserve}
use primo_arm_miner.Submit.Trace.{Steps, nothing, after, draws, reserves, replies_match, fresh}

-- A table of two slots: one share from second 50, one free slot.
abbrev old : PendingSubmit ℕ
old = entry 50 11 7 (pos 3)

abbrev two_slots : SubmitState ℕ
two_slots = record {
  next_submit_id = 12;
  pending_submits = old ∷ vacate old ∷ [];
  reconnect_requested = false;
  connected = true;
  shut_down = false;
}

two_slots-Distinct : Distinct two_slots.pending_submits
unfolding Distinct Absent
two_slots-Distinct = (λ u. (refl, tt), ((λ u. tt), tt))

Absent-12 : Absent 12 two_slots.pending_submits
unfolding Absent
Absent-12 = (refl, (refl, tt))

-- At second 100, the share of second 50 is not stale after 60 seconds, and is after 30.
reserve_in_time : (submit_id_reserve 100 60 12 9 (pos 1) two_slots).0.reconnect_requested ≡ false
unfolding submit_id_reserve submit_id_reap_stale store_first is_stale submit_id_request_reconnect
    submit_id_timeout_seconds
reserve_in_time = refl

reserve_too_late : (submit_id_reserve 100 30 12 9 (pos 1) two_slots).0.reconnect_requested ≡ true
unfolding submit_id_reserve submit_id_reap_stale store_first is_stale submit_id_request_reconnect
    submit_id_timeout_seconds
reserve_too_late = refl

submit_id_reserve_lem_example :
    let (s', stored) = submit_id_reserve 100 60 12 9 (pos 1) two_slots in
    Reserved 100 60 12 9 (pos 1) two_slots s' stored
submit_id_reserve_lem_example =
    submit_id_reserve_lem 100 60 12 9 (pos 1) two_slots two_slots-Distinct Absent-12

stratum_send_submit_lem_example :
    let (reserved, stored) = submit_id_reserve 100 60 12 9 (pos 1) two_slots in
    let (s', ok) = stratum_send_submit 100 60 12 9 (pos 1) (λ x. x) false two_slots in
    ((ok ≡ true)
      × (◌≡◌ {A = Bool} false true)
      × (s' ≡ reserved)
      × (lookup 12 reserved.pending_submits ≡ some (entry 100 12 9 (pos 1))))
    ⊎ ((ok ≡ false)
        × (lookup 12 s'.pending_submits ≡ none)
        × (((stored ≡ true) × (◌≡◌ {A = Bool} false false))
            ⊎ ((stored ≡ false) × (s'.reconnect_requested ≡ true))))
stratum_send_submit_lem_example =
    stratum_send_submit_lem 100 60 12 9 (pos 1) (λ x. x) false two_slots (λ x v. v)
      two_slots-Distinct Absent-12

abbrev begun : Ledger ℕ
begun = fresh 0 two_slots

abbrev drawn : Ledger ℕ
drawn = draw begun

abbrev sent : Ledger ℕ
sent = reserve 100 60 10 9 (pos 1) drawn

draws_10 : drawn.drawn 10 ≡ true
unfolding stratum_submit_id_next stratum_reset_session_runtime
draws_10 = refl

has_room : begun.state.next_submit_id < 4294967295
unfolding stratum_reset_session_runtime
has_room = omega arith

one_share : Steps begun sent
one_share =
    after begun drawn sent (after begun begun drawn (nothing begun) (draws begun has_room))
      (reserves 100 60 10 9 (pos 1) drawn draws_10)

replies_match_example :
    let found = (submit_id_take_metadata 10 sent.state).1 in
    ((found ≡ none) ⊎ ((found ≡ sent.sent 10) × (sent.answers 10 ≡ 0))) × (sent.answers 10 ≤ 1)
replies_match_example = replies_match 0 two_slots sent 10 one_share
