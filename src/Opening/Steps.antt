-- ===== src/Opening/Steps.antt =====
-- The calls of the handshake leave the buffers of a session as they were, whatever the pool sends.
use primo_arm_miner.Prelude.{
  ℕ, map, sym, subst, inl, inr, Bool, true, false, Option, none, some, List, [], ◌∷◌, codes,
  Option-cases, if-choice, if◌then◌else◌,
}
use primo_arm_miner.Json.{Jansson}
use primo_arm_miner.Extranonce.{stratum_parse_extranonce}
use primo_arm_miner.Peer.{Settings, Peer}
use primo_arm_miner.Rpc.Layouts.{SessionFits}
use primo_arm_miner.Rpc.Buffers.{messages-SessionFits, extranonce-SessionFits}
use primo_arm_miner.Handshake.{
  Wait, waiting, answered, failed, Exchange, deadline_of, stratum_send_request_and_wait,
  stratum_reply_has_rpc_error,
}
use primo_arm_miner.Handshake.Waiting.{heard, stratum_wait_for_response_lem}
use primo_arm_miner.Opening.{
  stratum_store_session_id, stratum_apply_subscribe_reply, subscribe_reply, subscribe_attempts,
  stratum_set_authenticated, stratum_try_extranonce_subscribe, stratum_authorize, applied,
}

module _ {D : Type 0} {j : Jansson} (c : Settings D j) where
  pub wait-SessionFits :
      (expected_id seconds : ℕ) (x : Exchange j.Value) (p : Peer D j)
      → SessionFits p.ctx
      → SessionFits (stratum_send_request_and_wait c expected_id seconds x p).0.ctx
  unfolding stratum_send_request_and_wait
  wait-SessionFits expected_id seconds x p h =
      let deadline = deadline_of x.start seconds in
      let waited = stratum_wait_for_response_lem c expected_id deadline x.receipts p in
      let handled = map (heard c expected_id deadline) waited.passed in
      let reached =
        subst (λ (q : Peer D j). SessionFits q.ctx) (sym waited.handled)
          (messages-SessionFits c handled p h) in
      if-choice {A = Peer D j × Wait j.Value} (λ y. SessionFits y.0.ctx) x.sent reached h

  -- The session id and the difficulty are no matter of the buffers.
  subscribed-SessionFits :
      (reply : j.Value) (p : Peer D j)
      → SessionFits p.ctx
      → SessionFits (applied (stratum_apply_subscribe_reply c reply p.ctx) p).0.ctx
  unfolding stratum_apply_subscribe_reply stratum_store_session_id applied
  subscribed-SessionFits reply p h =
      let result = j.json_object_get (some reply) (codes "result") in
      elim (Option-cases (stratum_parse_extranonce c.opt_algo j result 1 p.ctx)) [
        | inl e ↦ rw (e, stratum_apply_subscribe_reply) h
        | inr (s, e) ↦
            rw (e, stratum_apply_subscribe_reply) (extranonce-SessionFits c result 1 p.ctx s h e)
      ]

  pub attempts-SessionFits :
      (attempts : List (Exchange j.Value)) (p : Peer D j)
      → SessionFits p.ctx
      → SessionFits (subscribe_attempts c attempts p).0.ctx
  unfolding subscribe_attempts subscribe_reply
  attempts-SessionFits [] p h = h
  attempts-SessionFits (x ∷ attempts) p h =
      go (attempts-SessionFits attempts) (stratum_send_request_and_wait c 1 30 x p)
        (wait-SessionFits 1 30 x p h)
    where
      After : Peer D j × Wait j.Value → Peer D j × Option Bool
      After (p', outcome) = elim outcome [
        | waiting ↦ (p', none)
        | failed status ↦ (p', some false)
        | answered reply ↦ subscribe_reply c (subscribe_attempts c attempts) reply p'
      ]

      go :
          ((q : Peer D j) → SessionFits q.ctx → SessionFits (subscribe_attempts c attempts q).0.ctx)
          → (y : Peer D j × Wait j.Value) → SessionFits y.0.ctx
          → SessionFits (After y).0.ctx
      go again (p', waiting) h' = h'
      go again (p', failed status) h' = h'
      go again (p', answered reply) h' =
          if-choice {A = Peer D j × Option Bool} (λ z. SessionFits z.0.ctx)
            (stratum_reply_has_rpc_error j true reply) (again p' h')
            (subscribed-SessionFits reply p' h')

  pub authorize-SessionFits :
      (request extra : Exchange j.Value) (p : Peer D j)
      → SessionFits p.ctx
      → SessionFits (stratum_authorize c request extra p).0.ctx
  unfolding stratum_authorize stratum_set_authenticated stratum_try_extranonce_subscribe
  authorize-SessionFits request extra p h =
      go (stratum_send_request_and_wait c 2 0 request p) (wait-SessionFits 2 0 request p h)
    where
      After : Peer D j × Wait j.Value → Peer D j × Option Bool
      After (p', outcome) = elim outcome [
        | waiting ↦ (p', none)
        | failed status ↦ (p', some false)
        | answered reply ↦
            if stratum_reply_has_rpc_error j false reply
            then (stratum_set_authenticated false p', some false)
            else (
              stratum_try_extranonce_subscribe c extra (stratum_set_authenticated true p'),
              some true,
            )
      ]

      go : (y : Peer D j × Wait j.Value) → SessionFits y.0.ctx → SessionFits (After y).0.ctx
      go (p', waiting) h' = h'
      go (p', failed status) h' = h'
      go (p', answered reply) h' =
          if-choice {A = Peer D j × Option Bool} (λ z. SessionFits z.0.ctx)
            (stratum_reply_has_rpc_error j false reply) h'
            (wait-SessionFits 3 2 extra (stratum_set_authenticated true p') h')
