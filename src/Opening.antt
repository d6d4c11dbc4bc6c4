-- ===== src/Opening.antt =====
-- src/stratum_handshake.cpp: the three calls of the handshake, each with its exchange, and their order in
-- stratum_open_pool_connection of src/stratum_session.cpp once the socket is connected. An outcome of none
-- means that the receipts end while the call still waits.
pub mod Steps
pub mod Nicehash
pub mod Opened
mod Tests
use primo_arm_miner.Prelude.{
  ℕ, zero, suc, ◌+◌, Bool, true, false, not, ◌&&◌, ◌||◌, Option, none, some, List, [], ◌∷◌,
  if◌then◌else◌, Bytes, codes,
}
use primo_arm_miner.Json.{Jansson, string_at, string_of}
use primo_arm_miner.Pools.{is_empty}
use primo_arm_miner.Nonce.{is_randomx}
use primo_arm_miner.Reply.{strcasecmp_eq}
use primo_arm_miner.Job.{StratumCtx}
use primo_arm_miner.Extranonce.{stratum_parse_extranonce}
use primo_arm_miner.Monero.{xmr_stratum_handle_job}
use primo_arm_miner.Peer.{Settings, Peer, set_ctx, stratum_disconnect}
use primo_arm_miner.Handshake.{
  Wait, waiting, answered, failed, Exchange, stratum_send_request_and_wait,
  stratum_reply_has_rpc_error, get_stratum_session_id,
}

-- The names of the extensions, from index `i` on: whether one is nicehash.
unfoldable pub nicehash_from : (j : Jansson) → (extensions : Option j.Value) → (left i : ℕ) → Bool
nicehash_from j extensions zero i = false
nicehash_from j extensions (suc left) i =
    let rest = nicehash_from j extensions left (i + 1) in
    elim (string_at j extensions i) [
      | none ↦ rest
      | some name ↦ strcasecmp_eq name (codes "nicehash") || rest
    ]

-- Whether the pool owns the upper byte of the nonces, so that the session scans the low 24 bits only.
unfoldable pub nicehash_mode : (j : Jansson) → (opt_nicehash : Bool) → Option j.Value → Bool
unfolding nicehash_from
nicehash_mode j opt_nicehash extensions =
    opt_nicehash
    || (j.json_is_array extensions && nicehash_from j extensions (j.json_array_size extensions) 0)

module _ {D : Type 0} (one : D) where
  -- `one` is the difficulty 1.0.
  unfoldable pub stratum_store_session_id : Option Bytes → StratumCtx D → StratumCtx D
  stratum_store_session_id session_id s = record s { session_id = session_id; next_diff = one }

module _ {D : Type 0} {j : Jansson} where
  unfoldable pub stratum_set_authenticated : Bool → Peer D j → Peer D j
  stratum_set_authenticated authenticated p =
      set_ctx (record p.ctx { authenticated = authenticated }) p

  applied : Option (StratumCtx D) → Peer D j → Peer D j × Option Bool
  applied none p = (p, some false)
  applied (some s) p = (set_ctx s p, some true)

module _ {D : Type 0} {j : Jansson} (c : Settings D j) where
  -- mining.extranonce.subscribe: messages are handled meanwhile, and the outcome is not asked for.
  unfoldable pub stratum_try_extranonce_subscribe : Exchange j.Value → Peer D j → Peer D j
  stratum_try_extranonce_subscribe x p = (stratum_send_request_and_wait c 3 2 x p).0

  unfoldable pub stratum_authorize :
      (request extra : Exchange j.Value) → Peer D j → Peer D j × Option Bool
  stratum_authorize request extra p =
      let (p', outcome) = stratum_send_request_and_wait c 2 0 request p in
      elim outcome [
        | waiting ↦ (p', none)
        | failed status ↦ (p', some false)
        | answered reply ↦
            if stratum_reply_has_rpc_error j false reply
            then (stratum_set_authenticated false p', some false)
            else (
              stratum_try_extranonce_subscribe extra (stratum_set_authenticated true p'),
              some true,
            )
      ]

  -- The first job of a login; it is fine if there is none.
  unfoldable pub first_job : Option j.Value → Peer D j → Peer D j × Option Bool
  first_job job p =
      let (s, r, result) = xmr_stratum_handle_job c.diff_of_target j job p.ctx p.runtime in
      if j.json_is_object job
      then (record p { ctx = s; runtime = r }, some result)
      else (p, some true)

module _ {D : Type 0} {j : Jansson} (c : Settings D j) where
  unfoldable pub stratum_apply_subscribe_reply : j.Value → StratumCtx D → Option (StratumCtx D)
  unfolding stratum_store_session_id
  stratum_apply_subscribe_reply reply s =
      let result = j.json_object_get (some reply) (codes "result") in
      elim (stratum_parse_extranonce c.opt_algo j result 1 s) [
        | none ↦ none
        | some s' ↦ some (stratum_store_session_id c.one (get_stratum_session_id j result) s')
      ]

  -- What is made of a reply to mining.subscribe; an error leaves the attempt open.
  unfoldable pub subscribe_reply :
      (again : Peer D j → Peer D j × Option Bool) → j.Value → Peer D j → Peer D j × Option Bool
  unfolding applied
  subscribe_reply again reply p =
      if stratum_reply_has_rpc_error j true reply
      then again p
      else applied (stratum_apply_subscribe_reply reply p.ctx) p

  unfoldable pub subscribe_attempts : List (Exchange j.Value) → Peer D j → Peer D j × Option Bool
  unfolding subscribe_reply
  subscribe_attempts [] p = (p, some false)
  subscribe_attempts (x ∷ attempts) p =
      let (p', outcome) = stratum_send_request_and_wait c 1 30 x p in
      elim outcome [
        | waiting ↦ (p', none)
        | failed status ↦ (p', some false)
        | answered reply ↦ subscribe_reply (subscribe_attempts attempts) reply p'
      ]

  -- At most two attempts.
  unfoldable pub stratum_subscribe :
      (first second : Exchange j.Value) → Peer D j → Peer D j × Option Bool
  unfolding subscribe_attempts
  stratum_subscribe first second p = subscribe_attempts (first ∷ second ∷ []) p

  logged_in :
      (opt_nicehash : Bool) → (result : Option j.Value) → Bytes → Peer D j → Peer D j × Option Bool
  unfolding first_job stratum_store_session_id
  logged_in opt_nicehash result session_id p =
      first_job c (j.json_object_get result (codes "job")) (
        set_ctx
          (record (stratum_store_session_id c.one (some session_id) p.ctx) {
            authenticated = true;
            xmr_nicehash =
                nicehash_mode j opt_nicehash (j.json_object_get result (codes "extensions"));
          })
          p)

  -- A login needs a session id that is not empty.
  login_named :
      (opt_nicehash : Bool)
      → (result : Option j.Value) → Option Bytes
      → Peer D j
      → Peer D j × Option Bool
  unfolding logged_in
  login_named opt_nicehash result none p = (p, some false)
  login_named opt_nicehash result (some []) p = (p, some false)
  login_named opt_nicehash result (some (b ∷ id)) p = logged_in opt_nicehash result (b ∷ id) p

  unfoldable pub xmr_stratum_login :
      (opt_nicehash : Bool) → Exchange j.Value → Peer D j → Peer D j × Option Bool
  unfolding login_named
  xmr_stratum_login opt_nicehash x p =
      let (p', outcome) = stratum_send_request_and_wait c 4 30 x p in
      elim outcome [
        | waiting ↦ (p', none)
        | failed status ↦ (p', some false)
        | answered reply ↦
            let result = j.json_object_get (some reply) (codes "result") in
            if stratum_reply_has_rpc_error j false reply
            then (p', some false)
            else login_named opt_nicehash result (string_of j result (codes "id")) p'
      ]

  -- Authorization after a successful subscription.
  unfoldable pub after_subscribe :
      (request extra : Exchange j.Value) → Peer D j × Option Bool → Peer D j × Option Bool
  after_subscribe request extra (p, none) = (p, none)
  after_subscribe request extra (p, some false) = (p, some false)
  after_subscribe request extra (p, some true) = stratum_authorize c request extra p

  -- A handshake that fails closes the connection.
  unfoldable pub closed : Peer D j × Option Bool → Peer D j × Option Bool
  closed (p, none) = (p, none)
  closed (p, some false) = (stratum_disconnect c p, some false)
  closed (p, some true) = (p, some true)

  -- The handshake on a connected socket.
  unfoldable pub stratum_open_pool_connection :
      (opt_nicehash : Bool)
      → (first second request extra : Exchange j.Value) → Peer D j
      → Peer D j × Option Bool
  unfolding after_subscribe closed
  stratum_open_pool_connection opt_nicehash first second request extra p = closed (
      if is_randomx c.opt_algo
      then xmr_stratum_login opt_nicehash first p
      else after_subscribe request extra (stratum_subscribe first second p))
