-- ===== src/Handshake.antt =====
-- src/stratum_handshake.cpp: subscribe, authorize and login on a fresh connection, with
-- stratum_open_pool_connection of src/stratum_session.cpp. What the connection delivers is given as a row
-- of receipts, the clock of each deadline test included; other messages are handled while a reply is
-- awaited.
pub mod Waiting
mod Tests
use primo_arm_miner.Prelude.{
  ℕ, zero, suc, ◌+◌, ◌-◌, Bool, true, false, not, ◌&&◌, ◌||◌, Option, none, some, List, [], ◌∷◌,
  ltb, leb, ◌==◌, if◌then◌else◌, Bytes, codes,
}
use primo_arm_miner.Json.{Jansson, string_at, string_of}
use primo_arm_miner.RpcId.{stratum_parse_rpc_id}
use primo_arm_miner.Pools.{is_empty}
use primo_arm_miner.Nonce.{is_randomx}
use primo_arm_miner.Reply.{strcasecmp_eq}
use primo_arm_miner.Job.{StratumCtx}
use primo_arm_miner.Extranonce.{stratum_parse_extranonce}
use primo_arm_miner.Monero.{xmr_stratum_handle_job}
use primo_arm_miner.Peer.{Settings, Peer, Moment, set_ctx}
use primo_arm_miner.Rpc.{stratum_dispatch_json_message}

pub data WaitStatus : Type 0 where
  timeout recv_error json_error send_error : WaitStatus

-- What one turn of the wait meets: the clock at the deadline test, the line or the reason for none (a line
-- that is not JSON is `none`), and the moment in which a message is handled.
pub data Delivery (V : Type 0) : Type 0 where
  line : Option V → Delivery V
  silence : (timed_out : Bool) → Delivery V

pub record Receipt (V : Type 0) : Type 0 where
  pub clock : ℕ
  pub delivery : Delivery V
  pub moment : Moment

-- The outcome of a wait; it goes on where the receipts end.
pub data Wait (V : Type 0) : Type 0 where
  waiting : Wait V
  answered : V → Wait V
  failed : WaitStatus → Wait V

-- `seconds` from `start` on, or no deadline.
abbrev pub deadline_of : (start seconds : ℕ) → Option ℕ
deadline_of start seconds = if ltb 0 seconds then some (start + seconds) else none

abbrev pub is_over : Option ℕ → ℕ → Bool
is_over none clock = false
is_over (some deadline) clock = leb deadline clock

abbrev pub ids_equal : Option ℕ → ℕ → Bool
ids_equal none expected_id = false
ids_equal (some id) expected_id = id == expected_id

unfoldable pub stratum_reply_matches_id : (j : Jansson) → Option j.Value → ℕ → Bool
stratum_reply_matches_id j reply expected_id =
    ids_equal (stratum_parse_rpc_id j (j.json_object_get reply (codes "id"))) expected_id

-- The seconds that a turn waits for a line at most.
unfoldable pub receive_timeout : (pool_timeout : ℕ) → Option ℕ → (now : ℕ) → ℕ
receive_timeout pool_timeout none now = pool_timeout
receive_timeout pool_timeout (some deadline) now =
    if ltb (deadline - now) 1 then 1 else deadline - now

module _ {D : Type 0} {j : Jansson} (c : Settings D j) where
  -- A line that came before the deadline: the reply, or another message.
  unfoldable pub take_delivery :
      (expected_id : ℕ) → Delivery j.Value → Moment → Peer D j → Peer D j × Wait j.Value
  take_delivery expected_id (line none) m p = (p, failed json_error)
  take_delivery expected_id (line (some val)) m p =
      if stratum_reply_matches_id j (some val) expected_id
      then (p, answered val)
      else ((stratum_dispatch_json_message c m (some val) p).0, waiting)
  take_delivery expected_id (silence true) m p = (p, failed timeout)
  take_delivery expected_id (silence false) m p = (p, failed recv_error)

  unfoldable pub wait_turn :
      (expected_id : ℕ) → Option ℕ → Receipt j.Value → Peer D j → Peer D j × Wait j.Value
  unfolding take_delivery
  wait_turn expected_id deadline r p =
      if is_over deadline r.clock
      then (p, failed timeout)
      else take_delivery expected_id r.delivery r.moment p

  unfoldable pub stratum_wait_for_response :
      (expected_id : ℕ) → Option ℕ → List (Receipt j.Value) → Peer D j → Peer D j × Wait j.Value
  stratum_wait_for_response expected_id deadline [] p = (p, waiting)
  stratum_wait_for_response expected_id deadline (r ∷ receipts) p =
      let (p', outcome) = wait_turn expected_id deadline r p in
      elim outcome [
        | waiting ↦ stratum_wait_for_response expected_id deadline receipts p'
        | answered reply ↦ (p', answered reply)
        | failed status ↦ (p', failed status)
      ]

-- A request: whether it was sent, when, and what is received after it.
pub record Exchange (V : Type 0) : Type 0 where
  pub sent : Bool
  pub start : ℕ
  pub receipts : List (Receipt V)

module _ {D : Type 0} {j : Jansson} (c : Settings D j) where
  unfoldable pub stratum_send_request_and_wait :
      (expected_id timeout_s : ℕ) → Exchange j.Value → Peer D j → Peer D j × Wait j.Value
  stratum_send_request_and_wait expected_id timeout_s x p =
      if x.sent
      then stratum_wait_for_response c expected_id (deadline_of x.start timeout_s) x.receipts p
      else (p, failed send_error)

-- A value that is missing or null.
abbrev pub is_nothing : (j : Jansson) → Option j.Value → Bool
is_nothing j none = true
is_nothing j (some v) = j.json_is_null (some v)

unfoldable pub stratum_reply_has_rpc_error :
    (j : Jansson) → (allow_false_result : Bool) → j.Value → Bool
stratum_reply_has_rpc_error j allow_false_result reply =
    let result = j.json_object_get (some reply) (codes "result") in
    is_nothing j result
    || (not allow_false_result && j.json_is_false result)
    || not (is_nothing j (j.json_object_get (some reply) (codes "error")))

-- The loop of get_stratum_session_id from index `i` on.
unfoldable pub session_id_from :
    (j : Jansson) → (subscriptions : Option j.Value) → (left i : ℕ) → Option Bytes
session_id_from j subscriptions zero i = none
session_id_from j subscriptions (suc left) i =
    let entry = j.json_array_get subscriptions i in
    let rest = session_id_from j subscriptions left (i + 1) in
    if j.json_is_array entry
    then elim (string_at j entry 0) [
      | none ↦ rest
      | some name ↦ if strcasecmp_eq name (codes "mining.notify") then string_at j entry 1 else rest
    ]
    else none

unfoldable pub get_stratum_session_id : (j : Jansson) → Option j.Value → Option Bytes
unfolding session_id_from
get_stratum_session_id j result =
    let subscriptions = j.json_array_get result 0 in
    if j.json_is_array subscriptions
    then session_id_from j subscriptions (j.json_array_size subscriptions) 0
    else none
