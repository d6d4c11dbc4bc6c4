-- ===== src/Rpc.antt =====
-- src/stratum_rpc.cpp: what a session does with one message of its pool.
pub mod Isolation
pub mod Layouts
pub mod Dropped
pub mod Buffers
mod Tests
use primo_arm_miner.Prelude.{
  ℕ, ◌+◌, Bool, true, false, not, ◌&&◌, ◌||◌, Option, none, some, List, [], ◌∷◌, ◌++◌, ltb, ◌==◌,
  if◌then◌else◌, Bytes, codes,
}
use primo_arm_miner.Prelude.Int.{ℤ, pos, negsuc}
use primo_arm_miner.Json.{Jansson, string_at, string_of}
use primo_arm_miner.RpcId.{stratum_parse_rpc_id}
use primo_arm_miner.Pools.{snprintf_str, is_empty}
use primo_arm_miner.DevFee.{DevfeeState}
use primo_arm_miner.DevFee.Targets.{Algo, verus, sha256d, scrypt, randomx, package_version}
use primo_arm_miner.Nonce.{is_verus, is_randomx}
use primo_arm_miner.Publish.{RuntimeState, stratum_update_active_work_height}
use primo_arm_miner.Reply.{
  ResultView, json_true, json_object, json_other, Books, strcasecmp_eq,
  stratum_handle_submit_response,
}
use primo_arm_miner.Job.{StratumCtx, WorkBody}
use primo_arm_miner.Extranonce.{speaks_verus, stratum_parse_extranonce}
use primo_arm_miner.Standard.{Targets, stratum_notify_standard}
use primo_arm_miner.Verus.{VerusTargets, verus_stratum_notify, verus_stratum_set_target}
use primo_arm_miner.Monero.{xmr_stratum_handle_job}
use primo_arm_miner.Redirect.{redirect_of, announced_height}
use primo_arm_miner.Peer.{
  MessageStatus, ok, ignored, fatal, status_from_bool, Sent, text_result, true_result, method_error,
  Settings, Peer, Moment, send_reply, set_ctx, keep_or_fail, handle_notify, stratum_set_difficulty,
  handle_set_target_method, stratum_reconnect,
}

pub data Method : Type 0 where
  notify ping set_difficulty set_target set_extranonce : Method
  reconnect get_algo get_version show_message : Method

abbrev pub stratum_method_handlers : List (Bytes × Method)
stratum_method_handlers =
    (codes "mining.notify", notify)
    ∷ (codes "job", notify)
    ∷ (codes "mining.ping", ping)
    ∷ (codes "mining.set_difficulty", set_difficulty)
    ∷ (codes "mining.set_target", set_target)
    ∷ (codes "mining.set_extranonce", set_extranonce)
    ∷ (codes "client.reconnect", reconnect)
    ∷ (codes "client.get_algo", get_algo)
    ∷ (codes "client.get_version", get_version)
    ∷ (codes "client.show_message", show_message)
    ∷ []

unfoldable pub find_handler : Bytes → List (Bytes × Method) → Option Method
find_handler method [] = none
find_handler method ((name, handler) ∷ rest) =
    if strcasecmp_eq method name then some handler else find_handler method rest

-- algo_names of src/config.cpp, and USER_AGENT.
abbrev pub algo_name : Algo → Bytes
algo_name verus = codes "verus"
algo_name sha256d = codes "sha256d"
algo_name scrypt = codes "scrypt"
algo_name randomx = codes "randomx"

abbrev pub user_agent : Bytes
user_agent = codes "primo-arm-miner/" ++ package_version

-- What stratum_handle_submit_response asks of the result.
unfoldable pub result_view : (j : Jansson) → Option j.Value → ResultView
result_view j result =
    if j.json_is_true result
    then json_true
    else if j.json_is_object result
    then json_object (string_of j result (codes "status"))
    else json_other

module _ {D : Type 0} {j : Jansson} where
  -- A height goes into the job, and into the published work if that is the job's.
  unfoldable pub set_job_height : ℕ → Peer D j → Peer D j
  set_job_height height p =
      let ctx = record p.ctx { job = record p.ctx.job { height = height } } in
      elim (p.ctx.job.job_id) [
        | none ↦ set_ctx ctx p
        | some job_id ↦ record (set_ctx ctx p) {
          runtime =
              (stratum_update_active_work_height p.ctx.pooln (snprintf_str 128 job_id) height
                p.runtime).0;
        }
      ]

  take_height : Option ℕ → Peer D j → Peer D j
  unfolding set_job_height
  take_height none p = p
  take_height (some height) p = if height == 0 then p else set_job_height height p

  shown : Option Bytes → Peer D j → Peer D j
  unfolding take_height
  shown none p = p
  shown (some text) p = take_height (announced_height text) p

  -- A notification is fine without an answer.
  unfoldable pub stratum_show_message :
      Moment → (id params : Option j.Value) → Peer D j → Peer D j × Bool
  unfolding shown
  stratum_show_message m none params p = (shown (string_at j params 0) p, true)
  stratum_show_message m (some id) params p =
      let p' = shown (string_at j params 0) p in
      if j.json_is_null (some id) then (p', true) else send_reply m (some id) Sent.true_result p'

  abbrev pub reported : Peer D j × Bool → Peer D j × MessageStatus
  reported (p, result) = (p, status_from_bool result)

  -- An unknown method is answered with an error if it can be.
  unfoldable pub unknown_method : Moment → Option j.Value → Peer D j → Peer D j × MessageStatus
  unknown_method m none p = (p, ignored)
  unknown_method m (some id) p =
      let (p', sent) = send_reply m (some id) Sent.method_error p in
      if j.json_is_null (some id) then (p, ignored) else (p', if sent then ignored else fatal)

module _ {D : Type 0} {j : Jansson} (c : Settings D j) where
  -- The handlers of stratum_method_handlers.
  unfoldable pub handle_method :
      Moment → Method → (id params : Option j.Value) → Peer D j → Peer D j × MessageStatus
  handle_method m notify id params p = reported (handle_notify c m params p)
  handle_method m ping id params p =
      reported (send_reply m id (λ v. text_result v (codes "pong")) p)
  handle_method m set_difficulty id params p = reported (stratum_set_difficulty c params p)
  handle_method m set_target id params p = handle_set_target_method c params p
  handle_method m set_extranonce id params p =
      reported (keep_or_fail (stratum_parse_extranonce c.opt_algo j params 0 p.ctx) p)
  handle_method m reconnect id params p = reported (stratum_reconnect c params p)
  handle_method m get_algo id params p =
      reported (send_reply m id (λ v. text_result v (algo_name c.opt_algo)) p)
  handle_method m get_version id params p =
      reported (send_reply m id (λ v. text_result v user_agent) p)
  handle_method m show_message id params p = reported (stratum_show_message m id params p)

  unfoldable pub stratum_handle_method_value :
      Moment → (method : Bytes) → Option j.Value → Peer D j → Peer D j × MessageStatus
  stratum_handle_method_value m method val p =
      let id = j.json_object_get val (codes "id") in
      elim (find_handler method stratum_method_handlers) [
        | none ↦ unknown_method m id p
        | some handler ↦ handle_method m handler id (j.json_object_get val (codes "params")) p
      ]

  -- Ids below ten are those of the handshake and of keepalives.
  unfoldable pub stratum_handle_response_value :
      Option j.Value → Peer D j → Peer D j × MessageStatus
  unfolding result_view
  stratum_handle_response_value val p =
      elim (stratum_parse_rpc_id j (j.json_object_get val (codes "id"))) [
        | none ↦ (p, fatal)
        | some id ↦ if ltb id 10 then (p, ignored) else (
          record p {
            books =
                stratum_handle_submit_response c.devfee c.num_pools c.opt_n_threads p.ctx.pooln id
                  (result_view j (j.json_object_get val (codes "result"))) p.books;
          },
          ok,
        )
      ]

  unfoldable pub stratum_dispatch_json_message :
      Moment → Option j.Value → Peer D j → Peer D j × MessageStatus
  stratum_dispatch_json_message m val p = elim (string_of j val (codes "method")) [
    | none ↦ stratum_handle_response_value val p
    | some method ↦ stratum_handle_method_value m method val p
  ]
