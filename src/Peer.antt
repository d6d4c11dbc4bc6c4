-- ===== src/Peer.antt =====
-- The session with a pool as the handlers of src/stratum_rpc.cpp see it, and those of them that a message
-- names directly, with stratum_get_protocol_ops of src/stratum.cpp. A line that is sent is put in the
-- outbox, and whether it goes out is given. A redirect ends in
-- stratum_disconnect of src/stratum_session.cpp; its URL is handed to the service thread, which follows it.
pub mod Sample
use primo_arm_miner.Prelude.{
  ℕ, Bool, true, false, Option, none, some, List, [], ◌∷◌, ◌++◌, if◌then◌else◌, Bytes, replicate,
}
use primo_arm_miner.Json.{Jansson}
use primo_arm_miner.DevFee.{DevfeeState}
use primo_arm_miner.DevFee.Targets.{Algo}
use primo_arm_miner.Nonce.{is_randomx}
use primo_arm_miner.Prelude.Int.{pos}
use primo_arm_miner.Publish.{RuntimeState, stratum_reset_work_state}
use primo_arm_miner.Submit.{stratum_reset_session_runtime}
use primo_arm_miner.Reply.{Books}
use primo_arm_miner.Job.{StratumCtx, WorkBody, zero_memory, stratum_free_job}
use primo_arm_miner.Extranonce.{speaks_verus}
use primo_arm_miner.Standard.{Targets, stratum_notify_standard}
use primo_arm_miner.Verus.{VerusTargets, verus_stratum_notify, verus_stratum_set_target}
use primo_arm_miner.Monero.{xmr_stratum_handle_job}
use primo_arm_miner.Redirect.{redirect_of}

pub data MessageStatus : Type 0 where
  ok ignored fatal : MessageStatus

abbrev pub status_from_bool : Bool → MessageStatus
status_from_bool true = ok
status_from_bool false = fatal

-- A reply that is sent, with the id that it answers.
pub data Sent (V : Type 0) : Type 0 where
  text_result : V → Bytes → Sent V
  true_result : V → Sent V
  method_error : V → Sent V

-- What the code asks of the machine, of the options and of what is computed in floating point.
pub record Settings (D : Type 0) (j : Jansson) : Type 0 where
  pub opt_algo : Algo
  pub opt_n_threads : ℕ
  pub num_pools : ℕ
  pub use_tls : Bool
  -- The difficulty whose bytes are zero, and 1.0.
  pub zero : D
  pub one : D
  pub devfee : DevfeeState
  pub json_number_value : Option j.Value → D
  pub is_positive : D → Bool
  pub sha256d_neon : Bytes → Bytes
  pub targets : Targets D
  pub verus_targets : VerusTargets D
  pub diff_of_target : ℕ → D

-- The session with a pool, and what a message can reach beside it.
pub record Peer (D : Type 0) (j : Jansson) : Type 0 where
  pub ctx : StratumCtx D
  pub runtime : RuntimeState (WorkBody D)
  pub books : Books D
  pub outbox : List (Sent j.Value)
  pub redirect : Option Bytes

-- What differs from message to message: the clock, and whether a reply can be sent.
pub record Moment : Type 0 where
  pub now : ℕ
  pub sends : Bool

-- The rest of a work, zeroed.
abbrev pub zero_body : {D : Type 0} → D → WorkBody D
zero_body zero_diff = record {
  bytes = zero_memory;
  xnonce2 = [];
  targetdiff = zero_diff;
  solution = [];
  rx_blob_len = 0;
  rx_nonce_mask = 0;
}

module _ {D : Type 0} {j : Jansson} where
  -- An id that is missing or null cannot be answered.
  unfoldable pub send_reply :
      Moment → Option j.Value → (j.Value → Sent j.Value) → Peer D j → Peer D j × Bool
  send_reply m none reply p = (p, false)
  send_reply m (some id) reply p =
      if j.json_is_null (some id)
      then (p, false)
      else (record p { outbox = p.outbox ++ reply id ∷ [] }, m.sends)

  abbrev pub set_ctx : StratumCtx D → Peer D j → Peer D j
  set_ctx ctx p = record p { ctx = ctx }

  -- Either the new session, or failure with the old one.
  abbrev pub keep_or_fail : Option (StratumCtx D) → Peer D j → Peer D j × Bool
  keep_or_fail none p = (p, false)
  keep_or_fail (some ctx) p = (set_ctx ctx p, true)

module _ {D : Type 0} {j : Jansson} (c : Settings D j) where
  -- handle_notify of the protocol that stratum_get_protocol_ops finds.
  unfoldable pub handle_notify : Moment → Option j.Value → Peer D j → Peer D j × Bool
  handle_notify m params p =
      let (ctx, runtime, result) =
        if speaks_verus c.opt_algo p.ctx
        then verus_stratum_notify c.verus_targets j m.now params p.ctx p.runtime
        else if is_randomx c.opt_algo
        then xmr_stratum_handle_job c.diff_of_target j params p.ctx p.runtime
        else stratum_notify_standard c.sha256d_neon c.targets c.opt_algo j m.now params p.ctx
            p.runtime in
      (record p { ctx = ctx; runtime = runtime }, result)

  unfoldable pub stratum_set_difficulty : Option j.Value → Peer D j → Peer D j × Bool
  stratum_set_difficulty params p =
      let diff = c.json_number_value (j.json_array_get params 0) in
      if c.is_positive diff
      then (set_ctx (record p.ctx { next_diff = diff }) p, true)
      else (p, false)

  -- Only Verus has a handler; the session is taken for Verus once the target is valid.
  unfoldable pub handle_set_target_method : Option j.Value → Peer D j → Peer D j × MessageStatus
  handle_set_target_method params p =
      if speaks_verus c.opt_algo p.ctx
      then elim (verus_stratum_set_target c.verus_targets j params p.ctx) [
        | none ↦ (p, fatal)
        | some ctx ↦ (set_ctx (record ctx { is_verus_protocol = true }) p, ok)
      ]
      else (p, ignored)

  -- The connection is closed; the published work, the job and the table of shares are emptied, and the
  -- session is as at its start but for its id, its extra nonces and its dialect.
  unfoldable pub stratum_disconnect : Peer D j → Peer D j
  unfolding stratum_free_job stratum_reset_work_state stratum_reset_session_runtime
  stratum_disconnect p = record p {
    runtime = stratum_reset_work_state (zero_body c.zero) p.runtime;
    ctx = record (stratum_free_job c.zero (λ size. replicate size 0) p.ctx) {
      next_diff = c.one;
      srvtime_diff = pos 0;
      authenticated = false;
    };
    books = record p.books {
      submits = record (stratum_reset_session_runtime c.zero p.books.submits) { connected = false };
    };
  }

  abbrev pub note_redirect : Bytes → Peer D j → Peer D j
  note_redirect url p = record p {
    redirect = some url;
    books = record p.books { submits = record p.books.submits { reconnect_requested = true } };
  }

  -- The new URL, of the session and of its pool, is `redirect`.
  unfoldable pub stratum_reconnect : Option j.Value → Peer D j → Peer D j × Bool
  unfolding stratum_disconnect
  stratum_reconnect params p = elim (redirect_of j c.use_tls params) [
    | none ↦ (p, false)
    | some url ↦ (stratum_disconnect (note_redirect url p), true)
  ]
