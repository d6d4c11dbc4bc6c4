-- ===== src/Rpc/Tests.antt =====
-- Instances of the theorems on messages: a pool that sends new extra nonces, then a job.
use primo_arm_miner.Prelude.{
  ℕ, ◌≤◌, ◌≡◌, refl, true, Option, none, some, List, [], ◌∷◌, arith, codes, replicate, length,
}
use primo_arm_miner.Prelude.Int.{pos}
use primo_arm_miner.Json.Sample.{
  Value, text, integer, array, object, truth, null, nil, items, members,
}
use primo_arm_miner.DevFee.Targets.{sha256d}
use primo_arm_miner.Job.{StratumCtx}
use primo_arm_miner.Standard.{StandardNotify, apply_standard_job_locked, coinbase_prealloc}
use primo_arm_miner.Peer.{Moment}
use primo_arm_miner.Peer.Sample.{settings, session, peer, moment}
use primo_arm_miner.Rpc.{stratum_dispatch_json_message}
use primo_arm_miner.Rpc.Layouts.{SessionFits}
use primo_arm_miner.Rpc.Buffers.{after_messages, messages-SessionFits, next_coinbase-le}
use primo_arm_miner.Prelude.Memory.{le32dec}
use primo_arm_miner.Hex.{decode_hex_nibble}
use primo_arm_miner.Hex.{decode_pair}
use primo_arm_miner.Hex.{hex2bin}
use primo_arm_miner.Job.{stratum_check_job_id_length}
use primo_arm_miner.Job.{raw_time}
use primo_arm_miner.Job.{stratum_update_time_offset}
use primo_arm_miner.Job.{stratum_commit_job_update}
use primo_arm_miner.Job.{decode_branches}
use primo_arm_miner.Job.{stratum_decode_merkle_array}
use primo_arm_miner.RpcId.{stratum_parse_rpc_id}
use primo_arm_miner.Extranonce.{spelled_size}
use primo_arm_miner.Extranonce.{xnonce2_size_of}
use primo_arm_miner.Extranonce.{layout_ok}
use primo_arm_miner.Extranonce.{stratum_set_extranonce}
use primo_arm_miner.Extranonce.{stratum_parse_extranonce}
use primo_arm_miner.Coinbase.{get_block_height}
use primo_arm_miner.Standard.{parse_standard_notify}
use primo_arm_miner.Standard.{stratum_notify_standard}
use primo_arm_miner.Peer.{handle_notify}
use primo_arm_miner.Rpc.{find_handler}
use primo_arm_miner.Rpc.{handle_method}
use primo_arm_miner.Rpc.{stratum_handle_method_value}
use primo_arm_miner.Rpc.{stratum_handle_response_value}

abbrev set_extranonce_message : Value
set_extranonce_message = object (
    members (
      (codes "id", null)
      ∷ (codes "method", text (codes "mining.set_extranonce"))
      ∷ (codes "params", array (items (text (codes "a0b0c0d0e0") ∷ integer (pos 6) ∷ [])))
      ∷ []))

abbrev notify_message : Value
notify_message = object (
    members (
      (codes "method", text (codes "mining.notify"))
      ∷ (
        codes "params",
        array (
            items (
              text (codes "j7")
              ∷ text (replicate 64 b'a')
              ∷ text (codes "01")
              ∷ text (codes "02ff")
              ∷ array nil
              ∷ text (codes "20000000")
              ∷ text (codes "1d00ffff")
              ∷ text (codes "60000000")
              ∷ truth
              ∷ [])),
      )
      ∷ []))

abbrev messages : List (Moment × Option Value)
messages =
    (moment, some set_extranonce_message) ∷ (moment, some notify_message) ∷ (moment, none) ∷ []

-- The job comes with the extra nonces of the message before it.
new_job : (after_messages (settings sha256d) messages peer).ctx.job.job_id ≡ some (codes "j7")
unfolding le32dec decode_hex_nibble decode_pair hex2bin stratum_check_job_id_length raw_time
    stratum_update_time_offset stratum_commit_job_update decode_branches stratum_decode_merkle_array
    stratum_parse_rpc_id spelled_size xnonce2_size_of layout_ok stratum_set_extranonce
    stratum_parse_extranonce get_block_height parse_standard_notify apply_standard_job_locked
    stratum_notify_standard handle_notify find_handler handle_method stratum_handle_method_value
    stratum_handle_response_value stratum_dispatch_json_message
new_job = refl

session-SessionFits : SessionFits session
session-SessionFits = (omega arith, tt, omega arith, refl)

messages-SessionFits_example : SessionFits (after_messages (settings sha256d) messages peer).ctx
messages-SessionFits_example =
    messages-SessionFits (settings sha256d) messages peer session-SessionFits

abbrev msg : StandardNotify Value
msg = record {
  job_id = codes "j7";
  prevhash = replicate 64 b'a';
  coinb1 = codes "01";
  coinb2 = codes "02ff";
  merkle_arr = none;
  version = codes "20000000";
  nbits = codes "1d00ffff";
  stime = codes "60000000";
  clean = true;
}

abbrev next : StratumCtx ℕ
next = elim (apply_standard_job_locked msg [] session) [ none ↦ session | some s ↦ s ]

next_coinbase-le_example : length next.job.coinbase ≤ coinbase_prealloc msg.coinb1 msg.coinb2
unfolding apply_standard_job_locked get_block_height hex2bin decode_pair decode_hex_nibble le32dec
next_coinbase-le_example =
    next_coinbase-le (settings sha256d) [] peer msg [] next session-SessionFits refl
