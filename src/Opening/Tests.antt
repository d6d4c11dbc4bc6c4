-- ===== src/Opening/Tests.antt =====
-- An instance: a login that the pool answers with a session id.
use primo_arm_miner.Prelude.{◌≡◌, refl, true, false, some, [], ◌∷◌, arith, codes}
use primo_arm_miner.Prelude.Int.{pos}
use primo_arm_miner.Json.Sample.{Value, text, integer, object, members}
use primo_arm_miner.DevFee.Targets.{randomx}
use primo_arm_miner.Nonce.{is_randomx}
use primo_arm_miner.Peer.Sample.{settings, peer, moment}
use primo_arm_miner.Rpc.Dropped.{Closed}
use primo_arm_miner.Rpc.Layouts.{SessionFits}
use primo_arm_miner.Handshake.{line, Exchange}
use primo_arm_miner.Opening.{stratum_open_pool_connection}
use primo_arm_miner.Opening.Opened.{LoggedIn, open_pool_connection-Opened}

abbrev reply : Value
reply = object (
    members (
      (codes "id", integer (pos 4))
      ∷ (codes "result", object (members ((codes "id", text (codes "s1")) ∷ [])))
      ∷ []))

abbrev exchange : Exchange Value
exchange = record {
  sent = true;
  start = 5;
  receipts = record { clock = 6; delivery = line (some reply); moment = moment } ∷ [];
}

open_pool_connection-Opened_example :
    let (p', outcome) =
      stratum_open_pool_connection
        (settings randomx)
        false
        exchange
        exchange
        exchange
        exchange
        peer in
    (SessionFits p'.ctx
      × (is_randomx (settings randomx).opt_algo ≡ true
          → outcome ≡ some true
          → LoggedIn (settings randomx) false p'))
    × (outcome ≡ some false → Closed p')
open_pool_connection-Opened_example =
    open_pool_connection-Opened (settings randomx) false exchange exchange exchange exchange peer
      (omega arith, tt, omega arith, refl)
