-- ===== src/Handshake/Tests.antt =====
-- An instance: a wait that meets the reply in its second turn.
use primo_arm_miner.Prelude.{some, List, [], ◌∷◌, codes}
use primo_arm_miner.Prelude.Int.{pos}
use primo_arm_miner.Json.Sample.{Value, integer, truth, object, members}
use primo_arm_miner.DevFee.Targets.{sha256d}
use primo_arm_miner.Peer.Sample.{settings, peer, moment}
use primo_arm_miner.Handshake.{Receipt, line, stratum_wait_for_response}
use primo_arm_miner.Handshake.Waiting.{Waited, stratum_wait_for_response_lem}

abbrev reply : Value
reply = object (members ((codes "id", integer (pos 2)) ∷ (codes "result", truth) ∷ []))

abbrev other : Value
other = object (members ((codes "id", integer (pos 3)) ∷ []))

abbrev receipts : List (Receipt Value)
receipts =
    record { clock = 5; delivery = line (some other); moment = moment }
    ∷ record { clock = 6; delivery = line (some reply); moment = moment }
    ∷ []

stratum_wait_for_response_lem_example :
    let (p', outcome) = stratum_wait_for_response (settings sha256d) 2 (some 35) receipts peer in
    Waited (settings sha256d) 2 (some 35) receipts peer p' outcome
stratum_wait_for_response_lem_example =
    stratum_wait_for_response_lem (settings sha256d) 2 (some 35) receipts peer
