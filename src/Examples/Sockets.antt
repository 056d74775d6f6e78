-- ===== src/Examples/Sockets.antt =====
-- Two clients on websockets, whose tasks run in turns.
use dse.Base.{◌≡◌, false, Bool, List, [], ◌∷◌, none, some, ok, err, network_failed, length, arith}
use dse.Storage.{client_id_counter}
use dse.Server.Sockets.{Turn, upgrade, proceed, ws_connection_established}
use dse.Server.Sockets.Order.{follow, upgrades, ws_connection_established_lem}

abbrev turns : List Turn
turns =
    upgrade
    ∷ upgrade
    ∷ proceed 0 none
    ∷ proceed 0 (some (ok (7 ∷ [])))
    ∷ proceed 1 none
    ∷ proceed 0 none
    ∷ proceed 1 (some (err network_failed))
    ∷ proceed 1 (some (ok (8 ∷ [])))
    ∷ []

ws_connection_established_example :
    ((known : Bool) × (follow 1
          (some false)
          (ws_connection_established client_id_counter [] turns).1
        ≡ some known))
    × (length (ws_connection_established client_id_counter [] turns).0 ≡ upgrades turns)
ws_connection_established_example = ws_connection_established_lem turns 1 (omega arith)
