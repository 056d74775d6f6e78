-- ===== src/Server/Sockets.antt =====
-- src/server.rs: the clients on websockets. The tasks of all connections run in any order and share
-- the counter of src/storage.rs and the channel of server events.
pub mod Order
use dse.Base.{
  ℕ, zero, suc, ◌+◌, ◌%◌, ◌^◌, ◌<◌, ◌≤◌, ◌≡◌, refl, Bool, true, false, not, List, [], ◌∷◌, ◌++◌,
  Option, none, some, Result, ok, err, panic, ◌==◌, if◌then◌else◌, arith, length, subst, ap, sym,
  ◌∙◌,
}
use dse.Base.Bytes.{Bytes}
use dse.Storage.{next_client_id}
use dse.Server.{ReceivedMessage}

-- The sender of a new client's messages is not modelled: nothing reads the event that carries it.
pub data ServerEvent : Type 0 where
  new_ws_client : ℕ → ServerEvent
  new_ws_message : ℕ → Bytes → ServerEvent
  received_message : ReceivedMessage → ServerEvent

-- The task of a connection: its client id, and whether it has announced itself.
abbrev pub Connection : Type 0
Connection = ℕ × Bool

-- What happens next: a connection is upgraded and takes its id, or the task at a place of the list
-- goes on, with what its socket yields if it is past its announcement.
pub data Turn : Type 0 where
  upgrade : Turn
  proceed : ℕ → Option (Result Bytes) → Turn

-- An error and the end of the socket are ignored, and the loop goes on.
unfoldable pub on_socket : ℕ → Option (Result Bytes) → List ServerEvent
on_socket id (some (ok m)) = new_ws_message id m ∷ []
on_socket id _ = []

unfoldable pub proceed_at :
    ℕ → Option (Result Bytes) → List Connection → List Connection × List ServerEvent
unfolding on_socket
proceed_at i out [] = ([], [])
proceed_at zero out ((id, false) ∷ cs) = ((id, true) ∷ cs, new_ws_client id ∷ [])
proceed_at zero out ((id, true) ∷ cs) = ((id, true) ∷ cs, on_socket id out)
proceed_at (suc i) out (c ∷ cs) = let (cs', events) = proceed_at i out cs in (c ∷ cs', events)

-- The counter, the connections with the newest first, and the turns.
unfoldable pub ws_connection_established :
    ℕ → List Connection → List Turn → List Connection × List ServerEvent
unfolding next_client_id proceed_at
ws_connection_established counter cs [] = (cs, [])
ws_connection_established counter cs (upgrade ∷ turns) =
    let (id, counter') = next_client_id counter in
    ws_connection_established counter' ((id, false) ∷ cs) turns
ws_connection_established counter cs (proceed i out ∷ turns) =
    let (cs', now) = proceed_at i out cs in
    let (cs'', later) = ws_connection_established counter cs' turns in (cs'', now ++ later)
