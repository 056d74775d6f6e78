-- ===== src/Network/Responses.antt =====
-- src/network/mod.rs: the channels of incoming requests.
use dse.Base.{ℕ, ◌≡◌, [], ◌∷◌, Option, some, network_failed, arith}
use dse.Base.Bytes.{Bytes}
use dse.Base.Maps.{get, insert, remove, HasUniqueKeys, get-remove}
use dse.Types.{PeerId}
use dse.Types.Messages.{ExchangeRequest, ExchangeResponse, GossipsubMessage, RequestId}
use dse.Network.{
  Network, Sender, RequestKey-discrete, answer, failed, send_exchange_response, Swarm,
  command_handler, exchange_response,
}
use dse.Network.Events.{exchange, request, swarm_event_handler}

get-insert :
    (n : Network) (k : PeerId × RequestId) (ch : ℕ)
    → get RequestKey-discrete k
        (insert RequestKey-discrete k ch n.exchange_inbound_response_channels)
      ≡ some ch
unfolding get insert
get-insert n k ch = ground arith

remove-insert :
    (n : Network) (k : PeerId × RequestId) (ch : ℕ)
    → remove RequestKey-discrete k
        (insert RequestKey-discrete k ch n.exchange_inbound_response_channels)
      ≡ remove RequestKey-discrete k n.exchange_inbound_response_channels
unfolding insert remove
remove-insert n k ch = ground arith

-- When no two open channels have the same key: after an exchange request came in, the first response to it goes
-- out on the request's channel; a second one changes nothing, and its sender is told of a failure.
pub exchange_response-once :
    (parse : Bytes → Option GossipsubMessage) (w w' : Swarm) (n : Network) (peer : PeerId)
    (id : RequestId) (r : ExchangeRequest) (ch : ℕ) (a b : ExchangeResponse) (s s' : Sender)
    → HasUniqueKeys RequestKey-discrete n.exchange_inbound_response_channels
    → let n1 = (swarm_event_handler parse n (exchange (request peer id r ch))).0 in
      let (n2, out2) = command_handler w n1 (exchange_response peer id a s) in
      let (n3, out3) = command_handler w' n2 (exchange_response peer id b s') in
      (out2 ≡ send_exchange_response ch a ∷ [])
      × (out3 ≡ answer s' (failed network_failed) ∷ [])
      × (n3 ≡ n2)
unfolding swarm_event_handler command_handler
exchange_response-once parse w w' n peer id r ch a b s s' u = ground (
  arith,
  get-insert n (peer, id) ch,
  remove-insert n (peer, id) ch,
  get-remove RequestKey-discrete (peer, id) n.exchange_inbound_response_channels u,
)
