-- ===== src/NetworkClient/Exchanges.antt =====
-- src/network_client.rs, src/network/mod.rs and src/indexer.rs: an exchange request from the client
-- of one node, over both network tasks, to the indexer of the other node, and back.
pub mod Rounds
use dse.Base.{
  ℕ, Bool, true, false, List, [], ◌∷◌, ◌++◌, Option, none, some, if◌then◌else◌, ◌==◌, ◌&&◌, Result,
  ok, err, panic, ◌>>=◌, network_failed,
}
use dse.Base.Bytes.{Bytes, bytes_eq}
use dse.Types.{PeerId}
use dse.Types.Messages.{
  ExchangeRequest, ExchangeResponse, GossipsubMessage, RequestId, NetworkEvent, exchange_request,
}
use dse.Backend.{Backend}
use dse.Network.{Network, Sender, Output, emit, Swarm, command_handler}
use dse.Network as network
use dse.Network.Events.{
  RequestEvent, exchange, request, response, outbound_failure, swarm_event_handler,
}
use dse.Indexer.{Effect, respond, handle_network_event}
use dse.NetworkClient.{Call, send_exchange_request, send_exchange_response, answer_for, await}

-- The network event that a task emits.
unfoldable pub emitted_event : List Output → Option NetworkEvent
emitted_event [] = none
emitted_event (emit ev ∷ out) = some ev
emitted_event (_ ∷ out) = emitted_event out

-- The response that an indexer gives to a request.
unfoldable pub response_to : PeerId → RequestId → List Effect → Option ExchangeResponse
response_to p id [] = none
response_to p id (respond q i r ∷ effects) =
    if bytes_eq q p && i == id then some r else response_to p id effects
response_to p id (_ ∷ effects) = response_to p id effects

-- The response that a task puts on a channel.
unfoldable pub sent_response : List Output → Option ExchangeResponse
sent_response [] = none
sent_response (network.send_exchange_response ch r ∷ out) = some r
sent_response (_ ∷ out) = sent_response out

unfoldable pub sent_request : List Output → Option (PeerId × ExchangeRequest)
sent_request [] = none
sent_request (network.send_exchange_request p r ∷ out) = some (p, r)
sent_request (_ ∷ out) = sent_request out

-- The two nodes of an exchange: what each network task keeps, what its swarm answers next, and the
-- sender that its client makes. The answering side gives the request an id and a channel.
pub record Ends : Type 0 where
  pub asker : PeerId
  pub asking : Network
  pub asking_swarm : Swarm
  pub asking_sender : Sender
  pub answerer : PeerId
  pub serving : Network
  pub serving_swarm : Swarm
  pub serving_sender : Sender
  pub inbound_id : RequestId
  pub channel : ℕ

-- The client's command at the asking task.
unfoldable pub ask : Ends → ExchangeRequest → Network × List Output
unfolding send_exchange_request
ask x r =
    command_handler x.asking_swarm x.asking
      ((send_exchange_request x.answerer r).to_command x.asking_sender)

-- What the asking task learns: the response, or a failure if there is none.
abbrev pub outcome : Ends → Option ExchangeResponse → RequestEvent ExchangeRequest ExchangeResponse
outcome x none = outbound_failure x.answerer x.asking_swarm.exchange_id network_failed
outcome x (some r) = response x.answerer x.asking_swarm.exchange_id r

module _ (parse : Bytes → Option GossipsubMessage) where
  -- The request comes in at the answering task.
  unfoldable pub arrive : Ends → ExchangeRequest → Network × List Output
  arrive x r =
      swarm_event_handler parse x.serving (exchange (request x.asker x.inbound_id r x.channel))

  -- The answering client's command, if the indexer responds.
  abbrev pub reply : Ends → Network → Option ExchangeResponse → Option ExchangeResponse
  reply x n none = none
  reply x n (some r) =
      sent_response
        (command_handler x.serving_swarm n
          ((send_exchange_response x.asker x.inbound_id r).to_command x.serving_sender)).1

  -- What the asking client gets in the end, if its call ends.
  unfoldable pub finish :
      Ends
      → ExchangeRequest
      → Network
      → List Output
      → Option ExchangeResponse
      → Option (Result ExchangeResponse)
  finish x r n out o =
      let (n', later) = swarm_event_handler parse n (exchange (outcome x o)) in
      await (send_exchange_request x.answerer r) (answer_for x.asking_sender n' (out ++ later))

  module _ ⦃e : Backend⦄ where
    abbrev pub serve :
        e.Db
        → Ends
        → Network
        → Option NetworkEvent
        → Result (e.Db × List Effect × Option ExchangeResponse)
    serve d x n none = ok (d, [], none)
    serve d x n (some ev) = handle_network_event d ev >>= λ (d', effects).
        ok (d', effects, reply x n (response_to x.asker x.inbound_id effects))

    -- The asking task has made some outputs, perhaps with a request.
    abbrev pub deliver :
        e.Db
        → Ends
        → ExchangeRequest
        → Network
        → List Output
        → Option (PeerId × ExchangeRequest)
        → Result (Option (Result ExchangeResponse) × e.Db × List Effect)
    deliver d x r n out none =
        ok (await (send_exchange_request x.answerer r) (answer_for x.asking_sender n out), d, [])
    deliver d x r n out (some (p, sent)) =
        let (n', arrived) = arrive x sent in
        serve d x n' (emitted_event arrived) >>= λ (d', effects, o).
        ok (finish x r n out o, d', effects)

    -- What the asking client gets, or nothing if its call does not end; and what the answering
    -- indexer is left with and sets going.
    unfoldable pub exchange_round :
        e.Db
        → Ends
        → ExchangeRequest
        → Result (Option (Result ExchangeResponse) × e.Db × List Effect)
    unfolding ask arrive finish answer_for await
    exchange_round d x r = let (n, out) = ask x r in deliver d x r n out (sent_request out)
