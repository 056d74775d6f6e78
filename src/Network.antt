-- ===== src/Network.antt =====
-- src/network/mod.rs: the task that owns the swarm. It serves commands, each with a one-shot sender
-- for its answer, and turns the swarm's events into answers and network events. A sender is a
-- number; the swarm's answers to calls, and its events, are arguments.
pub mod Events
pub mod Senders
pub mod Answers
pub mod Responses
pub mod Runs
pub mod Channels
pub mod Startup
pub mod RequestResponse
use dse.Base.{
  ℕ, Bool, true, false, List, [], ◌∷◌, ◌++◌, Option, none, some, ◌==◌, if◌then◌else◌, Result, ok,
  err, panic, Error, network_failed, String, ℕ_discrete,
}
use dse.Base.Bytes.{Bytes, Bytes-discrete, codes}
use dse.Base.Maps.{get, insert, remove}
use dse.Types.{PeerId, Multiaddr}
use dse.Types.Messages.{
  ExchangeRequest, ExchangeResponse, CommitRequest, CommitResponse, GossipsubMessage, new_query,
  gossip_commit, gossip_invalidating_signature, RequestId, NetworkEvent, gossipsub_message_recv,
  exchange_request, commit_request,
}

abbrev pub Sender : Type 0
Sender = ℕ

abbrev pub KadId : Type 0
KadId = ℕ

-- The key of a request: the peer and the request's id.
abbrev pub RequestKey : Type 0
RequestKey = PeerId × RequestId

unfoldable pub RequestKey-discrete : Discrete RequestKey
unfolding Bytes-discrete ℕ_discrete
RequestKey-discrete = hlevel (Bytes-discrete, ℕ_discrete)

pub record Network : Type 0 where
  pub peer_id : PeerId
  pub node_address : Option Multiaddr
  pub pending_dht_put_requests : List (KadId × Sender)
  pub pending_dht_start_providing_requests : List (KadId × Sender)
  pub pending_dht_get_requests : List (KadId × Sender)
  pub pending_dht_get_providers_requests : List (KadId × Sender)
  pub pending_bootstrap_requests : List (KadId × Sender)
  pub pending_exchange_outbound_requests : List (RequestKey × Sender)
  pub pending_commit_outbound_requests : List (RequestKey × Sender)
  pub pending_exchange_inbound_response : List (RequestKey × Sender)
  pub pending_commit_inbound_response : List (RequestKey × Sender)
  pub exchange_inbound_response_channels : List (RequestKey × ℕ)
  pub commit_inbound_response_channels : List (RequestKey × ℕ)
  pub known_peers : List PeerId

-- What a sender may be sent. The swarm's own records stay bytes.
pub data Answer : Type 0 where
  done : Answer
  record_ok : Bytes → Answer
  providers : List PeerId → Answer
  message_id : Bytes → Answer
  exchange_answer : ExchangeResponse → Answer
  commit_answer : CommitResponse → Answer
  details : PeerId → Multiaddr → Answer
  subscribed : Answer
  failed : Error → Answer

pub data Topic : Type 0 where
  query_topic commit_topic invalidating_signature_topic : Topic

-- `GossipsubTopic::from_message`.
abbrev pub topic : GossipsubMessage → Topic
topic (new_query q) = query_topic
topic (gossip_commit c id) = commit_topic
topic (gossip_invalidating_signature id p r g) = invalidating_signature_topic

-- `GossipsubTopic::ident_topic`.
abbrev pub ident_topic : Topic → Bytes
ident_topic query_topic = codes "Query"
ident_topic commit_topic = codes "Commit"
ident_topic invalidating_signature_topic = codes "InvalidatingSignature"

-- `GossipsubMessage::topic`.
abbrev pub message_topic : GossipsubMessage → Bytes
message_topic m = ident_topic (topic m)

-- What the task does besides changing its state.
pub data Output : Type 0 where
  answer : Sender → Answer → Output
  emit : NetworkEvent → Output
  add_kad_address : PeerId → Multiaddr → Output
  add_exchange_address : PeerId → Multiaddr → Output
  dial : Multiaddr → Output
  publish : Bytes → GossipsubMessage → Output
  send_exchange_response : ℕ → ExchangeResponse → Output
  send_commit_response : ℕ → CommitResponse → Output
  send_exchange_request : PeerId → ExchangeRequest → Output
  send_commit_request : PeerId → CommitRequest → Output

pub data Command : Type 0 where
  start_listening : Multiaddr → Sender → Command
  add_kad_peer : PeerId → Multiaddr → Sender → Command
  add_request_response_peer : PeerId → Multiaddr → Sender → Command
  dht_put : Bytes → Sender → Command
  dht_start_providing : Bytes → Sender → Command
  dht_get : Bytes → Sender → Command
  dht_get_providers : Bytes → Sender → Command
  bootstrap : Sender → Command
  publish_message : GossipsubMessage → Sender → Command
  exchange_response : PeerId → RequestId → ExchangeResponse → Sender → Command
  exchange_request_to : PeerId → ExchangeRequest → Sender → Command
  commit_response : PeerId → RequestId → CommitResponse → Sender → Command
  commit_request_to : PeerId → CommitRequest → Sender → Command
  network_details : Sender → Command
  subscribe_network_events : Sender → Command

-- What the swarm answers to the call that a command makes.
pub record Swarm : Type 0 where
  pub listen_on : Result (Unit {0})
  pub put_record : Result KadId
  pub start_providing : Result KadId
  pub get_record : KadId
  pub get_providers : KadId
  pub start_bootstrap : Result KadId
  pub publication : Result Bytes
  pub exchange_id : RequestId
  pub commit_id : RequestId

abbrev pub error_of {ℓ} : {A : Type ℓ} → Result A → Error
error_of (err x) = x
error_of _ = network_failed

-- A Kademlia call that yields a query id keeps the sender; one that fails answers it.
abbrev pub or_answer : Result KadId → Sender → (KadId → Network) → Network → Network × List Output
or_answer (ok id) sender keep n = (keep id, [])
or_answer r sender keep n = (n, answer sender (failed (error_of r)) ∷ [])

abbrev pub listened : Result (Unit {0}) → Answer
listened (ok _) = done
listened r = failed (error_of r)

abbrev pub publication_answer : Result Bytes → Answer
publication_answer (ok id) = message_id id
publication_answer r = failed (error_of r)

abbrev pub details_answer : PeerId → Option Multiaddr → Answer
details_answer p (some a) = details p a
details_answer p none = failed network_failed

-- A response needs the channel of its request, and uses it up.
unfoldable pub on_exchange_response :
    Network → PeerId → RequestId → ExchangeResponse → Sender → Network × List Output
on_exchange_response n peer id response sender =
    elim (get RequestKey-discrete (peer, id) n.exchange_inbound_response_channels) [
      | some channel ↦ (
        record n {
          exchange_inbound_response_channels =
              remove RequestKey-discrete (peer, id) n.exchange_inbound_response_channels;
          pending_exchange_inbound_response =
              insert RequestKey-discrete (peer, id) sender n.pending_exchange_inbound_response;
        },
        send_exchange_response channel response ∷ [],
      )
      | none ↦ (n, answer sender (failed network_failed) ∷ [])
    ]

unfoldable pub on_commit_response :
    Network → PeerId → RequestId → CommitResponse → Sender → Network × List Output
on_commit_response n peer id response sender =
    elim (get RequestKey-discrete (peer, id) n.commit_inbound_response_channels) [
      | some channel ↦ (
        record n {
          commit_inbound_response_channels =
              remove RequestKey-discrete (peer, id) n.commit_inbound_response_channels;
          pending_commit_inbound_response =
              insert RequestKey-discrete (peer, id) sender n.pending_commit_inbound_response;
        },
        send_commit_response channel response ∷ [],
      )
      | none ↦ (n, answer sender (failed network_failed) ∷ [])
    ]

-- The sender waits under the id that the swarm gives to the request.
abbrev pub on_commit_request :
    Network → RequestId → PeerId → CommitRequest → Sender → Network × List Output
on_commit_request n id peer request sender = (
  record n {
    pending_commit_outbound_requests =
        insert RequestKey-discrete (peer, id) sender n.pending_commit_outbound_requests;
  },
  send_commit_request peer request ∷ [],
)

unfoldable pub command_handler : Swarm → Network → Command → Network × List Output
unfolding on_exchange_response on_commit_response
command_handler w n (start_listening addr sender) = (n, answer sender (listened w.listen_on) ∷ [])
command_handler w n (add_kad_peer peer addr sender) =
    (n, add_kad_address peer addr ∷ answer sender done ∷ [])
command_handler w n (add_request_response_peer peer addr sender) =
    (n, add_exchange_address peer addr ∷ answer sender done ∷ [])
command_handler w n (dht_put r sender) =
    or_answer w.put_record sender
      (λ id. record n {
        pending_dht_put_requests = insert ℕ_discrete id sender n.pending_dht_put_requests;
      })
      n
command_handler w n (dht_start_providing key sender) =
    or_answer w.start_providing sender
      (λ id. record n {
        pending_dht_start_providing_requests =
            insert ℕ_discrete id sender n.pending_dht_start_providing_requests;
      })
      n
command_handler w n (dht_get key sender) = (
  record n {
    pending_dht_get_requests = insert ℕ_discrete w.get_record sender n.pending_dht_get_requests;
  },
  [],
)
command_handler w n (dht_get_providers key sender) = (
  record n {
    pending_dht_get_providers_requests =
        insert ℕ_discrete w.get_providers sender n.pending_dht_get_providers_requests;
  },
  [],
)
command_handler w n (bootstrap sender) =
    or_answer w.start_bootstrap sender
      (λ id. record n {
        pending_bootstrap_requests = insert ℕ_discrete id sender n.pending_bootstrap_requests;
      })
      n
command_handler w n (publish_message m sender) =
    (n, publish (message_topic m) m ∷ answer sender (publication_answer w.publication) ∷ [])
command_handler w n (exchange_response peer id response sender) =
    on_exchange_response n peer id response sender
command_handler w n (exchange_request_to peer request sender) = (
  record n {
    pending_exchange_outbound_requests =
        insert RequestKey-discrete (peer, w.exchange_id) sender
          n.pending_exchange_outbound_requests;
  },
  send_exchange_request peer request ∷ [],
)
command_handler w n (commit_response peer id response sender) =
    on_commit_response n peer id response sender
command_handler w n (commit_request_to peer request sender) =
    on_commit_request n w.commit_id peer request sender
command_handler w n (network_details sender) =
    (n, answer sender (details_answer n.peer_id n.node_address) ∷ [])
command_handler w n (subscribe_network_events sender) = (n, answer sender subscribed ∷ [])
