-- ===== src/Network/Events.antt =====
-- src/network/mod.rs: the swarm's events.
use dse.Base.{
  ℕ, Bool, true, false, List, [], ◌∷◌, Option, none, some, ◌==◌, if◌then◌else◌, Result, ok, Error,
  decode_failed, ℕ_discrete,
}
use dse.Base.Bytes.{Bytes, bytes_eq}
use dse.Base.Maps.{get, insert, remove}
use dse.Types.{PeerId, Multiaddr}
use dse.Types.Messages.{
  ExchangeRequest, ExchangeResponse, CommitRequest, CommitResponse, GossipsubMessage, RequestId,
  gossipsub_message_recv, exchange_request, commit_request,
}
use dse.Network.{
  Network, Sender, KadId, RequestKey, RequestKey-discrete, Answer, done, record_ok, providers,
  exchange_answer, commit_answer, failed, Output, answer, emit, add_kad_address, dial, error_of,
}

pub data QueryResult : Type 0 where
  put_record : Result Bytes → QueryResult
  get_record : Result Bytes → QueryResult
  -- The number of peers that remain.
  bootstrap_ok : ℕ → QueryResult
  bootstrap_timeout : Option ℕ → QueryResult
  start_providing : Result Bytes → QueryResult
  get_providers : Result (List PeerId) → QueryResult
  other_result : QueryResult

-- `RequestResponseEvent`; a request comes with the channel of its response.
pub data RequestEvent (Req Res : Type 0) : Type 0 where
  request : PeerId → RequestId → Req → ℕ → RequestEvent Req Res
  response : PeerId → RequestId → Res → RequestEvent Req Res
  response_sent : PeerId → RequestId → RequestEvent Req Res
  outbound_failure : PeerId → RequestId → Error → RequestEvent Req Res
  inbound_failure : PeerId → RequestId → Error → RequestEvent Req Res

-- A message of the gossip network: its source, if it has one, and its text.
pub record RawMessage : Type 0 where
  pub source : Option PeerId
  pub text : Bytes

pub data SwarmEvent : Type 0 where
  mdns_discovered : List (PeerId × Multiaddr) → SwarmEvent
  mdns_expired : SwarmEvent
  query_completed : KadId → QueryResult → SwarmEvent
  gossip : RawMessage → SwarmEvent
  exchange : RequestEvent ExchangeRequest ExchangeResponse → SwarmEvent
  commits : RequestEvent CommitRequest CommitResponse → SwarmEvent
  -- The address to send back to, if the other side dialled.
  connection_established : PeerId → Option Multiaddr → SwarmEvent
  new_listen_addr : Multiaddr → SwarmEvent
  other_event : SwarmEvent

-- `TryFrom<gossipsub::GossipsubMessage>`; `parse` is `serde_json::from_slice`.
abbrev pub try_from : (Bytes → Option GossipsubMessage) → RawMessage → Option GossipsubMessage
try_from parse m = elim m.source [ none ↦ none | some peer ↦ parse m.text ]

-- A sender that is found is answered; a missing one is only logged.
abbrev pub answer_to : Option Sender → Answer → List Output
answer_to none a = []
answer_to (some sender) a = answer sender a ∷ []

abbrev pub record_answer : Result Bytes → Answer
record_answer (ok r) = record_ok r
record_answer r = failed (error_of r)

abbrev pub providers_answer : Result (List PeerId) → Answer
providers_answer (ok ps) = providers ps
providers_answer r = failed (error_of r)

abbrev pub is_over : Option ℕ → Bool
is_over none = true
is_over (some n) = n == 0

unfoldable pub settle_bootstrap : Network → KadId → Answer → Network × List Output
settle_bootstrap n id a = (
  record n { pending_bootstrap_requests = remove ℕ_discrete id n.pending_bootstrap_requests },
  answer_to (get ℕ_discrete id n.pending_bootstrap_requests) a,
)

unfoldable pub on_query_completed : Network → KadId → QueryResult → Network × List Output
unfolding settle_bootstrap
on_query_completed n id (put_record r) = (
  record n { pending_dht_put_requests = remove ℕ_discrete id n.pending_dht_put_requests },
  answer_to (get ℕ_discrete id n.pending_dht_put_requests) (record_answer r),
)
on_query_completed n id (get_record r) = (
  record n { pending_dht_get_requests = remove ℕ_discrete id n.pending_dht_get_requests },
  answer_to (get ℕ_discrete id n.pending_dht_get_requests) (record_answer r),
)
on_query_completed n id (bootstrap_ok remaining) =
    if remaining == 0 then settle_bootstrap n id done else (n, [])
on_query_completed n id (bootstrap_timeout remaining) =
    if is_over remaining then settle_bootstrap n id (failed decode_failed) else (n, [])
on_query_completed n id (start_providing r) = (
  record n {
    pending_dht_start_providing_requests =
        remove ℕ_discrete id n.pending_dht_start_providing_requests;
  },
  answer_to (get ℕ_discrete id n.pending_dht_start_providing_requests) (record_answer r),
)
on_query_completed n id (get_providers r) = (
  record n {
    pending_dht_get_providers_requests = remove ℕ_discrete id n.pending_dht_get_providers_requests;
  },
  answer_to (get ℕ_discrete id n.pending_dht_get_providers_requests) (providers_answer r),
)
on_query_completed n id other_result = (n, [])

unfoldable pub settle_exchange_request : Network → RequestKey → Answer → Network × List Output
settle_exchange_request n k a = (
  record n {
    pending_exchange_outbound_requests =
        remove RequestKey-discrete k n.pending_exchange_outbound_requests;
  },
  answer_to (get RequestKey-discrete k n.pending_exchange_outbound_requests) a,
)

unfoldable pub settle_exchange_response : Network → RequestKey → Answer → Network × List Output
settle_exchange_response n k a = (
  record n {
    pending_exchange_inbound_response =
        remove RequestKey-discrete k n.pending_exchange_inbound_response;
  },
  answer_to (get RequestKey-discrete k n.pending_exchange_inbound_response) a,
)

unfoldable pub on_exchange_event :
    Network → RequestEvent ExchangeRequest ExchangeResponse → Network × List Output
unfolding settle_exchange_request settle_exchange_response
on_exchange_event n (request peer id r channel) = (
  record n {
    exchange_inbound_response_channels =
        insert RequestKey-discrete (peer, id) channel n.exchange_inbound_response_channels;
  },
  emit (exchange_request peer id r) ∷ [],
)
on_exchange_event n (response peer id r) = settle_exchange_request n (peer, id) (exchange_answer r)
on_exchange_event n (response_sent peer id) = settle_exchange_response n (peer, id) done
on_exchange_event n (outbound_failure peer id x) = settle_exchange_request n (peer, id) (failed x)
on_exchange_event n (inbound_failure peer id x) = settle_exchange_response n (peer, id) (failed x)

unfoldable pub settle_commit_request : Network → RequestKey → Answer → Network × List Output
settle_commit_request n k a = (
  record n {
    pending_commit_outbound_requests =
        remove RequestKey-discrete k n.pending_commit_outbound_requests;
  },
  answer_to (get RequestKey-discrete k n.pending_commit_outbound_requests) a,
)

unfoldable pub settle_commit_response : Network → RequestKey → Answer → Network × List Output
settle_commit_response n k a = (
  record n {
    pending_commit_inbound_response =
        remove RequestKey-discrete k n.pending_commit_inbound_response;
  },
  answer_to (get RequestKey-discrete k n.pending_commit_inbound_response) a,
)

unfoldable pub on_commit_event :
    Network → RequestEvent CommitRequest CommitResponse → Network × List Output
unfolding settle_commit_request settle_commit_response
on_commit_event n (request peer id r channel) = (
  record n {
    commit_inbound_response_channels =
        insert RequestKey-discrete (peer, id) channel n.commit_inbound_response_channels;
  },
  emit (commit_request peer id r) ∷ [],
)
on_commit_event n (response peer id r) = settle_commit_request n (peer, id) (commit_answer r)
on_commit_event n (response_sent peer id) = settle_commit_response n (peer, id) done
on_commit_event n (outbound_failure peer id x) = settle_commit_request n (peer, id) (failed x)
on_commit_event n (inbound_failure peer id x) = settle_commit_response n (peer, id) (failed x)

-- A node that was discovered is added to the routing table and dialled.
abbrev pub discovered : List (PeerId × Multiaddr) → List Output
discovered [] = []
discovered ((peer, addr) ∷ nodes) = add_kad_address peer addr ∷ dial addr ∷ discovered nodes

abbrev pub is_known : List PeerId → PeerId → Bool
is_known [] p = false
is_known (q ∷ qs) p = if bytes_eq q p then true else is_known qs p

abbrev pub established : List PeerId → PeerId → Option Multiaddr → List Output
established known peer none = []
established known peer (some addr) =
    if is_known known peer then [] else add_kad_address peer addr ∷ []

abbrev pub listening : Network → Multiaddr → Network
listening n addr = record n { node_address = some addr }

abbrev pub emitted : Option GossipsubMessage → List Output
emitted none = []
emitted (some m) = emit (gossipsub_message_recv m) ∷ []

unfoldable pub swarm_event_handler :
    (Bytes → Option GossipsubMessage) → Network → SwarmEvent → Network × List Output
unfolding on_query_completed on_exchange_event on_commit_event
swarm_event_handler parse n (mdns_discovered nodes) = (n, discovered nodes)
swarm_event_handler parse n mdns_expired = (n, [])
swarm_event_handler parse n (query_completed id r) = on_query_completed n id r
swarm_event_handler parse n (gossip m) = (n, emitted (try_from parse m))
swarm_event_handler parse n (exchange ev) = on_exchange_event n ev
swarm_event_handler parse n (commits ev) = on_commit_event n ev
swarm_event_handler parse n (connection_established peer back) =
    (n, established n.known_peers peer back)
swarm_event_handler parse n (new_listen_addr addr) = (listening n addr, [])
swarm_event_handler parse n other_event = (n, [])
