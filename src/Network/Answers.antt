-- ===== src/Network/Answers.antt =====
-- src/network/mod.rs: the one-shot senders when an event of the swarm comes.
use dse.Base.{
  ℕ, decode_failed, ◌+◌, ◌≡◌, refl, List, [], ◌∷◌, Option, none, some, ℕ_discrete, arith,
}
use dse.Base.Bytes.{Bytes}
use dse.Base.Maps.{get, count_option, count_value-remove}
use dse.Types.{PeerId, Multiaddr}
use dse.Types.Messages.{
  ExchangeRequest, ExchangeResponse, CommitRequest, CommitResponse, GossipsubMessage,
}
use dse.Network.{
  Network, Sender, KadId, RequestKey, RequestKey-discrete, Answer, done, failed, exchange_answer,
  commit_answer,
}
use dse.Network.Events.{
  QueryResult, put_record, get_record, bootstrap_ok, bootstrap_timeout, start_providing,
  get_providers, other_result, RequestEvent, request, response, response_sent, outbound_failure,
  inbound_failure, SwarmEvent, mdns_discovered, mdns_expired, query_completed, gossip, exchange,
  commits, connection_established, new_listen_addr, other_event, swarm_event_handler, answer_to,
  settle_bootstrap, on_query_completed, on_exchange_event, on_commit_event, discovered, established,
  emitted, try_from, record_answer, providers_answer, settle_exchange_request,
  settle_exchange_response, settle_commit_request, settle_commit_response,
}
use dse.Network.Senders.{waiting, answered}

answered-answer_to :
    (x : ℕ) (o : Option Sender) (a : Answer) → answered x (answer_to o a) ≡ count_option x o
answered-answer_to x none a = refl
answered-answer_to x (some s) a = omega arith

answered-discovered :
    (x : ℕ) (nodes : List (PeerId × Multiaddr)) → answered x (discovered nodes) ≡ 0
answered-discovered x [] = refl
answered-discovered x (p ∷ nodes) = answered-discovered x nodes

answered-established :
    (x : ℕ) (known : List PeerId) (p : PeerId) (back : Option Multiaddr)
    → answered x (established known p back) ≡ 0
answered-established x known p none = refl
answered-established x known p (some a) = ground arith

answered-emitted : (x : ℕ) (m : Option GossipsubMessage) → answered x (emitted m) ≡ 0
answered-emitted x none = refl
answered-emitted x (some m) = refl

settle_bootstrap-senders :
    (x : ℕ) (n : Network) (id : KadId) (a : Answer)
    → let (n', out) = settle_bootstrap n id a in waiting x n' + answered x out ≡ waiting x n
unfolding settle_bootstrap
settle_bootstrap-senders x n id a = omega (
  arith,
  count_value-remove ℕ_discrete x id n.pending_bootstrap_requests,
  answered-answer_to x (get ℕ_discrete id n.pending_bootstrap_requests) a,
)

on_query_completed-senders :
    (x : ℕ) (n : Network) (id : KadId) (r : QueryResult)
    → let (n', out) = on_query_completed n id r in waiting x n' + answered x out ≡ waiting x n
unfolding on_query_completed
on_query_completed-senders x n id (put_record r) = omega (
  arith,
  count_value-remove ℕ_discrete x id n.pending_dht_put_requests,
  answered-answer_to x (get ℕ_discrete id n.pending_dht_put_requests) (record_answer r),
)
on_query_completed-senders x n id (get_record r) = omega (
  arith,
  count_value-remove ℕ_discrete x id n.pending_dht_get_requests,
  answered-answer_to x (get ℕ_discrete id n.pending_dht_get_requests) (record_answer r),
)
on_query_completed-senders x n id (start_providing r) = omega (
  arith,
  count_value-remove ℕ_discrete x id n.pending_dht_start_providing_requests,
  answered-answer_to x (get ℕ_discrete id n.pending_dht_start_providing_requests) (record_answer r),
)
on_query_completed-senders x n id (get_providers r) = omega (
  arith,
  count_value-remove ℕ_discrete x id n.pending_dht_get_providers_requests,
  answered-answer_to x (get ℕ_discrete id n.pending_dht_get_providers_requests)
      (providers_answer r),
)
on_query_completed-senders x n id (bootstrap_ok remaining) =
    ground (arith, settle_bootstrap-senders x n id done)
on_query_completed-senders x n id (bootstrap_timeout remaining) =
    ground (arith, settle_bootstrap-senders x n id (failed decode_failed))
on_query_completed-senders x n id other_result = omega arith

settle_exchange_request-senders :
    (x : ℕ) (n : Network) (k : RequestKey) (a : Answer)
    → let (n', out) = settle_exchange_request n k a in waiting x n' + answered x out ≡ waiting x n
unfolding settle_exchange_request
settle_exchange_request-senders x n k a = omega (
  arith,
  count_value-remove RequestKey-discrete x k n.pending_exchange_outbound_requests,
  answered-answer_to x (get RequestKey-discrete k n.pending_exchange_outbound_requests) a,
)

settle_exchange_response-senders :
    (x : ℕ) (n : Network) (k : RequestKey) (a : Answer)
    → let (n', out) = settle_exchange_response n k a in waiting x n' + answered x out ≡ waiting x n
unfolding settle_exchange_response
settle_exchange_response-senders x n k a = omega (
  arith,
  count_value-remove RequestKey-discrete x k n.pending_exchange_inbound_response,
  answered-answer_to x (get RequestKey-discrete k n.pending_exchange_inbound_response) a,
)

on_exchange_event-senders :
    (x : ℕ) (n : Network) (ev : RequestEvent ExchangeRequest ExchangeResponse)
    → let (n', out) = on_exchange_event n ev in waiting x n' + answered x out ≡ waiting x n
unfolding on_exchange_event
on_exchange_event-senders x n (request p id r ch) = omega arith
on_exchange_event-senders x n (response p id r) =
    settle_exchange_request-senders x n (p, id) (exchange_answer r)
on_exchange_event-senders x n (response_sent p id) =
    settle_exchange_response-senders x n (p, id) done
on_exchange_event-senders x n (outbound_failure p id e) =
    settle_exchange_request-senders x n (p, id) (failed e)
on_exchange_event-senders x n (inbound_failure p id e) =
    settle_exchange_response-senders x n (p, id) (failed e)

settle_commit_request-senders :
    (x : ℕ) (n : Network) (k : RequestKey) (a : Answer)
    → let (n', out) = settle_commit_request n k a in waiting x n' + answered x out ≡ waiting x n
unfolding settle_commit_request
settle_commit_request-senders x n k a = omega (
  arith,
  count_value-remove RequestKey-discrete x k n.pending_commit_outbound_requests,
  answered-answer_to x (get RequestKey-discrete k n.pending_commit_outbound_requests) a,
)

settle_commit_response-senders :
    (x : ℕ) (n : Network) (k : RequestKey) (a : Answer)
    → let (n', out) = settle_commit_response n k a in waiting x n' + answered x out ≡ waiting x n
unfolding settle_commit_response
settle_commit_response-senders x n k a = omega (
  arith,
  count_value-remove RequestKey-discrete x k n.pending_commit_inbound_response,
  answered-answer_to x (get RequestKey-discrete k n.pending_commit_inbound_response) a,
)

on_commit_event-senders :
    (x : ℕ) (n : Network) (ev : RequestEvent CommitRequest CommitResponse)
    → let (n', out) = on_commit_event n ev in waiting x n' + answered x out ≡ waiting x n
unfolding on_commit_event
on_commit_event-senders x n (request p id r ch) = omega arith
on_commit_event-senders x n (response p id r) =
    settle_commit_request-senders x n (p, id) (commit_answer r)
on_commit_event-senders x n (response_sent p id) = settle_commit_response-senders x n (p, id) done
on_commit_event-senders x n (outbound_failure p id e) =
    settle_commit_request-senders x n (p, id) (failed e)
on_commit_event-senders x n (inbound_failure p id e) =
    settle_commit_response-senders x n (p, id) (failed e)

-- For every event of the swarm, a sender waits afterwards as often as before less the answers it
-- was sent in the event: an answer uses up the entry of its sender, and no entry is dropped without
-- an answer.
pub swarm_event_handler-senders :
    (parse : Bytes → Option GossipsubMessage) (n : Network) (ev : SwarmEvent) (x : ℕ)
    → let (n', out) = swarm_event_handler parse n ev in waiting x n' + answered x out ≡ waiting x n
unfolding swarm_event_handler
swarm_event_handler-senders parse n (mdns_discovered nodes) x =
    omega (arith, answered-discovered x nodes)
swarm_event_handler-senders parse n mdns_expired x = omega arith
swarm_event_handler-senders parse n (query_completed id r) x = on_query_completed-senders x n id r
swarm_event_handler-senders parse n (gossip m) x =
    omega (arith, answered-emitted x (try_from parse m))
swarm_event_handler-senders parse n (exchange ev) x = on_exchange_event-senders x n ev
swarm_event_handler-senders parse n (commits ev) x = on_commit_event-senders x n ev
swarm_event_handler-senders parse n (connection_established p back) x =
    omega (arith, answered-established x n.known_peers p back)
swarm_event_handler-senders parse n (new_listen_addr a) x = omega arith
swarm_event_handler-senders parse n other_event x = omega arith
