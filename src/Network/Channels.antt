-- ===== src/Network/Channels.antt =====
-- src/network/mod.rs: the channels on which the responses to other peers' requests go out.
pub mod Runs
use dse.Base.{
  ℕ, ◌+◌, ◌≡◌, refl, List, [], ◌∷◌, ◌++◌, Option, none, some, ◌==◌, Result, ok, err, panic,
  decode_failed, ℕ_discrete, arith,
}
use dse.Base.Bytes.{Bytes}
use dse.Base.Maps.{get, one_if, count_option, count_value, count_value-insert, count_value-remove}
use dse.Types.{PeerId, Multiaddr}
use dse.Types.Messages.{
  ExchangeRequest, ExchangeResponse, CommitRequest, CommitResponse, GossipsubMessage, RequestId,
}
use dse.Network.{
  Network, Sender, KadId, RequestKey-discrete, Answer, done, failed, Output, answer,
  send_exchange_response, send_commit_response, Command, start_listening, add_kad_peer,
  add_request_response_peer, dht_put, dht_start_providing, dht_get, dht_get_providers, bootstrap,
  publish_message, exchange_response, exchange_request_to, commit_response, commit_request_to,
  network_details, subscribe_network_events, Swarm, command_handler, or_answer,
  on_exchange_response, on_commit_response,
}
use dse.Network.Events.{
  QueryResult, put_record, get_record, bootstrap_ok, bootstrap_timeout, start_providing,
  get_providers, other_result, RequestEvent, request, response, response_sent, outbound_failure,
  inbound_failure, SwarmEvent, mdns_discovered, mdns_expired, query_completed, gossip, exchange,
  commits, connection_established, new_listen_addr, other_event, swarm_event_handler, answer_to,
  settle_bootstrap, settle_exchange_request, settle_exchange_response, settle_commit_request,
  settle_commit_response, on_query_completed, on_exchange_event, on_commit_event, discovered,
  established, emitted, try_from,
}
use dse.Network.Runs.{Input, command, event, closed, run}

-- How often an output uses a channel of an exchange request, and of a commit request.
abbrev pub uses_exchange : ℕ → Output → ℕ
uses_exchange x (send_exchange_response channel r) = one_if (channel == x)
uses_exchange x _ = 0

abbrev pub uses_commit : ℕ → Output → ℕ
uses_commit x (send_commit_response channel r) = one_if (channel == x)
uses_commit x _ = 0

abbrev pub total : (Output → ℕ) → List Output → ℕ
total f [] = 0
total f (o ∷ out) = f o + total f out

-- How often an event brings one.
abbrev pub brings_exchange : ℕ → SwarmEvent → ℕ
brings_exchange x (exchange (request p id r channel)) = one_if (channel == x)
brings_exchange x _ = 0

abbrev pub brings_commit : ℕ → SwarmEvent → ℕ
brings_commit x (commits (request p id r channel)) = one_if (channel == x)
brings_commit x _ = 0

-- What the events of a run bring, up to its end.
abbrev pub brought : (SwarmEvent → ℕ) → List Input → ℕ
brought f [] = 0
brought f (command w c ∷ inputs) = brought f inputs
brought f (event ev ∷ inputs) = f ev + brought f inputs
brought f (closed ∷ inputs) = 0

-- No request comes under the key of one whose channel is open.
abbrev pub HasNewKey : Network → SwarmEvent → Type 0
HasNewKey n (exchange (request p id r channel)) =
    get RequestKey-discrete (p, id) n.exchange_inbound_response_channels ≡ none
HasNewKey n (commits (request p id r channel)) =
    get RequestKey-discrete (p, id) n.commit_inbound_response_channels ≡ none
HasNewKey n _ = Unit

abbrev pub open_exchange : ℕ → Network → ℕ
open_exchange x n = count_value x n.exchange_inbound_response_channels

abbrev pub open_commit : ℕ → Network → ℕ
open_commit x n = count_value x n.commit_inbound_response_channels

-- The channels that are open or used afterwards are those that were open before and some more.
abbrev pub IsBalanced : ℕ → Network → Network × List Output → ℕ → ℕ → Type 0
IsBalanced x n (n', out) e c =
    (open_exchange x n' + total (uses_exchange x) out ≡ open_exchange x n + e)
    × (open_commit x n' + total (uses_commit x) out ≡ open_commit x n + c)

pub total-append :
    (f : Output → ℕ) (xs ys : List Output) → total f (xs ++ ys) ≡ total f xs + total f ys
total-append f [] ys = omega arith
total-append f (o ∷ xs) ys = omega (arith, total-append f xs ys)

abbrev pub IsQuiet : ℕ → List Output → Type 0
IsQuiet x out = (total (uses_exchange x) out ≡ 0) × (total (uses_commit x) out ≡ 0)

-- Outputs that use no channel, with the channels left alone.
pub quiet-IsBalanced :
    (x : ℕ) (n : Network) (out : List Output) → IsQuiet x out → IsBalanced x n (n, out) 0 0
quiet-IsBalanced x n out (e, c) = (omega (arith, e), omega (arith, c))

or_answer-IsBalanced :
    (x : ℕ) (n : Network) (r : Result KadId) (sender : Sender) (keep : KadId → Network)
    → ((id : ℕ) → IsBalanced x n (keep id, []) 0 0)
    → IsBalanced x n (or_answer r sender keep n) 0 0
or_answer-IsBalanced x n (ok id) sender keep h = h id
or_answer-IsBalanced x n (err q) sender keep h = (omega arith, omega arith)
or_answer-IsBalanced x n panic sender keep h = (omega arith, omega arith)

on_exchange_response-IsBalanced :
    (x : ℕ) (n : Network) (p : PeerId) (id : RequestId) (r : ExchangeResponse) (sender : Sender)
    → IsBalanced x n (on_exchange_response n p id r sender) 0 0
unfolding on_exchange_response
on_exchange_response-IsBalanced x n p id r sender = (
  ground (
    arith,
    count_value-remove RequestKey-discrete x (p, id) n.exchange_inbound_response_channels,
  ),
  ground arith,
)

on_commit_response-IsBalanced :
    (x : ℕ) (n : Network) (p : PeerId) (id : RequestId) (r : CommitResponse) (sender : Sender)
    → IsBalanced x n (on_commit_response n p id r sender) 0 0
unfolding on_commit_response
on_commit_response-IsBalanced x n p id r sender = (
  ground arith,
  ground
      (arith, count_value-remove RequestKey-discrete x (p, id) n.commit_inbound_response_channels),
)

pub command_handler-IsBalanced :
    (w : Swarm) (n : Network) (c : Command) (x : ℕ) → IsBalanced x n (command_handler w n c) 0 0
unfolding command_handler
command_handler-IsBalanced w n (start_listening a s) x = (omega arith, omega arith)
command_handler-IsBalanced w n (add_kad_peer p a s) x = (omega arith, omega arith)
command_handler-IsBalanced w n (add_request_response_peer p a s) x = (omega arith, omega arith)
command_handler-IsBalanced w n (dht_put r s) x =
    or_answer-IsBalanced x n w.put_record s _ (λ id. (omega arith, omega arith))
command_handler-IsBalanced w n (dht_start_providing k s) x =
    or_answer-IsBalanced x n w.start_providing s _ (λ id. (omega arith, omega arith))
command_handler-IsBalanced w n (dht_get k s) x = (omega arith, omega arith)
command_handler-IsBalanced w n (dht_get_providers k s) x = (omega arith, omega arith)
command_handler-IsBalanced w n (bootstrap s) x =
    or_answer-IsBalanced x n w.start_bootstrap s _ (λ id. (omega arith, omega arith))
command_handler-IsBalanced w n (publish_message m s) x = (omega arith, omega arith)
command_handler-IsBalanced w n (exchange_response p id r s) x =
    on_exchange_response-IsBalanced x n p id r s
command_handler-IsBalanced w n (exchange_request_to p r s) x = (omega arith, omega arith)
command_handler-IsBalanced w n (commit_response p id r s) x =
    on_commit_response-IsBalanced x n p id r s
command_handler-IsBalanced w n (commit_request_to p r s) x = (omega arith, omega arith)
command_handler-IsBalanced w n (network_details s) x = (omega arith, omega arith)
command_handler-IsBalanced w n (subscribe_network_events s) x = (omega arith, omega arith)
