-- ===== src/Network/Channels/Runs.antt =====
-- src/network/mod.rs: the channels of responses when events come, and in a whole run.
use dse.Base.{ℕ, refl, List, [], ◌∷◌, Option, none, some, decode_failed, ℕ_discrete, arith}
use dse.Base.Bytes.{Bytes}
use dse.Base.Maps.{get, count_value-insert}
use dse.Types.{PeerId, Multiaddr}
use dse.Types.Messages.{GossipsubMessage}
use dse.Network.{Network, Sender, KadId, RequestKey-discrete, Answer, done, failed, command_handler}
use dse.Network.Events.{
  QueryResult, put_record, get_record, bootstrap_ok, bootstrap_timeout, start_providing,
  get_providers, other_result, request, response, response_sent, outbound_failure, inbound_failure,
  SwarmEvent, mdns_discovered, mdns_expired, query_completed, gossip, exchange, commits,
  connection_established, new_listen_addr, other_event, swarm_event_handler, answer_to,
  settle_bootstrap, settle_exchange_request, settle_exchange_response, settle_commit_request,
  settle_commit_response, on_query_completed, on_exchange_event, on_commit_event, discovered,
  established, emitted, try_from,
}
use dse.Network.Channels.{
  uses_exchange, uses_commit, brings_exchange, brings_commit, brought, HasNewKey, IsBalanced,
  total-append, IsQuiet, quiet-IsBalanced, command_handler-IsBalanced,
}
use dse.Network.Runs.{Input, command, event, closed, run}

answer_to-IsQuiet : (x : ℕ) (o : Option Sender) (a : Answer) → IsQuiet x (answer_to o a)
answer_to-IsQuiet x none a = (refl, refl)
answer_to-IsQuiet x (some s) a = (refl, refl)

discovered-IsQuiet : (x : ℕ) (nodes : List (PeerId × Multiaddr)) → IsQuiet x (discovered nodes)
discovered-IsQuiet x [] = (refl, refl)
discovered-IsQuiet x (p ∷ nodes) =
    let (e, c) = discovered-IsQuiet x nodes in (omega (arith, e), omega (arith, c))

established-IsQuiet :
    (x : ℕ) (known : List PeerId) (p : PeerId) (back : Option Multiaddr)
    → IsQuiet x (established known p back)
established-IsQuiet x known p none = (refl, refl)
established-IsQuiet x known p (some a) = (ground arith, ground arith)

emitted-IsQuiet : (x : ℕ) (m : Option GossipsubMessage) → IsQuiet x (emitted m)
emitted-IsQuiet x none = (refl, refl)
emitted-IsQuiet x (some m) = (refl, refl)

on_query_completed-IsBalanced :
    (x : ℕ) (n : Network) (id : KadId) (r : QueryResult)
    → IsBalanced x n (on_query_completed n id r) 0 0
unfolding on_query_completed settle_bootstrap
on_query_completed-IsBalanced x n id (put_record r) =
    quiet-IsBalanced x n _ (answer_to-IsQuiet x _ _)
on_query_completed-IsBalanced x n id (get_record r) =
    quiet-IsBalanced x n _ (answer_to-IsQuiet x _ _)
on_query_completed-IsBalanced x n id (start_providing r) =
    quiet-IsBalanced x n _ (answer_to-IsQuiet x _ _)
on_query_completed-IsBalanced x n id (get_providers r) =
    quiet-IsBalanced x n _ (answer_to-IsQuiet x _ _)
on_query_completed-IsBalanced x n id (bootstrap_ok remaining) =
    let (e, c) = answer_to-IsQuiet x (get ℕ_discrete id n.pending_bootstrap_requests) done in
    (ground (arith, e), ground (arith, c))
on_query_completed-IsBalanced x n id (bootstrap_timeout remaining) =
    let (e, c) =
      answer_to-IsQuiet x (get ℕ_discrete id n.pending_bootstrap_requests) (failed decode_failed) in
    (ground (arith, e), ground (arith, c))
on_query_completed-IsBalanced x n id other_result = (omega arith, omega arith)

-- A request opens its channel, and any other event leaves all channels as they are.
swarm_event_handler-IsBalanced :
    (parse : Bytes → Option GossipsubMessage) (n : Network) (ev : SwarmEvent) (x : ℕ)
    → HasNewKey n ev
    → IsBalanced x n (swarm_event_handler parse n ev) (brings_exchange x ev) (brings_commit x ev)
unfolding swarm_event_handler on_exchange_event on_commit_event settle_exchange_request
    settle_exchange_response settle_commit_request settle_commit_response
swarm_event_handler-IsBalanced parse n (mdns_discovered nodes) x h =
    quiet-IsBalanced x n _ (discovered-IsQuiet x nodes)
swarm_event_handler-IsBalanced parse n mdns_expired x h = (omega arith, omega arith)
swarm_event_handler-IsBalanced parse n (query_completed id r) x h =
    on_query_completed-IsBalanced x n id r
swarm_event_handler-IsBalanced parse n (gossip m) x h =
    quiet-IsBalanced x n _ (emitted-IsQuiet x (try_from parse m))
swarm_event_handler-IsBalanced parse n (exchange (request p id r ch)) x h = (
  omega (
    arith,
    count_value-insert RequestKey-discrete x (p, id) ch n.exchange_inbound_response_channels h,
  ),
  omega arith,
)
swarm_event_handler-IsBalanced parse n (exchange (response p id r)) x h =
    quiet-IsBalanced x n _ (answer_to-IsQuiet x _ _)
swarm_event_handler-IsBalanced parse n (exchange (response_sent p id)) x h =
    quiet-IsBalanced x n _ (answer_to-IsQuiet x _ _)
swarm_event_handler-IsBalanced parse n (exchange (outbound_failure p id q)) x h =
    quiet-IsBalanced x n _ (answer_to-IsQuiet x _ _)
swarm_event_handler-IsBalanced parse n (exchange (inbound_failure p id q)) x h =
    quiet-IsBalanced x n _ (answer_to-IsQuiet x _ _)
swarm_event_handler-IsBalanced parse n (commits (request p id r ch)) x h = (
  omega arith,
  omega (
    arith,
    count_value-insert RequestKey-discrete x (p, id) ch n.commit_inbound_response_channels h,
  ),
)
swarm_event_handler-IsBalanced parse n (commits (response p id r)) x h =
    quiet-IsBalanced x n _ (answer_to-IsQuiet x _ _)
swarm_event_handler-IsBalanced parse n (commits (response_sent p id)) x h =
    quiet-IsBalanced x n _ (answer_to-IsQuiet x _ _)
swarm_event_handler-IsBalanced parse n (commits (outbound_failure p id q)) x h =
    quiet-IsBalanced x n _ (answer_to-IsQuiet x _ _)
swarm_event_handler-IsBalanced parse n (commits (inbound_failure p id q)) x h =
    quiet-IsBalanced x n _ (answer_to-IsQuiet x _ _)
swarm_event_handler-IsBalanced parse n (connection_established p back) x h =
    quiet-IsBalanced x n _ (established-IsQuiet x n.known_peers p back)
swarm_event_handler-IsBalanced parse n (new_listen_addr a) x h = (omega arith, omega arith)
swarm_event_handler-IsBalanced parse n other_event x h = (omega arith, omega arith)

module _ (parse : Bytes → Option GossipsubMessage) where
  -- No request of the run comes under the key of one whose channel is open.
  abbrev pub AllNewKeys : Network → List Input → Type 0
  AllNewKeys n [] = Unit {0}
  AllNewKeys n (command w c ∷ inputs) = AllNewKeys (command_handler w n c).0 inputs
  AllNewKeys n (event ev ∷ inputs) =
      HasNewKey n ev × AllNewKeys (swarm_event_handler parse n ev).0 inputs
  AllNewKeys n (closed ∷ inputs) = Unit

  -- In a whole run in which no request comes under the key of one whose channel is open, a channel is
  -- open at the end, or was used for a response, as often as it was open at the start or came with a
  -- request: none is used twice, none is lost, and nothing but a response closes one. So it is for
  -- the exchange requests and for the commit requests.
  pub run-IsBalanced :
      (n : Network) (inputs : List Input) (x : ℕ)
      → AllNewKeys n inputs
      → IsBalanced x n
          (run parse n inputs)
          (brought (brings_exchange x) inputs)
          (brought (brings_commit x) inputs)
  unfolding run
  run-IsBalanced n [] x h = (omega arith, omega arith)
  run-IsBalanced n (command w c ∷ inputs) x h =
      let (n', out) = command_handler w n c in
      let (e, c') = command_handler-IsBalanced w n c x in
      let (es, cs) = run-IsBalanced n' inputs x h in
      (
        omega (arith, e, es, total-append (uses_exchange x) out (run parse n' inputs).1),
        omega (arith, c', cs, total-append (uses_commit x) out (run parse n' inputs).1),
      )
  run-IsBalanced n (event ev ∷ inputs) x (h, hs) =
      let (n', out) = swarm_event_handler parse n ev in
      let (e, c) = swarm_event_handler-IsBalanced parse n ev x h in
      let (es, cs) = run-IsBalanced n' inputs x hs in
      (
        omega (arith, e, es, total-append (uses_exchange x) out (run parse n' inputs).1),
        omega (arith, c, cs, total-append (uses_commit x) out (run parse n' inputs).1),
      )
  run-IsBalanced n (closed ∷ inputs) x h = (omega arith, omega arith)
