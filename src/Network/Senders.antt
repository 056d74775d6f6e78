-- ===== src/Network/Senders.antt =====
-- src/network/mod.rs: the one-shot senders that the commands bring.
use dse.Base.{ℕ, ◌+◌, ◌≡◌, List, [], ◌∷◌, none, ◌==◌, Result, ok, err, panic, ℕ_discrete, arith}
use dse.Base.Maps.{get, one_if, count_value, count_value-insert}
use dse.Network.{
  Network, Sender, KadId, RequestKey-discrete, Output, answer, Command, start_listening,
  add_kad_peer, add_request_response_peer, dht_put, dht_start_providing, dht_get, dht_get_providers,
  bootstrap, publish_message, exchange_response, exchange_request_to, commit_response,
  commit_request_to, network_details, subscribe_network_events, Swarm, command_handler, or_answer,
}

-- How often a sender waits in the task's maps.
abbrev pub waiting : ℕ → Network → ℕ
waiting x n =
    count_value x n.pending_dht_put_requests
    + count_value x n.pending_dht_start_providing_requests
    + count_value x n.pending_dht_get_requests
    + count_value x n.pending_dht_get_providers_requests
    + count_value x n.pending_bootstrap_requests
    + count_value x n.pending_exchange_outbound_requests
    + count_value x n.pending_commit_outbound_requests
    + count_value x n.pending_exchange_inbound_response
    + count_value x n.pending_commit_inbound_response

-- How often it is answered.
abbrev pub answered : ℕ → List Output → ℕ
answered x [] = 0
answered x (answer sender a ∷ out) = one_if (sender == x) + answered x out
answered x (_ ∷ out) = answered x out

abbrev pub sender_of : Command → Sender
sender_of (start_listening a s) = s
sender_of (add_kad_peer p a s) = s
sender_of (add_request_response_peer p a s) = s
sender_of (dht_put r s) = s
sender_of (dht_start_providing k s) = s
sender_of (dht_get k s) = s
sender_of (dht_get_providers k s) = s
sender_of (bootstrap s) = s
sender_of (publish_message m s) = s
sender_of (exchange_response p id r s) = s
sender_of (exchange_request_to p r s) = s
sender_of (commit_response p id r s) = s
sender_of (commit_request_to p r s) = s
sender_of (network_details s) = s
sender_of (subscribe_network_events s) = s

abbrev pub IsNew : Result KadId → List (KadId × Sender) → Type 0
IsNew (ok id) m = get ℕ_discrete id m ≡ none
IsNew _ m = Unit

-- The swarm does not reuse the id of a call that is still pending, and a request whose channel is
-- open has no response on its way.
abbrev pub HasFreshIds : Swarm → Network → Command → Type 0
HasFreshIds w n (dht_put r s) = IsNew w.put_record n.pending_dht_put_requests
HasFreshIds w n (dht_start_providing k s) =
    IsNew w.start_providing n.pending_dht_start_providing_requests
HasFreshIds w n (dht_get k s) = IsNew (ok w.get_record) n.pending_dht_get_requests
HasFreshIds w n (dht_get_providers k s) =
    IsNew (ok w.get_providers) n.pending_dht_get_providers_requests
HasFreshIds w n (bootstrap s) = IsNew w.start_bootstrap n.pending_bootstrap_requests
HasFreshIds w n (exchange_response p id r s) =
    get RequestKey-discrete (p, id) n.pending_exchange_inbound_response ≡ none
HasFreshIds w n (exchange_request_to p r s) =
    get RequestKey-discrete (p, w.exchange_id) n.pending_exchange_outbound_requests ≡ none
HasFreshIds w n (commit_response p id r s) =
    get RequestKey-discrete (p, id) n.pending_commit_inbound_response ≡ none
HasFreshIds w n (commit_request_to p r s) =
    get RequestKey-discrete (p, w.commit_id) n.pending_commit_outbound_requests ≡ none
HasFreshIds w n _ = Unit

-- A Kademlia call: a fresh id makes its sender wait, a failure answers it.
or_answer-senders :
    (m : List (KadId × Sender)) (r : Result KadId) (s : Sender) (keep : KadId → Network)
    (n : Network) (x : ℕ)
    → IsNew r m
    → ((id : ℕ) → get ℕ_discrete id m ≡ none → waiting x (keep id) ≡ waiting x n + one_if (s == x))
    → let (n', out) = or_answer r s keep n in
      waiting x n' + answered x out ≡ waiting x n + one_if (s == x)
or_answer-senders m (ok id) s keep n x h f = omega (arith, f id h)
or_answer-senders m (err q) s keep n x h f = omega arith
or_answer-senders m panic s keep n x h f = omega arith

-- With fresh ids, the sender of a command either waits afterwards or has been answered, and not
-- both; every other sender waits as often as before and is not answered.
pub command_handler-senders :
    (w : Swarm) (n : Network) (c : Command) (x : ℕ)
    → HasFreshIds w n c
    → let (n', out) = command_handler w n c in
      waiting x n' + answered x out ≡ waiting x n + one_if (sender_of c == x)
unfolding command_handler
command_handler-senders w n (start_listening a s) x h = omega arith
command_handler-senders w n (add_kad_peer p a s) x h = omega arith
command_handler-senders w n (add_request_response_peer p a s) x h = omega arith
command_handler-senders w n (dht_put r s) x h =
    or_answer-senders n.pending_dht_put_requests w.put_record s _ n x h
      (λ id q. omega (arith, count_value-insert ℕ_discrete x id s n.pending_dht_put_requests q))
command_handler-senders w n (dht_start_providing k s) x h =
    or_answer-senders n.pending_dht_start_providing_requests w.start_providing s _ n x h (λ id q.
      omega (arith, count_value-insert ℕ_discrete x id s n.pending_dht_start_providing_requests q))
command_handler-senders w n (dht_get k s) x h =
    omega (arith, count_value-insert ℕ_discrete x w.get_record s n.pending_dht_get_requests h)
command_handler-senders w n (dht_get_providers k s) x h = omega (
  arith,
  count_value-insert ℕ_discrete x w.get_providers s n.pending_dht_get_providers_requests h,
)
command_handler-senders w n (bootstrap s) x h =
    or_answer-senders n.pending_bootstrap_requests w.start_bootstrap s _ n x h
      (λ id q. omega (arith, count_value-insert ℕ_discrete x id s n.pending_bootstrap_requests q))
command_handler-senders w n (publish_message m s) x h = omega arith
command_handler-senders w n (exchange_response p id r s) x h = ground (
  arith,
  count_value-insert RequestKey-discrete x (p, id) s n.pending_exchange_inbound_response h,
)
command_handler-senders w n (exchange_request_to p r s) x h = omega (
  arith,
  count_value-insert RequestKey-discrete x (p, w.exchange_id) s n.pending_exchange_outbound_requests
      h,
)
command_handler-senders w n (commit_response p id r s) x h =
    ground (
      arith,
      count_value-insert RequestKey-discrete x (p, id) s n.pending_commit_inbound_response h,
    )
command_handler-senders w n (commit_request_to p r s) x h = omega (
  arith,
  count_value-insert RequestKey-discrete x (p, w.commit_id) s n.pending_commit_outbound_requests h,
)
command_handler-senders w n (network_details s) x h = omega arith
command_handler-senders w n (subscribe_network_events s) x h = omega arith
