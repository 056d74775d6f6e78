-- ===== src/Network/Startup.antt =====
-- src/network/mod.rs: `Network::new`, and the topics that the node hears.
use dse.Base.{
  ℕ, ◌≡◌, ◌≢◌, refl, ap, subst, Bool, true, false, List, [], ◌∷◌, ◌++◌, none, Result, ok, ◌>>=◌,
  if◌then◌else◌, length, arith,
}
use dse.Base.Bytes.{Bytes, bytes_eq, bytes_eq_self}
use dse.Types.{PeerId, Multiaddr}
use dse.Network.{Network, query_topic, commit_topic, invalidating_signature_topic, ident_topic}
use dse.Network.Senders.{waiting}
use dse.Base.Maps.{count_value}

-- What the start of the network does to the swarm, in order.
pub data Setup : Type 0 where
  subscribe : Bytes → Setup
  add_kad_address : PeerId → Multiaddr → Setup
  dial : Multiaddr → Setup
  bootstrap : Setup
  listen_on : Multiaddr → Setup

abbrev pub idle_network : PeerId → Network
idle_network peer_id = record {
  peer_id = peer_id;
  node_address = none;
  pending_dht_put_requests = [];
  pending_dht_start_providing_requests = [];
  pending_dht_get_requests = [];
  pending_dht_get_providers_requests = [];
  pending_bootstrap_requests = [];
  pending_exchange_outbound_requests = [];
  pending_commit_outbound_requests = [];
  pending_exchange_inbound_response = [];
  pending_commit_inbound_response = [];
  exchange_inbound_response_channels = [];
  commit_inbound_response_channels = [];
  known_peers = [];
}

-- A dial that fails is only logged.
unfoldable pub contact : List (PeerId × Multiaddr) → List Setup
contact [] = []
contact ((peer, addr) ∷ peers) = add_kad_address peer addr ∷ dial addr ∷ contact peers

-- The arguments after the address are the outcomes of `build_transport`, `Behaviour::new` and
-- `subscribe`; a failed bootstrap or a failed `listen_on` is only logged.
unfoldable pub new :
    PeerId
    → List (PeerId × Multiaddr)
    → Multiaddr
    → Result (Unit {0})
    → Result (Unit {0})
    → Result (Unit {0})
    → Result (Network × List Setup)
unfolding contact
new peer_id bootstrap_peers addr transport behaviour subscribed = do
  _ ← transport
  _ ← behaviour
  _ ← subscribed
  ok (
    idle_network peer_id,
    subscribe (ident_topic query_topic)
        ∷ (contact bootstrap_peers ++ bootstrap ∷ listen_on addr ∷ []),
  )

abbrev pub is_subscribed : Bytes → List Setup → Bool
is_subscribed t [] = false
is_subscribed t (subscribe u ∷ xs) = if bytes_eq u t then true else is_subscribed t xs
is_subscribed t (_ ∷ xs) = is_subscribed t xs

is_subscribed-contact :
    (t : Bytes) (peers : List (PeerId × Multiaddr)) (rest : List Setup)
    → is_subscribed t (contact peers ++ rest) ≡ is_subscribed t rest
unfolding contact
is_subscribed-contact t [] rest = refl
is_subscribed-contact t (p ∷ peers) rest = is_subscribed-contact t peers rest

not_heard :
    (t : Bytes) (peers : List (PeerId × Multiaddr)) (addr : Multiaddr)
    → ident_topic query_topic ≢ t
    → is_subscribed t
        (subscribe (ident_topic query_topic) ∷ (contact peers ++ bootstrap ∷ listen_on addr ∷ []))
      ≡ false
not_heard t peers addr ne =
    ground (arith, is_subscribed-contact t peers (bootstrap ∷ listen_on addr ∷ []))

-- A network that starts keeps no sender waiting and hears queries; it is not subscribed to the
-- topics under which commits and invalidating signatures are published.
pub new_subscriptions :
    (peer_id : PeerId) (peers : List (PeerId × Multiaddr)) (addr : Multiaddr)
    (transport behaviour subscribed : Result (Unit {0})) (n : Network) (setup : List Setup)
    → new peer_id peers addr transport behaviour subscribed ≡ ok (n, setup)
    → ((x : ℕ) → waiting x n ≡ 0)
      × (is_subscribed (ident_topic query_topic) setup ≡ true)
      × (is_subscribed (ident_topic commit_topic) setup ≡ false)
      × (is_subscribed (ident_topic invalidating_signature_topic) setup ≡ false)
unfolding new count_value
new_subscriptions peer_id peers addr (ok _) (ok _) (ok _) n setup h =
    let same : idle_network peer_id ≡ n = cc in
    let done : subscribe (ident_topic query_topic)
          ∷ (contact peers ++ bootstrap ∷ listen_on addr ∷ [])
        ≡ setup =
      cc in
    (
      (λ x. subst (λ m. waiting x m ≡ 0) same refl),
      subst (λ xs. is_subscribed (ident_topic query_topic) xs ≡ true) done
          (ground (arith, bytes_eq_self (ident_topic query_topic))),
      subst (λ xs. is_subscribed (ident_topic commit_topic) xs ≡ false) done
          (not_heard (ident_topic commit_topic) peers addr
            (λ p. absurd (omega (arith, ap length p)))),
      subst (λ xs. is_subscribed (ident_topic invalidating_signature_topic) xs ≡ false) done
          (not_heard (ident_topic invalidating_signature_topic) peers addr
            (λ p. absurd (omega (arith, ap length p)))),
    )
new_subscriptions peer_id peers addr _ _ _ n setup h = cc
