-- ===== src/NetworkClient/Gossip/Posted.antt =====
-- src/server.rs, src/network/mod.rs and src/indexer.rs: what a message that is published does at a
-- node that hears it, and a query from its user to the storage of another node.
use dse.Base.{
  ◌≡◌, refl, Bool, true, false, List, [], ◌∷◌, Option, none, some, Result, ok, err, panic,
  if◌then◌else◌, arith,
}
use dse.Base.Bytes.{Bytes}
use dse.Types.{PeerId, Multiaddr, QueryData}
use dse.Types.Messages.{
  GossipsubMessage, new_query, gossip_commit, gossip_invalidating_signature, gossipsub_message_recv,
}
use dse.Backend.{Backend, IsSound}
use dse.Storage.{
  find_query_received_by_query_id, find_query_sent_by_query_id, add_query_received, add_query_sent,
}
use dse.Storage.Queries.{find_query-add_query_received, find_query-add_query_sent}
use dse.EthNode.{EthNode}
use dse.Network.{command_handler, topic, ident_topic}
use dse.Network.Events.{swarm_event_handler}
use dse.Network.RequestResponse.{Json, JsonRoundTrip}
use dse.Network.Startup.{is_subscribed, new, new_subscriptions}
use dse.Indexer.{handle_network_event}
use dse.Server.{query_from_data, post_query, status_ok}
use dse.Server as server
use dse.NetworkClient.{publish_message, answer_for, first_answer, await}
use dse.NetworkClient.Exchanges.{emitted_event}
use dse.NetworkClient.Gossip.{Ends, into, published_as, publish_round, heard, gossip_round}

-- The node of a `Network::new`.
abbrev pub HasStarted : Ends → Type 0
HasStarted x =
    (peer : PeerId) × (peers : List (PeerId × Multiaddr)) × (addr : Multiaddr) × (new peer peers
        addr (ok tt) (ok tt) (ok tt)
      ≡ ok (x.hearer, x.setup))

abbrev pub is_query : GossipsubMessage → Bool
is_query (new_query q) = true
is_query _ = false

-- What the server makes of the client's answer.
abbrev pub outcome : Option (Result Bytes) → Option (Result (Unit {0}))
outcome none = none
outcome (some (ok id)) = some (ok tt)
outcome (some (err x)) = some (err x)
outcome (some panic) = some panic

hears :
    (x : Ends) (m : GossipsubMessage)
    → HasStarted x
    → is_subscribed (ident_topic (topic m)) x.setup ≡ is_query m
hears x (new_query q) (peer, peers, addr, p) =
    (new_subscriptions peer peers addr (ok tt) (ok tt) (ok tt) x.hearer x.setup p).1
hears x (gossip_commit c n) (peer, peers, addr, p) =
    (new_subscriptions peer peers addr (ok tt) (ok tt) (ok tt) x.hearer x.setup p).2
hears x (gossip_invalidating_signature n a b g) (peer, peers, addr, p) =
    (new_subscriptions peer peers addr (ok tt) (ok tt) (ok tt) x.hearer x.setup p).3

module _ (json : Json GossipsubMessage) (x : Ends) (m : GossipsubMessage) where
  publish_round_lem :
      {id : Bytes}
      → x.publishing_swarm.publication ≡ ok id
      → publish_round json x m ≡ (some (ok id), some (ident_topic (topic m), into json m))
  unfolding publish_round command_handler answer_for first_answer await publish_message published_as
  publish_round_lem p = ground (arith, p)

  heard_lem :
      {bytes : Bytes}
      → JsonRoundTrip json
      → json.to_vec m ≡ some bytes
      → HasStarted x
      → heard json x (some (ident_topic (topic m), into json m))
        ≡ (if is_query m then some (gossipsub_message_recv m) else none)
  unfolding heard into swarm_event_handler emitted_event
  heard_lem round p started = ground (arith, hears x m started, p, round m _ p)

module _ ⦃e : Backend⦄ where
  -- A message that was published is handled by the indexer of a node that started as `Network::new`
  -- does, if it is a query; any other message changes nothing there, and nothing is spawned.
  pub gossip_round_lem :
      (json : Json GossipsubMessage) (d : e.Db) (x : Ends) (m : GossipsubMessage) {id bytes : Bytes}
      → JsonRoundTrip json
      → json.to_vec m ≡ some bytes
      → x.publishing_swarm.publication ≡ ok id
      → HasStarted x
      → gossip_round json d x m
        ≡ (if is_query m then handle_network_event d (gossipsub_message_recv m) else ok (d, []))
  unfolding gossip_round
  gossip_round_lem json d x m round p published started =
      ground (arith, publish_round_lem json x m published, heard_lem json x m round p started)

  -- Let a user post a query at a node whose details are known, let its swarm publish it, and let
  -- another node have started as `Network::new` does. Then the node publishes the query, answers
  -- that all is well and finds the query under the id 1 among those it sent; and the indexer of the
  -- other node handles it, and finds it under the id 1 among those it received, whatever query it
  -- had received under this id before.
  pub posted_query :
      (s : IsSound e) (json : Json GossipsubMessage) (node : EthNode) (data' : QueryData)
      (details : PeerId × Multiaddr) (x : Ends) (ours theirs : e.Db) {id bytes : Bytes}
      → let m = new_query (query_from_data data' node.timelocked_wallet details) in
        JsonRoundTrip json
        → json.to_vec m ≡ some bytes
        → x.publishing_swarm.publication ≡ ok id
        → HasStarted x
        → (answered : Result (Unit {0})) × (ours' : e.Db) × (theirs' : e.Db) × (outcome
              (publish_round json x m).0
            ≡ some answered)
          × (post_query node ours data' (ok details) answered
              ≡ (ours', status_ok, server.publish m ∷ []))
          × (find_query_sent_by_query_id ours' 1
              ≡ ok (query_from_data data' node.timelocked_wallet details))
          × (gossip_round json theirs x m ≡ ok (theirs', []))
          × (find_query_received_by_query_id theirs' 1
              ≡ ok (query_from_data data' node.timelocked_wallet details))
  unfolding post_query query_from_data handle_network_event
  posted_query s json node data' details x ours theirs round p published started =
      let q = query_from_data data' node.timelocked_wallet details in
      (
        ok tt,
        add_query_sent ours q,
        add_query_received theirs q,
        ground (arith, publish_round_lem json x (new_query q) published),
        refl,
        (find_query-add_query_sent s ours q 1 (omega arith) (omega arith)).0,
        gossip_round_lem json theirs x (new_query q) round p published started,
        find_query-add_query_received s theirs q 1 (omega arith) (omega arith),
      )
