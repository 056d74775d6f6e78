-- ===== src/NetworkClient/Gossip.antt =====
-- src/network_client.rs, src/network/mod.rs, src/indexer.rs and src/server.rs: a message that one
-- node's client publishes, up to the indexer of another node. The gossip network is libp2p's: it
-- carries a message that was published to a node that hears its topic, with its signed source.
pub mod Posted
use dse.Base.{
  ℕ, ◌^◌, ◌<◌, ◌≡◌, refl, subst, ap, ◌∙◌, Bool, true, false, List, [], ◌∷◌, Option, none, some,
  Result, ok, err, panic, ◌>>=◌, if◌then◌else◌, arith,
}
use dse.Base.Bytes.{Bytes}
use dse.Types.{PeerId, Multiaddr, QueryData, Query, Commit}
use dse.Types.Messages.{
  GossipsubMessage, new_query, gossip_commit, NetworkEvent, gossipsub_message_recv,
}
use dse.Backend.{Backend, IsSound}
use dse.Network.{Network, Sender, Output, publish, Swarm, command_handler}
use dse.Network.Events.{RawMessage, gossip, swarm_event_handler}
use dse.Network.RequestResponse.{Json, JsonRoundTrip}
use dse.Network.Startup.{Setup, is_subscribed}
use dse.Indexer.{Effect, handle_network_event, on_new_query}
use dse.NetworkClient.{publish_message, answer_for, await}
use dse.NetworkClient.Exchanges.{emitted_event}

-- `Into<Vec<u8>>`: a message that serde cannot write is sent as no bytes.
abbrev written : Option Bytes → Bytes
written none = []
written (some bytes) = bytes

unfoldable pub into : Json GossipsubMessage → GossipsubMessage → Bytes
into json m = written (json.to_vec m)

-- The topic and the text of what a task publishes.
unfoldable pub published_as : Json GossipsubMessage → List Output → Option (Bytes × Bytes)
unfolding into
published_as json [] = none
published_as json (publish t m ∷ out) = some (t, into json m)
published_as json (_ ∷ out) = published_as json out

-- The publishing node, with what its swarm answers and the sender that its client makes; and the
-- node that hears it, with what its start did.
pub record Ends : Type 0 where
  pub publisher : PeerId
  pub publishing : Network
  pub publishing_swarm : Swarm
  pub publishing_sender : Sender
  pub hearer : Network
  pub setup : List Setup

module _ (json : Json GossipsubMessage) where
  -- What the publishing client gets, and what goes out.
  unfoldable pub publish_round :
      Ends → GossipsubMessage → Option (Result Bytes) × Option (Bytes × Bytes)
  unfolding publish_message answer_for await published_as
  publish_round x m =
      let (n, out) =
        command_handler x.publishing_swarm x.publishing
          ((publish_message m).to_command x.publishing_sender) in
      (await (publish_message m) (answer_for x.publishing_sender n out), published_as json out)

  -- The swarm's event at the node that hears a topic, if it does.
  unfoldable pub heard : Ends → Option (Bytes × Bytes) → Option NetworkEvent
  heard x none = none
  heard x (some (t, text)) =
      if is_subscribed t x.setup
      then emitted_event
          (swarm_event_handler json.from_slice x.hearer
            (gossip (record { source = some x.publisher; text = text }))).1
      else none

  module _ ⦃e : Backend⦄ where
    abbrev pub handle_heard : e.Db → Option NetworkEvent → Result (e.Db × List Effect)
    handle_heard d none = ok (d, [])
    handle_heard d (some ev) = handle_network_event d ev

    -- A message that could not be published reaches nobody.
    abbrev pub carry :
        e.Db → Ends → Option (Bytes × Bytes) → Option (Result Bytes) → Result (e.Db × List Effect)
    carry d x out (some (ok id)) = handle_heard d (heard x out)
    carry d x out _ = ok (d, [])

    unfoldable pub gossip_round : e.Db → Ends → GossipsubMessage → Result (e.Db × List Effect)
    unfolding publish_round heard
    gossip_round d x m = let (answered, out) = publish_round x m in carry d x out answered
