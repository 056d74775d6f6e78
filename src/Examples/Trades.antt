-- ===== src/Examples/Trades.antt =====
-- A trade of two nodes from its first commit to its last, at concrete nodes.
use dse.Base.{◌≡◌, refl, true, false, [], ◌∷◌, ok, err, network_failed, arith}
use dse.Types.{
  PeerId, Trade, counter_party_details, waiting_r_t1_commit, r_send_t1_commit, waiting_for_service,
  p_fulfill_service,
}
use dse.Storage.Frames.{add_active_trade-IsWellFormed}
use dse.EthNode.{EthNode}
use dse.Loading.{load_commit_history}
use dse.Protocol.{Side, requester, provider, other_side, World, Reach}
use dse.Protocol.Sides.{Lookup, Returns, IsAt, IsMatched}
use dse.Protocol.Completion.{trade_completes}
use dse.Examples.Memory.{memory, memory_sound, empty, alice, bob, crypto, node, trade_with}
use dse.Examples.Stores.{empty-IsWellFormed}
use dse.Examples.Nodes.{one_trade_of_bob, one_trade_of_bob-find}
use dse.Examples.Rounds.{at_alice, at_alice-find}

abbrev trade : Side → Trade
trade requester = trade_with r_send_t1_commit true
trade provider = trade_with waiting_r_t1_commit false

abbrev peer : Side → PeerId
peer requester = alice
peer provider = bob

abbrev chain : Side → EthNode
chain x = node

-- The requester cannot look up the providers of a history, the provider does not get the events.
abbrev lookup : Side → Lookup
lookup requester = record {
  providers = err network_failed;
  subscribed = true;
  now = 0;
  events = [];
}
lookup provider = record { providers = ok (alice ∷ []); subscribed = false; now = 0; events = [] }

abbrev two_nodes : World
two_nodes = record {
  requester_node = record { db = at_alice; tasks = [] };
  provider_node = record { db = one_trade_of_bob; tasks = [] };
}

lookup-Returns : (x : Side) → Returns crypto chain lookup x
unfolding load_commit_history
lookup-Returns requester d = (err network_failed, d, [], refl)
lookup-Returns provider d = (err network_failed, d, [], refl)

trade-same_id : (x : Side) → (trade x).id ≡ 5
trade-same_id requester = refl
trade-same_id provider = refl

trade-party : (x : Side) → (counter_party_details (trade x)).0 ≡ peer (other_side x)
trade-party requester = refl
trade-party provider = refl

trade-IsMatched : IsMatched peer 5 trade
trade-IsMatched = record { small = omega arith; same_id = trade-same_id; party = trade-party }

alice_is_at : IsAt memory_sound 5 trade requester r_send_t1_commit at_alice
alice_is_at = record {
  sound =
      add_active_trade-IsWellFormed memory_sound empty (trade_with r_send_t1_commit true)
        empty-IsWellFormed;
  known = at_alice-find;
}

bob_is_at : IsAt memory_sound 5 trade provider waiting_r_t1_commit one_trade_of_bob
bob_is_at = record {
  sound =
      add_active_trade-IsWellFormed memory_sound empty (trade_with waiting_r_t1_commit false)
        empty-IsWellFormed;
  known = one_trade_of_bob-find;
}

trade_completes_example :
    (w' : World) × Reach crypto chain peer 5 two_nodes w'
    × IsAt memory_sound 5 trade requester waiting_for_service w'.requester_node.db
    × IsAt memory_sound 5 trade provider p_fulfill_service w'.provider_node.db
trade_completes_example =
    trade_completes memory_sound crypto chain peer 5 trade lookup trade-IsMatched two_nodes
      lookup-Returns alice_is_at bob_is_at
