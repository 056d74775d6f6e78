-- ===== src/Protocol.antt =====
-- src/indexer.rs and src/commit_procedure.rs on both sides of one trade: two nodes, whose tasks and
-- messages take turns in any order. A node keeps its database and the tasks that it spawned.
-- Whether a `send` of the trade already runs is not tested, so the steps include more orders than
-- the timer would start.
pub mod Stall
pub mod Delivery
pub mod Sides
pub mod History
pub mod Completion
use dse.Base.{
  ℕ, ◌≡◌, ◌≢◌, Bool, true, false, List, [], ◌∷◌, ◌++◌, Option, none, some, Result, ok, err,
}
use dse.Types.{PeerId, Trade, Commit, is_sending_status}
use dse.Types.Messages.{
  ExchangeRequest, ExchangeResponse, RequestId, NetworkEvent, exchange_request,
}
use dse.Backend.{Backend}
use dse.Storage.{find_active_trade}
use dse.Commit.{Crypto}
use dse.EthNode.{EthNode}
use dse.Loading.{LoopEvent}
use dse.Procedure.{CommitProcedureEvent, outgoing, send, verify, verified, loading}
use dse.Indexer.{Effect, spawn_verify, handle_network_event}
use dse.Indexer.Handlers.{CommitMessage, message}

pub data Side : Type 0 where
  requester provider : Side

abbrev pub other_side : Side → Side
other_side requester = provider
other_side provider = requester

module _ ⦃e : Backend⦄ where
  pub record Node : Type 0 where
    pub db : e.Db
    pub tasks : List Effect

  pub record World : Type 0 where
    pub requester_node : Node
    pub provider_node : Node

  abbrev pub node_of : Side → World → Node
  node_of requester w = w.requester_node
  node_of provider w = w.provider_node

  abbrev pub set_node : Side → Node → World → World
  set_node requester n w = record w { requester_node = n }
  set_node provider n w = record w { provider_node = n }

  module _ (k : Crypto) (chain : Side → EthNode) (peer : Side → PeerId) (id : ℕ) where
    -- One step of either node on the trade of this id.
    pub data Step : World → World → Type 0 where
      -- The procedure `send` runs, on whatever answer.
      sends :
          (x : Side) (w : World) (t : Trade) (answer : Result ExchangeResponse) (d : e.Db)
          (event : CommitProcedureEvent)
          → find_active_trade (node_of x w).db id ≡ ok t
          → is_sending_status t ≡ true
          → send (node_of x w).db t answer ≡ ok (d, event)
          → Step w (set_node x (record { db = d; tasks = (node_of x w).tasks }) w)
      -- The request that a `send` puts out arrives at the other node, if it is for this node.
      arrives :
          (x : Side) (w : World) (t : Trade) (r : ExchangeRequest) (rid : RequestId) (d : e.Db)
          (effects : List Effect)
          → find_active_trade (node_of x w).db id ≡ ok t
          → is_sending_status t ≡ true
          → outgoing t ≡ ok (peer (other_side x), r)
          → handle_network_event (node_of (other_side x) w).db (exchange_request (peer x) rid r)
            ≡ ok (d, effects)
          → Step w (
              set_node
                (other_side x)
                (record { db = d; tasks = effects ++ (node_of (other_side x) w).tasks })
                w)
      -- A third peer sends a commit message for the trade.
      intrudes :
          (x : Side) (w : World) (p : PeerId) (m : CommitMessage) (c : Commit) (rid : RequestId)
          (d : e.Db) (effects : List Effect)
          → p ≢ peer requester
          → p ≢ peer provider
          → handle_network_event (node_of x w).db (exchange_request p rid (message m id c))
            ≡ ok (d, effects)
          → Step w (set_node x (record { db = d; tasks = effects ++ (node_of x w).tasks }) w)
      -- The procedure `verify`, which was spawned, runs.
      verifies :
          (x : Side) (w : World) (t : Trade) (c : Commit) (dht : Result (List PeerId))
          (subscribed : Bool) (now : ℕ) (events : List LoopEvent) (before after : List Effect)
          (d : e.Db)
          → (node_of x w).tasks ≡ before ++ spawn_verify t c ∷ after
          → verify k (chain x) (node_of x w).db t c dht subscribed now events ≡ verified d
          → Step w (set_node x (record { db = d; tasks = before ++ after }) w)

    pub data Reach : World → World → Type 0 where
      start : (w : World) → Reach w w
      then_step : {u v w : World} → Reach u v → Step v w → Reach u w
