-- ===== src/Server.antt =====
-- src/server.rs: the requests of the user. What the network client answers is an argument: the
-- node's own details, the outcome of a publication, and the response to an exchange request.
pub mod Trades
pub mod Sockets
pub mod Routes
use dse.Base.{
  ℕ, ◌+◌, Bool, true, false, List, [], ◌∷◌, Option, none, some, if◌then◌else◌, Result, ok, err,
  panic, ◌>>=◌,
}
use dse.Types.{
  Address, PeerId, Multiaddr, QueryData, Query, QueryId, BidData, Bid, TradeQuote, IWant, Trade,
  TradeStatus, waiting_r_t1_commit,
}
use dse.Types.Messages.{
  ExchangeRequest, i_want, start_commit, ExchangeResponse, ack, bad, GossipsubMessage, new_query,
}
use dse.Backend.{Backend}
use dse.Storage.{
  add_query_sent, add_active_trade, find_i_want, get_all_queries_sent, get_all_queries_recv,
  find_all_bids_recv_by_query_id,
}
use dse.EthNode.{EthNode}

pub data ReceivedMessage : Type 0 where
  place_bid : BidData → ReceivedMessage
  user_query : QueryData → ReceivedMessage
  accept_bid : QueryId → PeerId → ReceivedMessage
  user_start_commit : TradeQuote → ReceivedMessage
  user_i_want : Multiaddr → PeerId → ℕ → ReceivedMessage

pub data StatusCode : Type 0 where
  status_ok internal_server_error : StatusCode

-- What the handler put on the network before it returned.
pub data Outgoing : Type 0 where
  publish : GossipsubMessage → Outgoing
  request : PeerId → ExchangeRequest → Outgoing

-- `network_details`.
abbrev pub Details : Type 0
Details = Result (PeerId × Multiaddr)

-- `Query::from_data`: the id is always 1.
unfoldable pub query_from_data : QueryData → Address → PeerId × Multiaddr → Query
query_from_data data' wallet (node_id, node_addr) = record {
  id = 1;
  query_data = data';
  requester_addr = node_addr;
  requester_id = node_id;
  requester_wallet_address = wallet;
}

-- `Bid::from_data`.
unfoldable pub bid_from_data : BidData → Address → PeerId × Multiaddr → Bid
bid_from_data data' wallet (node_id, node_addr) = record {
  query_id = data'.query_id;
  provider_addr = node_addr;
  provider_id = node_id;
  provider_wallet_address = wallet;
  charge = data'.charge;
}

-- `Trade::from_quote`.
unfoldable pub from_quote : TradeQuote → IWant → TradeStatus → Bool → PeerId × Multiaddr → Trade
from_quote quote want status is_requester (node_id, node_addr) = record {
  id = quote.id;
  requester_addr = want.requester_addr;
  requester_id = want.requester_id;
  provider_addr = node_addr;
  provider_id = node_id;
  charge = quote.charge;
  status = status;
  is_requester = is_requester;
}

-- `IWant { .. }` of the node itself.
abbrev pub own_i_want : ℕ → PeerId × Multiaddr → IWant
own_i_want id (node_id, node_addr) = record {
  requester_id = node_id;
  requester_addr = node_addr;
  id = id;
}

module _ ⦃e : Backend⦄ where
  abbrev pub Reply : Type 0
  Reply = e.Db × StatusCode × List Outgoing

  abbrev pub refuse : e.Db → List Outgoing → Reply
  refuse d out = (d, internal_server_error, out)

  abbrev pub published : e.Db → Query → Result (Unit {0}) → Reply
  published d query (ok _) = (add_query_sent d query, status_ok, publish (new_query query) ∷ [])
  published d query _ = refuse d (publish (new_query query) ∷ [])

  unfoldable pub post_query : EthNode → e.Db → QueryData → Details → Result (Unit {0}) → Reply
  unfolding query_from_data
  post_query node d q (ok details) publication =
      published d (query_from_data q node.timelocked_wallet details) publication
  post_query node d q _ publication = refuse d []

  abbrev pub wanted : e.Db → PeerId → IWant → Result ExchangeResponse → Reply
  wanted d provider msg (ok ack) = (d, status_ok, request provider (i_want msg) ∷ [])
  wanted d provider msg _ = refuse d (request provider (i_want msg) ∷ [])

  unfoldable pub post_i_want : e.Db → PeerId → ℕ → Details → Result ExchangeResponse → Reply
  post_i_want d provider id (ok details) response =
      wanted d provider (own_i_want id details) response
  post_i_want d provider id _ response = refuse d []

  abbrev pub started : e.Db → Trade → Result ExchangeResponse → Reply
  started d trade (ok ack) =
      (add_active_trade d trade, status_ok, request trade.requester_id (start_commit trade) ∷ [])
  started d trade _ = refuse d (request trade.requester_id (start_commit trade) ∷ [])

  abbrev pub quoted : e.Db → TradeQuote → Option IWant → Details → Result ExchangeResponse → Reply
  quoted d quote (some want) (ok details) response =
      started d (from_quote quote want waiting_r_t1_commit false details) response
  quoted d quote _ _ response = refuse d []

  unfoldable pub post_start_commit :
      e.Db → TradeQuote → Details → Result ExchangeResponse → Result Reply
  unfolding from_quote
  post_start_commit d quote details response =
      find_i_want d quote.id >>= λ want. ok (quoted d quote want details response)

  -- `PlaceBid` and `AcceptBid` are refused: their code is commented out.
  unfoldable pub handle_post :
      EthNode
      → e.Db
      → ReceivedMessage
      → Details
      → Result (Unit {0})
      → Result ExchangeResponse
      → Result Reply
  unfolding post_query post_i_want post_start_commit
  handle_post node d (user_query q) details publication response =
      ok (post_query node d q details publication)
  handle_post node d (place_bid b) details publication response = ok (refuse d [])
  handle_post node d (accept_bid q p) details publication response = ok (refuse d [])
  handle_post node d (user_i_want addr provider id) details publication response =
      ok (post_i_want d provider id details response)
  handle_post node d (user_start_commit quote) details publication response =
      post_start_commit d quote details response

  abbrev pub handle_get_userqueries : e.Db → List Query
  handle_get_userqueries d = get_all_queries_sent d

  abbrev pub handle_get_recvqueries : e.Db → List Query
  handle_get_recvqueries d = get_all_queries_recv d

  abbrev pub handle_get_querybids : e.Db → QueryId → List Bid
  handle_get_querybids d query_id = find_all_bids_recv_by_query_id d query_id
