-- ===== src/Server/Routes.antt =====
-- src/server.rs: `Server::start`, the routes of the user's HTTP requests. A request and the tests that
-- warp makes of it are parameters.
pub mod Order
pub mod Answers
use dse.Base.{
  ℕ, ◌*◌, ◌≡◌, Bool, true, false, ◌&&◌, List, [], ◌∷◌, Option, none, some, if◌then◌else◌, Result,
  ok, ◌>>=◌,
}
use dse.Base.Bytes.{Bytes, codes}
use dse.Types.{Query, QueryId, Bid}
use dse.Types.Messages.{ExchangeResponse}
use dse.Backend.{Backend}
use dse.EthNode.{EthNode}
use dse.Server.{
  ReceivedMessage, StatusCode, Outgoing, Details, handle_post, handle_get_userqueries,
  handle_get_recvqueries, handle_get_querybids,
}

-- warp's filters, as tests of a request: its method, its first path segment, a path of a segment and
-- a u32 that ends there, the header of a websocket, the limit on the length, and the body's JSON.
pub record Warp : Type 1 where
  pub Request : Type 0
  pub is_get : Request → Bool
  pub is_post : Request → Bool
  pub is_ws : Request → Bool
  pub path : Bytes → Request → Bool
  pub path_u32 : Bytes → Request → Option ℕ
  pub content_length_limit : ℕ → Request → Bool
  pub json : Request → Option ReceivedMessage

-- What warp's documentation says of them: a path filter tests the first segment of a request's path,
-- and there is one.
pub record IsWarp (warp : Warp) : Type 0 where
  pub one_segment :
      (r : warp.Request) (a b : Bytes) → warp.path a r ≡ true → warp.path b r ≡ true → a ≡ b
  pub starts_with :
      (r : warp.Request) (a : Bytes) {n : ℕ} → warp.path_u32 a r ≡ some n → warp.path a r ≡ true

-- The handler that a route calls, with what its filters extract.
pub data Call : Type 0 where
  posts : ReceivedMessage → Call
  lists_sent lists_received connects : Call
  lists_bids : QueryId → Call

module _ (warp : Warp) where
  abbrev pub Route : Type 0
  Route = warp.Request → Option Call

  abbrev read_message : Option ReceivedMessage → Option Call
  read_message (some m) = some (posts m)
  read_message none = none

  -- Only 16 kb of data in the body.
  unfoldable pub with_json_recv_message : Route
  with_json_recv_message r =
      if warp.content_length_limit (1024 * 16) r then read_message (warp.json r) else none

  unfoldable pub post_action : Route
  unfolding with_json_recv_message
  post_action r =
      if warp.is_post r && warp.path (codes "action") r then with_json_recv_message r else none

  unfoldable pub get_user_queries : Route
  get_user_queries r =
      if warp.is_get r && warp.path (codes "userqueries") r then some lists_sent else none

  unfoldable pub get_recv_queries : Route
  get_recv_queries r =
      if warp.is_get r && warp.path (codes "recvqueries") r then some lists_received else none

  abbrev bids_of : Option ℕ → Option Call
  bids_of (some id) = some (lists_bids id)
  bids_of none = none

  unfoldable pub get_bids_of_query : Route
  get_bids_of_query r =
      if warp.is_get r then bids_of (warp.path_u32 (codes "querybids") r) else none

  unfoldable pub ws_main : Route
  ws_main r = if warp.path (codes "connect") r && warp.is_ws r then some connects else none

  -- `or`: the second filter is tried when the first rejects.
  abbrev or_else : Option Call → Option Call → Option Call
  or_else (some c) other = some c
  or_else none other = other

  unfoldable pub first_of : List Route → Route
  first_of [] r = none
  first_of (f ∷ fs) r = or_else (f r) (first_of fs r)

  abbrev pub main : List Route
  main = post_action ∷ get_user_queries ∷ get_recv_queries ∷ get_bids_of_query ∷ ws_main ∷ []

-- What the user gets: a rejection is answered by warp.
pub data Answer : Type 0 where
  status : StatusCode → List Outgoing → Answer
  queries : List Query → Answer
  bids : List Bid → Answer
  upgraded rejected : Answer

module _ ⦃e : Backend⦄ (node : EthNode) (d : e.Db) (details : Details)
    (publication : Result (Unit {0})) (response : Result ExchangeResponse) where
  unfoldable pub call : Option Call → Result (e.Db × Answer)
  unfolding handle_post
  call (some (posts m)) = handle_post node d m details publication response >>= λ (d', code, out).
      ok (d', status code out)
  call (some lists_sent) = ok (d, queries (handle_get_userqueries d))
  call (some lists_received) = ok (d, queries (handle_get_recvqueries d))
  call (some (lists_bids id)) = ok (d, bids (handle_get_querybids d id))
  call (some connects) = ok (d, upgraded)
  call none = ok (d, rejected)

  unfoldable pub serve : (warp : Warp) → warp.Request → Result (e.Db × Answer)
  unfolding call first_of post_action get_user_queries get_recv_queries get_bids_of_query ws_main
  serve warp r = call (first_of warp (main warp) r)
