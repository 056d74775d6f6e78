-- ===== src/Server/Routes/Answers.antt =====
-- src/server.rs: what a request can do to the database.
use dse.Base.{
  ℕ, ◌≡◌, refl, ◌∙◌, true, false, List, [], ◌∷◌, Option, none, some, Result, ok, err, panic, ◌⊎◌,
  inl, inr, subst, ap, Ensures, Ensures-bind, Ensures-ok, Option-cases, arith,
}
use dse.Base.Bytes.{codes}
use dse.Types.{PeerId, QueryData, Query, Trade, TradeQuote, IWant, waiting_r_t1_commit}
use dse.Types.Messages.{ExchangeResponse, ack, bad}
use dse.Backend.{Backend, IsSound}
use dse.Storage.{add_query_sent}
use dse.Storage.Invariant.{IsWellFormed}
use dse.Storage.Frames.{add_active_trade-IsWellFormed}
use dse.Storage.Writes.{write, query_sent, write-IsWellFormed, find_i_want_total}
use dse.EthNode.{EthNode}
use dse.Server.{
  ReceivedMessage, place_bid, user_query, accept_bid, user_start_commit, user_i_want, status_ok,
  Outgoing, Details, handle_post, Reply, started, quoted, post_i_want, own_i_want, from_quote,
  published, wanted, post_query, post_start_commit, query_from_data,
}
use dse.Server.Routes.{
  Warp, Call, posts, lists_sent, lists_received, lists_bids, connects, Route,
  with_json_recv_message, post_action, get_user_queries, get_recv_queries, get_bids_of_query,
  ws_main, first_of, main, Answer, status, call, serve,
}

-- The conditions of `post_action`.
pub record IsPosted (warp : Warp) (r : warp.Request) (m : ReceivedMessage) : Type 0 where
  pub by_post : warp.is_post r ≡ true
  pub at_action : warp.path (codes "action") r ≡ true
  pub short : warp.content_length_limit 16384 r ≡ true
  pub read : warp.json r ≡ some m

module _ (warp : Warp) (r : warp.Request) where
  post_action-IsPosted :
      (m : ReceivedMessage) → post_action warp r ≡ some (posts m) → IsPosted warp r m
  unfolding post_action with_json_recv_message
  post_action-IsPosted m p = record {
    by_post = ground arith;
    at_action = ground arith;
    short = ground arith;
    read = ground arith;
  }

  -- Only the first route calls the handler of posts.
  abbrev others : List (Route warp)
  others =
      get_user_queries warp ∷ get_recv_queries warp ∷ get_bids_of_query warp ∷ ws_main warp ∷ []

  others_read : (m : ReceivedMessage) → first_of warp others r ≡ some (posts m) → ⊥
  unfolding first_of get_user_queries get_recv_queries get_bids_of_query ws_main
  others_read m p = ground arith

  first_of-posts :
      (m : ReceivedMessage) → first_of warp (main warp) r ≡ some (posts m) → IsPosted warp r m
  unfolding first_of
  first_of-posts m p = elim (Option-cases (post_action warp r)) [
    | inl q ↦ absurd (others_read m (rw q at p))
    | inr (c, q) ↦ post_action-IsPosted m (q ∙ (rw q at p))
  ]

module _ ⦃e : Backend⦄ (s : IsSound e) (node : EthNode) (d : e.Db) (details : Details)
    (publication : Result (Unit {0})) (response : Result ExchangeResponse)
    (w : IsWellFormed s d) where
  -- A handler of a post: the database is well formed, and if it is not the old one, all went well.
  abbrev IsReply : Reply → Type 0
  IsReply (d', code, out) = IsWellFormed s d' × ((d' ≡ d) ⊎ (code ≡ status_ok))

  published-IsReply : (q : Query) (p : Result (Unit {0})) → IsReply (published d q p)
  unfolding write
  published-IsReply q (ok x) =
      let (d', p, w') = write-IsWellFormed s d (query_sent q) w in
      let same : d' ≡ add_query_sent d q = cc in (subst (IsWellFormed s) same w', inr refl)
  published-IsReply q (err x) = (w, inl refl)
  published-IsReply q panic = (w, inl refl)

  post_query-IsReply : (q : QueryData) (a : Details) → IsReply (post_query node d q a publication)
  unfolding post_query
  post_query-IsReply q (ok a) =
      published-IsReply (query_from_data q node.timelocked_wallet a) publication
  post_query-IsReply q (err x) = (w, inl refl)
  post_query-IsReply q panic = (w, inl refl)

  wanted-IsReply : (p : PeerId) (m : IWant) (a : Result ExchangeResponse) → IsReply (wanted d p m a)
  wanted-IsReply p m (ok ack) = (w, inl refl)
  wanted-IsReply p m (ok bad) = (w, inl refl)
  wanted-IsReply p m (err x) = (w, inl refl)
  wanted-IsReply p m panic = (w, inl refl)

  post_i_want-IsReply :
      (p : PeerId) (id : ℕ) (a : Details) → IsReply (post_i_want d p id a response)
  unfolding post_i_want
  post_i_want-IsReply p id (ok a) = wanted-IsReply p (own_i_want id a) response
  post_i_want-IsReply p id (err x) = (w, inl refl)
  post_i_want-IsReply p id panic = (w, inl refl)

  started-IsReply : (t : Trade) (a : Result ExchangeResponse) → IsReply (started d t a)
  started-IsReply t (ok ack) = (add_active_trade-IsWellFormed s d t w, inr refl)
  started-IsReply t (ok bad) = (w, inl refl)
  started-IsReply t (err x) = (w, inl refl)
  started-IsReply t panic = (w, inl refl)

  quoted-IsReply :
      (quote : TradeQuote) (want : Option IWant) (a : Details)
      → IsReply (quoted d quote want a response)
  quoted-IsReply quote none a = (w, inl refl)
  quoted-IsReply quote (some want) (ok a) =
      started-IsReply (from_quote quote want waiting_r_t1_commit false a) response
  quoted-IsReply quote (some want) (err x) = (w, inl refl)
  quoted-IsReply quote (some want) panic = (w, inl refl)

  handle_post-IsReply :
      (m : ReceivedMessage) → Ensures IsReply (handle_post node d m details publication response)
  unfolding handle_post post_start_commit
  handle_post-IsReply (place_bid b) = (w, inl refl)
  handle_post-IsReply (user_query q) = post_query-IsReply q details
  handle_post-IsReply (accept_bid q p) = (w, inl refl)
  handle_post-IsReply (user_i_want a p id) = post_i_want-IsReply p id details
  handle_post-IsReply (user_start_commit quote) = elim (find_i_want_total s d quote.id w) [
    | inl p ↦ rw p (quoted-IsReply quote none details)
    | inr (want, p, _) ↦ rw p (quoted-IsReply quote (some want) details)
  ]

  module _ (warp : Warp) (r : warp.Request) where
    -- The database after a request, and the answer.
    abbrev IsAnswer : e.Db × Answer → Type 0
    IsAnswer (d', a) =
        IsWellFormed s d'
        × ((d' ≡ d)
            ⊎ ((m : ReceivedMessage) × IsPosted warp r m
                × ((out : List Outgoing) × (a ≡ status status_ok out))))

    call-IsAnswer :
        (c : Option Call)
        → ((m : ReceivedMessage) → c ≡ some (posts m) → IsPosted warp r m)
        → Ensures IsAnswer (call node d details publication response c)
    unfolding call
    call-IsAnswer none h = (w, inl refl)
    call-IsAnswer (some (posts m)) h =
        Ensures-bind IsReply IsAnswer (handle_post node d m details publication response) _
          (handle_post-IsReply m)
          (λ (d', code, out) (w', c). (
            w',
            elim c [
              | inl same ↦ inl same
              | inr fine ↦ inr (m, h m refl, (out, ap (λ x. status x out) fine))
            ],
          ))
    call-IsAnswer (some lists_sent) h = (w, inl refl)
    call-IsAnswer (some lists_received) h = (w, inl refl)
    call-IsAnswer (some (lists_bids id)) h = (w, inl refl)
    call-IsAnswer (some connects) h = (w, inl refl)

    -- On a well-formed database every request of the user is answered without a panic and leaves it
    -- well formed. The database changes by nothing but a POST under `action` whose body is not longer
    -- than the limit and is read as a message, and only if the answer is OK.
    pub serve_lem :
        (d' : e.Db) × (a : Answer) × (serve node d details publication response warp r ≡ ok (d', a))
        × IsWellFormed s d'
        × ((d' ≡ d)
            ⊎ ((m : ReceivedMessage) × IsPosted warp r m
                × ((out : List Outgoing) × (a ≡ status status_ok out))))
    unfolding serve
    serve_lem =
        let ((d', a), p, h) =
          Ensures-ok IsAnswer (serve node d details publication response warp r)
            (call-IsAnswer (first_of warp (main warp) r) (first_of-posts warp r)) in
        (d', a, p, h.0, h.1)
