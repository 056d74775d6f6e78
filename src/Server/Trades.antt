-- ===== src/Server/Trades.antt =====
-- src/server.rs and src/indexer.rs: a trade from the provider's quote to the requester's storage,
-- and queries of the user.
use dse.Base.{ℕ, ◌^◌, ◌<◌, ◌≡◌, ◌≢◌, refl, false, [], ◌∷◌, some, ok, err, arith, inl, inr, Error}
use dse.Types.{
  PeerId, Multiaddr, QueryData, TradeQuote, IWant, Trade, waiting_r_t1_commit, r_send_t1_commit,
  update_status, counter_party_details, Commit,
}
use dse.Types.Messages.{start_commit, ack, bad, RequestId, exchange_request}
use dse.Backend.{Backend, IsSound}
use dse.Storage.{
  find_i_want, find_active_trade, add_active_trade, add_query_sent, find_query_sent_by_query_id,
}
use dse.Storage.Trades.{find_active_trade-add_active_trade}
use dse.Storage.Queries.{find_query-add_query_sent}
use dse.EthNode.{EthNode}
use dse.Indexer.{respond, handle_network_event, on_exchange_request}
use dse.Indexer.Handlers.{CommitMessage, message, on_commit_message}
use dse.Server.{
  status_ok, internal_server_error, request, from_quote, query_from_data, post_query,
  post_start_commit,
}

module _ ⦃e : Backend⦄ (s : IsSound e) where
  -- A quote for a want that the node stored, whose start is acknowledged by the requester, makes the
  -- node the provider of a trade with the requester, at the quoted charge, that awaits the
  -- requester's first commit: this trade goes to the requester, and is what is found afterwards.
  -- Any other answer leaves the database as it was, after the same request, and is an error.
  pub post_start_commit_lem :
      (d : e.Db) (quote : TradeQuote) (want : IWant) (id : PeerId) (addr : Multiaddr)
      → quote.id < 2 ^ 32
      → find_i_want d quote.id ≡ ok (some want)
      → let t = from_quote quote want waiting_r_t1_commit false (id, addr) in
        (find_active_trade (add_active_trade d t) quote.id ≡ ok t)
        × ((counter_party_details t).0 ≡ want.requester_id)
        × (post_start_commit d quote (ok (id, addr)) (ok ack)
            ≡ ok (add_active_trade d t, status_ok, request want.requester_id (start_commit t) ∷ []))
        × (post_start_commit d quote (ok (id, addr)) (ok bad)
            ≡ ok (d, internal_server_error, request want.requester_id (start_commit t) ∷ []))
        × ((x : Error)
            → post_start_commit d quote (ok (id, addr)) (err x)
              ≡ ok (d, internal_server_error, request want.requester_id (start_commit t) ∷ []))
  unfolding post_start_commit from_quote
  post_start_commit_lem d quote want id addr small h =
      let t = from_quote quote want waiting_r_t1_commit false (id, addr) in
      (
        ground (arith, find_active_trade-add_active_trade s d t quote.id small small),
        refl,
        rw h,
        rw h,
        λ x. rw h,
      )

  -- While a trade is stored with the node itself as its counter party, every commit message for it
  -- from another peer is refused, whatever its status.
  self_addressed_refuses :
      (d : e.Db) (m : CommitMessage) (t : Trade) (sender : PeerId) (rid : RequestId) (c : Commit)
      → find_active_trade d t.id ≡ ok t
      → (counter_party_details t).0 ≢ sender
      → on_exchange_request d sender rid (message m t.id c) ≡ ok (d, respond sender rid bad ∷ [])
  self_addressed_refuses d m t sender rid c h ne =
      elim (on_commit_message s m d sender rid t.id c) [
        | inl (t', a, p) ↦ absurd (ne (ground (arith, a.known, a.from_party, h)))
        | inr (none_fits, p) ↦ p
      ]

  -- The requester stores the provider's trade with the provider's view of who is who: on its side,
  -- too, the counter party is the requester. So it acknowledges the start, and then refuses every
  -- commit message for this trade that the provider sends.
  pub start_commit_self_addressed :
      (d : e.Db) (quote : TradeQuote) (want : IWant) (id : PeerId) (addr : Multiaddr)
      (rid : RequestId)
      → quote.id < 2 ^ 32
      → want.requester_id ≢ id
      → let t = from_quote quote want waiting_r_t1_commit false (id, addr) in
        (d' : e.Db) × (handle_network_event d (exchange_request id rid (start_commit t))
          ≡ ok (d', respond id rid ack ∷ []))
        × (find_active_trade d' quote.id ≡ ok (update_status t r_send_t1_commit))
        × ((counter_party_details (update_status t r_send_t1_commit)).0 ≡ want.requester_id)
        × ((m : CommitMessage) (next : RequestId) (c : Commit)
            → on_exchange_request d' id next (message m quote.id c)
              ≡ ok (d', respond id next bad ∷ []))
  unfolding handle_network_event from_quote
  start_commit_self_addressed d quote want id addr rid small ne =
      let t : Trade =
        update_status (from_quote quote want waiting_r_t1_commit false (id, addr))
          r_send_t1_commit in
      let d' = add_active_trade d t in
      let found : find_active_trade d' quote.id ≡ ok t =
        ground (arith, find_active_trade-add_active_trade s d t quote.id small small) in
      (d', refl, found, refl, λ m next c. self_addressed_refuses d' m t id next c found ne)

  -- Two queries that the user posts, both published: only the second is found under its id, which is
  -- 1, the first one's too. Under any other id of 32 bits the same is found as before.
  pub post_query_overwrites :
      (node : EthNode) (d : e.Db) (p q : QueryData) (a b : PeerId × Multiaddr) (id : ℕ)
      → id < 2 ^ 32
      → id ≢ 1
      → let d₁ = (post_query node d p (ok a) (ok tt)).0 in
        let d₂ = (post_query node d₁ q (ok b) (ok tt)).0 in
        let query = query_from_data q node.timelocked_wallet b in
        (find_query_sent_by_query_id d₂ 1 ≡ ok query)
        × (find_query_sent_by_query_id d₂ id ≡ find_query_sent_by_query_id d id)
  unfolding post_query query_from_data
  post_query_overwrites node d p q a b id small other =
      let first = query_from_data p node.timelocked_wallet a in
      let second = query_from_data q node.timelocked_wallet b in
      let d₁ = add_query_sent d first in
      (
        ground (arith, (find_query-add_query_sent s d₁ second 1 (omega arith) (omega arith)).0),
        ground (
          arith,
          (find_query-add_query_sent s d first id (omega arith) small).0,
          (find_query-add_query_sent s d₁ second id (omega arith) small).0,
        ),
      )
