-- ===== src/Storage/Queries.antt =====
-- src/storage.rs: queries and bids: searches after a write, each in its own tree.
use dse.Base.{
  ℕ, ◌^◌, ◌<◌, ◌≡◌, ◌≢◌, refl, ap, List, [], ◌∷◌, map, some, ◌==◌, if◌then◌else◌, find, ok, All,
  arith,
}
use dse.Base.Bytes.{Bytes, bytes_eq}
use dse.Base.Trees.{put}
use dse.Types.{PeerId, QueryId, Query, Bid}
use dse.Backend.{Backend, IsSound}
use dse.Storage.{
  store, is_bid_of, add_query_sent, add_query_received, find_query_sent_by_query_id,
  find_query_received_by_query_id, add_bid_received_for_query, find_bid_received, bids_of,
}
use dse.Storage.Names.{queries_sent, queries_received}
use dse.Storage.Views.{decode-find-store, decode-find-store_other, entries-store_same}
use dse.Storage.Invariant.{Tree, IsEntry, IsWellFormed}

names_differ : queries_sent ≢ queries_received
names_differ h = omega (arith, ap (λ b. byte b) h)
  where
    byte : Bytes → ℕ
    byte (_ ∷ _ ∷ _ ∷ _ ∷ _ ∷ _ ∷ _ ∷ _ ∷ b ∷ _) = b
    byte _ = 0

module _ ⦃e : Backend⦄ (s : IsSound e) where
  -- A query that was sent is found among the queries sent under its id, which hides no other id
  -- (of 32 bits), and the queries received are found as before.
  pub find_query-add_query_sent :
      (d : e.Db) (q : Query) (id : QueryId)
      → q.id < 2 ^ 32
      → id < 2 ^ 32
      → (find_query_sent_by_query_id (add_query_sent d q) id
          ≡ (if q.id == id then ok q else find_query_sent_by_query_id d id))
        × (find_query_received_by_query_id (add_query_sent d q) id
            ≡ find_query_received_by_query_id d id)
  unfolding find_query_sent_by_query_id add_query_sent find_query_received_by_query_id
  find_query-add_query_sent d q id hq hi = (
    decode-find-store s e.query d queries_sent q.id id q s.query_round hq hi,
    decode-find-store_other s e.query d queries_sent queries_received _ _ _ names_differ,
  )

  pub find_query-add_query_received :
      (d : e.Db) (q : Query) (id : QueryId)
      → q.id < 2 ^ 32
      → id < 2 ^ 32
      → find_query_received_by_query_id (add_query_received d q) id
        ≡ (if q.id == id then ok q else find_query_received_by_query_id d id)
  unfolding find_query_received_by_query_id add_query_received
  find_query-add_query_received d q id hq hi =
      decode-find-store s e.query d queries_received q.id id q s.query_round hq hi

  pub find-put_bid :
      (q : QueryId) (p : PeerId) (b : Bid) (m : List (Bytes × e.Blob))
      → b.query_id ≡ q
      → All (IsEntry (Tree.bids q)) m
      → find (is_bid_of q p) (map some (put b.provider_id (e.bid.serialize b) m)) ≡ (
          if bytes_eq b.provider_id p
          then some (some (b.provider_id, e.bid.serialize b))
          else find (is_bid_of q p) (map some m))
  unfolding find put
  find-put_bid q p b [] h a = ground (arith, s.bid_round b)
  find-put_bid q p b ((j, w) ∷ m) h ((c, k, v), a) =
      ground (arith, s.bid_round b, s.bid_round c, find-put_bid q p b m h a)

  -- On a well-formed database, a bid received for its query is found by its query and provider;
  -- it replaces the provider's earlier bid, and every other provider's bid is found as before.
  pub find_bid_received-add_bid_received_for_query :
      (d : e.Db) (b : Bid) (p : PeerId)
      → IsWellFormed s d
      → find_bid_received (add_bid_received_for_query d b.query_id b) b.query_id p
        ≡ (if bytes_eq b.provider_id p then ok b else find_bid_received d b.query_id p)
  unfolding find_bid_received add_bid_received_for_query
  find_bid_received-add_bid_received_for_query d b p w = ground (
    arith,
    s.iter_lem d (bids_of b.query_id),
    s.iter_lem (store d (bids_of b.query_id) b.provider_id (e.bid.serialize b))
        (bids_of b.query_id),
    entries-store_same s d (bids_of b.query_id) b.provider_id (e.bid.serialize b),
    find-put_bid b.query_id p b (s.entries d (bids_of b.query_id)) refl
        (w.each (Tree.bids b.query_id)),
    s.bid_round b,
  )
