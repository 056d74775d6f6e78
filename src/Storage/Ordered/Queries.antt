-- ===== src/Storage/Ordered/Queries.antt =====
-- src/storage.rs: the lists of queries, against the searches by id.
use mathlib.Core.List.{Memᴰ}
use dse.Base.{
  ◌≡◌, refl, sym, subst, List, [], ◌∷◌, map, some, filter_map, find, Result, ok, All, ◌↔◌, arith,
}
use dse.Base.Bytes.{Bytes}
use dse.Base.Trees.{lookup}
use dse.Base.Sorted.{IsSorted, All-lookup}
use dse.Types.{Query}
use dse.Backend.{Backend, Codec, RoundTrip, IsSound}
use dse.Storage.{
  decode_entry, decode_found, has_key, id_key, get_all_queries_sent, get_all_queries_recv,
  find_query_sent_by_query_id, find_query_received_by_query_id,
}
use dse.Server.{handle_get_userqueries, handle_get_recvqueries}
use dse.Storage.Names.{queries_sent, queries_received}
use dse.Storage.Views.{decode-find}
use dse.Storage.Listings.{All-found}
use dse.Storage.Invariant.{Tree, IsStored}
use dse.Storage.Writes.{Write, write_all, IsEmpty}
use dse.Storage.Ordered.{written-IsOrdered}

module _ {A : Type 0} where
  All-map : {P Q : A → Type 0} (l : List A) → ((x : A) → P x → Q x) → All P l → All Q l
  All-map [] f h = tt
  All-map (x ∷ xs) f (p, h) = (f x p, All-map xs f h)

  All-members : (l : List A) → All (λ x. Memᴰ x l) l
  All-members [] = tt
  All-members (x ∷ xs) = (Memᴰ.head refl, All-map xs (λ y m. Memᴰ.tail m) (All-members xs))

  All-at : (P : A → Type 0) (l : List A) (x : A) → All P l → Memᴰ x l → P x
  All-at P [] x h m = elim m [ ]
  All-at P (y ∷ l) x h (Memᴰ.head p) = subst P (sym p) h.0
  All-at P (y ∷ l) x h (Memᴰ.tail m) = All-at P l x h.1 m

module _ {Blob A : Type 0} (c : Codec Blob A) (key : A → Bytes) (round : RoundTrip c)
    (all : List (Bytes × Blob)) where
  -- What is listed is stored under its key.
  listed :
      (m : List (Bytes × Blob))
      → All (IsStored c key) m
      → All (λ (k, v). lookup k all ≡ some v) m
      → All
          (λ a. lookup (key a) all ≡ some (c.serialize a))
          (filter_map (decode_entry c) (map some m))
  unfolding filter_map
  listed [] h f = tt
  listed ((k, v) ∷ m) ((a, p, q), h) (g, f) =
      let decoded : c.deserialize v ≡ some a = ground (arith, round a, q) in
      let found : lookup (key a) all ≡ some (c.serialize a) = ground (arith, p, q, g) in
      rw decoded (found, listed m h f)

module _ ⦃e : Backend⦄ (s : IsSound e) where
  -- A tree of records under keys of their own, in order.
  module _ {A : Type 0} (c : Codec e.Blob A) (key : A → Bytes) (round : RoundTrip c) (d : e.Db)
      (t : Bytes) (kept : All (IsStored c key) (s.entries d t))
      (order : IsSorted (s.entries d t)) where
    abbrev listing : List A
    listing = filter_map (decode_entry c) (e.iter d t)

    abbrev search : Bytes → Result A
    search k = decode_found c (find (has_key k) (e.iter d t))

    search-key :
        (a : A) → lookup (key a) (s.entries d t) ≡ some (c.serialize a) → search (key a) ≡ ok a
    search-key a p = ground (arith, decode-find s c d t (key a), p, round a)

    All-search : All (λ a. search (key a) ≡ ok a) listing
    All-search =
        subst (λ l. All (λ a. search (key a) ≡ ok a) (filter_map (decode_entry c) l))
          (sym (s.iter_lem d t))
          (All-map (filter_map (decode_entry c) (map some (s.entries d t))) search-key (
            listed c key round (s.entries d t) (s.entries d t) kept
              (All-lookup (s.entries d t) order)))

    listing_iff : (a : A) → Memᴰ a listing ↔ (search (key a) ≡ ok a)
    listing_iff a = (
      All-at (λ x. search (key x) ≡ ok x) listing a All-search,
      All-found c (λ x. Memᴰ x listing) (has_key (key a)) (e.iter d t) a (All-members listing),
    )

  -- After any writes to an empty database, the user's list of sent queries holds exactly the queries
  -- that the search by their id finds, and so does the list of received queries.
  pub listed_iff :
      (d d' : e.Db) (xs : List Write) (q : Query)
      → IsEmpty s d
      → write_all d xs ≡ ok d'
      → (Memᴰ q (handle_get_userqueries d') ↔ (find_query_sent_by_query_id d' q.id ≡ ok q))
        × (Memᴰ q (handle_get_recvqueries d') ↔ (find_query_received_by_query_id d' q.id ≡ ok q))
  unfolding get_all_queries_sent get_all_queries_recv find_query_sent_by_query_id
      find_query_received_by_query_id
  listed_iff d d' xs q h p =
      let (w, o) = written-IsOrdered s d d' xs h p in
      (
        listing_iff e.query (λ x. id_key x.id) s.query_round d' queries_sent (w.each Tree.sent)
            (o queries_sent) q,
        listing_iff e.query (λ x. id_key x.id) s.query_round d' queries_received
            (w.each Tree.received) (o queries_received) q,
      )
