-- ===== src/Storage/Model/Trees.antt =====
-- src/storage.rs: the view that the trees of a database show.
use dse.Base.{
  ℕ, ◌^◌, ◌<◌, ◌≡◌, ◌≢◌, refl, ap, ◌∙◌, subst, List, map, some, find, ok, or_err, not_found, arith,
}
use dse.Base.Bytes.{Bytes, Bytes-discrete, to_be_bytes-injective, append-injective}
use dse.Base.Trees.{put, lookup}
use dse.Types.{Address, PeerId}
use dse.Backend.{Backend, IsSound}
use dse.Storage.{store, is_bid_of, decode_found, id_key}
use dse.Storage.Views.{decode_value, unwrap_value, entries-store_same, entries-store_other}
use dse.Storage.Invariant.{
  Tree, active, sent, received, offers, histories, wants, wallets, bids, tree_name, byte_at,
}
use dse.Storage.Names.{bids_received}
use dse.Storage.Model.{View}

-- The part of the view that a tree shows is the same in two views.
abbrev pub Same : Tree → View → View → Type 0
Same active v w = v.trades ≡ w.trades
Same sent v w = v.sent ≡ w.sent
Same received v w = v.received ≡ w.received
Same offers v w = v.offers ≡ w.offers
Same histories v w = v.histories ≡ w.histories
Same wants v w = v.wants ≡ w.wants
Same wallets v w = ◌≡◌ {A = Unit {0}} tt tt
Same (bids q) v w = v.bids q ≡ w.bids q

abbrev pub IsSmall : Tree → Type 0
IsSmall (bids q) = q < 2 ^ 32
IsSmall _ = Unit {0}

module _ ⦃e : Backend⦄ where
  abbrev pub Shows : Tree → List (Bytes × e.Blob) → View → Type 0
  Shows active m v =
      (id : ℕ)
      → id < 2 ^ 32
      → decode_value e.trade (lookup (id_key id) m) ≡ or_err (v.trades id) not_found
  Shows sent m v =
      (id : ℕ)
      → id < 2 ^ 32
      → decode_value e.query (lookup (id_key id) m) ≡ or_err (v.sent id) not_found
  Shows received m v =
      (id : ℕ)
      → id < 2 ^ 32
      → decode_value e.query (lookup (id_key id) m) ≡ or_err (v.received id) not_found
  Shows offers m v =
      (id : ℕ)
      → id < 2 ^ 32
      → decode_value e.bid (lookup (id_key id) m) ≡ or_err (v.offers id) not_found
  Shows histories m v = (a : Address) → unwrap_value e.history (lookup a m) ≡ ok (v.histories a)
  Shows wants m v =
      (id : ℕ) → id < 2 ^ 32 → unwrap_value e.i_want (lookup (id_key id) m) ≡ ok (v.wants id)
  Shows wallets m v = Unit
  Shows (bids q) m v =
      (p : PeerId)
      → q < 2 ^ 32
      → decode_found e.bid (find (is_bid_of q p) (map some m)) ≡ or_err (v.bids q p) not_found

  Shows-Same :
      (t : Tree) (m : List (Bytes × e.Blob)) (v w : View) → Same t v w → Shows t m v → Shows t m w
  Shows-Same active m v w p h = λ id small. h id small ∙ ap (λ f. or_err (f id) not_found) p
  Shows-Same sent m v w p h = λ id small. h id small ∙ ap (λ f. or_err (f id) not_found) p
  Shows-Same received m v w p h = λ id small. h id small ∙ ap (λ f. or_err (f id) not_found) p
  Shows-Same offers m v w p h = λ id small. h id small ∙ ap (λ f. or_err (f id) not_found) p
  Shows-Same histories m v w p h = λ a. h a ∙ ap (λ f. ok (f a)) p
  Shows-Same wants m v w p h = λ id small. h id small ∙ ap (λ f. ok (f id)) p
  Shows-Same wallets m v w p h = tt
  Shows-Same (bids q) m v w p h = λ r small. h r small ∙ ap (λ f. or_err (f r) not_found) p

  -- Trees of one name show the same.
  Shows-tree_name :
      (t u : Tree) (m : List (Bytes × e.Blob)) (v : View)
      → tree_name t ≡ tree_name u
      → IsSmall t
      → Shows t m v
      → Shows u m v
  Shows-tree_name active active m v p q h = h
  Shows-tree_name sent sent m v p q h = h
  Shows-tree_name received received m v p q h = h
  Shows-tree_name offers offers m v p q h = h
  Shows-tree_name histories histories m v p q h = h
  Shows-tree_name wants wants m v p q h = h
  Shows-tree_name wallets wallets m v p q h = h
  Shows-tree_name (bids a) (bids b) m v p q h = λ r small.
      let same : a ≡ b =
        to_be_bytes-injective 4 a b q small
          (append-injective bids_received bids_received _ _ refl p).1 in
      subst
        (λ c.
          decode_found e.bid (find (is_bid_of c r) (map some m)) ≡ or_err (v.bids c r) not_found)
        same (h r q)
  Shows-tree_name _ _ m v p q h =
      absurd (omega (arith, ap (byte_at 0) p, ap (byte_at 5) p, ap (byte_at 8) p))

  module _ (s : IsSound e) where
    abbrev pub ShowsAll : e.Db → View → Type 0
    ShowsAll d v = (t : Tree) → Shows t (s.entries d (tree_name t)) v

    -- After an insertion the view may change in the tree that was written, and only there.
    pub store-ShowsAll :
        (d : e.Db) (t : Tree) (k : Bytes) (x : e.Blob) (v w : View)
        → IsSmall t
        → Shows t (put k x (s.entries d (tree_name t))) w
        → ((u : Tree) → tree_name t ≢ tree_name u → Same u v w)
        → ShowsAll d v
        → ShowsAll (store d (tree_name t) k x) w
    store-ShowsAll d t k x v w small h same all u =
        elim (Bytes-discrete (tree_name t) (tree_name u)) [
          | yes p ↦
              subst (λ n. Shows u (s.entries (store d (tree_name t) k x) n) w) p
                (rw (entries-store_same s d (tree_name t) k x)
                  (Shows-tree_name t u (put k x (s.entries d (tree_name t))) w p small h))
          | no ne ↦
              rw (entries-store_other s d (tree_name t) k x (tree_name u) ne)
                (Shows-Same u (s.entries d (tree_name u)) v w (same u ne) (all u))
        ]
