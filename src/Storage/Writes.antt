-- ===== src/Storage/Writes.antt =====
-- Histories of writes: every method of src/storage.rs that changes the database, in any order.
use dse.Base.{
  ℕ, ◌≡◌, refl, false, List, [], ◌∷◌, none, some, Result, ok, ◌>>=◌, All, arith, ◌⊎◌, inl, inr,
  Option-cases,
}
use dse.Base.Bytes.{Bytes}
use dse.Base.Trees.{lookup, lookup-All}
use dse.Types.{Address, Signature, QueryId, Query, Bid, IWant, Trade, Commit}
use dse.Backend.{Backend, IsSound}
use dse.Storage.{
  store, add_i_want, add_active_trade, add_wallet_of_interest, add_bid_received_for_query,
  add_bid_sent_for_query, add_query_sent, add_query_received, add_new_trade,
  add_commits_to_commit_history, update_commit_history_with_invalidating_signature,
  update_active_trade, ignore_err, get_wallets_of_interest, find_i_want, id_key, exists, contains,
  add,
}
use dse.Storage.Names.{active_trades, wallets_of_interest, i_wants}
use dse.Storage.Views.{value_at, unwrap-find}
use dse.Storage.Trades.{update_active_trade_lem}
use dse.Storage.Invariant.{Tree, tree_name, IsEntry, IsWellFormed, store-IsWellFormed}
use dse.Storage.Histories.{
  find_commit_history_ok, add_commits_to_commit_history_ok,
  update_commit_history_with_invalidating_signature_lem,
}

pub data Write : Type 0 where
  i_want : IWant → Write
  active_trade : Trade → Write
  wallet_of_interest : Address → Write
  bid_received : QueryId → Bid → Write
  bid_sent : Bid → Query → Write
  query_sent : Query → Write
  query_received : Query → Write
  new_trade : Trade → Write
  commits : Address → List Commit → Write
  invalidation : ℕ → Address → Signature → Write
  trade_update : Trade → Write

module _ ⦃e : Backend⦄ where
  unfoldable pub write : e.Db → Write → Result e.Db
  write d (i_want w) = ok (add_i_want d w)
  write d (active_trade t) = ok (add_active_trade d t)
  write d (wallet_of_interest a) = add_wallet_of_interest d a
  write d (bid_received q b) = ok (add_bid_received_for_query d q b)
  write d (bid_sent b q) = ok (add_bid_sent_for_query d b q)
  write d (query_sent q) = ok (add_query_sent d q)
  write d (query_received q) = ok (add_query_received d q)
  write d (new_trade t) = ok (add_new_trade d t)
  write d (commits a cs) = add_commits_to_commit_history d a cs
  write d (invalidation id a g) = update_commit_history_with_invalidating_signature d id a g
  write d (trade_update t) = ignore_err d (update_active_trade d t)

  unfoldable pub write_all : e.Db → List Write → Result e.Db
  write_all d [] = ok d
  write_all d (x ∷ xs) = write d x >>= λ d'. write_all d' xs

  module _ (s : IsSound e) where
    abbrev pub IsEmpty : e.Db → Type 0
    IsEmpty d = (t : Bytes) → s.entries d t ≡ []

    pub IsEmpty-IsWellFormed : (d : e.Db) → IsEmpty d → IsWellFormed s d
    IsEmpty-IsWellFormed d h = record { each = λ t. rw (h (tree_name t)) tt }

    lookup-none :
        (m : List (Bytes × e.Blob))
        → All (IsEntry Tree.wallets) m
        → lookup wallets_of_interest m ≡ none
    unfolding lookup
    lookup-none [] a = refl
    lookup-none (x ∷ m) a = absurd a.0

    -- On a well-formed database the set of wallets of interest is read as empty, whatever was added.
    pub get_wallets_of_interest_lem :
        (d : e.Db) → IsWellFormed s d → get_wallets_of_interest d ≡ ok (record { wallets = [] })
    unfolding get_wallets_of_interest
    get_wallets_of_interest_lem d w = rw (
      unwrap-find s e.wallets d wallets_of_interest wallets_of_interest,
      lookup-none (s.entries d wallets_of_interest) (w.each Tree.wallets),
    )

    -- Every write of a well-formed database succeeds, without a panic, and keeps it well formed.
    pub write-IsWellFormed :
        (d : e.Db) (x : Write)
        → IsWellFormed s d
        → (d' : e.Db) × (write d x ≡ ok d') × IsWellFormed s d'
    unfolding write add_wallet_of_interest add_i_want add_active_trade add_bid_received_for_query
        add_bid_sent_for_query add_query_sent add_query_received add_new_trade
    write-IsWellFormed d (i_want m) w =
        (add_i_want d m, refl, store-IsWellFormed s d Tree.wants _ _ (m, refl, refl) w)
    write-IsWellFormed d (active_trade t) w =
        (add_active_trade d t, refl, store-IsWellFormed s d Tree.active _ _ (inl (t, refl, refl)) w)
    write-IsWellFormed d (wallet_of_interest a) w =
        let ws = add (record { wallets = [] }) a in
        (
          store d active_trades wallets_of_interest (e.wallets.serialize ws),
          ground (arith, get_wallets_of_interest_lem d w),
          store-IsWellFormed s d Tree.active _ _ (inr (ws, refl, refl)) w,
        )
    write-IsWellFormed d (bid_received q b) w = (
      add_bid_received_for_query d q b,
      refl,
      store-IsWellFormed s d (Tree.bids q) _ _ (b, refl, refl) w,
    )
    write-IsWellFormed d (bid_sent b q) w =
        (add_bid_sent_for_query d b q, refl, store-IsWellFormed s d Tree.offers _ _ (b, refl) w)
    write-IsWellFormed d (query_sent q) w =
        (add_query_sent d q, refl, store-IsWellFormed s d Tree.sent _ _ (q, refl, refl) w)
    write-IsWellFormed d (query_received q) w =
        (add_query_received d q, refl, store-IsWellFormed s d Tree.received _ _ (q, refl, refl) w)
    write-IsWellFormed d (new_trade t) w =
        (add_new_trade d t, refl, store-IsWellFormed s d Tree.active _ _ (inl (t, refl, refl)) w)
    write-IsWellFormed d (commits a cs) w =
        let (found, p) = find_commit_history_ok s d a w in
        let (d', q, w', _) = add_commits_to_commit_history_ok s d a cs a found w p in (d', q, w')
    write-IsWellFormed d (invalidation id a g) w =
        let (found, p) = find_commit_history_ok s d a w in
        let (d', q, w', _) =
          update_commit_history_with_invalidating_signature_lem s d id a g a found w p in
        (d', q, w')
    write-IsWellFormed d (trade_update t) w = elim (update_active_trade_lem s d t) [
      | inl (old, _, h) ↦ (
        add_active_trade d t,
        rw h,
        store-IsWellFormed s d Tree.active _ _ (inl (t, refl, refl)) w,
      )
      | inr (x, _, h) ↦ (d, rw h, w)
    ]

    -- From a well-formed database no sequence of writes panics, and the database it leaves is well formed.
    pub write_all-IsWellFormed :
        (d : e.Db) (xs : List Write)
        → IsWellFormed s d
        → (d' : e.Db) × (write_all d xs ≡ ok d') × IsWellFormed s d'
    unfolding write_all
    write_all-IsWellFormed d [] w = (d, refl, w)
    write_all-IsWellFormed d (x ∷ xs) w =
        let (d₁, p, w₁) = write-IsWellFormed d x w in
        let (d₂, q, w₂) = write_all-IsWellFormed d₁ xs w₁ in (d₂, rw p q, w₂)

    -- Starting from an empty database, no history of writes panics, and whatever wallets it added,
    -- the set of wallets of interest that is read afterwards is the empty one, so that no wallet is
    -- found in it.
    pub wallets_of_interest_lost :
        (d : e.Db) (xs : List Write) (a : Address)
        → IsEmpty d
        → (d' : e.Db) × (write_all d xs ≡ ok d')
          × (get_wallets_of_interest d' ≡ ok (record { wallets = [] }))
          × (exists (record { wallets = [] }) a ≡ false)
    unfolding exists contains
    wallets_of_interest_lost d xs a h =
        let (d', p, w) = write_all-IsWellFormed d xs (IsEmpty-IsWellFormed d h) in
        (d', p, get_wallets_of_interest_lem d' w, refl)

    -- On a well-formed database a search for a want never panics: it finds nothing, or
    -- a want stored under the key of this id.
    pub find_i_want_total :
        (d : e.Db) (iid : ℕ)
        → IsWellFormed s d
        → (find_i_want d iid ≡ ok none)
          ⊎ ((m : IWant) × (find_i_want d iid ≡ ok (some m)) × (id_key iid ≡ id_key m.id))
    unfolding find_i_want
    find_i_want_total d iid w = elim (Option-cases (value_at s d i_wants (id_key iid))) [
      | inl p ↦ inl (ground (arith, unwrap-find s e.i_want d i_wants (id_key iid)))
      | inr (v, p) ↦
          let (m, k, q) =
            lookup-All (IsEntry Tree.wants) (id_key iid) (s.entries d i_wants) (w.each Tree.wants)
              p in
          inr
            (m, ground (arith, unwrap-find s e.i_want d i_wants (id_key iid), s.i_want_round m), k)
    ]
