-- ===== src/Storage/Ordered.antt =====
-- src/storage.rs: the keys of every tree are in order, so that an entry is what a search for its key
-- finds.
pub mod Queries
use dse.Base.{
  ◌≡◌, sym, subst, List, [], ◌∷◌, Result, ok, ◌>>=◌, Ensures, Ensures-bind, Ensures-ok, arith, inl,
  inr,
}
use dse.Base.Bytes.{Bytes, Bytes-discrete}
use dse.Base.Sorted.{IsSorted, put-IsSorted}
use dse.Backend.{Backend, IsSound}
use dse.Storage.{
  store, add_i_want, add_active_trade, add_wallet_of_interest, add_bid_received_for_query,
  add_bid_sent_for_query, add_query_sent, add_query_received, add_new_trade,
  add_commits_to_commit_history, update_commit_history_with_invalidating_signature,
}
use dse.Storage.Views.{entries-store_same, entries-store_other}
use dse.Storage.Invariant.{IsWellFormed}
use dse.Storage.Trades.{update_active_trade_lem}
use dse.Storage.Histories.{find_commit_history_ok}
use dse.Storage.Writes.{
  Write, i_want, active_trade, wallet_of_interest, bid_received, bid_sent, query_sent,
  query_received, new_trade, commits, invalidation, trade_update, write, write_all, IsEmpty,
  IsEmpty-IsWellFormed, write-IsWellFormed, get_wallets_of_interest_lem,
}

module _ ⦃e : Backend⦄ (s : IsSound e) where
  abbrev pub IsOrdered : e.Db → Type 0
  IsOrdered d = (t : Bytes) → IsSorted (s.entries d t)

  store-IsOrdered : (d : e.Db) (t k : Bytes) (v : e.Blob) → IsOrdered d → IsOrdered (store d t k v)
  store-IsOrdered d t k v h u = elim (Bytes-discrete t u) [
    | yes p ↦
        subst (λ n. IsSorted (s.entries (store d t k v) n)) p
          (rw (entries-store_same s d t k v) (put-IsSorted k v (s.entries d t) (h t)))
    | no ne ↦ rw (entries-store_other s d t k v u ne) (h u)
  ]

  -- Every write keeps the order of all trees.
  write-IsOrdered :
      (d : e.Db) (x : Write) → IsWellFormed s d → IsOrdered d → Ensures IsOrdered (write d x)
  unfolding write add_wallet_of_interest add_i_want add_active_trade add_bid_received_for_query
      add_bid_sent_for_query add_query_sent add_query_received add_new_trade
      add_commits_to_commit_history update_commit_history_with_invalidating_signature
  write-IsOrdered d (i_want m) w h = store-IsOrdered d _ _ _ h
  write-IsOrdered d (active_trade t) w h = store-IsOrdered d _ _ _ h
  write-IsOrdered d (wallet_of_interest a) w h =
      rw (get_wallets_of_interest_lem s d w) (store-IsOrdered d _ _ _ h)
  write-IsOrdered d (bid_received q b) w h = store-IsOrdered d _ _ _ h
  write-IsOrdered d (bid_sent b q) w h = store-IsOrdered d _ _ _ h
  write-IsOrdered d (query_sent q) w h = store-IsOrdered d _ _ _ h
  write-IsOrdered d (query_received q) w h = store-IsOrdered d _ _ _ h
  write-IsOrdered d (new_trade t) w h = store-IsOrdered d _ _ _ h
  write-IsOrdered d (commits a cs) w h =
      let (found, p) = find_commit_history_ok s d a w in rw p (store-IsOrdered d _ _ _ h)
  write-IsOrdered d (invalidation id a g) w h =
      let (found, p) = find_commit_history_ok s d a w in rw p (store-IsOrdered d _ _ _ h)
  write-IsOrdered d (trade_update t) w h = elim (update_active_trade_lem s d t) [
    | inl (old, _, p) ↦ rw p (store-IsOrdered d _ _ _ h)
    | inr (x, _, p) ↦ rw p h
  ]

  write_all-IsOrdered :
      (d : e.Db) (xs : List Write)
      → IsWellFormed s d
      → IsOrdered d
      → Ensures (λ d'. IsWellFormed s d' × IsOrdered d') (write_all d xs)
  unfolding write_all
  write_all-IsOrdered d [] w h = (w, h)
  write_all-IsOrdered d (x ∷ xs) w h =
      let (d', p, w') = write-IsWellFormed s d x w in
      let h' : IsOrdered d' = rw p at (write-IsOrdered d x w h) in
      rw p (write_all-IsOrdered d' xs w' h')

  -- After any writes to an empty database.
  pub written-IsOrdered :
      (d d' : e.Db) (xs : List Write)
      → IsEmpty s d
      → write_all d xs ≡ ok d'
      → IsWellFormed s d' × IsOrdered d'
  written-IsOrdered d d' xs h p =
      rw p at (write_all-IsOrdered d xs (IsEmpty-IsWellFormed s d h) (λ t. rw (h t) tt))
