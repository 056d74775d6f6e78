-- ===== src/Storage/Frames.antt =====
-- src/storage.rs: the active trades under writes to other entries.
use dse.Base.{ℕ, ◌^◌, ◌<◌, ◌≡◌, ◌≢◌, refl, ap, List, [], ok, arith, inl, inr, length, Result-cases}
use dse.Base.Bytes.{head, Bytes, length-to_be_bytes}
use dse.Base.Trees.{lookup-put}
use dse.Types.{Address, Trade, Commit}
use dse.Backend.{Backend, IsSound}
use dse.Storage.{
  store, id_key, find_active_trade, add_active_trade, update_active_trade, ignore_err,
  find_commit_history, add_commits_to_commit_history, add_wallet_of_interest, history_or_empty,
  add_new_commits, add,
}
use dse.Storage.Names.{active_trades, commit_history, wallets_of_interest}
use dse.Storage.Views.{decode-find, decode-find-store_other, entries-store_same}
use dse.Storage.Trades.{update_active_trade_lem, find_active_trade-add_active_trade}
use dse.Storage.Invariant.{Tree, IsWellFormed, store-IsWellFormed}
use dse.Storage.Writes.{get_wallets_of_interest_lem}

trades_not_histories : commit_history ≢ active_trades
trades_not_histories h = omega (arith, ap head h)

-- The key of the set of wallets is longer than that of a trade.
pub not_id_key : (iid : ℕ) → wallets_of_interest ≢ id_key iid
not_id_key iid h = omega (arith, ap length h, length-to_be_bytes 4 iid)

module _ ⦃e : Backend⦄ (s : IsSound e) where
  pub find_active_trade-store_history :
      (d : e.Db) (k : Bytes) (v : e.Blob) (iid : ℕ)
      → find_active_trade (store d commit_history k v) iid ≡ find_active_trade d iid
  unfolding find_active_trade
  find_active_trade-store_history d k v iid =
      decode-find-store_other s e.trade d commit_history active_trades k (id_key iid) v
        trades_not_histories

  -- Commits that are added to a history change no trade.
  pub find_active_trade-add_commits :
      (d d' : e.Db) (a : Address) (cs : List Commit) (iid : ℕ)
      → add_commits_to_commit_history d a cs ≡ ok d'
      → find_active_trade d' iid ≡ find_active_trade d iid
  unfolding add_commits_to_commit_history
  find_active_trade-add_commits d d' a cs iid h = elim (Result-cases (find_commit_history d a)) [
    | inl (found, p) ↦
        let g = add_new_commits (history_or_empty a found) cs in
        ground (arith, find_active_trade-store_history d a (e.history.serialize g) iid)
    | inr (inl (x, p)) ↦ ground arith
    | inr (inr p) ↦ ground arith
  ]

  -- Nor does the set of wallets, although it is stored in their tree.
  pub find_active_trade-store_wallets :
      (d : e.Db) (v : e.Blob) (iid : ℕ)
      → find_active_trade (store d active_trades wallets_of_interest v) iid
        ≡ find_active_trade d iid
  unfolding find_active_trade
  find_active_trade-store_wallets d v iid = ground (
    arith,
    decode-find s e.trade d active_trades (id_key iid),
    decode-find s e.trade (store d active_trades wallets_of_interest v) active_trades (id_key iid),
    entries-store_same s d active_trades wallets_of_interest v,
    lookup-put wallets_of_interest (id_key iid) v (s.entries d active_trades),
    not_id_key iid,
  )

  -- On a well-formed database, tracking a wallet succeeds and changes no trade.
  pub add_wallet_of_interest_ok :
      (d : e.Db) (a : Address) (iid : ℕ)
      → IsWellFormed s d
      → (d' : e.Db) × (add_wallet_of_interest d a ≡ ok d')
        × IsWellFormed s d'
        × (find_active_trade d' iid ≡ find_active_trade d iid)
  unfolding add_wallet_of_interest
  add_wallet_of_interest_ok d a iid w =
      let ws = add (record { wallets = [] }) a in
      (
        store d active_trades wallets_of_interest (e.wallets.serialize ws),
        ground (arith, get_wallets_of_interest_lem s d w),
        store-IsWellFormed s d Tree.active wallets_of_interest (e.wallets.serialize ws)
            (inr (ws, refl, refl)) w,
        find_active_trade-store_wallets d (e.wallets.serialize ws) iid,
      )

  pub add_active_trade-IsWellFormed :
      (d : e.Db) (t : Trade) → IsWellFormed s d → IsWellFormed s (add_active_trade d t)
  unfolding add_active_trade
  add_active_trade-IsWellFormed d t w =
      store-IsWellFormed s d Tree.active (id_key t.id) (e.trade.serialize t) (inl (t, refl, refl)) w

  -- Saving a trade that is there succeeds, and the trade is then found.
  pub save_known :
      (d : e.Db) (t : Trade) {old : Trade}
      → t.id < 2 ^ 32
      → find_active_trade d t.id ≡ ok old
      → (ignore_err d (update_active_trade d t) ≡ ok (add_active_trade d t))
        × (find_active_trade (add_active_trade d t) t.id ≡ ok t)
  save_known d t small h = (
    ground (arith, update_active_trade_lem s d t),
    ground (arith, find_active_trade-add_active_trade s d t t.id small small),
  )
