-- ===== src/Storage/Model/Refines.antt =====
-- src/storage.rs: every sequence of writes, and the searches after it.
use dse.Base.{
  ℕ, ◌^◌, ◌<◌, ◌≡◌, refl, subst, ◌∙◌, List, [], ◌∷◌, Option, none, some, find, Result, ok, or_err,
  not_found, All, arith, inl, inr,
}
use dse.Base.Trees.{lookup, lookup-put}
use dse.Types.{Address, QueryId, Bid, Trade, CommitHistory, WalletsOfInterest}
use dse.Backend.{Backend, IsSound}
use dse.Storage.{
  store, id_key, bids_of, add_i_want, add_active_trade, add_wallet_of_interest,
  add_bid_received_for_query, add_bid_sent_for_query, add_query_sent, add_query_received,
  add_new_trade, add_commits_to_commit_history, update_commit_history_with_invalidating_signature,
  update_active_trade, ignore_err, add, find_commit_history, find_active_trade, find_i_want,
  find_query_sent_by_query_id, find_query_received_by_query_id, find_bid_sent_by_query_id,
  find_bid_received,
}
use dse.Storage.Names.{
  active_trades, queries_sent, queries_received, bids_sent, commit_history, i_wants,
  wallets_of_interest,
}
use dse.Storage.Views.{decode-find, unwrap-find}
use dse.Storage.Invariant.{
  active, sent, received, offers, histories, wants, wallets, bids, IsWellFormed,
}
use dse.Storage.Histories.{find_commit_history-value}
use dse.Storage.Queries.{find-put_bid}
use dse.Storage.Frames.{not_id_key}
use dse.Storage.Trades.{update_active_trade_lem}
use dse.Storage.Writes.{
  Write, i_want, active_trade, wallet_of_interest, bid_received, bid_sent, query_sent,
  query_received, new_trade, commits, invalidation, trade_update, write, write_all,
  write-IsWellFormed, get_wallets_of_interest_lem, IsEmpty, IsEmpty-IsWellFormed,
}
use dse.Storage.Model.{
  View, nothing, put_trade, put_history, replace_trade, apply, apply_all, IsFit, Agrees,
}
use dse.Storage.Model.Trees.{ShowsAll, store-ShowsAll}
use dse.Storage.Model.Parts.{
  decode-put, unwrap-put, only_trades, only_wants, only_sent, only_received, only_offers,
  only_histories, put_bid, only_bids,
}

module _ ⦃e : Backend⦄ (s : IsSound e) where
  abbrev ShownBy : Result e.Db → View → Type 0
  ShownBy (ok d) v = ShowsAll s d v
  ShownBy _ v = ⊥

  find_commit_history-view :
      (d : e.Db) (v : View) (a : Address)
      → IsWellFormed s d
      → ShowsAll s d v
      → find_commit_history d a ≡ ok (v.histories a)
  find_commit_history-view d v a w h = find_commit_history-value s d a w ∙ h histories a

  find_active_trade-view :
      (d : e.Db) (v : View) (id : ℕ)
      → id < 2 ^ 32
      → ShowsAll s d v
      → find_active_trade d id ≡ or_err (v.trades id) not_found
  unfolding find_active_trade
  find_active_trade-view d v id small h =
      decode-find s e.trade d active_trades (id_key id) ∙ h active id small

  put_history-ShowsAll :
      (d : e.Db) (v : View) (a : Address) (h : CommitHistory)
      → ShowsAll s d v
      → ShowsAll s (store d commit_history a (e.history.serialize h)) (put_history a h v)
  put_history-ShowsAll d v a h all =
      store-ShowsAll s d histories a (e.history.serialize h) v (put_history a h v) tt
        (λ b. ground (
          arith,
          lookup-put a b (e.history.serialize h) (s.entries d commit_history),
          s.history_round h,
          all histories b,
        ))
        (only_histories v _) all

  put_trade-ShowsAll :
      (d : e.Db) (v : View) (t : Trade)
      → t.id < 2 ^ 32
      → ShowsAll s d v
      → ShowsAll s (store d active_trades (id_key t.id) (e.trade.serialize t)) (put_trade t v)
  put_trade-ShowsAll d v t small all =
      store-ShowsAll s d active (id_key t.id) (e.trade.serialize t) v (put_trade t v) tt
        (decode-put e.trade s.trade_round (s.entries d active_trades) v.trades t.id t small
          (all active))
        (only_trades v _) all

  wallets-ShowsAll :
      (d : e.Db) (v : View) (ws : WalletsOfInterest)
      → ShowsAll s d v
      → ShowsAll s (store d active_trades wallets_of_interest (e.wallets.serialize ws)) v
  wallets-ShowsAll d v ws all =
      store-ShowsAll s d active wallets_of_interest (e.wallets.serialize ws) v v tt
        (λ id small. ground (
          arith,
          lookup-put wallets_of_interest (id_key id) (e.wallets.serialize ws)
              (s.entries d active_trades),
          not_id_key id,
          all active id small,
        ))
        (λ u ne. only_trades v v.trades u ne) all

  put_bid-ShowsAll :
      (d : e.Db) (v : View) (q : QueryId) (b : Bid)
      → q < 2 ^ 32
      → b.query_id ≡ q
      → IsWellFormed s d
      → ShowsAll s d v
      → ShowsAll s (store d (bids_of q) b.provider_id (e.bid.serialize b)) (put_bid q b v)
  put_bid-ShowsAll d v q b small own w all =
      store-ShowsAll s d (bids q) b.provider_id (e.bid.serialize b) v (put_bid q b v) small
        (λ p fits. ground (
          arith,
          find-put_bid s q p b (s.entries d (bids_of q)) own (w.each (bids q)),
          s.bid_round b,
          all (bids q) p fits,
        ))
        (only_bids v q b) all

  update_known :
      (d : e.Db) (v : View) (t : Trade) (known : Option Trade)
      → t.id < 2 ^ 32
      → find_active_trade d t.id ≡ or_err known not_found
      → ShowsAll s d v
      → ShownBy (ignore_err d (update_active_trade d t)) (replace_trade known t v)
  unfolding add_active_trade
  update_known d v t none small f all = elim (update_active_trade_lem s d t) [
    | inl (old, p, q) ↦ cc
    | inr (x, p, q) ↦ rw q all
  ]
  update_known d v t (some known) small f all = elim (update_active_trade_lem s d t) [
    | inl (old, p, q) ↦ rw q (put_trade-ShowsAll d v t small all)
    | inr (x, p, q) ↦ cc
  ]

  write-ShownBy :
      (d : e.Db) (v : View) (x : Write)
      → IsFit x
      → IsWellFormed s d
      → ShowsAll s d v
      → ShownBy (write d x) (apply x v)
  unfolding write apply add_wallet_of_interest add_i_want add_active_trade
      add_bid_received_for_query add_bid_sent_for_query add_query_sent add_query_received
      add_new_trade add_commits_to_commit_history update_commit_history_with_invalidating_signature
  write-ShownBy d v (i_want m) fit w all =
      store-ShowsAll s d wants (id_key m.id) (e.i_want.serialize m) v _ tt
        (unwrap-put e.i_want s.i_want_round (s.entries d i_wants) v.wants m.id m fit (all wants))
        (only_wants v _) all
  write-ShownBy d v (active_trade t) fit w all = put_trade-ShowsAll d v t fit all
  write-ShownBy d v (wallet_of_interest a) fit w all =
      rw (get_wallets_of_interest_lem s d w)
        (wallets-ShowsAll d v (add (record { wallets = [] }) a) all)
  write-ShownBy d v (bid_received q b) fit w all = put_bid-ShowsAll d v q b fit.0 fit.1 w all
  write-ShownBy d v (bid_sent b q) fit w all =
      store-ShowsAll s d offers (id_key q.id) (e.bid.serialize b) v _ tt
        (decode-put e.bid s.bid_round (s.entries d bids_sent) v.offers q.id b fit (all offers))
        (only_offers v _) all
  write-ShownBy d v (query_sent q) fit w all =
      store-ShowsAll s d sent (id_key q.id) (e.query.serialize q) v _ tt
        (decode-put e.query s.query_round (s.entries d queries_sent) v.sent q.id q fit (all sent))
        (only_sent v _) all
  write-ShownBy d v (query_received q) fit w all =
      store-ShowsAll s d received (id_key q.id) (e.query.serialize q) v _ tt
        (decode-put e.query s.query_round (s.entries d queries_received) v.received q.id q fit
          (all received))
        (only_received v _) all
  write-ShownBy d v (new_trade t) fit w all = put_trade-ShowsAll d v t fit all
  write-ShownBy d v (commits a cs) fit w all =
      rw (find_commit_history-view d v a w all) (put_history-ShowsAll d v a _ all)
  write-ShownBy d v (invalidation id a g) fit w all =
      rw (find_commit_history-view d v a w all) (put_history-ShowsAll d v a _ all)
  write-ShownBy d v (trade_update t) fit w all =
      update_known d v t (v.trades t.id) fit (find_active_trade-view d v t.id fit all) all

  ShowsAll-Agrees : (d : e.Db) (v : View) → IsWellFormed s d → ShowsAll s d v → Agrees d v
  unfolding find_i_want find_query_sent_by_query_id find_query_received_by_query_id
      find_bid_sent_by_query_id find_bid_received
  ShowsAll-Agrees d v w all = record {
    trades_agree = λ id small. find_active_trade-view d v id small all;
    wants_agree = λ id small. unwrap-find s e.i_want d i_wants (id_key id) ∙ all wants id small;
    sent_agree = λ id small. decode-find s e.query d queries_sent (id_key id) ∙ all sent id small;
    received_agree =
        λ id small. decode-find s e.query d queries_received (id_key id) ∙ all received id small;
    offers_agree = λ id small. decode-find s e.bid d bids_sent (id_key id) ∙ all offers id small;
    bids_agree = λ q p small. rw (s.iter_lem d (bids_of q)) (all (bids q) p small);
    histories_agree = λ a. find_commit_history-view d v a w all;
  }

  write_all-ShowsAll :
      (d : e.Db) (v : View) (xs : List Write)
      → All IsFit xs
      → IsWellFormed s d
      → ShowsAll s d v
      → (d' : e.Db) × (write_all d xs ≡ ok d') × IsWellFormed s d' × ShowsAll s d' (apply_all xs v)
  unfolding write_all apply_all
  write_all-ShowsAll d v [] fit w all = (d, refl, w, all)
  write_all-ShowsAll d v (x ∷ xs) (fit, fits) w all =
      let (d₁, p, w₁) = write-IsWellFormed s d x w in
      let first : ShowsAll s d₁ (apply x v) =
        subst (λ r. ShownBy r (apply x v)) p (write-ShownBy d v x fit w all) in
      let (d₂, q, w₂, all₂) = write_all-ShowsAll d₁ (apply x v) xs fits w₁ first in
      (d₂, rw p q, w₂, all₂)

  IsEmpty-ShowsAll : (d : e.Db) → IsEmpty s d → ShowsAll s d nothing
  unfolding lookup find
  IsEmpty-ShowsAll d h active = rw (h active_trades) (λ id small. refl)
  IsEmpty-ShowsAll d h sent = rw (h queries_sent) (λ id small. refl)
  IsEmpty-ShowsAll d h received = rw (h queries_received) (λ id small. refl)
  IsEmpty-ShowsAll d h offers = rw (h bids_sent) (λ id small. refl)
  IsEmpty-ShowsAll d h histories = rw (h commit_history) (λ a. refl)
  IsEmpty-ShowsAll d h wants = rw (h i_wants) (λ id small. refl)
  IsEmpty-ShowsAll d h wallets = tt
  IsEmpty-ShowsAll d h (bids q) = rw (h (bids_of q)) (λ p small. refl)

  -- From an empty database, every sequence of writes whose ids are of 32 bits and whose received
  -- bids are for their queries succeeds, and afterwards every search answers as the maps of the
  -- view do after the same writes.
  pub write_all-refines :
      (d : e.Db) (xs : List Write)
      → IsEmpty s d
      → All IsFit xs
      → (d' : e.Db) × (write_all d xs ≡ ok d') × Agrees d' (apply_all xs nothing)
  write_all-refines d xs h fit =
      let (d', p, w, all) =
        write_all-ShowsAll d nothing xs fit (IsEmpty-IsWellFormed s d h) (IsEmpty-ShowsAll d h) in
      (d', p, ShowsAll-Agrees d' (apply_all xs nothing) w all)
