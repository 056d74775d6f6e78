-- ===== src/Storage/Model.antt =====
-- src/storage.rs: what the storage promises, with no trees and no keys: a map for each kind of
-- record, and what each write does to the maps.
pub mod Trees
pub mod Parts
pub mod Refines
use dse.Base.{
  ℕ, ◌^◌, ◌<◌, ◌≡◌, Bool, ◌&&◌, List, [], ◌∷◌, Option, none, some, ◌==◌, if◌then◌else◌, Result, ok,
  or_err, not_found, All,
}
use dse.Base.Bytes.{bytes_eq}
use dse.Types.{Address, PeerId, Signature, QueryId, Query, Bid, IWant, Trade, Commit, CommitHistory}
use dse.Backend.{Backend}
use dse.Storage.{
  add_new_commits, update_invalidating_signature, history_or_empty, find_active_trade, find_i_want,
  find_query_sent_by_query_id, find_query_received_by_query_id, find_bid_sent_by_query_id,
  find_bid_received, find_commit_history,
}
use dse.Storage.Writes.{
  Write, i_want, active_trade, wallet_of_interest, bid_received, bid_sent, query_sent,
  query_received, new_trade, commits, invalidation, trade_update,
}

pub record View : Type 0 where
  pub trades : ℕ → Option Trade
  pub wants : ℕ → Option IWant
  pub sent : ℕ → Option Query
  pub received : ℕ → Option Query
  pub offers : ℕ → Option Bid
  pub bids : QueryId → PeerId → Option Bid
  pub histories : Address → Option CommitHistory

abbrev pub nothing : View
nothing = record {
  trades = λ id. none;
  wants = λ id. none;
  sent = λ id. none;
  received = λ id. none;
  offers = λ id. none;
  bids = λ q p. none;
  histories = λ a. none;
}

abbrev pub put_at {ℓ} : {V : Type ℓ} → ℕ → V → (ℕ → Option V) → ℕ → Option V
put_at i v f j = if i == j then some v else f j

abbrev pub put_trade : Trade → View → View
put_trade t v = record v { trades = put_at t.id t v.trades }

abbrev pub put_history : Address → CommitHistory → View → View
put_history a h v = record v { histories = λ b. if bytes_eq a b then some h else v.histories b }

abbrev pub replace_trade : Option Trade → Trade → View → View
replace_trade none t v = v
replace_trade (some old) t v = put_trade t v

-- The set of wallets is no part of a view: what is added to it is never read.
unfoldable pub apply : Write → View → View
apply (i_want m) v = record v { wants = put_at m.id m v.wants }
apply (active_trade t) v = put_trade t v
apply (wallet_of_interest a) v = v
apply (bid_received q b) v = record v {
  bids = λ r p. if q == r && bytes_eq b.provider_id p then some b else v.bids r p;
}
apply (bid_sent b q) v = record v { offers = put_at q.id b v.offers }
apply (query_sent q) v = record v { sent = put_at q.id q v.sent }
apply (query_received q) v = record v { received = put_at q.id q v.received }
apply (new_trade t) v = put_trade t v
apply (commits a cs) v = put_history a (add_new_commits (history_or_empty a (v.histories a)) cs) v
apply (invalidation id a g) v =
    put_history a (update_invalidating_signature (history_or_empty a (v.histories a)) id g) v
apply (trade_update t) v = replace_trade (v.trades t.id) t v

unfoldable pub apply_all : List Write → View → View
apply_all [] v = v
apply_all (x ∷ xs) v = apply_all xs (apply x v)

-- Ids are of 32 bits, and a bid is added to the query that it is for.
abbrev pub IsFit : Write → Type 0
IsFit (i_want m) = m.id < 2 ^ 32
IsFit (active_trade t) = t.id < 2 ^ 32
IsFit (wallet_of_interest a) = Unit
IsFit (bid_received q b) = (q < 2 ^ 32) × (b.query_id ≡ q)
IsFit (bid_sent b q) = q.id < 2 ^ 32
IsFit (query_sent q) = q.id < 2 ^ 32
IsFit (query_received q) = q.id < 2 ^ 32
IsFit (new_trade t) = t.id < 2 ^ 32
IsFit (commits a cs) = Unit
IsFit (invalidation id a g) = Unit
IsFit (trade_update t) = t.id < 2 ^ 32

-- Every search of the database answers as the view does.
pub record Agrees ⦃e : Backend⦄ (d : e.Db) (v : View) : Type 0 where
  pub trades_agree :
      (id : ℕ) → id < 2 ^ 32 → find_active_trade d id ≡ or_err (v.trades id) not_found
  pub wants_agree : (id : ℕ) → id < 2 ^ 32 → find_i_want d id ≡ ok (v.wants id)
  pub sent_agree :
      (id : ℕ) → id < 2 ^ 32 → find_query_sent_by_query_id d id ≡ or_err (v.sent id) not_found
  pub received_agree :
      (id : ℕ)
      → id < 2 ^ 32
      → find_query_received_by_query_id d id ≡ or_err (v.received id) not_found
  pub offers_agree :
      (id : ℕ) → id < 2 ^ 32 → find_bid_sent_by_query_id d id ≡ or_err (v.offers id) not_found
  pub bids_agree :
      (q : QueryId) (p : PeerId)
      → q < 2 ^ 32
      → find_bid_received d q p ≡ or_err (v.bids q p) not_found
  pub histories_agree : (a : Address) → find_commit_history d a ≡ ok (v.histories a)
