-- ===== src/Storage/Locks.antt =====
-- src/storage.rs: the methods that write, as the sections in which they hold the mutex. A method that
-- reads and then writes takes the mutex twice, and other threads may run in between.
pub mod Sections
pub mod Races
use dse.Base.{
  ℕ, zero, suc, ◌≡◌, refl, List, [], ◌∷◌, Option, none, some, Result, ok, err, panic, ◌>>=◌, All,
  arith, inl, inr, Result-cases,
}
use dse.Types.{Address, Trade, CommitHistory, WalletsOfInterest}
use dse.Backend.{Backend, IsSound}
use dse.Storage.{
  store, id_key, get_wallets_of_interest, find_commit_history, find_active_trade, history_or_empty,
  add_new_commits, update_invalidating_signature, add, add_wallet_of_interest,
  add_commits_to_commit_history, update_commit_history_with_invalidating_signature,
  update_active_trade,
}
use dse.Storage.Names.{active_trades, wallets_of_interest, commit_history}
use dse.Storage.Writes.{
  Write, i_want, active_trade, wallet_of_interest, bid_received, bid_sent, query_sent,
  query_received, new_trade, commits, invalidation, trade_update, write,
}

-- A call of a method: not begun, or past its first section, with what it is about to store.
pub data Thread : Type 0 where
  starts : Write → Thread
  stores_wallets : WalletsOfInterest → Thread
  stores_history : Address → CommitHistory → Thread
  stores_trade : Trade → Thread

module _ ⦃e : Backend⦄ where
  abbrev pub ends_in : Result e.Db → Result (e.Db × Option Thread)
  ends_in r = r >>= λ d. ok (d, none)

  -- A trade that is not found is not stored, and the error is dropped by the caller.
  abbrev pub stores_found : e.Db → Trade → Result Trade → Result (e.Db × Option Thread)
  stores_found d t (ok old) = ok (d, some (stores_trade t))
  stores_found d t (err x) = ok (d, none)
  stores_found d t panic = panic

  unfoldable pub section : e.Db → Thread → Result (e.Db × Option Thread)
  unfolding write add add_new_commits update_invalidating_signature
  section d (starts (wallet_of_interest a)) =
      get_wallets_of_interest d >>= λ prev. ok (d, some (stores_wallets (add prev a)))
  section d (starts (commits a cs)) = find_commit_history d a >>= λ found.
      ok (d, some (stores_history a (add_new_commits (history_or_empty a found) cs)))
  section d (starts (invalidation id a g)) = find_commit_history d a >>= λ found.
      ok
        (d, some (stores_history a (update_invalidating_signature (history_or_empty a found) id g)))
  section d (starts (trade_update t)) = stores_found d t (find_active_trade d t.id)
  section d (starts x) = ends_in (write d x)
  section d (stores_wallets ws) =
      ok (store d active_trades wallets_of_interest (e.wallets.serialize ws), none)
  section d (stores_history a h) = ok (store d commit_history a (e.history.serialize h), none)
  section d (stores_trade t) = ok (store d active_trades (id_key t.id) (e.trade.serialize t), none)

  -- The sections of a call with nothing in between.
  abbrev pub finish : Result (e.Db × Option Thread) → Result e.Db
  finish (ok (d, none)) = ok d
  finish (ok (d, some t)) = section d t >>= λ (d', rest). ok d'
  finish (err x) = err x
  finish panic = panic

  -- The thread at a place takes its next section; one that is through does nothing.
  unfoldable pub turn : e.Db → ℕ → List (Option Thread) → Result (e.Db × List (Option Thread))
  turn d i [] = ok (d, [])
  turn d zero (none ∷ ts) = ok (d, none ∷ ts)
  turn d zero (some t ∷ ts) = section d t >>= λ (d', t'). ok (d', t' ∷ ts)
  turn d (suc i) (t ∷ ts) = turn d i ts >>= λ (d', ts'). ok (d', t ∷ ts')

  unfoldable pub interleave :
      e.Db → List (Option Thread) → List ℕ → Result (e.Db × List (Option Thread))
  unfolding turn
  interleave d ts [] = ok (d, ts)
  interleave d ts (i ∷ schedule) = turn d i ts >>= λ (d', ts'). interleave d' ts' schedule
