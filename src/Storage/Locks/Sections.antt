-- ===== src/Storage/Locks/Sections.antt =====
-- src/storage.rs: the locked sections of one call.
use dse.Base.{◌≡◌, refl, Option, none, some, Result, ok, arith, inl, inr, Result-cases}
use dse.Backend.{Backend}
use dse.Storage.{
  find_commit_history, find_active_trade, add_wallet_of_interest, add_commits_to_commit_history,
  update_commit_history_with_invalidating_signature, update_active_trade, get_wallets_of_interest,
}
use dse.Storage.Writes.{
  Write, i_want, active_trade, wallet_of_interest, bid_received, bid_sent, query_sent,
  query_received, new_trade, commits, invalidation, trade_update, write,
}
use dse.Storage.Locks.{
  Thread, starts, stores_wallets, stores_history, stores_trade, section, finish,
}

module _ ⦃e : Backend⦄ where
  -- A call whose sections follow each other at once does what the whole call does, as `write` has it: an
  -- update of a trade that is not found changes nothing, and its error is dropped.
  pub finish-section : (d : e.Db) (x : Write) → finish (section d (starts x)) ≡ write d x
  unfolding section write add_wallet_of_interest add_commits_to_commit_history
      update_commit_history_with_invalidating_signature update_active_trade
  finish-section d (i_want m) = refl
  finish-section d (active_trade t) = refl
  finish-section d (wallet_of_interest a) = elim (Result-cases (get_wallets_of_interest d)) [
    | inl (ws, p) ↦ ground (arith, p)
    | inr (inl (x, p)) ↦ ground (arith, p)
    | inr (inr p) ↦ ground (arith, p)
  ]
  finish-section d (bid_received q b) = refl
  finish-section d (bid_sent b q) = refl
  finish-section d (query_sent q) = refl
  finish-section d (query_received q) = refl
  finish-section d (new_trade t) = refl
  finish-section d (commits a cs) = elim (Result-cases (find_commit_history d a)) [
    | inl (h, p) ↦ ground (arith, p)
    | inr (inl (x, p)) ↦ ground (arith, p)
    | inr (inr p) ↦ ground (arith, p)
  ]
  finish-section d (invalidation id a g) = elim (Result-cases (find_commit_history d a)) [
    | inl (h, p) ↦ ground (arith, p)
    | inr (inl (x, p)) ↦ ground (arith, p)
    | inr (inr p) ↦ ground (arith, p)
  ]
  finish-section d (trade_update t) = elim (Result-cases (find_active_trade d t.id)) [
    | inl (h, p) ↦ ground (arith, p)
    | inr (inl (x, p)) ↦ ground (arith, p)
    | inr (inr p) ↦ ground (arith, p)
  ]

-- A thread in its last section.
abbrev pub IsLast : Thread → Type 0
IsLast (starts x) = ⊥
IsLast _ = Unit

module _ ⦃e : Backend⦄ where
  abbrev pub RestIsLast : Result (e.Db × Option Thread) → Type 0
  RestIsLast (ok (d, some t)) = IsLast t
  RestIsLast _ = Unit

  -- No call has more than two sections.
  pub section-RestIsLast : (d : e.Db) (x : Write) → RestIsLast (section d (starts x))
  unfolding section write
  section-RestIsLast d (wallet_of_interest a) = elim (Result-cases (get_wallets_of_interest d)) [
    | inl (ws, p) ↦ rw p tt
    | inr (inl (x, p)) ↦ rw p tt
    | inr (inr p) ↦ rw p tt
  ]
  section-RestIsLast d (commits a cs) = elim (Result-cases (find_commit_history d a)) [
    | inl (h, p) ↦ rw p tt
    | inr (inl (x, p)) ↦ rw p tt
    | inr (inr p) ↦ rw p tt
  ]
  section-RestIsLast d (invalidation id a g) = elim (Result-cases (find_commit_history d a)) [
    | inl (h, p) ↦ rw p tt
    | inr (inl (x, p)) ↦ rw p tt
    | inr (inr p) ↦ rw p tt
  ]
  section-RestIsLast d (trade_update t) = elim (Result-cases (find_active_trade d t.id)) [
    | inl (old, p) ↦ rw p tt
    | inr (inl (x, p)) ↦ rw p tt
    | inr (inr p) ↦ rw p tt
  ]
  section-RestIsLast d (i_want m) = tt
  section-RestIsLast d (active_trade t) = tt
  section-RestIsLast d (bid_received q b) = tt
  section-RestIsLast d (bid_sent b q) = tt
  section-RestIsLast d (query_sent q) = tt
  section-RestIsLast d (query_received q) = tt
  section-RestIsLast d (new_trade t) = tt

  pub section-IsLast :
      (d : e.Db) (t : Thread) → IsLast t → (d' : e.Db) × (section d t ≡ ok (d', none))
  unfolding section
  section-IsLast d (stores_wallets ws) h = (_, refl)
  section-IsLast d (stores_history a g) h = (_, refl)
  section-IsLast d (stores_trade t) h = (_, refl)
  section-IsLast d (starts x) h = absurd h
