-- ===== src/Storage/Trades.antt =====
-- src/storage.rs: active trades, their lookups, additions and updates.
use dse.Base.{
  ℕ, ◌≢◌, panic, ◌^◌, ◌<◌, ◌≡◌, ◌==◌, if◌then◌else◌, ok, err, arith, inl, inr, ◌⊎◌, Error,
  Result-cases,
}
use dse.Types.{Trade}
use dse.Backend.{Backend, IsSound}
use dse.Storage.{add_active_trade, find_active_trade, update_active_trade, id_key}
use dse.Storage.Names.{active_trades}
use dse.Storage.Views.{value_at, decode_value, decode-find, decode-find-store}

module _ ⦃e : Backend⦄ (s : IsSound e) where
  find_active_trade-value :
      (d : e.Db) (iid : ℕ)
      → find_active_trade d iid ≡ decode_value e.trade (value_at s d active_trades (id_key iid))
  unfolding find_active_trade
  find_active_trade-value d iid = decode-find s e.trade d active_trades (id_key iid)

  -- After a trade is added under its id, it is what a lookup of this id finds, and a lookup of any
  -- other id finds what it found before, for ids of 32 bits.
  pub find_active_trade-add_active_trade :
      (d : e.Db) (t : Trade) (iid : ℕ)
      → t.id < 2 ^ 32
      → iid < 2 ^ 32
      → find_active_trade (add_active_trade d t) iid
        ≡ (if t.id == iid then ok t else find_active_trade d iid)
  unfolding add_active_trade find_active_trade
  find_active_trade-add_active_trade d t iid ht hi =
      decode-find-store s e.trade d active_trades t.id iid t s.trade_round ht hi

  -- An update of a trade that is found succeeds and does what adding it does; an update of a trade
  -- that is not found is refused with the error of the lookup.
  pub update_active_trade_lem :
      (d : e.Db) (t : Trade)
      → ((old : Trade) × (find_active_trade d t.id ≡ ok old)
          × (update_active_trade d t ≡ ok (add_active_trade d t)))
        ⊎ ((x : Error) × (find_active_trade d t.id ≡ err x) × (update_active_trade d t ≡ err x))
  unfolding update_active_trade add_active_trade
  update_active_trade_lem d t = elim (Result-cases (find_active_trade d t.id)) [
    | inl (old, h) ↦
        inl
          (old, h, ground (arith, s.insert_lem d active_trades (id_key t.id) (e.trade.serialize t)))
    | inr (inl (x, h)) ↦ inr (x, h, rw (h, update_active_trade))
    | inr (inr h) ↦ absurd (ground (arith, find_active_trade-value d t.id, h))
  ]

  pub find_active_trade-ne-panic : (d : e.Db) (iid : ℕ) → find_active_trade d iid ≢ panic
  find_active_trade-ne-panic d iid h = ground (arith, find_active_trade-value d iid)
