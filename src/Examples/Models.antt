-- ===== src/Examples/Models.antt =====
-- The storage against its abstract view, at concrete writes.
use dse.Base.{◌≡◌, refl, true, [], ◌∷◌, List, ok, arith}
use dse.Types.{waiting_r_t1_commit, r_send_t1_commit, t1}
use dse.Storage.Writes.{
  Write, i_want, active_trade, wallet_of_interest, bid_received, bid_sent, query_sent,
  query_received, commits, invalidation, trade_update, write_all,
}
use dse.Storage.Model.{Agrees, apply_all, nothing}
use dse.Storage.Model.Refines.{write_all-refines}
use dse.Examples.Memory.{
  Db, memory, memory_sound, empty, a_wallet, b_wallet, signer, trade_with, commit_over, want, bid,
  query_of,
}

abbrev writes : List Write
writes =
    active_trade (trade_with waiting_r_t1_commit true)
    ∷ commits b_wallet (commit_over (1 ∷ 4 ∷ []) t1 ∷ [])
    ∷ query_sent (query_of 1)
    ∷ query_received (query_of 2)
    ∷ bid_received 1 bid
    ∷ bid_sent bid (query_of 2)
    ∷ wallet_of_interest a_wallet
    ∷ invalidation 5 b_wallet signer
    ∷ i_want want
    ∷ trade_update (trade_with r_send_t1_commit true)
    ∷ []

write_all-refines_example :
    (d' : Db) × (write_all empty writes ≡ ok d') × Agrees d' (apply_all writes nothing)
write_all-refines_example =
    write_all-refines memory_sound empty writes (λ t. refl)
      (
        omega arith,
        (
          tt,
          (
            omega arith,
            (
              omega arith,
              ((omega arith, refl), (omega arith, (tt, (tt, (omega arith, (omega arith, tt)))))),
            ),
          ),
        ),
      )
