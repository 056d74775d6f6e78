-- ===== src/Procedure/Verify.antt =====
-- src/commit_procedure.rs: runs of `verify`, with the load of a history that they start.
use dse.Base.{ℕ, ◌^◌, ◌<◌, ◌≡◌, refl, ◌∙◌, Bool, List, Result, ok, arith}
use dse.Types.{PeerId, Trade, update_status, Commit}
use dse.Backend.{Backend, IsSound}
use dse.Storage.{find_active_trade, add_active_trade, exists, contains}
use dse.Storage.Invariant.{IsWellFormed}
use dse.Storage.Writes.{get_wallets_of_interest_lem}
use dse.Storage.Histories.{find_commit_history_ok}
use dse.Storage.Frames.{
  find_active_trade-add_commits, add_wallet_of_interest_ok, add_active_trade-IsWellFormed,
  save_known,
}
use dse.Commit.{Crypto}
use dse.EthNode.{EthNode}
use dse.Loading.{LoopEvent, LoadingState, Progress, going, done, load_commit_history}
use dse.Loading.Updates.{IsFine, load_commit_history-IsFine}
use dse.Loading.Keeps.{Holds, load_commit_history-Holds}
use dse.Procedure.{to_processing, to_send, finish_verify, after_load, verify, verified, loading}

module _ ⦃e : Backend⦄ (s : IsSound e) where
  finish_verify_known :
      (d : e.Db) (t : Trade) (c : Commit) {old : Trade}
      → t.id < 2 ^ 32
      → IsWellFormed s d
      → find_active_trade d t.id ≡ ok old
      → let t' = update_status t (to_send t.status) in
        (finish_verify d t c ≡ ok (add_active_trade d t'))
        × (find_active_trade (add_active_trade d t') t.id ≡ ok t')
  unfolding finish_verify
  finish_verify_known d t c small w h =
      let (found, p) = find_commit_history_ok s d c.wallet_address w in
      let (q, r) = save_known s d (update_status t (to_send t.status)) small h in
      (ground (arith, p, q), r)

  module _ (k : Crypto) (node : EthNode) (d : e.Db) (t : Trade) (c : Commit)
      (dht : Result (List PeerId)) (subscribed : Bool) (now : ℕ) (events : List LoopEvent) where
    abbrev processing : Trade
    processing = update_status t (to_processing t.status)

    -- The load that `verify` starts.
    abbrev pub load_for : Progress
    load_for =
        load_commit_history k node dht subscribed now (add_active_trade d processing)
          c.wallet_address events

    module _ (small : t.id < 2 ^ 32) (w : IsWellFormed s d) {old : Trade}
        (h : find_active_trade d t.id ≡ ok old) where
      verify-load : verify k node d t c dht subscribed now events ≡ after_load load_for processing c
      unfolding verify exists contains
      verify-load = ground (
        arith,
        (save_known s d processing small h).0,
        get_wallets_of_interest_lem s (add_active_trade d processing)
            (add_active_trade-IsWellFormed s d processing w),
      )

      load-IsFine : IsFine s load_for
      load-IsFine =
          load_commit_history-IsFine s k node dht subscribed now (add_active_trade d processing)
            c.wallet_address events (add_active_trade-IsWellFormed s d processing w)

      load-Holds : Holds (λ d'. find_active_trade d' t.id ≡ ok processing) load_for
      load-Holds =
          load_commit_history-Holds (λ d'. find_active_trade d' t.id ≡ ok processing) k node
            (λ d₁ d₂ a cs p q. find_active_trade-add_commits s d₁ d₂ a cs t.id p ∙ q) dht subscribed
            now (add_active_trade d processing) c.wallet_address events
            (save_known s d processing small h).1

      -- Let the node know the trade. Whatever the commit is, and so also if it is not valid: as soon
      -- as the load of the history returns, with or without success, `verify` ends without a panic,
      -- the trade has gone from its waiting to its processing to its send status, and the database
      -- is well formed.
      pub verify_accepts :
          {r : Result (Unit {0})} {d₁ : e.Db} {asked : List PeerId}
          → load_for ≡ done r d₁ asked
          → (d₂ : e.Db) × (verify k node d t c dht subscribed now events ≡ verified d₂)
            × (find_active_trade d₂ t.id ≡ ok (update_status t (to_send (to_processing t.status))))
            × IsWellFormed s d₂
      verify_accepts {r} {d₁} {asked} p =
          let (d₂, q, w₂, f) =
            add_wallet_of_interest_ok s d₁ c.wallet_address t.id (rw p at load-IsFine) in
          let known = f ∙ (rw p at load-Holds) in
          let (fin, found) = finish_verify_known d₂ processing c small w₂ known in
          let t' = update_status processing (to_send processing.status) in
          (
            add_active_trade d₂ t',
            verify-load ∙ (rw p (rw q (rw fin))),
            found,
            add_active_trade-IsWellFormed s d₂ t' w₂,
          )

      -- While the load goes on, `verify` waits, the trade is found in its processing status, and the
      -- database is well formed.
      pub verify_waits :
          {ls : LoadingState} {d₁ : e.Db} {asked : List PeerId}
          → load_for ≡ going ls d₁ asked
          → (verify k node d t c dht subscribed now events ≡ loading d₁)
            × (find_active_trade d₁ t.id ≡ ok (update_status t (to_processing t.status)))
            × IsWellFormed s d₁
      verify_waits {ls} {d₁} {asked} p =
          (rw verify-load (rw p refl), rw p at load-Holds, (rw p at load-IsFine).1)
