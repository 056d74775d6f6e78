-- ===== src/System/Sends.antt =====
-- src/main.rs and src/indexer.rs: the timer of a whole node and the trades that it has to send.
use dse.Base.{ℕ, ◌+◌, ◌≡◌, refl, true, not, ◌||◌, List, ok, Ensures, arith}
use dse.Types.{Trade, is_sending_status}
use dse.Backend.{Backend, IsSound}
use dse.Storage.{find_active_trade}
use dse.Storage.Listings.{get_active_trades-found}
use dse.Storage.Writes.{IsEmpty}
use dse.Commit.{Crypto}
use dse.EthNode.{EthNode}
use dse.Indexer.{has_id, on_tick}
use dse.Indexer.Sends.{on_tick_lem}
use dse.System.{Turn, tick, System, started, step, run}
use dse.System.Safety.{reported}
use dse.System.Counts.{will_report_all}
use dse.System.Runs.{IsSafe, started-IsSafe, run-IsSafe, step-IsSafe}

module _ ⦃e : Backend⦄ where
  -- A trade that is found and has to send is marked by the tick.
  on_tick-found :
      (active : List ℕ) (d : e.Db) (id : ℕ) (t : Trade)
      → find_active_trade d id ≡ ok t
      → is_sending_status t ≡ true
      → has_id (on_tick active d).0 t.id ≡ true
  on_tick-found active d id t found sending =
      let (_, _, _, _, complete) = on_tick_lem active d in
      ground (
        arith,
        get_active_trades-found d
            (λ x. (not (is_sending_status x) || has_id (on_tick active d).0 x.id) ≡ true) id t
            complete found,
        sending,
      )

module _ ⦃e : Backend⦄ (s : IsSound e) (k : Crypto) (node : EthNode) where
  -- Let a node have run from an empty database in any way, and let a trade in a send status be found
  -- under its id. The next tick changes nothing in the database, and after it exactly one `send` of
  -- the trade is under way or has its report waiting.
  pub tick_sends :
      (d : e.Db) (turns : List Turn) (sys : System) (t : Trade)
      → IsEmpty s d
      → run k node (started d) turns ≡ ok sys
      → find_active_trade sys.db t.id ≡ ok t
      → is_sending_status t ≡ true
      → (sys' : System) × (step k node sys tick ≡ ok sys')
        × (sys'.db ≡ sys.db)
        × (will_report_all t.id sys'.tasks + reported t.id sys'.reports ≡ 1)
  unfolding step
  tick_sends d turns sys t h p found sending =
      let safe = rw p at (run-IsSafe s k node (started d) turns (started-IsSafe s d h)) in
      let after : Ensures (IsSafe s) (step k node sys tick) = step-IsSafe s k node sys tick safe in
      (
        _,
        refl,
        refl,
        ground (arith, after.counted t.id, on_tick-found sys.active sys.db t.id t found sending),
      )
