-- ===== src/System.antt =====
-- src/main.rs, src/indexer.rs, src/commit_procedure.rs and src/server.rs: a whole node. The indexer,
-- the tasks that it spawns and those of the server share one database and take steps in any order.
pub mod Tasks
pub mod Safety
pub mod Counts
pub mod Runs
pub mod Sends
pub mod Ends
pub mod Settles
pub mod Silence
pub mod Alone
use dse.Base.{
  ℕ, zero, suc, Bool, true, false, List, [], ◌∷◌, ◌++◌, Option, none, some, Result, ok, err, panic,
  ◌>>=◌,
}
use dse.Types.{PeerId, Multiaddr, QueryData, TradeQuote, IWant, Trade, waiting_r_t1_commit, Query}
use dse.Types.Messages.{NetworkEvent}
use dse.Backend.{Backend}
use dse.Storage.{find_i_want}
use dse.Commit.{Crypto}
use dse.EthNode.{EthNode}
use dse.Procedure.{CommitProcedureEvent}
use dse.Indexer.{
  Effect, spawn_verify, spawn_send, handle_network_event, on_tick, on_procedure_event,
}
use dse.Server.{query_from_data, from_quote}
use dse.System.Tasks.{Task, sends, verifies, publishes, offers, Given, task_step}

-- A tick or an event at the indexer, the first report that waits for it, a request of the user with
-- the node's own details, or the step of the task at a place of the list.
pub data Turn : Type 0 where
  network_event : NetworkEvent → Turn
  tick : Turn
  report : Turn
  user_query : QueryData → PeerId × Multiaddr → Turn
  user_quote : TradeQuote → PeerId × Multiaddr → Turn
  task : ℕ → Given → Turn

-- The tasks that an effect spawns; a response is sent by a task that touches nothing.
unfoldable pub spawned : List Effect → List Task
spawned [] = []
spawned (spawn_verify t c ∷ es) = verifies t c ∷ spawned es
spawned (spawn_send t ∷ es) = sends t ∷ spawned es
spawned (_ ∷ es) = spawned es

-- A quote for a want that is not there is refused.
abbrev pub quotes : TradeQuote → PeerId × Multiaddr → Option IWant → List Task
quotes quote details none = []
quotes quote details (some want) =
    offers (from_quote quote want waiting_r_t1_commit false details) ∷ []

module _ ⦃e : Backend⦄ where
  pub record System : Type 0 where
    pub db : e.Db
    pub active : List ℕ
    pub tasks : List Task
    pub reports : List CommitProcedureEvent

  abbrev pub started : e.Db → System
  started d = record { db = d; active = []; tasks = []; reports = [] }

  -- The indexer takes the oldest report.
  abbrev pub take_report : System → List CommitProcedureEvent → System
  take_report s [] = s
  take_report s (ev ∷ rest) = record s { active = on_procedure_event s.active ev; reports = rest }

  module _ (k : Crypto) (node : EthNode) where
    unfoldable pub task_at :
        e.Db → ℕ → Given → List Task → Result (e.Db × List Task × List CommitProcedureEvent)
    unfolding task_step
    task_at d i g [] = ok (d, [], [])
    task_at d zero g (t ∷ ts) = task_step k node d t g >>= λ (d', t', out). ok (d', t' ∷ ts, out)
    task_at d (suc i) g (t ∷ ts) = task_at d i g ts >>= λ (d', ts', out). ok (d', t ∷ ts', out)

    unfoldable pub step : System → Turn → Result System
    unfolding spawned task_at handle_network_event on_tick on_procedure_event query_from_data
        from_quote
    step s (network_event ev) = handle_network_event s.db ev >>= λ (d, effects).
        ok (record s { db = d; tasks = spawned effects ++ s.tasks })
    step s tick =
        let (active, effects) = on_tick s.active s.db in
        ok (record s { active = active; tasks = spawned effects ++ s.tasks })
    step s report = ok (take_report s s.reports)
    step s (user_query q details) = ok (record s {
      tasks = publishes (query_from_data q node.timelocked_wallet details) ∷ s.tasks;
    })
    step s (user_quote quote details) = find_i_want s.db quote.id >>= λ want.
        ok (record s { tasks = quotes quote details want ++ s.tasks })
    step s (task i g) = task_at s.db i g s.tasks >>= λ (d, ts, out).
        ok (record s { db = d; tasks = ts; reports = s.reports ++ out })

    unfoldable pub run : System → List Turn → Result System
    unfolding step
    run s [] = ok s
    run s (x ∷ turns) = step s x >>= λ s'. run s' turns
