-- ===== src/System/Tasks.antt =====
-- src/commit_procedure.rs, src/ch_request.rs and src/server.rs: the tasks that a node runs beside its
-- indexer, step by step. A step goes up to the next point where another task can change the
-- database: the end of a locked section, or a wait for an answer.
use dse.Base.{
  ℕ, Bool, true, List, [], ◌∷◌, Option, none, some, if◌then◌else◌, filter, Result, ok, panic, ◌>>=◌,
}
use dse.Types.{PeerId, Query, Trade, update_status, Commit}
use dse.Types.Messages.{ExchangeResponse, ack, bad, commit_request, update}
use dse.Backend.{Backend}
use dse.Storage.{get_wallets_of_interest, exists, find_commit_history}
use dse.Storage.Writes.{wallet_of_interest, commits, trade_update, query_sent, active_trade}
use dse.Storage.Locks.{Thread, starts, section}
use dse.Commit.{Crypto}
use dse.EthNode.{EthNode, owner_address, get_current_epoch}
use dse.Loading.{
  LoadingState, ended, initial_state, is_loadable, LoopEvent, received, ticked, Progress, going,
  done, panicked, on_tick,
}
use dse.Procedure.{
  CommitProcedureEvent, send_success, send_failed, to_waiting, to_processing, to_send, outgoing,
}

-- `writes` is a call of the storage that is under way, and what follows it; `sends`, `publishes`
-- and `offers` wait for the network's answer, `asks` for the providers of a history.
pub data Task : Type 0 where
  finished : Task
  writes : Thread → Task → Task
  sends : Trade → Task
  reports : CommitProcedureEvent → Task
  verifies : Trade → Commit → Task
  looks : Trade → Commit → Task
  asks : Trade → Commit → Task
  loads : Trade → Commit → LoadingState → List PeerId → Task
  checks : Trade → Commit → Task
  publishes : Query → Task
  offers : Trade → Task

-- What a task gets from outside at its step.
pub data Given : Type 0 where
  nothing accepted refused : Given
  responded : ExchangeResponse → Given
  -- The providers, whether the subscription to network events succeeds, and the time.
  looked_up : Option (List PeerId) → Bool → ℕ → Given
  loop_event : LoopEvent → Given

abbrev pub save : Trade → Task → Task
save t next = writes (starts (trade_update t)) next

-- `update_trade_waiting_status` and the report, or the report of a failure.
abbrev pub after_answer : Trade → Given → Task
after_answer t (responded r) =
    save (update_status t (to_waiting t.status)) (reports (send_success t.id))
after_answer t refused = reports (send_failed t.id)
after_answer t _ = sends t

abbrev pub notes : Trade → Commit → Task
notes t c = writes (starts (wallet_of_interest c.wallet_address)) (checks t c)

abbrev pub begin_load : Trade → Commit → Given → Task
begin_load t c (looked_up (some peers) true now) = loads t c (initial_state peers now) []
begin_load t c (looked_up _ _ now) = notes t c
begin_load t c _ = asks t c

abbrev pub after_publication : Query → Given → Task
after_publication q accepted = writes (starts (query_sent q)) finished
after_publication q refused = finished
after_publication q _ = publishes q

abbrev pub after_offer : Trade → Given → Task
after_offer t (responded ack) = writes (starts (active_trade t)) finished
after_offer t (responded bad) = finished
after_offer t refused = finished
after_offer t _ = offers t

module _ ⦃e : Backend⦄ where
  -- The database, the rest of the task, and what it reports.
  abbrev pub Stepped : Type 0
  Stepped = e.Db × Task × List CommitProcedureEvent

  abbrev pub written : Task → e.Db × Option Thread → Result Stepped
  written next (d, none) = ok (d, next, [])
  written next (d, some t) = ok (d, writes t next, [])

  abbrev pub after_tick : Trade → Commit → Progress → Result Stepped
  after_tick t c (going ls d asked) = ok (d, loads t c ls asked, [])
  after_tick t c (done r d asked) = ok (d, notes t c, [])
  after_tick t c panicked = panic

  module _ (k : Crypto) (node : EthNode) where
    -- One event of the loop of a load: an update calls the storage, and the loop goes on from there.
    unfoldable pub load_event :
        e.Db → Trade → Commit → LoadingState → List PeerId → LoopEvent → Result Stepped
    unfolding is_loadable on_tick
    load_event d t c ls asked (received now (commit_request sender id (update updated cs last))) =
        let kept =
          filter
            (is_loadable k node (get_current_epoch node c.wallet_address)
              (owner_address node c.wallet_address))
            cs in
        ok (
          d,
          writes (starts (commits updated kept)) (
              loads t c (record ls { timeout = now; state = if last then ended else ls.state })
                asked),
          [],
        )
    load_event d t c ls asked (received now _) = ok (d, loads t c ls asked, [])
    load_event d t c ls asked (ticked now answer later) =
        after_tick t c (on_tick ls d asked now answer later)

    unfoldable pub task_step : e.Db → Task → Given → Result Stepped
    unfolding section outgoing exists load_event
    task_step d finished g = ok (d, finished, [])
    task_step d (writes thread next) g = section d thread >>= written next
    task_step d (sends t) g = outgoing t >>= λ sent. ok (d, after_answer t g, [])
    task_step d (reports event) g = ok (d, finished, event ∷ [])
    task_step d (verifies t c) g =
        let t' : Trade = update_status t (to_processing t.status) in
        ok (d, save t' (looks t' c), [])
    task_step d (looks t c) g = get_wallets_of_interest d >>= λ ws.
        ok (d, (if exists ws c.wallet_address then checks t c else asks t c), [])
    task_step d (asks t c) g = ok (d, begin_load t c g, [])
    task_step d (loads t c ls asked) (loop_event event) = load_event d t c ls asked event
    task_step d (loads t c ls asked) _ = ok (d, loads t c ls asked, [])
    task_step d (checks t c) g = find_commit_history d c.wallet_address >>= λ found.
        ok (d, save (update_status t (to_send t.status)) finished, [])
    task_step d (publishes q) g = ok (d, after_publication q g, [])
    task_step d (offers t) g = ok (d, after_offer t g, [])
