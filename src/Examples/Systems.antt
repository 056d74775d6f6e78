-- ===== src/Examples/Systems.antt =====
-- The theorems on whole nodes.
use dse.Base.{ℕ, ◌+◌, ◌≡◌, refl, true, List, [], ◌∷◌, ok, find, filter, filter_map, arith}
use dse.Base.Bytes.{Bytes-discrete, to_be_bytes}
use dse.Base.Maps.{one_if}
use dse.Base.Trees.{put}
use dse.Types.{is_sending_status, waiting_r_t1_commit, p_send_t1_commit, r_send_t1_commit}
use dse.Types.Messages.{ack, start_commit, exchange_request}
use dse.Storage.{
  add_active_trade, find_active_trade, get_active_trades, add_commits_to_commit_history,
  find_i_want, add_query_sent,
}
use dse.Storage.Invariant.{IsWellFormed}
use dse.Indexer.{has_id}
use dse.Loading.{load_commit_history}
use dse.Procedure.{verify, verified, send_success}
use dse.Procedure.Verify.{verify_accepts}
use dse.System.{
  Turn, network_event, tick, report, user_query, user_quote, task, System, started, step, run,
}
use dse.System.Tasks.{verifies, sends, finished, nothing, accepted, responded, Given}
use dse.System.Safety.{reported}
use dse.System.Counts.{will_report_all}
use dse.System.Runs.{run_safe}
use dse.System.Sends.{tick_sends}
use dse.System.Ends.{among, send_ends}
use dse.System.Alone.Turns.{turns, busy, verify-run}
use dse.Examples.Memory.{
  Db, memory, memory_sound, empty, alice, bob, node, crypto, trade_with, quote,
}
use dse.Examples.Stores.{one_trade, one_trade-IsWellFormed}
use dse.Examples.Nodes.{unsigned, one_trade-find}
use dse.Examples.Loads.{one_answer}

-- Bob starts a trade; Alice's node sends its first commit, and ticks again in the middle of it.
abbrev a_send : List Turn
a_send =
    network_event (exchange_request bob 6 (start_commit (trade_with waiting_r_t1_commit true)))
    ∷ tick
    ∷ user_query (record { query_string = "weather" }) (alice, 11 ∷ [])
    ∷ task 1 (responded ack)
    ∷ task 1 nothing
    ∷ task 0 accepted
    ∷ tick
    ∷ task 1 nothing
    ∷ task 0 nothing
    ∷ task 1 nothing
    ∷ report
    ∷ user_quote quote (alice, 11 ∷ [])
    ∷ []

run_safe_example :
    (sys : System) × (run crypto node (started empty) a_send ≡ ok sys)
    × IsWellFormed memory_sound sys.db
    × ((id : ℕ)
        → will_report_all id sys.tasks + reported id sys.reports ≡ one_if (has_id sys.active id))
run_safe_example = run_safe memory_sound crypto node empty a_send (λ t. refl)

-- The send has reported, the query is stored, and the quote, with no want to answer, is refused.
a_send_test :
    (sys : System) × (run crypto node (started empty) a_send ≡ ok sys)
    × (sys.tasks ≡ finished ∷ finished ∷ [])
    × (sys.active ≡ [])
unfolding run get_active_trades filter_map add_active_trade Bytes-discrete put find_active_trade
    find to_be_bytes find_i_want add_query_sent filter
a_send_test = (_, refl, refl, refl)

-- A verification at Alice's, which asks a peer for the history of the wallet.
abbrev alone :
    (d₂ : Db) × (verify crypto node one_trade
        (trade_with waiting_r_t1_commit true)
        unsigned
        (ok (bob ∷ []))
        true
        0
        one_answer
      ≡ verified d₂)
    × (find_active_trade d₂ 5 ≡ ok (trade_with p_send_t1_commit true))
    × IsWellFormed memory_sound d₂
unfolding load_commit_history add_commits_to_commit_history find add_active_trade Bytes-discrete
alone =
    verify_accepts memory_sound crypto node one_trade (trade_with waiting_r_t1_commit true) unsigned
      (ok (bob ∷ [])) true 0 one_answer (omega arith) one_trade-IsWellFormed one_trade-find refl

verify-run_example :
    (gs : List Given) × (run crypto node
        (busy [] [] one_trade (verifies (trade_with waiting_r_t1_commit true) unsigned) [])
        (turns gs)
      ≡ ok (busy [] [] alone.0 finished []))
verify-run_example =
    verify-run crypto node [] [] one_trade alone.0 (trade_with waiting_r_t1_commit true) unsigned
      (ok (bob ∷ [])) true 0 one_answer [] alone.1

-- Alice's node after Bob's start message.
abbrev heard_start : List Turn
heard_start =
    network_event (exchange_request bob 6 (start_commit (trade_with waiting_r_t1_commit true))) ∷ []

abbrev at_start : System
at_start = record (started empty) { db = add_active_trade empty (trade_with r_send_t1_commit true) }

heard_start-at_start : run crypto node (started empty) heard_start ≡ ok at_start
unfolding run
heard_start-at_start = refl

at_start-find : find_active_trade at_start.db 5 ≡ ok (trade_with r_send_t1_commit true)
unfolding find_active_trade add_active_trade find Bytes-discrete put to_be_bytes
at_start-find = refl

tick_sends_example :
    (sys' : System) × (step crypto node at_start tick ≡ ok sys')
    × (sys'.db ≡ at_start.db)
    × (will_report_all 5 sys'.tasks + reported 5 sys'.reports ≡ 1)
unfolding is_sending_status
tick_sends_example =
    tick_sends memory_sound crypto node empty heard_start at_start
      (trade_with r_send_t1_commit true) (λ t. refl) heard_start-at_start at_start-find refl

-- The answer comes while another task replaces the trade.
send_ends_example :
    among crypto node (sends (trade_with r_send_t1_commit true)) (
      (at_start.db, responded ack)
      ∷ (one_trade, nothing)
      ∷ (at_start.db, nothing)
      ∷ (empty, nothing)
      ∷ [])
    ≡ ok (finished, send_success 5 ∷ [])
unfolding is_sending_status
send_ends_example =
    send_ends crypto node memory_sound (trade_with r_send_t1_commit true) (ok ack) at_start.db
      one_trade at_start.db empty nothing nothing nothing refl
