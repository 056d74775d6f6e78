-- ===== src/Examples/Meetings.antt =====
-- The theorems on calls of the storage that meet, and on messages of several peers.
use mathlib.Core.List.{Memᴰ}
use dse.Storage.Ordered.Queries.{listed_iff}
use dse.Server.{handle_get_userqueries, handle_get_recvqueries}
use dse.Base.{◌⊎◌, ◌≡◌, refl, true, List, [], ◌∷◌, ◌++◌, Option, none, some, ok, find, ◌↔◌, arith}
use dse.Types.{Commit, CommitHistory, waiting_r_t1_commit, r_send_t1_commit, t1}
use dse.Types.Messages.{ack, commit_ack, bad, start_commit, exchange_request}
use dse.Storage.{
  add_query_sent, add_query_received, find_query_sent_by_query_id, find_query_received_by_query_id,
  find_commit_history, find_active_trade,
}
use dse.Storage.Invariant.{IsWellFormed}
use dse.Storage.Writes.{Write, commits, query_sent, query_received, write, write_all}
use dse.Storage.Locks.{Thread, starts}
use dse.Storage.Locks.Races.{Leaves, commits_lost}
use dse.Indexer.{handle_network_event, spawn_verify, respond}
use dse.Indexer.Handlers.{message, requester_t1}
use dse.Indexer.Starts.{start_commit_replaces}
use dse.Loading.{LoadingState, going, done}
use dse.Protocol.History.{Times, history_round, history_round_lem}
use dse.Storage.Histories.{put_history, put_history-IsWellFormed, commits_of, history_with}
use dse.Loading.Picks.{Picks, IsOfOwner}
use dse.Examples.Memory.{
  Db, memory, memory_sound, empty, alice, bob, b_wallet, node, crypto, trade_with, commit_over,
  query_of,
}
use dse.Examples.Stores.{one_trade, empty-IsWellFormed}
use dse.Examples.Nodes.{one_trade-find}

abbrev first_commits : List Commit
first_commits = commit_over (1 ∷ 4 ∷ []) t1 ∷ []

abbrev more_commits : List Commit
more_commits = commit_over (5 ∷ 9 ∷ []) t1 ∷ []

empty-find : find_commit_history empty b_wallet ≡ ok none
unfolding find_commit_history find
empty-find = refl

abbrev two_calls : List (Option Thread)
two_calls =
    some (starts (commits b_wallet first_commits))
    ∷ some (starts (commits b_wallet more_commits))
    ∷ []

commits_lost_example :
    Leaves memory_sound empty two_calls b_wallet
      (([] ++ first_commits) ++ more_commits)
      (0 ∷ 0 ∷ 1 ∷ 1 ∷ [])
    × Leaves memory_sound empty two_calls b_wallet
        (([] ++ more_commits) ++ first_commits)
        (1 ∷ 1 ∷ 0 ∷ 0 ∷ [])
    × Leaves memory_sound empty two_calls b_wallet ([] ++ more_commits) (0 ∷ 1 ∷ 0 ∷ 1 ∷ [])
    × Leaves memory_sound empty two_calls b_wallet ([] ++ more_commits) (1 ∷ 0 ∷ 0 ∷ 1 ∷ [])
    × Leaves memory_sound empty two_calls b_wallet ([] ++ first_commits) (0 ∷ 1 ∷ 1 ∷ 0 ∷ [])
    × Leaves memory_sound empty two_calls b_wallet ([] ++ first_commits) (1 ∷ 0 ∷ 1 ∷ 0 ∷ [])
commits_lost_example =
    commits_lost memory_sound empty b_wallet first_commits more_commits none empty-IsWellFormed
      empty-find

-- Bob's first commit is awaited; a third peer starts a trade with the same id.
start_commit_replaces_example :
    (handle_network_event one_trade
        (exchange_request bob 6 (message requester_t1 5 (commit_over [] t1)))
      ≡ ok (
        one_trade,
        spawn_verify (trade_with waiting_r_t1_commit true) (commit_over [] t1)
            ∷ respond bob 6 ack
            ∷ [],
      ))
    × ((d' : Db) × (handle_network_event one_trade (
            exchange_request (9 ∷ []) 7 (
              start_commit
                (record (trade_with waiting_r_t1_commit true) { requester_id = 9 ∷ [] })))
          ≡ ok (d', respond (9 ∷ []) 7 ack ∷ []))
        × (find_active_trade d' 5
            ≡ ok (record (trade_with r_send_t1_commit true) { requester_id = 9 ∷ [] }))
        × (handle_network_event d'
              (exchange_request bob 6 (message requester_t1 5 (commit_over [] t1)))
            ≡ ok (d', respond bob 6 bad ∷ [])))
start_commit_replaces_example =
    start_commit_replaces memory_sound one_trade requester_t1 bob (9 ∷ []) 6 7
      (trade_with waiting_r_t1_commit true)
      (record (trade_with waiting_r_t1_commit true) { requester_id = 9 ∷ [] }) (commit_over [] t1)
      (omega arith) (record { known = one_trade-find; in_turn = refl; from_party = refl })

-- Bob has a history of the wallet, and Alice loads it from him.
abbrev kept_by_bob : CommitHistory
kept_by_bob = record { wallet_address = b_wallet; commits = first_commits }

abbrev bobs : Db
bobs = put_history memory_sound empty b_wallet kept_by_bob

abbrev times : Times
times = record {
  start = 0;
  first_tick = 1;
  answered_at = 2;
  update_at = 3;
  second_tick = 4;
  end = 5;
}

history_round_example :
    ((find_commit_history bobs b_wallet ≡ ok none)
      × ((ls : LoadingState) × (history_round crypto node empty bobs alice bob 6 7 b_wallet times
              (ok commit_ack)
            ≡ ok (bobs, going ls empty (bob ∷ bob ∷ [])))))
    ⊎ ((h : CommitHistory) × (ours' : Db) × (find_commit_history bobs b_wallet ≡ ok (some h))
        × (history_round crypto node empty bobs alice bob 6 7 b_wallet times (ok commit_ack)
            ≡ ok (bobs, done (ok tt) ours' (bob ∷ [])))
        × IsWellFormed memory_sound ours'
        × ((kept : List Commit) × Picks (IsOfOwner crypto node b_wallet) h.commits kept
            × (find_commit_history ours' b_wallet
                ≡ ok (some (history_with b_wallet (commits_of none ++ kept))))))
history_round_example =
    history_round_lem crypto node memory_sound empty bobs alice bob 6 7 b_wallet times
      (ok commit_ack) none empty-IsWellFormed
      (put_history-IsWellFormed memory_sound empty empty-IsWellFormed b_wallet kept_by_bob refl)
      empty-find

abbrev two_writes : List Write
two_writes = query_sent (query_of 1) ∷ query_received (query_of 2) ∷ []

abbrev two_queries : Db
two_queries = add_query_received (add_query_sent empty (query_of 1)) (query_of 2)

two_writes-two_queries : write_all empty two_writes ≡ ok two_queries
unfolding write_all write
two_writes-two_queries = refl

listed_iff_example :
    (Memᴰ (query_of 2) (handle_get_userqueries two_queries)
      ↔ (find_query_sent_by_query_id two_queries 2 ≡ ok (query_of 2)))
    × (Memᴰ (query_of 2) (handle_get_recvqueries two_queries)
        ↔ (find_query_received_by_query_id two_queries 2 ≡ ok (query_of 2)))
listed_iff_example =
    listed_iff memory_sound empty two_queries two_writes (query_of 2) (λ t. refl)
      two_writes-two_queries
