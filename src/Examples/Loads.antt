-- ===== src/Examples/Loads.antt =====
-- The theorems of src/ch_request.rs.
use dse.Base.{◌≡◌, true, false, err, not_found, network_failed, List, [], ◌∷◌, ok, arith}
use dse.Types.{t1}
use dse.Types.Messages.{commit_request, update, commit_ack}
use dse.Storage.{find_commit_history}
use dse.Loading.{
  initial_state, LoopEvent, received, ticked, going, done, load_loop, load_commit_history,
}
use dse.Loading.Requests.{has_last, Asks, load_commit_history_lem}
use dse.Loading.Updates.{load_ends_by_other_wallet}
use dse.Examples.Memory.{
  Db, memory, memory_sound, alice, bob, a_wallet, b_wallet, crypto, node, commit_over,
}
use dse.Examples.Stores.{one_trade, one_trade-IsWellFormed}

-- Bob is asked, and answers with a last batch; the next tick ends the load.
abbrev pub one_answer : List LoopEvent
one_answer =
    ticked 1 (ok commit_ack) 2
    ∷ received 3 (commit_request bob 0 (update b_wallet (commit_over (1 ∷ 4 ∷ []) t1 ∷ []) true))
    ∷ ticked 4 (ok commit_ack) 5
    ∷ []

load_ends_by_other_wallet_example :
    (d' : Db) × (load_loop crypto node b_wallet (going (initial_state (bob ∷ []) 0) one_trade []) (
        received 3 (commit_request alice 0 (update a_wallet [] true))
        ∷ ticked 4 (ok commit_ack) 5
        ∷ [])
      ≡ done (ok tt) d' [])
    × (find_commit_history d' b_wallet ≡ find_commit_history one_trade b_wallet)
load_ends_by_other_wallet_example =
    load_ends_by_other_wallet memory_sound crypto node b_wallet (initial_state (bob ∷ []) 0)
      one_trade [] 3 alice 0 a_wallet [] 4 (ok commit_ack) 5 one_trade-IsWellFormed
      (λ p. ground arith)

load_commit_history_example :
    Asks memory_sound
      (has_last one_answer ≡ true)
      (bob ∷ alice ∷ [])
      (load_commit_history crypto node (ok (bob ∷ alice ∷ [])) true 0 one_trade b_wallet one_answer)
    × (load_commit_history crypto node (ok (bob ∷ alice ∷ [])) false 0 one_trade b_wallet one_answer
        ≡ done (err network_failed) one_trade [])
    × (load_commit_history crypto node (err not_found) true 0 one_trade b_wallet one_answer
        ≡ done (err network_failed) one_trade [])
load_commit_history_example =
    load_commit_history_lem memory_sound crypto node (bob ∷ alice ∷ []) 0 one_trade b_wallet
      one_answer not_found true one_trade-IsWellFormed
