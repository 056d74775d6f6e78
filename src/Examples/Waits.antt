-- ===== src/Examples/Waits.antt =====
-- The theorems on a verification that other tasks interrupt.
use dse.Base.{
  ◌≡◌, refl, true, false, List, [], ◌∷◌, ◌++◌, map, none, some, ok, err, network_failed, arith,
}
use dse.Types.{Commit, Trade, waiting_r_t1_commit, t1}
use dse.Types.Messages.{commit_ack, commit_bad, commit_request, want_history}
use dse.Loading.{LoadingState, LoopEvent, initial_state, ended, received, ticked}
use dse.System.Tasks.{verifies, loads, finished, Given, nothing, looked_up, loop_event}
use dse.System.Ends.{among}
use dse.System.Settles.{verification_ends}
use dse.System.Silence.{as_input, silent_verify_ends}
use dse.Examples.Memory.{
  Db, memory, memory_sound, empty, bob, b_wallet, node, crypto, trade_with, commit_over,
}
use dse.Examples.Stores.{one_trade, one_trade-IsWellFormed, empty-IsWellFormed}

abbrev waiting_trade : Trade
waiting_trade = trade_with waiting_r_t1_commit true

abbrev first_commit : Commit
first_commit = commit_over (1 ∷ 4 ∷ []) t1

-- Ten steps of a verification, while another task adds the trade and takes it away again.
abbrev changing : List (Db × Given)
changing =
    (one_trade, looked_up none true 8)
    ∷ (empty, looked_up none true 8)
    ∷ (one_trade, looked_up none true 8)
    ∷ (one_trade, looked_up none true 8)
    ∷ (empty, looked_up (some (bob ∷ [])) false 8)
    ∷ (one_trade, looked_up none true 8)
    ∷ (empty, looked_up none true 8)
    ∷ (one_trade, looked_up none true 8)
    ∷ (empty, looked_up none true 8)
    ∷ (one_trade, looked_up none true 8)
    ∷ []

-- A load that has its last batch.
abbrev over : LoadingState
over = record (initial_state (bob ∷ []) 0) { state = ended }

-- The only provider is asked four times: it fails, refuses twice and fails, and asks for something
-- in between.
abbrev unheard : List (Db × LoopEvent)
unheard =
    (one_trade, ticked 11 (err network_failed) 12)
    ∷ (empty, ticked 21 (ok commit_bad) 22)
    ∷ (one_trade, received 25 (commit_request bob 3 (want_history b_wallet)))
    ∷ (empty, ticked 31 (ok commit_bad) 32)
    ∷ (one_trade, ticked 41 (err network_failed) 42)
    ∷ (empty, ticked 51 (err network_failed) 52)
    ∷ []

abbrev after : List (Db × Given)
after =
    (empty, nothing)
    ∷ (one_trade, nothing)
    ∷ (one_trade, nothing)
    ∷ (empty, nothing)
    ∷ (one_trade, nothing)
    ∷ []

verification_ends_example :
    (among crypto node (verifies waiting_trade first_commit) changing ≡ ok (finished, []))
    × (among crypto node
          (loads waiting_trade first_commit over (bob ∷ []))
          ((one_trade, loop_event (ticked 6 (ok commit_ack) 7)) ∷ after)
        ≡ ok (finished, []))
verification_ends_example =
    let w = one_trade-IsWellFormed in
    let v = empty-IsWellFormed in
    verification_ends memory_sound crypto node waiting_trade first_commit over (bob ∷ []) 6 7
      (ok commit_ack) one_trade changing after
      (
        (w, tt),
        (
          (v, tt),
          (
            (w, tt),
            ((w, tt), ((v, tt), ((w, tt), ((v, tt), ((w, tt), ((v, tt), ((w, tt), tt))))))),
          ),
        ),
      )
      (v, (w, (w, (v, (w, tt))))) (omega arith) (omega arith) refl

silent_verify_ends_example :
    among crypto node (verifies waiting_trade first_commit) (
      (one_trade, nothing)
      ∷ (one_trade, nothing)
      ∷ (one_trade, nothing)
      ∷ (one_trade, nothing)
      ∷ (empty, looked_up (some (bob ∷ [])) true 10)
      ∷ (map as_input unheard ++ after))
    ≡ ok (finished, [])
silent_verify_ends_example =
    let w = one_trade-IsWellFormed in
    let v = empty-IsWellFormed in
    silent_verify_ends memory_sound crypto node waiting_trade first_commit one_trade one_trade
      one_trade one_trade empty (bob ∷ []) 10 unheard after w w
      ((w, tt), ((v, tt), ((w, tt), ((v, tt), ((w, tt), ((v, tt), tt))))))
      (v, (w, (w, (v, (w, tt))))) (omega arith) (omega arith)
