-- ===== src/Examples/Nodes.antt =====
-- The theorems of src/commit_procedure.rs and src/indexer.rs at concrete inputs.
use dse.Indexer.Races.{handle_all, to_event, verifications, verifies_each}
use dse.Base.{map}
use dse.Base.{
  ℕ, ◌≡◌, refl, true, false, [], ◌∷◌, none, ok, err, Error, network_failed, arith, find, ◌⊎◌,
}
use dse.Base.Bytes.{Bytes-discrete, to_be_bytes}
use dse.Base.Trees.{put}
use dse.Types.{
  Trade, waiting_r_t1_commit, p_send_t1_commit, waiting_r_t2_commit, is_sending_status, Commit, t1,
}
use dse.Types.Messages.{
  ExchangeRequest, ExchangeResponse, ack, bad, gossipsub_message_recv, gossip_commit,
  gossip_invalidating_signature,
}
use dse.Types.{Address, Signature}
use dse.Storage.{add_active_trade, find_active_trade}
use dse.Storage.Invariant.{IsWellFormed}
use dse.Loading.{load_commit_history}
use dse.Procedure.{outgoing, send, send_success, send_failed, verify, verified}
use dse.Procedure.Verify.{verify_accepts}
use dse.Procedure.Send.{send_lem}
use dse.Indexer.{respond, spawn_verify, handle_network_event, on_exchange_request}
use dse.Indexer.Handlers.{requester_t1, message, IsAwaited, on_commit_message, gossip_ignored}
use dse.Examples.Memory.{
  Db, memory, memory_sound, empty, alice, bob, crypto, node, commit_over, trade_with,
}
use dse.Examples.Stores.{one_trade, one_trade-IsWellFormed}
use dse.Examples.Loads.{one_answer}

-- A commit over another trade, with no signature.
abbrev pub unsigned : Commit
unsigned = record (commit_over (4 ∷ 1 ∷ []) t1) { u = 77; signature = none }

pub one_trade-find : find_active_trade one_trade 5 ≡ ok (trade_with waiting_r_t1_commit true)
unfolding find_active_trade add_active_trade find Bytes-discrete put to_be_bytes
one_trade-find = refl

verify_accepts_example :
    (d₂ : Db) × (verify crypto node one_trade
        (trade_with waiting_r_t1_commit true)
        unsigned
        (err network_failed)
        true
        0
        one_answer
      ≡ verified d₂)
    × (find_active_trade d₂ 5 ≡ ok (trade_with p_send_t1_commit true))
    × IsWellFormed memory_sound d₂
unfolding load_commit_history
verify_accepts_example =
    verify_accepts memory_sound crypto node one_trade (trade_with waiting_r_t1_commit true) unsigned
      (err network_failed) true 0 one_answer (omega arith) one_trade-IsWellFormed one_trade-find
      refl

send_example :
    ((x : Error)
      → send one_trade (trade_with p_send_t1_commit false) (err x) ≡ ok (one_trade, send_failed 5))
    × ((response : ExchangeResponse)
        → (d' : Db) × (send one_trade (trade_with p_send_t1_commit false) (ok response)
            ≡ ok (d', send_success 5))
          × (find_active_trade d' 5 ≡ ok (trade_with waiting_r_t2_commit false)))
    × ((r : ExchangeRequest) × (outgoing (trade_with p_send_t1_commit false) ≡ ok (alice, r)))
unfolding is_sending_status
send_example =
    send_lem memory_sound one_trade (trade_with p_send_t1_commit false) (omega arith) refl
      one_trade-find

on_commit_message_example :
    ((t : Trade) × IsAwaited requester_t1 one_trade bob 5 t
      × (on_exchange_request one_trade bob 0 (message requester_t1 5 (commit_over [] t1))
          ≡ ok (one_trade, spawn_verify t (commit_over [] t1) ∷ respond bob 0 ack ∷ [])))
    ⊎ (¬ ((t : Trade) × IsAwaited requester_t1 one_trade bob 5 t)
        × (on_exchange_request one_trade bob 0 (message requester_t1 5 (commit_over [] t1))
            ≡ ok (one_trade, respond bob 0 bad ∷ [])))
on_commit_message_example =
    on_commit_message memory_sound requester_t1 one_trade bob 0 5 (commit_over [] t1)

gossip_ignored_example :
    ((c : Commit) (id : ℕ)
      → handle_network_event one_trade (gossipsub_message_recv (gossip_commit c id))
        ≡ ok (one_trade, []))
    × ((id : ℕ) (p r : Address) (g : Signature)
        → handle_network_event one_trade
            (gossipsub_message_recv (gossip_invalidating_signature id p r g))
          ≡ ok (one_trade, []))
gossip_ignored_example = gossip_ignored memory_sound one_trade one_trade-IsWellFormed

abbrev pub one_trade_of_bob : Db
one_trade_of_bob = add_active_trade empty (trade_with waiting_r_t1_commit false)

pub one_trade_of_bob-find :
    find_active_trade one_trade_of_bob 5 ≡ ok (trade_with waiting_r_t1_commit false)
unfolding find_active_trade add_active_trade find Bytes-discrete put to_be_bytes
one_trade_of_bob-find = refl

verifies_each_example :
    handle_all one_trade_of_bob
      (map (to_event requester_t1 alice 5) ((0, commit_over [] t1) ∷ (1, unsigned) ∷ []))
    ≡ ok (
      one_trade_of_bob,
      verifications
          (trade_with waiting_r_t1_commit false)
          alice
          ((0, commit_over [] t1) ∷ (1, unsigned) ∷ []),
    )
verifies_each_example =
    verifies_each memory_sound requester_t1 one_trade_of_bob alice 5
      (trade_with waiting_r_t1_commit false) ((0, commit_over [] t1) ∷ (1, unsigned) ∷ [])
      (record { known = one_trade_of_bob-find; in_turn = refl; from_party = refl })
