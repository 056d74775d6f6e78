-- ===== src/Examples/Rounds.antt =====
-- The composed theorems on two nodes and on the loops of their tasks, at concrete inputs.
use dse.Base.{◌+◌, ◌≡◌, refl, true, false, List, [], ◌∷◌, Result, some, ok, network_failed, arith}
use dse.Base.{find}
use dse.Base.Bytes.{Bytes-discrete, to_be_bytes}
use dse.Base.Trees.{put}
use dse.Base.Maps.{get}
use dse.Types.{waiting_r_t1_commit, r_send_t1_commit, update_status, t1}
use dse.Types.Messages.{
  ExchangeRequest, t1_requester_commit, ExchangeResponse, ack, want_history, commit_ack,
}
use dse.Storage.{add_active_trade, find_active_trade}
use dse.Storage.Invariant.{IsWellFormed}
use dse.Procedure.{outgoing, send, send_success, empty_commit, to_waiting}
use dse.Indexer.{Effect, respond, spawn_verify}
use dse.Indexer.Handlers.{requester_t1, IsAwaited}
use dse.Network.Channels.{IsBalanced, brings_exchange, brings_commit, brought}
use dse.Network.Channels.Runs.{run-IsBalanced}
use dse.Network.{dht_put, commit_response, query_topic, ident_topic}
use dse.Network.Events.{put_record, query_completed, commits, request, inbound_failure}
use dse.Network.Senders.{waiting, answered}
use dse.Network.Runs.{Input, command, event, closed, asked, run, run-senders}
use dse.Network.Startup.{
  Setup, subscribe, add_kad_address, dial, bootstrap, listen_on, idle_network,
}
use dse.NetworkClient.Exchanges.{Ends, exchange_round}
use dse.NetworkClient.Exchanges.Rounds.{is_ok, is_served, exchange_round-is_served}
use dse.Protocol.Delivery.{send-exchange_round}
use dse.Examples.Memory.{Db, memory, memory_sound, empty, alice, bob, trade_with, commit_over}
use dse.Examples.Networks.{swarm, parse_none}
use dse.Examples.Stores.{one_trade, one_trade-IsWellFormed}
use dse.Examples.Nodes.{one_trade_of_bob, one_trade_of_bob-find}

abbrev some_inputs : List Input
some_inputs =
    command swarm (dht_put [] 9)
    ∷ event (query_completed 5 (put_record (ok [])))
    ∷ event (query_completed 5 (put_record (ok [])))
    ∷ closed
    ∷ command swarm (dht_put [] 9)
    ∷ []

run-senders_example :
    waiting 9 (run parse_none (idle_network alice) some_inputs).0
      + answered 9 (run parse_none (idle_network alice) some_inputs).1
    ≡ waiting 9 (idle_network alice) + asked parse_none 9 some_inputs
unfolding get
run-senders_example = run-senders parse_none (idle_network alice) some_inputs 9 (refl, tt)

-- Bob wants a history; it is promised to him twice, and the second response finds no channel.
abbrev two_promises : List Input
two_promises =
    event (commits (request bob 4 (want_history []) 7))
    ∷ command swarm (commit_response bob 4 commit_ack 9)
    ∷ command swarm (commit_response bob 4 commit_ack 8)
    ∷ event (commits (inbound_failure bob 4 network_failed))
    ∷ []

run-IsBalanced_example :
    IsBalanced 7
      (idle_network alice)
      (run parse_none (idle_network alice) two_promises)
      (brought (brings_exchange 7) two_promises)
      (brought (brings_commit 7) two_promises)
unfolding get
run-IsBalanced_example =
    run-IsBalanced parse_none (idle_network alice) two_promises 7 (refl, (tt, tt))

-- Alice asks, and Bob answers.
abbrev ends_of : Ends
ends_of = record {
  asker = alice;
  asking = idle_network alice;
  asking_swarm = swarm;
  asking_sender = 8;
  answerer = bob;
  serving = idle_network bob;
  serving_swarm = swarm;
  serving_sender = 9;
  inbound_id = 6;
  channel = 2;
}

exchange_round-is_served_example :
    (d' : Db) × (effects : List Effect) × (result : Result ExchangeResponse) × (exchange_round
        parse_none one_trade ends_of
        (t1_requester_commit 5 (commit_over [] t1))
      ≡ ok (some result, d', effects))
    × (is_ok result ≡ is_served (t1_requester_commit 5 (commit_over [] t1)))
    × IsWellFormed memory_sound d'
exchange_round-is_served_example =
    exchange_round-is_served memory_sound parse_none one_trade ends_of
      (t1_requester_commit 5 (commit_over [] t1)) one_trade-IsWellFormed

-- Alice's trade, which is to send, and its database.
abbrev pub at_alice : Db
at_alice = add_active_trade empty (trade_with r_send_t1_commit true)

pub at_alice-find : find_active_trade at_alice 5 ≡ ok (trade_with r_send_t1_commit true)
unfolding find_active_trade add_active_trade find Bytes-discrete put to_be_bytes
at_alice-find = refl

bob_awaits : IsAwaited requester_t1 one_trade_of_bob alice 5 (trade_with waiting_r_t1_commit false)
bob_awaits = record { known = one_trade_of_bob-find; in_turn = refl; from_party = refl }

send-exchange_round_example :
    (r : ExchangeRequest) × (result : Result ExchangeResponse) × (ours' : Db) × (outgoing
        (trade_with r_send_t1_commit true)
      ≡ ok (bob, r))
    × (exchange_round parse_none one_trade_of_bob ends_of r
        ≡ ok (
          some result,
          one_trade_of_bob,
          spawn_verify (trade_with waiting_r_t1_commit false) empty_commit
              ∷ respond alice 6 ack
              ∷ [],
        ))
    × (send at_alice (trade_with r_send_t1_commit true) result ≡ ok (ours', send_success 5))
    × (find_active_trade ours' 5
        ≡ ok (update_status (trade_with r_send_t1_commit true) (to_waiting r_send_t1_commit)))
send-exchange_round_example =
    send-exchange_round memory_sound parse_none requester_t1 ends_of at_alice one_trade_of_bob
      (trade_with r_send_t1_commit true) (trade_with waiting_r_t1_commit false) (omega arith) refl
      at_alice-find refl bob_awaits

abbrev pub heard : List Setup
heard =
    subscribe (ident_topic query_topic)
    ∷ add_kad_address bob (12 ∷ [])
    ∷ dial (12 ∷ [])
    ∷ bootstrap
    ∷ listen_on (11 ∷ [])
    ∷ []
