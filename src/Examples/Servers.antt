-- ===== src/Examples/Servers.antt =====
-- The theorems of src/server.rs, and those on a trade of two nodes, at concrete inputs.
use dse.Base.{◌≡◌, refl, false, [], ◌∷◌, some, ok, err, Error, network_failed, arith, find}
use dse.Base.Bytes.{Bytes-discrete, to_be_bytes}
use dse.Base.Trees.{put}
use dse.Types.{
  Trade, waiting_r_t1_commit, r_send_t1_commit, update_status, counter_party_details,
  is_sending_status, QueryData,
}
use dse.Types.Messages.{start_commit, ack, bad, exchange_request}
use dse.Storage.{add_active_trade, find_active_trade, add_i_want, find_i_want}
use dse.Procedure.{send, send_failed}
use dse.Procedure.Status.{sends}
use dse.Indexer.{respond, handle_network_event}
use dse.Server.{status_ok, internal_server_error, request, from_quote, post_start_commit}
use dse.Server.Trades.{post_start_commit_lem}
use dse.Examples.Memory.{
  Db, memory, memory_sound, empty, alice, bob, crypto, node, trade_with, want, quote,
}
use dse.Examples.Stores.{one_trade}
use dse.Types.{PeerId, TradeStatus-discrete}
use dse.Protocol.{Side, requester, provider, sends, Reach, start, then_step, World}
use dse.Protocol.Stall.{trade_stalls}
use dse.EthNode.{EthNode}

abbrev wanted : Db
wanted = add_i_want one_trade want

wanted-find : find_i_want wanted 5 ≡ ok (some want)
unfolding find_i_want add_i_want add_active_trade find Bytes-discrete put to_be_bytes
wanted-find = refl

abbrev quoted : Trade
quoted = record (trade_with waiting_r_t1_commit false) { provider_addr = 12 ∷ [] }

post_start_commit_example :
    (find_active_trade (add_active_trade wanted quoted) 5 ≡ ok quoted)
    × ((counter_party_details quoted).0 ≡ alice)
    × (post_start_commit wanted quote (ok (bob, 12 ∷ [])) (ok ack)
        ≡ ok (add_active_trade wanted quoted, status_ok, request alice (start_commit quoted) ∷ []))
    × (post_start_commit wanted quote (ok (bob, 12 ∷ [])) (ok bad)
        ≡ ok (wanted, internal_server_error, request alice (start_commit quoted) ∷ []))
    × ((x : Error)
        → post_start_commit wanted quote (ok (bob, 12 ∷ [])) (err x)
          ≡ ok (wanted, internal_server_error, request alice (start_commit quoted) ∷ []))
unfolding from_quote
post_start_commit_example =
    post_start_commit_lem memory_sound wanted quote want bob (12 ∷ []) (omega arith) wanted-find

abbrev weather : QueryData
weather = record { query_string = "weather" }

abbrev peers : Side → PeerId
peers requester = alice
peers provider = bob

abbrev chains : Side → EthNode
chains x = node

-- What the provider and the requester store when the trade is started.
abbrev at_provider : Db
at_provider = add_active_trade wanted quoted

abbrev at_requester : Db
at_requester = add_active_trade empty (update_status quoted r_send_t1_commit)

abbrev first_world : World
first_world = record {
  requester_node = record { db = at_requester; tasks = respond bob 7 ack ∷ [] };
  provider_node = record { db = at_provider; tasks = [] };
}

at_provider-post_start_commit :
    post_start_commit wanted quote (ok (bob, 12 ∷ [])) (ok ack)
    ≡ ok (at_provider, status_ok, request alice (start_commit quoted) ∷ [])
unfolding from_quote
at_provider-post_start_commit =
    (post_start_commit_lem memory_sound wanted quote want bob (12 ∷ []) (omega arith) wanted-find).2

at_requester-handle_network_event :
    handle_network_event empty (exchange_request bob 7 (start_commit quoted))
    ≡ ok (at_requester, respond bob 7 ack ∷ [])
unfolding handle_network_event
at_requester-handle_network_event = refl

at_requester-find : find_active_trade at_requester 5 ≡ ok (update_status quoted r_send_t1_commit)
unfolding find_active_trade add_active_trade find Bytes-discrete put to_be_bytes
at_requester-find = refl

-- The requester's `send` runs and fails.
one_step : Reach crypto chains peers 5 first_world first_world
unfolding is_sending_status TradeStatus-discrete send
one_step = then_step (start first_world) (
    sends requester first_world (update_status quoted r_send_t1_commit) (err network_failed)
      at_requester (send_failed 5) at_requester-find refl refl)

trade_stalls_example : find_active_trade first_world.provider_node.db 5 ≡ ok quoted
unfolding from_quote
trade_stalls_example =
    trade_stalls memory_sound crypto chains peers (12 ∷ []) quote want 7 wanted at_provider
      at_requester (request alice (start_commit quoted) ∷ []) (respond bob 7 ack ∷ []) empty
      first_world (omega arith) refl (λ p. ground arith) wanted-find at_provider-post_start_commit
      at_requester-handle_network_event one_step
