-- ===== src/Indexer.antt =====
-- src/indexer.rs: the node's reaction to the network and to its timer. A handler returns the
-- database and what it sets going, in order: responses, requests and spawned procedures.
pub mod Handlers
pub mod Sends
pub mod Races
pub mod Runs
pub mod Starts
use dse.Base.{
  ℕ, Bool, true, false, not, ◌&&◌, List, [], ◌∷◌, ◌++◌, Option, none, some, ◌==◌, if◌then◌else◌,
  filter, Result, ok, err, panic, ◌>>=◌, invalid_request,
}
use dse.Base.Bytes.{Bytes, bytes_eq}
use dse.Types.{
  Address, PeerId, Signature, Query, IWant, TradeStatus, waiting_r_t1_commit, waiting_p_t1_commit,
  waiting_r_t2_commit, r_send_t1_commit, status_eq, Trade, update_status, counter_party_details,
  is_sending_status, Commit, CommitHistory,
}
use dse.Types.Messages.{
  ExchangeRequest, i_want, start_commit, t1_requester_commit, t1_provider_commit,
  t2_requester_commit, t2_commit_valid, exchange_invalidating_signature, ExchangeResponse, ack, bad,
  CommitRequest, want_history, update, CommitResponse, commit_ack, commit_bad, GossipsubMessage,
  new_query, gossip_commit, gossip_invalidating_signature, RequestId, NetworkEvent,
  gossipsub_message_recv, exchange_request, commit_request, new_listen_addr,
}
use dse.Backend.{Backend}
use dse.Storage.{
  add_i_want, add_active_trade, add_query_received, get_wallets_of_interest, exists,
  add_commits_to_commit_history, update_commit_history_with_invalidating_signature,
  find_active_trade, find_commit_history, get_active_trades,
}
use dse.Procedure.{CommitProcedureEvent, send_success, send_failed}

-- What a handler spawns.
pub data Effect : Type 0 where
  respond : PeerId → RequestId → ExchangeResponse → Effect
  respond_commit : PeerId → RequestId → CommitResponse → Effect
  request_commit : PeerId → CommitRequest → Effect
  spawn_verify : Trade → Commit → Effect
  spawn_send : Trade → Effect

module _ ⦃e : Backend⦄ where
  abbrev pub Handled : Type 0
  Handled = Result (e.Db × List Effect)

  abbrev pub quiet : Result e.Db → Handled
  quiet r = r >>= λ d. ok (d, [])

  unfoldable pub on_new_query : e.Db → Query → Handled
  on_new_query d query = ok (add_query_received d query, [])

  unfoldable pub on_gossip_commit : e.Db → Commit → Handled
  on_gossip_commit d commit = get_wallets_of_interest d >>= λ ws.
      if exists ws commit.wallet_address
      then quiet (add_commits_to_commit_history d commit.wallet_address (commit ∷ []))
      else ok (d, [])

  -- One of the two wallets of an invalidating signature.
  unfoldable pub invalidate : e.Db → ℕ → Address → Signature → Result e.Db
  invalidate d trade_id wallet g = get_wallets_of_interest d >>= λ ws.
      if exists ws wallet
      then update_commit_history_with_invalidating_signature d trade_id wallet g
      else ok d

  unfoldable pub on_gossip_invalidating_signature :
      e.Db → ℕ → Address → Address → Signature → Handled
  unfolding invalidate
  on_gossip_invalidating_signature d trade_id provider_wallet requester_wallet g =
      invalidate d trade_id provider_wallet g >>= λ d'.
      quiet (invalidate d' trade_id requester_wallet g)

  unfoldable pub on_i_want : e.Db → PeerId → RequestId → IWant → Handled
  on_i_want d sender id msg = ok (add_i_want d msg, respond sender id ack ∷ [])

  -- The trade is stored as it was received, but for its status.
  unfoldable pub on_start_commit : e.Db → PeerId → RequestId → Trade → Handled
  on_start_commit d sender id trade =
      ok (add_active_trade d (update_status trade r_send_t1_commit), respond sender id ack ∷ [])

  -- `find_active_trade(..).and_then(..)`, with the status that the message is awaited in.
  unfoldable pub awaited_trade : TradeStatus → e.Db → PeerId → ℕ → Result Trade
  awaited_trade awaited d sender trade_id = find_active_trade d trade_id >>= λ trade.
      if status_eq trade.status awaited && bytes_eq (counter_party_details trade).0 sender
      then ok trade
      else err invalid_request

  abbrev pub verify_or_refuse : Result Trade → e.Db → PeerId → RequestId → Commit → Handled
  verify_or_refuse (ok trade) d sender id commit =
      ok (d, spawn_verify trade commit ∷ respond sender id ack ∷ [])
  verify_or_refuse (err x) d sender id commit = ok (d, respond sender id bad ∷ [])
  verify_or_refuse panic d sender id commit = panic

  unfoldable pub on_t1_requester_commit : e.Db → PeerId → RequestId → ℕ → Commit → Handled
  unfolding awaited_trade
  on_t1_requester_commit d sender id trade_id commit =
      verify_or_refuse (awaited_trade waiting_r_t1_commit d sender trade_id) d sender id commit

  unfoldable pub on_t1_provider_commit : e.Db → PeerId → RequestId → ℕ → Commit → Handled
  unfolding awaited_trade
  on_t1_provider_commit d sender id trade_id commit =
      verify_or_refuse (awaited_trade waiting_p_t1_commit d sender trade_id) d sender id commit

  unfoldable pub on_t2_requester_commit : e.Db → PeerId → RequestId → ℕ → Commit → Handled
  unfolding awaited_trade
  on_t2_requester_commit d sender id trade_id commit =
      verify_or_refuse (awaited_trade waiting_r_t2_commit d sender trade_id) d sender id commit

  -- The last two requests fall through `_ => {}`: they get no response.
  unfoldable pub on_exchange_request : e.Db → PeerId → RequestId → ExchangeRequest → Handled
  unfolding on_i_want on_start_commit on_t1_requester_commit on_t1_provider_commit
      on_t2_requester_commit
  on_exchange_request d sender id (i_want msg) = on_i_want d sender id msg
  on_exchange_request d sender id (start_commit trade) = on_start_commit d sender id trade
  on_exchange_request d sender id (t1_requester_commit trade_id c) =
      on_t1_requester_commit d sender id trade_id c
  on_exchange_request d sender id (t1_provider_commit trade_id c) =
      on_t1_provider_commit d sender id trade_id c
  on_exchange_request d sender id (t2_requester_commit trade_id c) =
      on_t2_requester_commit d sender id trade_id c
  on_exchange_request d sender id (t2_commit_valid trade_id) = ok (d, [])
  on_exchange_request d sender id (exchange_invalidating_signature trade_id g) = ok (d, [])

  abbrev pub history_reply :
      e.Db → PeerId → RequestId → Address → Option CommitHistory → e.Db × List Effect
  history_reply d sender id wallet none = (d, respond_commit sender id commit_bad ∷ [])
  history_reply d sender id wallet (some h) = (
    d,
    respond_commit sender id commit_ack ∷ request_commit sender (update wallet h.commits true) ∷ [],
  )

  unfoldable pub on_want_history : e.Db → PeerId → RequestId → Address → Handled
  on_want_history d sender id wallet =
      find_commit_history d wallet >>= λ found. ok (history_reply d sender id wallet found)

  unfoldable pub handle_network_event : e.Db → NetworkEvent → Handled
  unfolding on_new_query on_gossip_commit on_gossip_invalidating_signature on_exchange_request
      on_want_history
  handle_network_event d (gossipsub_message_recv (new_query query)) = on_new_query d query
  handle_network_event d (gossipsub_message_recv (gossip_commit c trade_id)) = on_gossip_commit d c
  handle_network_event d (gossipsub_message_recv (gossip_invalidating_signature id p r g)) =
      on_gossip_invalidating_signature d id p r g
  handle_network_event d (exchange_request sender id request) =
      on_exchange_request d sender id request
  handle_network_event d (commit_request sender id (want_history wallet)) =
      on_want_history d sender id wallet
  handle_network_event d (commit_request sender id (update wallet cs last)) = ok (d, [])
  handle_network_event d (new_listen_addr id addr) = ok (d, [])

-- `HashSet<u32>`, without repetitions.
unfoldable pub has_id : List ℕ → ℕ → Bool
has_id [] id = false
has_id (x ∷ xs) id = if x == id then true else has_id xs id

-- `HashSet::remove`.
unfoldable pub remove_id : ℕ → List ℕ → List ℕ
remove_id id = filter (λ x. not (x == id))

-- The loop of the timer: a trade that has to send, and is not being sent, is sent.
unfoldable pub start_sends : List ℕ → List Trade → List ℕ × List Effect
unfolding has_id is_sending_status
start_sends active [] = (active, [])
start_sends active (trade ∷ trades) =
    let starts : Bool = is_sending_status trade && not (has_id active trade.id) in
    let (active', effects) = start_sends (if starts then trade.id ∷ active else active) trades in
    (active', if starts then spawn_send trade ∷ effects else effects)

unfoldable pub on_tick : ⦃e : Backend⦄ → List ℕ → e.Db → List ℕ × List Effect
unfolding start_sends
on_tick active d = start_sends active (get_active_trades d)

-- The end of a `send`, in either way.
unfoldable pub on_procedure_event : List ℕ → CommitProcedureEvent → List ℕ
unfolding remove_id
on_procedure_event active (send_success id) = remove_id id active
on_procedure_event active (send_failed id) = remove_id id active
