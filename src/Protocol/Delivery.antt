-- ===== src/Protocol/Delivery.antt =====
-- src/commit_procedure.rs over src/network_client.rs, src/network/mod.rs and src/indexer.rs: a
-- commit message on its way from one node of a trade to the other.
use dse.Base.{ℕ, ◌^◌, ◌<◌, ◌≡◌, subst, true, [], ◌∷◌, Option, some, Result, ok, arith, inl, inr}
use dse.Base.Bytes.{Bytes, bytes_eq_self}
use dse.Types.{
  Commit, PeerId, Trade, TradeStatus, r_send_t1_commit, p_send_t1_commit, r_send_t2_commit,
  update_status, counter_party_details, is_sending_status, TradeStatus-discrete,
}
use dse.Types.Messages.{
  RequestId, ExchangeRequest, ExchangeResponse, ack, GossipsubMessage, exchange_request,
}
use dse.Backend.{Backend, IsSound}
use dse.Storage.{find_active_trade}
use dse.Procedure.{send, send_success, to_waiting, outgoing, empty_commit}
use dse.Procedure.Send.{send_lem}
use dse.Indexer.{respond, spawn_verify, handle_network_event}
use dse.Indexer.Handlers.{
  CommitMessage, requester_t1, provider_t1, requester_t2, message, IsAwaited, on_commit_message,
}
use dse.NetworkClient.Exchanges.{Ends, exchange_round, response_to}
use dse.NetworkClient.Exchanges.Rounds.{exchange_round_lem}

-- The status that sends a message.
abbrev pub sending : CommitMessage → TradeStatus
sending requester_t1 = r_send_t1_commit
sending provider_t1 = p_send_t1_commit
sending requester_t2 = r_send_t2_commit

pub outgoing-sending :
    (m : CommitMessage) (t : Trade)
    → t.status ≡ sending m
    → outgoing t ≡ ok ((counter_party_details t).0, message m t.id empty_commit)
unfolding outgoing
outgoing-sending requester_t1 t p = ground arith
outgoing-sending provider_t1 t p = ground arith
outgoing-sending requester_t2 t p = ground arith

pub is_sending_status-sending :
    (m : CommitMessage) (t : Trade) → t.status ≡ sending m → is_sending_status t ≡ true
unfolding is_sending_status TradeStatus-discrete
is_sending_status-sending requester_t1 t p = ground arith
is_sending_status-sending provider_t1 t p = ground arith
is_sending_status-sending requester_t2 t p = ground arith

module _ ⦃e : Backend⦄ (s : IsSound e) where
  pub awaited-handled :
      (m : CommitMessage) (d : e.Db) (sender : PeerId) (rid : RequestId) (id : ℕ) (c : Commit)
      (u : Trade)
      → IsAwaited m d sender id u
      → handle_network_event d (exchange_request sender rid (message m id c))
        ≡ ok (d, spawn_verify u c ∷ respond sender rid ack ∷ [])
  unfolding handle_network_event
  awaited-handled m d sender rid id c u awaits = elim (on_commit_message s m d sender rid id c) [
    | inl (v, a, q) ↦
        let g = a.known in
        let h = awaits.known in
        let same : v ≡ u = cc in
        subst
          (λ w.
            handle_network_event d (exchange_request sender rid (message m id c))
            ≡ ok (d, spawn_verify w c ∷ respond sender rid ack ∷ []))
          same q
    | inr (none_fits, q) ↦ absurd (none_fits (u, awaits))
  ]

  -- Let a node's trade be in the status that sends a commit message, and let its counter party know
  -- a trade of the same id, await this message, and have the node for counter party. Then the
  -- message that `send` makes goes, over both network tasks, to the counter party, which spawns a
  -- verification of its commit and acknowledges it; with what the client gets, `send` succeeds, and
  -- the node's trade is found in the waiting status that follows.
  pub send-exchange_round :
      (parse : Bytes → Option GossipsubMessage) (m : CommitMessage) (x : Ends) (ours theirs : e.Db)
      (t u : Trade) {old : Trade}
      → t.id < 2 ^ 32
      → t.status ≡ sending m
      → find_active_trade ours t.id ≡ ok old
      → (counter_party_details t).0 ≡ x.answerer
      → IsAwaited m theirs x.asker t.id u
      → (r : ExchangeRequest) × (result : Result ExchangeResponse) × (ours' : e.Db) × (outgoing t
          ≡ ok (x.answerer, r))
        × (exchange_round parse theirs x r
            ≡ ok (
              some result,
              theirs,
              spawn_verify u empty_commit ∷ respond x.asker x.inbound_id ack ∷ [],
            ))
        × (send ours t result ≡ ok (ours', send_success t.id))
        × (find_active_trade ours' t.id ≡ ok (update_status t (to_waiting t.status)))
  unfolding handle_network_event response_to
  send-exchange_round parse m x ours theirs t u small p f to awaits =
      let r = message m t.id empty_commit in
      let effects = spawn_verify u empty_commit ∷ respond x.asker x.inbound_id ack ∷ [] in
      let handled = awaited-handled m theirs x.asker x.inbound_id t.id empty_commit u awaits in
      let given : response_to x.asker x.inbound_id effects ≡ some ack =
        ground (arith, bytes_eq_self x.asker) in
      let (_, sent, _) = send_lem s ours t small (is_sending_status-sending m t p) f in
      let (ours', q, g) = sent ack in
      (
        r,
        ok ack,
        ours',
        ground (arith, outgoing-sending m t p),
        ground (arith, given, exchange_round_lem parse theirs x r theirs effects handled),
        q,
        g,
      )
