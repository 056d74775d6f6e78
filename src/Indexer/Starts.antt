-- ===== src/Indexer/Starts.antt =====
-- src/indexer.rs: the arm of `ExchangeRequest::StartCommit`, for a trade that is known already.
use dse.Base.{◌^◌, ◌<◌, ◌≡◌, ◌∙◌, refl, [], ◌∷◌, ok, arith, inl, inr, ap}
use dse.Types.{PeerId, Trade, update_status, r_send_t1_commit, Commit}
use dse.Types.Messages.{RequestId, exchange_request, start_commit, ack, bad}
use dse.Backend.{Backend, IsSound}
use dse.Storage.{find_active_trade, add_active_trade}
use dse.Storage.Trades.{find_active_trade-add_active_trade}
use dse.Indexer.{handle_network_event, on_exchange_request, respond, spawn_verify}
use dse.Indexer.Handlers.{
  CommitMessage, requester_t1, provider_t1, requester_t2, message, awaiting, IsAwaited,
  on_commit_message,
}

-- No commit message is awaited of a trade that is to send.
sending-ne-awaiting : (m : CommitMessage) → r_send_t1_commit ≡ awaiting m → ⊥
sending-ne-awaiting requester_t1 h = cc
sending-ne-awaiting provider_t1 h = cc
sending-ne-awaiting requester_t2 h = cc

module _ ⦃e : Backend⦄ (s : IsSound e) where
  -- Let the node await a commit message of a trade from its counter party, which it would verify. A
  -- start message of any other peer, with a trade of the same id of 32 bits, is acknowledged and replaces the
  -- trade by the one in the message; in the database that this leaves, the counter party's message is refused.
  pub start_commit_replaces :
      (d : e.Db) (m : CommitMessage) (sender other : PeerId) (rid rid' : RequestId)
      (t fresh : Trade) (c : Commit)
      → fresh.id < 2 ^ 32
      → IsAwaited m d sender fresh.id t
      → (handle_network_event d (exchange_request sender rid (message m fresh.id c))
          ≡ ok (d, spawn_verify t c ∷ respond sender rid ack ∷ []))
        × ((d' : e.Db) × (handle_network_event d (exchange_request other rid' (start_commit fresh))
              ≡ ok (d', respond other rid' ack ∷ []))
            × (find_active_trade d' fresh.id ≡ ok (update_status fresh r_send_t1_commit))
            × (handle_network_event d' (exchange_request sender rid (message m fresh.id c))
                ≡ ok (d', respond sender rid bad ∷ [])))
  unfolding handle_network_event on_exchange_request
  start_commit_replaces d m sender other rid rid' t fresh c small a =
      let stored = update_status fresh r_send_t1_commit in
      let d' = add_active_trade d stored in
      let f : find_active_trade d' fresh.id ≡ ok stored =
        ground (arith, find_active_trade-add_active_trade s d stored fresh.id small small) in
      (
        elim (on_commit_message s m d sender rid fresh.id c) [
          | inl (t₁, a₁, p) ↦
              let found = a.known in
              let found₁ = a₁.known in let same : t₁ ≡ t = cc in p ∙ (rw same refl)
          | inr (refused, p) ↦ absurd (refused (t, a))
        ],
        (
          d',
          refl,
          f,
          elim (on_commit_message s m d' sender rid fresh.id c) [
            | inl (t₁, a₁, p) ↦
                let found₁ = a₁.known in
                let same : stored ≡ t₁ = cc in
                absurd (sending-ne-awaiting m (ap (λ x. x.status) same ∙ a₁.in_turn))
            | inr (refused, p) ↦ p
          ],
        ),
      )
