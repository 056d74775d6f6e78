-- ===== src/Procedure/Send.antt =====
-- src/commit_procedure.rs: `send`, for every answer of the network.
use dse.Base.{◌^◌, ◌<◌, ◌≡◌, true, ok, err, arith, Error}
use dse.Types.{Trade, update_status, counter_party_details, is_sending_status}
use dse.Types.Messages.{ExchangeRequest, ExchangeResponse}
use dse.Backend.{Backend, IsSound}
use dse.Storage.{find_active_trade, add_active_trade}
use dse.Storage.Frames.{save_known}
use dse.Procedure.{
  send_success, send_failed, to_waiting, find_commitment, empty_commit, outgoing, send,
}
use dse.Procedure.Status.{create_send_request_iff}

module _ ⦃e : Backend⦄ (s : IsSound e) where
  pub outgoing_ok :
      (t : Trade)
      → is_sending_status t ≡ true
      → (r : ExchangeRequest) × (outgoing t ≡ ok ((counter_party_details t).0, r))
  unfolding outgoing find_commitment
  outgoing_ok t h = let (r, p) = (create_send_request_iff t empty_commit).0 h in (r, rw p)

  -- For a known trade in a send status `send` never panics, and makes a request to the counter
  -- party. If the network fails, nothing is stored and a failure is reported. If there is any
  -- response, a refusal no less than an acknowledgement, success is reported and the trade is found
  -- afterwards in the waiting status that follows.
  pub send_lem :
      (d : e.Db) (t : Trade) {old : Trade}
      → t.id < 2 ^ 32
      → is_sending_status t ≡ true
      → find_active_trade d t.id ≡ ok old
      → ((x : Error) → send d t (err x) ≡ ok (d, send_failed t.id))
        × ((response : ExchangeResponse)
            → (d' : e.Db) × (send d t (ok response) ≡ ok (d', send_success t.id))
              × (find_active_trade d' t.id ≡ ok (update_status t (to_waiting t.status))))
        × ((r : ExchangeRequest) × (outgoing t ≡ ok ((counter_party_details t).0, r)))
  unfolding send
  send_lem d t small h known =
      let (r, p) = outgoing_ok t h in
      let t' = update_status t (to_waiting t.status) in
      let (q, f) = save_known s d t' small known in
      (
        (λ x. ground (arith, p)),
        (λ response. (add_active_trade d t', ground (arith, p, q), f)),
        (r, p),
      )
