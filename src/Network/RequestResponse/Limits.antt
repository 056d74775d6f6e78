-- ===== src/Network/RequestResponse/Limits.antt =====
-- src/network/request_response.rs: what a reader makes of what a writer wrote.
use dse.Base.{
  ◌≡◌, ◌<◌, [], ◌∷◌, ◌++◌, some, ok, err, network_failed, if◌then◌else◌, leb, length, true, arith,
  dec_lt,
}
use dse.Base.Bytes.{Bytes}
use dse.Backend.{Backend}
use dse.Types.{Address, PeerId, CommitHistory}
use dse.Types.Messages.{CommitRequest, RequestId, commit_request, want_history, update, commit_ack}
use dse.Storage.{find_commit_history}
use dse.Indexer.{respond_commit, request_commit, handle_network_event, on_want_history}
use dse.Network.RequestResponse.{
  Json, JsonRoundTrip, Framing, IsFraming, read_request, read_response, write_request,
  write_response,
}

module _ (f : Framing) (ok_framing : IsFraming f) {A : Type 0} (json : Json A) where
  -- A response whose JSON has a given list of bytes is written behind what the stream holds, and
  -- its reader, with anything behind it, gets it back and leaves the rest, exactly when the JSON
  -- has at most 1,000,000 bytes; otherwise the read fails.
  pub read_response-write_response :
      (round : JsonRoundTrip json) (res : A) (bytes io rest : Bytes)
      → json.to_vec res ≡ some bytes
      → (s : Bytes) × (write_response f json io res ≡ ok (io ++ s))
        × (read_response f json (s ++ rest)
            ≡ (if leb (length bytes) 1000000 then ok (res, rest) else err network_failed))
  unfolding write_response read_response
  read_response-write_response round res bytes io rest h = (
    ok_framing.frame bytes,
    ground (arith, h, ok_framing.write_lem io bytes),
    elim (dec_lt 1000000 (length bytes)) [
      | yes lt ↦ ground (arith, ok_framing.read_long_lem bytes rest 1000000 lt)
      | no le ↦
          ground (arith, ok_framing.read_lem bytes rest 1000000 (omega arith), round res bytes h)
    ],
  )

  pub read_long-write_request :
      (req : A) (bytes io rest : Bytes)
      → json.to_vec req ≡ some bytes
      → 1000000 < length bytes
      → (s : Bytes) × (write_request f json io req ≡ ok (io ++ s))
        × (read_request f json (s ++ rest) ≡ err network_failed)
  unfolding write_request read_request
  read_long-write_request req bytes io rest h lt = (
    ok_framing.frame bytes,
    ground (arith, h, ok_framing.write_lem io bytes),
    ground (arith, ok_framing.read_long_lem bytes rest 1000000 lt),
  )

-- A peer that asks for the history of a wallet is promised it, and sent all of it in one request:
-- where the JSON of that request has more than 1,000,000 bytes, it is written to the stream and
-- its reader fails.
pub history_too_long :
    ⦃e : Backend⦄ (f : Framing) (ok_framing : IsFraming f) (json : Json CommitRequest) (d : e.Db)
    (sender : PeerId) (id : RequestId) (wallet : Address) (h : CommitHistory)
    (bytes io rest : Bytes)
    → find_commit_history d wallet ≡ ok (some h)
    → json.to_vec (update wallet h.commits true) ≡ some bytes
    → 1000000 < length bytes
    → (s : Bytes) × (handle_network_event d (commit_request sender id (want_history wallet))
        ≡ ok (
          d,
          respond_commit sender id commit_ack
              ∷ request_commit sender (update wallet h.commits true)
              ∷ [],
        ))
      × (write_request f json io (update wallet h.commits true) ≡ ok (io ++ s))
      × (read_request f json (s ++ rest) ≡ err network_failed)
unfolding handle_network_event on_want_history
history_too_long f ok_framing json d sender id wallet h bytes io rest found vec lt =
    let (s, written, unread) = read_long-write_request f ok_framing json _ bytes io rest vec lt in
    (s, ground (arith, found), written, unread)
