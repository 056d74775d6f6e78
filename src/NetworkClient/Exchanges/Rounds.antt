-- ===== src/NetworkClient/Exchanges/Rounds.antt =====
-- src/network_client.rs, src/network/mod.rs and src/indexer.rs: the outcome of an exchange round.
use dse.Base.{
  ℕ, ◌≡◌, refl, subst, Bool, true, false, List, [], ◌∷◌, Option, none, some, Result, ok, err,
  network_failed, arith, inl, inr,
}
use dse.Base.Bytes.{Bytes, bytes_eq_self}
use dse.Base.Maps.{get, insert}
use dse.Types.{PeerId, Trade, Commit}
use dse.Types.Messages.{
  ExchangeRequest, i_want, start_commit, t1_requester_commit, t1_provider_commit,
  t2_requester_commit, t2_commit_valid, exchange_invalidating_signature, ExchangeResponse, ack, bad,
  GossipsubMessage, RequestId, exchange_request,
}
use dse.Backend.{Backend, IsSound}
use dse.Storage.Invariant.{IsWellFormed}
use dse.Network.{RequestKey, RequestKey-discrete, command_handler}
use dse.Network.Events.{swarm_event_handler}
use dse.Indexer.{Effect, respond, spawn_verify, handle_network_event, on_exchange_request}
use dse.Indexer.Handlers.{
  handle_network_event-IsWellFormed, on_commit_message, CommitMessage, message, requester_t1,
  provider_t1, requester_t2,
}
use dse.NetworkClient.{
  send_exchange_request, send_exchange_response, answer_for, first_answer, await,
}
use dse.NetworkClient.Exchanges.{
  Ends, ask, arrive, reply, finish, exchange_round, emitted_event, response_to, sent_response,
  sent_request,
}

get-insert :
    {V : Type 0} (k : RequestKey) (v : V) (m : List (RequestKey × V))
    → get RequestKey-discrete k (insert RequestKey-discrete k v m) ≡ some v
unfolding get insert
get-insert k v m = ground arith

abbrev pub to_result : Option ExchangeResponse → Result ExchangeResponse
to_result none = err network_failed
to_result (some r) = ok r

module _ (parse : Bytes → Option GossipsubMessage) (x : Ends) (r : ExchangeRequest) where
  sent_request-ask : sent_request (ask x r).1 ≡ some (x.answerer, r)
  unfolding ask sent_request command_handler
  sent_request-ask = refl

  emitted_event-arrive :
      emitted_event (arrive parse x r).1 ≡ some (exchange_request x.asker x.inbound_id r)
  unfolding arrive emitted_event swarm_event_handler
  emitted_event-arrive = refl

  -- The response goes out on the channel of the request.
  reply-arrive : (o : Option ExchangeResponse) → reply parse x (arrive parse x r).0 o ≡ o
  unfolding arrive send_exchange_response sent_response swarm_event_handler command_handler
  reply-arrive none = refl
  reply-arrive (some a) = ground (
    arith,
    get-insert (x.asker, x.inbound_id) x.channel x.serving.exchange_inbound_response_channels,
  )

  -- What comes back reaches the sender that asked.
  finish-ask :
      (o : Option ExchangeResponse)
      → finish parse x r (ask x r).0 (ask x r).1 o ≡ some (to_result o)
  unfolding ask finish send_exchange_request answer_for first_answer await swarm_event_handler
      command_handler
  finish-ask none = ground (
    arith,
    get-insert (x.answerer, x.asking_swarm.exchange_id) x.asking_sender
        x.asking.pending_exchange_outbound_requests,
  )
  finish-ask (some a) = ground (
    arith,
    get-insert (x.answerer, x.asking_swarm.exchange_id) x.asking_sender
        x.asking.pending_exchange_outbound_requests,
  )

-- Whether the indexer has a branch for a request.
abbrev pub is_served : ExchangeRequest → Bool
is_served (t2_commit_valid id) = false
is_served (exchange_invalidating_signature id g) = false
is_served _ = true

abbrev pub is_ok : Result ExchangeResponse → Bool
is_ok (ok r) = true
is_ok _ = false

module _ ⦃e : Backend⦄ (parse : Bytes → Option GossipsubMessage) where
  -- The client that asks gets the response that the other node's indexer gave to this request, and
  -- a failure if it gave none; the indexer handled the request that was sent, from the asking peer.
  pub exchange_round_lem :
      (d : e.Db) (x : Ends) (r : ExchangeRequest) (d' : e.Db) (effects : List Effect)
      → handle_network_event d (exchange_request x.asker x.inbound_id r) ≡ ok (d', effects)
      → exchange_round parse d x r
        ≡ ok (some (to_result (response_to x.asker x.inbound_id effects)), d', effects)
  unfolding exchange_round
  exchange_round_lem d x r d' effects h =
      let o = response_to x.asker x.inbound_id effects in
      ground (
        arith,
        h,
        sent_request-ask parse x r,
        emitted_event-arrive parse x r,
        reply-arrive parse x r o,
        finish-ask parse x r o,
      )

abbrev DoesRespond : PeerId → RequestId → List Effect → Bool → Type 0
DoesRespond p id effects b = is_ok (to_result (response_to p id effects)) ≡ b

DoesRespond-respond :
    (p : PeerId) (id : RequestId) (r : ExchangeResponse)
    → DoesRespond p id (respond p id r ∷ []) true
unfolding response_to
DoesRespond-respond p id r = ground (arith, bytes_eq_self p)

DoesRespond-spawn_verify :
    (p : PeerId) (id : RequestId) (t : Trade) (c : Commit)
    → DoesRespond p id (spawn_verify t c ∷ respond p id ack ∷ []) true
unfolding response_to
DoesRespond-spawn_verify p id t c = ground (arith, bytes_eq_self p)

module _ ⦃e : Backend⦄ (s : IsSound e) where
  -- From what one handling of a request gave to what any account of it gave.
  same_effects :
      (p : PeerId) (id : RequestId) (b : Bool) (m : Result (e.Db × List Effect)) (d₁ d₂ : e.Db)
      (es effects : List Effect)
      → DoesRespond p id es b
      → m ≡ ok (d₁, es)
      → m ≡ ok (d₂, effects)
      → DoesRespond p id effects b
  same_effects p id b m d₁ d₂ es effects h q q' =
      let same : es ≡ effects = cc in subst (λ x. DoesRespond p id x b) same h

  DoesRespond-message :
      (m : CommitMessage) (p : PeerId) (id : RequestId) (n : ℕ) (c : Commit) (d d' : e.Db)
      (effects : List Effect)
      → on_exchange_request d p id (message m n c) ≡ ok (d', effects)
      → DoesRespond p id effects true
  DoesRespond-message m p id n c d d' effects h = elim (on_commit_message s m d p id n c) [
    | inl (t, a, q) ↦
        same_effects p id true (on_exchange_request d p id (message m n c)) d d' _ effects
          (DoesRespond-spawn_verify p id t c) q h
    | inr (none_fits, q) ↦
        same_effects p id true (on_exchange_request d p id (message m n c)) d d' _ effects
          (DoesRespond-respond p id bad) q h
  ]

  DoesRespond-is_served :
      (p : PeerId) (id : RequestId) (r : ExchangeRequest) (d d' : e.Db) (effects : List Effect)
      → handle_network_event d (exchange_request p id r) ≡ ok (d', effects)
      → DoesRespond p id effects (is_served r)
  unfolding handle_network_event response_to
  DoesRespond-is_served p id (i_want m) d d' effects h =
      same_effects p id true _ _ d' _ effects (DoesRespond-respond p id ack) refl h
  DoesRespond-is_served p id (start_commit t) d d' effects h =
      same_effects p id true _ _ d' _ effects (DoesRespond-respond p id ack) refl h
  DoesRespond-is_served p id (t1_requester_commit n c) d d' effects h =
      DoesRespond-message requester_t1 p id n c d d' effects h
  DoesRespond-is_served p id (t1_provider_commit n c) d d' effects h =
      DoesRespond-message provider_t1 p id n c d d' effects h
  DoesRespond-is_served p id (t2_requester_commit n c) d d' effects h =
      DoesRespond-message requester_t2 p id n c d d' effects h
  DoesRespond-is_served p id (t2_commit_valid n) d d' effects h =
      same_effects p id false _ d d' [] effects refl refl h
  DoesRespond-is_served p id (exchange_invalidating_signature n g) d d' effects h =
      same_effects p id false _ d d' [] effects refl refl h

  -- Every request to a node with a well-formed database is handled; and once the swarm of the asking
  -- node reports the response, or a failure where there is none, the asking client's call ends. It ends with a response exactly if the request is not a `T2CommitValid` or an
  -- `InvalidatingSignature`: these two are left without one.
  pub exchange_round-is_served :
      (parse : Bytes → Option GossipsubMessage) (d : e.Db) (x : Ends) (r : ExchangeRequest)
      → IsWellFormed s d
      → (d' : e.Db) × (effects : List Effect) × (result : Result ExchangeResponse) × (exchange_round
            parse d x r
          ≡ ok (some result, d', effects))
        × (is_ok result ≡ is_served r)
        × IsWellFormed s d'
  exchange_round-is_served parse d x r w =
      let (d', effects, h, w') =
        handle_network_event-IsWellFormed s d (exchange_request x.asker x.inbound_id r) w in
      (
        d',
        effects,
        to_result (response_to x.asker x.inbound_id effects),
        exchange_round_lem parse d x r d' effects h,
        DoesRespond-is_served x.asker x.inbound_id r d d' effects h,
        w',
      )
