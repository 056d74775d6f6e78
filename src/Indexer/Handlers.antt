-- ===== src/Indexer/Handlers.antt =====
-- src/indexer.rs: the handlers of network events, on every branch.
use dse.Base.{
  ℕ, ◌≡◌, ◌≢◌, refl, ◌∙◌, subst, true, List, [], ◌∷◌, Option, none, some, ok, panic, arith, ◌⊎◌,
  inl, inr, Result-cases,
}
use dse.Types.{
  Address, PeerId, Signature, TradeStatus, waiting_r_t1_commit, waiting_p_t1_commit,
  waiting_r_t2_commit, Trade, counter_party_details, Commit, CommitHistory, update_status,
  r_send_t1_commit,
}
use dse.Types.Messages.{
  ExchangeRequest, i_want, start_commit, t1_requester_commit, t1_provider_commit,
  t2_requester_commit, t2_commit_valid, exchange_invalidating_signature, ack, bad, want_history,
  update, commit_ack, commit_bad, new_query, gossip_commit, gossip_invalidating_signature,
  RequestId, NetworkEvent, gossipsub_message_recv, exchange_request, commit_request,
  new_listen_addr,
}
use dse.Backend.{Backend, IsSound}
use dse.Storage.{
  find_active_trade, find_commit_history, contains, exists, add_query_received, add_i_want,
  add_active_trade,
}
use dse.Storage.Trades.{find_active_trade-ne-panic}
use dse.Storage.Frames.{add_active_trade-IsWellFormed}
use dse.Storage.Invariant.{IsWellFormed}
use dse.Storage.Writes.{Write, write-IsWellFormed, get_wallets_of_interest_lem, write}
use dse.Storage.Histories.{find_commit_history_ok, find_commit_history_total}
use dse.Indexer.{
  Effect, respond, respond_commit, request_commit, spawn_verify, awaited_trade, verify_or_refuse,
  on_exchange_request, on_want_history, handle_network_event, history_reply, invalidate,
}

-- The three messages that carry a commit, and the status that each is awaited in.
pub data CommitMessage : Type 0 where
  requester_t1 provider_t1 requester_t2 : CommitMessage

abbrev pub message : CommitMessage → ℕ → Commit → ExchangeRequest
message requester_t1 = t1_requester_commit
message provider_t1 = t1_provider_commit
message requester_t2 = t2_requester_commit

abbrev pub awaiting : CommitMessage → TradeStatus
awaiting requester_t1 = waiting_r_t1_commit
awaiting provider_t1 = waiting_p_t1_commit
awaiting requester_t2 = waiting_r_t2_commit

module _ ⦃e : Backend⦄ where
  -- The node knows the trade, awaits this message, and its counter party is the sender.
  pub record IsAwaited (m : CommitMessage) (d : e.Db) (sender : PeerId) (id : ℕ) (t : Trade)
      : Type 0 where
    pub known : find_active_trade d id ≡ ok t
    pub in_turn : t.status ≡ awaiting m
    pub from_party : (counter_party_details t).0 ≡ sender

  awaited_trade_yes :
      (m : CommitMessage) (d : e.Db) (sender : PeerId) (id : ℕ) (t : Trade)
      → IsAwaited m d sender id t
      → awaited_trade (awaiting m) d sender id ≡ ok t
  unfolding awaited_trade
  awaited_trade_yes m d sender id t a = ground arith

  awaited_trade_ok :
      (m : CommitMessage) (d : e.Db) (sender : PeerId) (id : ℕ) (t : Trade)
      → awaited_trade (awaiting m) d sender id ≡ ok t
      → IsAwaited m d sender id t
  unfolding awaited_trade
  awaited_trade_ok m d sender id t h = ground arith

  dispatch :
      (m : CommitMessage) (d : e.Db) (sender : PeerId) (rid : RequestId) (id : ℕ) (c : Commit)
      → on_exchange_request d sender rid (message m id c)
        ≡ verify_or_refuse (awaited_trade (awaiting m) d sender id) d sender rid c
  unfolding on_exchange_request
  dispatch requester_t1 d sender rid id c = refl
  dispatch provider_t1 d sender rid id c = refl
  dispatch requester_t2 d sender rid id c = refl

module _ ⦃e : Backend⦄ (s : IsSound e) where
  invalidate-same :
      (d : e.Db) (id : ℕ) (a : Address) (g : Signature)
      → IsWellFormed s d
      → invalidate d id a g ≡ ok d
  unfolding invalidate exists contains
  invalidate-same d id a g w = ground (arith, get_wallets_of_interest_lem s d w)

  -- On a well-formed database, commits and invalidating signatures that are gossiped change nothing,
  -- whichever wallets they are of.
  pub gossip_ignored :
      (d : e.Db)
      → IsWellFormed s d
      → ((c : Commit) (id : ℕ)
          → handle_network_event d (gossipsub_message_recv (gossip_commit c id)) ≡ ok (d, []))
        × ((id : ℕ) (p r : Address) (g : Signature)
            → handle_network_event d
                (gossipsub_message_recv (gossip_invalidating_signature id p r g))
              ≡ ok (d, []))
  unfolding handle_network_event exists contains
  gossip_ignored d w = (
    (λ c id. ground (arith, get_wallets_of_interest_lem s d w)),
    λ id p r g. rw (invalidate-same d id p g w, invalidate-same d id r g w) refl,
  )

  awaited_trade-ne-panic :
      (m : CommitMessage) (d : e.Db) (sender : PeerId) (id : ℕ)
      → awaited_trade (awaiting m) d sender id ≢ panic
  unfolding awaited_trade
  awaited_trade-ne-panic m d sender id h = ground (arith, find_active_trade-ne-panic s d id)

  -- A commit message is acknowledged, and its commit verified for the trade, if the node knows the
  -- trade, awaits this very message, and the counter party of the trade sent it. In every other case
  -- it is refused. The database is the same either way.
  pub on_commit_message :
      (m : CommitMessage) (d : e.Db) (sender : PeerId) (rid : RequestId) (id : ℕ) (c : Commit)
      → ((t : Trade) × IsAwaited m d sender id t
          × (on_exchange_request d sender rid (message m id c)
              ≡ ok (d, spawn_verify t c ∷ respond sender rid ack ∷ [])))
        ⊎ (¬ ((t : Trade) × IsAwaited m d sender id t)
            × (on_exchange_request d sender rid (message m id c)
                ≡ ok (d, respond sender rid bad ∷ [])))
  on_commit_message m d sender rid id c =
      elim (Result-cases (awaited_trade (awaiting m) d sender id)) [
        | inl (t, p) ↦
            inl (t, awaited_trade_ok m d sender id t p, dispatch m d sender rid id c ∙ (rw p))
        | inr (inl (x, p)) ↦ inr (
          (λ (t, a). let q = awaited_trade_yes m d sender id t a in cc),
          dispatch m d sender rid id c ∙ (rw p),
        )
        | inr (inr p) ↦ absurd (awaited_trade-ne-panic m d sender id p)
      ]

  commit_handled :
      (m : CommitMessage) (d : e.Db) (p : PeerId) (rid : RequestId) (id : ℕ) (c : Commit)
      → IsWellFormed s d
      → (d' : e.Db) × (effects : List Effect) × (on_exchange_request d p rid (message m id c)
          ≡ ok (d', effects))
        × IsWellFormed s d'
  commit_handled m d p rid id c w = elim (Result-cases (awaited_trade (awaiting m) d p id)) [
    | inl (t, q) ↦
        (d, spawn_verify t c ∷ respond p rid ack ∷ [], dispatch m d p rid id c ∙ (rw q), w)
    | inr (inl (x, q)) ↦ (d, respond p rid bad ∷ [], dispatch m d p rid id c ∙ (rw q), w)
    | inr (inr q) ↦ absurd (awaited_trade-ne-panic m d p id q)
  ]

  history_reply_lem :
      (d : e.Db) (p : PeerId) (id : RequestId) (a : Address) (found : Option CommitHistory)
      → find_commit_history d a ≡ ok found
      → on_want_history d p id a ≡ ok (d, (history_reply d p id a found).1)
  unfolding on_want_history
  history_reply_lem d p id a none q = rw q
  history_reply_lem d p id a (some h) q = rw q

  -- A request for a wallet's history is refused if the node has none, and is otherwise acknowledged
  -- and followed by an update with all of the history's commits, marked as the last batch.
  pub on_want_history_lem :
      (d : e.Db) (p : PeerId) (id : RequestId) (a : Address)
      → IsWellFormed s d
      → (handle_network_event d (commit_request p id (want_history a))
            ≡ ok (d, respond_commit p id commit_bad ∷ [])
          × (find_commit_history d a ≡ ok none))
        ⊎ ((h : CommitHistory) × (find_commit_history d a ≡ ok (some h))
            × (h.wallet_address ≡ a)
            × (handle_network_event d (commit_request p id (want_history a))
                ≡ ok (
                  d,
                  respond_commit p id commit_ack ∷ request_commit p (update a h.commits true) ∷ [],
                )))
  unfolding handle_network_event
  on_want_history_lem d p id a w = elim (find_commit_history_total s d a w) [
    | inl q ↦ inl (history_reply_lem d p id a none q, q)
    | inr (h, q, same) ↦ inr (h, q, same, history_reply_lem d p id a (some h) q)
  ]

  written : (d d' : e.Db) (x : Write) → IsWellFormed s d → write d x ≡ ok d' → IsWellFormed s d'
  written d d' x w p =
      let (d₁, q, w₁) = write-IsWellFormed s d x w in
      let same : d₁ ≡ d' = cc in subst (IsWellFormed s) same w₁

  -- Every network event is handled without a panic, and leaves a well-formed database well formed.
  pub handle_network_event-IsWellFormed :
      (d : e.Db) (ev : NetworkEvent)
      → IsWellFormed s d
      → (d' : e.Db) × (effects : List Effect) × (handle_network_event d ev ≡ ok (d', effects))
        × IsWellFormed s d'
  unfolding handle_network_event
  handle_network_event-IsWellFormed d (gossipsub_message_recv (new_query q)) w = (
    add_query_received d q,
    [],
    refl,
    written d _ (Write.query_received q) w (unfold write in refl),
  )
  handle_network_event-IsWellFormed d (gossipsub_message_recv (gossip_commit c id)) w =
      (d, [], (gossip_ignored d w).0 c id, w)
  handle_network_event-IsWellFormed d
        (gossipsub_message_recv (gossip_invalidating_signature id p r g)) w =
      (d, [], (gossip_ignored d w).1 id p r g, w)
  handle_network_event-IsWellFormed d (exchange_request p id (i_want m)) w =
      (add_i_want d m, _, refl, written d _ (Write.i_want m) w (unfold write in refl))
  handle_network_event-IsWellFormed d (exchange_request p id (start_commit t)) w = (
    add_active_trade d (update_status t r_send_t1_commit),
    _,
    refl,
    add_active_trade-IsWellFormed s d (update_status t r_send_t1_commit) w,
  )
  handle_network_event-IsWellFormed d (exchange_request p id (t1_requester_commit n c)) w =
      commit_handled requester_t1 d p id n c w
  handle_network_event-IsWellFormed d (exchange_request p id (t1_provider_commit n c)) w =
      commit_handled provider_t1 d p id n c w
  handle_network_event-IsWellFormed d (exchange_request p id (t2_requester_commit n c)) w =
      commit_handled requester_t2 d p id n c w
  handle_network_event-IsWellFormed d (exchange_request p id (t2_commit_valid n)) w =
      (d, [], refl, w)
  handle_network_event-IsWellFormed d (exchange_request p id (exchange_invalidating_signature n g))
        w =
      (d, [], refl, w)
  handle_network_event-IsWellFormed d (commit_request p id (want_history a)) w =
      let (found, q) = find_commit_history_ok s d a w in
      (d, (history_reply d p id a found).1, history_reply_lem d p id a found q, w)
  handle_network_event-IsWellFormed d (commit_request p id (update a cs last)) w = (d, [], refl, w)
  handle_network_event-IsWellFormed d (new_listen_addr n a) w = (d, [], refl, w)
