-- ===== src/Protocol/Completion.antt =====
-- src/indexer.rs and src/commit_procedure.rs: a whole trade, where each of its nodes has the right
-- side of it stored.
use dse.Base.{ℕ, ◌≡◌, refl, List, [], ◌∷◌, ◌++◌, ok}
use dse.Types.{
  PeerId, Trade, waiting_r_t1_commit, r_send_t1_commit, waiting_for_service, p_fulfill_service,
  update_status,
}
use dse.Types.Messages.{ack, RequestId}
use dse.Backend.{Backend, IsSound}
use dse.Commit.{Crypto}
use dse.EthNode.{EthNode}
use dse.Procedure.{to_waiting, to_processing, to_send, empty_commit, outgoing, send_success}
use dse.Indexer.{Effect, respond, spawn_verify}
use dse.Indexer.Handlers.{
  CommitMessage, requester_t1, provider_t1, requester_t2, message, awaiting, IsAwaited,
}
use dse.Protocol.{
  Side, requester, provider, other_side, World, node_of, set_node, Step, sends, arrives, verifies,
  Reach, start, then_step,
}
use dse.Protocol.Delivery.{sending, outgoing-sending, is_sending_status-sending, awaited-handled}
use dse.Protocol.Sides.{Lookup, Returns, IsAt, IsMatched, sent, verified_by}

module _ ⦃e : Backend⦄ {k : Crypto} {chain : Side → EthNode} {peer : Side → PeerId} {id : ℕ} where
  Reach-trans :
      {u v w : World}
      → Reach k chain peer id u v
      → Reach k chain peer id v w
      → Reach k chain peer id u w
  Reach-trans p (start _) = p
  Reach-trans p (then_step q x) = then_step (Reach-trans p q) x

module _ ⦃e : Backend⦄ (s : IsSound e) (k : Crypto) (chain : Side → EthNode) (peer : Side → PeerId)
    (id : ℕ) (trade : Side → Trade) (lookup : Side → Lookup)
    (matched : IsMatched peer id trade) where
  -- The effects of a message's arrival.
  abbrev arrived : CommitMessage → Side → RequestId → List Effect
  arrived m x rid =
      spawn_verify (update_status (trade (other_side x)) (awaiting m)) empty_commit
      ∷ respond (peer x) rid ack
      ∷ []

  awaits :
      (m : CommitMessage) (x : Side) (d : e.Db)
      → IsAt s id trade (other_side x) (awaiting m) d
      → IsAwaited m d (peer x) id (update_status (trade (other_side x)) (awaiting m))
  awaits m requester d at = record {
    known = at.known;
    in_turn = refl;
    from_party = matched.party provider;
  }
  awaits m provider d at = record {
    known = at.known;
    in_turn = refl;
    from_party = matched.party requester;
  }

  arrival :
      (m : CommitMessage) (x : Side) (rid : RequestId) (w : World)
      → IsAt s id trade x (sending m) (node_of x w).db
      → IsAt s id trade (other_side x) (awaiting m) (node_of (other_side x) w).db
      → Step k chain peer id w (
          set_node
            (other_side x)
            (record {
              db = (node_of (other_side x) w).db;
              tasks = arrived m x rid ++ (node_of (other_side x) w).tasks;
            })
            w)
  arrival m x rid w ours theirs =
      let t = update_status (trade x) (sending m) in
      let their_db = (node_of (other_side x) w).db in
      let out : outgoing t ≡ ok (peer (other_side x), message m id empty_commit) =
        rw (outgoing-sending m t refl, matched.party x, matched.same_id x) refl in
      arrives x w t (message m id empty_commit) rid their_db (arrived m x rid) ours.known
        (is_sending_status-sending m t refl) out
        (awaited-handled s m their_db (peer x) rid id empty_commit
          (update_status (trade (other_side x)) (awaiting m)) (awaits m x their_db theirs))

  -- What one message does on the side that sends it and on the other.
  passes :
      (m : CommitMessage) (x : Side) (rid : RequestId) (w : World)
      → Returns k chain lookup (other_side x)
      → IsAt s id trade x (sending m) (node_of x w).db
      → IsAt s id trade (other_side x) (awaiting m) (node_of (other_side x) w).db
      → (w' : World) × Reach k chain peer id w w'
        × IsAt s id trade x (to_waiting (sending m)) (node_of x w').db
        × IsAt s id trade
            (other_side x)
            (to_send (to_processing (awaiting m)))
            (node_of (other_side x) w').db
  passes m requester rid w returns ours theirs =
      let t = update_status (trade requester) (sending m) in
      let (d, q, ours') =
        sent s k chain peer id trade lookup matched m requester w.requester_node.db ours in
      let (d', q', theirs') =
        verified_by s k chain peer id trade lookup matched m provider w.provider_node.db returns
          theirs in
      let l = lookup provider in
      (
        record {
          requester_node = record { db = d; tasks = w.requester_node.tasks };
          provider_node = record {
            db = d';
            tasks = respond (peer requester) rid ack ∷ w.provider_node.tasks;
          };
        },
        then_step
            (then_step (then_step (start w) (arrival m requester rid w ours theirs)) (
              sends requester _ t (ok ack) d (send_success (trade requester).id) ours.known
                (is_sending_status-sending m t refl) q))
            (verifies provider _ _ empty_commit l.providers l.subscribed l.now l.events [] _ d' refl
              q'),
        ours',
        theirs',
      )
  passes m provider rid w returns ours theirs =
      let t = update_status (trade provider) (sending m) in
      let (d, q, ours') =
        sent s k chain peer id trade lookup matched m provider w.provider_node.db ours in
      let (d', q', theirs') =
        verified_by s k chain peer id trade lookup matched m requester w.requester_node.db returns
          theirs in
      let l = lookup requester in
      (
        record {
          requester_node = record {
            db = d';
            tasks = respond (peer provider) rid ack ∷ w.requester_node.tasks;
          };
          provider_node = record { db = d; tasks = w.provider_node.tasks };
        },
        then_step
            (then_step (then_step (start w) (arrival m provider rid w ours theirs)) (
              sends provider _ t (ok ack) d (send_success (trade provider).id) ours.known
                (is_sending_status-sending m t refl) q))
            (verifies requester _ _ empty_commit l.providers l.subscribed l.now l.events [] _ d'
              refl q'),
        ours',
        theirs',
      )

  -- Let each node store its side of a trade: under one id of 32 bits, with the other node for
  -- counter party, the requester's in the status to send its first commit and the provider's in
  -- the status that awaits it, both databases well formed; and let every load of a history end.
  -- Then the nodes have a run in which the three commit messages are sent, acknowledged and
  -- verified, and after which the requester waits for the service and the provider is to fulfill
  -- it.
  pub trade_completes :
      (w : World)
      → ((x : Side) → Returns k chain lookup x)
      → IsAt s id trade requester r_send_t1_commit w.requester_node.db
      → IsAt s id trade provider waiting_r_t1_commit w.provider_node.db
      → (w' : World) × Reach k chain peer id w w'
        × IsAt s id trade requester waiting_for_service w'.requester_node.db
        × IsAt s id trade provider p_fulfill_service w'.provider_node.db
  trade_completes w returns r₀ p₀ =
      let (w₁, run₁, r₁, p₁) = passes requester_t1 requester 0 w (returns provider) r₀ p₀ in
      let (w₂, run₂, p₂, r₂) = passes provider_t1 provider 1 w₁ (returns requester) p₁ r₁ in
      let (w₃, run₃, r₃, p₃) = passes requester_t2 requester 2 w₂ (returns provider) r₂ p₂ in
      (w₃, Reach-trans run₁ (Reach-trans run₂ run₃), r₃, p₃)
