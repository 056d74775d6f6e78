-- ===== src/Protocol/Sides.antt =====
-- src/commit_procedure.rs: what `send` and `verify` do on the two sides of a trade, where each node
-- has the right side of it stored.
use dse.Base.{ℕ, ◌^◌, ◌<◌, ◌≡◌, refl, sym, subst, Bool, List, Result, ok, arith}
use dse.Types.{PeerId, Trade, TradeStatus, update_status, counter_party_details}
use dse.Types.Messages.{ack}
use dse.Backend.{Backend, IsSound}
use dse.Storage.{find_active_trade, add_active_trade}
use dse.Storage.Invariant.{IsWellFormed}
use dse.Storage.Frames.{add_active_trade-IsWellFormed, save_known}
use dse.Commit.{Crypto}
use dse.EthNode.{EthNode}
use dse.Loading.{LoopEvent, done, load_commit_history}
use dse.Procedure.{
  to_waiting, to_processing, to_send, empty_commit, send, send_success, verify, verified,
}
use dse.Procedure.Verify.{verify_accepts}
use dse.Indexer.Handlers.{CommitMessage, awaiting}
use dse.Protocol.{Side, other_side}
use dse.Protocol.Delivery.{sending, outgoing-sending}

-- What the network gives to the load of a history.
pub record Lookup : Type 0 where
  pub providers : Result (List PeerId)
  pub subscribed : Bool
  pub now : ℕ
  pub events : List LoopEvent

-- The load for the wallet of a commit that a side verifies ends, on every database.
abbrev pub Returns : ⦃e : Backend⦄ → Crypto → (Side → EthNode) → (Side → Lookup) → Side → Type 0
Returns ⦃e⦄ k chain lookup x =
    (d : e.Db)
    → (r : Result (Unit {0})) × (d₁ : e.Db) × (asked : List PeerId) × (load_commit_history k
          (chain x) (lookup x).providers (lookup x).subscribed (lookup x).now d
          empty_commit.wallet_address (lookup x).events
        ≡ done r d₁ asked)

-- A database, on one side, that is well formed and has the trade in a status.
pub record IsAt ⦃e : Backend⦄ (s : IsSound e) (id : ℕ) (trade : Side → Trade) (x : Side)
    (st : TradeStatus) (d : e.Db) : Type 0 where
  pub sound : IsWellFormed s d
  pub known : find_active_trade d id ≡ ok (update_status (trade x) st)

-- The trade of each side has the id, and the other side for counter party.
pub record IsMatched (peer : Side → PeerId) (id : ℕ) (trade : Side → Trade) : Type 0 where
  pub small : id < 2 ^ 32
  pub same_id : (x : Side) → (trade x).id ≡ id
  pub party : (x : Side) → (counter_party_details (trade x)).0 ≡ peer (other_side x)

module _ ⦃e : Backend⦄ (s : IsSound e) (k : Crypto) (chain : Side → EthNode) (peer : Side → PeerId)
    (id : ℕ) (trade : Side → Trade) (lookup : Side → Lookup)
    (matched : IsMatched peer id trade) where
  small_id : (x : Side) → (trade x).id < 2 ^ 32
  small_id x = omega (arith, matched.same_id x, matched.small)

  own_known :
      (x : Side) (st : TradeStatus) (d : e.Db)
      → IsAt s id trade x st d
      → find_active_trade d (trade x).id ≡ ok (update_status (trade x) st)
  own_known x st d at =
      subst (λ i. find_active_trade d i ≡ ok (update_status (trade x) st)) (sym (matched.same_id x))
        at.known

  to_IsAt :
      (x : Side) (st : TradeStatus) (d : e.Db)
      → IsWellFormed s d
      → find_active_trade d (trade x).id ≡ ok (update_status (trade x) st)
      → IsAt s id trade x st d
  to_IsAt x st d w f = record {
    sound = w;
    known =
        subst (λ i. find_active_trade d i ≡ ok (update_status (trade x) st)) (matched.same_id x) f;
  }

  pub sent :
      (m : CommitMessage) (x : Side) (d : e.Db)
      → IsAt s id trade x (sending m) d
      → (d' : e.Db) × (send d (update_status (trade x) (sending m)) (ok ack)
          ≡ ok (d', send_success (trade x).id))
        × IsAt s id trade x (to_waiting (sending m)) d'
  unfolding send
  sent m x d at =
      let t = update_status (trade x) (sending m) in
      let t' = update_status (trade x) (to_waiting (sending m)) in
      let (q, f) = save_known s d t' (small_id x) (own_known x (sending m) d at) in
      (
        add_active_trade d t',
        ground (arith, outgoing-sending m t refl, q),
        to_IsAt x (to_waiting (sending m)) (add_active_trade d t')
            (add_active_trade-IsWellFormed s d t' at.sound) f,
      )

  pub verified_by :
      (m : CommitMessage) (x : Side) (d : e.Db)
      → Returns k chain lookup x
      → IsAt s id trade x (awaiting m) d
      → (d' : e.Db) × (verify k
            (chain x)
            d
            (update_status (trade x) (awaiting m))
            empty_commit
            (lookup x).providers
            (lookup x).subscribed
            (lookup x).now
            (lookup x).events
          ≡ verified d')
        × IsAt s id trade x (to_send (to_processing (awaiting m))) d'
  verified_by m x d returns at =
      let t = update_status (trade x) (awaiting m) in
      let u = lookup x in
      let (r, d₁, asked, p) =
        returns (add_active_trade d (update_status t (to_processing (awaiting m)))) in
      let (d₂, q, f, w) =
        verify_accepts s k (chain x) d t empty_commit u.providers u.subscribed u.now u.events
          (small_id x) at.sound (own_known x (awaiting m) d at) p in
      (d₂, q, to_IsAt x (to_send (to_processing (awaiting m))) d₂ w f)
