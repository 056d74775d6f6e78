-- ===== src/Protocol/Stall.antt =====
-- src/indexer.rs, src/server.rs and src/commit_procedure.rs: the two nodes after a trade's start.
use dse.Base.{
  ℕ, ◌^◌, ◌<◌, ◌≡◌, ◌≢◌, refl, sym, ◌∙◌, ap, subst, true, false, List, [], ◌∷◌, ◌++◌, some, Result,
  ok, err, panic, All, All-append, arith, inl, inr,
}
use dse.Types.{
  PeerId, Multiaddr, TradeQuote, IWant, Trade, TradeStatus, waiting_r_t1_commit, r_send_t1_commit,
  update_status, counter_party_details, is_sending_status, TradeStatus-discrete, Commit,
}
use dse.Types.Messages.{
  ExchangeRequest, ExchangeResponse, ack, bad, exchange_request, start_commit, RequestId,
}
use dse.Backend.{Backend, IsSound}
use dse.Storage.{find_active_trade, add_active_trade, find_i_want}
use dse.Commit.{Crypto}
use dse.EthNode.{EthNode}
use dse.Procedure.{to_waiting, send, outgoing, CommitProcedureEvent}
use dse.Procedure.Send.{send_lem}
use dse.Indexer.{Effect, respond, spawn_verify, handle_network_event}
use dse.Indexer.Handlers.{CommitMessage, message, on_commit_message}
use dse.Server.{from_quote, post_start_commit, status_ok, Outgoing}
use dse.Server.Trades.{post_start_commit_lem, start_commit_self_addressed}
use dse.Protocol.{
  Side, requester, provider, World, Step, sends, arrives, intrudes, verifies, Reach, start,
  then_step,
}

-- A task that is not a verification.
abbrev pub IsQuiet : Effect → Type 0
IsQuiet (spawn_verify t c) = ⊥
IsQuiet _ = Unit

All-middle :
    (before after : List Effect) (t : Trade) (c : Commit)
    → All IsQuiet (before ++ spawn_verify t c ∷ after)
    → ⊥
All-middle [] after t c a = a.0
All-middle (x ∷ before) after t c a = All-middle before after t c a.1

module _ ⦃e : Backend⦄ (s : IsSound e) where
  -- A `send` that ends leaves the trade under its id, with its status at most changed.
  send_found :
      (d : e.Db) (t : Trade) (answer : Result ExchangeResponse) (d' : e.Db)
      (event : CommitProcedureEvent)
      → t.id < 2 ^ 32
      → is_sending_status t ≡ true
      → find_active_trade d t.id ≡ ok t
      → send d t answer ≡ ok (d', event)
      → (st : TradeStatus) × (find_active_trade d' t.id ≡ ok (update_status t st))
  unfolding send
  send_found d t (ok response) d' event small h f p =
      let (d₁, q, g) = (send_lem s d t small h f).1 response in
      let same : d₁ ≡ d' = cc in
      (to_waiting t.status, ap (λ x. find_active_trade x t.id) (sym same) ∙ g)
  send_found d t (err x) d' event small h f p =
      let q = (send_lem s d t small h f).0 x in
      let same : d ≡ d' = cc in (t.status, ap (λ x. find_active_trade x t.id) (sym same) ∙ f)
  send_found d t panic d' event small h f p =
      let (r, q) = (send_lem s d t small h f).2 in absurd (ground (arith, p, q))

  -- A commit message of a peer that is not the counter party changes nothing and spawns no
  -- verification.
  refused :
      (d : e.Db) (t : Trade) (p : PeerId) (m : CommitMessage) (id : ℕ) (c : Commit)
      (rid : RequestId) (d' : e.Db) (effects : List Effect)
      → find_active_trade d id ≡ ok t
      → (counter_party_details t).0 ≢ p
      → handle_network_event d (exchange_request p rid (message m id c)) ≡ ok (d', effects)
      → (d ≡ d') × All IsQuiet effects
  unfolding handle_network_event
  refused d t p m id c rid d' effects f ne h = elim (on_commit_message s m d p rid id c) [
    | inl (u, a, q) ↦ absurd (ne (ground (arith, a.known, a.from_party, f)))
    | inr (none_fits, q) ↦
        let same : d ≡ d' = cc in
        let quiet : respond p rid bad ∷ [] ≡ effects = cc in
        (same, subst (All IsQuiet) quiet (tt, tt))
  ]

  module _ (k : Crypto) (chain : Side → EthNode) (peer : Side → PeerId) (t : Trade)
      (small : t.id < 2 ^ 32) (two : peer requester ≢ peer provider)
      (own : (counter_party_details t).0 ≡ peer requester)
      (awaits : t.status ≡ waiting_r_t1_commit) where
    -- The provider still has the trade it started with, and the requester this trade with some
    -- status; neither has a verification to run.
    record Stalled (w : World) : Type 0 where
      started : find_active_trade w.provider_node.db t.id ≡ ok t
      kept :
          (st : TradeStatus) × (find_active_trade w.requester_node.db t.id
            ≡ ok (update_status t st))
      requester_quiet : All IsQuiet w.requester_node.tasks
      provider_quiet : All IsQuiet w.provider_node.tasks

    provider_waits : (u : Trade) → ok u ≡ ok t → is_sending_status u ≡ true → ⊥
    unfolding is_sending_status TradeStatus-discrete
    provider_waits u p h = ground (arith, p, h, awaits)

    not_to_provider :
        (d : e.Db) (st : TradeStatus) (u : Trade) (r : ExchangeRequest)
        → find_active_trade d t.id ≡ ok (update_status t st)
        → find_active_trade d t.id ≡ ok u
        → is_sending_status u ≡ true
        → outgoing u ≡ ok (peer provider, r)
        → ⊥
    not_to_provider d st u r f g h p =
        let same : u ≡ update_status t st = cc in
        let sending = subst (λ v. is_sending_status v ≡ true) same h in
        let away = subst (λ v. outgoing v ≡ ok (peer provider, r)) same p in
        let (r', q) = (send_lem s d (update_status t st) small sending f).2 in
        (let same_peer : peer requester ≡ peer provider = cc in two same_peer)

    Step-Stalled : {v w : World} → Step k chain peer t.id v w → Stalled v → Stalled w
    Step-Stalled (sends requester w u answer d event f h p) i =
        let (st, g) = i.kept in
        let same : u ≡ update_status t st = cc in
        let (st', g') =
          send_found w.requester_node.db (update_status t st) answer d event small
            (subst (λ v. is_sending_status v ≡ true) same h) g
            (subst (λ v. send w.requester_node.db v answer ≡ ok (d, event)) same p) in
        record {
          started = i.started;
          kept = (st', g');
          requester_quiet = i.requester_quiet;
          provider_quiet = i.provider_quiet;
        }
    Step-Stalled (sends provider w u answer d event f h p) i =
        absurd (provider_waits u (sym f ∙ i.started) h)
    Step-Stalled (arrives requester w u r rid d effects f h p q) i =
        absurd (not_to_provider w.requester_node.db i.kept.0 u r i.kept.1 f h p)
    Step-Stalled (arrives provider w u r rid d effects f h p q) i =
        absurd (provider_waits u (sym f ∙ i.started) h)
    Step-Stalled (intrudes requester w p m c rid d effects a b h) i =
        let (st, g) = i.kept in
        let (same, calm) =
          refused w.requester_node.db (update_status t st) p m t.id c rid d effects g
            (λ q. a (sym q ∙ own)) h in
        record {
          started = i.started;
          kept = (st, ap (λ x. find_active_trade x t.id) (sym same) ∙ g);
          requester_quiet =
              All-append IsQuiet effects w.requester_node.tasks calm i.requester_quiet;
          provider_quiet = i.provider_quiet;
        }
    Step-Stalled (intrudes provider w p m c rid d effects a b h) i =
        let (same, calm) =
          refused w.provider_node.db t p m t.id c rid d effects i.started (λ q. a (sym q ∙ own))
            h in
        record {
          started = ap (λ x. find_active_trade x t.id) (sym same) ∙ i.started;
          kept = i.kept;
          requester_quiet = i.requester_quiet;
          provider_quiet = All-append IsQuiet effects w.provider_node.tasks calm i.provider_quiet;
        }
    Step-Stalled (verifies requester w u c dht subscribed now events before after d q h) i =
        absurd (All-middle before after u c (subst (All IsQuiet) q i.requester_quiet))
    Step-Stalled (verifies provider w u c dht subscribed now events before after d q h) i =
        absurd (All-middle before after u c (subst (All IsQuiet) q i.provider_quiet))

    Reach-Stalled : {v w : World} → Reach k chain peer t.id v w → Stalled v → Stalled w
    Reach-Stalled (start w) i = i
    Reach-Stalled (then_step r st) i = Step-Stalled st (Reach-Stalled r i)

  -- Let the provider start a trade on a quote for a want that it stored, and let the requester, a
  -- node other than the provider, take the start in. Whatever the order of the steps of the two
  -- nodes after that, whatever the network answers, and whatever commit messages third peers send:
  -- the provider still awaits the first commit of the requester.
  pub trade_stalls :
      (k : Crypto) (chain : Side → EthNode) (peer : Side → PeerId) (addr : Multiaddr)
      (quote : TradeQuote) (want : IWant) (rid : RequestId) (before started joined : e.Db)
      (out : List Outgoing) (effects : List Effect) (theirs : e.Db) (w : World)
      → quote.id < 2 ^ 32
      → want.requester_id ≡ peer requester
      → peer requester ≢ peer provider
      → find_i_want before quote.id ≡ ok (some want)
      → post_start_commit before quote (ok (peer provider, addr)) (ok ack)
        ≡ ok (started, status_ok, out)
      → let t = from_quote quote want waiting_r_t1_commit false (peer provider, addr) in
        handle_network_event theirs (exchange_request (peer provider) rid (start_commit t))
          ≡ ok (joined, effects)
        → Reach k chain peer quote.id
            (record {
              requester_node = record { db = joined; tasks = effects };
              provider_node = record { db = started; tasks = [] };
            })
            w
        → find_active_trade w.provider_node.db quote.id ≡ ok t
  unfolding from_quote
  trade_stalls k chain peer addr quote want rid before started joined out effects theirs w small is
        two found p h r =
      let t : Trade = from_quote quote want waiting_r_t1_commit false (peer provider, addr) in
      let (g, _, p', _, _) =
        post_start_commit_lem s before quote want (peer provider) addr small found in
      let (d', h', g', _, _) =
        start_commit_self_addressed s theirs quote want (peer provider) addr rid small
          (λ q. two (sym is ∙ q)) in
      let same : add_active_trade before t ≡ started = cc in
      let same_joined : d' ≡ joined = cc in
      let calm : respond (peer provider) rid ack ∷ [] ≡ effects = cc in
      let first : Stalled k chain peer t small two is refl (record {
        requester_node = record { db = joined; tasks = effects };
        provider_node = record { db = started; tasks = [] };
      }) =
        record {
          started = ap (λ x. find_active_trade x quote.id) (sym same) ∙ g;
          kept = (r_send_t1_commit, ap (λ x. find_active_trade x quote.id) (sym same_joined) ∙ g');
          requester_quiet = subst (All IsQuiet) calm (tt, tt);
          provider_quiet = tt;
        } in
      (Reach-Stalled k chain peer t small two is refl r first).started
