-- ===== src/Loading/Updates.antt =====
-- src/ch_request.rs: the arms of the loop of `load_commit_history`, and what they write.
use dse.Base.{
  ℕ, ap, ◌+◌, leb, ◌≤◌, ◌≡◌, ◌≢◌, refl, Bool, true, false, List, [], ◌∷◌, Option, some,
  if◌then◌else◌, filter, Result, ok, All, arith, ◌⊎◌, inl, inr, Bool-cases,
}
use dse.Base.Bytes.{bytes_eq}
use dse.Types.{Address, PeerId, Commit, CommitHistory}
use dse.Types.Messages.{
  commit_request, exchange_request, gossipsub_message_recv, new_listen_addr, update, want_history,
  CommitResponse, commit_ack, RequestId,
}
use dse.Backend.{Backend, IsSound}
use dse.Storage.{find_commit_history, add_new_commits, history_or_empty}
use dse.Storage.Invariant.{IsWellFormed}
use dse.Storage.Histories.{add_commits_to_commit_history_ok, find_commit_history_ok}
use dse.Commit.{Crypto, signing_address}
use dse.EthNode.{EthNode, owner_address, get_current_epoch}
use dse.Loading.{
  LoadingState, State, pending, in_progress, ended, query_from, first, LoopEvent, received, ticked,
  Progress, going, done, panicked, answered, ask, next_peer, remove_first, on_tick, on_event,
  is_loadable, load_step, load_loop, load_commit_history, initial_state, has_timed_out,
}

-- The peers do not run out between two calls of `query_from`.
abbrev pub HasPeer : LoadingState → Type 0
HasPeer ls = (ls.request_count ≤ 3) ⊎ (ls.peers ≢ [])

module _ ⦃e : Backend⦄ (s : IsSound e) where
  abbrev pub IsFine : Progress → Type 0
  IsFine (going ls d asked) = HasPeer ls × IsWellFormed s d
  IsFine (done r d asked) = IsWellFormed s d
  IsFine panicked = ⊥

  answered-peers :
      (ls : LoadingState) (answer : Result CommitResponse) (later : ℕ)
      → (answered ls answer later).peers ≡ ls.peers
  answered-peers ls (ok commit_ack) later = refl
  answered-peers ls _ later = refl

  ask-first :
      (ls : LoadingState) (d : e.Db) (asked : List PeerId) (answer : Result CommitResponse)
      (later : ℕ) (ps : List PeerId)
      → ls.peers ≡ ps
      → IsWellFormed s d
      → IsFine (ask (ok (ls, first ps)) d asked answer later)
  ask-first ls d asked answer later [] p w = w
  ask-first ls d asked answer later (q ∷ r) p w =
      (inr (λ none_left. cc (answered-peers ls answer later)), w)

  ask_next :
      (ls : LoadingState) (d : e.Db) (asked : List PeerId) (answer : Result CommitResponse)
      (later : ℕ) (ps : List PeerId)
      → ls.peers ≡ ps
      → ps ≢ []
      → IsWellFormed s d
      → IsFine (ask (next_peer ls (remove_first ps)) d asked answer later)
  ask_next ls d asked answer later [] p h w = absurd (h refl)
  ask_next ls d asked answer later (q ∷ r) p h w =
      ask-first (record ls { request_count = 1; peers = r }) d asked answer later r refl w

  -- The next request, if there is a peer to take it.
  ask-IsFine :
      (ls : LoadingState) (d : e.Db) (asked : List PeerId) (answer : Result CommitResponse)
      (later : ℕ)
      → HasPeer ls
      → IsWellFormed s d
      → IsFine (ask (query_from ls) d asked answer later)
  unfolding query_from
  ask-IsFine ls d asked answer later h w = elim (Bool-cases (leb ls.request_count 3)) [
    | inl few ↦
        rw (few, query_from)
          (ask-first (record ls { request_count = ls.request_count + 1 }) d asked answer later
            ls.peers refl w)
    | inr many ↦
        rw (many, query_from) (ask_next ls d asked answer later ls.peers refl (few_or many h) w)
  ]
    where
      few_or : leb ls.request_count 3 ≡ false → HasPeer ls → ls.peers ≢ []
      few_or many (inl few) = absurd (ground arith)
      few_or many (inr some_peer) = some_peer

  pub on_tick-IsFine :
      (ls : LoadingState) (d : e.Db) (asked : List PeerId) (now : ℕ)
      (answer : Result CommitResponse) (later : ℕ)
      → HasPeer ls
      → IsWellFormed s d
      → IsFine (on_tick ls d asked now answer later)
  unfolding on_tick
  on_tick-IsFine ls d asked now answer later h w =
      let next = ask-IsFine ls d asked answer later h w in by_state ls.state refl next
    where
      by_state :
          (st : State)
          → ls.state ≡ st
          → IsFine (ask (query_from ls) d asked answer later)
          → IsFine (on_tick ls d asked now answer later)
      by_state pending p next = rw (p, on_tick) next
      by_state ended p next = rw (p, on_tick) w
      by_state in_progress p next = elim (Bool-cases (has_timed_out now ls.timeout)) [
        | inl q ↦ rw (p, on_tick, q) next
        | inr q ↦ rw (p, on_tick, q) (h, w)
      ]

  module _ (k : Crypto) (node : EthNode) where
    -- A commit of the epoch that the node expects, signed by the owner that it expects.
    abbrev pub IsLoadable : Address → Commit → Type 0
    IsLoadable wallet c =
        (c.epoch ≡ get_current_epoch node wallet)
        × (signing_address k c ≡ some (owner_address node wallet))

    filter-IsLoadable :
        (wallet : Address) (cs : List Commit)
        → All (IsLoadable wallet) (
            filter
              (is_loadable k node (get_current_epoch node wallet) (owner_address node wallet))
              cs)
    unfolding filter is_loadable
    filter-IsLoadable wallet [] = tt
    filter-IsLoadable wallet (c ∷ cs) = ground (arith, filter-IsLoadable wallet cs)

    -- An update appends its loadable commits to the history of its own wallet, which is then what a
    -- search finds; all other wallets keep theirs. The load goes on with a fresh timeout, and is over
    -- at the last batch.
    pub on_event_update :
        (wallet : Address) (ls : LoadingState) (d : e.Db) (asked : List PeerId) (now : ℕ)
        (sender : PeerId) (id : RequestId) (updated : Address) (cs : List Commit) (last : Bool)
        (b : Address) (found : Option CommitHistory)
        → IsWellFormed s d
        → find_commit_history d updated ≡ ok found
        → (d' : e.Db) × (kept : List Commit) × (on_event k node wallet ls d asked now
              (commit_request sender id (update updated cs last))
            ≡ going
                (record ls { timeout = now; state = if last then ended else ls.state })
                d'
                asked)
          × IsWellFormed s d'
          × All (IsLoadable wallet) kept
          × (find_commit_history d' b ≡ (
              if bytes_eq updated b
              then ok (some (add_new_commits (history_or_empty updated found) kept))
              else find_commit_history d b))
    unfolding on_event
    on_event_update wallet ls d asked now sender id updated cs last b found w p =
        let kept =
          filter (is_loadable k node (get_current_epoch node wallet) (owner_address node wallet))
            cs in
        let (d', q, w', f) = add_commits_to_commit_history_ok s d updated kept b found w p in
        (d', kept, rw q, w', filter-IsLoadable wallet cs, f)

    load_step-IsFine :
        (wallet : Address) (ls : LoadingState) (d : e.Db) (asked : List PeerId) (ev : LoopEvent)
        → HasPeer ls
        → IsWellFormed s d
        → IsFine (load_step k node wallet ls d asked ev)
    unfolding load_step
    load_step-IsFine wallet ls d asked (ticked now answer later) h w =
        on_tick-IsFine ls d asked now answer later h w
    load_step-IsFine wallet ls d asked
          (received now (commit_request sender id (update updated cs last))) h w =
        let (found, p) = find_commit_history_ok s d updated w in
        let (d', _, q, w', _, _) =
          on_event_update wallet ls d asked now sender id updated cs last updated found w p in
        rw q (h, w')
    load_step-IsFine wallet ls d asked (received now (commit_request sender id (want_history a))) h
          w =
        (h, w)
    load_step-IsFine wallet ls d asked (received now (gossipsub_message_recv m)) h w = (h, w)
    load_step-IsFine wallet ls d asked (received now (exchange_request p id r)) h w = (h, w)
    load_step-IsFine wallet ls d asked (received now (new_listen_addr n a)) h w = (h, w)

    load_loop-IsFine :
        (wallet : Address) (p : Progress) (evs : List LoopEvent)
        → IsFine p
        → IsFine (load_loop k node wallet p evs)
    unfolding load_loop
    load_loop-IsFine wallet (going ls d asked) [] h = h
    load_loop-IsFine wallet (going ls d asked) (ev ∷ evs) (h, w) =
        load_loop-IsFine wallet (load_step k node wallet ls d asked ev) evs
          (load_step-IsFine wallet ls d asked ev h w)
    load_loop-IsFine wallet (done r d asked) evs h = h
    load_loop-IsFine wallet panicked evs h = h

    -- Whatever the DHT answers and whatever arrives, a load from a well-formed database never panics,
    -- and the database is well formed wherever it stands.
    pub load_commit_history-IsFine :
        (dht : Result (List PeerId)) (subscribed : Bool) (now : ℕ) (d : e.Db) (wallet : Address)
        (evs : List LoopEvent)
        → IsWellFormed s d
        → IsFine (load_commit_history k node dht subscribed now d wallet evs)
    unfolding load_commit_history
    load_commit_history-IsFine (ok peers) true now d wallet evs w =
        load_loop-IsFine wallet (going (initial_state peers now) d []) evs (inl (omega arith), w)
    load_commit_history-IsFine _ _ now d wallet evs w = w

    -- A last batch for another wallet ends the load: at the next tick it returns successfully, with
    -- no request made and the history of the wallet that was asked for as it was.
    pub load_ends_by_other_wallet :
        (wallet : Address) (ls : LoadingState) (d : e.Db) (asked : List PeerId) (now : ℕ)
        (sender : PeerId) (id : RequestId) (other : Address) (cs : List Commit) (tick : ℕ)
        (answer : Result CommitResponse) (later : ℕ)
        → IsWellFormed s d
        → other ≢ wallet
        → (d' : e.Db) × (load_loop k node wallet (going ls d asked) (
              received now (commit_request sender id (update other cs true))
              ∷ ticked tick answer later
              ∷ [])
            ≡ done (ok tt) d' asked)
          × (find_commit_history d' wallet ≡ find_commit_history d wallet)
    unfolding load_loop load_step on_tick
    load_ends_by_other_wallet wallet ls d asked now sender id other cs tick answer later w ne =
        let (found, p) = find_commit_history_ok s d other w in
        let (d', _, q, _, _, f) =
          on_event_update wallet ls d asked now sender id other cs true wallet found w p in
        (
          d',
          ap (λ p. load_loop k node wallet p (ticked tick answer later ∷ [])) q,
          ground (arith, f),
        )
