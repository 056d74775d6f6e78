-- ===== src/Loading/Keeps.antt =====
-- src/ch_request.rs: what a load leaves alone: it writes histories and nothing else.
use dse.Base.{
  Bool, true, false, List, [], ◌∷◌, Result, ok, err, panic, ◌≡◌, refl, ℕ, Option, none, some, ◌||◌,
  if◌then◌else◌,
}
use dse.Types.{Address, PeerId, Commit}
use dse.Types.Messages.{
  commit_request, exchange_request, gossipsub_message_recv, new_listen_addr, update, want_history,
  CommitResponse,
}
use dse.Backend.{Backend}
use dse.Storage.{add_commits_to_commit_history}
use dse.Commit.{Crypto}
use dse.EthNode.{EthNode}
use dse.Loading.{
  LoadingState, State, ended, LoopEvent, received, ticked, Progress, going, done, panicked, on_tick,
  on_event, load_step, load_loop, load_commit_history, initial_state, query_from, ask, recorded,
  is_pending, has_timed_out,
}

module _ ⦃e : Backend⦄ (P : e.Db → Type 0) where
  -- The database is one of `P`, wherever the load stands.
  abbrev pub Holds : Progress → Type 0
  Holds (going ls d asked) = P d
  Holds (done r d asked) = P d
  Holds panicked = Unit

  ask-Holds :
      (r : Result (LoadingState × Option PeerId)) (d : e.Db) (asked : List PeerId)
      (answer : Result CommitResponse) (later : ℕ)
      → P d
      → Holds (ask r d asked answer later)
  ask-Holds (ok (ls, some p)) d asked answer later h = h
  ask-Holds (ok (ls, none)) d asked answer later h = h
  ask-Holds _ d asked answer later h = tt

  on_tick-Holds :
      (ls : LoadingState) (d : e.Db) (asked : List PeerId) (now : ℕ)
      (answer : Result CommitResponse) (later : ℕ)
      → P d
      → Holds (on_tick ls d asked now answer later)
  unfolding on_tick
  on_tick-Holds ls d asked now answer later h = by_state ls.state
    where
      next : Holds (ask (query_from ls) d asked answer later)
      next = ask-Holds (query_from ls) d asked answer later h

      either :
          (b : Bool)
          → Holds (if b then ask (query_from ls) d asked answer later else going ls d asked)
      either true = next
      either false = h

      by_state :
          (st : State)
          → Holds (elim st [
            | ended ↦ done (ok tt) d asked
            | other ↦
                if is_pending other || has_timed_out now ls.timeout
                then ask (query_from ls) d asked answer later
                else going ls d asked
          ])
      by_state ended = h
      by_state st = either (is_pending st || has_timed_out now ls.timeout)

  module _ (k : Crypto) (node : EthNode)
      (keeps : (d d' : e.Db) (a : Address) (cs : List Commit)
        → add_commits_to_commit_history d a cs ≡ ok d'
        → P d
        → P d') where
    recorded-Holds :
        (ls : LoadingState) (r : Result e.Db) (asked : List PeerId) (now : ℕ) (last : Bool)
        → ((d' : e.Db) → r ≡ ok d' → P d')
        → Holds (recorded ls r asked now last)
    recorded-Holds ls (ok d') asked now last h = h d' refl
    recorded-Holds ls (err x) asked now last h = tt
    recorded-Holds ls panic asked now last h = tt

    load_step-Holds :
        (wallet : Address) (ls : LoadingState) (d : e.Db) (asked : List PeerId) (ev : LoopEvent)
        → P d
        → Holds (load_step k node wallet ls d asked ev)
    unfolding load_step on_event
    load_step-Holds wallet ls d asked (ticked now answer later) h =
        on_tick-Holds ls d asked now answer later h
    load_step-Holds wallet ls d asked
          (received now (commit_request sender id (update updated cs last))) h =
        recorded-Holds ls _ asked now last (λ d' p. keeps d d' updated _ p h)
    load_step-Holds wallet ls d asked (received now (commit_request sender id (want_history a))) h =
        h
    load_step-Holds wallet ls d asked (received now (gossipsub_message_recv m)) h = h
    load_step-Holds wallet ls d asked (received now (exchange_request p id r)) h = h
    load_step-Holds wallet ls d asked (received now (new_listen_addr n a)) h = h

    load_loop-Holds :
        (wallet : Address) (p : Progress) (evs : List LoopEvent)
        → Holds p
        → Holds (load_loop k node wallet p evs)
    unfolding load_loop
    load_loop-Holds wallet (going ls d asked) [] h = h
    load_loop-Holds wallet (going ls d asked) (ev ∷ evs) h =
        load_loop-Holds wallet (load_step k node wallet ls d asked ev) evs
          (load_step-Holds wallet ls d asked ev h)
    load_loop-Holds wallet (done r d asked) evs h = h
    load_loop-Holds wallet panicked evs h = h

    pub load_commit_history-Holds :
        (dht : Result (List PeerId)) (subscribed : Bool) (now : ℕ) (d : e.Db) (wallet : Address)
        (evs : List LoopEvent)
        → P d
        → Holds (load_commit_history k node dht subscribed now d wallet evs)
    unfolding load_commit_history
    load_commit_history-Holds (ok peers) true now d wallet evs h =
        load_loop-Holds wallet (going (initial_state peers now) d []) evs h
    load_commit_history-Holds _ _ now d wallet evs h = h
