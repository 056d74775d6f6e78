-- ===== src/Loading/Requests.antt =====
-- src/ch_request.rs: the requests of a whole load.
use mathlib.Core.List.{reverse, reverse_aux, reverse_aux-eq}
use dse.Base.{
  ℕ, zero, suc, ◌≤◌, ◌≡◌, refl, sym, ◌∙◌, Bool, true, false, ◌||◌, List, [], ◌∷◌, ◌++◌, leb,
  if◌then◌else◌, Result, ok, err, panic, Error, network_failed, Ensures, ◌⊎◌, inl, inr, arith,
}
use dse.Types.{Address, PeerId, Commit}
use dse.Types.Messages.{
  commit_request, exchange_request, gossipsub_message_recv, new_listen_addr, update, want_history,
  CommitResponse, commit_ack, commit_bad,
}
use dse.Backend.{Backend, IsSound}
use dse.Storage.{add_commits_to_commit_history}
use dse.Storage.Invariant.{IsWellFormed}
use dse.Storage.Histories.{add_commits_to_commit_history_ok, find_commit_history_ok}
use dse.Commit.{Crypto}
use dse.EthNode.{EthNode}
use dse.Loading.{
  LoadingState, State, ended, query_from, LoopEvent, received, ticked, Progress, going, done,
  panicked, answered, ask, recorded, on_tick, on_event, load_step, load_loop, load_commit_history,
  initial_state, has_timed_out, is_pending,
}
use dse.Loading.Peers.{four_times}

-- The peers that are still to be asked, where the first one was asked `n` times.
abbrev left : List PeerId → ℕ → List PeerId
left [] n = []
left (p ∷ ps) zero = p ∷ p ∷ p ∷ p ∷ four_times ps
left (p ∷ ps) (suc zero) = p ∷ p ∷ p ∷ four_times ps
left (p ∷ ps) (suc (suc zero)) = p ∷ p ∷ four_times ps
left (p ∷ ps) (suc (suc (suc zero))) = p ∷ four_times ps
left (p ∷ ps) (suc (suc (suc (suc n)))) = four_times ps

abbrev pub IsCount : List PeerId → ℕ → Type 0
IsCount [] n = n ≤ 3
IsCount (p ∷ ps) n = n ≤ 4

pub three_or_less : (n : ℕ) → n ≤ 3 → leb n 3 ≡ true
three_or_less n p = ground (arith, p)

abbrev pub is_last : LoopEvent → Bool
is_last (received now (commit_request p id (update a cs last_batch))) = last_batch
is_last _ = false

-- An update among the events is a last batch, for whichever wallet.
abbrev pub has_last : List LoopEvent → Bool
has_last [] = false
has_last (ev ∷ evs) = is_last ev || has_last evs

-- A last batch was heard, if the load has ended.
abbrev IsHeard : Type 0 → State → Type 0
IsHeard Q ended = Q
IsHeard Q _ = Unit

module _ ⦃e : Backend⦄ (s : IsSound e) where
  -- The peers asked so far and those that are left, and what a load that has returned has heard.
  abbrev pub Asks : Type 0 → List PeerId → Progress → Type 0
  Asks Q peers (going ls d asked) =
      IsWellFormed s d × ((rest : List PeerId) × (reverse asked ++ rest ≡ four_times peers))
  Asks Q peers (done r d asked) =
      IsWellFormed s d
      × (r ≡ ok tt)
      × ((rest : List PeerId) × (reverse asked ++ rest ≡ four_times peers) × ((rest ≡ []) ⊎ Q))
  Asks Q peers panicked = ⊥

  added-IsWellFormed :
      (d : e.Db) (a : Address) (cs : List Commit)
      → IsWellFormed s d
      → Ensures (IsWellFormed s) (add_commits_to_commit_history d a cs)
  added-IsWellFormed d a cs w =
      let (found, p) = find_commit_history_ok s d a w in
      let (d', stored, w', same) = add_commits_to_commit_history_ok s d a cs a found w p in
      rw stored w'

  module _ (Q : Type 0) (all : List PeerId) where
    abbrev Stands : LoadingState → List PeerId → Type 0
    Stands ls asked =
        (reverse_aux asked (left ls.peers ls.request_count) ≡ all)
        × IsCount ls.peers ls.request_count
        × IsHeard Q ls.state

    abbrev IsKept : Progress → Type 0
    IsKept (going ls d asked) = IsWellFormed s d × Stands ls asked
    IsKept (done r d asked) =
        IsWellFormed s d
        × (r ≡ ok tt)
        × ((rest : List PeerId) × (reverse_aux asked rest ≡ all) × ((rest ≡ []) ⊎ Q))
    IsKept panicked = ⊥

    answered-Stands :
        (ls : LoadingState) (answer : Result CommitResponse) (later : ℕ) (asked : List PeerId)
        → Stands ls asked
        → Stands (answered ls answer later) asked
    answered-Stands ls (ok commit_ack) later asked (h, c, q) = (h, c, tt)
    answered-Stands ls (ok commit_bad) later asked h = h
    answered-Stands ls (err x) later asked h = h
    answered-Stands ls panic later asked h = h

    abbrev at : LoadingState → List PeerId → ℕ → LoadingState
    at ls ps n = record ls { peers = ps; request_count = n }

    module _ (ls : LoadingState) (d : e.Db) (asked : List PeerId) (answer : Result CommitResponse)
        (later : ℕ) (w : IsWellFormed s d) (q : IsHeard Q ls.state) where
      ask-IsKept :
          (ps : List PeerId) (n : ℕ)
          → IsCount ps n
          → reverse_aux asked (left ps n) ≡ all
          → IsKept (ask (query_from (at ls ps n)) d asked answer later)
      unfolding query_from
      ask-IsKept [] n c h = rw (three_or_less n c) (w, refl, ([], h, inl refl))
      ask-IsKept (p ∷ ps) zero c h =
          (w, answered-Stands (at ls (p ∷ ps) 1) answer later (p ∷ asked) (h, omega arith, q))
      ask-IsKept (p ∷ ps) (suc zero) c h =
          (w, answered-Stands (at ls (p ∷ ps) 2) answer later (p ∷ asked) (h, omega arith, q))
      ask-IsKept (p ∷ ps) (suc (suc zero)) c h =
          (w, answered-Stands (at ls (p ∷ ps) 3) answer later (p ∷ asked) (h, omega arith, q))
      ask-IsKept (p ∷ ps) (suc (suc (suc zero))) c h =
          (w, answered-Stands (at ls (p ∷ ps) 4) answer later (p ∷ asked) (h, omega arith, q))
      ask-IsKept (p ∷ []) (suc (suc (suc (suc zero)))) c h = (w, refl, ([], h, inl refl))
      ask-IsKept (p ∷ r ∷ ps) (suc (suc (suc (suc zero)))) c h =
          (w, answered-Stands (at ls (r ∷ ps) 1) answer later (r ∷ asked) (h, omega arith, q))
      ask-IsKept (p ∷ ps) (suc (suc (suc (suc (suc n))))) c h = absurd (omega (arith, c))

    on_tick-IsKept :
        (ls : LoadingState) (d : e.Db) (asked : List PeerId) (now later : ℕ)
        (answer : Result CommitResponse)
        → IsKept (going ls d asked)
        → IsKept (on_tick ls d asked now answer later)
    unfolding on_tick
    on_tick-IsKept ls d asked now later answer (w, (h, c, q)) = by_state ls.state q
      where
        either :
            (b : Bool)
            → IsKept (if b then ask (query_from ls) d asked answer later else going ls d asked)
        either true = ask-IsKept ls d asked answer later w q ls.peers ls.request_count c h
        either false = (w, (h, c, q))

        by_state :
            (st : State)
            → IsHeard Q st
            → IsKept (elim st [
              | ended ↦ done (ok tt) d asked
              | other ↦
                  if is_pending other || has_timed_out now ls.timeout
                  then ask (query_from ls) d asked answer later
                  else going ls d asked
            ])
        by_state ended heard = (w, refl, (left ls.peers ls.request_count, h, inr heard))
        by_state st heard = either (is_pending st || has_timed_out now ls.timeout)

    recorded-IsKept :
        (ls : LoadingState) (r : Result e.Db) (asked : List PeerId) (now : ℕ) (last : Bool)
        → Ensures (IsWellFormed s) r
        → Stands ls asked
        → (last ≡ true → Q)
        → IsKept (recorded ls r asked now last)
    recorded-IsKept ls (ok d) asked now true w (h, c, q) heard = (w, (h, c, heard refl))
    recorded-IsKept ls (ok d) asked now false w stands heard = (w, stands)
    recorded-IsKept ls (err x) asked now last w stands heard = absurd w
    recorded-IsKept ls panic asked now last w stands heard = absurd w

    module _ (k : Crypto) (node : EthNode) where
      load_step-IsKept :
          (wallet : Address) (ls : LoadingState) (d : e.Db) (asked : List PeerId) (ev : LoopEvent)
          → IsKept (going ls d asked)
          → (is_last ev ≡ true → Q)
          → IsKept (load_step k node wallet ls d asked ev)
      unfolding load_step on_event
      load_step-IsKept wallet ls d asked (ticked now answer later) h heard =
          on_tick-IsKept ls d asked now later answer h
      load_step-IsKept wallet ls d asked
            (received now (commit_request sender id (update updated cs last))) (w, h) heard =
          recorded-IsKept ls _ asked now last (added-IsWellFormed d updated _ w) h heard
      load_step-IsKept wallet ls d asked (received now (commit_request p id (want_history a))) h
            heard =
          h
      load_step-IsKept wallet ls d asked (received now (gossipsub_message_recv m)) h heard = h
      load_step-IsKept wallet ls d asked (received now (exchange_request p id r)) h heard = h
      load_step-IsKept wallet ls d asked (received now (new_listen_addr n a)) h heard = h

      load_loop-IsKept :
          (wallet : Address) (p : Progress) (evs : List LoopEvent)
          → IsKept p
          → (has_last evs ≡ true → Q)
          → IsKept (load_loop k node wallet p evs)
      unfolding load_loop
      load_loop-IsKept wallet (going ls d asked) [] h heard = h
      load_loop-IsKept wallet (going ls d asked) (ev ∷ evs) h heard =
          load_loop-IsKept wallet (load_step k node wallet ls d asked ev) evs
            (load_step-IsKept wallet ls d asked ev h (λ now. heard (ground (arith, now))))
            (λ later. heard (ground (arith, later)))
      load_loop-IsKept wallet (done r d asked) evs h heard = h
      load_loop-IsKept wallet panicked evs h heard = absurd h

  in_order :
      (Q : Type 0) (peers : List PeerId) (p : Progress)
      → IsKept Q (four_times peers) p
      → Asks Q peers p
  in_order Q peers (going ls d asked) (w, (h, c, q)) =
      (w, (left ls.peers ls.request_count, sym (reverse_aux-eq asked _) ∙ h))
  in_order Q peers (done r d asked) (w, p, (rest, h, q)) =
      (w, p, (rest, sym (reverse_aux-eq asked rest) ∙ h, q))
  in_order Q peers panicked h = absurd h

  initial-Stands :
      (Q : Type 0) (peers : List PeerId) (now : ℕ)
      → Stands Q (four_times peers) (initial_state peers now) []
  initial-Stands Q [] now = (refl, omega arith, tt)
  initial-Stands Q (p ∷ ps) now = (refl, omega arith, tt)

  -- A load of a history from a well-formed database, whose search for providers succeeds and which gets
  -- the network's events, never panics, whatever it hears. It makes requests to the providers in the
  -- order they were found, at most four to each, and it keeps the database well formed. If it has
  -- returned, which is with success, it has made all of these requests, unless one of the events is
  -- an update that is marked as the last batch. If the search fails or the events are not to be had,
  -- it returns an error with no request made, and the database is as before.
  pub load_commit_history_lem :
      (k : Crypto) (node : EthNode) (peers : List PeerId) (now : ℕ) (d : e.Db) (wallet : Address)
      (evs : List LoopEvent) (x : Error) (subscribed : Bool)
      → IsWellFormed s d
      → Asks
          (has_last evs ≡ true)
          peers
          (load_commit_history k node (ok peers) true now d wallet evs)
        × (load_commit_history k node (ok peers) false now d wallet evs
            ≡ done (err network_failed) d [])
        × (load_commit_history k node (err x) subscribed now d wallet evs
            ≡ done (err network_failed) d [])
  unfolding load_commit_history
  load_commit_history_lem k node peers now d wallet evs x subscribed w =
      let heard : Type 0 = (has_last evs ≡ true) in
      let asks =
        load_loop-IsKept heard (four_times peers) k node wallet
          (going (initial_state peers now) d []) evs (w, initial-Stands heard peers now) (λ q. q) in
      (in_order heard peers _ asks, refl, refl)
