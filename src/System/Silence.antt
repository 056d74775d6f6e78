-- ===== src/System/Silence.antt =====
-- src/ch_request.rs and src/commit_procedure.rs: a `verify` whose load asks peers that never promise a
-- history.
use dse.Base.{
  ℕ, suc, ◌+◌, ◌-◌, ◌*◌, ◌≤◌, ◌<◌, ◌≡◌, refl, true, false, List, [], ◌∷◌, ◌++◌, map, some, leb,
  Result, ok, err, panic, ◌>>=◌, All, All-append, length, length-append, arith, Bool-cases, inl,
  inr, Result-cases,
}
use dse.Types.{PeerId, Trade, Commit, update_status}
use dse.Types.Messages.{
  NetworkEvent, commit_request, update, want_history, exchange_request, gossipsub_message_recv,
  new_listen_addr, CommitResponse, commit_ack, commit_bad,
}
use dse.Backend.{Backend, IsSound}
use dse.Storage.{find_active_trade}
use dse.Storage.Invariant.{IsWellFormed}
use dse.Storage.Trades.{find_active_trade-ne-panic}
use dse.Storage.Writes.{get_wallets_of_interest_lem}
use dse.Storage.Locks.{section}
use dse.Commit.{Crypto}
use dse.EthNode.{EthNode}
use dse.Loading.{
  LoadingState, initial_state, LoopEvent, received, ticked, Progress, going, done, panicked,
  answered, on_tick, ask, next_peer, query_from,
}
use dse.Loading.Requests.{IsCount, three_or_less}
use dse.Procedure.{to_processing, CommitProcedureEvent}
use dse.System.Tasks.{
  Task, notes, finished, loads, verifies, Given, nothing, looked_up, loop_event, task_step,
  load_event, after_tick, Stepped,
}
use dse.System.Ends.{among}
use dse.System.Settles.{HasWellFormed, notes_ends}

-- An update is none of these events, and an acknowledgement is none of these answers.
abbrev pub IsSilent : LoopEvent → Type 0
IsSilent (received now (commit_request sender id (update a cs last))) = ⊥
IsSilent (received now _) = Unit
IsSilent (ticked now (ok commit_ack) later) = ⊥
IsSilent (ticked now _ later) = Unit

abbrev pub one_tick : LoopEvent → ℕ
one_tick (ticked now answer later) = 1
one_tick _ = 0

-- How many requests a load makes that nobody acknowledges.
abbrev requests_left : List PeerId → ℕ → ℕ
requests_left [] n = 0
requests_left (p ∷ ps) n = (4 - n) + 4 * length ps

none_yet : (ps : List PeerId) (m : ℕ) → 4 * length ps < m → requests_left ps 0 < m
none_yet [] m h = h
none_yet (p ∷ ps) m h = omega (arith, h)

no-IsCount : (ps : List PeerId) → IsCount ps 0
no-IsCount [] = omega arith
no-IsCount (p ∷ ps) = omega arith

module _ ⦃e : Backend⦄ where
  abbrev pub ticks : List (e.Db × LoopEvent) → ℕ
  ticks [] = 0
  ticks ((d, ev) ∷ evs) = one_tick ev + ticks evs

  abbrev pub as_input : e.Db × LoopEvent → e.Db × Given
  as_input (d, ev) = (d, loop_event ev)

module _ ⦃e : Backend⦄ (s : IsSound e) where
  abbrev pub IsHeard : e.Db × LoopEvent → Type 0
  IsHeard (d, ev) = IsWellFormed s d × IsSilent ev

module _ ⦃e : Backend⦄ (start : ℕ) where
  -- A load that has heard nothing yet.
  abbrev asking : List PeerId → ℕ → LoadingState
  asking ps n = record (initial_state ps start) { request_count = n }

  -- What a tick leaves of a load with some requests left.
  abbrev Follows : ℕ → Progress → Type 0
  Follows m (going ls d asked) =
      (ps : List PeerId) × (n : ℕ) × (ls ≡ asking ps n)
      × IsCount ps n
      × (suc (requests_left ps n) ≡ m)
  Follows m (done r d asked) = Unit
  Follows m panicked = ⊥

  answered-same :
      (ls : LoadingState) (now later : ℕ) (answer : Result CommitResponse)
      → IsSilent (ticked now answer later)
      → answered ls answer later ≡ ls
  answered-same ls now later (ok commit_ack) h = absurd h
  answered-same ls now later (ok commit_bad) h = refl
  answered-same ls now later (err x) h = refl
  answered-same ls now later panic h = refl

  at_most_three : (n : ℕ) → leb n 3 ≡ true → n ≤ 3
  at_most_three n p = ground (arith, p)

  is_four : (n : ℕ) → n ≤ 4 → leb n 3 ≡ false → n ≡ 4
  is_four n c p = ground (arith, c, p)

  on_tick-Follows :
      (ps : List PeerId) (n : ℕ) (d : e.Db) (asked : List PeerId) (now later : ℕ)
      (answer : Result CommitResponse)
      → IsCount ps n
      → IsSilent (ticked now answer later)
      → Follows (requests_left ps n) (on_tick (asking ps n) d asked now answer later)
  unfolding on_tick query_from
  on_tick-Follows [] n d asked now later answer c h = rw (three_or_less n c) tt
  on_tick-Follows (p ∷ ps) n d asked now later answer c h = elim (Bool-cases (leb n 3)) [
    | inl few ↦ rw few (
      p ∷ ps,
      n + 1,
      answered-same (asking (p ∷ ps) (n + 1)) now later answer h,
      omega (arith, at_most_three n few),
      omega (arith, at_most_three n few),
    )
    | inr many ↦ rw many (after_four ps (is_four n c many))
  ]
    where
      after_four :
          (qs : List PeerId)
          → n ≡ 4
          → Follows
              (requests_left (p ∷ qs) n)
              (ask (next_peer (asking (p ∷ qs) n) (some qs)) d asked answer later)
      after_four [] four = tt
      after_four (q ∷ qs) four = (
        q ∷ qs,
        1,
        answered-same (asking (q ∷ qs) 1) now later answer h,
        omega arith,
        omega (arith, four),
      )

module _ ⦃e : Backend⦄ (s : IsSound e) (k : Crypto) (node : EthNode) (t : Trade) (c : Commit)
    (start : ℕ) where
  received-same :
      (d : e.Db) (ls : LoadingState) (asked : List PeerId) (now : ℕ) (ev : NetworkEvent)
      → IsSilent (received now ev)
      → load_event k node d t c ls asked (received now ev) ≡ ok (d, loads t c ls asked, [])
  unfolding load_event
  received-same d ls asked now (commit_request p id (want_history a)) h = refl
  received-same d ls asked now (commit_request p id (update a cs last)) h = absurd h
  received-same d ls asked now (gossipsub_message_recv m) h = refl
  received-same d ls asked now (exchange_request p id r) h = refl
  received-same d ls asked now (new_listen_addr n a) h = refl

  heard_inputs :
      (evs : List (e.Db × LoopEvent))
      → All (IsHeard s) evs
      → All (HasWellFormed s k node) (map as_input evs)
  heard_inputs [] h = tt
  heard_inputs ((d, ev) ∷ evs) ((w, q), h) = (w, heard_inputs evs h)

  module _ (rest : List (e.Db × Given)) (ws : All (HasWellFormed s k node) rest)
      (m : 5 ≤ length rest) where
    after_silence :
        (evs : List (e.Db × LoopEvent))
        → All (IsHeard s) evs
        → among k node (notes t c) (map as_input evs ++ rest) ≡ ok (finished, [])
    after_silence evs h =
        notes_ends s k node t c (map as_input evs ++ rest)
          (All-append (HasWellFormed s k node) (map as_input evs) rest (heard_inputs evs h) ws)
          (omega (arith, m, length-append (map as_input evs) rest))

    abbrev steps_on : List (e.Db × LoopEvent) → Stepped → Result (Task × List CommitProcedureEvent)
    steps_on evs (d', t', out) =
        among k node t' (map as_input evs ++ rest) >>= λ (t'', later). ok (t'', out ++ later)

    -- What a tick leaves, if the steps after it end the loads with fewer requests left.
    tick_ends :
        (evs : List (e.Db × LoopEvent)) (m : ℕ) (p : Progress)
        → All (IsHeard s) evs
        → Follows start m p
        → ((ps : List PeerId) (n : ℕ) (asked : List PeerId)
            → suc (requests_left ps n) ≡ m
            → IsCount ps n
            → among k node (loads t c (asking start ps n) asked) (map as_input evs ++ rest)
              ≡ ok (finished, []))
        → after_tick t c p >>= steps_on evs ≡ ok (finished, [])
    tick_ends evs m (going ls d asked) h (ps, n, same, count, fewer) ih =
        let rest_ends = ih ps n asked fewer count in rw (same, rest_ends) refl
    tick_ends evs m (done r d asked) h q ih =
        let rest_ends = after_silence evs h in rw rest_ends refl
    tick_ends evs m panicked h q ih = absurd q

    silent_load_ends :
        (evs : List (e.Db × LoopEvent)) (ps : List PeerId) (n : ℕ) (asked : List PeerId)
        → All (IsHeard s) evs
        → requests_left ps n < ticks evs
        → IsCount ps n
        → among k node (loads t c (asking start ps n) asked) (map as_input evs ++ rest)
          ≡ ok (finished, [])
    unfolding among task_step load_event
    silent_load_ends [] ps n asked h less count = absurd (omega (arith, less))
    silent_load_ends ((d, received now ev) ∷ evs) ps n asked ((w, q), h) less count =
        let ih = silent_load_ends evs ps n asked h (omega (arith, less)) count in
        let same = received-same d (asking start ps n) asked now ev q in rw (same, ih) refl
    silent_load_ends ((d, ticked now answer later) ∷ evs) ps n asked ((w, q), h) less count =
        tick_ends evs (requests_left ps n) (on_tick (asking start ps n) d asked now answer later) h
          (on_tick-Follows start ps n d asked now later answer count q)
          (λ ps' n' asked' fewer. silent_load_ends evs ps' n' asked' h (omega (arith, less, fewer)))

module _ ⦃e : Backend⦄ (s : IsSound e) (k : Crypto) (node : EthNode) where
  -- A `verify` is over, and reports nothing, if none of its load's requests is acknowledged and no
  -- update comes from any peer: four ticks of the timer for each provider, and one more, are enough.
  -- The database is well formed before its third and fourth step, the events of the load and the
  -- steps that follow, whatever other tasks make of it; the network's events are to be had, and at
  -- least five steps follow those of the load.
  pub silent_verify_ends :
      (t : Trade) (c : Commit) (d₁ d₂ d₃ d₄ d₅ : e.Db) (ps : List PeerId) (start : ℕ)
      (evs : List (e.Db × LoopEvent)) (rest : List (e.Db × Given))
      → IsWellFormed s d₃
      → IsWellFormed s d₄
      → All (IsHeard s) evs
      → All (HasWellFormed s k node) rest
      → 4 * length ps < ticks evs
      → 5 ≤ length rest
      → among k node (verifies t c) (
          (d₁, nothing)
          ∷ (d₂, nothing)
          ∷ (d₃, nothing)
          ∷ (d₄, nothing)
          ∷ (d₅, looked_up (some ps) true start)
          ∷ (map (as_input) evs ++ rest))
        ≡ ok (finished, [])
  unfolding among task_step section
  silent_verify_ends t c d₁ d₂ d₃ d₄ d₅ ps start evs rest w₃ w₄ h ws less m =
      let t' : Trade = update_status t (to_processing t.status) in
      let loaded =
        silent_load_ends s k node t' c start rest ws m evs ps 0 [] h (none_yet ps (ticks evs) less)
          (no-IsCount ps) in
      elim (Result-cases (find_active_trade d₂ t.id)) [
        | inl (old, p) ↦ rw (p, get_wallets_of_interest_lem s d₄ w₄, loaded) refl
        | inr (inl (x, p)) ↦ rw (p, get_wallets_of_interest_lem s d₃ w₃, loaded) refl
        | inr (inr p) ↦ absurd (find_active_trade-ne-panic s d₂ t.id p)
      ]
