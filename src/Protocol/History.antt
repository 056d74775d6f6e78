-- ===== src/Protocol/History.antt =====
-- src/ch_request.rs and src/indexer.rs: a node loads the history of a wallet from a peer's indexer.
use dse.Base.{
  ℕ, ◌≡◌, refl, ap, true, List, [], ◌∷◌, ◌++◌, map, filter, Option, none, some, Result, ok, err,
  ◌>>=◌, network_failed, ◌⊎◌, inl, inr, arith,
}
use dse.Base.Bytes.{bytes_eq_self}
use dse.Types.{Address, PeerId, Commit, CommitHistory}
use dse.Types.Messages.{
  RequestId, NetworkEvent, commit_request, want_history, update, CommitResponse, commit_ack,
}
use dse.Backend.{Backend, IsSound}
use dse.Storage.{add_commits_to_commit_history, find_commit_history}
use dse.Storage.Invariant.{IsWellFormed}
use dse.Storage.Histories.{add_commits_to_commit_history_lem, commits_of, history_with}
use dse.Loading.Picks.{Picks, IsOfOwner, filter-Picks}
use dse.Commit.{Crypto}
use dse.EthNode.{EthNode, owner_address, get_current_epoch}
use dse.Loading.{
  LoadingState, LoopEvent, received, ticked, Progress, going, done, answered, in_progress, recorded,
  load_loop, load_step, on_event, on_tick, query_from, initial_state, is_loadable,
  load_commit_history,
}
use dse.Indexer.{Effect, respond_commit, request_commit, handle_network_event}
use dse.Indexer.Handlers.{on_want_history_lem}

-- The response that the peer's indexer sends, and the requests that it makes in turn.
abbrev pub answer_of : List Effect → Result CommitResponse
answer_of [] = err network_failed
answer_of (respond_commit p id r ∷ es) = ok r
answer_of (_ ∷ es) = answer_of es

abbrev pub requests_of : PeerId → RequestId → List Effect → List NetworkEvent
requests_of from id [] = []
requests_of from id (request_commit p r ∷ es) = commit_request from id r ∷ requests_of from id es
requests_of from id (_ ∷ es) = requests_of from id es

-- The times of the three ticks and of what comes between them.
pub record Times : Type 0 where
  pub start : ℕ
  pub first_tick : ℕ
  pub answered_at : ℕ
  pub update_at : ℕ
  pub second_tick : ℕ
  pub end : ℕ

module _ ⦃e : Backend⦄ (k : Crypto) (node : EthNode) where
  -- The events of a load whose first request the peer answers; `late` is the answer to a request of
  -- the second tick.
  abbrev pub round_events :
      PeerId → RequestId → Times → Result CommitResponse → List Effect → List LoopEvent
  round_events peer id at late effects =
      ticked at.first_tick (answer_of effects) at.answered_at
        ∷ map (received at.update_at) (requests_of peer id effects)
      ++ ticked at.second_tick late at.end ∷ []

  -- The peer's database, and where the load stands.
  unfoldable pub history_round :
      e.Db
      → e.Db
      → PeerId
      → PeerId
      → RequestId
      → RequestId
      → Address
      → Times
      → Result CommitResponse
      → Result (e.Db × Progress)
  unfolding handle_network_event load_commit_history
  history_round ours theirs self peer id id' wallet at late =
      handle_network_event theirs (commit_request self id (want_history wallet)) >>= λ (d, effects).
      ok (
        d,
        load_commit_history k node (ok (peer ∷ [])) true at.start ours wallet
            (round_events peer id' at late effects),
      )

  -- The load, if the peer acknowledges the request and sends some commits.
  granted :
      (ours ours' : e.Db) (peer self : PeerId) (id id' : RequestId) (wallet : Address) (at : Times)
      (late : Result CommitResponse) (cs : List Commit)
      → add_commits_to_commit_history ours wallet (
          filter
            (is_loadable k node (get_current_epoch node wallet) (owner_address node wallet))
            cs)
        ≡ ok ours'
      → load_commit_history k node (ok (peer ∷ [])) true at.start ours wallet (
          round_events peer id' at late
            (respond_commit self id commit_ack ∷ request_commit self (update wallet cs true) ∷ []))
        ≡ done (ok tt) ours' (peer ∷ [])
  unfolding load_commit_history load_loop load_step on_event on_tick query_from
  granted ours ours' peer self id id' wallet at late cs r =
      ap
        (λ x.
          load_loop k node wallet
            (recorded
              (record (initial_state (peer ∷ []) at.start) {
                request_count = 1;
                timeout = at.answered_at;
                state = in_progress;
              })
              x (peer ∷ []) at.update_at true)
            (ticked at.second_tick late at.end ∷ []))
        r

  module _ (s : IsSound e) where
    -- A load from one peer, with the peer's indexer on the other side, both databases well formed. If the peer has no history of
    -- the wallet, the node's database stays as it is and the second tick asks the same peer again.
    -- If it has one, the load ends well with one request made, the peer's database is as before, and
    -- the node then finds its own commits of the wallet followed by all those of the peer, in
    -- their order, that are of the current epoch and signed by the wallet's owner.
    pub history_round_lem :
        (ours theirs : e.Db) (self peer : PeerId) (id id' : RequestId) (wallet : Address)
        (at : Times) (late : Result CommitResponse) (found : Option CommitHistory)
        → IsWellFormed s ours
        → IsWellFormed s theirs
        → find_commit_history ours wallet ≡ ok found
        → ((find_commit_history theirs wallet ≡ ok none)
            × ((ls : LoadingState) × (history_round ours theirs self peer id id' wallet at late
                  ≡ ok (theirs, going ls ours (peer ∷ peer ∷ [])))))
          ⊎ ((h : CommitHistory) × (ours' : e.Db) × (find_commit_history theirs wallet
                ≡ ok (some h))
              × (history_round ours theirs self peer id id' wallet at late
                  ≡ ok (theirs, done (ok tt) ours' (peer ∷ [])))
              × IsWellFormed s ours'
              × ((kept : List Commit) × Picks (IsOfOwner k node wallet) h.commits kept
                  × (find_commit_history ours' wallet
                      ≡ ok (some (history_with wallet (commits_of found ++ kept))))))
    unfolding history_round load_commit_history
    history_round_lem ours theirs self peer id id' wallet at late found w w' p =
        elim (on_want_history_lem s theirs self id wallet w') [
          | inl (q, absent) ↦ inl (
            absent,
            (
              answered (record (initial_state (peer ∷ []) at.start) { request_count = 2 }) late
                  at.end,
              rw q refl,
            ),
          )
          | inr (h, known, same, q) ↦
              let kept =
                filter
                  (is_loadable k node (get_current_epoch node wallet) (owner_address node wallet))
                  h.commits in
              let (ours', r, w₁, f) =
                add_commits_to_commit_history_lem s ours wallet kept wallet found w p in
              inr (
                h,
                ours',
                known,
                rw q (
                    ap (λ x. ok (theirs, x))
                      (granted ours ours' peer self id id' wallet at late h.commits r)),
                w₁,
                (
                  kept,
                  filter-Picks k node wallet h.commits,
                  ground (arith, f, bytes_eq_self wallet),
                ),
              )
        ]
