-- ===== src/Loading.antt =====
-- src/ch_request.rs: a wallet's commit history is asked of peers, one after the other. The loop is
-- run over the list of what its `select!` receives: network events, and ticks of the timer with the
-- peer's answer to a request, if the tick makes one. Times are nanoseconds.
pub mod Peers
pub mod Updates
pub mod Keeps
pub mod Picks
pub mod Requests
use dse.Base.{
  ℕ, ◌+◌, ◌-◌, ◌/◌, ◌^◌, ◌≤◌, Bool, true, false, not, ◌&&◌, ◌||◌, List, [], ◌∷◌, ◌++◌, Option, none,
  some, leb, ltb, ◌==◌, if◌then◌else◌, filter, Result, ok, err, panic, network_failed,
}
use dse.Types.{Address, PeerId, Commit}
use dse.Types.Messages.{
  NetworkEvent, commit_request, update, CommitResponse, commit_ack, commit_bad,
}
use dse.Backend.{Backend}
use dse.Storage.{add_commits_to_commit_history}
use dse.Commit.{Crypto, signing_address, is_signed_by}
use dse.EthNode.{EthNode, owner_address, get_current_epoch}

pub data State : Type 0 where
  pending in_progress ended : State

pub record LoadingState : Type 0 where
  pub peers : List PeerId
  pub request_count : ℕ
  pub loading_in_progress : Bool
  pub timeout : ℕ
  pub state : State

-- `peers.remove(0)`, which panics on an empty list.
abbrev pub remove_first : List PeerId → Option (List PeerId)
remove_first [] = none
remove_first (p ∷ ps) = some ps

abbrev pub first : List PeerId → Option PeerId
first [] = none
first (p ∷ ps) = some p

abbrev pub next_peer : LoadingState → Option (List PeerId) → Result (LoadingState × Option PeerId)
next_peer ls none = panic
next_peer ls (some ps) = ok (record ls { request_count = 1; peers = ps }, first ps)

unfoldable pub query_from : LoadingState → Result (LoadingState × Option PeerId)
query_from ls =
    if leb ls.request_count 3
    then ok (record ls { request_count = ls.request_count + 1 }, first ls.peers)
    else next_peer ls (remove_first ls.peers)

abbrev pub initial_state : List PeerId → ℕ → LoadingState
initial_state peers now = record {
  peers = peers;
  request_count = 0;
  loading_in_progress = false;
  timeout = now;
  state = pending;
}

-- `timeout.elapsed().map_or_else(|_| true, |e| e.as_secs() > 30)`: a clock that went back counts as
-- run out.
abbrev pub has_timed_out : ℕ → ℕ → Bool
has_timed_out now timeout = if leb timeout now then ltb 30 ((now - timeout) / 10 ^ 9) else true

abbrev pub is_pending : State → Bool
is_pending pending = true
is_pending _ = false

pub data LoopEvent : Type 0 where
  received : ℕ → NetworkEvent → LoopEvent
  -- The time, the answer to the request, and the time of the answer.
  ticked : ℕ → Result CommitResponse → ℕ → LoopEvent

module _ ⦃e : Backend⦄ where
  -- Where the loop stands after some events: it goes on, with the peers asked so far, latest first;
  -- or it has returned; or it has panicked.
  pub data Progress : Type 0 where
    going : LoadingState → e.Db → List PeerId → Progress
    done : Result (Unit {0}) → e.Db → List PeerId → Progress
    panicked : Progress

  abbrev pub answered : LoadingState → Result CommitResponse → ℕ → LoadingState
  answered ls (ok commit_ack) later = record ls { timeout = later; state = in_progress }
  answered ls _ later = ls

  abbrev pub ask :
      Result (LoadingState × Option PeerId)
      → e.Db
      → List PeerId
      → Result CommitResponse
      → ℕ
      → Progress
  ask (ok (ls, some peer)) d asked answer later = going (answered ls answer later) d (peer ∷ asked)
  ask (ok (ls, none)) d asked answer later = done (ok tt) d asked
  ask _ d asked answer later = panicked

  -- The arm of the timer.
  unfoldable pub on_tick :
      LoadingState → e.Db → List PeerId → ℕ → Result CommitResponse → ℕ → Progress
  unfolding query_from
  on_tick ls d asked now answer later = elim ls.state [
    | ended ↦ done (ok tt) d asked
    | other ↦
        if is_pending other || has_timed_out now ls.timeout
        then ask (query_from ls) d asked answer later
        else going ls d asked
  ]

  abbrev pub recorded : LoadingState → Result e.Db → List PeerId → ℕ → Bool → Progress
  recorded ls (ok d) asked now last_batch =
      going (record ls { timeout = now; state = if last_batch then ended else ls.state }) d asked
  recorded ls _ asked now last_batch = panicked

  module _ (k : Crypto) (node : EthNode) where
    -- The commits of an update that are kept.
    unfoldable pub is_loadable : ℕ → Address → Commit → Bool
    is_loadable epoch owner c = c.epoch == epoch && is_signed_by (signing_address k c) owner

    -- The arm of the network. The wallet of the update is its own, not the one asked for.
    unfoldable pub on_event :
        Address → LoadingState → e.Db → List PeerId → ℕ → NetworkEvent → Progress
    unfolding is_loadable
    on_event wallet ls d asked now (commit_request sender id (update updated commits last_batch)) =
        recorded ls
          (add_commits_to_commit_history d updated (
            filter (is_loadable (get_current_epoch node wallet) (owner_address node wallet))
              commits))
          asked now last_batch
    on_event wallet ls d asked now _ = going ls d asked

    unfoldable pub load_step : Address → LoadingState → e.Db → List PeerId → LoopEvent → Progress
    unfolding on_event on_tick
    load_step wallet ls d asked (received now event) = on_event wallet ls d asked now event
    load_step wallet ls d asked (ticked now answer later) = on_tick ls d asked now answer later

    unfoldable pub load_loop : Address → Progress → List LoopEvent → Progress
    unfolding load_step
    load_loop wallet (going ls d asked) (event ∷ events) =
        load_loop wallet (load_step wallet ls d asked event) events
    load_loop wallet p _ = p

    -- The answer of the DHT, whether the subscription to network events succeeds, and the events.
    unfoldable pub load_commit_history :
        Result (List PeerId) → Bool → ℕ → e.Db → Address → List LoopEvent → Progress
    unfolding load_loop
    load_commit_history (ok peers) true now d wallet events =
        load_loop wallet (going (initial_state peers now) d []) events
    load_commit_history _ _ now d wallet events = done (err network_failed) d []
