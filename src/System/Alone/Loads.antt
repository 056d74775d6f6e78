-- ===== src/System/Alone/Loads.antt =====
-- src/ch_request.rs: the loop of a load, as the steps of its task.
use dse.Base.{
  ℕ, ◌≡◌, refl, Bool, List, [], ◌∷◌, filter, if◌then◌else◌, Result, inl, inr, Result-cases,
}
use dse.Types.{Address, PeerId, Trade, Commit}
use dse.Types.Messages.{
  commit_request, update, CommitResponse, RequestId, want_history, exchange_request,
  gossipsub_message_recv, new_listen_addr,
}
use dse.Backend.{Backend}
use dse.Storage.{add_commits_to_commit_history}
use dse.Storage.Writes.{commits, write}
use dse.Storage.Locks.{starts}
use dse.Commit.{Crypto}
use dse.EthNode.{EthNode, owner_address, get_current_epoch}
use dse.Loading.{
  LoadingState, LoopEvent, received, ticked, Progress, going, done, panicked, on_tick, load_loop,
  load_step, ended, is_loadable, recorded, on_event,
}
use dse.Procedure.{CommitProcedureEvent}
use dse.System.Tasks.{Task, writes, loads, notes, load_event, loop_event, task_step}
use dse.System.Alone.{Drives, Drives-step, Drives-writes}

module _ ⦃e : Backend⦄ (k : Crypto) (node : EthNode) where
  -- A tick of a load, if the loop ends and its rest is run.
  after_tick-Drives :
      (d d₁ d₂ : e.Db) (t : Trade) (c : Commit) (ls : LoadingState) (asked asked' : List PeerId)
      (now : ℕ) (answer : Result CommitResponse) (later : ℕ) (events : List LoopEvent)
      (r : Result (Unit {0})) (t₂ : Task) (out : List CommitProcedureEvent) (q : Progress)
      → on_tick ls d asked now answer later ≡ q
      → load_loop k node c.wallet_address q events ≡ done r d₁ asked'
      → Drives k node d₁ (notes t c) d₂ t₂ out
      → ((ls' : LoadingState) (d' : e.Db) (asked'' : List PeerId)
          → load_loop k node c.wallet_address (going ls' d' asked'') events ≡ done r d₁ asked'
          → Drives k node d' (loads t c ls' asked'') d₂ t₂ out)
      → Drives k node d (loads t c ls asked) d₂ t₂ out
  unfolding load_loop task_step load_event
  after_tick-Drives d d₁ d₂ t c ls asked asked' now answer later events r t₂ out
        (going ls' d' asked'') h p rest next =
      Drives-step k node d d' d₂ (loads t c ls asked) (loads t c ls' asked'') t₂
        (loop_event (ticked now answer later)) [] out (rw h refl) (next ls' d' asked'' p)
  after_tick-Drives d d₁ d₂ t c ls asked asked' now answer later events r t₂ out
        (done r' d' asked'') h p rest next =
      let same : d' ≡ d₁ = cc in
      Drives-step k node d d₁ d₂ (loads t c ls asked) (notes t c) t₂
        (loop_event (ticked now answer later)) [] out (rw (h, same) refl) rest
  after_tick-Drives d d₁ d₂ t c ls asked asked' now answer later events r t₂ out panicked h p rest
        next =
      absurd (cc)

  -- An update that a load gets, if the loop ends and its rest is run.
  update-Drives :
      (d d₁ d₂ : e.Db) (t : Trade) (c : Commit) (ls : LoadingState) (asked asked' : List PeerId)
      (now : ℕ) (sender : PeerId) (id : RequestId) (updated : Address) (cs : List Commit)
      (last : Bool) (events : List LoopEvent) (r : Result (Unit {0})) (t₂ : Task)
      (out : List CommitProcedureEvent)
      → load_loop k node c.wallet_address
          (going ls d asked)
          (received now (commit_request sender id (update updated cs last)) ∷ events)
        ≡ done r d₁ asked'
      → ((ls' : LoadingState) (d' : e.Db)
          → load_loop k node c.wallet_address (going ls' d' asked) events ≡ done r d₁ asked'
          → Drives k node d' (loads t c ls' asked) d₂ t₂ out)
      → Drives k node d (loads t c ls asked) d₂ t₂ out
  unfolding load_loop load_step on_event task_step load_event write
  update-Drives d d₁ d₂ t c ls asked asked' now sender id updated cs last events r t₂ out p next =
      let ran : load_loop k node c.wallet_address
            (recorded ls (add_commits_to_commit_history d updated kept) asked now last) events
          ≡ done r d₁ asked' =
        p in
      elim (Result-cases (add_commits_to_commit_history d updated kept)) [
        | inl (d', q) ↦
            Drives-step k node d d d₂ (loads t c ls asked)
              (writes (starts (commits updated kept)) (loads t c after asked)) t₂
              (loop_event (received now (commit_request sender id (update updated cs last)))) [] out
              refl
              (Drives-writes k node d d' d₂ (commits updated kept) (loads t c after asked) t₂ out q
                (next after d' (rw q at ran)))
        | inr (inl (x, q)) ↦ absurd (crash (rw q at ran))
        | inr (inr q) ↦ absurd (crash (rw q at ran))
      ]
    where
      crash : load_loop k node c.wallet_address panicked events ≡ done r d₁ asked' → ⊥
      crash h = cc

      kept : List Commit
      kept =
          filter
            (is_loadable k node (get_current_epoch node c.wallet_address)
              (owner_address node c.wallet_address))
            cs

      after : LoadingState
      after = record ls { timeout = now; state = if last then ended else ls.state }

  pub load_loop-Drives :
      (d d₁ d₂ : e.Db) (t : Trade) (c : Commit) (ls : LoadingState) (asked asked' : List PeerId)
      (events : List LoopEvent) (r : Result (Unit {0})) (t₂ : Task)
      (out : List CommitProcedureEvent)
      → load_loop k node c.wallet_address (going ls d asked) events ≡ done r d₁ asked'
      → Drives k node d₁ (notes t c) d₂ t₂ out
      → Drives k node d (loads t c ls asked) d₂ t₂ out
  unfolding load_loop load_step on_event
  load_loop-Drives d d₁ d₂ t c ls asked asked' [] r t₂ out p rest = absurd (cc)
  load_loop-Drives d d₁ d₂ t c ls asked asked'
        (received now (commit_request sender id (update updated cs last)) ∷ events) r t₂ out p
        rest =
      update-Drives d d₁ d₂ t c ls asked asked' now sender id updated cs last events r t₂ out p
        (λ ls' d' q. load_loop-Drives d' d₁ d₂ t c ls' asked asked' events r t₂ out q rest)
  load_loop-Drives d d₁ d₂ t c ls asked asked'
        (received now (commit_request sender id (want_history a)) ∷ events) r t₂ out p rest =
      load_loop-Drives d d₁ d₂ t c ls asked asked' events r t₂ out p rest
  load_loop-Drives d d₁ d₂ t c ls asked asked' (received now (gossipsub_message_recv m) ∷ events) r
        t₂ out p rest =
      load_loop-Drives d d₁ d₂ t c ls asked asked' events r t₂ out p rest
  load_loop-Drives d d₁ d₂ t c ls asked asked' (received now (exchange_request q id x) ∷ events) r
        t₂ out p rest =
      load_loop-Drives d d₁ d₂ t c ls asked asked' events r t₂ out p rest
  load_loop-Drives d d₁ d₂ t c ls asked asked' (received now (new_listen_addr n a) ∷ events) r t₂
        out p rest =
      load_loop-Drives d d₁ d₂ t c ls asked asked' events r t₂ out p rest
  load_loop-Drives d d₁ d₂ t c ls asked asked' (ticked now answer later ∷ events) r t₂ out p rest =
      after_tick-Drives d d₁ d₂ t c ls asked asked' now answer later events r t₂ out
        (on_tick ls d asked now answer later) refl p rest
        (λ ls' d' asked'' q.
          load_loop-Drives d' d₁ d₂ t c ls' asked'' asked' events r t₂ out q rest)
