-- ===== src/System/Safety.antt =====
-- The tasks of a node: no step of one panics on a well-formed database, and each `send` ends in one
-- report.
use dse.Base.{
  ℕ, ◌+◌, ◌≡◌, refl, true, false, List, [], ◌∷◌, Option, none, some, ◌==◌, Ensures, Ensures-bind,
  arith, inl,
}
use dse.Base.Maps.{one_if}
use dse.Types.{PeerId, Query, Trade, Commit, is_sending_status}
use dse.Types.Messages.{
  ack, bad, commit_request, update, want_history, exchange_request, gossipsub_message_recv,
  new_listen_addr,
}
use dse.Backend.{Backend, IsSound}
use dse.Storage.Invariant.{IsWellFormed}
use dse.Storage.Histories.{find_commit_history_ok}
use dse.Storage.Writes.{get_wallets_of_interest_lem}
use dse.Storage.Locks.{Thread, section}
use dse.Storage.Locks.Races.{IsReady, Continues, section-Continues}
use dse.Commit.{Crypto}
use dse.EthNode.{EthNode}
use dse.Loading.{
  LoadingState, LoopEvent, received, ticked, Progress, going, done, panicked, on_tick,
}
use dse.Loading.Updates.{HasPeer, IsFine, on_tick-IsFine}
use dse.Procedure.{CommitProcedureEvent, send_success, send_failed}
use dse.Procedure.Send.{outgoing_ok}
use dse.System.Tasks.{
  Task, finished, writes, sends, reports, verifies, looks, asks, loads, checks, publishes, offers,
  Given, nothing, accepted, refused, responded, looked_up, loop_event, after_answer, begin_load,
  after_publication, after_offer, written, after_tick, Stepped, load_event, task_step,
}

-- A task that can take its next step.
abbrev pub CanStep : Task → Type 0
CanStep (writes thread next) = IsReady (some thread) × CanStep next
CanStep (sends t) = is_sending_status t ≡ true
CanStep (loads t c ls asked) = HasPeer ls
CanStep _ = Unit

-- How many reports on the sending of a trade a task will make, and how many are in a list.
abbrev pub reports_on : ℕ → CommitProcedureEvent → ℕ
reports_on id (send_success n) = one_if (n == id)
reports_on id (send_failed n) = one_if (n == id)

abbrev pub reported : ℕ → List CommitProcedureEvent → ℕ
reported id [] = 0
reported id (ev ∷ evs) = reports_on id ev + reported id evs

abbrev pub will_report : ℕ → Task → ℕ
will_report id (writes thread next) = will_report id next
will_report id (sends t) = one_if (t.id == id)
will_report id (reports ev) = reports_on id ev
will_report id _ = 0

module _ ⦃e : Backend⦄ (s : IsSound e) where
  -- What a step leaves of a task.
  pub record Leaves (before : Task) (after : Stepped) : Type 0 where
    pub sound : IsWellFormed s after.0
    pub goes_on : CanStep after.1
    pub balance : (id : ℕ) → will_report id after.1 + reported id after.2 ≡ will_report id before

  module _ (k : Crypto) (node : EthNode) (d : e.Db) (w : IsWellFormed s d) where
    leaves :
        (before after : Task)
        → CanStep after
        → ((id : ℕ) → will_report id after ≡ will_report id before)
        → Leaves before (d, after, [])
    leaves before after h b = record { sound = w; goes_on = h; balance = λ id. omega (arith, b id) }

    after_answer-Leaves :
        (t : Trade) (g : Given)
        → is_sending_status t ≡ true
        → Leaves (sends t) (d, after_answer t g, [])
    after_answer-Leaves t (responded r) h = leaves _ _ (tt, tt) (λ id. omega arith)
    after_answer-Leaves t refused h = leaves _ _ tt (λ id. omega arith)
    after_answer-Leaves t nothing h = leaves _ _ h (λ id. omega arith)
    after_answer-Leaves t accepted h = leaves _ _ h (λ id. omega arith)
    after_answer-Leaves t (looked_up _ _ _) h = leaves _ _ h (λ id. omega arith)
    after_answer-Leaves t (loop_event _) h = leaves _ _ h (λ id. omega arith)

    begin_load-Leaves :
        (t : Trade) (c : Commit) (g : Given) → Leaves (asks t c) (d, begin_load t c g, [])
    begin_load-Leaves t c (looked_up (some peers) true now) =
        leaves _ _ (inl (omega arith)) (λ id. omega arith)
    begin_load-Leaves t c (looked_up (some peers) false now) =
        leaves _ _ (tt, tt) (λ id. omega arith)
    begin_load-Leaves t c (looked_up none _ now) = leaves _ _ (tt, tt) (λ id. omega arith)
    begin_load-Leaves t c nothing = leaves _ _ tt (λ id. omega arith)
    begin_load-Leaves t c _ = leaves _ _ tt (λ id. omega arith)

    after_publication-Leaves :
        (q : Query) (g : Given) → Leaves (publishes q) (d, after_publication q g, [])
    after_publication-Leaves q accepted = leaves _ _ (tt, tt) (λ id. omega arith)
    after_publication-Leaves q refused = leaves _ _ tt (λ id. omega arith)
    after_publication-Leaves q _ = leaves _ _ tt (λ id. omega arith)

    after_offer-Leaves : (t : Trade) (g : Given) → Leaves (offers t) (d, after_offer t g, [])
    after_offer-Leaves t (responded ack) = leaves _ _ (tt, tt) (λ id. omega arith)
    after_offer-Leaves t (responded bad) = leaves _ _ tt (λ id. omega arith)
    after_offer-Leaves t refused = leaves _ _ tt (λ id. omega arith)
    after_offer-Leaves t _ = leaves _ _ tt (λ id. omega arith)

    after_tick-Leaves :
        (t : Trade) (c : Commit) (ls : LoadingState) (asked : List PeerId) (p : Progress)
        → IsFine s p
        → Ensures (Leaves (loads t c ls asked)) (after_tick t c p)
    after_tick-Leaves t c ls asked (going ls' d' asked') (h, w') = record {
      sound = w';
      goes_on = h;
      balance = λ id. refl;
    }
    after_tick-Leaves t c ls asked (done r d' asked') w' = record {
      sound = w';
      goes_on = (tt, tt);
      balance = λ id. refl;
    }
    after_tick-Leaves t c ls asked panicked h = absurd h

    written-Leaves :
        (thread : Thread) (next : Task) (a : e.Db × Option Thread)
        → CanStep next
        → Continues s a
        → Ensures (Leaves (writes thread next)) (written next a)
    written-Leaves thread next (d', none) h (w', r) = record {
      sound = w';
      goes_on = h;
      balance = λ id. omega arith;
    }
    written-Leaves thread next (d', some t) h (w', r) = record {
      sound = w';
      goes_on = (r, h);
      balance = λ id. omega arith;
    }

    load_event-Leaves :
        (t : Trade) (c : Commit) (ls : LoadingState) (asked : List PeerId) (ev : LoopEvent)
        → HasPeer ls
        → Ensures (Leaves (loads t c ls asked)) (load_event k node d t c ls asked ev)
    unfolding load_event
    load_event-Leaves t c ls asked
          (received now (commit_request sender id (update updated cs last))) h =
        leaves _ _ (tt, h) (λ id. refl)
    load_event-Leaves t c ls asked (received now (commit_request sender id (want_history a))) h =
        leaves _ _ h (λ id. refl)
    load_event-Leaves t c ls asked (received now (gossipsub_message_recv m)) h =
        leaves _ _ h (λ id. refl)
    load_event-Leaves t c ls asked (received now (exchange_request p id r)) h =
        leaves _ _ h (λ id. refl)
    load_event-Leaves t c ls asked (received now (new_listen_addr n a)) h =
        leaves _ _ h (λ id. refl)
    load_event-Leaves t c ls asked (ticked now answer later) h =
        after_tick-Leaves t c ls asked (on_tick ls d asked now answer later)
          (on_tick-IsFine s ls d asked now answer later h w)

    pub task_step-Leaves :
        (task : Task) (g : Given) → CanStep task → Ensures (Leaves task) (task_step k node d task g)
    unfolding task_step
    task_step-Leaves finished g h = leaves _ _ tt (λ id. refl)
    task_step-Leaves (writes thread next) g (r, h) =
        Ensures-bind (Continues s) (Leaves (writes thread next)) (section d thread) (written next)
          (section-Continues s d thread w r) (λ a c. written-Leaves thread next a h c)
    task_step-Leaves (sends t) g h =
        let (r, p) = outgoing_ok s t h in rw p (after_answer-Leaves t g h)
    task_step-Leaves (reports ev) g h = record {
      sound = w;
      goes_on = tt;
      balance = λ id. omega arith;
    }
    task_step-Leaves (verifies t c) g h = leaves _ _ (tt, tt) (λ id. refl)
    task_step-Leaves (looks t c) g h =
        rw (get_wallets_of_interest_lem s d w) (leaves (looks t c) (asks t c) tt (λ id. refl))
    task_step-Leaves (asks t c) g h = begin_load-Leaves t c g
    task_step-Leaves (loads t c ls asked) (loop_event ev) h = load_event-Leaves t c ls asked ev h
    task_step-Leaves (loads t c ls asked) nothing h = leaves _ _ h (λ id. refl)
    task_step-Leaves (loads t c ls asked) _ h = leaves _ _ h (λ id. refl)
    task_step-Leaves (checks t c) g h =
        let (found, p) = find_commit_history_ok s d c.wallet_address w in
        rw p (leaves _ _ (tt, tt) (λ id. refl))
    task_step-Leaves (publishes q) g h = after_publication-Leaves q g
    task_step-Leaves (offers t) g h = after_offer-Leaves t g
