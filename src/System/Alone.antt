-- ===== src/System/Alone.antt =====
-- src/commit_procedure.rs: the procedures as whole runs, and as tasks with nothing in between.
pub mod Loads
pub mod Verifies
pub mod Turns
use dse.Base.{
  ℕ, ◌≡◌, refl, sym, ◌∙◌, ap, subst, Bool, true, false, List, [], ◌∷◌, ◌++◌, filter, Option, none,
  some, if◌then◌else◌, Result, ok, err, panic, ◌>>=◌, arith, inl, inr, Result-cases, bind_ok, ◌⊎◌,
  network_failed, Bool-cases,
}
use dse.Types.{Address, PeerId, Trade, update_status, Commit}
use dse.Types.Messages.{
  ExchangeResponse, NetworkEvent, commit_request, update, CommitResponse, RequestId, want_history,
  exchange_request, gossipsub_message_recv, new_listen_addr,
}
use dse.Backend.{Backend, IsSound}
use dse.Storage.{
  get_wallets_of_interest, exists, find_commit_history, find_active_trade, update_active_trade,
  ignore_err, add_wallet_of_interest, add_commits_to_commit_history,
}
use dse.Storage.Invariant.{IsWellFormed}
use dse.Storage.Writes.{Write, wallet_of_interest, commits, trade_update, write}
use dse.Storage.Locks.{Thread, starts, section, finish}
use dse.Storage.Locks.Sections.{finish-section, section-RestIsLast, section-IsLast}
use dse.Commit.{Crypto}
use dse.EthNode.{EthNode, owner_address, get_current_epoch}
use dse.Loading.{
  LoadingState, LoopEvent, received, ticked, Progress, going, done, panicked, on_tick, load_loop,
  load_step, initial_state, ended, is_loadable, recorded, on_event, load_commit_history,
}
use dse.Procedure.{
  CommitProcedureEvent, send_success, send_failed, to_waiting, to_processing, to_send, outgoing,
  send, verify, verified, update_trade_waiting_status, update_trade_processing_status, after_load,
  settled, Verification, crashed, track, after_processing, update_trade_send_status, finish_verify,
}
use dse.System.Tasks.{
  Task, finished, writes, sends, reports, verifies, looks, asks, loads, checks, save, notes,
  Stepped, load_event, Given, nothing, accepted, refused, responded, looked_up, loop_event,
  task_step, written,
}

module _ ⦃e : Backend⦄ (k : Crypto) (node : EthNode) where
  -- The steps of one task, with nothing in between, and all that it reports.
  unfoldable pub drive : e.Db → Task → List Given → Result Stepped
  unfolding task_step
  drive d t [] = ok (d, t, [])
  drive d t (g ∷ gs) = task_step k node d t g >>= λ (d', t', now).
      drive d' t' gs >>= λ (d'', t'', later). ok (d'', t'', now ++ later)

  -- Some steps of a task alone lead from a database to another, and to the rest of the task.
  pub record Drives (d : e.Db) (t : Task) (d' : e.Db) (t' : Task) (out : List CommitProcedureEvent)
      : Type 0 where
    pub given : List Given
    pub drives : drive d t given ≡ ok (d', t', out)

  pub Drives-stop : (d : e.Db) (t : Task) → Drives d t d t []
  unfolding drive
  Drives-stop d t = record { given = []; drives = refl }

  pub Drives-step :
      (d d₁ d₂ : e.Db) (t t₁ t₂ : Task) (g : Given) (now later : List CommitProcedureEvent)
      → task_step k node d t g ≡ ok (d₁, t₁, now)
      → Drives d₁ t₁ d₂ t₂ later
      → Drives d t d₂ t₂ (now ++ later)
  unfolding drive
  Drives-step d d₁ d₂ t t₁ t₂ g now later p r = record {
    given = g ∷ r.given;
    drives = rw (p, r.drives) refl;
  }

  -- A call of the storage that succeeds.
  pub Drives-writes :
      (d d₁ d₂ : e.Db) (x : Write) (next t₂ : Task) (out : List CommitProcedureEvent)
      → write d x ≡ ok d₁
      → Drives d₁ next d₂ t₂ out
      → Drives d (writes (starts x) next) d₂ t₂ out
  unfolding task_step
  Drives-writes d d₁ d₂ x next t₂ out p r =
      by_section (section d (starts x)) refl (finish-section d x ∙ p)
    where
      by_section :
          (a : Result (e.Db × Option Thread))
          → section d (starts x) ≡ a
          → finish a ≡ ok d₁
          → Drives d (writes (starts x) next) d₂ t₂ out
      by_section (ok (d', none)) q h =
          let same : d' ≡ d₁ = cc in
          Drives-step d d₁ d₂ (writes (starts x) next) next t₂ nothing [] out
            (ground (arith, q, same)) r
      by_section (ok (d', some t)) q h =
          let (d'', u) = section-IsLast d' t (rw q at (section-RestIsLast d x)) in
          let same : d'' ≡ d₁ = ground (arith, h, u) in
          Drives-step d d' d₂ (writes (starts x) next) (writes t next) t₂ nothing [] out
            (ground (arith, q))
            (Drives-step d' d₁ d₂ (writes t next) next t₂ nothing [] out (ground (arith, u, same))
              r)
      by_section (err x) q h = absurd (cc)
      by_section panic q h = absurd (cc)

  -- A send with an answer, and one without.
  abbrev pub given_answer : Result ExchangeResponse → Given
  given_answer (ok r) = responded r
  given_answer _ = refused

  pub send-Drives :
      (d d' : e.Db) (t : Trade) (answer : Result ExchangeResponse) (ev : CommitProcedureEvent)
      → send d t answer ≡ ok (d', ev)
      → Drives d (sends t) d' finished (ev ∷ [])
  unfolding send update_trade_waiting_status task_step write
  send-Drives d d' t (ok r) ev p =
      let (sent, q, p₁) = bind_ok (outgoing t) _ p in
      let t' = update_status t (to_waiting t.status) in
      let (d₁, u, p₂) = bind_ok (ignore_err d (update_active_trade d t')) _ p₁ in
      let same : d₁ ≡ d' = cc in
      let event : send_success t.id ≡ ev = cc in
      Drives-step d d d' (sends t) (save t' (reports (send_success t.id))) finished (responded r) []
        (ev ∷ []) (rw q refl)
        (Drives-writes d d₁ d' (trade_update t') (reports (send_success t.id)) finished (ev ∷ []) u
          (Drives-step d₁ d' d' (reports (send_success t.id)) finished finished nothing (ev ∷ []) []
            (rw (same, event) refl) (Drives-stop d' finished)))
  send-Drives d d' t (err x) ev p =
      let (sent, q, p₁) = bind_ok (outgoing t) _ p in
      let same : d ≡ d' = cc in
      let event : send_failed t.id ≡ ev = cc in
      Drives-step d d d' (sends t) (reports (send_failed t.id)) finished refused [] (ev ∷ [])
        (rw q refl)
        (Drives-step d d' d' (reports (send_failed t.id)) finished finished nothing (ev ∷ []) []
          (rw (same, event) refl) (Drives-stop d' finished))
  send-Drives d d' t panic ev p = let (sent, q, p₁) = bind_ok (outgoing t) _ p in absurd (cc)

  pub finish_verify-Drives :
      (d d' : e.Db) (t : Trade) (c : Commit)
      → finish_verify d t c ≡ ok d'
      → Drives d (checks t c) d' finished []
  unfolding finish_verify update_trade_send_status task_step write
  finish_verify-Drives d d' t c p =
      let (found, q, p₁) = bind_ok (find_commit_history d c.wallet_address) _ p in
      let t' = update_status t (to_send t.status) in
      Drives-step d d d' (checks t c) (save t' finished) finished nothing [] [] (ground (arith, q))
        (Drives-writes d d' d' (trade_update t') finished finished [] p₁ (Drives-stop d' finished))
