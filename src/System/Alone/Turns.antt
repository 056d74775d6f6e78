-- ===== src/System/Alone/Turns.antt =====
-- src/main.rs: a procedure that nothing interrupts, as a run of the whole node.
use dse.Base.{ℕ, ◌≡◌, refl, sym, ◌∙◌, ap, Bool, List, [], ◌∷◌, ◌++◌, Result, ok, bind_ok}
use mathlib.Core.List.{append-nil, append_assoc}
use dse.Types.{PeerId, Trade, Commit}
use dse.Types.Messages.{ExchangeResponse}
use dse.Backend.{Backend}
use dse.Commit.{Crypto}
use dse.EthNode.{EthNode}
use dse.Loading.{LoopEvent}
use dse.Procedure.{CommitProcedureEvent, send, verify, verified}
use dse.System.{System, Turn, task, task_at, step, run}
use dse.System.Tasks.{Task, finished, sends, verifies, Given, task_step}
use dse.System.Alone.{drive, send-Drives}
use dse.System.Alone.Verifies.{verify-Drives}

abbrev pub turns : List Given → List Turn
turns [] = []
turns (g ∷ gs) = task 0 g ∷ turns gs

module _ ⦃e : Backend⦄ where
  -- A node whose latest task is the given one.
  abbrev pub busy : List ℕ → List Task → e.Db → Task → List CommitProcedureEvent → System
  busy active ts d t reports = record { db = d; active = active; tasks = t ∷ ts; reports = reports }

  module _ (k : Crypto) (node : EthNode) (active : List ℕ) (ts : List Task) where
    run-drive :
        (d d' : e.Db) (t t' : Task) (gs : List Given) (before out : List CommitProcedureEvent)
        → drive k node d t gs ≡ ok (d', t', out)
        → run k node (busy active ts d t before) (turns gs)
          ≡ ok (busy active ts d' t' (before ++ out))
    unfolding run step task_at drive
    run-drive d d' t t' [] before out p =
        let db : d ≡ d' = cc in
        let task : t ≡ t' = cc in
        let none_yet : [] ≡ out = cc in rw (db, task, sym none_yet, append-nil before) refl
    run-drive d d' t t' (g ∷ gs) before out p =
        let ((d₁, t₁, now), q, p₁) = bind_ok (task_step k node d t g) _ p in
        let ((d₂, t₂, later), r, p₂) = bind_ok (drive k node d₁ t₁ gs) _ p₁ in
        let rest = run-drive d₁ d₂ t₁ t₂ gs (before ++ now) later r in
        let db : d₂ ≡ d' = cc in
        let left : t₂ ≡ t' = cc in
        let all : now ++ later ≡ out = cc in
        rw (q, rest, db, left, sym all) (rw (append_assoc before now later) refl)

    -- A whole `send`, as steps of its task alone.
    pub send-run :
        (d d' : e.Db) (t : Trade) (answer : Result ExchangeResponse) (ev : CommitProcedureEvent)
        (before : List CommitProcedureEvent)
        → send d t answer ≡ ok (d', ev)
        → (gs : List Given) × (run k node (busy active ts d (sends t) before) (turns gs)
            ≡ ok (busy active ts d' finished (before ++ (ev ∷ []))))
    send-run d d' t answer ev before p =
        let r = send-Drives k node d d' t answer ev p in
        (r.given, run-drive d d' (sends t) finished r.given before (ev ∷ []) r.drives)

    -- Whatever a verification does as a whole run that comes to its end, with the answers and events
    -- that it gets, the node can do by steps of its task alone: there are inputs for these steps
    -- after which the node has the same database and the task is finished, while the other tasks,
    -- the reports and the trades that are being sent are as before.
    pub verify-run :
        (d d' : e.Db) (t : Trade) (c : Commit) (dht : Result (List PeerId)) (subscribed : Bool)
        (now : ℕ) (events : List LoopEvent) (before : List CommitProcedureEvent)
        → verify k node d t c dht subscribed now events ≡ verified d'
        → (gs : List Given) × (run k node (busy active ts d (verifies t c) before) (turns gs)
            ≡ ok (busy active ts d' finished before))
    verify-run d d' t c dht subscribed now events before p =
        let r = verify-Drives k node d d' t c dht subscribed now events p in
        (
          r.given,
          run-drive d d' (verifies t c) finished r.given before [] r.drives
              ∙ ap (λ l. ok (busy active ts d' finished l)) (append-nil before),
        )
