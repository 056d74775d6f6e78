-- ===== src/System/Runs.antt =====
-- src/main.rs and src/indexer.rs: runs of a whole node, from its start with an empty database.
use dse.Base.{
  ℕ, zero, suc, ◌+◌, ◌≡◌, refl, subst, List, [], ◌∷◌, ◌++◌, Option, none, some, ok, Ensures,
  Ensures-bind, Ensures-ok, All, All-append, arith, inl, inr,
}
use dse.Base.Maps.{one_if}
use dse.Types.{PeerId, Multiaddr, TradeQuote, IWant}
use dse.Types.Messages.{NetworkEvent}
use dse.Backend.{Backend, IsSound}
use dse.Storage.{find_i_want}
use dse.Storage.Invariant.{IsWellFormed}
use dse.Storage.Writes.{IsEmpty, IsEmpty-IsWellFormed, find_i_want_total}
use dse.Commit.{Crypto}
use dse.EthNode.{EthNode}
use dse.Procedure.{CommitProcedureEvent, send_success, send_failed}
use dse.Indexer.{Effect, has_id, handle_network_event, on_tick}
use dse.Indexer.Handlers.{handle_network_event-IsWellFormed}
use dse.Indexer.Sends.{on_tick_lem, on_procedure_event_lem}
use dse.Indexer.Runs.{starts, handled}
use dse.System.Tasks.{Task, task_step}
use dse.System.Safety.{CanStep, reported, Leaves, task_step-Leaves}
use dse.System.{
  Turn, network_event, tick, report, user_query, user_quote, task, spawned, quotes, System, started,
  take_report, task_at, step, run,
}
use dse.System.Tasks.{Given}
use dse.System.Counts.{
  will_report_all, will_report_all-append, reported-append, will_report_all-spawned, spawned_sends,
  spawned_calm, on_tick-starts,
}

module _ ⦃e : Backend⦄ (s : IsSound e) where
  -- The database is well formed, every task can take its next step, and a trade is marked as being
  -- sent exactly while one task is to report on its sending, or one such report waits.
  pub record IsSafe (sys : System) : Type 0 where
    pub sound : IsWellFormed s sys.db
    pub ready : All CanStep sys.tasks
    pub counted :
        (id : ℕ)
        → will_report_all id sys.tasks + reported id sys.reports ≡ one_if (has_id sys.active id)

  handled_calmly :
      (d : e.Db) (ev : NetworkEvent)
      → IsWellFormed s d
      → (d' : e.Db) × (es : List Effect) × (handle_network_event d ev ≡ ok (d', es))
        × IsWellFormed s d'
        × ((id : ℕ) → starts id es ≡ 0)
  handled_calmly d ev w =
      let (d', es, p, w') = handle_network_event-IsWellFormed s d ev w in
      (
        d',
        es,
        p,
        w',
        λ id.
            let (d₂, es₂, q, z) = handled s id d ev w in
            let same : es₂ ≡ es = cc in subst (λ x. starts id x ≡ 0) same z,
      )

  find_i_want_ok :
      (d : e.Db) (id : ℕ) → IsWellFormed s d → (want : Option IWant) × (find_i_want d id ≡ ok want)
  find_i_want_ok d id w = elim (find_i_want_total s d id w) [
    | inl p ↦ (none, p)
    | inr (m, p, _) ↦ (some m, p)
  ]

  pub started-IsSafe : (d : e.Db) → IsEmpty s d → IsSafe (started d)
  unfolding has_id
  started-IsSafe d h = record {
    sound = IsEmpty-IsWellFormed s d h;
    ready = tt;
    counted = λ id. refl;
  }

  module _ (k : Crypto) (node : EthNode) where
    abbrev AllLeft : List Task → e.Db × List Task × List CommitProcedureEvent → Type 0
    AllLeft before (d, ts, out) =
        IsWellFormed s d
        × All CanStep ts
        × ((id : ℕ) → will_report_all id ts + reported id out ≡ will_report_all id before)

    task_at-AllLeft :
        (d : e.Db) (i : ℕ) (g : Given) (ts : List Task)
        → IsWellFormed s d
        → All CanStep ts
        → Ensures (AllLeft ts) (task_at k node d i g ts)
    unfolding task_at
    task_at-AllLeft d i g [] w h = (w, tt, λ id. refl)
    task_at-AllLeft d zero g (t ∷ ts) w (h, hs) =
        Ensures-bind (Leaves s t) (AllLeft (t ∷ ts)) (task_step k node d t g) _
          (task_step-Leaves s k node d w t g h)
          (λ (d', t', out) l. (l.sound, (l.goes_on, hs), λ id. omega (arith, l.balance id)))
    task_at-AllLeft d (suc i) g (t ∷ ts) w (h, hs) =
        Ensures-bind (AllLeft ts) (AllLeft (t ∷ ts)) (task_at k node d i g ts) _
          (task_at-AllLeft d i g ts w hs)
          (λ (d', ts', out) (w', hs', b). (w', (h, hs'), λ id. omega (arith, b id)))

    take_report-IsSafe :
        (sys : System) (reports : List CommitProcedureEvent)
        → sys.reports ≡ reports
        → IsSafe sys
        → IsSafe (take_report sys reports)
    take_report-IsSafe sys [] p i = i
    take_report-IsSafe sys (send_success n ∷ rest) p i = record {
      sound = i.sound;
      ready = i.ready;
      counted = λ id.
          let c =
            subst
              (λ x. will_report_all id sys.tasks + reported id x ≡ one_if (has_id sys.active id)) p
              (i.counted id) in
          ground (arith, c, (on_procedure_event_lem sys.active n id).0);
    }
    take_report-IsSafe sys (send_failed n ∷ rest) p i = record {
      sound = i.sound;
      ready = i.ready;
      counted = λ id.
          let c =
            subst
              (λ x. will_report_all id sys.tasks + reported id x ≡ one_if (has_id sys.active id)) p
              (i.counted id) in
          ground (arith, c, (on_procedure_event_lem sys.active n id).1);
    }

    quotes-IsSafe :
        (sys : System) (quote : TradeQuote) (details : PeerId × Multiaddr) (want : Option IWant)
        → IsSafe sys
        → IsSafe (record sys { tasks = quotes quote details want ++ sys.tasks })
    quotes-IsSafe sys quote details none i = i
    quotes-IsSafe sys quote details (some want) i = record {
      sound = i.sound;
      ready = (tt, i.ready);
      counted = λ id. omega (arith, i.counted id);
    }

    pub step-IsSafe : (sys : System) (x : Turn) → IsSafe sys → Ensures IsSafe (step k node sys x)
    unfolding step
    step-IsSafe sys (network_event ev) i =
        let (d', es, p, w', calm) = handled_calmly sys.db ev i.sound in
        rw p (record {
          sound = w';
          ready = All-append CanStep (spawned es) sys.tasks (spawned_calm es calm) i.ready;
          counted = λ id. omega (
            arith,
            i.counted id,
            calm id,
            will_report_all-spawned id es,
            will_report_all-append id (spawned es) sys.tasks,
          );
        })
    step-IsSafe sys tick i =
        let (active, es) = on_tick sys.active sys.db in
        record {
          sound = i.sound;
          ready =
              All-append CanStep (spawned es) sys.tasks
                (spawned_sends es (on_tick_lem sys.active sys.db).0) i.ready;
          counted = λ id. omega (
            arith,
            i.counted id,
            on_tick-starts sys.active sys.db id,
            will_report_all-spawned id es,
            will_report_all-append id (spawned es) sys.tasks,
          );
        }
    step-IsSafe sys report i = take_report-IsSafe sys sys.reports refl i
    step-IsSafe sys (user_query q details) i = record {
      sound = i.sound;
      ready = (tt, i.ready);
      counted = λ id. omega (arith, i.counted id);
    }
    step-IsSafe sys (user_quote quote details) i =
        let (want, p) = find_i_want_ok sys.db quote.id i.sound in
        rw p (quotes-IsSafe sys quote details want i)
    step-IsSafe sys (task n g) i =
        Ensures-bind (AllLeft sys.tasks) IsSafe (task_at k node sys.db n g sys.tasks) _
          (task_at-AllLeft sys.db n g sys.tasks i.sound i.ready)
          (λ (d, ts, out) (w, h, b). record {
            sound = w;
            ready = h;
            counted = λ id. omega (arith, b id, i.counted id, reported-append id sys.reports out);
          })

    pub run-IsSafe :
        (sys : System) (turns : List Turn) → IsSafe sys → Ensures IsSafe (run k node sys turns)
    unfolding run
    run-IsSafe sys [] i = i
    run-IsSafe sys (x ∷ turns) i =
        Ensures-bind IsSafe IsSafe (step k node sys x) _ (step-IsSafe sys x i)
          (λ sys' i'. run-IsSafe sys' turns i')

    -- A node that starts with an empty database never panics: its indexer, the procedures and loads
    -- that it spawns and the user's queries and quotes take steps in any order, also between the reading
    -- and the writing section of a call of the storage, with any events and answers of the network.
    -- At every time the database is well formed; and a trade is marked as being sent exactly while
    -- one `send` of it is under way or its report waits for the indexer, and never more than one.
    pub run_safe :
        (d : e.Db) (turns : List Turn)
        → IsEmpty s d
        → (sys : System) × (run k node (started d) turns ≡ ok sys)
          × IsWellFormed s sys.db
          × ((id : ℕ)
              → will_report_all id sys.tasks + reported id sys.reports
                ≡ one_if (has_id sys.active id))
    run_safe d turns h =
        let (sys, p, i) =
          Ensures-ok IsSafe (run k node (started d) turns)
            (run-IsSafe (started d) turns (started-IsSafe d h)) in
        (sys, p, i.sound, i.counted)
