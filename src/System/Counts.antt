-- ===== src/System/Counts.antt =====
-- src/indexer.rs: how many reports on the sending of a trade the tasks of a node will make.
use dse.Base.{ℕ, ◌+◌, ◌≡◌, refl, List, [], ◌∷◌, ◌++◌, All, arith}
use dse.Base.Maps.{one_if}
use dse.Backend.{Backend}
use dse.Procedure.{CommitProcedureEvent}
use dse.Indexer.{Effect, spawn_verify, spawn_send, has_id, on_tick}
use dse.Indexer.Sends.{IsSend, on_tick_lem}
use dse.Indexer.Runs.{starts, starts-Distinct}
use dse.System.Tasks.{Task}
use dse.System.Safety.{CanStep, reported, will_report}
use dse.System.{spawned}

abbrev pub will_report_all : ℕ → List Task → ℕ
will_report_all id [] = 0
will_report_all id (t ∷ ts) = will_report id t + will_report_all id ts

pub will_report_all-append :
    (id : ℕ) (xs ys : List Task)
    → will_report_all id (xs ++ ys) ≡ will_report_all id xs + will_report_all id ys
will_report_all-append id [] ys = omega arith
will_report_all-append id (x ∷ xs) ys = omega (arith, will_report_all-append id xs ys)

pub reported-append :
    (id : ℕ) (xs ys : List CommitProcedureEvent)
    → reported id (xs ++ ys) ≡ reported id xs + reported id ys
reported-append id [] ys = omega arith
reported-append id (x ∷ xs) ys = omega (arith, reported-append id xs ys)

module _ ⦃e : Backend⦄ where
  pub will_report_all-spawned :
      (id : ℕ) (es : List Effect) → will_report_all id (spawned es) ≡ starts id es
  unfolding spawned
  will_report_all-spawned id [] = refl
  will_report_all-spawned id (spawn_send t ∷ es) = omega (arith, will_report_all-spawned id es)
  will_report_all-spawned id (spawn_verify t c ∷ es) = omega (arith, will_report_all-spawned id es)
  will_report_all-spawned id (_ ∷ es) = will_report_all-spawned id es

  pub spawned_sends : (es : List Effect) → All IsSend es → All CanStep (spawned es)
  unfolding spawned
  spawned_sends [] h = tt
  spawned_sends (spawn_send t ∷ es) (h, hs) = (h, spawned_sends es hs)
  spawned_sends (_ ∷ es) (h, hs) = absurd h

  pub spawned_calm : (es : List Effect) → ((id : ℕ) → starts id es ≡ 0) → All CanStep (spawned es)
  unfolding spawned
  spawned_calm [] h = tt
  spawned_calm (spawn_send t ∷ es) h = absurd (ground (arith, h t.id))
  spawned_calm (spawn_verify t c ∷ es) h = (tt, spawned_calm es h)
  spawned_calm (_ ∷ es) h = spawned_calm es h

  -- A tick starts as many sends of a trade as it marks anew.
  pub on_tick-starts :
      (active : List ℕ) (d : e.Db) (id : ℕ)
      → starts id (on_tick active d).1 + one_if (has_id active id)
        ≡ one_if (has_id (on_tick active d).0 id)
  on_tick-starts active d id =
      let (_, apart, fresh, grows, _) = on_tick_lem active d in
      ground (arith, starts-Distinct id (on_tick active d).1 apart, fresh id, grows id)
