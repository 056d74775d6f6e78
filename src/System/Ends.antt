-- ===== src/System/Ends.antt =====
-- src/commit_procedure.rs: a `send` among other tasks, which may change the database between any two
-- of its steps.
use dse.Base.{
  ◌≡◌, refl, true, List, [], ◌∷◌, ◌++◌, Result, ok, err, panic, ◌>>=◌, Result-cases, inl, inr,
}
use dse.Types.{Trade, is_sending_status}
use dse.Types.Messages.{ExchangeResponse}
use dse.Backend.{Backend, IsSound}
use dse.Storage.{find_active_trade}
use dse.Storage.Trades.{find_active_trade-ne-panic}
use dse.Commit.{Crypto}
use dse.EthNode.{EthNode}
use dse.Procedure.{CommitProcedureEvent, send_success, send_failed}
use dse.Procedure.Send.{outgoing_ok}
use dse.System.Tasks.{Task, finished, sends, Given, task_step}
use dse.System.Alone.{given_answer}

module _ ⦃e : Backend⦄ (k : Crypto) (node : EthNode) where
  -- The steps of a task, each from a database of its own: what the other tasks left.
  unfoldable pub among : Task → List (e.Db × Given) → Result (Task × List CommitProcedureEvent)
  unfolding task_step
  among t [] = ok (t, [])
  among t ((d, g) ∷ rest) = task_step k node d t g >>= λ (d', t', out).
      among t' rest >>= λ (t'', later). ok (t'', out ++ later)

  abbrev pub report_of : Trade → Result ExchangeResponse → CommitProcedureEvent
  report_of t (ok r) = send_success t.id
  report_of t _ = send_failed t.id

  module _ (s : IsSound e) where
    -- Once the `send` of a trade in a send status has its answer, or the network has failed, four
    -- steps of its task end it, whatever other tasks have made of the database before each of the
    -- steps. It makes one report: of a success if there was an answer, and of a failure if not.
    pub send_ends :
        (t : Trade) (answer : Result ExchangeResponse) (d₁ d₂ d₃ d₄ : e.Db) (g₂ g₃ g₄ : Given)
        → is_sending_status t ≡ true
        → among (sends t) ((d₁, given_answer k node answer) ∷ (d₂, g₂) ∷ (d₃, g₃) ∷ (d₄, g₄) ∷ [])
          ≡ ok (finished, report_of t answer ∷ [])
    unfolding among
    send_ends t (ok r) d₁ d₂ d₃ d₄ g₂ g₃ g₄ h =
        let (request, p) = outgoing_ok s t h in
        elim (Result-cases (find_active_trade d₂ t.id)) [
          | inl (old, q) ↦ rw (p, q) refl
          | inr (inl (x, q)) ↦ rw (p, q) refl
          | inr (inr q) ↦ absurd (find_active_trade-ne-panic s d₂ t.id q)
        ]
    send_ends t (err x) d₁ d₂ d₃ d₄ g₂ g₃ g₄ h = let (request, p) = outgoing_ok s t h in rw p refl
    send_ends t panic d₁ d₂ d₃ d₄ g₂ g₃ g₄ h = let (request, p) = outgoing_ok s t h in rw p refl
