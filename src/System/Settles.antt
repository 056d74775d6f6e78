-- ===== src/System/Settles.antt =====
-- src/commit_procedure.rs: the end of a `verify` among other tasks, which may change the database
-- between any two of its steps.
use dse.Base.{
  ℕ, ◌+◌, ◌-◌, ◌≤◌, ◌≡◌, refl, Bool, true, false, List, [], ◌∷◌, Option, none, some, Result, ok,
  err, panic, ◌>>=◌, Ensures, Ensures-ok, All, length, arith,
}
use dse.Types.{PeerId, Trade, Commit}
use dse.Types.Messages.{CommitResponse}
use dse.Backend.{Backend, IsSound}
use dse.Storage.Invariant.{IsWellFormed}
use dse.Storage.Writes.{get_wallets_of_interest_lem}
use dse.Storage.Histories.{find_commit_history_ok}
use dse.Storage.Locks.{Thread, starts, stores_wallets, stores_history, stores_trade, section}
use dse.Storage.Locks.Sections.{IsLast, RestIsLast, section-RestIsLast, section-IsLast}
use dse.Storage.Locks.Races.{IsReady, Continues, section-Continues}
use dse.Commit.{Crypto}
use dse.EthNode.{EthNode}
use dse.Loading.{LoadingState, ended, ticked, on_tick}
use dse.System.Tasks.{
  Task, finished, writes, verifies, looks, asks, loads, checks, Given, looked_up, loop_event,
  written, Stepped, task_step, load_event, begin_load, notes,
}
use dse.System.Ends.{among}

-- The steps that a verification has left at most, if it loads no history.
abbrev pub steps_left : Task → ℕ
steps_left (writes (starts x) next) = 2 + steps_left next
steps_left (writes _ next) = 1 + steps_left next
steps_left (verifies t c) = 10
steps_left (looks t c) = 7
steps_left (asks t c) = 6
steps_left (checks t c) = 3
steps_left _ = 0

-- A verification that does not load a history now; one that is `early` may not have looked for it.
abbrev pub IsVerifying : Bool → Task → Type 0
IsVerifying early finished = Unit
IsVerifying early (writes thread next) = IsReady (some thread) × IsVerifying early next
IsVerifying early (verifies t c) = early ≡ true
IsVerifying early (looks t c) = early ≡ true
IsVerifying early (asks t c) = early ≡ true
IsVerifying early (checks t c) = Unit
IsVerifying early _ = ⊥

nothing_left : (early : Bool) (t : Task) → IsVerifying early t → steps_left t ≤ 0 → t ≡ finished
nothing_left early finished v h = refl
nothing_left early (writes (starts x) next) v h = absurd (omega (arith, h))
nothing_left early (writes (stores_wallets ws) next) v h = absurd (omega (arith, h))
nothing_left early (writes (stores_history a g) next) v h = absurd (omega (arith, h))
nothing_left early (writes (stores_trade t) next) v h = absurd (omega (arith, h))
nothing_left early (verifies t c) v h = absurd (omega (arith, h))
nothing_left early (looks t c) v h = absurd (omega (arith, h))
nothing_left early (asks t c) v h = absurd (omega (arith, h))
nothing_left early (checks t c) v h = absurd (omega (arith, h))
nothing_left early _ v h = absurd v

-- The search for providers fails, or the network's events are not to be had. A search that finds no
-- provider does not fail.
abbrev pub IsFailed : Given → Type 0
IsFailed (looked_up none subscribed now) = Unit
IsFailed (looked_up (some peers) false now) = Unit
IsFailed _ = ⊥

begin_load-notes : (t : Trade) (c : Commit) (g : Given) → IsFailed g → begin_load t c g ≡ notes t c
begin_load-notes t c (looked_up none subscribed now) h = refl
begin_load-notes t c (looked_up (some peers) false now) h = refl
begin_load-notes t c (looked_up (some peers) true now) h = absurd h
begin_load-notes t c _ h = absurd h

module _ ⦃e : Backend⦄ (s : IsSound e) (k : Crypto) (node : EthNode) (early : Bool) where
  -- A step takes the verification on, and reports nothing.
  abbrev Advances : ℕ → Stepped → Type 0
  Advances n (d, t, out) = IsVerifying early t × (steps_left t ≤ n - 1) × (out ≡ [])

  last_section :
      (d : e.Db) (thread : Thread) (next : Task)
      → IsLast thread
      → IsVerifying early next
      → Ensures (Advances (1 + steps_left next)) (section d thread >>= written next)
  last_section d thread next l v =
      let (d', p) = section-IsLast d thread l in rw p (v, omega arith, refl)

  -- What the first section of a call leaves.
  after_first :
      (next : Task) (r : Result (e.Db × Option Thread))
      → RestIsLast r
      → Ensures (Continues s) r
      → IsVerifying early next
      → Ensures (Advances (2 + steps_left next)) (r >>= written next)
  after_first next (ok (d, none)) l c v = (v, omega arith, refl)
  after_first next (ok (d, some (stores_wallets ws))) l c v = ((c.1, v), omega arith, refl)
  after_first next (ok (d, some (stores_history a g))) l c v = ((c.1, v), omega arith, refl)
  after_first next (ok (d, some (stores_trade t))) l c v = ((c.1, v), omega arith, refl)
  after_first next (ok (d, some (starts x))) l c v = absurd l
  after_first next (err x) l c v = absurd c
  after_first next panic l c v = absurd c

  -- A well-formed database, and what an early verification gets from outside.
  abbrev pub IsInput : e.Db × Given → Type 0
  IsInput (d, g) = IsWellFormed s d × (early ≡ true → IsFailed g)

  task_step-Advances :
      (d : e.Db) (g : Given) (t : Task)
      → IsInput (d, g)
      → IsVerifying early t
      → Ensures (Advances (steps_left t)) (task_step k node d t g)
  unfolding task_step
  task_step-Advances d g finished (w, f) v = (tt, omega arith, refl)
  task_step-Advances d g (writes (starts x) next) (w, f) (r, v) =
      after_first next (section d (starts x)) (section-RestIsLast d x)
        (section-Continues s d (starts x) w r) v
  task_step-Advances d g (writes (stores_wallets ws) next) (w, f) (r, v) =
      last_section d (stores_wallets ws) next tt v
  task_step-Advances d g (writes (stores_history a h) next) (w, f) (r, v) =
      last_section d (stores_history a h) next tt v
  task_step-Advances d g (writes (stores_trade t) next) (w, f) (r, v) =
      last_section d (stores_trade t) next tt v
  task_step-Advances d g (verifies t c) (w, f) v = ((tt, v), omega arith, refl)
  task_step-Advances d g (looks t c) (w, f) v =
      rw (get_wallets_of_interest_lem s d w) (v, omega arith, refl)
  task_step-Advances d g (asks t c) (w, f) v =
      rw (begin_load-notes t c g (f v)) ((tt, tt), omega arith, refl)
  task_step-Advances d g (checks t c) (w, f) v =
      let (found, p) = find_commit_history_ok s d c.wallet_address w in
      rw p ((tt, tt), omega arith, refl)
  task_step-Advances d g _ (w, f) v = absurd v

  -- Whatever databases the other tasks leave, as many steps as are left end a verification.
  pub among_ends :
      (inputs : List (e.Db × Given)) (t : Task)
      → All IsInput inputs
      → steps_left t ≤ length inputs
      → IsVerifying early t
      → among k node t inputs ≡ ok (finished, [])
  unfolding among
  among_ends [] t ws n v = let same = nothing_left early t v n in rw same refl
  among_ends ((d, g) ∷ inputs) t (w, ws) n v =
      let ((d', t', out), p, (v', fewer, silent)) =
        Ensures-ok (Advances (steps_left t)) (task_step k node d t g)
          (task_step-Advances d g t w v) in
      let rest = among_ends inputs t' ws (omega (arith, n, fewer)) v' in rw (p, rest, silent) refl

module _ ⦃e : Backend⦄ (s : IsSound e) (k : Crypto) (node : EthNode) where
  -- A well-formed database, and no load to begin.
  abbrev pub IsAlone : e.Db × Given → Type 0
  IsAlone (d, g) = IsWellFormed s d × IsFailed g

  are_inputs : (xs : List (e.Db × Given)) → All IsAlone xs → All (IsInput s k node true) xs
  are_inputs [] h = tt
  are_inputs ((d, g) ∷ xs) ((w, u), h) = ((w, λ x. u), are_inputs xs h)

  abbrev pub HasWellFormed : e.Db × Given → Type 0
  HasWellFormed (d, g) = IsWellFormed s d

  any_inputs :
      (inputs : List (e.Db × Given))
      → All HasWellFormed inputs
      → All (IsInput s k node false) inputs
  any_inputs [] h = tt
  any_inputs ((d, g) ∷ xs) (w, h) = ((w, λ x. absurd (cc)), any_inputs xs h)

  -- What follows a load ends in five steps, whatever it gets.
  pub notes_ends :
      (t : Trade) (c : Commit) (rest : List (e.Db × Given))
      → All HasWellFormed rest
      → 5 ≤ length rest
      → among k node (notes t c) rest ≡ ok (finished, [])
  notes_ends t c rest h n =
      among_ends s k node false rest (notes t c) (any_inputs rest h) n (tt, tt)

  -- A `verify` is over after ten steps of its task, if at each of them the search for providers would
  -- fail or the network's events would not be to be had; and one that loads a history is over six
  -- steps after the load has got its last batch: a tick of the timer and five more. So it is whatever
  -- well-formed databases the other tasks leave before the ten steps, and before the five. It never
  -- panics, and reports nothing.
  pub verification_ends :
      (t : Trade) (c : Commit) (ls : LoadingState) (asked : List PeerId) (tick later : ℕ)
      (answer : Result CommitResponse) (d : e.Db) (inputs rest : List (e.Db × Given))
      → All IsAlone inputs
      → All HasWellFormed rest
      → 10 ≤ length inputs
      → 5 ≤ length rest
      → ls.state ≡ ended
      → (among k node (verifies t c) inputs ≡ ok (finished, []))
        × (among k node (loads t c ls asked) ((d, loop_event (ticked tick answer later)) ∷ rest)
            ≡ ok (finished, []))
  unfolding among load_event on_tick
  verification_ends t c ls asked tick later answer d inputs rest ws vs n m over = (
    among_ends s k node true inputs (verifies t c) (are_inputs inputs ws) n refl,
    rw (over, notes_ends t c rest vs m) refl,
  )
