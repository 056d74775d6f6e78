-- ===== src/Storage/Locks/Races.antt =====
-- src/storage.rs: calls of several threads, whose locked sections take turns in any order.
use dse.Base.{
  ℕ, zero, suc, ◌≡◌, refl, List, [], ◌∷◌, ◌++◌, Option, none, some, ok, ◌>>=◌, All, arith, inl, inr,
  Result-cases, Ensures, Ensures-bind,
}
use dse.Base.Bytes.{bytes_eq_self}
use dse.Types.{Address, Commit, CommitHistory}
use dse.Backend.{Backend, IsSound}
use dse.Storage.{find_commit_history, find_active_trade}
use dse.Storage.Writes.{
  Write, i_want, active_trade, wallet_of_interest, bid_received, bid_sent, query_sent,
  query_received, new_trade, commits, invalidation, trade_update, write, write-IsWellFormed,
  get_wallets_of_interest_lem,
}
use dse.Storage.Invariant.{Tree, IsWellFormed, store-IsWellFormed}
use dse.Storage.Histories.{
  find_commit_history_ok, history_or_empty-wallet, put_history-IsWellFormed,
  find_commit_history-put_history, put_history, commits_of, history_with,
  add_new_commits-commits_of,
}
use dse.Storage.Trades.{find_active_trade-ne-panic}
use dse.Storage.Locks.{
  Thread, starts, stores_wallets, stores_history, stores_trade, section, turn, interleave,
}

-- What a thread that is past its first section is to store has its place in its tree.
abbrev pub IsReady : Option Thread → Type 0
IsReady (some (stores_history a h)) = h.wallet_address ≡ a
IsReady _ = Unit

module _ ⦃e : Backend⦄ (s : IsSound e) where
  -- What a section leaves: a well-formed database, and the rest of the thread.
  abbrev pub Continues : e.Db × Option Thread → Type 0
  Continues (d, t) = IsWellFormed s d × IsReady t

  abbrev pub AreReady : e.Db × List (Option Thread) → Type 0
  AreReady (d, ts) = IsWellFormed s d × All IsReady ts

  ends_well :
      (d : e.Db) (x : Write)
      → IsWellFormed s d
      → Ensures Continues (write d x >>= λ d'. ok (d', none))
  ends_well d x w = let (d', p, w') = write-IsWellFormed s d x w in rw p (w', tt)

  pub section-Continues :
      (d : e.Db) (t : Thread)
      → IsWellFormed s d
      → IsReady (some t)
      → Ensures Continues (section d t)
  unfolding section
  section-Continues d (starts (wallet_of_interest a)) w r =
      rw (get_wallets_of_interest_lem s d w) (w, tt)
  section-Continues d (starts (commits a cs)) w r =
      let (found, p) = find_commit_history_ok s d a w in
      rw p (w, history_or_empty-wallet s d w a found p)
  section-Continues d (starts (invalidation id a g)) w r =
      let (found, p) = find_commit_history_ok s d a w in
      rw p (w, history_or_empty-wallet s d w a found p)
  section-Continues d (starts (trade_update t)) w r =
      elim (Result-cases (find_active_trade d t.id)) [
        | inl (old, p) ↦ rw p (w, tt)
        | inr (inl (x, p)) ↦ rw p (w, tt)
        | inr (inr p) ↦ absurd (find_active_trade-ne-panic s d t.id p)
      ]
  section-Continues d (starts (i_want m)) w r = ends_well d (i_want m) w
  section-Continues d (starts (active_trade t)) w r = ends_well d (active_trade t) w
  section-Continues d (starts (bid_received q b)) w r = ends_well d (bid_received q b) w
  section-Continues d (starts (bid_sent b q)) w r = ends_well d (bid_sent b q) w
  section-Continues d (starts (query_sent q)) w r = ends_well d (query_sent q) w
  section-Continues d (starts (query_received q)) w r = ends_well d (query_received q) w
  section-Continues d (starts (new_trade t)) w r = ends_well d (new_trade t) w
  section-Continues d (stores_wallets ws) w r =
      (store-IsWellFormed s d Tree.active _ _ (inr (ws, refl, refl)) w, tt)
  section-Continues d (stores_history a h) w r = (put_history-IsWellFormed s d w a h r, tt)
  section-Continues d (stores_trade t) w r =
      (store-IsWellFormed s d Tree.active _ _ (inl (t, refl, refl)) w, tt)

  turn-AreReady :
      (d : e.Db) (i : ℕ) (ts : List (Option Thread))
      → IsWellFormed s d
      → All IsReady ts
      → Ensures AreReady (turn d i ts)
  unfolding turn
  turn-AreReady d i [] w r = (w, tt)
  turn-AreReady d zero (none ∷ ts) w r = (w, r)
  turn-AreReady d zero (some t ∷ ts) w (r, rs) =
      Ensures-bind Continues AreReady (section d t) _ (section-Continues d t w r)
        (λ (d', t') (w', r'). (w', (r', rs)))
  turn-AreReady d (suc i) (t ∷ ts) w (r, rs) =
      Ensures-bind AreReady AreReady (turn d i ts) _ (turn-AreReady d i ts w rs)
        (λ (d', ts') (w', rs'). (w', (r, rs')))

  -- Calls of any number of threads, in any order of their locked sections, never panic on a
  -- well-formed database and leave one.
  pub interleave-AreReady :
      (d : e.Db) (ts : List (Option Thread)) (schedule : List ℕ)
      → IsWellFormed s d
      → All IsReady ts
      → Ensures AreReady (interleave d ts schedule)
  unfolding interleave
  interleave-AreReady d ts [] w r = (w, r)
  interleave-AreReady d ts (i ∷ schedule) w r =
      Ensures-bind AreReady AreReady (turn d i ts) _ (turn-AreReady d i ts w r)
        (λ (d', ts') (w', r'). interleave-AreReady d' ts' schedule w' r')

  stored_found :
      (d : e.Db) (a : Address) (h : CommitHistory)
      → IsWellFormed s d
      → h.wallet_address ≡ a
      → find_commit_history (put_history s d a h) a ≡ ok (some h)
  stored_found d a h w k =
      ground (arith, find_commit_history-put_history s d w a h a k, bytes_eq_self a)

  -- The threads have run in the given turns, and the wallet's history has the given commits.
  abbrev pub Leaves : e.Db → List (Option Thread) → Address → List Commit → List ℕ → Type 0
  Leaves d calls a cs turns =
      (d' : e.Db) × (interleave d calls turns ≡ ok (d', none ∷ none ∷ []))
      × (find_commit_history d' a ≡ ok (some (history_with a cs)))

  -- Two threads add commits to the history of one wallet in a well-formed database, and these are all
  -- orders of their sections. If one call ends before the other begins, the history has what it had
  -- and the commits of both, in the order of the calls. If both have read the history before either
  -- stores it, it has what it had and the commits of the thread that stores last: the other's are
  -- lost.
  pub commits_lost :
      (d : e.Db) (a : Address) (cs₁ cs₂ : List Commit) (found : Option CommitHistory)
      → IsWellFormed s d
      → find_commit_history d a ≡ ok found
      → let calls = some (starts (commits a cs₁)) ∷ some (starts (commits a cs₂)) ∷ [] in
        let had = commits_of found in
        Leaves d calls a ((had ++ cs₁) ++ cs₂) (0 ∷ 0 ∷ 1 ∷ 1 ∷ [])
        × Leaves d calls a ((had ++ cs₂) ++ cs₁) (1 ∷ 1 ∷ 0 ∷ 0 ∷ [])
        × Leaves d calls a (had ++ cs₂) (0 ∷ 1 ∷ 0 ∷ 1 ∷ [])
        × Leaves d calls a (had ++ cs₂) (1 ∷ 0 ∷ 0 ∷ 1 ∷ [])
        × Leaves d calls a (had ++ cs₁) (0 ∷ 1 ∷ 1 ∷ 0 ∷ [])
        × Leaves d calls a (had ++ cs₁) (1 ∷ 0 ∷ 1 ∷ 0 ∷ [])
  unfolding interleave turn section
  commits_lost d a cs₁ cs₂ found w p =
      let had = commits_of found in
      let to : CommitHistory → e.Db = λ h. put_history s d a h in
      let h₁ = history_with a (had ++ cs₁) in
      let h₂ = history_with a (had ++ cs₂) in
      let q₁ = add_new_commits-commits_of s d a cs₁ found w p in
      let q₂ = add_new_commits-commits_of s d a cs₂ found w p in
      let w₁ = put_history-IsWellFormed s d w a h₁ refl in
      let w₂ = put_history-IsWellFormed s d w a h₂ refl in
      let p₁ = stored_found d a h₁ w refl in
      let p₂ = stored_found d a h₂ w refl in
      let h₁₂ = history_with a ((had ++ cs₁) ++ cs₂) in
      let h₂₁ = history_with a ((had ++ cs₂) ++ cs₁) in
      let q₁₂ = add_new_commits-commits_of s (to h₁) a cs₂ (some h₁) w₁ p₁ in
      let q₂₁ = add_new_commits-commits_of s (to h₂) a cs₁ (some h₂) w₂ p₂ in
      let after : CommitHistory → CommitHistory → e.Db = λ g h. put_history s (to g) a h in
      (
        (after h₁ h₁₂, ground (arith, p, q₁, p₁, q₁₂), stored_found (to h₁) a h₁₂ w₁ refl),
        (after h₂ h₂₁, ground (arith, p, q₂, p₂, q₂₁), stored_found (to h₂) a h₂₁ w₂ refl),
        (after h₁ h₂, ground (arith, p, q₁, q₂), stored_found (to h₁) a h₂ w₁ refl),
        (after h₁ h₂, ground (arith, p, q₁, q₂), stored_found (to h₁) a h₂ w₁ refl),
        (after h₂ h₁, ground (arith, p, q₁, q₂), stored_found (to h₂) a h₁ w₂ refl),
        (after h₂ h₁, ground (arith, p, q₁, q₂), stored_found (to h₂) a h₁ w₂ refl),
      )
