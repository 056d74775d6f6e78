-- ===== src/Loading/Peers.antt =====
-- src/ch_request.rs: `LoadingState::query_from`, called until it returns `None`.
use dse.Base.{
  ℕ, zero, suc, ◌+◌, ◌-◌, ◌*◌, ◌<◌, ◌≡◌, refl, subst, List, [], ◌∷◌, none, some, Result, ok, err,
  panic, not_found, length, arith,
}
use dse.Types.{PeerId}
use dse.Loading.{LoadingState, query_from, initial_state}

abbrev cons_ok : PeerId → Result (List PeerId) → Result (List PeerId)
cons_ok p (ok ps) = ok (p ∷ ps)
cons_ok p r = r

-- The peers that calls of `query_from` return up to the first `None`, on fuel; a panic is passed on.
unfoldable pub drain : ℕ → LoadingState → Result (List PeerId)
drain zero ls = err not_found
drain (suc n) ls = elim (query_from ls) [
  | ok (ls', found) ↦ elim found [ none ↦ ok [] | some p ↦ cons_ok p (drain n ls') ]
  | err x ↦ err x
  | panic ↦ panic
]

-- Every peer of the list, four times over.
abbrev pub four_times : List PeerId → List PeerId
four_times [] = []
four_times (p ∷ ps) = p ∷ p ∷ p ∷ p ∷ four_times ps

-- Four calls for each peer, one for the `None`, and some to spare.
abbrev budget : ℕ → List PeerId → ℕ
budget spare [] = suc spare
budget spare (p ∷ ps) = suc (suc (suc (suc (budget spare ps))))

budget_lem : (spare : ℕ) (ps : List PeerId) → budget spare ps ≡ suc (4 * length ps + spare)
budget_lem spare [] = omega arith
budget_lem spare (p ∷ ps) = omega (arith, budget_lem spare ps)

abbrev at : LoadingState → List PeerId → ℕ → LoadingState
at ls ps n = record ls { peers = ps; request_count = n }

drain_asked :
    (ls : LoadingState) (spare : ℕ) (p : PeerId) (ps : List PeerId)
    → drain (budget spare ps) (at ls (p ∷ ps) 4) ≡ ok (four_times ps)
unfolding drain query_from
drain_asked ls spare p [] = refl
drain_asked ls spare p (q ∷ ps) = rw (drain_asked ls spare q ps)

drain_initial :
    (ls : LoadingState) (spare : ℕ) (ps : List PeerId)
    → drain (budget spare ps) (at ls ps 0) ≡ ok (four_times ps)
unfolding drain query_from
drain_initial ls spare [] = refl
drain_initial ls spare (q ∷ ps) = rw (drain_asked ls spare q ps)

-- From the state that a load starts with, calls of `query_from` return each peer four times, in the
-- order of the list, then `None`; one call more than four for each peer is enough, and none panics.
pub drain_lem :
    (ps : List PeerId) (now n : ℕ)
    → 4 * length ps < n
    → drain n (initial_state ps now) ≡ ok (four_times ps)
drain_lem ps now n h =
    let spare : ℕ = n - suc (4 * length ps) in
    let e : budget spare ps ≡ n = omega (arith, budget_lem spare ps) in
    subst (λ m. drain m (initial_state ps now) ≡ ok (four_times ps)) e
      (drain_initial (initial_state ps now) spare ps)
