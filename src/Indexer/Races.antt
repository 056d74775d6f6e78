-- ===== src/Indexer/Races.antt =====
-- src/indexer.rs: messages that are handled before a spawned verification gets to run.
use dse.Base.{ℕ, ◌≡◌, refl, List, [], ◌∷◌, ◌++◌, map, ok, ◌>>=◌, inl, inr, subst}
use dse.Types.{PeerId, Trade, Commit}
use dse.Types.Messages.{RequestId, NetworkEvent, exchange_request, ack}
use dse.Backend.{Backend, IsSound}
use dse.Indexer.{Effect, respond, spawn_verify, Handled, handle_network_event, on_exchange_request}
use dse.Indexer.Handlers.{CommitMessage, message, IsAwaited, on_commit_message}

-- One network event after the other, with no spawned task in between.
unfoldable pub handle_all : ⦃e : Backend⦄ → e.Db → List NetworkEvent → Handled
handle_all d [] = ok (d, [])
handle_all d (event ∷ events) = handle_network_event d event >>= λ (d', now).
    handle_all d' events >>= λ (d'', later). ok (d'', now ++ later)

abbrev pub to_event : CommitMessage → PeerId → ℕ → RequestId × Commit → NetworkEvent
to_event m sender id (rid, c) = exchange_request sender rid (message m id c)

abbrev pub verifications : Trade → PeerId → List (RequestId × Commit) → List Effect
verifications t sender [] = []
verifications t sender ((rid, c) ∷ cs) =
    spawn_verify t c ∷ respond sender rid ack ∷ verifications t sender cs

module _ ⦃e : Backend⦄ (s : IsSound e) where
  accepts :
      (m : CommitMessage) (d : e.Db) (sender : PeerId) (rid : RequestId) (id : ℕ) (c : Commit)
      (t : Trade)
      → IsAwaited m d sender id t
      → on_exchange_request d sender rid (message m id c)
        ≡ ok (d, spawn_verify t c ∷ respond sender rid ack ∷ [])
  accepts m d sender rid id c t a = elim (on_commit_message s m d sender rid id c) [
    | inl (u, b, q) ↦
        let f = a.known in
        let g = b.known in
        let same : u ≡ t = cc in
        subst
          (λ v.
            on_exchange_request d sender rid (message m id c)
            ≡ ok (d, spawn_verify v c ∷ respond sender rid ack ∷ []))
          same q
    | inr (none_fits, q) ↦ absurd (none_fits (t, a))
  ]

  -- While a commit message of the counter party is awaited, every one of several such messages
  -- that are handled in a row is acknowledged and spawns a verification of its own, also with
  -- different commits: the database has not changed when the next one comes.
  pub verifies_each :
      (m : CommitMessage) (d : e.Db) (sender : PeerId) (id : ℕ) (t : Trade)
      (cs : List (RequestId × Commit))
      → IsAwaited m d sender id t
      → handle_all d (map (to_event m sender id) cs) ≡ ok (d, verifications t sender cs)
  unfolding handle_all handle_network_event
  verifies_each m d sender id t [] a = refl
  verifies_each m d sender id t ((rid, c) ∷ cs) a =
      rw (accepts m d sender rid id c t a, verifies_each m d sender id t cs a) refl
