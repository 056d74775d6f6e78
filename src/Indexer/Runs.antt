-- ===== src/Indexer/Runs.antt =====
-- src/indexer.rs: `Indexer::run`, over what its `select!` takes.
use dse.Base.{
  ℕ, ◌+◌, ◌≤◌, ◌≡◌, refl, List, [], ◌∷◌, ◌++◌, Result, ok, ◌>>=◌, ◌==◌, All, arith, inl, inr,
}
use dse.Base.Maps.{one_if}
use dse.Types.{PeerId, Commit}
use dse.Types.Messages.{
  i_want, start_commit, t1_requester_commit, t1_provider_commit, t2_requester_commit,
  t2_commit_valid, exchange_invalidating_signature, want_history, update, new_query, gossip_commit,
  gossip_invalidating_signature, RequestId, NetworkEvent, gossipsub_message_recv, exchange_request,
  commit_request, new_listen_addr,
}
use dse.Backend.{Backend, IsSound}
use dse.Storage.Invariant.{IsWellFormed}
use dse.Procedure.{CommitProcedureEvent, send_success, send_failed}
use dse.Indexer.{
  Effect, spawn_send, has_id, on_exchange_request, handle_network_event, on_tick,
  on_procedure_event,
}
use dse.Indexer.Handlers.{
  CommitMessage, message, requester_t1, provider_t1, requester_t2, on_commit_message,
  gossip_ignored, on_want_history_lem,
}
use dse.Indexer.Sends.{Distinct, sent_ids, on_tick_lem, on_procedure_event_lem}

-- An event of the network or of a procedure, or a tick of the timer. The spawned procedures and the
-- server write to the database as well: each input comes with the database as it then is.
pub data Input (Db : Type 0) : Type 0 where
  network_event : Db → NetworkEvent → Input Db
  tick : Db → Input Db
  procedure_event : CommitProcedureEvent → Input Db

module _ ⦃e : Backend⦄ where
  -- One round of the loop: the trades that are being sent, and what is set going. A receiver that
  -- lags behind is ignored, and so is a handler's database, which the next input brings.
  unfoldable pub select : List ℕ → Input e.Db → Result (List ℕ × List Effect)
  select active (network_event d ev) =
      handle_network_event d ev >>= λ (d', effects). ok (active, effects)
  select active (tick d) = ok (on_tick active d)
  select active (procedure_event ev) = ok (on_procedure_event active ev, [])

  unfoldable pub run : List ℕ → List (Input e.Db) → Result (List ℕ × List Effect)
  run active [] = ok (active, [])
  run active (x ∷ xs) = select active x >>= λ (active', now).
      run active' xs >>= λ (active'', later). ok (active'', now ++ later)

  -- How often a `send` of a trade was started by ticks, and how often one ended.
  abbrev pub starts : ℕ → List Effect → ℕ
  starts id [] = 0
  starts id (spawn_send t ∷ es) = one_if (t.id == id) + starts id es
  starts id (_ ∷ es) = starts id es

  abbrev pub ends : ℕ → List (Input e.Db) → ℕ
  ends id [] = 0
  ends id (procedure_event (send_success n) ∷ xs) = one_if (n == id) + ends id xs
  ends id (procedure_event (send_failed n) ∷ xs) = one_if (n == id) + ends id xs
  ends id (_ ∷ xs) = ends id xs

  abbrev pub HasWellFormed : IsSound e → Input e.Db → Type 0
  HasWellFormed s (network_event d ev) = IsWellFormed s d
  HasWellFormed s _ = Unit

starts-append :
    ⦃e : Backend⦄ (id : ℕ) (xs ys : List Effect)
    → starts id (xs ++ ys) ≡ starts id xs + starts id ys
starts-append id [] ys = omega arith
starts-append id (spawn_send t ∷ xs) ys = omega (arith, starts-append id xs ys)
starts-append id (_ ∷ xs) ys = starts-append id xs ys

-- Effects that start a trade at most once start it if its id is among those that are sent.
pub starts-Distinct :
    ⦃e : Backend⦄ (id : ℕ) (es : List Effect)
    → Distinct (sent_ids es)
    → starts id es ≡ one_if (has_id (sent_ids es) id)
unfolding has_id
starts-Distinct id [] u = refl
starts-Distinct id (spawn_send t ∷ es) u = ground (arith, starts-Distinct id es u.1)
starts-Distinct id (_ ∷ es) u = starts-Distinct id es u

module _ ⦃e : Backend⦄ (s : IsSound e) (id : ℕ) where
  handled_message :
      (m : CommitMessage) (d : e.Db) (p : PeerId) (rid : RequestId) (n : ℕ) (c : Commit)
      → (d' : e.Db) × (effects : List Effect) × (on_exchange_request d p rid (message m n c)
          ≡ ok (d', effects))
        × (starts id effects ≡ 0)
  handled_message m d p rid n c = elim (on_commit_message s m d p rid n c) [
    | inl (t, a, q) ↦ (d, _, q, refl)
    | inr (none_fits, q) ↦ (d, _, q, refl)
  ]

  pub handled :
      (d : e.Db) (ev : NetworkEvent)
      → IsWellFormed s d
      → (d' : e.Db) × (effects : List Effect) × (handle_network_event d ev ≡ ok (d', effects))
        × (starts id effects ≡ 0)
  unfolding handle_network_event
  handled d (gossipsub_message_recv (new_query q)) w = (_, [], refl, refl)
  handled d (gossipsub_message_recv (gossip_commit c n)) w =
      (d, [], (gossip_ignored s d w).0 c n, refl)
  handled d (gossipsub_message_recv (gossip_invalidating_signature n p r g)) w =
      (d, [], (gossip_ignored s d w).1 n p r g, refl)
  handled d (exchange_request p rid (i_want m)) w = (_, _, refl, refl)
  handled d (exchange_request p rid (start_commit t)) w = (_, _, refl, refl)
  handled d (exchange_request p rid (t1_requester_commit n c)) w =
      handled_message requester_t1 d p rid n c
  handled d (exchange_request p rid (t1_provider_commit n c)) w =
      handled_message provider_t1 d p rid n c
  handled d (exchange_request p rid (t2_requester_commit n c)) w =
      handled_message requester_t2 d p rid n c
  handled d (exchange_request p rid (t2_commit_valid n)) w = (d, [], refl, refl)
  handled d (exchange_request p rid (exchange_invalidating_signature n g)) w = (d, [], refl, refl)
  handled d (commit_request p rid (want_history a)) w = elim (on_want_history_lem s d p rid a w) [
    | inl (q, _) ↦ (d, _, q, refl)
    | inr (h, _, _, q) ↦ (d, _, q, refl)
  ]
  handled d (commit_request p rid (update a cs last)) w = (d, [], refl, refl)
  handled d (new_listen_addr n a) w = (d, [], refl, refl)

  select_balance :
      (active : List ℕ) (x : Input e.Db)
      → HasWellFormed s x
      → (active' : List ℕ) × (now : List Effect) × (select active x ≡ ok (active', now))
        × (starts id now + one_if (has_id active id)
            ≤ ends id (x ∷ []) + one_if (has_id active' id))
  unfolding select
  select_balance active (network_event d ev) w =
      let (d', es, p, q) = handled d ev w in (active, es, rw p refl, omega (arith, q))
  select_balance active (tick d) w =
      let (_, apart, fresh, grows, _) = on_tick_lem active d in
      (
        (on_tick active d).0,
        (on_tick active d).1,
        refl,
        ground (arith, starts-Distinct id (on_tick active d).1 apart, fresh id, grows id),
      )
  select_balance active (procedure_event (send_success n)) w =
      (_, [], refl, ground (arith, (on_procedure_event_lem active n id).0))
  select_balance active (procedure_event (send_failed n)) w =
      (_, [], refl, ground (arith, (on_procedure_event_lem active n id).1))

  ends-cons :
      (x : Input e.Db) (xs : List (Input e.Db)) → ends id (x ∷ xs) ≡ ends id (x ∷ []) + ends id xs
  ends-cons (network_event d ev) xs = omega arith
  ends-cons (tick d) xs = omega arith
  ends-cons (procedure_event (send_success n)) xs = omega arith
  ends-cons (procedure_event (send_failed n)) xs = omega arith

  run_balance :
      (active : List ℕ) (xs : List (Input e.Db))
      → All (HasWellFormed s) xs
      → (active' : List ℕ) × (out : List Effect) × (run active xs ≡ ok (active', out))
        × (starts id out + one_if (has_id active id) ≤ ends id xs + one_if (has_id active' id))
  unfolding run
  run_balance active [] w = (active, [], refl, omega arith)
  run_balance active (x ∷ xs) (w, ws) =
      let (active₁, now, p, h) = select_balance active x w in
      let (active₂, later, q, h') = run_balance active₁ xs ws in
      (
        active₂,
        now ++ later,
        rw (p, q) refl,
        omega (arith, h, h', starts-append id now later, ends-cons x xs),
      )

  -- From its start the loop of the indexer never panics, while the databases that its handlers find
  -- are well formed; and of each trade at most one `send` is under way at any time: however long it
  -- has run, it has started at most one more than have ended.
  pub run_single_send :
      (xs : List (Input e.Db))
      → All (HasWellFormed s) xs
      → (active' : List ℕ) × (out : List Effect) × (run [] xs ≡ ok (active', out))
        × (starts id out ≤ ends id xs + 1)
  unfolding has_id
  run_single_send xs w =
      let (active', out, p, h) = run_balance [] xs w in (active', out, p, ground (arith, h))
