-- ===== src/System/Alone/Verifies.antt =====
-- src/commit_procedure.rs and src/ch_request.rs: `verify`, with the load of a history in it, as the
-- steps of its task.
use dse.Base.{
  ℕ, ◌≡◌, refl, Bool, true, false, List, [], none, some, if◌then◌else◌, Result, ok, err, panic,
  ◌>>=◌, inl, inr, Result-cases, bind_ok, network_failed,
}
use dse.Types.{PeerId, Trade, update_status, Commit}
use dse.Backend.{Backend}
use dse.Storage.{
  get_wallets_of_interest, exists, update_active_trade, ignore_err, add_wallet_of_interest,
}
use dse.Storage.Writes.{wallet_of_interest, trade_update, write}
use dse.Commit.{Crypto}
use dse.EthNode.{EthNode}
use dse.Loading.{
  LoadingState, LoopEvent, Progress, going, done, panicked, load_loop, initial_state,
  load_commit_history,
}
use dse.Procedure.{
  to_processing, verify, verified, update_trade_processing_status, after_load, settled,
  Verification, crashed, track, after_processing,
}
use dse.System.Tasks.{
  finished, verifies, looks, asks, loads, checks, save, notes, Given, nothing, looked_up, task_step,
}
use dse.System.Alone.{Drives, Drives-step, Drives-writes, finish_verify-Drives}
use dse.System.Alone.Loads.{load_loop-Drives}

module _ ⦃e : Backend⦄ (k : Crypto) (node : EthNode) where
  settled_ok : (a : Result e.Db) (d : e.Db) → settled a ≡ verified d → a ≡ ok d
  settled_ok (ok d') d p = cc
  settled_ok (err x) d p = absurd (cc)
  settled_ok panic d p = absurd (cc)

  notes-Drives :
      (d d' : e.Db) (t : Trade) (c : Commit) (r : Result (Unit {0})) (asked : List PeerId)
      → after_load (done r d asked) t c ≡ verified d'
      → Drives k node d (notes t c) d' finished []
  unfolding write
  notes-Drives d d' t c r asked p =
      let (d₁, q, p₁) = bind_ok (add_wallet_of_interest d c.wallet_address) _ (settled_ok _ d' p) in
      Drives-writes k node d d₁ d' (wallet_of_interest c.wallet_address) (checks t c) finished [] q
        (finish_verify-Drives k node d₁ d' t c p₁)

  looped-Drives :
      (d d' : e.Db) (t : Trade) (c : Commit) (ls : LoadingState) (events : List LoopEvent)
      (x : Progress)
      → load_loop k node c.wallet_address (going ls d []) events ≡ x
      → after_load x t c ≡ verified d'
      → Drives k node d (loads t c ls []) d' finished []
  looped-Drives d d' t c ls events (going ls' d₁ asked) q p = absurd (cc)
  looped-Drives d d' t c ls events (done r d₁ asked) q p =
      load_loop-Drives k node d d₁ d' t c ls [] asked events r finished [] q
        (notes-Drives d₁ d' t c r asked p)
  looped-Drives d d' t c ls events panicked q p = absurd (cc)

  abbrev pub given_peers : Result (List PeerId) → Bool → ℕ → Given
  given_peers (ok peers) subscribed now = looked_up (some peers) subscribed now
  given_peers _ subscribed now = looked_up none subscribed now

  load-Drives :
      (d d' : e.Db) (t : Trade) (c : Commit) (dht : Result (List PeerId)) (subscribed : Bool)
      (now : ℕ) (events : List LoopEvent)
      → after_load (load_commit_history k node dht subscribed now d c.wallet_address events) t c
        ≡ verified d'
      → Drives k node d (asks t c) d' finished []
  unfolding load_commit_history task_step
  load-Drives d d' t c (ok peers) true now events p =
      let ls = initial_state peers now in
      Drives-step k node d d d' (asks t c) (loads t c ls []) finished
        (looked_up (some peers) true now) [] [] refl (looped-Drives d d' t c ls events _ refl p)
  load-Drives d d' t c (ok peers) false now events p =
      Drives-step k node d d d' (asks t c) (notes t c) finished (looked_up (some peers) false now)
        [] [] refl (notes-Drives d d' t c (err network_failed) [] p)
  load-Drives d d' t c (err x) subscribed now events p =
      Drives-step k node d d d' (asks t c) (notes t c) finished (looked_up none subscribed now) []
        [] refl (notes-Drives d d' t c (err network_failed) [] p)
  load-Drives d d' t c panic subscribed now events p =
      Drives-step k node d d d' (asks t c) (notes t c) finished (looked_up none subscribed now) []
        [] refl (notes-Drives d d' t c (err network_failed) [] p)

  track-Drives :
      (d d' : e.Db) (t : Trade) (c : Commit) (dht : Result (List PeerId)) (subscribed : Bool)
      (now : ℕ) (events : List LoopEvent) (known : Bool)
      → track k node known d t c dht subscribed now events ≡ verified d'
      → Drives k node d (if known then checks t c else asks t c) d' finished []
  track-Drives d d' t c dht subscribed now events true p =
      finish_verify-Drives k node d d' t c (settled_ok _ d' p)
  track-Drives d d' t c dht subscribed now events false p =
      load-Drives d d' t c dht subscribed now events p

  crashed-ne-verified : (d : e.Db) → ◌≡◌ {A = Verification} crashed (verified d) → ⊥
  crashed-ne-verified d h = cc

  looks-Drives :
      (d d' : e.Db) (t : Trade) (c : Commit) (dht : Result (List PeerId)) (subscribed : Bool)
      (now : ℕ) (events : List LoopEvent)
      → after_processing k node (ok (d, t)) c dht subscribed now events ≡ verified d'
      → Drives k node d (looks t c) d' finished []
  unfolding task_step
  looks-Drives d d' t c dht subscribed now events p =
      elim (Result-cases (get_wallets_of_interest d)) [
        | inl (ws, q) ↦
            let known = exists ws c.wallet_address in
            Drives-step k node d d d' (looks t c) (if known then checks t c else asks t c) finished
              nothing [] [] (rw q refl)
              (track-Drives d d' t c dht subscribed now events known
                (rw (q, after_processing) at p))
        | inr (inl (x, q)) ↦ absurd (crashed-ne-verified d' (rw (q, after_processing) at p))
        | inr (inr q) ↦ absurd (crashed-ne-verified d' (rw (q, after_processing) at p))
      ]

  pub verify-Drives :
      (d d' : e.Db) (t : Trade) (c : Commit) (dht : Result (List PeerId)) (subscribed : Bool)
      (now : ℕ) (events : List LoopEvent)
      → verify k node d t c dht subscribed now events ≡ verified d'
      → Drives k node d (verifies t c) d' finished []
  unfolding verify update_trade_processing_status task_step write
  verify-Drives d d' t c dht subscribed now events p =
      elim (Result-cases (ignore_err d (update_active_trade d t'))) [
        | inl (d₁, q) ↦
            Drives-step k node d d d' (verifies t c) (save t' (looks t' c)) finished nothing [] []
              refl
              (Drives-writes k node d d₁ d' (trade_update t') (looks t' c) finished [] q
                (looks-Drives d₁ d' t' c dht subscribed now events (rw q at ran)))
        | inr (inl (x, q)) ↦ absurd (crashed-ne-verified d' (rw q at ran))
        | inr (inr q) ↦ absurd (crashed-ne-verified d' (rw q at ran))
      ]
    where
      t' : Trade
      t' = update_status t (to_processing t.status)

      ran :
          after_processing k node
            (ignore_err d (update_active_trade d t') >>= λ x. ok (x, t'))
            c
            dht
            subscribed
            now
            events
          ≡ verified d'
      ran = p
