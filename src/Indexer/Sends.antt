-- ===== src/Indexer/Sends.antt =====
-- src/indexer.rs: the timer and the set of trades that are being sent.
use dse.Base.{
  ℕ, ◌≡◌, refl, true, false, not, ◌&&◌, ◌||◌, List, [], ◌∷◌, ◌==◌, if◌then◌else◌, filter, All,
  arith,
}
use dse.Types.{Trade, is_sending_status}
use dse.Backend.{Backend}
use dse.Storage.{get_active_trades}
use dse.Procedure.{send_success, send_failed}
use dse.Indexer.{Effect, spawn_send, has_id, remove_id, start_sends, on_tick, on_procedure_event}

-- The trades that effects send.
abbrev pub sent_ids : List Effect → List ℕ
sent_ids [] = []
sent_ids (spawn_send t ∷ es) = t.id ∷ sent_ids es
sent_ids (_ ∷ es) = sent_ids es

abbrev pub Distinct : List ℕ → Type 0
Distinct [] = Unit {0}
Distinct (x ∷ xs) = (has_id xs x ≡ false) × Distinct xs

-- After the loop the set holds what it held and what was started.
start_sends-has_id :
    (active : List ℕ) (ts : List Trade) (id : ℕ)
    → has_id (start_sends active ts).0 id
      ≡ (has_id active id || has_id (sent_ids (start_sends active ts).1) id)
unfolding start_sends
start_sends-has_id active [] id = ground arith
start_sends-has_id active (t ∷ ts) id =
    ground (arith, start_sends-has_id (t.id ∷ active) ts id, start_sends-has_id active ts id)

-- Nothing is started that the set held before.
start_sends-fresh :
    (active : List ℕ) (ts : List Trade) (id : ℕ)
    → has_id active id ≡ true
    → has_id (sent_ids (start_sends active ts).1) id ≡ false
unfolding start_sends
start_sends-fresh active [] id h = refl
start_sends-fresh active (t ∷ ts) id h =
    ground (arith, start_sends-fresh (t.id ∷ active) ts id, start_sends-fresh active ts id)

start_sends-Distinct :
    (active : List ℕ) (ts : List Trade) → Distinct (sent_ids (start_sends active ts).1)
unfolding start_sends
start_sends-Distinct active [] = tt
start_sends-Distinct active (t ∷ ts) = ground (
  arith,
  start_sends-Distinct (t.id ∷ active) ts,
  start_sends-Distinct active ts,
  start_sends-fresh (t.id ∷ active) ts t.id,
)

start_sends_complete :
    (active : List ℕ) (ts : List Trade)
    → All (λ t. (not (is_sending_status t) || has_id (start_sends active ts).0 t.id) ≡ true) ts
unfolding start_sends
start_sends_complete active [] = tt
start_sends_complete active (t ∷ ts) =
    let next : List ℕ =
      if is_sending_status t && not (has_id active t.id) then t.id ∷ active else active in
    (
      ground (arith, start_sends-has_id (t.id ∷ active) ts t.id, start_sends-has_id active ts t.id),
      start_sends_complete next ts,
    )

abbrev pub IsSend : Effect → Type 0
IsSend (spawn_send t) = is_sending_status t ≡ true
IsSend _ = ⊥

start_sends-IsSend : (active : List ℕ) (ts : List Trade) → All IsSend (start_sends active ts).1
unfolding start_sends
start_sends-IsSend active [] = tt
start_sends-IsSend active (t ∷ ts) =
    ground (arith, start_sends-IsSend (t.id ∷ active) ts, start_sends-IsSend active ts)

module _ ⦃e : Backend⦄ where
  -- A tick spawns a `send` only for trades that have to send, for no id twice, and for none that is
  -- being sent already. It marks as being sent what it starts, and forgets none that was marked;
  -- and every stored trade that has to send is marked afterwards.
  pub on_tick_lem :
      (active : List ℕ) (d : e.Db)
      → All IsSend (on_tick active d).1
        × Distinct (sent_ids (on_tick active d).1)
        × ((id : ℕ) → (has_id active id && has_id (sent_ids (on_tick active d).1) id) ≡ false)
        × ((id : ℕ)
            → has_id (on_tick active d).0 id
              ≡ (has_id active id || has_id (sent_ids (on_tick active d).1) id))
        × All
            (λ t. (not (is_sending_status t) || has_id (on_tick active d).0 t.id) ≡ true)
            (get_active_trades d)
  unfolding on_tick
  on_tick_lem active d =
      let ts = get_active_trades d in
      (
        start_sends-IsSend active ts,
        start_sends-Distinct active ts,
        (λ id. ground (arith, start_sends-fresh active ts id)),
        start_sends-has_id active ts,
        start_sends_complete active ts,
      )

has_id-remove_id :
    (active : List ℕ) (x id : ℕ)
    → has_id (remove_id x active) id ≡ (has_id active id && not (x == id))
unfolding remove_id has_id filter
has_id-remove_id [] x id = refl
has_id-remove_id (y ∷ ys) x id = ground (arith, has_id-remove_id ys x id)

-- The end of a `send`, successful or not, frees the trade for the next tick and no other trade.
pub on_procedure_event_lem :
    (active : List ℕ) (id other : ℕ)
    → (has_id (on_procedure_event active (send_success id)) other
        ≡ (has_id active other && not (id == other)))
      × (has_id (on_procedure_event active (send_failed id)) other
          ≡ (has_id active other && not (id == other)))
unfolding on_procedure_event
on_procedure_event_lem active id other =
    (has_id-remove_id active id other, has_id-remove_id active id other)
