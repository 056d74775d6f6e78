-- ===== src/Procedure/Status.antt =====
-- src/commit_procedure.rs: the statuses of a trade, and their updates.
use dse.Base.{
  ℕ, suc, ◌+◌, ◌≤◌, ◌≡◌, refl, Bool, true, ◌||◌, List, [], ◌∷◌, some, ◌↔◌, arith, ◌⊎◌, length,
}
use dse.Types.{
  TradeStatus, waiting_r_t1_commit, r_send_t1_commit, processing_r_t1_commit, waiting_p_t1_commit,
  p_send_t1_commit, processing_p_t1_commit, waiting_r_t2_commit, r_send_t2_commit,
  processing_r_t2_commit, waiting_for_service, p_fulfill_service, waiting_invalidating_signatures,
  Trade, Commit, is_sending_status, status_eq, TradeStatus-discrete,
}
use dse.Types.Messages.{
  ExchangeRequest, t1_requester_commit, t1_provider_commit, t2_requester_commit,
}
use dse.Procedure.{to_waiting, to_processing, to_send, create_send_request, request_of}

module _ (id : ℕ) (c : Commit) where
  abbrev sending : TradeStatus → Bool
  sending st =
      status_eq st r_send_t1_commit
      || status_eq st p_send_t1_commit
      || status_eq st r_send_t2_commit

  request_of-sending :
      (st : TradeStatus) → sending st ≡ true → (r : ExchangeRequest) × (request_of st id c ≡ some r)
  unfolding TradeStatus-discrete
  request_of-sending r_send_t1_commit h = (t1_requester_commit id c, refl)
  request_of-sending p_send_t1_commit h = (t1_provider_commit id c, refl)
  request_of-sending r_send_t2_commit h = (t2_requester_commit id c, refl)
  request_of-sending _ h = cc

  sending_of_request :
      (st : TradeStatus) {r : ExchangeRequest} → request_of st id c ≡ some r → sending st ≡ true
  unfolding TradeStatus-discrete
  sending_of_request r_send_t1_commit h = refl
  sending_of_request p_send_t1_commit h = refl
  sending_of_request r_send_t2_commit h = refl
  sending_of_request _ h = cc

-- A request can be made for a trade exactly when the indexer takes it for one to send.
pub create_send_request_iff :
    (t : Trade) (c : Commit)
    → (is_sending_status t ≡ true) ↔ ((r : ExchangeRequest) × (create_send_request t c ≡ some r))
unfolding is_sending_status create_send_request
create_send_request_iff t c =
    (request_of-sending t.id c t.status, λ (r, h). sending_of_request t.id c t.status h)

pub data Party : Type 0 where
  requester provider : Party

abbrev pub party : TradeStatus → Party
party waiting_r_t1_commit = provider
party processing_r_t1_commit = provider
party p_send_t1_commit = provider
party waiting_r_t2_commit = provider
party processing_r_t2_commit = provider
party p_fulfill_service = provider
party waiting_invalidating_signatures = provider
party _ = requester

-- How far a party has come.
abbrev pub rank : TradeStatus → ℕ
rank waiting_r_t1_commit = 0
rank processing_r_t1_commit = 1
rank p_send_t1_commit = 2
rank waiting_r_t2_commit = 3
rank processing_r_t2_commit = 4
rank p_fulfill_service = 5
rank waiting_invalidating_signatures = 6
rank r_send_t1_commit = 0
rank waiting_p_t1_commit = 1
rank processing_p_t1_commit = 2
rank r_send_t2_commit = 3
rank waiting_for_service = 4

-- The three updates of a procedure.
pub data Update : Type 0 where
  waits processes sends : Update

abbrev pub update_by : Update → TradeStatus → TradeStatus
update_by waits = to_waiting
update_by processes = to_processing
update_by sends = to_send

unfoldable pub update_all : TradeStatus → List Update → TradeStatus
update_all st [] = st
update_all st (u ∷ us) = update_all (update_by u st) us

update_by_lem :
    (u : Update) (st : TradeStatus)
    → (party (update_by u st) ≡ party st)
      × ((update_by u st ≡ st) ⊎ (rank (update_by u st) ≡ suc (rank st)))
update_by_lem waits st = ground arith
update_by_lem processes st = ground arith
update_by_lem sends st = ground arith

-- Whatever updates a trade goes through and in whatever order, it stays on the chain of its party;
-- its rank never falls, and rises by at most one for each update.
pub update_all_lem :
    (st : TradeStatus) (us : List Update)
    → (party (update_all st us) ≡ party st)
      × (rank st ≤ rank (update_all st us))
      × (rank (update_all st us) ≤ rank st + length us)
unfolding update_all
update_all_lem st [] = (refl, omega arith, omega arith)
update_all_lem st (u ∷ us) =
    let one = update_by_lem u st in
    let rest = update_all_lem (update_by u st) us in
    (ground (arith, one.0, rest.0), ground (arith, one.1, rest.1), ground (arith, one.1, rest.2))
