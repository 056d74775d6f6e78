-- ===== src/Procedure.antt =====
-- src/commit_procedure.rs: the two procedures of a trade. `verify` runs when a commit has come in,
-- `send` when one is to go out. What the network answers is an argument.
pub mod Status
pub mod Verify
pub mod Send
use dse.Base.{
  ℕ, Bool, true, false, List, [], ◌∷◌, Option, none, some, if◌then◌else◌, Result, ok, err, panic,
  unwrap, ◌>>=◌,
}
use dse.Types.{
  Address, PeerId, TradeStatus, waiting_r_t1_commit, r_send_t1_commit, processing_r_t1_commit,
  waiting_p_t1_commit, p_send_t1_commit, processing_p_t1_commit, waiting_r_t2_commit,
  r_send_t2_commit, processing_r_t2_commit, waiting_for_service, p_fulfill_service, Trade,
  update_status, counter_party_details, Commit, CommitType, t1, CommitHistory,
}
use dse.Types.Messages.{
  ExchangeRequest, t1_requester_commit, t1_provider_commit, t2_requester_commit, ExchangeResponse,
}
use dse.Backend.{Backend}
use dse.Storage.{
  update_active_trade, ignore_err, get_wallets_of_interest, exists, add_wallet_of_interest,
  find_commit_history,
}
use dse.Commit.{Crypto, is_commit_valid, are_indexes_in_conflict}
use dse.EthNode.{EthNode, zero_address, owner_address, self_address}
use dse.Loading.{LoopEvent, Progress, going, done, panicked, load_commit_history}

pub data CommitProcedureEvent : Type 0 where
  send_success send_failed : ℕ → CommitProcedureEvent

-- The statuses before and after: SEND to WAITING, WAITING to PROCESSING, PROCESSING to SEND.
abbrev pub to_waiting : TradeStatus → TradeStatus
to_waiting p_send_t1_commit = waiting_r_t2_commit
to_waiting r_send_t1_commit = waiting_p_t1_commit
to_waiting r_send_t2_commit = waiting_for_service
to_waiting st = st

abbrev pub to_processing : TradeStatus → TradeStatus
to_processing waiting_r_t1_commit = processing_r_t1_commit
to_processing waiting_p_t1_commit = processing_p_t1_commit
to_processing waiting_r_t2_commit = processing_r_t2_commit
to_processing st = st

abbrev pub to_send : TradeStatus → TradeStatus
to_send processing_r_t1_commit = p_send_t1_commit
to_send processing_p_t1_commit = r_send_t2_commit
to_send processing_r_t2_commit = p_fulfill_service
to_send st = st

-- `find_commitment` makes the same empty commit for every trade.
abbrev pub empty_commit : Commit
empty_commit = record {
  indexes = [];
  epoch = 0;
  u = 0;
  c_type = t1;
  i_address = zero_address;
  r_address = zero_address;
  signature = none;
  invalidating_signature = none;
  wallet_address = zero_address;
}

unfoldable pub find_commitment : Trade → Option Commit
find_commitment trade = some empty_commit

abbrev pub request_of : TradeStatus → ℕ → Commit → Option ExchangeRequest
request_of r_send_t1_commit id c = some (t1_requester_commit id c)
request_of p_send_t1_commit id c = some (t1_provider_commit id c)
request_of r_send_t2_commit id c = some (t2_requester_commit id c)
request_of _ id c = none

unfoldable pub create_send_request : Trade → Commit → Option ExchangeRequest
create_send_request trade c = request_of trade.status trade.id c

-- The peer and the request that `send` puts on the network.
unfoldable pub outgoing : Trade → Result (PeerId × ExchangeRequest)
unfolding find_commitment create_send_request
outgoing trade = do
  commit ← unwrap (find_commitment trade)
  request ← unwrap (create_send_request trade commit)
  ok ((counter_party_details trade).0, request)

module _ ⦃e : Backend⦄ where
  unfoldable pub update_trade_waiting_status : e.Db → Trade → Result e.Db
  update_trade_waiting_status d trade =
      ignore_err d (update_active_trade d (update_status trade (to_waiting trade.status)))

  -- The procedure goes on with its own copy of the trade.
  unfoldable pub update_trade_processing_status : e.Db → Trade → Result (e.Db × Trade)
  update_trade_processing_status d trade =
      let trade' : Trade = update_status trade (to_processing trade.status) in
      ignore_err d (update_active_trade d trade') >>= λ d'. ok (d', trade')

  unfoldable pub update_trade_send_status : e.Db → Trade → Result e.Db
  update_trade_send_status d trade =
      ignore_err d (update_active_trade d (update_status trade (to_send trade.status)))

  -- What became of a `verify`: it may still wait for a commit history.
  pub data Verification : Type 0 where
    verified : e.Db → Verification
    loading : e.Db → Verification
    crashed : Verification

  abbrev pub settled : Result e.Db → Verification
  settled (ok d) = verified d
  settled (err x) = crashed
  settled panic = crashed

  -- The search for a conflict, whose outcome is dropped, and the last status.
  unfoldable pub finish_verify : e.Db → Trade → Commit → Result e.Db
  unfolding update_trade_send_status
  finish_verify d trade commit = find_commit_history d commit.wallet_address >>= λ found.
      let conflict : Option (Unit {0}) = elim found [
        | none ↦ none
        | some h ↦ some (are_indexes_in_conflict h commit.indexes)
      ] in
      update_trade_send_status d trade

  -- After the load, whether or not it succeeded.
  abbrev pub after_load : Progress → Trade → Commit → Verification
  after_load (going ls d asked) trade commit = loading d
  after_load (done r d asked) trade commit =
      settled
        (add_wallet_of_interest d commit.wallet_address >>= λ d'. finish_verify d' trade commit)
  after_load panicked trade commit = crashed

  module _ (k : Crypto) (node : EthNode) where
    abbrev pub track :
        Bool
        → e.Db
        → Trade
        → Commit
        → Result (List PeerId)
        → Bool
        → ℕ
        → List LoopEvent
        → Verification
    track true d trade commit dht subscribed now events = settled (finish_verify d trade commit)
    track false d trade commit dht subscribed now events =
        after_load (load_commit_history k node dht subscribed now d commit.wallet_address events)
          trade commit

    abbrev pub after_processing :
        Result (e.Db × Trade)
        → Commit
        → Result (List PeerId)
        → Bool
        → ℕ
        → List LoopEvent
        → Verification
    after_processing (ok (d, trade)) commit dht subscribed now events =
        elim (get_wallets_of_interest d) [
          | ok ws ↦ track (exists ws commit.wallet_address) d trade commit dht subscribed now events
          | _ ↦ crashed
        ]
    after_processing _ commit dht subscribed now events = crashed

    -- The test of the commit has an empty branch: nothing depends on it.
    unfoldable pub verify :
        e.Db → Trade → Commit → Result (List PeerId) → Bool → ℕ → List LoopEvent → Verification
    unfolding update_trade_processing_status finish_verify
    verify d trade commit dht subscribed now events =
        let valid : Bool =
          is_commit_valid k commit trade (owner_address node commit.wallet_address)
            (self_address node) in
        after_processing (update_trade_processing_status d trade) commit dht subscribed now events

  abbrev pub after_send :
      e.Db → Trade → Result ExchangeResponse → Result (e.Db × CommitProcedureEvent)
  after_send d trade (ok response) =
      update_trade_waiting_status d trade >>= λ d'. ok (d', send_success trade.id)
  after_send d trade (err x) = ok (d, send_failed trade.id)
  after_send d trade panic = panic

  unfoldable pub send :
      e.Db → Trade → Result ExchangeResponse → Result (e.Db × CommitProcedureEvent)
  unfolding outgoing update_trade_waiting_status
  send d trade answer = outgoing trade >>= λ sent. after_send d trade answer
