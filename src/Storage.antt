-- ===== src/Storage.antt =====
-- src/storage.rs: the node's storage. Each method takes the database and returns what it leaves.
-- The mutex around it makes every method one step; opening a tree is assumed not to fail.
pub mod Names
pub mod Views
pub mod Listings
pub mod Ordered
pub mod Trades
pub mod Invariant
pub mod Histories
pub mod Writes
pub mod Locks
pub mod Queries
pub mod Frames
pub mod Model
use dse.Base.{
  ℕ, ◌+◌, ◌%◌, ◌^◌, Bool, true, false, ◌&&◌, List, [], ◌∷◌, ◌++◌, map, Option, none, some, ◌==◌,
  if◌then◌else◌, find, filter_map, Result, ok, err, panic, ◌>>=◌, or_err, unwrap, Error, not_found,
  db_failed, decode_failed,
}
use dse.Base.Bytes.{Bytes, bytes_eq, to_be_bytes}
use dse.Types.{
  Address, PeerId, Signature, QueryId, Query, Bid, IWant, Trade, Commit, CommitHistory,
  WalletsOfInterest,
}
use dse.Backend.{Backend, Codec}
use Names.{
  active_trades, queries_sent, queries_received, bids_sent, bids_received, commit_history, i_wants,
  wallets_of_interest,
}

-- `WalletsOfInterest::exists` and the search of `HashSet::contains`.
unfoldable pub contains : List Address → Address → Bool
contains [] a = false
contains (w ∷ ws) a = if bytes_eq w a then true else contains ws a

unfoldable pub exists : WalletsOfInterest → Address → Bool
exists ws a = contains ws.wallets a

-- `WalletsOfInterest::add`: a set keeps one copy.
unfoldable pub add : WalletsOfInterest → Address → WalletsOfInterest
unfolding contains
add ws a = if contains ws.wallets a then ws else record { wallets = a ∷ ws.wallets }

-- `CommitHistory::update_invalditing_signature`.
unfoldable pub mark : ℕ → Signature → Commit → Commit
mark id s c = if c.u == id then record c { invalidating_signature = some s } else c

unfoldable pub update_invalidating_signature : CommitHistory → ℕ → Signature → CommitHistory
unfolding mark
update_invalidating_signature h id s = record h { commits = map (mark id s) h.commits }

unfoldable pub add_new_commits : CommitHistory → List Commit → CommitHistory
add_new_commits h cs = record h { commits = h.commits ++ cs }

-- The key of a `u32`.
abbrev pub id_key : ℕ → Bytes
id_key = to_be_bytes 4

-- The tree of the bids received for a query.
abbrev pub bids_of : QueryId → Bytes
bids_of query_id = bids_received ++ id_key query_id

abbrev pub empty_history : Address → CommitHistory
empty_history a = record { wallet_address = a; commits = [] }

abbrev pub history_or_empty : Address → Option CommitHistory → CommitHistory
history_or_empty a none = empty_history a
history_or_empty a (some h) = h

-- An entry that was read, with the given key.
abbrev pub has_key {ℓ} : {V : Type ℓ} → Bytes → Option (Bytes × V) → Bool
has_key k none = false
has_key k (some (j, v)) = bytes_eq j k

module _ {Blob A : Type 0} (c : Codec Blob A) where
  -- `|val| Ok(bincode::deserialize(&val?.1)?)` under `map_or_else`.
  abbrev pub decode_found : Option (Option (Bytes × Blob)) → Result A
  decode_found none = err not_found
  decode_found (some none) = err db_failed
  decode_found (some (some (k, v))) = or_err (c.deserialize v) decode_failed

  -- `|val| bincode::deserialize(&val.unwrap().1).unwrap()` under `map`.
  abbrev pub unwrap_found : Option (Option (Bytes × Blob)) → Result (Option A)
  unwrap_found none = ok none
  unwrap_found (some none) = panic
  unwrap_found (some (some (k, v))) = unwrap (c.deserialize v) >>= λ a. ok (some a)

  -- An entry that cannot be read or decoded is passed over.
  abbrev pub decode_entry : Option (Bytes × Blob) → Option A
  decode_entry none = none
  decode_entry (some (k, v)) = c.deserialize v

module _ ⦃e : Backend⦄ where
  -- `insert`, with its result dropped.
  abbrev pub store : e.Db → Bytes → Bytes → e.Blob → e.Db
  store d tree key value = elim (e.insert d tree key value) [ none ↦ d | some d' ↦ d' ]

  unfoldable pub add_i_want : e.Db → IWant → e.Db
  add_i_want d msg = store d i_wants (id_key msg.id) (e.i_want.serialize msg)

  unfoldable pub add_active_trade : e.Db → Trade → e.Db
  add_active_trade d msg = store d active_trades (id_key msg.id) (e.trade.serialize msg)

  unfoldable pub get_wallets_of_interest : e.Db → Result WalletsOfInterest
  get_wallets_of_interest d =
      unwrap_found e.wallets (find (has_key wallets_of_interest) (e.iter d wallets_of_interest))
      >>= λ found. elim found [ none ↦ ok (record { wallets = [] }) | some ws ↦ ok ws ]

  -- The set is read from one tree and written to another.
  unfoldable pub add_wallet_of_interest : e.Db → Address → Result e.Db
  unfolding get_wallets_of_interest add
  add_wallet_of_interest d wallet_address = do
    prev ← get_wallets_of_interest d
    ok (store d active_trades wallets_of_interest (e.wallets.serialize (add prev wallet_address)))

  unfoldable pub add_bid_received_for_query : e.Db → QueryId → Bid → e.Db
  add_bid_received_for_query d query_id bid =
      store d (bids_of query_id) bid.provider_id (e.bid.serialize bid)

  unfoldable pub add_bid_sent_for_query : e.Db → Bid → Query → e.Db
  add_bid_sent_for_query d bid query = store d bids_sent (id_key query.id) (e.bid.serialize bid)

  unfoldable pub add_query_sent : e.Db → Query → e.Db
  add_query_sent d query = store d queries_sent (id_key query.id) (e.query.serialize query)

  unfoldable pub add_query_received : e.Db → Query → e.Db
  add_query_received d query = store d queries_received (id_key query.id) (e.query.serialize query)

  unfoldable pub add_new_trade : e.Db → Trade → e.Db
  add_new_trade d trade = store d active_trades (id_key trade.id) (e.trade.serialize trade)

  -- An entry that decodes to the history of this wallet.
  abbrev pub is_history_of : Address → Option (Bytes × e.Blob) → Bool
  is_history_of a none = false
  is_history_of a (some (k, v)) = elim (e.history.deserialize v) [
    | none ↦ false
    | some h ↦ bytes_eq h.wallet_address a
  ]

  unfoldable pub find_commit_history : e.Db → Address → Result (Option CommitHistory)
  find_commit_history d wallet_address =
      unwrap_found e.history (find (is_history_of wallet_address) (e.iter d commit_history))

  unfoldable pub add_commits_to_commit_history : e.Db → Address → List Commit → Result e.Db
  unfolding find_commit_history add_new_commits
  add_commits_to_commit_history d wallet_address commits = do
    found ← find_commit_history d wallet_address
    ok (
        store d commit_history wallet_address
          (e.history.serialize (add_new_commits (history_or_empty wallet_address found) commits)))

  unfoldable pub update_commit_history_with_invalidating_signature :
      e.Db → ℕ → Address → Signature → Result e.Db
  unfolding find_commit_history update_invalidating_signature
  update_commit_history_with_invalidating_signature d trade_id wallet_address s = do
    found ← find_commit_history d wallet_address
    ok (
        store d commit_history wallet_address (
          e.history.serialize
            (update_invalidating_signature (history_or_empty wallet_address found) trade_id s)))

  unfoldable pub find_active_trade : e.Db → ℕ → Result Trade
  find_active_trade d iid =
      decode_found e.trade (find (has_key (id_key iid)) (e.iter d active_trades))

  -- The insertion's own error is passed on.
  unfoldable pub update_active_trade : e.Db → Trade → Result e.Db
  unfolding find_active_trade
  update_active_trade d trade = do
    _ ← find_active_trade d trade.id
    or_err (e.insert d active_trades (id_key trade.id) (e.trade.serialize trade)) db_failed

  -- The callers of `update_active_trade` drop its error.
  abbrev pub ignore_err : e.Db → Result e.Db → Result e.Db
  ignore_err d (ok d') = ok d'
  ignore_err d (err x) = ok d
  ignore_err d panic = panic

  unfoldable pub get_active_trades : e.Db → List Trade
  get_active_trades d = filter_map (decode_entry e.trade) (e.iter d active_trades)

  unfoldable pub get_all_queries_sent : e.Db → List Query
  get_all_queries_sent d = filter_map (decode_entry e.query) (e.iter d queries_sent)

  unfoldable pub get_all_queries_recv : e.Db → List Query
  get_all_queries_recv d = filter_map (decode_entry e.query) (e.iter d queries_received)

  unfoldable pub find_all_bids_recv_by_query_id : e.Db → QueryId → List Bid
  find_all_bids_recv_by_query_id d query_id =
      filter_map (decode_entry e.bid) (e.iter d (bids_of query_id))

  unfoldable pub find_query_sent_by_query_id : e.Db → QueryId → Result Query
  find_query_sent_by_query_id d query_id =
      decode_found e.query (find (has_key (id_key query_id)) (e.iter d queries_sent))

  unfoldable pub find_i_want : e.Db → ℕ → Result (Option IWant)
  find_i_want d iid = unwrap_found e.i_want (find (has_key (id_key iid)) (e.iter d i_wants))

  unfoldable pub find_query_received_by_query_id : e.Db → QueryId → Result Query
  find_query_received_by_query_id d query_id =
      decode_found e.query (find (has_key (id_key query_id)) (e.iter d queries_received))

  unfoldable pub find_bid_sent_by_query_id : e.Db → QueryId → Result Bid
  find_bid_sent_by_query_id d query_id =
      decode_found e.bid (find (has_key (id_key query_id)) (e.iter d bids_sent))

  -- An entry that decodes to this provider's bid for this query.
  abbrev pub is_bid_of : QueryId → PeerId → Option (Bytes × e.Blob) → Bool
  is_bid_of q p none = false
  is_bid_of q p (some (k, v)) = elim (e.bid.deserialize v) [
    | none ↦ false
    | some b ↦ b.query_id == q && bytes_eq b.provider_id p
  ]

  unfoldable pub find_bid_received : e.Db → QueryId → PeerId → Result Bid
  find_bid_received d query_id provider_id =
      decode_found e.bid (find (is_bid_of query_id provider_id) (e.iter d (bids_of query_id)))

-- What `client_id_counter` starts with.
abbrev pub client_id_counter : ℕ
client_id_counter = 1

-- `fetch_add` on an `AtomicUsize`: the old value is returned, and the counter wraps.
unfoldable pub next_client_id : ℕ → ℕ × ℕ
next_client_id counter = (counter, (counter + 1) % 2 ^ 64)
