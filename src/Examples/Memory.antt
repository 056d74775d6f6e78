-- ===== src/Examples/Memory.antt =====
-- A database in memory that keeps what sled and bincode promise, and test data.
use dse.Base.{
  ◌≡◌, ◌≢◌, ℕ, refl, Bool, List, [], ◌∷◌, map, Option, none, some, ite, replicate, arith,
}
use dse.Base.Bytes.{Bytes, Bytes-discrete}
use dse.Base.Trees.{put}
use dse.Types.{
  TradeQuote, Address, PeerId, Query, Bid, IWant, Trade, TradeStatus, Commit, CommitType,
  CommitHistory, WalletsOfInterest,
}
use dse.Backend.{Backend, IsSound}
use dse.Commit.{Crypto}
use dse.EthNode.{EthNode, zero_address}

pub data Stored : Type 0 where
  a_query : Query → Stored
  a_bid : Bid → Stored
  a_want : IWant → Stored
  a_trade : Trade → Stored
  a_history : CommitHistory → Stored
  some_wallets : WalletsOfInterest → Stored

abbrev read_query : Stored → Option Query
read_query (a_query x) = some x
read_query _ = none

abbrev read_bid : Stored → Option Bid
read_bid (a_bid x) = some x
read_bid _ = none

abbrev read_want : Stored → Option IWant
read_want (a_want x) = some x
read_want _ = none

abbrev read_trade : Stored → Option Trade
read_trade (a_trade x) = some x
read_trade _ = none

abbrev read_history : Stored → Option CommitHistory
read_history (a_history x) = some x
read_history _ = none

abbrev read_wallets : Stored → Option WalletsOfInterest
read_wallets (some_wallets x) = some x
read_wallets _ = none

-- The entries of each tree.
abbrev pub Db : Type 0
Db = Bytes → List (Bytes × Stored)

abbrev pub inserted : Db → Bytes → Bytes → Stored → Db
inserted d t k v u = ite (Bytes-discrete t u) (put k v (d u)) (d u)

instance abbrev pub memory : Backend
memory = record {
  Db = Db;
  Blob = Stored;
  iter = λ d t. map some (d t);
  insert = λ d t k v. some (inserted d t k v);
  query = record { serialize = a_query; deserialize = read_query };
  bid = record { serialize = a_bid; deserialize = read_bid };
  i_want = record { serialize = a_want; deserialize = read_want };
  trade = record { serialize = a_trade; deserialize = read_trade };
  history = record { serialize = a_history; deserialize = read_history };
  wallets = record { serialize = some_wallets; deserialize = read_wallets };
}

pub inserted-same : (d : Db) (t k : Bytes) (v : Stored) → inserted d t k v t ≡ put k v (d t)
inserted-same d t k v = ground arith

pub inserted-other :
    (d : Db) (t k : Bytes) (v : Stored) (u : Bytes) → t ≢ u → inserted d t k v u ≡ d u
inserted-other d t k v u ne = ground arith

abbrev pub memory_sound : IsSound memory
memory_sound = record {
  entries = λ d t. d t;
  iter_lem = λ d t. refl;
  inserted = inserted;
  insert_lem = λ d t k v. refl;
  entries_same = inserted-same;
  entries_other = inserted-other;
  query_round = λ a. refl;
  bid_round = λ a. refl;
  i_want_round = λ a. refl;
  trade_round = λ a. refl;
  history_round = λ a. refl;
  wallets_round = λ a. refl;
}

abbrev pub empty : Db
empty t = []

-- A hash that keeps its input, and signatures that consist of their signer: here the zero address,
-- which the node takes for the owner of every wallet.
abbrev pub crypto : Crypto
crypto = record { keccak256 = λ b. b; recover = λ g hash. some g }

abbrev pub alice : PeerId
alice = 1 ∷ 2 ∷ []

abbrev pub bob : PeerId
bob = 3 ∷ 4 ∷ []

abbrev pub a_wallet : Address
a_wallet = replicate 20 7

abbrev pub b_wallet : Address
b_wallet = replicate 20 9

abbrev pub node : EthNode
node = record { wallet_address = a_wallet; timelocked_wallet = b_wallet }

-- The trade 5 that Bob provides to Alice, stored by Alice with the status given.
abbrev pub trade_with : TradeStatus → Bool → Trade
trade_with status is_requester = record {
  id = 5;
  requester_addr = 11 ∷ [];
  requester_id = alice;
  provider_addr = 12 ∷ [];
  provider_id = bob;
  charge = 100;
  status = status;
  is_requester = is_requester;
}

abbrev pub commit_over : List ℕ → CommitType → Commit
commit_over indexes c_type = record {
  indexes = indexes;
  epoch = 0;
  u = 5;
  c_type = c_type;
  i_address = a_wallet;
  r_address = zero_address;
  wallet_address = b_wallet;
  signature = some zero_address;
  invalidating_signature = none;
}

abbrev pub want : IWant
want = record { requester_id = alice; requester_addr = 11 ∷ []; id = 5 }

abbrev pub bid : Bid
bid = record {
  query_id = 1;
  provider_addr = 12 ∷ [];
  provider_id = bob;
  provider_wallet_address = b_wallet;
  charge = 100;
}

abbrev pub query_of : ℕ → Query
query_of id = record {
  id = id;
  query_data = record { query_string = "weather" };
  requester_addr = 11 ∷ [];
  requester_id = alice;
  requester_wallet_address = a_wallet;
}

abbrev pub quote : TradeQuote
quote = record { charge = 100; id = 5 }

abbrev pub signer : Address
signer = zero_address
