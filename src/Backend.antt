-- ===== src/Backend.antt =====
-- What src/storage.rs uses of its dependencies: the embedded database sled, and bincode, which
-- turns records into the bytes of its values. Both are parameters; the laws are those that the two
-- crates document.
use dse.Base.{List, Option, some, map, ◌≡◌, ◌≢◌}
use dse.Base.Bytes.{Bytes}
use dse.Base.Trees.{put}
use dse.Types.{Query, Bid, IWant, Trade, CommitHistory, WalletsOfInterest}

-- `bincode::serialize` and `bincode::deserialize` at one type.
pub record Codec (Blob A : Type 0) : Type 0 where
  pub serialize : A → Blob
  pub deserialize : Blob → Option A

abbrev pub RoundTrip : {Blob A : Type 0} → Codec Blob A → Type 0
RoundTrip {A} c = (a : A) → c.deserialize (c.serialize a) ≡ some a

-- The database holds trees by their names. Reading an entry and writing one may fail.
pub record Backend : Type 1 where
  pub Db : Type 0
  pub Blob : Type 0
  pub iter : Db → Bytes → List (Option (Bytes × Blob))
  pub insert : Db → Bytes → Bytes → Blob → Option Db
  pub query : Codec Blob Query
  pub bid : Codec Blob Bid
  pub i_want : Codec Blob IWant
  pub trade : Codec Blob Trade
  pub history : Codec Blob CommitHistory
  pub wallets : Codec Blob WalletsOfInterest

-- A database with no I/O error: a tree is an ordered map, trees do not share entries, and what
-- was serialized is read back.
pub record IsSound (e : Backend) : Type 0 where
  pub entries : e.Db → Bytes → List (Bytes × e.Blob)
  pub iter_lem : (d : e.Db) (t : Bytes) → e.iter d t ≡ map some (entries d t)
  pub inserted : e.Db → Bytes → Bytes → e.Blob → e.Db
  pub insert_lem :
      (d : e.Db) (t k : Bytes) (v : e.Blob) → e.insert d t k v ≡ some (inserted d t k v)
  pub entries_same :
      (d : e.Db) (t k : Bytes) (v : e.Blob) → entries (inserted d t k v) t ≡ put k v (entries d t)
  pub entries_other :
      (d : e.Db) (t k : Bytes) (v : e.Blob) (t' : Bytes)
      → t ≢ t'
      → entries (inserted d t k v) t' ≡ entries d t'
  pub query_round : RoundTrip e.query
  pub bid_round : RoundTrip e.bid
  pub i_want_round : RoundTrip e.i_want
  pub trade_round : RoundTrip e.trade
  pub history_round : RoundTrip e.history
  pub wallets_round : RoundTrip e.wallets
