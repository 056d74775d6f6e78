-- ===== src/Commit.antt =====
-- src/storage.rs: commits, their hashes and the test of a received commit. The hash function and
-- the recovery of a signer are those of the crate `ethers`, and parameters here.
pub mod Hash
pub mod Validity
pub mod Conflict
use dse.Base.{
  ℕ, ◌≤◌, Bool, true, false, not, ◌&&◌, ◌||◌, List, [], ◌∷◌, ◌++◌, Option, none, some, leb, ltb,
  ◌==◌, if◌then◌else◌, find, replicate,
}
use dse.Base.Bytes.{Bytes, bytes_eq, to_le_bytes}
use dse.Types.{
  Address, Signature, TradeStatus, waiting_r_t1_commit, waiting_p_t1_commit, waiting_r_t2_commit,
  Trade, CommitType, t1, t2, commit_type_code, Commit, CommitHistory,
}

-- `keccak256` and `Signature::recover`.
pub record Crypto : Type 0 where
  pub keccak256 : Bytes → Bytes
  pub recover : Signature → Bytes → Option Address

-- The last part of a blob: the receiving address, for a commit of type 2.
abbrev pub r_part : CommitType → Address → Bytes
r_part t1 r = []
r_part t2 r = r

-- Bytes 0 to 64 stay zero; the three integers take 32 bytes each.
unfoldable pub commit_blob : Commit → Bytes
commit_blob c =
    replicate 64 0
    ++ (to_le_bytes 32 c.epoch
        ++ (to_le_bytes 32 c.u
            ++ (to_le_bytes 32 (commit_type_code c.c_type)
                ++ (c.i_address ++ r_part c.c_type c.r_address))))

-- `for i in 1..self.indexes.len()`: no index is below the one before it.
unfoldable pub is_increasing : List ℕ → Bool
is_increasing [] = true
is_increasing (x ∷ []) = true
is_increasing (x ∷ y ∷ r) = if ltb y x then false else is_increasing (y ∷ r)

abbrev pub is_waiting : TradeStatus → Bool
is_waiting waiting_r_t1_commit = true
is_waiting waiting_p_t1_commit = true
is_waiting waiting_r_t2_commit = true
is_waiting _ = false

-- `signing_address().map_or_else(|| true, |a| a != *owner_address)`, negated.
abbrev pub is_signed_by : Option Address → Address → Bool
is_signed_by none owner = false
is_signed_by (some a) owner = bytes_eq a owner

module _ (k : Crypto) where
  unfoldable pub commit_hash : Commit → Bytes
  unfolding commit_blob
  commit_hash c = k.keccak256 (commit_blob c)

  abbrev pub recover_from : Option Signature → Bytes → Option Address
  recover_from none hash = none
  recover_from (some g) hash = k.recover g hash

  unfoldable pub signing_address : Commit → Option Address
  signing_address c = recover_from c.signature (commit_hash c)

  unfoldable pub is_commit_valid : Commit → Trade → Address → Address → Bool
  unfolding is_increasing signing_address
  is_commit_valid c trade owner_address self_address =
      if not (is_increasing c.indexes)
      then false
      else if not (c.u == trade.id)
      then false
      else if not (is_signed_by (signing_address c) owner_address)
      then false
      else if (trade.is_requester && not (bytes_eq c.i_address self_address))
          || (not trade.is_requester && not (bytes_eq c.i_address owner_address))
      then false
      else is_waiting trade.status

-- The inner loop: every two consecutive indexes, whether or not they are a range.
unfoldable pub overlaps : ℕ → ℕ → List ℕ → Bool
overlaps lo hi [] = false
overlaps lo hi (a ∷ []) = false
overlaps lo hi (a ∷ b ∷ r) = if leb lo b && leb a hi then true else overlaps lo hi (b ∷ r)

-- The outer loop: the ranges of the commit.
unfoldable pub ranges_overlap : List ℕ → List ℕ → Bool
unfolding overlaps
ranges_overlap [] indexes = false
ranges_overlap (lo ∷ []) indexes = false
ranges_overlap (lo ∷ hi ∷ r) indexes =
    if overlaps lo hi indexes then true else ranges_overlap r indexes

abbrev pub is_invalidated : CommitType → Option Signature → Bool
is_invalidated t1 (some g) = true
is_invalidated _ _ = false

unfoldable pub is_in_conflict : List ℕ → Commit → Bool
unfolding ranges_overlap
is_in_conflict indexes c =
    if is_invalidated c.c_type c.invalidating_signature
    then false
    else ranges_overlap c.indexes indexes

-- What `are_indexes_in_conflict` searches for, and then drops.
unfoldable pub find_conflict : CommitHistory → List ℕ → Option Commit
unfolding is_in_conflict
find_conflict h indexes = find (is_in_conflict indexes) h.commits

unfoldable pub are_indexes_in_conflict : CommitHistory → List ℕ → Unit {0}
unfolding find_conflict
are_indexes_in_conflict h indexes = let found = find_conflict h indexes in tt
