-- ===== src/Examples/Commits.antt =====
-- The theorems of src/storage.rs on commits.
use dse.Base.{◌⊎◌, ℕ, ◌≡◌, refl, true, List, [], ◌∷◌, none, some, arith, inl, ◌↔◌}
use dse.Base.Bytes.{Bytes-discrete}
use dse.Types.{Commit, t1, t2, waiting_r_t1_commit}
use dse.EthNode.{zero_address}
use dse.Commit.{is_commit_valid, commit_blob, find_conflict, ranges_overlap}
use dse.Commit.Validity.{IsValid, is_commit_valid_iff, is_commit_valid_reused}
use dse.Commit.Hash.{InRange, commit_blob_binds}
use dse.Commit.Conflict.{Covers, find_conflict_complete, ranges_overlap_in_gap}
use dse.Examples.Memory.{crypto, trade_with, commit_over, a_wallet, b_wallet}

is_commit_valid_iff_example :
    (is_commit_valid crypto
        (commit_over (1 ∷ 4 ∷ []) t1)
        (trade_with waiting_r_t1_commit true)
        zero_address
        a_wallet
      ≡ true)
    ↔ IsValid crypto
        (commit_over (1 ∷ 4 ∷ []) t1)
        (trade_with waiting_r_t1_commit true)
        zero_address
        a_wallet
is_commit_valid_iff_example =
    is_commit_valid_iff crypto (commit_over (1 ∷ 4 ∷ []) t1) (trade_with waiting_r_t1_commit true)
      zero_address a_wallet

is_commit_valid_reused_example :
    is_commit_valid crypto
      (commit_over (6 ∷ 9 ∷ []) t1)
      (trade_with waiting_r_t1_commit true)
      zero_address
      a_wallet
    ≡ true
unfolding is_commit_valid Bytes-discrete
is_commit_valid_reused_example =
    is_commit_valid_reused crypto (commit_over (1 ∷ 4 ∷ []) t1)
      (trade_with waiting_r_t1_commit true) zero_address a_wallet (6 ∷ 9 ∷ []) b_wallet none refl
      ((omega arith, tt), (tt, tt))

in_range : (xs : List ℕ) → InRange (commit_over xs t2)
in_range xs = record {
  epoch_fits = omega arith;
  u_fits = omega arith;
  i_address_fits = refl;
  r_address_fits = refl;
}

commit_blob_binds_example :
    ((commit_over (1 ∷ 4 ∷ []) t2).epoch ≡ (commit_over (2 ∷ 3 ∷ []) t2).epoch)
    × ((commit_over (1 ∷ 4 ∷ []) t2).u ≡ (commit_over (2 ∷ 3 ∷ []) t2).u)
    × ((commit_over (1 ∷ 4 ∷ []) t2).c_type ≡ (commit_over (2 ∷ 3 ∷ []) t2).c_type)
    × ((commit_over (1 ∷ 4 ∷ []) t2).i_address ≡ (commit_over (2 ∷ 3 ∷ []) t2).i_address)
    × (((commit_over (1 ∷ 4 ∷ []) t2).c_type ≡ t1)
        ⊎ ((commit_over (1 ∷ 4 ∷ []) t2).r_address ≡ (commit_over (2 ∷ 3 ∷ []) t2).r_address))
unfolding commit_blob
commit_blob_binds_example =
    commit_blob_binds (commit_over (1 ∷ 4 ∷ []) t2) (commit_over (2 ∷ 3 ∷ []) t2)
      (in_range (1 ∷ 4 ∷ [])) (in_range (2 ∷ 3 ∷ [])) refl

find_conflict_complete_example :
    (other : Commit) × (find_conflict
        (record { wallet_address = b_wallet; commits = commit_over (1 ∷ 4 ∷ []) t1 ∷ [] })
        (3 ∷ 8 ∷ [])
      ≡ some other)
find_conflict_complete_example =
    find_conflict_complete
      (record { wallet_address = b_wallet; commits = commit_over (1 ∷ 4 ∷ []) t1 ∷ [] }) [] []
      (commit_over (1 ∷ 4 ∷ []) t1) (3 ∷ 8 ∷ []) 3 refl refl (inl (omega arith, omega arith))
      (inl (omega arith, omega arith))

ranges_overlap_in_gap_example :
    (ranges_overlap (5 ∷ 6 ∷ []) (1 ∷ 3 ∷ 8 ∷ 9 ∷ []) ≡ true)
    × ((x : ℕ) → ¬ (Covers (5 ∷ 6 ∷ []) x × Covers (1 ∷ 3 ∷ 8 ∷ 9 ∷ []) x))
ranges_overlap_in_gap_example =
    ranges_overlap_in_gap 1 3 8 9 5 6 (omega arith) (omega arith) (omega arith) (omega arith)
      (omega arith)
