-- ===== src/Examples/Stores.antt =====
-- The theorems of src/storage.rs on the database.
use dse.Base.{◌≡◌, refl, true, false, List, [], ◌∷◌, ◌++◌, none, some, if◌then◌else◌, ok, find}
use dse.Base.Bytes.{bytes_eq, Bytes-discrete}
use dse.Types.{waiting_r_t1_commit, t1}
use dse.Storage.{
  add_active_trade, get_wallets_of_interest, exists, find_commit_history,
  add_commits_to_commit_history,
}
use dse.Storage.Invariant.{IsWellFormed}
use dse.Storage.Frames.{add_active_trade-IsWellFormed}
use dse.Storage.Writes.{
  Write, i_want, active_trade, wallet_of_interest, commits, write_all, wallets_of_interest_lost,
}
use dse.Storage.Histories.{add_commits_to_commit_history_lem, history_with}
use dse.Examples.Memory.{
  Db, memory, memory_sound, empty, a_wallet, b_wallet, trade_with, commit_over, want,
}

pub empty-IsWellFormed : IsWellFormed memory_sound empty
empty-IsWellFormed = record { each = λ t. tt }

abbrev pub one_trade : Db
one_trade = add_active_trade empty (trade_with waiting_r_t1_commit true)

pub one_trade-IsWellFormed : IsWellFormed memory_sound one_trade
one_trade-IsWellFormed =
    add_active_trade-IsWellFormed memory_sound empty (trade_with waiting_r_t1_commit true)
      empty-IsWellFormed

abbrev some_writes : List Write
some_writes =
    active_trade (trade_with waiting_r_t1_commit true)
    ∷ wallet_of_interest a_wallet
    ∷ commits b_wallet (commit_over (1 ∷ 4 ∷ []) t1 ∷ [])
    ∷ i_want want
    ∷ []

wallets_of_interest_lost_example :
    (d' : Db) × (write_all empty some_writes ≡ ok d')
    × (get_wallets_of_interest d' ≡ ok (record { wallets = [] }))
    × (exists (record { wallets = [] }) a_wallet ≡ false)
wallets_of_interest_lost_example =
    wallets_of_interest_lost memory_sound empty some_writes a_wallet (λ t. refl)

add_commits_to_commit_history_example :
    (d' : Db) × (add_commits_to_commit_history one_trade b_wallet (commit_over (1 ∷ 4 ∷ []) t1 ∷ [])
      ≡ ok d')
    × IsWellFormed memory_sound d'
    × (find_commit_history d' b_wallet ≡ (
        if bytes_eq b_wallet b_wallet
        then ok (some (history_with b_wallet ([] ++ commit_over (1 ∷ 4 ∷ []) t1 ∷ [])))
        else find_commit_history one_trade b_wallet))
unfolding find_commit_history add_active_trade find Bytes-discrete
add_commits_to_commit_history_example =
    add_commits_to_commit_history_lem memory_sound one_trade b_wallet
      (commit_over (1 ∷ 4 ∷ []) t1 ∷ []) b_wallet none one_trade-IsWellFormed refl
