-- ===== src/Storage/Histories.antt =====
-- src/storage.rs: commit histories, found by their wallet, and the two operations that write them.
use dse.Base.{
  ℕ, ◌≡◌, refl, sym, List, [], ◌∷◌, ◌++◌, ap, ◌∙◌, map, Option, none, some, if◌then◌else◌, find, ok,
  All, arith, ◌⊎◌, inl, inr, Option-cases,
}
use dse.Base.Bytes.{Bytes, bytes_eq}
use dse.Base.Trees.{lookup, lookup-put, lookup-All}
use dse.Types.{Address, Signature, Commit, CommitHistory}
use dse.Backend.{Backend, IsSound}
use dse.Storage.{
  store, is_history_of, find_commit_history, add_new_commits, update_invalidating_signature,
  history_or_empty, add_commits_to_commit_history,
  update_commit_history_with_invalidating_signature,
}
use dse.Storage.Names.{commit_history}
use dse.Storage.Views.{entry_of, unwrap_value, unwrap_found-entry_of, value_at, entries-store_same}
use dse.Storage.Invariant.{Tree, IsEntry, IsWellFormed, store-IsWellFormed}

-- The commits of a wallet, by what the search for its history finds.
abbrev pub commits_of : Option CommitHistory → List Commit
commits_of none = []
commits_of (some h) = h.commits

abbrev pub history_with : Address → List Commit → CommitHistory
history_with a cs = record { wallet_address = a; commits = cs }

module _ ⦃e : Backend⦄ (s : IsSound e) where
  -- The search by the decoded wallet is the search by the key.
  find-is_history_of :
      (a : Address) (m : List (Bytes × e.Blob))
      → All (IsEntry Tree.histories) m
      → find (is_history_of a) (map some m) ≡ entry_of a (lookup a m)
  unfolding find lookup
  find-is_history_of a [] h = refl
  find-is_history_of a ((j, w) ∷ m) ((x, p, q), h) =
      ground (arith, s.history_round x, find-is_history_of a m h)

  pub find_commit_history-value :
      (d : e.Db) (a : Address)
      → IsWellFormed s d
      → find_commit_history d a ≡ unwrap_value e.history (value_at s d commit_history a)
  unfolding find_commit_history
  find_commit_history-value d a w =
      rw
        (
          s.iter_lem d commit_history,
          find-is_history_of a (s.entries d commit_history) (w.each Tree.histories),
        )
        (unwrap_found-entry_of e.history a (value_at s d commit_history a))

  -- On a well-formed database the search never panics, and what it finds is this wallet's.
  pub find_commit_history_total :
      (d : e.Db) (a : Address)
      → IsWellFormed s d
      → (find_commit_history d a ≡ ok none)
        ⊎ ((h : CommitHistory) × (find_commit_history d a ≡ ok (some h)) × (h.wallet_address ≡ a))
  find_commit_history_total d a w = elim (Option-cases (value_at s d commit_history a)) [
    | inl p ↦ inl (ground (arith, find_commit_history-value d a w))
    | inr (v, p) ↦
        let (h, k, q) =
          lookup-All (IsEntry Tree.histories) a (s.entries d commit_history) (w.each Tree.histories)
            p in
        inr (h, ground (arith, find_commit_history-value d a w, s.history_round h), sym k)
  ]

  -- The write that both updates of a history end with.
  abbrev pub put_history : e.Db → Address → CommitHistory → e.Db
  put_history d a h = store d commit_history a (e.history.serialize h)

  module _ (d : e.Db) (w : IsWellFormed s d) (a : Address) where
    pub put_history-IsWellFormed :
        (h : CommitHistory) → h.wallet_address ≡ a → IsWellFormed s (put_history d a h)
    put_history-IsWellFormed h k =
        store-IsWellFormed s d Tree.histories a (e.history.serialize h) (h, sym k, refl) w

    pub find_commit_history-put_history :
        (h : CommitHistory) (b : Address)
        → h.wallet_address ≡ a
        → find_commit_history (put_history d a h) b
          ≡ (if bytes_eq a b then ok (some h) else find_commit_history d b)
    find_commit_history-put_history h b k = ground (
      arith,
      find_commit_history-value d b w,
      find_commit_history-value (put_history d a h) b (put_history-IsWellFormed h k),
      entries-store_same s d commit_history a (e.history.serialize h),
      lookup-put a b (e.history.serialize h) (s.entries d commit_history),
      s.history_round h,
    )

    pub history_or_empty-wallet :
        (found : Option CommitHistory)
        → find_commit_history d a ≡ ok found
        → (history_or_empty a found).wallet_address ≡ a
    history_or_empty-wallet none p = refl
    history_or_empty-wallet (some h) p = elim (find_commit_history_total d a w) [
      | inl q ↦ ground arith
      | inr (g, q, k) ↦ ground arith
    ]

  -- The commits are appended.
  pub add_new_commits-commits_of :
      (d : e.Db) (a : Address) (cs : List Commit) (found : Option CommitHistory)
      → IsWellFormed s d
      → find_commit_history d a ≡ ok found
      → add_new_commits (history_or_empty a found) cs ≡ history_with a (commits_of found ++ cs)
  unfolding add_new_commits
  add_new_commits-commits_of d a cs none w p = refl
  add_new_commits-commits_of d a cs (some h) w p =
      ap (λ x. history_with x (h.commits ++ cs)) (history_or_empty-wallet d w a (some h) p)

  pub add_commits_to_commit_history_ok :
      (d : e.Db) (a : Address) (cs : List Commit) (b : Address) (found : Option CommitHistory)
      → IsWellFormed s d
      → find_commit_history d a ≡ ok found
      → (d' : e.Db) × (add_commits_to_commit_history d a cs ≡ ok d')
        × IsWellFormed s d'
        × (find_commit_history d' b ≡ (
            if bytes_eq a b
            then ok (some (add_new_commits (history_or_empty a found) cs))
            else find_commit_history d b))
  unfolding add_commits_to_commit_history
  add_commits_to_commit_history_ok d a cs b found w p =
      let h = add_new_commits (history_or_empty a found) cs in
      let k = history_or_empty-wallet d w a found p in
      (
        put_history d a h,
        ground arith,
        put_history-IsWellFormed d w a h k,
        find_commit_history-put_history d w a h b k,
      )

  -- Adding commits to a wallet succeeds and keeps the database well formed. Afterwards the wallet's
  -- history has the commits that it had before, or none if it had no history, followed by the new
  -- ones; every other wallet's history is found as before.
  pub add_commits_to_commit_history_lem :
      (d : e.Db) (a : Address) (cs : List Commit) (b : Address) (found : Option CommitHistory)
      → IsWellFormed s d
      → find_commit_history d a ≡ ok found
      → (d' : e.Db) × (add_commits_to_commit_history d a cs ≡ ok d')
        × IsWellFormed s d'
        × (find_commit_history d' b ≡ (
            if bytes_eq a b
            then ok (some (history_with a (commits_of found ++ cs)))
            else find_commit_history d b))
  add_commits_to_commit_history_lem d a cs b found w p =
      let (d', q, w', f) = add_commits_to_commit_history_ok d a cs b found w p in
      let appended = add_new_commits-commits_of d a cs found w p in
      (d', q, w', f ∙ rw appended refl)

  -- Recording an invalidating signature succeeds and keeps the database well formed. Afterwards the
  -- wallet's history has it on the commits of the trade and on no other; a wallet with no history
  -- gets an empty one; every other wallet's history is found as before.
  pub update_commit_history_with_invalidating_signature_lem :
      (d : e.Db) (id : ℕ) (a : Address) (g : Signature) (b : Address) (found : Option CommitHistory)
      → IsWellFormed s d
      → find_commit_history d a ≡ ok found
      → (d' : e.Db) × (update_commit_history_with_invalidating_signature d id a g ≡ ok d')
        × IsWellFormed s d'
        × (find_commit_history d' b ≡ (
            if bytes_eq a b
            then ok (some (update_invalidating_signature (history_or_empty a found) id g))
            else find_commit_history d b))
  unfolding update_commit_history_with_invalidating_signature
  update_commit_history_with_invalidating_signature_lem d id a g b found w p =
      let h = update_invalidating_signature (history_or_empty a found) id g in
      let k = history_or_empty-wallet d w a found p in
      (
        put_history d a h,
        ground arith,
        put_history-IsWellFormed d w a h k,
        find_commit_history-put_history d w a h b k,
      )

  pub find_commit_history_ok :
      (d : e.Db) (a : Address)
      → IsWellFormed s d
      → (found : Option CommitHistory) × (find_commit_history d a ≡ ok found)
  find_commit_history_ok d a w = elim (find_commit_history_total d a w) [
    | inl p ↦ (none, p)
    | inr (h, p, _) ↦ (some h, p)
  ]
