-- ===== src/Storage/Listings.antt =====
-- src/storage.rs: what a search finds in a tree is also listed.
use dse.Base.{
  ◌≡◌, Bool, true, false, List, [], ◌∷◌, Option, none, some, ok, find, filter_map, consider, or_err,
  decode_failed, if◌then◌else◌, All, subst, ℕ,
}
use dse.Base.Bytes.{Bytes}
use dse.Types.{Trade}
use dse.Backend.{Backend, Codec}
use dse.Storage.{decode_found, decode_entry, find_active_trade, get_active_trades, has_key, id_key}
use dse.Storage.Names.{active_trades}

module _ {Blob A : Type 0} (c : Codec Blob A) (P : A → Type 0)
    (p : Option (Bytes × Blob) → Bool) where
  All-rest : (o : Option A) (bs : List A) → All P (consider o bs) → All P bs
  All-rest none bs h = h
  All-rest (some b) bs h = h.1

  taken :
      (o : Option A) (bs : List A) (a : A)
      → All P (consider o bs)
      → or_err o decode_failed ≡ ok a
      → P a
  taken none bs a h q = absurd (cc)
  taken (some b) bs a h q = let same : b ≡ a = cc in subst P same h.0

  pub All-found :
      (xs : List (Option (Bytes × Blob))) (a : A)
      → All P (filter_map (decode_entry c) xs)
      → decode_found c (find p xs) ≡ ok a
      → P a
  unfolding filter_map find
  All-found [] a h q = absurd (cc)
  All-found (x ∷ xs) a h q = by_test x (p x) h q (All-found xs a)
    where
      by_test :
          (x : Option (Bytes × Blob)) (b : Bool)
          → All P (consider (decode_entry c x) (filter_map (decode_entry c) xs))
          → decode_found c (if b then some x else find p xs) ≡ ok a
          → (All P (filter_map (decode_entry c) xs) → decode_found c (find p xs) ≡ ok a → P a)
          → P a
      by_test none true h q next = absurd (cc)
      by_test (some (k, v)) true h q next =
          taken (c.deserialize v) (filter_map (decode_entry c) xs) a h q
      by_test x false h q next =
          next (All-rest (decode_entry c x) (filter_map (decode_entry c) xs) h) q

module _ ⦃e : Backend⦄ where
  -- What holds of every listed trade holds of a trade that is found.
  pub get_active_trades-found :
      (d : e.Db) (P : Trade → Type 0) (id : ℕ) (t : Trade)
      → All P (get_active_trades d)
      → find_active_trade d id ≡ ok t
      → P t
  unfolding get_active_trades find_active_trade
  get_active_trades-found d P id t h q =
      All-found e.trade P (has_key (id_key id)) (e.iter d active_trades) t h q
