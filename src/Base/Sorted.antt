-- ===== src/Base/Sorted.antt =====
-- The order of the keys in a tree: it is kept by an insertion, and so every entry is the one that a
-- search for its key finds.
use mathlib.Core.Path.{◌≡◌, refl, subst}
use mathlib.Core.Logic.{◌⊎◌, inl, inr}
use mathlib.Core.Bool.{true, false}
use mathlib.Core.Option.{some}
use mathlib.Core.List.{List, [], ◌∷◌}
use native.Mathlib.Omega.{arith}
use dse.Base.Lists.{All}
use dse.Base.Bytes.{Bytes, bytes_lt}
use dse.Base.Trees.{put, lookup, All-put}

bytes_lt_trans : (a b c : Bytes) → bytes_lt a b ≡ true → bytes_lt b c ≡ true → bytes_lt a c ≡ true
unfolding bytes_lt
bytes_lt_trans [] [] c p q = absurd (cc)
bytes_lt_trans [] (y ∷ b) [] p q = absurd (cc)
bytes_lt_trans [] (y ∷ b) (z ∷ c) p q = refl
bytes_lt_trans (x ∷ a) [] c p q = absurd (cc)
bytes_lt_trans (x ∷ a) (y ∷ b) [] p q = absurd (cc)
bytes_lt_trans (x ∷ a) (y ∷ b) (z ∷ c) p q = ground (arith, bytes_lt_trans a b c)

-- Of two keys one is before the other, or they are equal.
bytes_lt_total : (a b : Bytes) → (a ≡ b) ⊎ (bytes_lt a b ≡ true) ⊎ (bytes_lt b a ≡ true)
unfolding bytes_lt
bytes_lt_total [] [] = inl refl
bytes_lt_total [] (y ∷ b) = inr (inl refl)
bytes_lt_total (x ∷ a) [] = inr (inr refl)
bytes_lt_total (x ∷ a) (y ∷ b) = ground (arith, bytes_lt_total a b)

bytes_lt_irrefl : (a : Bytes) → bytes_lt a a ≡ false
unfolding bytes_lt
bytes_lt_irrefl [] = refl
bytes_lt_irrefl (x ∷ a) = ground (arith, bytes_lt_irrefl a)

module _ {V : Type 0} where
  abbrev pub IsAfter : Bytes → Bytes × V → Type 0
  IsAfter k (j, w) = bytes_lt k j ≡ true

  -- The keys increase.
  abbrev pub IsSorted : List (Bytes × V) → Type 0
  IsSorted [] = Unit
  IsSorted ((k, v) ∷ m) = All (IsAfter k) m × IsSorted m

  All-IsAfter :
      (j k : Bytes) (m : List (Bytes × V))
      → bytes_lt j k ≡ true
      → All (IsAfter k) m
      → All (IsAfter j) m
  All-IsAfter j k [] p h = tt
  All-IsAfter j k ((i, w) ∷ m) p (q, h) = (bytes_lt_trans j k i p q, All-IsAfter j k m p h)

  put_same :
      (k j : Bytes) (v w : V) (m : List (Bytes × V)) → j ≡ k → put k v ((j, w) ∷ m) ≡ (k, v) ∷ m
  unfolding put
  put_same k j v w m p = ground arith

  put_later :
      (k j : Bytes) (v w : V) (m : List (Bytes × V))
      → bytes_lt j k ≡ true
      → put k v ((j, w) ∷ m) ≡ (j, w) ∷ put k v m
  unfolding put
  put_later k j v w m p = ground (arith, bytes_lt_irrefl j, bytes_lt_irrefl k, bytes_lt_trans j k j)

  put_here :
      (k j : Bytes) (v w : V) (m : List (Bytes × V))
      → bytes_lt k j ≡ true
      → put k v ((j, w) ∷ m) ≡ (k, v) ∷ (j, w) ∷ m
  unfolding put
  put_here k j v w m p = ground (arith, bytes_lt_irrefl k)

  pub put-IsSorted : (k : Bytes) (v : V) (m : List (Bytes × V)) → IsSorted m → IsSorted (put k v m)
  unfolding put
  put-IsSorted k v [] h = (tt, tt)
  put-IsSorted k v ((j, w) ∷ m) (a, h) = elim (bytes_lt_total j k) [
    | inl p ↦ rw (put_same k j v w m p) (subst (λ x. All (IsAfter x) m) p a, h)
    | inr (inl p) ↦ rw (put_later k j v w m p) (All-put (IsAfter j) k v m p a, put-IsSorted k v m h)
    | inr (inr p) ↦ rw (put_here k j v w m p) ((p, All-IsAfter k j m p a), (a, h))
  ]

  -- In a sorted tree each entry is what a search for its key finds.
  abbrev IsFound : List (Bytes × V) → Bytes × V → Type 0
  IsFound m (k, v) = lookup k m ≡ some v

  IsFound-later :
      (j : Bytes) (w : V) (m l : List (Bytes × V))
      → All (IsAfter j) l
      → All (IsFound m) l
      → All (IsFound ((j, w) ∷ m)) l
  unfolding lookup
  IsFound-later j w m [] a h = tt
  IsFound-later j w m ((k, v) ∷ l) (p, a) (q, h) =
      (ground (arith, bytes_lt_irrefl j, p, q), IsFound-later j w m l a h)

  pub All-lookup : (m : List (Bytes × V)) → IsSorted m → All (λ (k, v). lookup k m ≡ some v) m
  unfolding lookup
  All-lookup [] h = tt
  All-lookup ((k, v) ∷ m) (a, h) = (ground arith, IsFound-later k v m m a (All-lookup m h))
