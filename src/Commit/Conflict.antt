-- ===== src/Commit/Conflict.antt =====
-- src/storage.rs: the search for indexes of a commit that meet those of an earlier one.
use dse.Base.{
  ℕ, ◌≤◌, ◌<◌, ◌≡◌, refl, ◌⊎◌, inl, inr, Bool, true, false, List, [], ◌∷◌, arith, some, find, ◌++◌,
  Bool-cases,
}
use dse.Types.{t1, Commit, CommitHistory, Signature}
use dse.Commit.{overlaps, ranges_overlap, is_invalidated, is_in_conflict, find_conflict}

-- An index that one of the ranges covers: elements 0 and 1, 2 and 3, and so on.
abbrev pub Covers : List ℕ → ℕ → Type 0
Covers [] x = ⊥
Covers (lo ∷ []) x = ⊥
Covers (lo ∷ hi ∷ r) x = ((lo ≤ x) × (x ≤ hi)) ⊎ Covers r x

overlaps_later :
    (lo hi a : ℕ) (r : List ℕ) → overlaps lo hi r ≡ true → overlaps lo hi (a ∷ r) ≡ true
unfolding overlaps
overlaps_later lo hi a [] h = cc
overlaps_later lo hi a (b ∷ r) h = ground arith

overlaps_of_Covers :
    (lo hi x : ℕ) (r : List ℕ) → lo ≤ x → x ≤ hi → Covers r x → overlaps lo hi r ≡ true
unfolding overlaps
overlaps_of_Covers lo hi x [] p q c = absurd c
overlaps_of_Covers lo hi x (a ∷ []) p q c = absurd c
overlaps_of_Covers lo hi x (a ∷ b ∷ r) p q (inl h) = ground arith
overlaps_of_Covers lo hi x (a ∷ b ∷ r) p q (inr c) =
    ground (arith, overlaps_later lo hi b r (overlaps_of_Covers lo hi x r p q c))

-- An index that two lists of ranges both cover is always noticed.
pub ranges_overlap_complete :
    (ranges indexes : List ℕ) (x : ℕ)
    → Covers ranges x
    → Covers indexes x
    → ranges_overlap ranges indexes ≡ true
unfolding ranges_overlap
ranges_overlap_complete [] ix x c k = absurd c
ranges_overlap_complete (lo ∷ []) ix x c k = absurd c
ranges_overlap_complete (lo ∷ hi ∷ r) ix x (inl h) k =
    ground (arith, overlaps_of_Covers lo hi x ix h.0 h.1 k)
ranges_overlap_complete (lo ∷ hi ∷ r) ix x (inr c) k =
    ground (arith, ranges_overlap_complete r ix x c k)

find-split {ℓ} :
    {A : Type ℓ} (p : A → Bool) (xs ys : List A) (a : A)
    → p a ≡ true
    → (b : A) × (find p (xs ++ a ∷ ys) ≡ some b)
unfolding find
find-split p [] ys a h = (a, rw h)
find-split p (x ∷ xs) ys a h = elim (Bool-cases (p x)) [
  | inl hit ↦ (x, rw hit)
  | inr miss ↦ rw miss (find-split p xs ys a h)
]

-- A history that holds a commit over an index in use, not a commit of type 1 that was invalidated,
-- is found to be in conflict with indexes that cover this index again.
pub find_conflict_complete :
    (h : CommitHistory) (before after : List Commit) (c : Commit) (indexes : List ℕ) (x : ℕ)
    → h.commits ≡ before ++ c ∷ after
    → is_invalidated c.c_type c.invalidating_signature ≡ false
    → Covers c.indexes x
    → Covers indexes x
    → (other : Commit) × (find_conflict h indexes ≡ some other)
unfolding find_conflict
find_conflict_complete h before after c indexes x e live p q = rw e (
    find-split (is_in_conflict indexes) before after c
      (ground (arith, ranges_overlap_complete c.indexes indexes x p q)))

-- An invalidated commit of type 1 is never in the way.
pub is_in_conflict_invalidated :
    (c : Commit) (indexes : List ℕ) (g : Signature)
    → c.c_type ≡ t1
    → c.invalidating_signature ≡ some g
    → is_in_conflict indexes c ≡ false
unfolding is_in_conflict
is_in_conflict_invalidated c indexes g p q = rw (p, q) refl

-- The inner loop also takes the gap between two ranges for a range: a range that lies in a gap is
-- reported although no index is covered twice.
pub ranges_overlap_in_gap :
    (a b c d lo hi : ℕ)
    → b < lo
    → lo ≤ hi
    → hi < c
    → a ≤ b
    → c ≤ d
    → (ranges_overlap (lo ∷ hi ∷ []) (a ∷ b ∷ c ∷ d ∷ []) ≡ true)
      × ((x : ℕ) → ¬ (Covers (lo ∷ hi ∷ []) x × Covers (a ∷ b ∷ c ∷ d ∷ []) x))
unfolding ranges_overlap
ranges_overlap_in_gap a b c d lo hi h₁ h₂ h₃ h₄ h₅ = (ground arith, λ x (p, q). omega arith)
