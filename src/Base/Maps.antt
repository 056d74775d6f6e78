-- ===== src/Base/Maps.antt =====
-- `HashMap` as an association list in which a key has one entry: an insertion replaces.
use Prim.Native.Nat.{ℕ, ◌+◌}
use mathlib.Core.Path.{◌≡◌, refl}
use mathlib.Core.Bool.{Bool, true, false}
use mathlib.Core.Logic.{ite}
use mathlib.Core.Option.{Option, none, some}
use mathlib.Core.List.{List, [], ◌∷◌}
use native.Mathlib.Omega.{arith}
use dse.Base.Tests.{◌==◌}

module _ {ℓ} {K : Type ℓ} {V : Type ℓ} (same : Discrete K) where
  unfoldable pub get : K → List (K × V) → Option V
  get k [] = none
  get k ((j, w) ∷ m) = ite (same j k) (some w) (get k m)

  unfoldable pub remove : K → List (K × V) → List (K × V)
  remove k [] = []
  remove k ((j, w) ∷ m) = ite (same j k) m ((j, w) ∷ remove k m)

  unfoldable pub insert : K → V → List (K × V) → List (K × V)
  unfolding remove
  insert k v m = (k, v) ∷ remove k m

  -- No key has two entries.
  abbrev pub HasUniqueKeys : List (K × V) → Type ℓ
  HasUniqueKeys [] = Unit
  HasUniqueKeys ((j, w) ∷ m) = (get j m ≡ none) × HasUniqueKeys m

  pub get-remove_ne : (k j : K) (m : List (K × V)) → get j m ≡ none → get j (remove k m) ≡ none
  unfolding get remove
  get-remove_ne k j [] h = refl
  get-remove_ne k j ((i, w) ∷ m) h = ground (arith, get-remove_ne k j m)

  pub get-remove : (k : K) (m : List (K × V)) → HasUniqueKeys m → get k (remove k m) ≡ none
  unfolding get remove
  get-remove k [] u = refl
  get-remove k ((j, w) ∷ m) u = ground (arith, get-remove k m u.1)

  pub remove-HasUniqueKeys :
      (k : K) (m : List (K × V)) → HasUniqueKeys m → HasUniqueKeys (remove k m)
  unfolding remove
  remove-HasUniqueKeys k [] u = tt
  remove-HasUniqueKeys k ((j, w) ∷ m) u =
      ground (arith, get-remove_ne k j m, remove-HasUniqueKeys k m u.1)

  pub remove_absent : (k : K) (m : List (K × V)) → get k m ≡ none → remove k m ≡ m
  unfolding get remove
  remove_absent k [] h = refl
  remove_absent k ((j, w) ∷ m) h = ground (arith, remove_absent k m)

-- How often a number is a value.
abbrev pub one_if : Bool → ℕ
one_if true = 1
one_if false = 0

abbrev pub count_option : ℕ → Option ℕ → ℕ
count_option x none = 0
count_option x (some v) = one_if (v == x)

module _ {K : Type 0} where
  unfoldable pub count_value : ℕ → List (K × ℕ) → ℕ
  count_value x [] = 0
  count_value x ((k, v) ∷ m) = one_if (v == x) + count_value x m

  pub count_value-remove :
      (same : Discrete K) (x : ℕ) (k : K) (m : List (K × ℕ))
      → count_value x m ≡ count_option x (get same k m) + count_value x (remove same k m)
  unfolding count_value get remove
  count_value-remove same x k [] = omega arith
  count_value-remove same x k ((j, v) ∷ m) = ground (arith, count_value-remove same x k m)

  pub count_value-insert :
      (same : Discrete K) (x : ℕ) (k : K) (v : ℕ) (m : List (K × ℕ))
      → get same k m ≡ none
      → count_value x (insert same k v m) ≡ one_if (v == x) + count_value x m
  unfolding count_value insert
  count_value-insert same x k v m h = ground (arith, remove_absent same k m h)
