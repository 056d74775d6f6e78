-- ===== src/Base/Trees.antt =====
-- A sled tree seen from outside: its entries in the order of their keys.
use mathlib.Core.Path.{◌≡◌, refl, subst₂}
use mathlib.Core.Option.{Option, none, some}
use mathlib.Core.List.{List, [], ◌∷◌}
use native.Mathlib.Omega.{arith}
use dse.Base.Tests.{if◌then◌else◌}
use dse.Base.Lists.{All}
use dse.Base.Bytes.{Bytes, Bytes-discrete, bytes_eq, bytes_lt}

module _ {ℓ} {V : Type ℓ} where
  -- An insertion replaces the value of a key that is there, and else goes to the key's place.
  unfoldable pub put : Bytes → V → List (Bytes × V) → List (Bytes × V)
  put k v [] = (k, v) ∷ []
  put k v ((j, w) ∷ m) =
      if bytes_eq j k
      then (k, v) ∷ m
      else if bytes_lt k j
      then (k, v) ∷ (j, w) ∷ m
      else (j, w) ∷ put k v m

  unfoldable pub lookup : Bytes → List (Bytes × V) → Option V
  lookup k [] = none
  lookup k ((j, w) ∷ m) = if bytes_eq j k then some w else lookup k m

  pub lookup-put :
      (k j : Bytes) (v : V) (m : List (Bytes × V))
      → lookup j (put k v m) ≡ (if bytes_eq k j then some v else lookup j m)
  unfolding lookup put
  lookup-put k j v [] = refl
  lookup-put k j v ((i, w) ∷ m) = ground (arith, lookup-put k j v m)

  pub All-put {κ} :
      (P : Bytes × V → Type κ) (k : Bytes) (v : V) (m : List (Bytes × V))
      → P (k, v)
      → All P m
      → All P (put k v m)
  unfolding put
  All-put P k v [] h a = (h, tt)
  All-put P k v ((j, w) ∷ m) h a = ground (arith, All-put P k v m h a.1)

  -- What holds of every entry holds of the one that is found.
  pub lookup-All {κ} :
      (P : Bytes × V → Type κ) (k : Bytes) (m : List (Bytes × V)) {v : V}
      → All P m
      → lookup k m ≡ some v
      → P (k, v)
  unfolding lookup
  lookup-All P k [] a h = cc
  lookup-All P k ((j, w) ∷ m) a h = elim (Bytes-discrete j k) [
    | yes p ↦ subst₂ (λ x y. P (x, y)) p (ground (arith, p)) a.0
    | no ne ↦ lookup-All P k m a.1 (ground arith)
  ]
