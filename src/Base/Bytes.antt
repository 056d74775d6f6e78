-- ===== src/Base/Bytes.antt =====
-- Byte strings, their order, and the fixed-width integer encodings of the standard library.
use Prim.Native.Nat.{ℕ, zero, suc, ◌<◌, ◌/◌, ◌%◌, ◌^◌}
use Prim.Native.Char.{code}
use Prim.Native.String.{String}
use mathlib.Core.Path.{◌≡◌, refl, ap}
use mathlib.Core.Bool.{Bool, true, false}
use mathlib.Core.List.{List, [], ◌∷◌, ◌++◌}
use native.Mathlib.Omega.{arith}
use native.Mathlib.Nat.{pow-suc}
use native.Mathlib.Decide.{ℕ_discrete}
use dse.Base.Tests.{ltb, ◌==◌, if◌then◌else◌}
use dse.Base.Lists.{length, length-append}

abbrev pub Bytes : Type 0
Bytes = List ℕ

unfoldable pub Bytes-discrete : Discrete Bytes
unfolding ℕ_discrete
Bytes-discrete = hlevel ℕ_discrete

-- `==` on byte strings.
abbrev pub bytes_eq : Bytes → Bytes → Bool
bytes_eq a b = elim (Bytes-discrete a b) [ yes _ ↦ true | no _ ↦ false ]

pub bytes_eq_self : (a : Bytes) → bytes_eq a a ≡ true
bytes_eq_self a = ground arith

-- The lexicographic order.
unfoldable pub bytes_lt : Bytes → Bytes → Bool
bytes_lt [] [] = false
bytes_lt [] (b ∷ bs) = true
bytes_lt (a ∷ xs) [] = false
bytes_lt (a ∷ xs) (b ∷ bs) = if ltb a b then true else if a == b then bytes_lt xs bs else false

-- `to_little_endian` on `n` bytes: the low byte first, what does not fit is cut off.
unfoldable pub to_le_bytes : ℕ → ℕ → Bytes
to_le_bytes zero x = []
to_le_bytes (suc n) x = (x % 256) ∷ to_le_bytes n (x / 256)

-- `to_be_bytes` on `n` bytes.
unfoldable pub to_be_bytes : ℕ → ℕ → Bytes
to_be_bytes zero x = []
to_be_bytes (suc n) x = to_be_bytes n (x / 256) ++ (x % 256) ∷ []

pub length-to_le_bytes : (n x : ℕ) → length (to_le_bytes n x) ≡ n
unfolding to_le_bytes
length-to_le_bytes zero x = refl
length-to_le_bytes (suc n) x = ap suc (length-to_le_bytes n (x / 256))

pub length-to_be_bytes : (n x : ℕ) → length (to_be_bytes n x) ≡ n
unfolding to_be_bytes
length-to_be_bytes zero x = refl
length-to_be_bytes (suc n) x = omega (
  arith,
  length-append (to_be_bytes n (x / 256)) ((x % 256) ∷ []),
  length-to_be_bytes n (x / 256),
)

-- A byte string literal: the code points of its (ASCII) text.
abbrev pub codes : String → Bytes
codes String.[] = []
codes (String.◌∷◌ c s) = code c ∷ codes s

abbrev pub head : Bytes → ℕ
head [] = 0
head (b ∷ bs) = b

-- Two concatenations whose first parts have one length.
pub append-injective :
    (xs ys us vs : Bytes) → length xs ≡ length ys → xs ++ us ≡ ys ++ vs → (xs ≡ ys) × (us ≡ vs)
append-injective [] [] us vs l h = (refl, h)
append-injective [] (y ∷ ys) us vs l h = absurd (omega arith)
append-injective (x ∷ xs) [] us vs l h = absurd (omega arith)
append-injective (x ∷ xs) (y ∷ ys) us vs l h =
    let (p, q) = append-injective xs ys us vs (omega arith) (cc) in (ground (arith, p), q)

pub snoc-injective : (xs ys : Bytes) (a b : ℕ) → xs ++ a ∷ [] ≡ ys ++ b ∷ [] → (xs ≡ ys) × (a ≡ b)
snoc-injective [] [] a b h = (refl, cc)
snoc-injective [] (y ∷ ys) a b h = absurd (omega (arith, ap length h, length-append ys (b ∷ [])))
snoc-injective (x ∷ xs) [] a b h = absurd (omega (arith, ap length h, length-append xs (a ∷ [])))
snoc-injective (x ∷ xs) (y ∷ ys) a b h =
    let rest = snoc-injective xs ys a b (cc) in (ground (arith, rest.0), rest.1)

-- Numbers that fit have different encodings.
pub to_be_bytes-injective :
    (n x y : ℕ) → x < 256 ^ n → y < 256 ^ n → to_be_bytes n x ≡ to_be_bytes n y → x ≡ y
unfolding to_be_bytes
to_be_bytes-injective zero x y hx hy h = omega arith
to_be_bytes-injective (suc n) x y hx hy h =
    let (high, low) = snoc-injective (to_be_bytes n (x / 256)) (to_be_bytes n (y / 256)) _ _ h in
    let p = pow-suc 256 n in
    let e =
      to_be_bytes-injective n (x / 256) (y / 256) (omega (arith, p)) (omega (arith, p)) high in
    omega (arith, e, low)

pub to_le_bytes-injective :
    (n x y : ℕ) → x < 256 ^ n → y < 256 ^ n → to_le_bytes n x ≡ to_le_bytes n y → x ≡ y
unfolding to_le_bytes
to_le_bytes-injective zero x y hx hy h = omega arith
to_le_bytes-injective (suc n) x y hx hy h =
    let p = pow-suc 256 n in
    let e =
      to_le_bytes-injective n (x / 256) (y / 256) (omega (arith, p)) (omega (arith, p)) (cc) in
    let low : x % 256 ≡ y % 256 = cc in omega (arith, e, low)

-- The test that the source makes on two keys of 32 bits is the test on the numbers.
pub id_key_eq :
    (a b : ℕ) → a < 2 ^ 32 → b < 2 ^ 32 → bytes_eq (to_be_bytes 4 a) (to_be_bytes 4 b) ≡ (a == b)
id_key_eq a b ha hb = elim (ℕ_discrete a b) [
  | yes e ↦ ground (arith, bytes_eq_self (to_be_bytes 4 b))
  | no ne ↦ ground (arith, to_be_bytes-injective 4 a b ha hb)
]
