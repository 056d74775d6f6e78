-- ===== src/Commit/Hash.antt =====
-- src/storage.rs: the blob that `Commit::commit_hash` hashes.
use dse.Base.{◌⊎◌, inl, inr, ℕ, ◌≡◌, refl, ◌<◌, ◌^◌, length, replicate, arith}
use dse.Base.Bytes.{to_le_bytes, length-to_le_bytes, to_le_bytes-injective, append-injective}
use dse.Types.{CommitType, t1, t2, commit_type_code, Commit, Address}
use dse.Commit.{commit_blob, r_part}

le_lengths : (n x y : ℕ) → length (to_le_bytes n x) ≡ length (to_le_bytes n y)
le_lengths n x y = omega (arith, length-to_le_bytes n x, length-to_le_bytes n y)

code-injective :
    (s t : CommitType)
    → to_le_bytes 32 (commit_type_code s) ≡ to_le_bytes 32 (commit_type_code t)
    → s ≡ t
code-injective t1 t1 h = refl
code-injective t2 t2 h = refl
code-injective t1 t2 h =
    absurd (omega (arith, to_le_bytes-injective 32 1 2 (omega arith) (omega arith) h))
code-injective t2 t1 h =
    absurd (omega (arith, to_le_bytes-injective 32 2 1 (omega arith) (omega arith) h))

r_part-injective :
    (s t : CommitType) (a b : Address) → s ≡ t → s ≡ t2 → r_part s a ≡ r_part t b → a ≡ b
r_part-injective t1 t a b p q h = cc
r_part-injective t2 t1 a b p q h = cc
r_part-injective t2 t2 a b p q h = h

type_cases : (c : CommitType) → (c ≡ t1) ⊎ (c ≡ t2)
type_cases t1 = inl refl
type_cases t2 = inr refl

-- The fields of a commit fit their types: 256 and 32 bits, and addresses of 20 bytes.
pub record InRange (c : Commit) : Type 0 where
  pub epoch_fits : c.epoch < 2 ^ 256
  pub u_fits : c.u < 2 ^ 32
  pub i_address_fits : length c.i_address ≡ 20
  pub r_address_fits : length c.r_address ≡ 20

-- Two commits whose fields fit their types and that have one blob agree: they have the same epoch, trade id, type and invalidating address, and the
-- same receiving address if they are of type 2.
pub commit_blob_binds :
    (c d : Commit)
    → InRange c
    → InRange d
    → commit_blob c ≡ commit_blob d
    → (c.epoch ≡ d.epoch)
      × (c.u ≡ d.u)
      × (c.c_type ≡ d.c_type)
      × (c.i_address ≡ d.i_address)
      × ((c.c_type ≡ t1) ⊎ (c.r_address ≡ d.r_address))
unfolding commit_blob
commit_blob_binds c d rc rd h =
    let z = append-injective (replicate 64 0) (replicate 64 0) _ _ refl h in
    let e =
      append-injective (to_le_bytes 32 c.epoch) (to_le_bytes 32 d.epoch) _ _ (le_lengths _ _ _)
        z.1 in
    let u = append-injective (to_le_bytes 32 c.u) (to_le_bytes 32 d.u) _ _ (le_lengths _ _ _) e.1 in
    let t =
      append-injective (to_le_bytes 32 (commit_type_code c.c_type))
        (to_le_bytes 32 (commit_type_code d.c_type)) _ _ (le_lengths _ _ _) u.1 in
    let i =
      append-injective c.i_address d.i_address _ _
        (omega (arith, rc.i_address_fits, rd.i_address_fits)) t.1 in
    let same = code-injective c.c_type d.c_type t.0 in
    (
      to_le_bytes-injective 32 c.epoch d.epoch (omega (arith, rc.epoch_fits))
          (omega (arith, rd.epoch_fits)) e.0,
      to_le_bytes-injective 32 c.u d.u (omega (arith, rc.u_fits)) (omega (arith, rd.u_fits)) u.0,
      same,
      i.0,
      elim (type_cases c.c_type) [
        | inl first ↦ inl first
        | inr second ↦
            inr (r_part-injective c.c_type d.c_type c.r_address d.r_address same second i.1)
      ],
    )
