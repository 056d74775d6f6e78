-- ===== src/Commit/Validity.antt =====
-- src/storage.rs: `Commit::is_commit_valid` and an independent description of it.
use dse.Base.{ℕ, ◌≤◌, ◌≡◌, refl, true, List, [], ◌∷◌, Option, some, if◌then◌else◌, ◌↔◌, All, arith}
use dse.Types.{Address, Signature, Trade, Commit}
use dse.Commit.{Crypto, is_increasing, is_waiting, commit_hash, signing_address, is_commit_valid}

-- Every index is at most each of those after it.
abbrev pub IsSorted : List ℕ → Type 0
IsSorted [] = Unit {0}
IsSorted (x ∷ xs) = All (λ y. x ≤ y) xs × IsSorted xs

All-le : (x y : ℕ) (xs : List ℕ) → x ≤ y → All (λ z. y ≤ z) xs → All (λ z. x ≤ z) xs
All-le x y [] h a = tt
All-le x y (z ∷ xs) h a = (omega arith, All-le x y xs h a.1)

is_increasing-IsSorted : (xs : List ℕ) → is_increasing xs ≡ true → IsSorted xs
unfolding is_increasing
is_increasing-IsSorted [] h = tt
is_increasing-IsSorted (x ∷ []) h = (tt, tt)
is_increasing-IsSorted (x ∷ y ∷ r) h =
    let rest = is_increasing-IsSorted (y ∷ r) (ground arith) in
    let le : x ≤ y = ground arith in ((le, All-le x y r le rest.0), rest)

IsSorted-is_increasing : (xs : List ℕ) → IsSorted xs → is_increasing xs ≡ true
unfolding is_increasing
IsSorted-is_increasing [] h = refl
IsSorted-is_increasing (x ∷ []) h = refl
IsSorted-is_increasing (x ∷ y ∷ r) h = ground (arith, IsSorted-is_increasing (y ∷ r) h.1)

-- Who has to invalidate a commit: the requester of the trade, seen from either side.
abbrev pub invalidator : Trade → Address → Address → Address
invalidator trade owner_address self_address =
    if trade.is_requester then self_address else owner_address

module _ (k : Crypto) where
  pub record IsValid (c : Commit) (trade : Trade) (owner self : Address) : Type 0 where
    pub sorted : IsSorted c.indexes
    pub for_trade : c.u ≡ trade.id
    pub signed : signing_address k c ≡ some owner
    pub invalidated_by : c.i_address ≡ invalidator trade owner self
    pub awaited : is_waiting trade.status ≡ true

  -- A commit passes the test exactly when its indexes are sorted, it names the trade, the owner of
  -- the wallet signed it, the requester's address invalidates it, and the trade awaits a commit.
  pub is_commit_valid_iff :
      (c : Commit) (trade : Trade) (owner self : Address)
      → (is_commit_valid k c trade owner self ≡ true) ↔ IsValid c trade owner self
  unfolding is_commit_valid
  is_commit_valid_iff c trade owner self = (
    (λ h. record {
      sorted = is_increasing-IsSorted c.indexes (ground arith);
      for_trade = ground arith;
      signed = ground arith;
      invalidated_by = ground arith;
      awaited = ground arith;
    }),
    λ v. ground (arith, IsSorted-is_increasing c.indexes v.sorted),
  )

  -- A valid commit stays valid with its indexes replaced by any others that are sorted, and with
  -- any other wallet and invalidating signature: the owner's signature binds neither indexes nor wallet.
  pub is_commit_valid_reused :
      (c : Commit) (trade : Trade) (owner self : Address) (indexes : List ℕ) (wallet : Address)
      (g : Option Signature)
      → is_commit_valid k c trade owner self ≡ true
      → IsSorted indexes
      → is_commit_valid k
          (record c { indexes = indexes; wallet_address = wallet; invalidating_signature = g })
          trade
          owner
          self
        ≡ true
  unfolding is_commit_valid commit_hash
  is_commit_valid_reused c trade owner self indexes wallet g h p =
      ground (arith, IsSorted-is_increasing indexes p)
