-- ===== src/Storage/Invariant.antt =====
-- src/storage.rs: what each tree is there to hold.
use dse.Base.{ℕ, zero, suc, ◌≡◌, sym, ap, [], ◌∷◌, All, arith, ◌⊎◌, subst}
use dse.Base.Bytes.{Bytes, Bytes-discrete}
use dse.Base.Trees.{All-put}
use dse.Types.{QueryId, Bid, WalletsOfInterest}
use dse.Backend.{Backend, Codec, IsSound}
use dse.Storage.{store, id_key, bids_of}
use dse.Storage.Names.{
  active_trades, queries_sent, queries_received, bids_sent, commit_history, i_wants,
  wallets_of_interest,
}
use dse.Storage.Views.{entries-store_same, entries-store_other}

-- The trees that the storage opens.
pub data Tree : Type 0 where
  active sent received offers histories wants wallets : Tree
  bids : QueryId → Tree

abbrev pub tree_name : Tree → Bytes
tree_name active = active_trades
tree_name sent = queries_sent
tree_name received = queries_received
tree_name offers = bids_sent
tree_name histories = commit_history
tree_name wants = i_wants
tree_name wallets = wallets_of_interest
tree_name (bids q) = bids_of q

-- Names of different kinds differ in their first byte, or in the sixth.
abbrev pub byte_at : ℕ → Bytes → ℕ
byte_at i [] = 0
byte_at zero (b ∷ bs) = b
byte_at (suc i) (b ∷ bs) = byte_at i bs

-- A record under the key that is read off it.
abbrev pub IsStored : {Blob A : Type 0} → Codec Blob A → (A → Bytes) → Bytes × Blob → Type 0
IsStored {A} c key (k, v) = (a : A) × (k ≡ key a) × (v ≡ c.serialize a)

module _ ⦃e : Backend⦄ where
  -- What an entry of a tree is. The tree of active trades also takes the set of wallets, and
  -- nothing is ever written to the tree that this set is read from.
  abbrev pub IsEntry : Tree → Bytes × e.Blob → Type 0
  IsEntry active (k, v) =
      IsStored e.trade (λ t. id_key t.id) (k, v)
      ⊎ ((ws : WalletsOfInterest) × (k ≡ wallets_of_interest) × (v ≡ e.wallets.serialize ws))
  IsEntry sent x = IsStored e.query (λ q. id_key q.id) x
  IsEntry received x = IsStored e.query (λ q. id_key q.id) x
  IsEntry offers (k, v) = (b : Bid) × (v ≡ e.bid.serialize b)
  IsEntry histories x = IsStored e.history (λ h. h.wallet_address) x
  IsEntry wants x = IsStored e.i_want (λ w. id_key w.id) x
  IsEntry wallets x = ⊥
  IsEntry (bids q) x = IsStored e.bid (λ b. b.provider_id) x

  -- Trees of one name hold entries of one kind: no two names of different kinds meet.
  IsEntry-tree_name :
      (t u : Tree) (x : Bytes × e.Blob) → tree_name t ≡ tree_name u → IsEntry t x → IsEntry u x
  IsEntry-tree_name active active x p h = h
  IsEntry-tree_name sent sent x p h = h
  IsEntry-tree_name sent received x p h = h
  IsEntry-tree_name received received x p h = h
  IsEntry-tree_name received sent x p h = h
  IsEntry-tree_name offers offers x p h = h
  IsEntry-tree_name histories histories x p h = h
  IsEntry-tree_name wants wants x p h = h
  IsEntry-tree_name wallets wallets x p h = h
  IsEntry-tree_name (bids q) (bids r) x p h = h
  IsEntry-tree_name _ _ x p h = absurd (omega (arith, ap (byte_at 0) p, ap (byte_at 5) p))

  module _ (s : IsSound e) where
    -- Every entry of every tree is what this tree is for.
    pub record IsWellFormed (d : e.Db) : Type 0 where
      pub each : (t : Tree) → All (IsEntry t) (s.entries d (tree_name t))

    -- A write of an entry that is right for its tree keeps all the trees well formed.
    pub store-IsWellFormed :
        (d : e.Db) (t : Tree) (k : Bytes) (v : e.Blob)
        → IsEntry t (k, v)
        → IsWellFormed d
        → IsWellFormed (store d (tree_name t) k v)
    store-IsWellFormed d t k v x w = record {
      each = λ u. elim (Bytes-discrete (tree_name t) (tree_name u)) [
        | yes p ↦
            subst (λ n. All (IsEntry u) (s.entries (store d (tree_name t) k v) n)) p
              (rw (entries-store_same s d (tree_name t) k v) (
                All-put (IsEntry u) k v (s.entries d (tree_name t))
                  (IsEntry-tree_name t u (k, v) p x)
                  (subst (λ n. All (IsEntry u) (s.entries d n)) (sym p) (w.each u))))
        | no ne ↦ rw (entries-store_other s d (tree_name t) k v (tree_name u) ne) (w.each u)
      ];
    }
