-- ===== src/Loading/Picks.antt =====
-- src/ch_request.rs: the commits of an update that a load keeps.
use dse.Base.{◌≡◌, true, List, [], ◌∷◌, some, filter, Bool-cases, inl, inr, arith}
use dse.Base.Bytes.{bytes_eq_self}
use dse.Types.{Address, Commit}
use dse.Backend.{Backend}
use dse.Commit.{Crypto, signing_address}
use dse.EthNode.{EthNode, owner_address, get_current_epoch}
use dse.Loading.{is_loadable}

-- The elements of a list that satisfy `P`, all of them and in their order.
pub data Picks (P : Commit → Type 0) : List Commit → List Commit → Type 0 where
  picks_none : Picks P [] []
  takes : {c : Commit} {cs ds : List Commit} → P c → Picks P cs ds → Picks P (c ∷ cs) (c ∷ ds)
  skips : {c : Commit} {cs ds : List Commit} → ¬ P c → Picks P cs ds → Picks P (c ∷ cs) ds

module _ (k : Crypto) (node : EthNode) (wallet : Address) where
  -- A commit of the epoch of the wallet, signed by its owner.
  abbrev pub IsOfOwner : Commit → Type 0
  IsOfOwner c =
      (c.epoch ≡ get_current_epoch node wallet)
      × (signing_address k c ≡ some (owner_address node wallet))

  module _ ⦃e : Backend⦄ where
    is_loadable-IsOfOwner :
        (c : Commit)
        → is_loadable k node (get_current_epoch node wallet) (owner_address node wallet) c ≡ true
        → IsOfOwner c
    unfolding is_loadable
    is_loadable-IsOfOwner c h = ground (arith, h)

    IsOfOwner-is_loadable :
        (c : Commit)
        → IsOfOwner c
        → is_loadable k node (get_current_epoch node wallet) (owner_address node wallet) c ≡ true
    unfolding is_loadable
    IsOfOwner-is_loadable c h = ground (arith, h.0, h.1, bytes_eq_self (owner_address node wallet))

    pub filter-Picks :
        (cs : List Commit)
        → Picks IsOfOwner cs (
            filter
              (is_loadable k node (get_current_epoch node wallet) (owner_address node wallet))
              cs)
    unfolding filter
    filter-Picks [] = picks_none
    filter-Picks (c ∷ cs) =
        let rest = filter-Picks cs in
        elim (Bool-cases
          (is_loadable k node (get_current_epoch node wallet) (owner_address node wallet) c)) [
            | inl p ↦ rw p (takes (is_loadable-IsOfOwner c p) rest)
            | inr p ↦ rw p (skips (λ h. let q = IsOfOwner-is_loadable c h in absurd (cc)) rest)
          ]
