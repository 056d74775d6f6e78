-- ===== src/EthNode.antt =====
-- src/ethnode.rs: what the node knows of the chain. The answers about wallets are still constants
-- in the source; the node's own address comes from its key, and is a parameter.
use dse.Base.{ℕ, Bool, true, replicate, Result, ok, ◌>>=◌}
use dse.Types.{Address}

-- `Address::default()`, which is also `Address::zero()`.
abbrev pub zero_address : Address
zero_address = replicate 20 0

pub record EthNode : Type 0 where
  pub wallet_address : Address
  pub timelocked_wallet : Address

-- The outcomes of `Provider::try_from` and `LocalWallet::from_str`; a wallet is known by its
-- address.
unfoldable pub new : Result (Unit {0}) → Result Address → Address → Result EthNode
new client wallet timelocked_wallet = do
  _ ← client
  address ← wallet
  ok (record { wallet_address = address; timelocked_wallet = timelocked_wallet })

abbrev pub self_address : EthNode → Address
self_address node = node.wallet_address

abbrev pub owner_address : EthNode → Address → Address
owner_address node wallet = zero_address

abbrev pub get_current_epoch : EthNode → Address → ℕ
get_current_epoch node wallet = 0

abbrev pub is_valid_commit_range : EthNode → ℕ → ℕ → Address → Bool
is_valid_commit_range node index epoch wallet = true
