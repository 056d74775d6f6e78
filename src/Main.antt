-- ===== src/Main.antt =====
-- src/main.rs: the start of the node from its arguments.
pub mod Starts
use dse.Base.{
  ℕ, ◌≡◌, refl, Bool, true, false, List, [], ◌∷◌, ◌++◌, Option, none, some, Result, ok, err, panic,
  unwrap, ◌>>=◌, replicate, map, arith, ap, subst, sym, ◌∙◌, bind_ok,
}
use dse.Base.Bytes.{Bytes}
use dse.Types.{PeerId, Multiaddr, Address}
use dse.EthNode.{EthNode}
use dse.EthNode as ethnode
use dse.Network.Senders.{waiting}
use dse.Network.{Network, query_topic, commit_topic, invalidating_signature_topic, ident_topic}
use dse.Network.Startup.{
  Setup, subscribe, add_kad_address, dial, bootstrap, listen_on, contact, is_subscribed, new,
  new_subscriptions,
}

-- The arguments that the start itself looks at.
pub record Opt : Type 0 where
  pub seed : Option ℕ
  pub listen : Option Multiaddr
  pub boot_id : Option PeerId
  pub boot_addr : Option Multiaddr
  pub wallet_address : Address

-- What the libraries answer: the peer of a secret key of 32 bytes, if it is one; the peer of a key
-- that is generated; the parsed default address; and the outcomes of building the transport, the
-- behaviours, the subscription, the client of the chain and the wallet.
pub record Libraries : Type 0 where
  pub from_bytes : Bytes → Option PeerId
  pub generated : PeerId
  pub default_addr : Option Multiaddr
  pub transport : Result (Unit {0})
  pub behaviour : Result (Unit {0})
  pub subscribed : Result (Unit {0})
  pub client : Result (Unit {0})
  pub wallet : Result Address

-- The key of a seed starts with it and is 0 behind it.
unfoldable pub keypair : Libraries → Option ℕ → Result PeerId
keypair l (some seed) = unwrap (l.from_bytes (seed ∷ replicate 31 0))
keypair l none = ok l.generated

abbrev pub bootstrap_peers : Option Multiaddr → Option PeerId → List (PeerId × Multiaddr)
bootstrap_peers (some addr) (some peer_id) = (peer_id, addr) ∷ []
bootstrap_peers _ _ = []

abbrev pub listen_addr : Libraries → Option Multiaddr → Result Multiaddr
listen_addr l (some addr) = ok addr
listen_addr l none = unwrap l.default_addr

-- `expect`.
abbrev pub expect {ℓ} : {A : Type ℓ} → Result A → Result A
expect (ok a) = ok a
expect _ = panic

-- What runs after the start: the network with what was done to its swarm, and the chain access.
unfoldable pub main : Libraries → Opt → Result (Network × List Setup × EthNode)
unfolding keypair new ethnode.new
main l opt = do
  peer_id ← keypair l opt.seed
  addr ← listen_addr l opt.listen
  (network, setup) ← expect (
      new peer_id (bootstrap_peers opt.boot_addr opt.boot_id) addr l.transport l.behaviour
        l.subscribed)
  node ← expect (ethnode.new l.client l.wallet opt.wallet_address)
  ok (network, setup, node)
