-- ===== src/Examples/Mains.antt =====
-- A start of the node with a seed and a peer to bootstrap from.
use dse.Base.{ℕ, suc, refl, replicate, ◌≡◌, true, false, List, [], ◌∷◌, Option, none, some, ok}
use dse.Base.Bytes.{Bytes}
use dse.Types.{PeerId}
use dse.EthNode.{EthNode}
use dse.Network.{query_topic, commit_topic, invalidating_signature_topic, ident_topic}
use dse.Network.Senders.{waiting}
use dse.Network.Startup.{
  Setup, subscribe, add_kad_address, dial, bootstrap, listen_on, is_subscribed, idle_network,
  contact,
}
use dse.Network.Startup as startup
use dse.EthNode as ethnode
use dse.Main.{Opt, Libraries, keypair, main}
use dse.Main.Starts.{DialsPeer, main_lem}
use dse.Examples.Memory.{alice, bob, a_wallet, b_wallet, node}

-- A key is taken for its own peer id, unless it starts with 0.
abbrev peer_of_key : Bytes → Option PeerId
peer_of_key (suc n ∷ rest) = some (suc n ∷ rest)
peer_of_key _ = none

abbrev libraries : Libraries
libraries = record {
  from_bytes = peer_of_key;
  generated = alice;
  default_addr = some (11 ∷ []);
  transport = ok tt;
  behaviour = ok tt;
  subscribed = ok tt;
  client = ok tt;
  wallet = ok a_wallet;
}

abbrev arguments : Opt
arguments = record {
  seed = some 7;
  listen = none;
  boot_id = some bob;
  boot_addr = some (12 ∷ []);
  wallet_address = b_wallet;
}

abbrev own_id : PeerId
own_id = 7 ∷ replicate 31 0

abbrev done : List Setup
done =
    subscribe (ident_topic query_topic)
    ∷ add_kad_address bob (12 ∷ [])
    ∷ dial (12 ∷ [])
    ∷ bootstrap
    ∷ listen_on (11 ∷ [])
    ∷ []

main_example :
    (keypair libraries (some 7) ≡ ok own_id)
    × (node.timelocked_wallet ≡ b_wallet)
    × DialsPeer arguments done
    × ((x : ℕ) → waiting x (idle_network own_id) ≡ 0)
    × (is_subscribed (ident_topic query_topic) done ≡ true)
    × (is_subscribed (ident_topic commit_topic) done ≡ false)
    × (is_subscribed (ident_topic invalidating_signature_topic) done ≡ false)
unfolding main contact keypair startup.new ethnode.new
main_example = main_lem libraries arguments (idle_network own_id) done node refl
