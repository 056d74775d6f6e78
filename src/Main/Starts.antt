-- ===== src/Main/Starts.antt =====
-- src/main.rs: what every start of a node ends with.
use dse.Base.{
  ℕ, ◌≡◌, refl, true, false, List, [], ◌∷◌, ◌++◌, Result, ok, map, ap, sym, ◌∙◌, bind_ok, Option,
  none, some, ◌⊎◌, inl, inr,
}
use dse.Types.{PeerId, Multiaddr, Address}
use dse.EthNode.{EthNode}
use dse.EthNode as ethnode
use dse.Network.Senders.{waiting}
use dse.Network.{Network, query_topic, commit_topic, invalidating_signature_topic, ident_topic}
use dse.Network.Startup.{
  Setup, dial, bootstrap, listen_on, contact, is_subscribed, new, new_subscriptions,
}
use dse.Main.{Opt, Libraries, keypair, bootstrap_peers, listen_addr, expect, main}

abbrev pub dialled : List Setup → List Multiaddr
dialled [] = []
dialled (dial addr ∷ xs) = addr ∷ dialled xs
dialled (_ ∷ xs) = dialled xs

dialled-contact :
    (peers : List (PeerId × Multiaddr)) (addr : Multiaddr)
    → dialled (contact peers ++ bootstrap ∷ listen_on addr ∷ []) ≡ map (λ p. p.1) peers
unfolding contact
dialled-contact [] addr = refl
dialled-contact ((peer, a) ∷ peers) addr = ap (λ xs. a ∷ xs) (dialled-contact peers addr)

abbrev peer_of : Result (Network × List Setup) → PeerId
peer_of (ok (n, setup)) = n.peer_id
peer_of _ = []

abbrev dialled_of : Result (Network × List Setup) → List Multiaddr
dialled_of (ok (n, setup)) = dialled setup
dialled_of _ = []

dialled-new :
    (peer : PeerId) (peers : List (PeerId × Multiaddr)) (addr : Multiaddr)
    (transport behaviour subscribed : Result (Unit {0})) (n : Network) (setup : List Setup)
    → new peer peers addr transport behaviour subscribed ≡ ok (n, setup)
    → (n.peer_id ≡ peer) × (dialled setup ≡ map (λ p. p.1) peers)
unfolding new
dialled-new peer peers addr (ok _) (ok _) (ok _) n setup h =
    let same : peer ≡ n.peer_id = ap peer_of h in
    (sym same, sym (ap dialled_of h) ∙ dialled-contact peers addr)
dialled-new peer peers addr _ _ _ n setup h = cc

expect_ok : {A : Type 0} (r : Result A) {a : A} → expect r ≡ ok a → r ≡ ok a
expect_ok (ok b) h = h
expect_ok _ h = cc

timelocked_wallet-new :
    (client : Result (Unit {0})) (wallet : Result Address) (a : Address) (node : EthNode)
    → ethnode.new client wallet a ≡ ok node
    → node.timelocked_wallet ≡ a
unfolding ethnode.new
timelocked_wallet-new (ok _) (ok w) a node h =
    let same : record { wallet_address = w; timelocked_wallet = a } ≡ node = cc in
    ap (λ x. x.timelocked_wallet) (sym same)
timelocked_wallet-new _ _ a node h = cc

-- What came of each part of a start that succeeds.
main_ok :
    (l : Libraries) (opt : Opt) (n : Network) (setup : List Setup) (node : EthNode)
    → main l opt ≡ ok (n, setup, node)
    → (peer : PeerId) × (addr : Multiaddr) × (keypair l opt.seed ≡ ok peer)
      × (new peer
            (bootstrap_peers opt.boot_addr opt.boot_id)
            addr
            l.transport
            l.behaviour
            l.subscribed
          ≡ ok (n, setup))
      × (ethnode.new l.client l.wallet opt.wallet_address ≡ ok node)
unfolding main
main_ok l opt n setup node h =
    let (peer, p, h₁) = bind_ok (keypair l opt.seed) _ h in
    let (addr, q, h₂) = bind_ok (listen_addr l opt.listen) _ h₁ in
    let r =
      new peer (bootstrap_peers opt.boot_addr opt.boot_id) addr l.transport l.behaviour
        l.subscribed in
    let (started, u, h₃) = bind_ok (expect r) _ h₂ in
    let c = ethnode.new l.client l.wallet opt.wallet_address in
    let (chain, v, h₄) = bind_ok (expect c) _ h₃ in
    let same_node : chain ≡ node = cc in
    let same_start : started ≡ (n, setup) = cc in
    (peer, addr, p, expect_ok r u ∙ ap ok same_start, expect_ok c v ∙ ap ok same_node)

-- The peer to bootstrap from is dialled, or its id or its address was not given and nobody is.
abbrev pub DialsPeer : Opt → List Setup → Type 0
DialsPeer opt setup =
    ((id : PeerId) × (addr : Multiaddr) × (opt.boot_id ≡ some id)
      × (opt.boot_addr ≡ some addr)
      × (dialled setup ≡ addr ∷ []))
    ⊎ (((opt.boot_id ≡ none) ⊎ (opt.boot_addr ≡ none)) × (dialled setup ≡ []))

bootstrap_peers-DialsPeer :
    (opt : Opt) (setup : List Setup) (addr : Option Multiaddr) (id : Option PeerId)
    → opt.boot_addr ≡ addr
    → opt.boot_id ≡ id
    → dialled setup ≡ map (λ p. p.1) (bootstrap_peers addr id)
    → DialsPeer opt setup
bootstrap_peers-DialsPeer opt setup (some addr) (some id) p q h = inl (id, addr, q, p, h)
bootstrap_peers-DialsPeer opt setup none id p q h = inr (inr p, h)
bootstrap_peers-DialsPeer opt setup (some addr) none p q h = inr (inl q, h)

-- A node that starts has the peer id of its key and the wallet of its arguments, and has dialled
-- the peer to bootstrap from if both its id and its address were given, and nobody else. It keeps no
-- sender waiting and hears queries, and is not subscribed to the topics under which commits and
-- invalidating signatures are published.
pub main_lem :
    (l : Libraries) (opt : Opt) (n : Network) (setup : List Setup) (node : EthNode)
    → main l opt ≡ ok (n, setup, node)
    → (keypair l opt.seed ≡ ok n.peer_id)
      × (node.timelocked_wallet ≡ opt.wallet_address)
      × DialsPeer opt setup
      × ((x : ℕ) → waiting x n ≡ 0)
      × (is_subscribed (ident_topic query_topic) setup ≡ true)
      × (is_subscribed (ident_topic commit_topic) setup ≡ false)
      × (is_subscribed (ident_topic invalidating_signature_topic) setup ≡ false)
main_lem l opt n setup node h =
    let (peer, addr, p, q, v) = main_ok l opt n setup node h in
    let peers = bootstrap_peers opt.boot_addr opt.boot_id in
    let (same, dials) =
      dialled-new peer peers addr l.transport l.behaviour l.subscribed n setup q in
    let heard = new_subscriptions peer peers addr l.transport l.behaviour l.subscribed n setup q in
    (
      p ∙ ap ok (sym same),
      timelocked_wallet-new l.client l.wallet opt.wallet_address node v,
      bootstrap_peers-DialsPeer opt setup opt.boot_addr opt.boot_id refl refl dials,
      heard.0,
      heard.1,
      heard.2,
      heard.3,
    )
