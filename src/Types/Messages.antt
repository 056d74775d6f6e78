-- ===== src/Types/Messages.antt =====
-- src/network/exchange.rs, src/network/commit.rs and the events of src/network/mod.rs.
use dse.Base.{ℕ, Bool, List}
use dse.Types.{Address, PeerId, Multiaddr, Signature, Query, IWant, Trade, Commit}

pub data ExchangeRequest : Type 0 where
  i_want : IWant → ExchangeRequest
  start_commit : Trade → ExchangeRequest
  t1_requester_commit : ℕ → Commit → ExchangeRequest
  t1_provider_commit : ℕ → Commit → ExchangeRequest
  t2_requester_commit : ℕ → Commit → ExchangeRequest
  t2_commit_valid : ℕ → ExchangeRequest
  exchange_invalidating_signature : ℕ → Signature → ExchangeRequest

pub data ExchangeResponse : Type 0 where
  ack bad : ExchangeResponse

pub data CommitRequest : Type 0 where
  want_history : Address → CommitRequest
  update : Address → List Commit → Bool → CommitRequest

pub data CommitResponse : Type 0 where
  commit_ack commit_bad : CommitResponse

pub data GossipsubMessage : Type 0 where
  new_query : Query → GossipsubMessage
  gossip_commit : Commit → ℕ → GossipsubMessage
  -- The trade, the provider's wallet, the requester's wallet and the signature.
  gossip_invalidating_signature : ℕ → Address → Address → Signature → GossipsubMessage

abbrev pub RequestId : Type 0
RequestId = ℕ

pub data NetworkEvent : Type 0 where
  gossipsub_message_recv : GossipsubMessage → NetworkEvent
  exchange_request : PeerId → RequestId → ExchangeRequest → NetworkEvent
  commit_request : PeerId → RequestId → CommitRequest → NetworkEvent
  new_listen_addr : ℕ → Multiaddr → NetworkEvent
