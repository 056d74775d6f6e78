-- ===== src/NetworkClient.antt =====
-- src/network_client.rs: the client of the network task. A method makes a command around a new
-- one-shot sender, sends it to the task, and awaits what the sender is given.
pub mod Exchanges
pub mod Gossip
use dse.Base.{
  ℕ, Bool, true, false, List, [], ◌∷◌, Option, none, some, ◌==◌, ltb, if◌then◌else◌, Result, ok,
  err, panic, network_failed,
}
use dse.Base.Bytes.{Bytes}
use dse.Types.{PeerId, Multiaddr}
use dse.Types.Messages.{
  ExchangeRequest, ExchangeResponse, CommitRequest, CommitResponse, GossipsubMessage, RequestId,
}
use dse.Network.Senders.{waiting}
use dse.Network.{
  Network, Sender, Answer, done, record_ok, providers, message_id, exchange_answer, commit_answer,
  details, subscribed, failed, Output, answer, Command,
}

-- The command around a sender, and what the method makes of the answer. Rust's types give each
-- command its own type of answer; a mismatch is a panic here, and does not come up.
pub record Call (A : Type 0) : Type 0 where
  pub to_command : Sender → Command
  pub read : Answer → Result A

abbrev to_unit : Answer → Result (Unit {0})
to_unit done = ok tt
to_unit (failed e) = err e
to_unit _ = panic

abbrev to_record : Answer → Result Bytes
to_record (record_ok r) = ok r
to_record (failed e) = err e
to_record _ = panic

abbrev to_providers : Answer → Result (List PeerId)
to_providers (providers ps) = ok ps
to_providers (failed e) = err e
to_providers _ = panic

abbrev to_message_id : Answer → Result Bytes
to_message_id (message_id id) = ok id
to_message_id (failed e) = err e
to_message_id _ = panic

abbrev to_exchange_response : Answer → Result ExchangeResponse
to_exchange_response (exchange_answer r) = ok r
to_exchange_response (failed e) = err e
to_exchange_response _ = panic

abbrev to_commit_response : Answer → Result CommitResponse
to_commit_response (commit_answer r) = ok r
to_commit_response (failed e) = err e
to_commit_response _ = panic

abbrev to_details : Answer → Result (PeerId × Multiaddr)
to_details (details p a) = ok (p, a)
to_details (failed e) = err e
to_details _ = panic

abbrev to_subscription : Answer → Result (Unit {0})
to_subscription subscribed = ok tt
to_subscription (failed e) = err e
to_subscription _ = panic

unfoldable pub add_kad_peer : PeerId → Multiaddr → Call (Unit {0})
add_kad_peer peer addr = record { to_command = Command.add_kad_peer peer addr; read = to_unit }

unfoldable pub add_request_response_peer : PeerId → Multiaddr → Call (Unit {0})
add_request_response_peer peer addr = record {
  to_command = Command.add_request_response_peer peer addr;
  read = to_unit;
}

unfoldable pub start_listening : Multiaddr → Call (Unit {0})
start_listening addr = record { to_command = Command.start_listening addr; read = to_unit }

unfoldable pub dht_put : Bytes → Call Bytes
dht_put r = record { to_command = Command.dht_put r; read = to_record }

unfoldable pub dht_get : Bytes → Call Bytes
dht_get key = record { to_command = Command.dht_get key; read = to_record }

unfoldable pub dht_start_providing : Bytes → Call Bytes
dht_start_providing key = record { to_command = Command.dht_start_providing key; read = to_record }

unfoldable pub dht_get_providers : Bytes → Call (List PeerId)
dht_get_providers key = record { to_command = Command.dht_get_providers key; read = to_providers }

unfoldable pub kad_bootstrap : Call (Unit {0})
kad_bootstrap = record { to_command = Command.bootstrap; read = to_unit }

unfoldable pub publish_message : GossipsubMessage → Call Bytes
publish_message m = record { to_command = Command.publish_message m; read = to_message_id }

unfoldable pub send_exchange_request : PeerId → ExchangeRequest → Call ExchangeResponse
send_exchange_request peer r = record {
  to_command = Command.exchange_request_to peer r;
  read = to_exchange_response;
}

unfoldable pub send_exchange_response : PeerId → RequestId → ExchangeResponse → Call (Unit {0})
send_exchange_response peer id r = record {
  to_command = Command.exchange_response peer id r;
  read = to_unit;
}

unfoldable pub send_commit_request : PeerId → CommitRequest → Call CommitResponse
send_commit_request peer r = record {
  to_command = Command.commit_request_to peer r;
  read = to_commit_response;
}

unfoldable pub send_commit_response : PeerId → RequestId → CommitResponse → Call (Unit {0})
send_commit_response peer id r = record {
  to_command = Command.commit_response peer id r;
  read = to_unit;
}

unfoldable pub network_details : Call (PeerId × Multiaddr)
network_details = record { to_command = Command.network_details; read = to_details }

unfoldable pub subscribe_network_events : Call (Unit {0})
subscribe_network_events = record {
  to_command = Command.subscribe_network_events;
  read = to_subscription;
}

-- What has become of a sender: it was given an answer, the task keeps it, or it was dropped unused.
pub data Delivery : Type 0 where
  delivered : Answer → Delivery
  waits dropped : Delivery

abbrev pub fate : Option Answer → Bool → Delivery
fate (some a) kept = delivered a
fate none true = waits
fate none false = dropped

unfoldable pub first_answer : Sender → List Output → Option Answer
first_answer x [] = none
first_answer x (answer s a ∷ out) = if s == x then some a else first_answer x out
first_answer x (_ ∷ out) = first_answer x out

-- What the task did for a sender with the outputs that it made, and what it keeps now.
unfoldable pub answer_for : Sender → Network → List Output → Delivery
unfolding first_answer
answer_for x n out = fate (first_answer x out) (ltb 0 (waiting x n))

-- `receiver.await`: it does not return while the sender waits; a sender that is dropped is an error.
unfoldable pub await : {A : Type 0} → Call A → Delivery → Option (Result A)
await c (delivered a) = some (c.read a)
await c waits = none
await c dropped = some (err network_failed)
