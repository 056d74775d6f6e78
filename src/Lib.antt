-- ===== src/Lib.antt =====
-- DSE: the node of a decentralised market for data services. Peers gossip queries, a requester and a
-- provider agree on a trade, and the trade is paid for by commits over index ranges of a wallet.
--
-- The program's parts and how they meet. The network task (src/network/mod.rs) owns the libp2p
-- swarm; it serves commands and turns the swarm's events into network events. The indexer
-- (src/indexer.rs) handles the network events and its own timer: it writes to the storage, answers
-- requests, and spawns the procedures of a trade (src/commit_procedure.rs). The procedure that
-- verifies a commit loads the history of a wallet from peers (src/ch_request.rs). The server
-- (src/server.rs) takes the user's requests. All of them share the storage (src/storage.rs). A
-- method that only reads or only writes is one locked section of it; a method that reads and then
-- writes takes the lock twice.
--
-- The files, and the code each models:
--   Types, Types/Messages: the records of src/storage.rs, the requests and responses of
--     src/network/exchange.rs and src/network/commit.rs, the network events of src/network/mod.rs.
--   Backend: the interface of the database sled and of the serializer bincode. A database holds
--     trees by name; a read of an entry and an insertion may fail, and a decoding may fail.
--   Storage and its children: every method of `Storage`, under its own name. The state is the
--     database. Storage/Names has the tree names, Storage/Invariant what each tree holds.
--     Storage/Model is the abstract view of it, one map for each kind of record. Storage/Locks has
--     the locked sections, for calls of several threads in any order. Storage/Ordered
--     has the order of the keys.
--   Commit and its children: the hash, signer and test of a commit, and the search for a conflict in
--     a `CommitHistory`, from src/storage.rs.
--   EthNode: src/ethnode.rs, whose answers on wallets are constants.
--   Loading and its children: `ChRequest::load_commit_history` and `LoadingState` of
--     src/ch_request.rs. The loop is a fold over the list of what its `select!` receives.
--   Procedure and its children: `CommitProcedure` of src/commit_procedure.rs.
--   Indexer and its children: `Indexer::run` and `handle_network_event` of src/indexer.rs. A handler
--     returns the database and the list of what it spawns. Indexer/Runs has the loop.
--   Protocol and its children: the two nodes of one trade, whose handlers and tasks run in any order;
--     a step relation made of the definitions of Indexer and Procedure. Protocol/Delivery has the
--     way of one commit message from a node's `send` to the other node's `verify`, and
--     Protocol/Sides and Protocol/Completion a run of a whole trade, Protocol/History a load of a
--     history with the indexer of the peer that is asked.
--   Server, Server/Trades: `handle_post` and the read handlers of src/server.rs. Server/Routes: the
--     routes of `Server::start`. Server/Sockets: the clients on websockets, whose tasks take turns in
--     any order.
--   Network and its children: `command_handler` and `swarm_event_handler` of src/network/mod.rs. The
--     state is the `Network` record with its maps; the outputs are a list. Network/Startup has
--     `Network::new`, Network/Runs `Network::run`, Network/RequestResponse the codec of
--     src/network/request_response.rs. Network/Senders and Network/Answers are about the senders of
--     commands, Network/Channels about the channels of other peers' requests.
--   NetworkClient: the client of src/network_client.rs. A method is the command that it makes around
--     a sender and what it reads of the answer; a call whose sender still waits has not ended. NetworkClient/Exchanges puts two clients, two network
--     tasks and an indexer together, NetworkClient/Gossip a publisher and a node that hears it.
--   System and its children: what src/main.rs sets going. The indexer, the procedures and loads that
--     it spawns and the user's queries and quotes share one database; System/Tasks has each procedure
--     step by step, a step up to the next point where another task can change the database, and
--     System/Alone relates these steps to the whole procedures of Procedure and Loading. System/Ends,
--     System/Settles and System/Silence are about one task whose database changes between its steps.
--   Main, Main/Starts: the start of the node from the arguments of src/main.rs.
--   Base and its children: results with panics, bytes, trees, hash maps and lists.
--   Examples and its children: a database in memory that is sound, and the theorems applied to it.
--
-- Conventions. Rust's `Result` and panics are one type: `ok`, `err` with the kind of error, and
-- `panic`, which is what an `unwrap` of an error does. An integer is a native number; that an id is
-- a u32 is a hypothesis where the key's 4 bytes matter. A time is a number of nanoseconds. A timer
-- and the network are lists of events that are arguments, so every interleaving of them is covered
-- by the theorems that hold for all lists. In Protocol a run of `send` or of a whole `verify` is
-- one step: a run that waits for a history takes no step. In System a handler of the indexer is one
-- step, and so is the reading of a want for a quote; what a task waits for, and what a load hears
-- of the network, is given to it at its step, independently of what the indexer hears.
--
-- Parameters. sled and bincode (Backend), with the laws that a tree is an ordered map and that what
-- was serialized is read back (IsSound; Examples/Memory has an instance); keccak256 and the
-- recovery of a signer (Crypto), of which no law is assumed; the JSON of gossip messages; the
-- answers of the swarm and, in Procedure, Loading and Server, of the network client; libp2p's
-- length-prefixed framing and serde_json (Network/RequestResponse), with the laws that a message is
-- read back unless it is longer than the reader takes, and that what was written as JSON is read
-- back; warp's filters as tests of a request (Server/Routes), with the law that a path filter tests
-- the first segment of the path; at the start, what the libraries make of a key's bytes, and the
-- outcomes of building the transport, the behaviours, the chain's client and the wallet.
--
-- Bounds. The only function on fuel is `drain`, whose fuel is a number of calls of `query_from` that
-- the statements about it choose. All loops over lists are structural.
--
-- Not modelled: opening a tree, which is taken to succeed, and an insertion's effect on disk; how
-- src/main.rs parses its arguments; the transport and the behaviours of the swarm, which libp2p
-- builds; the task that writes to a websocket, which is never given anything; src/commitment.rs,
-- which is commented out; the contracts.
pub mod Base
pub mod Types
pub mod Backend
pub mod Storage
pub mod Commit
pub mod EthNode
pub mod Loading
pub mod Procedure
pub mod Indexer
pub mod Server
pub mod Network
pub mod NetworkClient
pub mod Protocol
pub mod System
pub mod Main
pub mod Examples
