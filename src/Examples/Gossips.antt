-- ===== src/Examples/Gossips.antt =====
-- A query from its user to another node, at concrete nodes.
use dse.Base.{
  ℕ, ◌≡◌, refl, sym, ap, ◌∙◌, [], ◌∷◌, ◌++◌, Option, none, some, Result, ok, length, arith, String,
}
use dse.Base.Bytes.{Bytes}
use dse.Types.{Multiaddr, Query, QueryData}
use dse.Types.Messages.{GossipsubMessage, new_query}
use dse.Storage.{find_query_received_by_query_id, find_query_sent_by_query_id}
use dse.Network.RequestResponse.{Json, JsonRoundTrip}
use dse.Network.Startup.{Setup, idle_network, contact}
use dse.Network.Startup as startup
use dse.Server.{query_from_data, post_query, status_ok, publish}
use dse.NetworkClient.Gossip.{Ends, publish_round, gossip_round}
use dse.NetworkClient.Gossip.Posted.{HasStarted, outcome, posted_query}
use dse.Examples.Memory.{Db, memory, memory_sound, empty, alice, bob, node}
use dse.Examples.Networks.{swarm}
use dse.Examples.Rounds.{heard}
use dse.Examples.Frames.{split, split-length}

-- A text for the queries that search for the empty string, and for no other message.
abbrev query_text : String → Query → Option Bytes
query_text String.[] q = some (
    q.id
    ∷ length q.requester_addr
    ∷ (q.requester_addr ++ length q.requester_id ∷ (q.requester_id ++ q.requester_wallet_address)))
query_text _ q = none

abbrev message_text : GossipsubMessage → Option Bytes
message_text (new_query q) = query_text q.query_data.query_string q
message_text _ = none

abbrev with_ids : ℕ → Multiaddr → Result (Bytes × Bytes) → Option GossipsubMessage
with_ids id addr (ok (peer, wallet)) = some (
    new_query (record {
      id = id;
      query_data = record { query_string = "" };
      requester_addr = addr;
      requester_id = peer;
      requester_wallet_address = wallet;
    }))
with_ids id addr _ = none

abbrev with_addr : ℕ → Result (Bytes × Bytes) → Option GossipsubMessage
with_addr id (ok (addr, n ∷ rest)) = with_ids id addr (split n rest)
with_addr id _ = none

abbrev read_message : Bytes → Option GossipsubMessage
read_message (id ∷ n ∷ rest) = with_addr id (split n rest)
read_message _ = none

abbrev json : Json GossipsubMessage
json = record { to_vec = message_text; from_slice = read_message }

read_query :
    (text : String) (q : Query) (bytes : Bytes)
    → q.query_data.query_string ≡ text
    → query_text text q ≡ some bytes
    → read_message bytes ≡ some (new_query q)
read_query String.[] q bytes p h =
    let tail = q.requester_id ++ q.requester_wallet_address in
    let read : read_message bytes
        ≡ some (new_query (record q { query_data = record { query_string = "" } })) =
      ground (
        arith,
        h,
        split-length q.requester_addr (length q.requester_id ∷ tail),
        split-length q.requester_id q.requester_wallet_address,
      ) in
    read
    ∙ ap (λ text. some (new_query (record q { query_data = record { query_string = text } })))
        (sym p)
read_query (String.◌∷◌ c s) q bytes p h = cc

json-JsonRoundTrip : JsonRoundTrip json
json-JsonRoundTrip (new_query q) bytes h = read_query q.query_data.query_string q bytes refl h
json-JsonRoundTrip _ bytes h = cc

abbrev ends_of : Ends
ends_of = record {
  publisher = bob;
  publishing = idle_network bob;
  publishing_swarm = swarm;
  publishing_sender = 8;
  hearer = idle_network alice;
  setup = heard;
}

started : HasStarted ends_of
unfolding startup.new contact
started = (alice, (bob, 12 ∷ []) ∷ [], 11 ∷ [], refl)

abbrev search : QueryData
search = record { query_string = "" }

abbrev asked : Query
asked = query_from_data search node.timelocked_wallet (bob, 12 ∷ [])

posted_query_example :
    (answered : Result (Unit {0})) × (ours' : Db) × (theirs' : Db) × (outcome
        (publish_round json ends_of (new_query asked)).0
      ≡ some answered)
    × (post_query node empty search (ok (bob, 12 ∷ [])) answered
        ≡ (ours', status_ok, publish (new_query asked) ∷ []))
    × (find_query_sent_by_query_id ours' 1 ≡ ok asked)
    × (gossip_round json empty ends_of (new_query asked) ≡ ok (theirs', []))
    × (find_query_received_by_query_id theirs' 1 ≡ ok asked)
unfolding query_from_data
posted_query_example =
    posted_query memory_sound json node search (bob, 12 ∷ []) ends_of empty empty json-JsonRoundTrip
      refl refl started
