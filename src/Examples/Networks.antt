-- ===== src/Examples/Networks.antt =====
-- The theorems of src/network/mod.rs.
use dse.Base.{[], ◌∷◌, Option, none, ok, err, network_failed}
use dse.Base.Bytes.{Bytes}
use dse.Types.Messages.{t2_commit_valid, GossipsubMessage}
use dse.Network.{Network, Swarm}
use dse.Network.Events.{exchange, request, swarm_event_handler}
use dse.Network.Startup.{idle_network}
use dse.Examples.Memory.{alice, bob}

abbrev pub putting : Network
putting = record (idle_network alice) { pending_dht_put_requests = (4, 8) ∷ [] }

abbrev pub swarm : Swarm
swarm = record {
  listen_on = ok tt;
  put_record = ok 5;
  start_providing = err network_failed;
  get_record = 1;
  get_providers = 2;
  start_bootstrap = ok 3;
  publication = ok [];
  exchange_id = 0;
  commit_id = 0;
}

abbrev pub parse_none : Bytes → Option GossipsubMessage
parse_none b = none

abbrev requested : Network
requested =
    (swarm_event_handler parse_none (idle_network alice)
      (exchange (request bob 6 (t2_commit_valid 5) 2))).0
