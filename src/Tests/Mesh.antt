-- ===== src/Tests/Mesh.antt =====
-- Samples for the node: interest of peers and publishing.
use eventmesh_go.Prelude.{
  ℕ, ◌+◌, Str, codes, Bool, true, false, Option, none, some, [], ◌∷◌, ◌≡◌, ◌↔◌, refl, In,
}
use eventmesh_go.Prelude.Maps.{Map, lookup}
use eventmesh_go.EventLog.Event.{Event}
use eventmesh_go.EventLog.Memory.{new_memory_log, append_event}
use eventmesh_go.Peer.Link.{PeerNode}
use eventmesh_go.Routing.Pattern.{matches_pattern}
use eventmesh_go.Routing.Table.{Subscriber, new_local_subscriber, RoutingTable, local_client}
use eventmesh_go.Mesh.Interest.{no_interest, get_interested_peers}
use eventmesh_go.Mesh.Interest.View.{has_interest}
use eventmesh_go.Mesh.Publish.{
  TrustedClient, new_trusted_client, no_deliveries, Cancellation, PeerLinks, Publisher, MeshNode,
  forward_to_peers, validate_publish_request, publish_event_with_result,
}
use eventmesh_go.Mesh.Publish.Forwarding.{ids_of, recording, forward_to_peers-sends}
use eventmesh_go.Mesh.Publish.Success.{publish-persists}

abbrev orders : Str
orders = codes "orders"

abbrev peer_b : PeerNode
peer_b = record { id = codes "b"; address = codes "b:9090" }

abbrev peer_c : PeerNode
peer_c = record { id = codes "c"; address = codes "c:9090" }

abbrev interest : Map (Map Bool)
interest = (codes "b", (codes "*", true) ∷ []) ∷ (codes "c", (orders, false) ∷ []) ∷ []

abbrev alice : Subscriber
alice = new_local_subscriber (codes "a1") (codes "alice")

abbrev table : RoutingTable
table = record { subscriptions = (orders, (codes "alice", alice) ∷ []) ∷ []; closed = false }

abbrev clients : Map TrustedClient
clients = (codes "a1", new_trusted_client (codes "alice")) ∷ []

abbrev order : Event
order = record { offset = 0; topic = orders; payload = 1 ∷ []; timestamp = 5; headers = [] }

-- Peer links to two peers, on which every send fails.
abbrev broken_links : PeerLinks ℕ
broken_links = record {
  get_connected_peers = λ s. some (peer_b ∷ peer_c ∷ []);
  send_event = λ id e s. (false, s + 1);
}

forward_to_peers-sends_example :
    ((forward_to_peers
        (recording broken_links)
        (λ i. none)
        order
        (record no_interest { peer_subscriptions = interest })
        no_deliveries
        (0, [])).1.1
      ≡ ids_of (get_interested_peers orders (peer_b ∷ peer_c ∷ []) interest))
    × ((peer : PeerNode)
        → In peer (get_interested_peers orders (peer_b ∷ peer_c ∷ []) interest)
          ↔ In peer (peer_b ∷ peer_c ∷ [])
            × ((pattern : Str) × (has_interest interest peer.id pattern ≡ true)
                × (matches_pattern pattern orders ≡ true)))
unfolding lookup
forward_to_peers-sends_example =
    forward_to_peers-sends broken_links (λ i. none) order
      (record no_interest { peer_subscriptions = interest }) no_deliveries 0 []
      (peer_b ∷ peer_c ∷ []) (λ j. refl) refl ((refl, tt), ((refl, tt), tt))

abbrev live : Cancellation
live = record {
  at_append = none;
  at_subscriber = λ i. none;
  after_local = none;
  at_peer = λ i. none;
  after_peers = none;
}

-- Links that count what they send, to one peer.
abbrev counting_links : PeerLinks ℕ
counting_links = record {
  get_connected_peers = λ n. some (peer_b ∷ []);
  send_event = λ id e n. (true, n + 1);
}

abbrev node : MeshNode ℕ
node = record {
  started = true;
  closed = false;
  event_log = new_memory_log;
  routing_table = table;
  clients = clients;
  interest = record no_interest { peer_subscriptions = interest };
  links = 0;
}

abbrev publisher : Option Publisher
publisher = some (record { is_authenticated = true })

publish-persists_example :
    ((publish_event_with_result counting_links live publisher (some order) node).1.event_log
      ≡ (append_event none orders (some order) new_memory_log).1)
    × ((publish_event_with_result counting_links live publisher (some order) node).1.routing_table
        ≡ table)
unfolding eventmesh_go.Mesh.Publish.validate_publish_request
publish-persists_example = publish-persists counting_links live publisher order node refl
