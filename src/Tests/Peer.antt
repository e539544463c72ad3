-- ===== src/Tests/Peer.antt =====
-- Samples for the peer links.
use eventmesh_go.Prelude.{Str, codes, false, none, some, List, [], ◌∷◌, ok, ◌≡◌, refl, str_eq}
use eventmesh_go.Prelude.Maps.{Map, lookup}
use eventmesh_go.Peer.Config.{Config, validate, set_defaults}
use eventmesh_go.Peer.Messages.{control_plane_message, PeerMessage, heartbeat}
use eventmesh_go.Peer.Metrics.{PeerMetrics, new_peer_metrics}
use eventmesh_go.Peer.Metrics.Accounting.{
  MetricsCall, registered, plane_drop, silence, metrics_run, AllBalanced, reachable-AllBalanced,
}
use eventmesh_go.Peer.Retry.{
  not_established, Round, looping, run_outbound_connection, run_outbound-Unreachable,
}
use eventmesh_go.Peer.Link.{
  PeerNode, Link, dial_failed, connect, disconnect, find_queue, offer, crashed, data_arm,
}
use eventmesh_go.Peer.Link.Bounds.{LinkSound}
use eventmesh_go.Peer.Link.Invariant.{
  LinkStep, registering, connecting, offering, polling, waiting, fresh, link_steps, new_link,
  new_grpc_peer_link, reachable-LinkSound,
}
use eventmesh_go.Peer.Link.Delivery.{offer-after_disconnect, connect-after_failed_dial}

abbrev peer_b : Str
peer_b = codes "b"

abbrev node_b : PeerNode
node_b = record { id = peer_b; address = codes "b:9090" }

abbrev config : Config
config = record {
  node_id = codes "a";
  listen_address = codes "a:9090";
  send_queue_size = 2;
  send_timeout = 1;
  max_send_attempts = 3;
  heartbeat_interval = 10;
  missed_heartbeat_limit = 3;
  max_message_size = 100;
}

abbrev steps : List LinkStep
steps =
    connecting 1 node_b (some 7)
    ∷ registering 1 peer_b
    ∷ offering false peer_b heartbeat 2 0
    ∷ polling peer_b
    ∷ waiting data_arm peer_b
    ∷ []

made : new_grpc_peer_link config ≡ ok (new_link (set_defaults config))
unfolding new_grpc_peer_link validate
made = refl

reachable-LinkSound_example : LinkSound (link_steps steps (new_link (set_defaults config)))
reachable-LinkSound_example = reachable-LinkSound config (new_link (set_defaults config)) steps made

abbrev metrics : Map PeerMetrics
metrics = (peer_b, new_peer_metrics 3) ∷ []

abbrev calls : List MetricsCall
calls = registered 3 peer_b ∷ plane_drop peer_b control_plane_message ∷ silence 10 3 50 ∷ []

reachable-AllBalanced_example : AllBalanced (metrics_run calls [])
reachable-AllBalanced_example = reachable-AllBalanced calls

abbrev failed_round : Round
failed_round = record {
  context_done = false;
  link_closed = false;
  attempt = not_established;
  done_in_delay = false;
}

run_outbound-Unreachable_example :
    run_outbound_connection peer_b (failed_round ∷ failed_round ∷ []) (looping 0) metrics
    ≡ ([], looping 0, metrics)
run_outbound-Unreachable_example =
    run_outbound-Unreachable peer_b (failed_round ∷ failed_round ∷ []) metrics
      (refl, refl, refl, (refl, refl, refl, tt))

-- A link with one peer, a heartbeat in its control queue, and an empty data queue.
abbrev a_beat : PeerMessage
a_beat = fresh peer_b heartbeat 2

abbrev linked : Link
linked = record (new_link config) {
  send_queues = (peer_b, 0) ∷ [];
  control_queues = (peer_b, 1) ∷ [];
  metrics = metrics;
  channels =
      record { buffer = []; capacity = 2; closed = false }
      ∷ record { buffer = a_beat ∷ []; capacity = 2; closed = false }
      ∷ [];
}

offer-after_disconnect_example :
    (offer false peer_b a_beat 0 (disconnect peer_b linked).1).0 ≡ crashed
unfolding find_queue lookup str_eq
offer-after_disconnect_example =
    offer-after_disconnect peer_b a_beat linked 0
      (record { buffer = []; capacity = 2; closed = false }) refl refl

connect-after_failed_dial_example :
    ((connect 3 node_b none (new_link config)).0 ≡ some dial_failed)
    × (connect 4 node_b (some 7) (connect 3 node_b none (new_link config)).1
        ≡ (none, (connect 3 node_b none (new_link config)).1))
    × ((connect 3 node_b none (new_link config)).1.outbound_conns ≡ [])
unfolding lookup
connect-after_failed_dial_example =
    connect-after_failed_dial 3 4 node_b (some 7) (new_link config) refl refl
