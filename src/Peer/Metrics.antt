-- ===== src/Peer/Metrics.antt =====
-- internal/peerlink/grpc_metrics.go and the health rules of grpc_heartbeat.go, over the map from peers
-- to metrics. Each function runs under the link's lock. Counters are int64 bit patterns; times and
-- durations are nanoseconds, and a zero time is 0.
pub mod Accounting
pub mod Health
use eventmesh_go.Prelude.{
  ℕ, ◌+◌, ◌-◌, ◌*◌, ◌/◌, Str, Bool, true, false, not, ◌||◌, ◌%◌, Option, none, some, List, [], ◌∷◌,
  Result, ok, err, if◌then◌else◌, ◌==◌,
}
use eventmesh_go.Prelude.Words.{add64, less64, two64}
use eventmesh_go.Prelude.Maps.{Map, lookup, insert}
use eventmesh_go.Peer.Messages.{Plane, data_plane_message, control_plane_message}

-- PeerHealthState
pub data PeerHealthState : Type 0 where
  healthy unhealthy disconnected : PeerHealthState

abbrev pub is_disconnected : PeerHealthState → Bool
is_disconnected disconnected = true
is_disconnected _ = false

-- peerMetrics
pub record PeerMetrics : Type 0 where
  pub drops_count : ℕ
  pub data_plane_drops_count : ℕ
  pub control_plane_drops_count : ℕ
  pub data_plane_queued_count : ℕ
  pub control_plane_queued_count : ℕ
  pub data_plane_failure_count : ℕ
  pub control_plane_failure_count : ℕ
  pub health_state : PeerHealthState
  pub failure_count : ℕ
  pub missed_heartbeat_count : ℕ
  pub last_seen_at : ℕ

-- The metrics that registerPeer stores, at the time `now`.
abbrev pub new_peer_metrics : ℕ → PeerMetrics
new_peer_metrics now = record {
  drops_count = 0;
  data_plane_drops_count = 0;
  control_plane_drops_count = 0;
  data_plane_queued_count = 0;
  control_plane_queued_count = 0;
  data_plane_failure_count = 0;
  control_plane_failure_count = 0;
  health_state = healthy;
  failure_count = 0;
  missed_heartbeat_count = 0;
  last_seen_at = now;
}

-- `if metrics, exists := g.metrics[peerID]; exists { … }`: the metrics are changed in place.
unfoldable pub update_metrics :
    Str → (PeerMetrics → PeerMetrics) → Map PeerMetrics → Map PeerMetrics
update_metrics peer_id f metrics = elim (lookup peer_id metrics) [
  | none ↦ metrics
  | some m ↦ insert peer_id (f m) metrics
]

-- SetPeerHealth
unfoldable pub set_peer_health : Str → PeerHealthState → Map PeerMetrics → Map PeerMetrics
set_peer_health peer_id state = update_metrics peer_id (λ m. record m { health_state = state })

-- markPeerSeen, at the time `now`
abbrev pub seen : ℕ → PeerMetrics → PeerMetrics
seen now m = record m {
  health_state = healthy;
  failure_count = 0;
  missed_heartbeat_count = 0;
  last_seen_at = now;
}

unfoldable pub mark_peer_seen : ℕ → Str → Map PeerMetrics → Map PeerMetrics
mark_peer_seen now peer_id = update_metrics peer_id (seen now)

-- recordPlaneQueued
abbrev pub queued_on : Plane → PeerMetrics → PeerMetrics
queued_on data_plane_message m = record m {
  data_plane_queued_count = add64 m.data_plane_queued_count 1;
}
queued_on control_plane_message m = record m {
  control_plane_queued_count = add64 m.control_plane_queued_count 1;
}

unfoldable pub record_plane_queued : Str → Plane → Map PeerMetrics → Map PeerMetrics
record_plane_queued peer_id plane = update_metrics peer_id (queued_on plane)

-- recordPlaneDrop
abbrev pub dropped_on : Plane → PeerMetrics → PeerMetrics
dropped_on data_plane_message m = record m {
  drops_count = add64 m.drops_count 1;
  data_plane_drops_count = add64 m.data_plane_drops_count 1;
}
dropped_on control_plane_message m = record m {
  drops_count = add64 m.drops_count 1;
  control_plane_drops_count = add64 m.control_plane_drops_count 1;
}

unfoldable pub record_plane_drop : Str → Plane → Map PeerMetrics → Map PeerMetrics
record_plane_drop peer_id plane = update_metrics peer_id (dropped_on plane)

-- recordPlaneSendFailure
abbrev pub failed_on : Plane → PeerMetrics → PeerMetrics
failed_on data_plane_message m = record m {
  data_plane_failure_count = add64 m.data_plane_failure_count 1;
}
failed_on control_plane_message m = record m {
  control_plane_failure_count = add64 m.control_plane_failure_count 1;
}

unfoldable pub record_plane_send_failure : Str → Plane → Map PeerMetrics → Map PeerMetrics
record_plane_send_failure peer_id plane = update_metrics peer_id (failed_on plane)

-- recordPeerSendFailure
abbrev pub send_failed : PeerMetrics → PeerMetrics
send_failed m = record m { failure_count = add64 m.failure_count 1; health_state = unhealthy }

unfoldable pub record_peer_send_failure : Str → Map PeerMetrics → Map PeerMetrics
record_peer_send_failure peer_id = update_metrics peer_id send_failed

-- GetDropsCount
unfoldable pub get_drops_count : Str → Map PeerMetrics → ℕ
get_drops_count peer_id metrics = elim (lookup peer_id metrics) [
  | none ↦ 0
  | some m ↦ m.drops_count
]

-- GetPeerHealth
pub data HealthError : Type 0 where
  peer_not_found : HealthError

unfoldable pub get_peer_health : Str → Map PeerMetrics → PeerHealthState × Option HealthError
get_peer_health peer_id metrics = elim (lookup peer_id metrics) [
  | none ↦ (disconnected, some peer_not_found)
  | some m ↦ (m.health_state, none)
]

-- heartbeatTimeout
abbrev pub heartbeat_timeout : ℕ → ℕ → ℕ
heartbeat_timeout interval limit = (interval * limit) % two64

-- The body of the loop of markSilentPeersUnhealthy. A clock that has gone back counts as one that
-- stands still: both are short of any positive timeout.
unfoldable pub check_silence : ℕ → ℕ → ℕ → PeerMetrics → PeerMetrics
check_silence interval limit now m =
    if is_disconnected m.health_state || m.last_seen_at == 0
    then m
    else if not (less64 (now - m.last_seen_at) (heartbeat_timeout interval limit))
    then record m {
      health_state = unhealthy;
      missed_heartbeat_count = (now - m.last_seen_at) / interval;
    }
    else m

-- markSilentPeersUnhealthy, with HeartbeatInterval and MissedHeartbeatLimit.
unfoldable pub mark_silent_peers_unhealthy : ℕ → ℕ → ℕ → Map PeerMetrics → Map PeerMetrics
mark_silent_peers_unhealthy interval limit now [] = []
mark_silent_peers_unhealthy interval limit now ((peer_id, m) ∷ rest) =
    (peer_id, check_silence interval limit now m)
    ∷ mark_silent_peers_unhealthy interval limit now rest
