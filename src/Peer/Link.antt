-- ===== src/Peer/Link.antt =====
-- internal/peerlink/grpc.go: the state of the link and the operations that the callers and the
-- connection goroutines perform on it. A step is what happens under one hold of the lock, or one
-- channel operation. What grpc, the clock and the contexts do is an input.
pub mod Bounds
pub mod Delivery
pub mod Invariant
use eventmesh_go.Prelude.{
  ℕ, zero, suc, ◌+◌, Str, Bool, true, false, Option, none, some, List, [], ◌∷◌, ◌++◌, length,
  if◌then◌else◌, ltb, get_elem?, is_some, Result, ok, err, panic,
}
use eventmesh_go.Prelude.Maps.{Map, lookup, insert, delete}
use eventmesh_go.Peer.Config.{Config}
use eventmesh_go.Peer.Messages.{PeerMessage, increment_send_attempts, plane_for_message}
use eventmesh_go.Peer.Metrics.{
  PeerMetrics, disconnected, new_peer_metrics, set_peer_health, record_plane_queued,
  record_plane_drop, record_plane_send_failure, record_peer_send_failure,
}
use eventmesh_go.Peer.Channel.{
  Channel, new_channel, close_channel, accepted, full, send_on_closed, send, taken, no_more,
  nothing_yet, receive, set_elem,
}

-- PeerNode
pub record PeerNode : Type 0 where
  pub id : Str
  pub address : Str

-- connectionInfo; the stream of an outbound connection is nil.
pub record Connection : Type 0 where
  pub node : PeerNode
  pub stream : Option ℕ

-- GRPCPeerLink, less its server and its subscribers. Queues are places in `channels`.
pub record Link : Type 0 where
  pub config : Config
  pub closed : Bool
  pub connections : Map Connection
  pub send_queues : Map ℕ
  pub control_queues : Map ℕ
  pub metrics : Map PeerMetrics
  pub outbound_conns : Map ℕ
  pub channels : List Channel

pub data LinkError : Type 0 where
  link_closed peer_not_connected queue_full dial_failed : LinkError

-- `if _, exists := queues[peerID]; !exists { queues[peerID] = make(chan PeerMessage, size) }`
unfoldable pub ensure_queue : Str → ℕ → Map ℕ × List Channel → Map ℕ × List Channel
ensure_queue peer_id size state = elim (lookup peer_id state.0) [
  | some q ↦ state
  | none ↦ (insert peer_id (length state.1) state.0, state.1 ++ new_channel size ∷ [])
]

unfoldable pub ensure_metrics : ℕ → Str → Map PeerMetrics → Map PeerMetrics
ensure_metrics now peer_id metrics = elim (lookup peer_id metrics) [
  | some m ↦ metrics
  | none ↦ insert peer_id (new_peer_metrics now) metrics
]

-- registerPeer, at the time `now`
unfoldable pub register_peer : ℕ → Str → Link → Link
register_peer now peer_id g =
    let data_side = ensure_queue peer_id g.config.send_queue_size (g.send_queues, g.channels) in
    let control_side =
      ensure_queue peer_id g.config.send_queue_size (g.control_queues, data_side.1) in
    record g {
      send_queues = data_side.0;
      control_queues = control_side.0;
      channels = control_side.1;
      metrics = ensure_metrics now peer_id g.metrics;
    }

-- Connect. `dialed` is the client connection that grpc.NewClient returns, or none if it fails.
unfoldable pub connect : ℕ → PeerNode → Option ℕ → Link → Option LinkError × Link
connect now peer dialed g =
    if g.closed
    then (some link_closed, g)
    else if is_some (lookup peer.id g.connections)
    then (none, g)
    else let registered = register_peer now peer.id (record g {
      connections = insert peer.id (record { node = peer; stream = none }) g.connections;
    }) in
      elim dialed [
        | none ↦ (some dial_failed, registered)
        | some conn ↦ (
          none,
          record registered { outbound_conns = insert peer.id conn registered.outbound_conns },
        )
      ]

-- `if queue, exists := queues[peerID]; exists { close(queue); delete(queues, peerID) }`
unfoldable pub close_queue : Str → Map ℕ × List Channel → Map ℕ × List Channel
close_queue peer_id state = elim (lookup peer_id state.0) [
  | none ↦ state
  | some q ↦ (
    delete peer_id state.0,
    elim (get_elem? state.1 q) [ none ↦ state.1 | some ch ↦ set_elem state.1 q (close_channel ch) ],
  )
]

-- Disconnect
unfoldable pub disconnect : Str → Link → Option LinkError × Link
disconnect peer_id g =
    if g.closed
    then (some link_closed, g)
    else let data_side = close_queue peer_id (g.send_queues, g.channels) in
      let control_side = close_queue peer_id (g.control_queues, data_side.1) in
      (
        none,
        record g {
          connections = delete peer_id g.connections;
          outbound_conns = delete peer_id g.outbound_conns;
          send_queues = data_side.0;
          control_queues = control_side.0;
          channels = control_side.1;
          metrics = set_peer_health peer_id disconnected g.metrics;
        },
      )

-- The first part of SendEvent, sendInterestMessage and SendHeartbeat, under the read lock: the queue.
unfoldable pub find_queue : Str → (Link → Map ℕ) → Link → Result LinkError ℕ
find_queue peer_id queues g =
    if g.closed
    then err link_closed
    else elim (lookup peer_id (queues g)) [ none ↦ err peer_not_connected | some q ↦ ok q ]

-- What a send that waits for room has come to.
pub data SendProgress : Type 0 where
  sent : SendProgress
  dropped : LinkError → SendProgress
  waiting : SendProgress
  crashed : SendProgress

-- The `select` that follows, with no lock held: `expired` tells that it takes the timeout's arm.
unfoldable pub offer : Bool → Str → PeerMessage → ℕ → Link → SendProgress × Link
offer true peer_id m q g = (
  dropped queue_full,
  record g { metrics = record_plane_drop peer_id (plane_for_message m) g.metrics },
)
offer false peer_id m q g = elim (get_elem? g.channels q) [
  | none ↦ (waiting, g)
  | some ch ↦ elim (send m ch) [
    | accepted ch' ↦ (
      sent,
      record g {
        channels = set_elem g.channels q ch';
        metrics = record_plane_queued peer_id (plane_for_message m) g.metrics;
      },
    )
    | full ↦ (waiting, g)
    | send_on_closed ↦ (crashed, g)
  ]
]

-- SendEvent, sendInterestMessage and SendHeartbeat, where nothing comes between their two parts.
unfoldable pub send_message : Bool → (Link → Map ℕ) → PeerMessage → Link → SendProgress × Link
unfolding find_queue offer
send_message expired queues m g = elim (find_queue m.peer_id queues g) [
  | ok q ↦ offer expired m.peer_id m q g
  | err e ↦ (dropped e, g)
  | panic ↦ (crashed, g)
]

-- dropFailedMessage
abbrev pub drop_failed_message : Str → PeerMessage → Link → Link
drop_failed_message peer_id m g = record g {
  metrics = record_plane_drop peer_id (plane_for_message m) g.metrics;
}

-- The `select` with `default` of handleSendFailure: back into the queue, or dropped.
unfoldable pub requeue : Str → PeerMessage → ℕ → Link → Result LinkError Link
requeue peer_id m q g = elim (get_elem? g.channels q) [
  | none ↦ ok (drop_failed_message peer_id m g)
  | some ch ↦ elim (send m ch) [
    | accepted ch' ↦ ok (record g { channels = set_elem g.channels q ch' })
    | full ↦ ok (drop_failed_message peer_id m g)
    | send_on_closed ↦ panic
  ]
]

-- recordPeerSendFailure on the link
abbrev pub count_peer_failure : Str → Link → Link
count_peer_failure peer_id g = record g { metrics = record_peer_send_failure peer_id g.metrics }

-- handleSendFailure, for a message that was taken from the queue `q`.
unfoldable pub handle_send_failure : Str → PeerMessage → ℕ → Link → Result LinkError Link
handle_send_failure peer_id m q g =
    let counted = record g {
      metrics = record_plane_send_failure peer_id (plane_for_message m) g.metrics;
    } in
    let again = increment_send_attempts m in
    if ltb g.config.max_send_attempts again.send_attempts
    then ok (count_peer_failure peer_id (drop_failed_message peer_id again counted))
    else elim (requeue peer_id again q counted) [
      | ok g' ↦ ok (count_peer_failure peer_id g')
      | err e ↦ err e
      | panic ↦ panic
    ]

-- Which arm the second `select` of nextOutboundMessageOrDone takes.
pub data Arm : Type 0 where
  context_arm receive_arm control_arm data_arm : Arm

pub data Next : Type 0 where
  message : PeerMessage → ℕ → Next
  queue_gone context_over receiver_over idle : Next

-- A receive from a peer's queue; from a nil queue nothing ever comes.
unfoldable pub take_from : Option ℕ → Link → Next × Link
take_from none g = (idle, g)
take_from (some q) g = elim (get_elem? g.channels q) [
  | none ↦ (idle, g)
  | some ch ↦ elim (receive ch) [
    | taken m ch' ↦ (message m q, record g { channels = set_elem g.channels q ch' })
    | no_more ↦ (queue_gone, g)
    | nothing_yet ↦ (idle, g)
  ]
]

-- nextOutboundMessageOrDone is two selects, between which other goroutines run. The first one takes a
-- message from the control queue if there is one.
unfoldable pub poll_outbound : Str → Link → Next × Link
unfolding take_from
poll_outbound peer_id g = take_from (lookup peer_id g.control_queues) g

-- The second one, on the link as it is by then, takes any arm that is ready. It runs if the first one
-- was idle; while it is idle itself, it waits.
unfoldable pub wait_outbound : Arm → Str → Link → Next × Link
unfolding take_from
wait_outbound context_arm peer_id g = (context_over, g)
wait_outbound receive_arm peer_id g = (receiver_over, g)
wait_outbound control_arm peer_id g = take_from (lookup peer_id g.control_queues) g
wait_outbound data_arm peer_id g = take_from (lookup peer_id g.send_queues) g

abbrev pub nodes : Map Connection → List PeerNode
nodes [] = []
nodes ((peer_id, c) ∷ rest) = c.node ∷ nodes rest

-- GetConnectedPeers
unfoldable pub get_connected_peers : Link → Result LinkError (List PeerNode)
get_connected_peers g = if g.closed then err link_closed else ok (nodes g.connections)

abbrev depth_of : Option ℕ → Link → ℕ
depth_of none g = 0
depth_of (some q) g = elim (get_elem? g.channels q) [ none ↦ 0 | some ch ↦ length ch.buffer ]

-- GetQueueDepth
unfoldable pub get_queue_depth : Str → Link → ℕ
get_queue_depth peer_id g = elim (lookup peer_id g.send_queues) [
  | none ↦ 0
  | some q ↦ depth_of (some q) g + depth_of (lookup peer_id g.control_queues) g
]
