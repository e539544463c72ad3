-- ===== src/Mesh/Lifecycle.antt =====
-- internal/meshnode/node_lifecycle.go, node_health.go, node_discovery.go and internal/discovery: Start,
-- Stop and Close of a mesh node with its components, and its health. Each method holds the node's lock
-- for its changes. The goroutines that Start launches for the incoming events and for the resync of
-- subscriptions are one worker, with one context.
pub mod Workers
pub mod Reachable
use eventmesh_go.Prelude.{
  ℕ, zero, suc, ◌+◌, Str, codes, Bool, true, false, not, ◌&&◌, Option, none, some, List, [], ◌∷◌,
  length, map, ◌==◌, ltb, is_some, if◌then◌else◌, Result, ok, err, panic, ContextError,
}
use eventmesh_go.EventLog
use eventmesh_go.Routing
use eventmesh_go.Peer
use eventmesh_go.EventLog.Memory.{MemoryLog, Statistics, get_statistics}
use eventmesh_go.Routing.Table.{RoutingTable, Subscriber, TableError, get_subscribers}
use eventmesh_go.Peer.Lifecycle.{Lifecycle, LifecycleError}
use eventmesh_go.Peer.Link.{PeerNode}

-- The goroutines of one Start: the number of their context, and whether it is done.
pub record Worker : Type 0 where
  pub context : ℕ
  pub done : Bool

-- GRPCMeshNode, as far as its lifecycle goes. `links` are the connections of the peer link, `link`
-- its lifecycle; `lifecycle_cancel` cancels the context with the number.
pub record LifecycleNode (S : Type 0) : Type 0 where
  pub started : Bool
  pub closed : Bool
  pub seed_nodes : List Str
  pub event_log : MemoryLog
  pub routing_table : RoutingTable
  pub link : Lifecycle
  pub links : S
  pub client_count : ℕ
  pub lifecycle_cancel : Option ℕ
  pub next_context : ℕ
  pub workers : List Worker

pub data NodeError : Type 0 where
  node_closed : NodeError
  link_not_started heartbeats_not_started : LifecycleError → NodeError

-- FindPeers of StaticDiscovery: the address is the identifier as well.
unfoldable pub find_peers : List Str → List PeerNode
find_peers [] = []
find_peers (address ∷ addresses) = record { id = address; address = address } ∷ find_peers addresses

-- runDiscovery: it goes on past a peer that it cannot connect to. `connect` tells of success.
unfoldable pub connect_peers : {S : Type 0} → (PeerNode → S → Bool × S) → List PeerNode → S → ℕ × S
connect_peers connect [] s = (0, s)
connect_peers connect (peer ∷ peers) s =
    let rest = connect_peers connect peers (connect peer s).1 in
    if (connect peer s).0 then (suc rest.0, rest.1) else rest

abbrev pub run_discovery : {S : Type 0} → (PeerNode → S → Bool × S) → List Str → S → ℕ × S
run_discovery connect seeds s = connect_peers connect (find_peers seeds) s

-- The cancel function of a context.
unfoldable pub cancel_workers : ℕ → List Worker → List Worker
cancel_workers context [] = []
cancel_workers context (worker ∷ workers) =
    let rest = cancel_workers context workers in
    if worker.context == context then record worker { done = true } ∷ rest else worker ∷ rest

abbrev pub cancel_lifecycle : Option ℕ → List Worker → List Worker
cancel_lifecycle none workers = workers
cancel_lifecycle (some context) workers = cancel_workers context workers

module _ {S : Type 0} (connect : PeerNode → S → Bool × S) where
  abbrev pub after_heartbeats :
      Option LifecycleError × Lifecycle → LifecycleNode S → Option NodeError × LifecycleNode S
  after_heartbeats (some e, link) n = (some (heartbeats_not_started e), record n { link = link })
  after_heartbeats (none, link) n = (
    none,
    record n {
      link = link;
      lifecycle_cancel = some n.next_context;
      next_context = suc n.next_context;
      workers = record { context = n.next_context; done = false } ∷ n.workers;
      started = true;
    },
  )

  abbrev pub discovered : LifecycleNode S → LifecycleNode S
  discovered n =
      if ltb 0 (length n.seed_nodes)
      then record n { links = (run_discovery connect n.seed_nodes n.links).1 }
      else n

  abbrev pub after_link :
      Option LifecycleError × Lifecycle → LifecycleNode S → Option NodeError × LifecycleNode S
  after_link (some e, link) n = (some (link_not_started e), record n { link = link })
  after_link (none, link) n =
      after_heartbeats (Peer.Lifecycle.start_heartbeats link)
        (discovered (record n { link = link }))

  -- Start; `listens` tells whether the peer link can listen.
  unfoldable pub start : Bool → LifecycleNode S → Option NodeError × LifecycleNode S
  start listens n =
      if n.closed
      then (some node_closed, n)
      else if n.started
      then (none, n)
      else after_link (Peer.Lifecycle.start listens n.link) n

-- Stop. The heartbeat loop's context is a child of the cancelled one; StopHeartbeats cancels it too.
unfoldable pub stop : {S : Type 0} → LifecycleNode S → LifecycleNode S
stop n = if not n.started then n else record n {
  started = false;
  lifecycle_cancel = none;
  workers = cancel_lifecycle n.lifecycle_cancel n.workers;
  link = Peer.Lifecycle.stop (Peer.Lifecycle.stop_heartbeats n.link);
}

-- Close; no component's Close fails.
unfoldable pub close : {S : Type 0} → LifecycleNode S → LifecycleNode S
close n = if n.closed then n else record n {
  event_log = EventLog.Memory.close n.event_log;
  routing_table = Routing.Table.close n.routing_table;
  link = Peer.Lifecycle.close n.link;
  started = false;
  closed = true;
}

-- HealthStatus, without its message.
pub record HealthStatus : Type 0 where
  pub healthy : Bool
  pub event_log_healthy : Bool
  pub routing_table_healthy : Bool
  pub peer_link_healthy : Bool
  pub connected_clients : ℕ
  pub connected_peers : ℕ

abbrev pub succeeds : {E A : Type 0} → Result E A → Bool
succeeds (ok a) = true
succeeds (err e) = false
succeeds panic = false

abbrev pub peer_count : Option (List PeerNode) → ℕ
peer_count none = 0
peer_count (some peers) = length peers

-- GetHealth, of a node whose components are there; `peers` is what GetConnectedPeers returns.
unfoldable pub get_health :
    {S : Type 0} → Option ContextError → Option (List PeerNode) → LifecycleNode S → HealthStatus
get_health ctx peers n =
    let log_ok = not n.closed && succeeds (get_statistics ctx n.event_log) in
    let table_ok =
      not n.closed && succeeds (get_subscribers (codes "__health.check") n.routing_table) in
    let link_ok = not n.closed && is_some peers in
    record {
      healthy = not n.closed && log_ok && table_ok && link_ok;
      event_log_healthy = log_ok;
      routing_table_healthy = table_ok;
      peer_link_healthy = link_ok;
      connected_clients = n.client_count;
      connected_peers = if n.closed then 0 else peer_count peers;
    }
