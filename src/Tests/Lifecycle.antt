-- ===== src/Tests/Lifecycle.antt =====
-- Samples for the lifecycles of a peer link and of a mesh node.
use eventmesh_go.Prelude.{ℕ, Bool, true, false, none, some, List, [], ◌∷◌, ◌≡◌, refl, In, inl, ◌⊎◌}
use eventmesh_go.EventLog.Memory.{new_memory_log}
use eventmesh_go.Routing.Table.{new_routing_table}
use eventmesh_go.Peer.Link.{PeerNode}
use eventmesh_go.Peer.Lifecycle.{Lifecycle, new_lifecycle, end_heartbeat_loop, stop_heartbeats}
use eventmesh_go.Peer.Lifecycle.Reachable.{
  LifecycleStep, starting, starting_heartbeats, stopping_heartbeats, closing, ending_loop,
  reachable-LifecycleSound, end_heartbeat_loop-stale,
}
use eventmesh_go.Mesh
use eventmesh_go.Mesh.Lifecycle.{LifecycleNode, Worker, stop, get_health}
use eventmesh_go.Mesh.Lifecycle.Workers.{NodeSound, OnlyLive}
use eventmesh_go.Mesh.Lifecycle.Reachable.{
  NodeStep, node_steps, node_steps-NodeSound, close-leaves_workers,
}

abbrev restarts : List LifecycleStep
restarts =
    starting true
    ∷ starting_heartbeats
    ∷ stopping_heartbeats
    ∷ starting_heartbeats
    ∷ ending_loop 0
    ∷ closing
    ∷ []

-- A link whose first heartbeat loop was stopped and has not returned, and whose second one runs.
abbrev restarted : Lifecycle
restarted = record new_lifecycle {
  heartbeats_running = true;
  heartbeat_token = some 1;
  heartbeat_cancel = some 1;
  next_token = 2;
  loops = record { token = 1; done = false } ∷ record { token = 0; done = true } ∷ [];
}

end_heartbeat_loop-stale_example :
    ((end_heartbeat_loop 0 restarted).heartbeats_running ≡ false)
    × In
        (record { token = 1; done = false })
        (stop_heartbeats (end_heartbeat_loop 0 restarted)).loops
end_heartbeat_loop-stale_example =
    end_heartbeat_loop-stale restarted 0 1 (record { token = 0; done = true } ∷ []) refl refl refl

-- Connecting never fails, and is counted.
abbrev connect : PeerNode → ℕ → Bool × ℕ
connect peer s = (true, s)

abbrev new_node : LifecycleNode ℕ
new_node = record {
  started = false;
  closed = false;
  seed_nodes = [];
  event_log = new_memory_log;
  routing_table = new_routing_table;
  link = new_lifecycle;
  links = 0;
  client_count = 0;
  lifecycle_cancel = none;
  next_context = 0;
  workers = [];
}

new_node-NodeSound : NodeSound new_node
new_node-NodeSound = record {
  link_sound = reachable-LifecycleSound [];
  only_live = tt;
  idle = λ open_node off. refl;
  ended = λ shut. absurd (cc shut);
}

node_steps-NodeSound_example :
    NodeSound (node_steps connect (NodeStep.starting true ∷ NodeStep.stopping ∷ []) new_node)
    × (OnlyLive none
          (stop
            (node_steps connect (NodeStep.starting true ∷ NodeStep.stopping ∷ []) new_node)).workers
        ⊎ ((node_steps connect (NodeStep.starting true ∷ NodeStep.stopping ∷ []) new_node).closed
            ≡ true))
node_steps-NodeSound_example =
    node_steps-NodeSound connect (NodeStep.starting true ∷ NodeStep.stopping ∷ []) new_node
      new_node-NodeSound

-- A node with a worker.
abbrev running_node : LifecycleNode ℕ
running_node = record new_node {
  started = true;
  lifecycle_cancel = some 0;
  next_context = 1;
  workers = record { context = 0; done = false } ∷ [];
}

close-leaves_workers_example :
    (Mesh.Lifecycle.stop (Mesh.Lifecycle.close running_node) ≡ Mesh.Lifecycle.close running_node)
    × In
        (record { context = 0; done = false })
        (Mesh.Lifecycle.stop (Mesh.Lifecycle.close running_node)).workers
close-leaves_workers_example =
    close-leaves_workers running_node (record { context = 0; done = false }) refl refl (inl refl)
