-- ===== src/Mesh/Lifecycle/Reachable.antt =====
-- The states that a mesh node reaches by Start, Stop and Close, and what Stop and Close end.
use eventmesh_go.Prelude.{
  subst, ◌⊎◌, Str, Bool, true, false, not, ◌&&◌, Bool-cases, Option, none, List, [], ◌∷◌, ◌≡◌, refl,
  inl, inr, In, is_some, codes, arith,
}
use eventmesh_go.EventLog
use eventmesh_go.Routing
use eventmesh_go.Peer
use eventmesh_go.EventLog.Memory.{get_statistics}
use eventmesh_go.Routing.Table.{get_subscribers}
use eventmesh_go.Peer.Link.{PeerNode}
use eventmesh_go.Peer.Lifecycle.Invariant.{
  stop-LifecycleSound, stop_heartbeats-LifecycleSound, close-LifecycleSound,
}
use eventmesh_go.Mesh.Lifecycle.{LifecycleNode, Worker, start, stop, close, get_health, succeeds}
use eventmesh_go.Mesh.Lifecycle.Workers.{
  NodeSound, OnlyLive, OnlyLive-cancel_lifecycle, start-NodeSound,
}

link_closed : (g : Peer.Lifecycle.Lifecycle) → (Peer.Lifecycle.close g).closed ≡ true
unfolding Peer.Lifecycle.close
link_closed g = elim (Bool-cases g.closed) [
  | inl shut ↦ simp shut refl
  | inr open_link ↦ simp open_link refl
]

pub data NodeStep : Type 0 where
  starting : Bool → NodeStep
  stopping closing : NodeStep

log_answers :
    (log : EventLog.Memory.MemoryLog) → succeeds (get_statistics none log) ≡ not log.closed
unfolding get_statistics
log_answers log = elim (Bool-cases log.closed) [
  | inl shut ↦ simp shut refl
  | inr open_log ↦ simp open_log refl
]

table_answers :
    (topic : Str) (table : Routing.Table.RoutingTable)
    → succeeds (get_subscribers topic table) ≡ not table.closed
unfolding get_subscribers
table_answers topic table = elim (Bool-cases table.closed) [
  | inl shut ↦ simp shut refl
  | inr open_table ↦ simp open_table refl
]

module _ {S : Type 0} where
  -- Stop ends every worker of a node that was started.
  pub stop-OnlyLive :
      (n : LifecycleNode S) → NodeSound n → n.started ≡ true → OnlyLive none (stop n).workers
  unfolding stop
  stop-OnlyLive n s on =
      simp on (OnlyLive-cancel_lifecycle n.lifecycle_cancel n.workers s.only_live)

  stop-NodeSound : (n : LifecycleNode S) → NodeSound n → NodeSound (stop n)
  unfolding stop
  stop-NodeSound n s = elim (Bool-cases n.started) [
    | inr off ↦ simp off s
    | inl on ↦ simp on (record {
      link_sound =
          stop-LifecycleSound (Peer.Lifecycle.stop_heartbeats n.link)
            (stop_heartbeats-LifecycleSound n.link s.link_sound);
      only_live = OnlyLive-cancel_lifecycle n.lifecycle_cancel n.workers s.only_live;
      idle = λ open_node off. refl;
      ended = λ shut. absurd (cc (on, (s.ended shut).0));
    })
  ]

  close-NodeSound : (n : LifecycleNode S) → NodeSound n → NodeSound (close n)
  unfolding close EventLog.Memory.close Routing.Table.close
  close-NodeSound n s = elim (Bool-cases n.closed) [
    | inl shut ↦ simp shut s
    | inr open_node ↦ simp open_node (record {
      link_sound = close-LifecycleSound n.link s.link_sound;
      only_live = s.only_live;
      idle = λ e. absurd (cc e);
      ended = λ e. (refl, refl, refl, link_closed n.link);
    })
  ]

  unfoldable pub node_step :
      (PeerNode → S → Bool × S) → NodeStep → LifecycleNode S → LifecycleNode S
  node_step connect (starting listens) n = (start connect listens n).1
  node_step connect stopping n = stop n
  node_step connect closing n = close n

  abbrev pub node_steps :
      (PeerNode → S → Bool × S) → List NodeStep → LifecycleNode S → LifecycleNode S
  node_steps connect [] n = n
  node_steps connect (step ∷ steps) n = node_steps connect steps (node_step connect step n)

  node_steps_sound :
      (connect : PeerNode → S → Bool × S) (steps : List NodeStep) (n : LifecycleNode S)
      → NodeSound n
      → NodeSound (node_steps connect steps n)
  unfolding node_step
  node_steps_sound connect [] n s = s
  node_steps_sound connect (starting listens ∷ steps) n s =
      node_steps_sound connect steps (start connect listens n).1
        (start-NodeSound connect listens n s)
  node_steps_sound connect (stopping ∷ steps) n s =
      node_steps_sound connect steps (stop n) (stop-NodeSound n s)
  node_steps_sound connect (closing ∷ steps) n s =
      node_steps_sound connect steps (close n) (close-NodeSound n s)

  -- A sound node that is not closed can end its workers.
  stop-ends :
      (n : LifecycleNode S) → NodeSound n → OnlyLive none (stop n).workers ⊎ (n.closed ≡ true)
  unfolding stop
  stop-ends n s = elim (Bool-cases n.closed) [
    | inl shut ↦ inr shut
    | inr open_node ↦ elim (Bool-cases n.started) [
      | inl on ↦ inl (stop-OnlyLive n s on)
      | inr off ↦
          let no_context : n.lifecycle_cancel ≡ none = s.idle open_node off in
          inl (simp off (subst (λ context. OnlyLive context n.workers) no_context s.only_live))
    ]
  ]

  -- After any calls of Start, Stop and Close on a sound node, such as a new one: its peer link is
  -- sound, every worker that is not done is of the context whose cancel function the node holds, a
  -- node that is neither started nor closed holds none, and a closed node is not started and has
  -- closed its log, its table and its link. Stop then leaves no worker that is not done, unless the
  -- node is closed.
  pub node_steps-NodeSound :
      (connect : PeerNode → S → Bool × S) (steps : List NodeStep) (n : LifecycleNode S)
      → NodeSound n
      → NodeSound (node_steps connect steps n)
        × (OnlyLive none (stop (node_steps connect steps n)).workers
            ⊎ ((node_steps connect steps n).closed ≡ true))
  node_steps-NodeSound connect steps n s =
      let after = node_steps_sound connect steps n s in
      (after, stop-ends (node_steps connect steps n) after)

  -- Close does not end the workers of a node, and a Stop after it does nothing: a worker that is live
  -- before Close is live after both. The node is not closed before.
  pub close-leaves_workers :
      (n : LifecycleNode S) (worker : Worker)
      → n.closed ≡ false
      → worker.done ≡ false
      → In worker n.workers
      → (stop (close n) ≡ close n) × In worker (stop (close n)).workers
  unfolding stop close
  close-leaves_workers n worker open_node live there = simp open_node (refl, there)

  -- A node reports itself healthy exactly if it is not closed, its log gives statistics, its table
  -- answers a lookup and its peer link lists its peers; whether it is started does not matter.
  pub get_health-healthy :
      (peers : Option (List PeerNode)) (n : LifecycleNode S)
      → (get_health none peers n).healthy
        ≡ (not n.closed && not n.event_log.closed && not n.routing_table.closed && is_some peers)
  unfolding get_health
  get_health-healthy peers n =
      rw (log_answers n.event_log)
        (rw (table_answers (codes "__health.check") n.routing_table) (ground arith))
