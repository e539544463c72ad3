-- ===== src/Peer/Lifecycle/Reachable.antt =====
-- The states that a peer link reaches by calls in any order, and a stale end of a heartbeat loop.
use eventmesh_go.Prelude.{ℕ, Bool, false, some, List, [], ◌∷◌, ◌≡◌, refl, inl, ◌==◌, In}
use eventmesh_go.Peer.Lifecycle.{
  Lifecycle, HeartbeatLoop, new_lifecycle, start, stop, start_heartbeats, stop_heartbeats,
  end_heartbeat_loop, close, clear_heartbeat_lifecycle, remove_loop,
}
use eventmesh_go.Peer.Lifecycle.Invariant.{
  LifecycleSound, start-LifecycleSound, stop-LifecycleSound, start_heartbeats-LifecycleSound,
  stop_heartbeats-LifecycleSound, end_heartbeat_loop-LifecycleSound, close-LifecycleSound,
}

pub data LifecycleStep : Type 0 where
  starting : Bool → LifecycleStep
  stopping starting_heartbeats stopping_heartbeats closing : LifecycleStep
  ending_loop : ℕ → LifecycleStep

-- One call, or the end of one heartbeat loop.
unfoldable pub lifecycle_step : LifecycleStep → Lifecycle → Lifecycle
lifecycle_step (starting listens) g = (start listens g).1
lifecycle_step stopping g = stop g
lifecycle_step starting_heartbeats g = (start_heartbeats g).1
lifecycle_step stopping_heartbeats g = stop_heartbeats g
lifecycle_step closing g = close g
lifecycle_step (ending_loop token) g = end_heartbeat_loop token g

abbrev pub lifecycle_steps : List LifecycleStep → Lifecycle → Lifecycle
lifecycle_steps [] g = g
lifecycle_steps (step ∷ steps) g = lifecycle_steps steps (lifecycle_step step g)

lifecycle_step-LifecycleSound :
    (step : LifecycleStep) (g : Lifecycle)
    → LifecycleSound g
    → LifecycleSound (lifecycle_step step g)
unfolding lifecycle_step
lifecycle_step-LifecycleSound (starting listens) g s = start-LifecycleSound listens g s
lifecycle_step-LifecycleSound stopping g s = stop-LifecycleSound g s
lifecycle_step-LifecycleSound starting_heartbeats g s = start_heartbeats-LifecycleSound g s
lifecycle_step-LifecycleSound stopping_heartbeats g s = stop_heartbeats-LifecycleSound g s
lifecycle_step-LifecycleSound closing g s = close-LifecycleSound g s
lifecycle_step-LifecycleSound (ending_loop token) g s = end_heartbeat_loop-LifecycleSound token g s

pub lifecycle_steps-LifecycleSound :
    (steps : List LifecycleStep) (g : Lifecycle)
    → LifecycleSound g
    → LifecycleSound (lifecycle_steps steps g)
lifecycle_steps-LifecycleSound [] g s = s
lifecycle_steps-LifecycleSound (step ∷ steps) g s =
    lifecycle_steps-LifecycleSound steps (lifecycle_step step g)
      (lifecycle_step-LifecycleSound step g s)

pub reachable-LifecycleSound :
    (steps : List LifecycleStep) → LifecycleSound (lifecycle_steps steps new_lifecycle)
reachable-LifecycleSound steps = lifecycle_steps-LifecycleSound steps new_lifecycle (record {
  running = λ e. absurd (cc e);
  cancellable = refl;
  idle = λ e. refl;
  live = tt;
  serving = refl;
  stopped = λ e. (refl, refl);
})

-- As tokens compare equal, the end of a loop that was stopped takes the cancel function of the loop that
-- was started after it: that loop goes on, and no call of StopHeartbeats ends it. The heartbeats
-- are running under a loop other than the ending one.
pub end_heartbeat_loop-stale :
    (g : Lifecycle) (old current : ℕ) (loops : List HeartbeatLoop)
    → g.heartbeat_token ≡ some current
    → (current == old) ≡ false
    → g.loops ≡ record { token = current; done = false } ∷ loops
    → ((end_heartbeat_loop old g).heartbeats_running ≡ false)
      × In
          (record { token = current; done = false })
          (stop_heartbeats (end_heartbeat_loop old g)).loops
unfolding end_heartbeat_loop clear_heartbeat_lifecycle stop_heartbeats remove_loop
end_heartbeat_loop-stale g old current loops running other are =
    simp (running, are, other) (refl, inl refl)
