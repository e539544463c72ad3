-- ===== src/Peer/Lifecycle/Invariant.antt =====
-- Whatever the order of the calls, the fields of a peer link's lifecycle agree, and the heartbeat loop
-- that the link holds is there and live.
use eventmesh_go.Prelude.{
  ℕ, Bool, true, false, ◌&&◌, Bool-cases, Option, In, none, some, List, ◌≡◌, refl, ◌∙◌, sym, inl,
  inr, if◌then◌else◌, arith,
}
use eventmesh_go.Peer.Lifecycle.{
  Lifecycle, HeartbeatLoop, start, stop, start_heartbeats, stop_heartbeats, end_heartbeat_loop,
  close, cancel_loop, cancel_heartbeats, without_heartbeats, clear_heartbeat_lifecycle, remove_loop,
  same_token, stop_server, close_heartbeats,
}

-- The loop with the number that the link holds, if any, is there, and its context is not done.
abbrev pub Running : Option ℕ → List HeartbeatLoop → Type 0
Running none loops = Unit
Running (some token) loops = In (record { token = token; done = false }) loops

pub record LifecycleSound (g : Lifecycle) : Type 0 where
  pub running : g.heartbeats_running ≡ true → (t : ℕ) × (g.heartbeat_token ≡ some t)
  pub cancellable : g.heartbeat_cancel ≡ g.heartbeat_token
  pub idle : g.heartbeats_running ≡ false → g.heartbeat_token ≡ none
  pub live : Running g.heartbeat_token g.loops
  pub serving : g.started ≡ g.server
  pub stopped : g.closed ≡ true → (g.started ≡ false) × (g.heartbeat_token ≡ none)

-- A link without heartbeats is sound if its server is.
idle-LifecycleSound :
    (g : Lifecycle)
    → g.started ≡ g.server
    → (g.closed ≡ true → g.started ≡ false)
    → LifecycleSound (without_heartbeats g)
idle-LifecycleSound g serving stopped = record {
  running = λ e. absurd (cc e);
  cancellable = refl;
  idle = λ e. refl;
  live = tt;
  serving = serving;
  stopped = λ e. (stopped e, refl);
}

cancelled-LifecycleSound :
    (g : Lifecycle) (cancel : Option ℕ)
    → LifecycleSound g
    → g.heartbeat_cancel ≡ cancel
    → LifecycleSound (cancel_heartbeats cancel (without_heartbeats g))
cancelled-LifecycleSound g none s e = idle-LifecycleSound g s.serving (λ shut. (s.stopped shut).0)
cancelled-LifecycleSound g (some t) s e =
    idle-LifecycleSound (record g { loops = cancel_loop t g.loops }) s.serving
      (λ shut. (s.stopped shut).0)

pub stop_heartbeats-LifecycleSound :
    (g : Lifecycle) → LifecycleSound g → LifecycleSound (stop_heartbeats g)
unfolding stop_heartbeats
stop_heartbeats-LifecycleSound g s = cancelled-LifecycleSound g g.heartbeat_cancel s refl

pub start_heartbeats-LifecycleSound :
    (g : Lifecycle) → LifecycleSound g → LifecycleSound (start_heartbeats g).1
unfolding start_heartbeats
start_heartbeats-LifecycleSound g s = elim (Bool-cases g.closed) [
  | inl shut ↦ simp shut s
  | inr open_link ↦ elim (Bool-cases g.heartbeats_running) [
    | inl on ↦ simp (open_link, on) s
    | inr off ↦
        simp (open_link, off)
          (record {
            running = λ e. (g.next_token, refl);
            cancellable = refl;
            idle = λ e. absurd (cc e);
            live = inl refl;
            serving = s.serving;
            stopped = λ shut. absurd (cc shut);
          })
  ]
]

cleared-LifecycleSound :
    (g : Lifecycle) (loops : List HeartbeatLoop) (token : Option ℕ)
    → LifecycleSound g
    → g.heartbeat_token ≡ token
    → LifecycleSound (
        if same_token token
        then without_heartbeats (record g { loops = loops })
        else record g { loops = loops })
cleared-LifecycleSound g loops none s e = record {
  running = s.running;
  cancellable = s.cancellable;
  idle = s.idle;
  live = rw e tt;
  serving = s.serving;
  stopped = s.stopped;
}
cleared-LifecycleSound g loops (some t) s e =
    idle-LifecycleSound (record g { loops = loops }) s.serving (λ shut. (s.stopped shut).0)

pub end_heartbeat_loop-LifecycleSound :
    (t : ℕ) (g : Lifecycle) → LifecycleSound g → LifecycleSound (end_heartbeat_loop t g)
unfolding end_heartbeat_loop clear_heartbeat_lifecycle
end_heartbeat_loop-LifecycleSound t g s =
    cleared-LifecycleSound g (remove_loop t g.loops) g.heartbeat_token s refl

pub start-LifecycleSound :
    (listens : Bool) (g : Lifecycle) → LifecycleSound g → LifecycleSound (start listens g).1
unfolding start
start-LifecycleSound listens g s = elim (Bool-cases g.closed) [
  | inl shut ↦ simp shut s
  | inr open_link ↦ elim (Bool-cases g.started) [
    | inl on ↦ simp (open_link, on) s
    | inr off ↦ started listens off open_link
  ]
]
  where
    started :
        (listens : Bool) → g.started ≡ false → g.closed ≡ false → LifecycleSound (start listens g).1
    started false off open_link = unfold start in simp (off, open_link) s
    started true off open_link =
        unfold start in
        simp (off, open_link)
          (record {
            running = s.running;
            cancellable = s.cancellable;
            idle = s.idle;
            live = s.live;
            serving = refl;
            stopped = λ shut. absurd (cc shut);
          })

pub stop-LifecycleSound : (g : Lifecycle) → LifecycleSound g → LifecycleSound (stop g)
unfolding stop
stop-LifecycleSound g s = elim (Bool-cases (g.started && g.server)) [
  | inl on ↦ simp on (record {
    running = s.running;
    cancellable = s.cancellable;
    idle = s.idle;
    live = s.live;
    serving = refl;
    stopped = λ shut. (refl, (s.stopped shut).1);
  })
  | inr off ↦ simp off s
]

closed-LifecycleSound :
    (g : Lifecycle)
    → LifecycleSound g
    → g.heartbeat_token ≡ none
    → LifecycleSound (record (stop_server g) { closed = true })
closed-LifecycleSound g s quiet = elim (Bool-cases (g.started && g.server)) [
  | inl on ↦ simp on (record {
    running = s.running;
    cancellable = s.cancellable;
    idle = s.idle;
    live = s.live;
    serving = refl;
    stopped = λ shut. (refl, quiet);
  })
  | inr off ↦
      let down : g.started ≡ false = ground (arith, s.serving, off) in
      simp off (record {
        running = s.running;
        cancellable = s.cancellable;
        idle = s.idle;
        live = s.live;
        serving = s.serving;
        stopped = λ shut. (down, quiet);
      })
]

pub close-LifecycleSound : (g : Lifecycle) → LifecycleSound g → LifecycleSound (close g)
unfolding close
close-LifecycleSound g s = elim (Bool-cases g.closed) [
  | inl shut ↦ simp shut s
  | inr open_link ↦ simp open_link (quiet g.heartbeat_cancel refl)
]
  where
    quiet :
        (cancel : Option ℕ)
        → g.heartbeat_cancel ≡ cancel
        → LifecycleSound (record (stop_server (close_heartbeats cancel g)) { closed = true })
    quiet none e = closed-LifecycleSound g s (sym s.cancellable ∙ e)
    quiet (some t) e =
        closed-LifecycleSound (cancel_heartbeats (some t) (without_heartbeats g))
          (cancelled-LifecycleSound g (some t) s e) refl
