-- ===== src/Peer/Lifecycle.antt =====
-- internal/peerlink/grpc_lifecycle.go and grpc_heartbeat.go: the server and the heartbeat loop of a
-- peer link as a state machine. Each operation holds the lock for its changes, so it is one step; the
-- heartbeat loop is a goroutine with a context and a token of its own.
pub mod Invariant
pub mod Reachable
use eventmesh_go.Prelude.{
  ℕ, suc, Bool, true, false, not, ◌&&◌, ◌||◌, Option, none, some, List, [], ◌∷◌, ◌==◌,
  if◌then◌else◌,
}

-- A heartbeat loop that has not returned: its token, and whether its context is done.
pub record HeartbeatLoop : Type 0 where
  pub token : ℕ
  pub done : Bool

-- The fields of GRPCPeerLink for its lifecycle. `server` is the server with its listener; the
-- cancel function of the heartbeats is the one of the loop with the number. `next_token` numbers the
-- loops; `loops` are the goroutines. The tokens of the source are pointers to empty structs on the
-- heap. Go's compiler gives all of them the same address, so any two tokens compare equal, and the
-- numbers tell loops apart only for the reader and for the cancel functions.
pub record Lifecycle : Type 0 where
  pub started : Bool
  pub closed : Bool
  pub server : Bool
  pub heartbeats_running : Bool
  pub heartbeat_token : Option ℕ
  pub heartbeat_cancel : Option ℕ
  pub next_token : ℕ
  pub loops : List HeartbeatLoop

pub data LifecycleError : Type 0 where
  link_closed listen_failed : LifecycleError

abbrev pub new_lifecycle : Lifecycle
new_lifecycle = record {
  started = false;
  closed = false;
  server = false;
  heartbeats_running = false;
  heartbeat_token = none;
  heartbeat_cancel = none;
  next_token = 0;
  loops = [];
}

-- Start; `listens` tells whether net.Listen succeeds.
unfoldable pub start : Bool → Lifecycle → Option LifecycleError × Lifecycle
start listens g =
    if g.closed
    then (some link_closed, g)
    else if g.started
    then (none, g)
    else if not listens
    then (some listen_failed, g)
    else (none, record g { server = true; started = true })

-- Stop: the graceful stop is the server's.
unfoldable pub stop : Lifecycle → Lifecycle
stop g = if not (g.started && g.server) then g else record g { server = false; started = false }

-- A cancel function: the context of the loop with the token is done.
unfoldable pub cancel_loop : ℕ → List HeartbeatLoop → List HeartbeatLoop
cancel_loop token [] = []
cancel_loop token (loop ∷ loops) =
    let rest = cancel_loop token loops in
    if loop.token == token then record loop { done = true } ∷ rest else loop ∷ rest

abbrev pub cancel_heartbeats : Option ℕ → Lifecycle → Lifecycle
cancel_heartbeats none g = g
cancel_heartbeats (some token) g = record g { loops = cancel_loop token g.loops }

abbrev pub without_heartbeats : Lifecycle → Lifecycle
without_heartbeats g = record g {
  heartbeat_cancel = none;
  heartbeat_token = none;
  heartbeats_running = false;
}

-- StartHeartbeats, with a context that is not nil.
unfoldable pub start_heartbeats : Lifecycle → Option LifecycleError × Lifecycle
start_heartbeats g =
    if g.closed then (some link_closed, g) else if g.heartbeats_running then (none, g) else (
      none,
      record g {
        heartbeat_cancel = some g.next_token;
        heartbeat_token = some g.next_token;
        heartbeats_running = true;
        next_token = suc g.next_token;
        loops = record { token = g.next_token; done = false } ∷ g.loops;
      },
    )

-- StopHeartbeats
unfoldable pub stop_heartbeats : Lifecycle → Lifecycle
stop_heartbeats g = cancel_heartbeats g.heartbeat_cancel (without_heartbeats g)

unfoldable pub remove_loop : ℕ → List HeartbeatLoop → List HeartbeatLoop
remove_loop token [] = []
remove_loop token (loop ∷ loops) =
    let rest = remove_loop token loops in if loop.token == token then rest else loop ∷ rest

-- `g.heartbeatToken == token`, for a token that is not nil.
abbrev pub same_token : Option ℕ → Bool
same_token none = false
same_token (some t) = true

-- clearHeartbeatLifecycle
unfoldable pub clear_heartbeat_lifecycle : Lifecycle → Lifecycle
clear_heartbeat_lifecycle g = if same_token g.heartbeat_token then without_heartbeats g else g

-- The return of runHeartbeatLoop of the loop with this number, with its deferred call.
unfoldable pub end_heartbeat_loop : ℕ → Lifecycle → Lifecycle
end_heartbeat_loop token g =
    clear_heartbeat_lifecycle (record g { loops = remove_loop token g.loops })

abbrev pub stop_server : Lifecycle → Lifecycle
stop_server g = if g.started && g.server then record g { server = false; started = false } else g

abbrev pub close_heartbeats : Option ℕ → Lifecycle → Lifecycle
close_heartbeats none g = g
close_heartbeats (some token) g = cancel_heartbeats (some token) (without_heartbeats g)

-- Close; the outbound connections are those of Peer.Link.
unfoldable pub close : Lifecycle → Lifecycle
close g =
    if g.closed
    then g
    else record (stop_server (close_heartbeats g.heartbeat_cancel g)) { closed = true }
