-- ===== src/Peer/Retry.antt =====
-- internal/peerlink/grpc.go: runOutboundConnection, the loop that keeps an outbound connection up, and
-- what attemptStreamConnection and runBidirectionalStreamLoop report to it. What the network, the
-- context and the clock do in a round of the loop is an input.
use eventmesh_go.Prelude.{
  ℕ, ◌+◌, ◌*◌, ◌≤◌, Str, Bool, true, false, Option, none, some, List, [], ◌∷◌, ◌≡◌, refl,
  if◌then◌else◌, ltb, arith,
}
use eventmesh_go.Prelude.Maps.{Map}
use eventmesh_go.Peer.Config.{second}
use eventmesh_go.Peer.Metrics.{PeerMetrics, unhealthy, set_peer_health}

-- How runBidirectionalStreamLoop ends: its context is cancelled, its receiving goroutine finishes, a
-- queue is closed, or a message cannot be sent.
pub data StreamEnd : Type 0 where
  context_cancelled receive_finished queue_closed send_failed : StreamEnd

-- The result of runBidirectionalStreamLoop: "true if the connection should be retried".
unfoldable pub run_bidirectional_stream_loop : StreamEnd → Bool
run_bidirectional_stream_loop context_cancelled = false
run_bidirectional_stream_loop receive_finished = true
run_bidirectional_stream_loop queue_closed = false
run_bidirectional_stream_loop send_failed = true

-- One attempt: the stream or its handshake fails, or the stream runs until it ends.
pub data Attempt : Type 0 where
  not_established : Attempt
  ran : StreamEnd → Attempt

-- attemptStreamConnection
unfoldable pub attempt_stream_connection : Attempt → Bool
unfolding run_bidirectional_stream_loop
attempt_stream_connection not_established = true
attempt_stream_connection (ran end) = run_bidirectional_stream_loop end

-- What happens in one round: whether the context is done at its start, whether the link is closed,
-- how the attempt goes, and whether the context is done during the delay.
pub record Round : Type 0 where
  pub context_done : Bool
  pub link_closed : Bool
  pub attempt : Attempt
  pub done_in_delay : Bool

abbrev pub max_retries : ℕ
max_retries = 5

abbrev pub base_delay : ℕ
base_delay = 1 * second

-- Where the loop stands: in its loop with a retry count, or returned.
pub data Standing : Type 0 where
  looping : ℕ → Standing
  returned : Standing

-- One round: the delay that it waits, where the loop stands after it, and the metrics.
unfoldable pub outbound_round :
    Str → Round → ℕ → Map PeerMetrics → Option ℕ × Standing × Map PeerMetrics
unfolding attempt_stream_connection
outbound_round peer_id r retry_count metrics =
    if r.context_done
    then (none, returned, metrics)
    else if r.link_closed
    then (none, returned, metrics)
    else if attempt_stream_connection r.attempt
    then (none, looping 0, metrics)
    else if ltb max_retries (retry_count + 1)
    then (none, returned, set_peer_health peer_id unhealthy metrics)
    else if r.done_in_delay
    then (some ((retry_count + 1) * base_delay), returned, metrics)
    else (some ((retry_count + 1) * base_delay), looping (retry_count + 1), metrics)

-- The delay in front of the delays of later rounds.
abbrev pub waited : Option ℕ → List ℕ → List ℕ
waited none delays = delays
waited (some d) delays = d ∷ delays

-- The loop over the rounds that the environment supplies: the delays waited, and where it stands.
unfoldable pub run_outbound_connection :
    Str → List Round → Standing → Map PeerMetrics → List ℕ × Standing × Map PeerMetrics
run_outbound_connection peer_id [] s metrics = ([], s, metrics)
run_outbound_connection peer_id (r ∷ rounds) returned metrics = ([], returned, metrics)
run_outbound_connection peer_id (r ∷ rounds) (looping n) metrics =
    let this = outbound_round peer_id r n metrics in
    let later = run_outbound_connection peer_id rounds this.1 this.2 in
    (waited this.0 later.0, later.1, later.2)

-- Rounds in which the context is live, the link is open, and the stream cannot be established.
abbrev pub Unreachable : List Round → Type 0
Unreachable [] = Unit
Unreachable (r ∷ rounds) =
    (r.context_done ≡ false)
    × (r.link_closed ≡ false)
    × (r.attempt ≡ not_established)
    × Unreachable rounds

-- A peer that cannot be reached is never given up: however many attempts fail, the loop waits for no
-- delay between them, its retry count stays at 0, and the peer's metrics stay as they are.
pub run_outbound-Unreachable :
    (peer_id : Str) (rounds : List Round) (metrics : Map PeerMetrics)
    → Unreachable rounds
    → run_outbound_connection peer_id rounds (looping 0) metrics ≡ ([], looping 0, metrics)
unfolding run_outbound_connection outbound_round
run_outbound-Unreachable peer_id [] metrics h = refl
run_outbound-Unreachable peer_id (r ∷ rounds) metrics h =
    ground (arith, h.0, h.1, h.2, run_outbound-Unreachable peer_id rounds metrics h.3)

-- Each delay is 1 to 5 times the base delay.
abbrev pub WithinLimit : List ℕ → Type 0
WithinLimit [] = Unit
WithinLimit (d ∷ delays) = (base_delay ≤ d) × (d ≤ max_retries * base_delay) × WithinLimit delays

WithinLimit-waited :
    (d : Option ℕ) (delays : List ℕ)
    → ((n : ℕ) → d ≡ some n → (base_delay ≤ n) × (n ≤ max_retries * base_delay))
    → WithinLimit delays
    → WithinLimit (waited d delays)
WithinLimit-waited none delays h w = w
WithinLimit-waited (some n) delays h w = ((h n refl).0, (h n refl).1, w)

outbound_round-delay :
    (peer_id : Str) (r : Round) (n d : ℕ) (metrics : Map PeerMetrics)
    → (outbound_round peer_id r n metrics).0 ≡ some d
    → (base_delay ≤ d) × (d ≤ max_retries * base_delay)
unfolding outbound_round
outbound_round-delay peer_id r n d metrics h = ground arith

-- Whatever the network does, every delay that the loop waits is at least 1 second and at most 5.
pub run_outbound-WithinLimit :
    (peer_id : Str) (rounds : List Round) (s : Standing) (metrics : Map PeerMetrics)
    → WithinLimit (run_outbound_connection peer_id rounds s metrics).0
unfolding run_outbound_connection
run_outbound-WithinLimit peer_id [] s metrics = tt
run_outbound-WithinLimit peer_id (r ∷ rounds) returned metrics = tt
run_outbound-WithinLimit peer_id (r ∷ rounds) (looping n) metrics =
    let this = outbound_round peer_id r n metrics in
    WithinLimit-waited this.0 (run_outbound_connection peer_id rounds this.1 this.2).0
      (λ d h. outbound_round-delay peer_id r n d metrics h)
      (run_outbound-WithinLimit peer_id rounds this.1 this.2)
