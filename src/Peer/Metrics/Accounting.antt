-- ===== src/Peer/Metrics/Accounting.antt =====
-- The counters of a peer: what each call counts, and that the total of drops is the sum of the planes.
use eventmesh_go.Prelude.{
  ℕ, ◌+◌, ◌%◌, Str, Option, none, some, List, [], ◌∷◌, ◌≡◌, refl, subst, if◌then◌else◌, str_eq,
  str_eq_iff, arith, Bool-cases, inl, inr,
}
use eventmesh_go.Prelude.Words.{two64}
use eventmesh_go.Prelude.Maps.{Map, lookup, insert, lookup-insert}
use eventmesh_go.Peer.Messages.{Plane, data_plane_message, control_plane_message}
use eventmesh_go.Peer.Metrics.{
  PeerMetrics, PeerHealthState, update_metrics, set_peer_health, mark_peer_seen, queued_on,
  record_plane_queued, dropped_on, record_plane_drop, failed_on, record_plane_send_failure,
  record_peer_send_failure, mark_silent_peers_unhealthy, check_silence, new_peer_metrics,
}
use eventmesh_go.Peer.Link.{ensure_metrics}

-- The change of one peer's metrics, if it has any, and of no other peer's.
pub lookup-update_metrics :
    (peer_id j : Str) (f : PeerMetrics → PeerMetrics) (metrics : Map PeerMetrics)
    → lookup j (update_metrics peer_id f metrics) ≡ (
        if str_eq peer_id j
        then (elim (lookup peer_id metrics) [ none ↦ none | some m ↦ some (f m) ])
        else lookup j metrics)
unfolding update_metrics
lookup-update_metrics peer_id j f metrics = changed (lookup peer_id metrics) refl
  where
    changed :
        (o : Option PeerMetrics)
        → lookup peer_id metrics ≡ o
        → lookup j (elim o as (λ _. Map PeerMetrics) [
          | none ↦ metrics
          | some m ↦ insert peer_id (f m) metrics
        ])
          ≡ (if str_eq peer_id j
              then (elim o as (λ _. Option PeerMetrics) [ none ↦ none | some m ↦ some (f m) ])
              else lookup j metrics)
    changed none e = ground (arith, str_eq_iff peer_id j)
    changed (some m) e = lookup-insert peer_id j (f m) metrics

-- A call of registerPeer, or of one of the functions that count or judge, for one peer or for all.
pub data MetricsCall : Type 0 where
  registered : ℕ → Str → MetricsCall
  set_health : Str → PeerHealthState → MetricsCall
  peer_seen : ℕ → Str → MetricsCall
  plane_queued plane_drop plane_failure : Str → Plane → MetricsCall
  peer_failure : Str → MetricsCall
  silence : ℕ → ℕ → ℕ → MetricsCall

abbrev pub metrics_step : MetricsCall → Map PeerMetrics → Map PeerMetrics
metrics_step (registered now p) ms = ensure_metrics now p ms
metrics_step (set_health p s) ms = set_peer_health p s ms
metrics_step (peer_seen now p) ms = mark_peer_seen now p ms
metrics_step (plane_queued p plane) ms = record_plane_queued p plane ms
metrics_step (plane_drop p plane) ms = record_plane_drop p plane ms
metrics_step (plane_failure p plane) ms = record_plane_send_failure p plane ms
metrics_step (peer_failure p) ms = record_peer_send_failure p ms
metrics_step (silence interval limit now) ms = mark_silent_peers_unhealthy interval limit now ms

abbrev pub metrics_run : List MetricsCall → Map PeerMetrics → Map PeerMetrics
metrics_run [] ms = ms
metrics_run (call ∷ calls) ms = metrics_run calls (metrics_step call ms)

-- The drops of a peer are the drops of its two planes, as wrapped numbers.
abbrev pub Balanced : PeerMetrics → Type 0
Balanced m = m.drops_count ≡ (m.data_plane_drops_count + m.control_plane_drops_count) % two64

abbrev pub AllBalanced : Map PeerMetrics → Type 0
AllBalanced [] = Unit
AllBalanced ((p, m) ∷ rest) = Balanced m × AllBalanced rest

AllBalanced-insert :
    (p : Str) (m : PeerMetrics) (ms : Map PeerMetrics)
    → Balanced m
    → AllBalanced ms
    → AllBalanced (insert p m ms)
unfolding insert
AllBalanced-insert p m [] b h = (b, tt)
AllBalanced-insert p m ((q, n) ∷ ms) b h = elim (Bool-cases (str_eq q p)) [
  | inl e ↦ simp e (b, h.1)
  | inr e ↦ simp e (h.0, AllBalanced-insert p m ms b h.1)
]

AllBalanced-lookup :
    (p : Str) (ms : Map PeerMetrics) (m : PeerMetrics)
    → AllBalanced ms
    → lookup p ms ≡ some m
    → Balanced m
unfolding lookup
AllBalanced-lookup p [] m h e = absurd cc
AllBalanced-lookup p ((q, n) ∷ ms) m h e = elim (Bool-cases (str_eq q p)) [
  | inl same ↦ let value : n ≡ m = cc (rw same at e) in subst Balanced value h.0
  | inr other ↦ AllBalanced-lookup p ms m h.1 (rw other at e)
]

update_metrics-AllBalanced :
    (p : Str) (f : PeerMetrics → PeerMetrics) (ms : Map PeerMetrics)
    → ((m : PeerMetrics) → Balanced m → Balanced (f m))
    → AllBalanced ms
    → AllBalanced (update_metrics p f ms)
unfolding update_metrics
update_metrics-AllBalanced p f ms keep h = changed (lookup p ms) refl
  where
    changed :
        (o : Option PeerMetrics)
        → lookup p ms ≡ o
        → AllBalanced (elim o as (λ _. Map PeerMetrics) [ none ↦ ms | some m ↦ insert p (f m) ms ])
    changed none e = h
    changed (some m) e = AllBalanced-insert p (f m) ms (keep m (AllBalanced-lookup p ms m h e)) h

dropped_on-Balanced : (plane : Plane) (m : PeerMetrics) → Balanced m → Balanced (dropped_on plane m)
dropped_on-Balanced data_plane_message m h = omega arith
dropped_on-Balanced control_plane_message m h = omega arith

queued_on-Balanced : (plane : Plane) (m : PeerMetrics) → Balanced m → Balanced (queued_on plane m)
queued_on-Balanced data_plane_message m h = h
queued_on-Balanced control_plane_message m h = h

failed_on-Balanced : (plane : Plane) (m : PeerMetrics) → Balanced m → Balanced (failed_on plane m)
failed_on-Balanced data_plane_message m h = h
failed_on-Balanced control_plane_message m h = h

check_silence-Balanced :
    (interval limit now : ℕ) (m : PeerMetrics)
    → Balanced m
    → Balanced (check_silence interval limit now m)
unfolding check_silence
check_silence-Balanced interval limit now m h = ground arith

silence-AllBalanced :
    (interval limit now : ℕ) (ms : Map PeerMetrics)
    → AllBalanced ms
    → AllBalanced (mark_silent_peers_unhealthy interval limit now ms)
unfolding mark_silent_peers_unhealthy
silence-AllBalanced interval limit now [] h = tt
silence-AllBalanced interval limit now ((p, m) ∷ ms) h =
    (check_silence-Balanced interval limit now m h.0, silence-AllBalanced interval limit now ms h.1)

ensure_metrics-AllBalanced :
    (now : ℕ) (p : Str) (ms : Map PeerMetrics)
    → AllBalanced ms
    → AllBalanced (ensure_metrics now p ms)
unfolding ensure_metrics
ensure_metrics-AllBalanced now p ms h =
    elim (lookup p ms)
      as (λ o. AllBalanced (elim o as (λ _. Map PeerMetrics) [
        | some m ↦ ms
        | none ↦ insert p (new_peer_metrics now) ms
      ])) [ some m ↦ h | none ↦ AllBalanced-insert p (new_peer_metrics now) ms refl h ]

metrics_step-AllBalanced :
    (call : MetricsCall) (ms : Map PeerMetrics)
    → AllBalanced ms
    → AllBalanced (metrics_step call ms)
unfolding set_peer_health mark_peer_seen record_plane_queued record_plane_drop
    record_plane_send_failure record_peer_send_failure
metrics_step-AllBalanced (registered now p) ms h = ensure_metrics-AllBalanced now p ms h
metrics_step-AllBalanced (set_health p s) ms h = update_metrics-AllBalanced p _ ms (λ m b. b) h
metrics_step-AllBalanced (peer_seen now p) ms h = update_metrics-AllBalanced p _ ms (λ m b. b) h
metrics_step-AllBalanced (plane_queued p plane) ms h =
    update_metrics-AllBalanced p _ ms (queued_on-Balanced plane) h
metrics_step-AllBalanced (plane_drop p plane) ms h =
    update_metrics-AllBalanced p _ ms (dropped_on-Balanced plane) h
metrics_step-AllBalanced (plane_failure p plane) ms h =
    update_metrics-AllBalanced p _ ms (failed_on-Balanced plane) h
metrics_step-AllBalanced (peer_failure p) ms h = update_metrics-AllBalanced p _ ms (λ m b. b) h
metrics_step-AllBalanced (silence interval limit now) ms h =
    silence-AllBalanced interval limit now ms h

metrics_run-AllBalanced :
    (calls : List MetricsCall) (ms : Map PeerMetrics)
    → AllBalanced ms
    → AllBalanced (metrics_run calls ms)
metrics_run-AllBalanced [] ms h = h
metrics_run-AllBalanced (call ∷ calls) ms h =
    metrics_run-AllBalanced calls (metrics_step call ms) (metrics_step-AllBalanced call ms h)

-- After any calls of registerPeer and of the functions that change metrics, from no metrics on, the
-- drops of every peer are the drops on its data plane plus those on its control plane, also when a
-- counter wraps around.
pub reachable-AllBalanced : (calls : List MetricsCall) → AllBalanced (metrics_run calls [])
reachable-AllBalanced calls = metrics_run-AllBalanced calls [] tt
