-- ===== src/Peer/Metrics/Health.antt =====
-- The health that a peer shows: liveness makes it healthy, silence unhealthy, and silence alone never
-- touches a disconnected peer.
use eventmesh_go.Prelude.{
  ℕ, ◌-◌, ◌*◌, ◌/◌, ◌<◌, Str, not, ◌||◌, none, some, [], ◌∷◌, ◌≡◌, refl, ◌∙◌, if◌then◌else◌, ◌==◌,
  leb, str_eq, str_eq_refl, arith, Bool-cases, inl, inr,
}
use eventmesh_go.Prelude.Words.{less64, less64-eq-ltb, two63}
use eventmesh_go.Prelude.Maps.{Map, lookup}
use eventmesh_go.Peer.Metrics.{
  PeerMetrics, healthy, unhealthy, disconnected, seen, mark_peer_seen, is_disconnected,
  heartbeat_timeout, mark_silent_peers_unhealthy, check_silence, get_peer_health,
}
use eventmesh_go.Peer.Metrics.Accounting.{lookup-update_metrics}

pub lookup-mark_silent :
    (interval limit now : ℕ) (p : Str) (ms : Map PeerMetrics)
    → lookup p (mark_silent_peers_unhealthy interval limit now ms)
      ≡ (elim (lookup p ms) [ none ↦ none | some m ↦ some (check_silence interval limit now m) ])
unfolding mark_silent_peers_unhealthy lookup
lookup-mark_silent interval limit now p [] = refl
lookup-mark_silent interval limit now p ((q, m) ∷ ms) = elim (Bool-cases (str_eq q p)) [
  | inl e ↦ rw (e, if◌then◌else◌)
  | inr e ↦ rw (e, if◌then◌else◌) (lookup-mark_silent interval limit now p ms)
]

module _ (interval limit now : ℕ) (small : interval * limit < two63) (present : now < two63) where
  check_silence-eq :
      (m : PeerMetrics)
      → check_silence interval limit now m ≡ (
          if is_disconnected m.health_state || m.last_seen_at == 0
          then m
          else if leb (interval * limit) (now - m.last_seen_at)
          then record m {
            health_state = unhealthy;
            missed_heartbeat_count = (now - m.last_seen_at) / interval;
          }
          else m)
  unfolding check_silence
  check_silence-eq m =
      let timeout : heartbeat_timeout interval limit ≡ interval * limit = omega arith in
      let late : not (less64 (now - m.last_seen_at) (heartbeat_timeout interval limit))
          ≡ leb (interval * limit) (now - m.last_seen_at) =
        rw timeout (
          rw (less64-eq-ltb (now - m.last_seen_at) (interval * limit) (omega arith) small)
            (ground arith)) in
      rw late

  -- A registered peer that was last seen at time `t`, which is not 0, shows after a check at time `now`
  -- healthy if less than the limit of heartbeat intervals has passed, and unhealthy otherwise. The limit
  -- and the present are below 2 ^ 63.
  pub get_peer_health-silence :
      (t : ℕ) (p : Str) (ms : Map PeerMetrics) (m : PeerMetrics)
      → lookup p ms ≡ some m
      → 0 < t
      → get_peer_health p (mark_silent_peers_unhealthy interval limit now (mark_peer_seen t p ms))
        ≡ ((if leb (interval * limit) (now - t) then unhealthy else healthy), none)
  unfolding get_peer_health
  get_peer_health-silence t p ms m e ht =
      let after : lookup p (mark_peer_seen t p ms) ≡ some (seen t m) =
        unfold mark_peer_seen in (lookup-update_metrics p p (seen t) ms ∙ simp (str_eq_refl, e)) in
      let checked = lookup-mark_silent interval limit now p (mark_peer_seen t p ms) in
      rw (checked, get_peer_health)
        (rw (after, get_peer_health) (rw check_silence-eq (ground arith)))

  -- A check leaves a peer that is disconnected as it is, however long it has been silent.
  check_silence-disconnected :
      (m : PeerMetrics) → m.health_state ≡ disconnected → check_silence interval limit now m ≡ m
  check_silence-disconnected m e = rw check_silence-eq (simp e)
