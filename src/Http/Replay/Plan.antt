-- ===== src/Http/Replay/Plan.antt =====
-- The check before a replay bounds what the replay sends.
use eventmesh_go.Prelude.{
  ℕ, suc, ◌+◌, ◌-◌, ◌≤◌, ◌<◌, Str, true, Bool-cases, none, List, [], ◌∷◌, ◌≡◌, refl, map, length,
  length-append, drop, length-drop, ltb, arith, inl, inr, Result, ok,
}
use eventmesh_go.Prelude.Words.{two63, add64, less64, less64-eq-ltb, not_negative}
use eventmesh_go.Prelude.Maps.{Map}
use eventmesh_go.Routing.Pattern.{matches_pattern}
use eventmesh_go.EventLog.Event.{Event}
use eventmesh_go.Http.Events.{StreamError}
use eventmesh_go.Http.Replay.{
  LogReads, matches_topic_pattern, topic_covered_by_subscriptions, plan_loop,
  validate_sse_replay_plan,
}
use eventmesh_go.Http.Replay.Sending.{Serves, owed, Resumable}

-- The test of the HTTP API is the routing table's, so a stream covers what its subscriptions get.
pub matches_topic_pattern-eq :
    (pattern topic : Str) → matches_topic_pattern pattern topic ≡ matches_pattern pattern topic
unfolding matches_topic_pattern matches_pattern
matches_topic_pattern-eq pattern topic = refl

length-map : (f : Event → Str) (es : List Event) → length (map f es) ≡ length es
length-map f [] = refl
length-map f (e ∷ es) = omega (arith, length-map f es)

module _ (frame_of : Event → Result StreamError Str) (frames : Event → Str)
    (encodes : (e : Event) → frame_of e ≡ ok (frames e)) (log : LogReads) (c : Str → List Event)
    (s : Serves log c) where
  -- How many frames a cursor is owed.
  abbrev owed_count : Map ℕ → List Str → ℕ
  owed_count topics subscriptions =
      length (owed frame_of frames encodes log c s topics subscriptions)

  length-owed :
      (topic : Str) (offset : ℕ) (topics : Map ℕ) (subscriptions : List Str)
      → topic_covered_by_subscriptions topic subscriptions ≡ true
      → owed_count ((topic, offset) ∷ topics) subscriptions
        ≡ (length (c topic) - suc offset) + owed_count topics subscriptions
  length-owed topic offset topics subscriptions covered = rw covered (
      omega (
        arith,
        length-append {0} (map frames (drop (suc offset) (c topic)))
            (owed frame_of frames encodes log c s topics subscriptions),
        length-map frames (drop (suc offset) (c topic)),
        length-drop (suc offset) (c topic),
      ))

  plan_loop-bounds :
      (topics : Map ℕ) (subscriptions : List Str) (max_events total : ℕ)
      → Resumable frame_of frames encodes log c s topics
      → ((topic : Str) → max_events + length (c topic) < two63)
      → total ≤ max_events
      → plan_loop log subscriptions max_events topics total ≡ none
      → total + owed_count topics subscriptions ≤ max_events
  unfolding plan_loop
  plan_loop-bounds [] subscriptions max_events total fine small low h = omega arith
  plan_loop-bounds ((topic, offset) ∷ topics) subscriptions max_events total fine small low h =
      let next : add64 offset 1 ≡ suc offset = omega (arith, fine.1) in
      elim (Bool-cases (topic_covered_by_subscriptions topic subscriptions)) [
        | inr other ↦ rw other (
            plan_loop-bounds topics subscriptions max_events total fine.2 small low (rw other at h))
        | inl covered ↦
            let h2 =
              rw
                (
                  covered,
                  next,
                  s.end-eq topic fine.0,
                  not_negative (suc offset) fine.1,
                  less64-eq-ltb (suc offset) (length (c topic)) fine.1 (omega (arith, small topic)),
                )
                at h in
            let sum : add64 total (length (c topic) - suc offset)
                ≡ total + (length (c topic) - suc offset) =
              omega (arith, small topic) in
            rw (length-owed topic offset topics subscriptions covered)
              (elim (Bool-cases (ltb (suc offset) (length (c topic)))) [
                | inr past ↦
                    let rest =
                      plan_loop-bounds topics subscriptions max_events total fine.2 small low
                        (rw past at h2) in
                    ground (arith, rest, past)
                | inl before ↦
                    let limit : less64 max_events (total + (length (c topic) - suc offset))
                        ≡ ltb max_events (total + (length (c topic) - suc offset)) =
                      less64-eq-ltb max_events (total + (length (c topic) - suc offset))
                        (omega (arith, small topic)) (omega (arith, small topic)) in
                    elim (Bool-cases (ltb max_events (total + (length (c topic) - suc offset)))) [
                      | inl over ↦ absurd (cc (rw (before, sum, limit, over) at h2))
                      | inr under ↦
                          let rest =
                            plan_loop-bounds topics subscriptions max_events
                              (total + (length (c topic) - suc offset)) fine.2 small (ground arith)
                              (rw (before, sum, limit, under) at h2) in
                          omega (arith, rest)
                    ]
              ])
      ]

  -- If the check lets a replay go ahead, the replay owes at most the limit of events, and the cursor
  -- has at most the limit of topics. The topics are named, their offsets have a successor,
  -- and the limit together with any one topic stays below 2 ^ 63, so that the total does not wrap.
  pub validate_sse_replay_plan-bounds :
      (topics : Map ℕ) (subscriptions : List Str) (max_events max_topics : ℕ)
      → Resumable frame_of frames encodes log c s topics
      → ((topic : Str) → max_events + length (c topic) < two63)
      → validate_sse_replay_plan log topics subscriptions max_events max_topics ≡ none
      → (length (owed frame_of frames encodes log c s topics subscriptions) ≤ max_events)
        × (length topics ≤ max_topics)
  unfolding validate_sse_replay_plan
  validate_sse_replay_plan-bounds topics subscriptions max_events max_topics fine small h =
      elim (Bool-cases (ltb max_topics (length topics))) [
        | inl many ↦ absurd (cc (rw many at h))
        | inr few ↦ (
          omega (
            arith,
            plan_loop-bounds topics subscriptions max_events 0 fine small (omega arith)
                (rw few at h),
          ),
          ground arith,
        )
      ]
