-- ===== src/EventLog/Memory/Closing.antt =====
-- Statistics of the in-memory log, and what is left of it after Close.
use eventmesh_go.Prelude.{
  ℕ, ◌+◌, ◌<◌, Str, str_eq, str_eq_iff, str_eq_refl, false, Option, none, some, List, [], ◌∷◌, ◌≡◌,
  refl, ◌∙◌, length, ok, err, ContextError, arith, inl, inr, ◌⊎◌, Bool-cases, is_empty,
}
use eventmesh_go.Prelude.Words.{two63, add64, not_negative}
use eventmesh_go.Prelude.Maps.{Map, lookup, insert, IsMap, lookup-insert, length-insert}
use eventmesh_go.EventLog.Event.{Event, log_closed}
use eventmesh_go.EventLog.Memory.{
  MemoryLog, append_event, read_events, replay_events, close, compact, get_topic_end_offset,
  count_topics, get_statistics, Statistics,
}

-- The number of events in a log, as a plain sum.
abbrev pub total_length : Map (List Event) → ℕ
total_length [] = 0
total_length ((topic, events) ∷ rest) = length events + total_length rest

-- The number of events under a key.
abbrev pub count_at : Option (List Event) → Option ℕ
count_at none = none
count_at (some events) = some (length events)

count_topics-total :
    (m : Map (List Event)) (total : ℕ) (counts : Map ℕ)
    → total + total_length m < two63
    → (count_topics m total counts).0 ≡ total + total_length m
unfolding count_topics
count_topics-total [] total counts h = omega arith
count_topics-total ((topic, events) ∷ rest) total counts h =
    let e : add64 total (length events) ≡ total + length events = omega arith in
    omega (
      arith,
      count_topics-total rest (add64 total (length events)) (insert topic (length events) counts)
          (omega arith),
    )

-- The key is in one of two maps only.
or_else : Option ℕ → Option ℕ → Option ℕ
or_else none b = b
or_else (some a) b = some a

or_else-none : (a : Option ℕ) → or_else a none ≡ a
unfolding or_else
or_else-none none = refl
or_else-none (some n) = refl

count_topics-lookup :
    (m : Map (List Event)) (total : ℕ) (counts : Map ℕ) (k : Str)
    → IsMap m
    → lookup k (count_topics m total counts).1 ≡ or_else (count_at (lookup k m)) (lookup k counts)
unfolding count_topics lookup or_else
count_topics-lookup [] total counts k h = refl
count_topics-lookup ((topic, events) ∷ rest) total counts k h =
    rw
      (count_topics-lookup rest (add64 total (length events)) (insert topic (length events) counts)
        k h.1)
      (rw lookup-insert (ground (arith, str_eq_iff topic k, h.0)))

count_topics-length :
    (m : Map (List Event)) (total : ℕ) (counts : Map ℕ)
    → IsMap m
    → ((k : Str) → (lookup k m ≡ none) ⊎ (lookup k counts ≡ none))
    → length (count_topics m total counts).1 ≡ length counts + length m
unfolding count_topics lookup
count_topics-length [] total counts h apart = omega arith
count_topics-length ((topic, events) ∷ rest) total counts h apart =
    let fresh : lookup topic counts ≡ none = elim (apart topic) [
      | inl e ↦ absurd (cc (e, str_eq_refl topic))
      | inr e ↦ e
    ] in
    let grown = rw fresh at (length-insert topic (length events) counts) in
    omega (
      arith,
      grown,
      count_topics-length rest (add64 total (length events)) (insert topic (length events) counts)
          h.1 still_apart,
    )
  where
    still_apart :
        (k : Str) → (lookup k rest ≡ none) ⊎ (lookup k (insert topic (length events) counts) ≡ none)
    still_apart k = elim (Bool-cases (str_eq topic k)) [
      | inl same ↦ inl (rw (← (str_eq_iff topic k).0 same) h.0)
      | inr other ↦ elim (apart k) [
        | inl e ↦ inl (rw other at e)
        | inr e ↦ inr (rw lookup-insert (rw other e))
      ]
    ]

-- On an open log with fewer than 2 ^ 63 events, the statistics give the sum of the topics' lengths,
-- each topic with its length and no other topic.
pub get_statistics_lem :
    (log : MemoryLog)
    → log.closed ≡ false
    → IsMap log.events_by_topic
    → total_length log.events_by_topic < two63
    → (stats : Statistics) × (get_statistics none log ≡ ok stats)
      × (stats.total_events ≡ total_length log.events_by_topic)
      × (stats.topic_count ≡ length log.events_by_topic)
      × ((k : Str) → lookup k stats.topic_counts ≡ count_at (lookup k log.events_by_topic))
unfolding get_statistics
get_statistics_lem log still m few = simp still (
  record {
    total_events = (count_topics log.events_by_topic 0 []).0;
    topic_counts = (count_topics log.events_by_topic 0 []).1;
    topic_count = length (count_topics log.events_by_topic 0 []).1;
  },
  refl,
  omega (arith, count_topics-total log.events_by_topic 0 [] (omega arith)),
  omega (arith, count_topics-length log.events_by_topic 0 [] m (λ k. inr (unfold lookup in refl))),
  λ k.
      count_topics-lookup log.events_by_topic 0 [] k m
      ∙ unfold lookup in or_else-none (count_at (lookup k log.events_by_topic)),
)

-- Once a log is closed no operation returns a value: each reports that the log
-- is closed, and an append leaves the log as it is. The context is live, the topic is named and the
-- numbers are not negative.
pub close-stops :
    (cancels : ℕ → Option ContextError) (topic : Str) (event : Event) (start max_count : ℕ)
    (log : MemoryLog)
    → start < two63
    → max_count < two63
    → is_empty topic ≡ false
    → ((append_event none topic (some event) (close log)) ≡ (err log_closed, close log))
      × (read_events none topic start max_count (close log) ≡ err log_closed)
      × (get_topic_end_offset none topic (close log) ≡ err log_closed)
      × (replay_events none cancels topic start (close log) ≡ ([], some log_closed))
      × (compact none (close log) ≡ some log_closed)
      × (get_statistics none (close log) ≡ err log_closed)
unfolding append_event read_events get_topic_end_offset replay_events compact get_statistics close
close-stops cancels topic event start max_count log hs hm named =
    simp (named, not_negative start hs, not_negative max_count hm)
      (refl, refl, refl, refl, refl, refl)
