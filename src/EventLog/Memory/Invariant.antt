-- ===== src/EventLog/Memory/Invariant.antt =====
-- The invariant of the in-memory log: in every topic the i-th event carries the offset i, and the
-- counter of the topic is the number of its events.
use eventmesh_go.Prelude.{
  ℕ, suc, ◌+◌, ◌<◌, Str, is_empty, str_eq, Option, none, some, List, [], ◌∷◌, ◌++◌, ◌≡◌, refl,
  length, length-append, if◌then◌else◌, ContextError, arith, inl, inr, Bool-cases,
}
use eventmesh_go.Prelude.Words.{two63, add64}
use eventmesh_go.Prelude.Maps.{lookup, IsMap, lookup-insert, insert-IsMap}
use eventmesh_go.EventLog.Event.{Event, with_offset}
use eventmesh_go.EventLog.Memory.{
  MemoryLog, new_memory_log, events_of, next_offset_of, append_open, append_event, close,
}

-- The events carry the offsets n, n + 1, …
abbrev pub Numbered : ℕ → List Event → Type 0
Numbered n [] = Unit
Numbered n (event ∷ events) = (event.offset ≡ n) × Numbered (suc n) events

pub record IsConsistent (log : MemoryLog) : Type 0 where
  pub counted : (topic : Str) → next_offset_of log topic ≡ length (events_of log topic)
  pub numbered : (topic : Str) → Numbered 0 (events_of log topic)
  pub topics : IsMap log.events_by_topic
  pub counters : IsMap log.next_offset_by_topic

Numbered-append :
    (n : ℕ) (events : List Event) (event : Event)
    → Numbered n events
    → event.offset ≡ n + length events
    → Numbered n (events ++ event ∷ [])
Numbered-append n [] event h e = (omega arith, tt)
Numbered-append n (x ∷ events) event h e =
    (h.0, Numbered-append (suc n) events event h.1 (omega arith))

module _ (topic : Str) (event : Event) (log : MemoryLog) where
  -- The events of every topic after an append.
  pub events_of-append_open :
      (j : Str)
      → events_of (append_open topic event log).1 j ≡ (
          if str_eq topic j
          then events_of log topic ++ with_offset (next_offset_of log topic) event ∷ []
          else events_of log j)
  unfolding append_open
  events_of-append_open j = simp lookup-insert (ground arith)

  pub next_offset_of-append_open :
      (j : Str)
      → next_offset_of (append_open topic event log).1 j
        ≡ (if str_eq topic j then add64 (next_offset_of log topic) 1 else next_offset_of log j)
  unfolding append_open
  next_offset_of-append_open j = simp lookup-insert (ground arith)

  pub append_open-IsConsistent :
      suc (length (events_of log topic)) < two63
      → IsConsistent log
      → IsConsistent (append_open topic event log).1
  append_open-IsConsistent room c = record {
    counted = λ j. rw next_offset_of-append_open (
        rw events_of-append_open (elim (Bool-cases (str_eq topic j)) [
          | inl same ↦ rw same (
              omega (
                arith,
                c.counted topic,
                length-append {0} (events_of log topic)
                    (with_offset (next_offset_of log topic) event ∷ []),
              ))
          | inr other ↦ rw other (c.counted j)
        ]));
    numbered = λ j. rw events_of-append_open (elim (Bool-cases (str_eq topic j)) [
      | inl same ↦ rw same (
          Numbered-append 0 (events_of log topic) _ (c.numbered topic)
            (unfold with_offset in omega (arith, c.counted topic)))
      | inr other ↦ rw other (c.numbered j)
    ]);
    topics = unfold append_open in insert-IsMap topic _ log.events_by_topic c.topics;
    counters = unfold append_open in insert-IsMap topic _ log.next_offset_by_topic c.counters;
  }

-- AppendEvent, on every branch, keeps a consistent log consistent while the topic has room.
pub append_event-IsConsistent :
    (ctx : Option ContextError) (topic : Str) (event : Option Event) (log : MemoryLog)
    → suc (length (events_of log topic)) < two63
    → IsConsistent log
    → IsConsistent (append_event ctx topic event log).1
unfolding append_event
append_event-IsConsistent (some e) topic none log room c = c
append_event-IsConsistent (some e) topic (some event) log room c = c
append_event-IsConsistent none topic none log room c = elim (Bool-cases (is_empty topic)) [
  | inl e ↦ rw e c
  | inr e ↦ rw e c
]
append_event-IsConsistent none topic (some event) log room c = elim (Bool-cases (is_empty topic)) [
  | inl e ↦ rw e c
  | inr e ↦ rw e (elim (Bool-cases log.closed) [
    | inl shut ↦ simp shut c
    | inr still ↦ simp still (append_open-IsConsistent topic event log room c)
  ])
]

pub new_memory_log-IsConsistent : IsConsistent new_memory_log
unfolding lookup
new_memory_log-IsConsistent = record {
  counted = λ topic. refl;
  numbered = λ topic. tt;
  topics = tt;
  counters = tt;
}

pub close-IsConsistent : (log : MemoryLog) → IsConsistent log → IsConsistent (close log)
unfolding close
close-IsConsistent log c = record {
  counted = c.counted;
  numbered = c.numbered;
  topics = c.topics;
  counters = c.counters;
}
