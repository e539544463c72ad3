-- ===== src/EventLog/Memory/Reads.antt =====
-- What the reads of the in-memory log return: the page after an append, pages laid end to end, the
-- range that overflows, and the two channels of a replay.
use eventmesh_go.Prelude.{
  ℕ, suc, ◌+◌, ◌<◌, ◌≤◌, Str, is_empty, str_eq_refl, false, Option, none, some, List, [], ◌∷◌, ◌++◌,
  ◌≡◌, refl, ap, sym, ◌∙◌, length, length-append, take, drop, drop-append_self, drop-drop, drop_all,
  take-take-drop, ok, panic, ContextError, arith, inl, inr, ◌⊎◌, Bool-cases, leb, leb→le,
}
use eventmesh_go.Prelude.Words.{two63, not_negative}
use eventmesh_go.EventLog.Event.{Event, with_offset, LogError, context}
use eventmesh_go.EventLog.Memory.{
  MemoryLog, events_of, append_open, append_event, check_context, end_index, slice_events,
  read_events, replay_loop, replay_events,
}
use eventmesh_go.EventLog.Memory.Invariant.{IsConsistent, events_of-append_open}
use eventmesh_go.EventLog.Memory.Refinement.{slice_events-eq}

-- A read with a live context on an open log, in range, is a slice of the topic's events.
pub read_events-eq :
    (topic : Str) (start max_count : ℕ) (log : MemoryLog)
    → is_empty topic ≡ false
    → log.closed ≡ false
    → length (events_of log topic) < two63
    → start < two63
    → start + max_count < two63
    → read_events none topic start max_count log
      ≡ ok (take max_count (drop start (events_of log topic)))
unfolding read_events
read_events-eq topic start max_count log named still room hs h =
    simp (named, not_negative start hs, not_negative max_count (omega arith), still)
      (slice_events-eq (events_of log topic) start max_count room hs h)

-- The event that an append to `topic` stores in a consistent log.
abbrev pub stored_event : Str → Event → MemoryLog → Event
stored_event topic event log = with_offset (length (events_of log topic)) event

append_open-eq :
    (topic : Str) (event : Event) (log : MemoryLog)
    → IsConsistent log
    → (append_open topic event log).0 ≡ stored_event topic event log
unfolding append_open
append_open-eq topic event log c = rw (c.counted topic)

events_of-append_self :
    (topic : Str) (event : Event) (log : MemoryLog)
    → IsConsistent log
    → events_of (append_open topic event log).1 topic
      ≡ events_of log topic ++ stored_event topic event log ∷ []
events_of-append_self topic event log c =
    rw events_of-append_open (rw (str_eq_refl topic) (rw (c.counted topic)))

-- An append to an open, consistent log with room returns the event with the number of events
-- already in the topic as its offset, and reading one event at that offset gives back exactly it.
pub read_events-append_event :
    (topic : Str) (event : Event) (log : MemoryLog)
    → is_empty topic ≡ false
    → log.closed ≡ false
    → suc (length (events_of log topic)) < two63
    → IsConsistent log
    → ((append_event none topic (some event) log).0 ≡ ok (stored_event topic event log))
      × (read_events none topic
            (stored_event topic event log).offset
            1
            (append_event none topic (some event) log).1
          ≡ ok (stored_event topic event log ∷ []))
unfolding append_event with_offset
read_events-append_event topic event log named still room c =
    simp (named, still)
      (
        ap ok (append_open-eq topic event log c),
        read_events-eq topic (length (events_of log topic)) 1 (append_open topic event log).1 named
              (unfold append_open in still)
              (rw (events_of-append_self topic event log c) (
                omega (
                  arith,
                  length-append {0} (events_of log topic) (stored_event topic event log ∷ []),
                )))
              (omega arith) (omega arith)
            ∙ ap (λ xs. ok (take 1 xs))
                (ap (drop (length (events_of log topic))) (events_of-append_self topic event log c)
                  ∙ drop-append_self (events_of log topic) (stored_event topic event log ∷ [])),
      )

-- A read that succeeds named a topic of an open log.
read_events-ok :
    (topic : Str) (start m : ℕ) (log : MemoryLog) (page : List Event)
    → read_events none topic start m log ≡ ok page
    → (is_empty topic ≡ false) × (log.closed ≡ false)
unfolding read_events
read_events-ok topic start m log page h = ground arith

-- Two pages that are read, the second from where the range of the first ends, make the page that one
-- read of both sizes returns. The topic has fewer than 2 ^ 63 events and the range ends below that.
pub read_events-pages :
    (topic : Str) (start m n : ℕ) (log : MemoryLog) (first second : List Event)
    → length (events_of log topic) < two63
    → start + m + n < two63
    → read_events none topic start m log ≡ ok first
    → read_events none topic (start + m) n log ≡ ok second
    → read_events none topic start (m + n) log ≡ ok (first ++ second)
read_events-pages topic start m n log first second room h p q =
    let (named, still) = read_events-ok topic start m log first p in
    let xs : List Event = events_of log topic in
    let one =
      sym p ∙ read_events-eq topic start m log named still room (omega arith) (omega arith) in
    let two =
      sym q ∙ read_events-eq topic (start + m) n log named still room (omega arith) (omega arith) in
    read_events-eq topic start (m + n) log named still room (omega arith) (omega arith)
    ∙ cc (one, two, take-take-drop m n (drop start xs), drop-drop start m xs)

-- On an open log, a read with a named topic, a start within the topic and a count, neither of them
-- negative, whose sum passes the largest int64, panics.
pub read_events_overflow :
    (topic : Str) (start max_count : ℕ) (log : MemoryLog)
    → is_empty topic ≡ false
    → log.closed ≡ false
    → start < length (events_of log topic)
    → length (events_of log topic) < two63
    → max_count < two63
    → two63 ≤ start + max_count
    → read_events none topic start max_count log ≡ panic
unfolding read_events slice_events end_index
read_events_overflow topic start max_count log named still inside room hm h =
    simp (named, not_negative start (omega arith), not_negative max_count hm, still) (ground arith)

-- What was sent is a first part of `xs`: all of it with no error, or less with the context's error.
abbrev pub SendsPrefix : List Event × Option LogError → List Event → Type 0
SendsPrefix sent xs =
    (rest : List Event) × (sent.0 ++ rest ≡ xs)
    × (((sent.1 ≡ none) × (rest ≡ []))
        ⊎ ((c : ContextError) × (sent.1 ≡ some (context c)) × (0 < length rest)))

replay_loop-SendsPrefix :
    (cancels : ℕ → Option ContextError) (i : ℕ) (xs : List Event)
    → SendsPrefix (replay_loop cancels i xs) xs
unfolding replay_loop
replay_loop-SendsPrefix cancels i [] = ([], refl, inl (refl, refl))
replay_loop-SendsPrefix cancels i (x ∷ xs) =
    sent_or_cut (cancels i) (replay_loop cancels (suc i) xs)
      (replay_loop-SendsPrefix cancels (suc i) xs)
  where
    sent_or_cut :
        (cut : Option ContextError) (later : List Event × Option LogError)
        → SendsPrefix later xs
        → SendsPrefix (check_context cut (λ e. ([], some e)) (x ∷ later.0, later.1)) (x ∷ xs)
    sent_or_cut none later (rest, e, f) = (rest, ap (λ r. x ∷ r) e, f)
    sent_or_cut (some c) later ih = (x ∷ xs, refl, inr (c, refl, omega arith))

-- A replay with a live context on an open log sends, in order, the events of the topic from the start
-- offset on: all of them and no error, or a first part of them and then the error of the context that
-- ended it.
pub replay_events-SendsPrefix :
    (cancels : ℕ → Option ContextError) (topic : Str) (start : ℕ) (log : MemoryLog)
    → is_empty topic ≡ false
    → log.closed ≡ false
    → start < two63
    → SendsPrefix (replay_events none cancels topic start log) (drop start (events_of log topic))
unfolding replay_events
replay_events-SendsPrefix cancels topic start log named still hs =
    simp (named, not_negative start hs, still)
      (elim (Bool-cases (leb (length (events_of log topic)) start)) [
        | inl past ↦
            simp past
              ([], sym (drop_all start (events_of log topic) (leb→le _ _ past)), inl (refl, refl))
        | inr before ↦
            simp before (replay_loop-SendsPrefix cancels 0 (drop start (events_of log topic)))
      ])
