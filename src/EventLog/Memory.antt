-- ===== src/EventLog/Memory.antt =====
-- internal/eventlog/inmemory.go: the topic-partitioned log in memory. Each method runs under the
-- log's lock, so it is one step on the state. Offsets and counts are int64 bit patterns.
pub mod Invariant
pub mod Refinement
pub mod Reads
pub mod Closing
use eventmesh_go.Prelude.{
  ℕ, zero, suc, ◌+◌, ◌-◌, Str, is_empty, Bool, true, false, Option, none, some, List, [], ◌∷◌, ◌++◌,
  length, take, drop, get_or, leb, if◌then◌else◌, Result, ok, err, panic, ContextError,
}
use eventmesh_go.Prelude.Words.{is_negative, add64, less64}
use eventmesh_go.Prelude.Maps.{Map, lookup, insert}
use eventmesh_go.EventLog.Event.{
  Event, with_offset, LogError, context, empty_topic, nil_event, negative_offset,
  negative_max_count, log_closed,
}

-- InMemoryEventLog
pub record MemoryLog : Type 0 where
  pub events_by_topic : Map (List Event)
  pub next_offset_by_topic : Map ℕ
  pub closed : Bool

-- NewInMemoryEventLog
abbrev pub new_memory_log : MemoryLog
new_memory_log = record { events_by_topic = []; next_offset_by_topic = []; closed = false }

-- Reads of an absent key give the zero value.
abbrev pub events_of : MemoryLog → Str → List Event
events_of log topic = get_or [] (lookup topic log.events_by_topic)

abbrev pub next_offset_of : MemoryLog → Str → ℕ
next_offset_of log topic = get_or 0 (lookup topic log.next_offset_by_topic)

-- checkContext, in front of what follows: a context that is done ends the call.
abbrev pub check_context {ℓ} : {A : Type ℓ} → Option ContextError → (LogError → A) → A → A
check_context none fail continue = continue
check_context (some e) fail continue = fail (context e)

-- The part of AppendEvent under the lock, on an open log.
unfoldable pub append_open : Str → Event → MemoryLog → Event × MemoryLog
append_open topic event log =
    let next = next_offset_of log topic in
    let stored = with_offset next event in
    (
      stored,
      record log {
        next_offset_by_topic = insert topic (add64 next 1) log.next_offset_by_topic;
        events_by_topic = insert topic (events_of log topic ++ stored ∷ []) log.events_by_topic;
      },
    )

-- AppendEvent
unfoldable pub append_event :
    Option ContextError → Str → Option Event → MemoryLog → Result LogError Event × MemoryLog
append_event ctx topic none log =
    check_context ctx (λ e. (err e, log))
      (if is_empty topic then (err empty_topic, log) else (err nil_event, log))
append_event ctx topic (some event) log =
    check_context ctx (λ e. (err e, log))
      (if is_empty topic
        then (err empty_topic, log)
        else if log.closed
        then (err log_closed, log)
        else (ok (append_open topic event log).0, (append_open topic event log).1))

-- `endIdx`: where the slice ends, clipped to the length of the list by a signed comparison.
unfoldable pub end_index : List Event → ℕ → ℕ → ℕ
end_index events start max_count =
    let stop = add64 start max_count in if less64 (length events) stop then length events else stop

-- The slice that ReadEvents copies. A negative `endIdx` makes `make` or the slice expression panic.
unfoldable pub slice_events : List Event → ℕ → ℕ → Result LogError (List Event)
unfolding end_index
slice_events events start max_count =
    if leb (length events) start
    then ok []
    else if is_negative (end_index events start max_count)
    then panic
    else ok (take (end_index events start max_count - start) (drop start events))

-- ReadEvents
unfoldable pub read_events :
    Option ContextError → Str → ℕ → ℕ → MemoryLog → Result LogError (List Event)
unfolding slice_events
read_events ctx topic start max_count log = check_context ctx err (
    if is_empty topic
    then err empty_topic
    else if is_negative start
    then err negative_offset
    else if is_negative max_count
    then err negative_max_count
    else if log.closed
    then err log_closed
    else slice_events (events_of log topic) start max_count)

-- GetTopicEndOffset
unfoldable pub get_topic_end_offset : Option ContextError → Str → MemoryLog → Result LogError ℕ
get_topic_end_offset ctx topic log = check_context ctx err (
    if is_empty topic
    then err empty_topic
    else if log.closed
    then err log_closed
    else ok (next_offset_of log topic))

-- The sending loop of ReplayEvents. `cancels i` tells that the `select` for the i-th event of the
-- loop takes the arm of the context, and with which error.
unfoldable pub replay_loop :
    (ℕ → Option ContextError) → ℕ → List Event → List Event × Option LogError
replay_loop cancels i [] = ([], none)
replay_loop cancels i (event ∷ events) =
    let rest = replay_loop cancels (suc i) events in
    check_context (cancels i) (λ e. ([], some e)) (event ∷ rest.0, rest.1)

-- ReplayEvents: what is sent on the two channels before they close.
unfoldable pub replay_events :
    Option ContextError
    → (ℕ → Option ContextError)
    → Str
    → ℕ
    → MemoryLog
    → List Event × Option LogError
unfolding replay_loop
replay_events ctx cancels topic start log =
    check_context ctx (λ e. ([], some e))
      (if is_empty topic
        then ([], some empty_topic)
        else if is_negative start
        then ([], some negative_offset)
        else if log.closed
        then ([], some log_closed)
        else if leb (length (events_of log topic)) start
        then ([], none)
        else replay_loop cancels 0 (drop start (events_of log topic)))

-- Compact, which does nothing to an open log.
unfoldable pub compact : Option ContextError → MemoryLog → Option LogError
compact ctx log = check_context ctx some (if log.closed then some log_closed else none)

-- EventLogStatistics
pub record Statistics : Type 0 where
  pub total_events : ℕ
  pub topic_counts : Map ℕ
  pub topic_count : ℕ

-- The loop of GetStatistics over the topics.
unfoldable pub count_topics : Map (List Event) → ℕ → Map ℕ → ℕ × Map ℕ
count_topics [] total counts = (total, counts)
count_topics ((topic, events) ∷ rest) total counts =
    count_topics rest (add64 total (length events)) (insert topic (length events) counts)

-- GetStatistics
unfoldable pub get_statistics : Option ContextError → MemoryLog → Result LogError Statistics
unfolding count_topics
get_statistics ctx log = check_context ctx err (
    if log.closed
    then err log_closed
    else let counted = count_topics log.events_by_topic 0 [] in
      ok (record {
        total_events = counted.0;
        topic_counts = counted.1;
        topic_count = length counted.1;
      }))

-- Close
unfoldable pub close : MemoryLog → MemoryLog
close log = record log { closed = true }
