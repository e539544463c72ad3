-- ===== src/EventLog/Pebble.antt =====
-- internal/eventlog/pebble.go: the log on disk, over a key-value store and a codec. Each method runs
-- under the log's lock, so it is one step on the state. Offsets and counts are uint64 and int64 bit
-- patterns; a conversion between the two keeps the pattern.
pub mod Rows
pub mod Refinement
pub mod Failures
use eventmesh_go.Prelude.{
  ℕ, zero, suc, ◌+◌, Str, is_empty, Bool, true, false, not, Option, none, some, List, [], ◌∷◌,
  length, leb, ltb, ◌==◌, if◌then◌else◌, Result, ok, err, panic, ContextError,
}
use eventmesh_go.Prelude.Words.{two63, is_negative, add64}
use eventmesh_go.Prelude.Maps.{Map, insert}
use eventmesh_go.EventLog.Event.{
  Event, with_offset, LogError, empty_topic, nil_event, negative_offset, negative_max_count,
  log_closed, offset_overflow, invalid_offset_value, encoding, storage,
}
use eventmesh_go.EventLog.Keys.{
  event_key, offset_key, event_topic_prefix, prefix_upper_bound, encode_offset, decode_offset,
  decode_offset_topic_key, offset_key_prefix,
}
use eventmesh_go.EventLog.Memory.{Statistics, check_context}
use eventmesh_go.EventLog.Store.{KvStore, Scan}
use eventmesh_go.EventLog.Storage.{Codec, marshal_stored_event, unmarshal_stored_event}

-- PebbleEventLog
pub record PebbleLog (S : Type 0) : Type 0 where
  pub db : S
  pub closed : Bool

abbrev pub is_err : {A : Type 0} → Option A → LogError → Result LogError A
is_err none e = err e
is_err (some a) e = ok a

-- One more event in front of what the rest of a loop reads.
abbrev pub then_event : Event → Result LogError (List Event) → Result LogError (List Event)
then_event event (ok events) = ok (event ∷ events)
then_event event (err e) = err e
then_event event panic = panic

-- `decodePebbleOffset`, behind the check of the length.
abbrev pub checked_offset : Str → Result LogError ℕ
checked_offset value =
    if length value == 8 then ok (decode_offset value) else err invalid_offset_value

abbrev pub end_offset_of : Result LogError (Option Str) → Result LogError ℕ
end_offset_of (ok none) = ok 0
end_offset_of (ok (some value)) = checked_offset value
end_offset_of (err e) = err storage
end_offset_of panic = panic

module _ {S : Type 0} (store : KvStore S) (codec : Codec) where
  -- getTopicEndOffsetLocked
  unfoldable pub get_topic_end_offset_locked : Str → PebbleLog S → Result LogError ℕ
  get_topic_end_offset_locked topic log = end_offset_of (store.get (offset_key topic) log.db)

  -- The two writes of AppendEvent and their commit.
  abbrev pub committed : Event → Bool × S → PebbleLog S → Result LogError Event × PebbleLog S
  committed event (false, db) log = (err storage, record log { db = db })
  committed event (true, db) log = (ok event, record log { db = db })

  abbrev pub write_event :
      Str → ℕ → Event → Option Str → PebbleLog S → Result LogError Event × PebbleLog S
  write_event topic next event none log = (err encoding, log)
  write_event topic next event (some encoded) log =
      committed event
        (store.commit
          ((event_key topic next, encoded) ∷ (offset_key topic, encode_offset (add64 next 1)) ∷ [])
          log.db)
        log

  abbrev pub append_at :
      Str → Event → Result LogError ℕ → PebbleLog S → Result LogError Event × PebbleLog S
  append_at topic event (ok next) log =
      if leb two63 next
      then (err offset_overflow, log)
      else write_event topic next (with_offset next event)
          (marshal_stored_event codec (with_offset next event)) log
  append_at topic event (err e) log = (err e, log)
  append_at topic event panic log = (panic, log)

  -- AppendEvent
  unfoldable pub append_event :
      Option ContextError → Str → Option Event → PebbleLog S → Result LogError Event × PebbleLog S
  append_event ctx topic none log =
      check_context ctx (λ e. (err e, log))
        (if is_empty topic then (err empty_topic, log) else (err nil_event, log))
  append_event ctx topic (some event) log =
      check_context ctx (λ e. (err e, log))
        (if is_empty topic
          then (err empty_topic, log)
          else if log.closed
          then (err log_closed, log)
          else append_at topic event (get_topic_end_offset_locked topic log) log)

  -- eventFromIteratorValue
  unfoldable pub event_from_iterator_value : Option Str → Result LogError Event
  event_from_iterator_value none = err storage
  event_from_iterator_value (some value) = is_err (unmarshal_stored_event codec value) encoding

  -- `events = append(events, event)` with what the loop reads after it.
  abbrev pub with_row :
      Result LogError Event → Result LogError (List Event) → Result LogError (List Event)
  with_row (ok event) rest = then_event event rest
  with_row (err e) rest = err e
  with_row panic rest = panic

  -- The loop of readEventsLocked. `cancels i` is the context at the i-th row.
  unfoldable pub read_loop :
      (ℕ → Option ContextError)
      → ℕ
      → ℕ
      → List (Str × Option Str)
      → Bool
      → Result LogError (List Event)
  read_loop cancels i max_count [] broken = if broken then err storage else ok []
  read_loop cancels i zero (row ∷ rows) broken = if broken then err storage else ok []
  read_loop cancels i (suc max_count) ((key, value) ∷ rows) broken =
      let rest = read_loop cancels (suc i) max_count rows broken in
      check_context (cancels i) err (with_row (event_from_iterator_value value) rest)

  -- newTopicIterator, set to a key.
  unfoldable pub topic_scan : Str → Str → PebbleLog S → Option Scan
  topic_scan topic seek log =
      store.scan (event_topic_prefix topic) (prefix_upper_bound (event_topic_prefix topic)) seek
        log.db

  -- The slice is made once there is an iterator.
  abbrev pub read_scan :
      ℕ → (ℕ → Option ContextError) → ℕ → Option Scan → Result LogError (List Event)
  read_scan max_capacity cancels max_count none = err storage
  read_scan max_capacity cancels max_count (some scan) =
      if ltb max_capacity max_count
      then panic
      else read_loop cancels 0 max_count scan.rows scan.broken

  -- readEventsLocked. `max_capacity` is the largest capacity for which `make` returns a slice of
  -- pointers; above it, `make` panics.
  unfoldable pub read_events_locked :
      ℕ → (ℕ → Option ContextError) → Str → ℕ → ℕ → PebbleLog S → Result LogError (List Event)
  read_events_locked max_capacity cancels topic start max_count log =
      read_scan max_capacity cancels max_count (topic_scan topic (event_key topic start) log)

  -- ReadEvents
  unfoldable pub read_events :
      ℕ
      → Option ContextError
      → (ℕ → Option ContextError)
      → Str
      → ℕ
      → ℕ
      → PebbleLog S
      → Result LogError (List Event)
  read_events max_capacity ctx cancels topic start max_count log = check_context ctx err (
      if is_empty topic
      then err empty_topic
      else if is_negative start
      then err negative_offset
      else if is_negative max_count
      then err negative_max_count
      else if log.closed
      then err log_closed
      else if max_count == 0
      then ok []
      else read_events_locked max_capacity cancels topic start max_count log)

  abbrev pub in_int64 : Result LogError ℕ → Result LogError ℕ
  in_int64 (ok offset) = if leb two63 offset then err offset_overflow else ok offset
  in_int64 (err e) = err e
  in_int64 panic = panic

  -- GetTopicEndOffset
  unfoldable pub get_topic_end_offset : Option ContextError → Str → PebbleLog S → Result LogError ℕ
  get_topic_end_offset ctx topic log = check_context ctx err (
      if is_empty topic
      then err empty_topic
      else if log.closed
      then err log_closed
      else in_int64 (get_topic_end_offset_locked topic log))

  abbrev pub send_row :
      Result LogError Event
      → Option ContextError
      → List Event × Option LogError
      → List Event × Option LogError
  send_row (ok event) cancel rest =
      check_context cancel (λ e. ([], some e)) (event ∷ rest.0, rest.1)
  send_row (err e) cancel rest = ([], some e)
  send_row panic cancel rest = rest

  -- The loop of ReplayEvents. `cancels i` is the context at the check of the i-th row, `sends i` at
  -- the `select` that sends its event.
  unfoldable pub replay_loop :
      (ℕ → Option ContextError)
      → (ℕ → Option ContextError)
      → ℕ
      → List (Str × Option Str)
      → Bool
      → List Event × Option LogError
  replay_loop cancels sends i [] broken = ([], if broken then some storage else none)
  replay_loop cancels sends i ((key, value) ∷ rows) broken =
      let rest = replay_loop cancels sends (suc i) rows broken in
      check_context (cancels i) (λ e. ([], some e))
        (send_row (event_from_iterator_value value) (sends i) rest)

  abbrev pub replay_scan :
      (ℕ → Option ContextError)
      → (ℕ → Option ContextError)
      → Option Scan
      → List Event × Option LogError
  replay_scan cancels sends none = ([], some storage)
  replay_scan cancels sends (some scan) = replay_loop cancels sends 0 scan.rows scan.broken

  -- ReplayEvents: what is sent on the two channels before they close.
  unfoldable pub replay_events :
      Option ContextError
      → (ℕ → Option ContextError)
      → (ℕ → Option ContextError)
      → Str
      → ℕ
      → PebbleLog S
      → List Event × Option LogError
  replay_events ctx cancels sends topic start log =
      check_context ctx (λ e. ([], some e))
        (if is_empty topic
          then ([], some empty_topic)
          else if is_negative start
          then ([], some negative_offset)
          else if log.closed
          then ([], some log_closed)
          else replay_scan cancels sends (topic_scan topic (event_key topic start) log))

  -- Compact, which does nothing to an open log.
  unfoldable pub compact : Option ContextError → PebbleLog S → Option LogError
  compact ctx log = check_context ctx some (if log.closed then some log_closed else none)

  abbrev pub topic_value : Option Str → Result LogError ℕ
  topic_value none = err storage
  topic_value (some value) = in_int64 (checked_offset value)

  -- One more topic in the counts, in front of the rest of the loop.
  abbrev pub counted :
      Str → Result LogError ℕ → (ℕ → Result LogError (ℕ × Map ℕ)) → Result LogError (ℕ × Map ℕ)
  counted topic (ok n) rest = rest n
  counted topic (err e) rest = err e
  counted topic panic rest = panic

  -- The loop of GetStatistics.
  unfoldable pub count_rows :
      (ℕ → Option ContextError)
      → ℕ
      → List (Str × Option Str)
      → Bool
      → ℕ
      → Map ℕ
      → Result LogError (ℕ × Map ℕ)
  count_rows cancels i [] broken total counts = if broken then err storage else ok (total, counts)
  count_rows cancels i ((key, value) ∷ rows) broken total counts =
      check_context (cancels i) err (elim (decode_offset_topic_key key) [
        | none ↦ count_rows cancels (suc i) rows broken total counts
        | some topic ↦
            counted topic (topic_value value)
              (λ n. count_rows cancels (suc i) rows broken (add64 total n) (insert topic n counts))
      ])

  abbrev pub statistics_of : Result LogError (ℕ × Map ℕ) → Result LogError Statistics
  statistics_of (ok (total, counts)) =
      ok (record { total_events = total; topic_counts = counts; topic_count = length counts })
  statistics_of (err e) = err e
  statistics_of panic = panic

  abbrev pub statistics_scan : (ℕ → Option ContextError) → Option Scan → Result LogError Statistics
  statistics_scan cancels none = err storage
  statistics_scan cancels (some scan) =
      statistics_of (count_rows cancels 0 scan.rows scan.broken 0 [])

  -- GetStatistics; `iter.First()` is a seek to the lower bound.
  unfoldable pub get_statistics :
      Option ContextError → (ℕ → Option ContextError) → PebbleLog S → Result LogError Statistics
  get_statistics ctx cancels log = check_context ctx err (
      if log.closed
      then err log_closed
      else statistics_scan cancels (
          store.scan (offset_key_prefix ∷ []) (some ((offset_key_prefix + 1) ∷ []))
            (offset_key_prefix ∷ []) log.db))

-- Close; what closing the store reports is passed on by the source.
unfoldable pub close : {S : Type 0} → PebbleLog S → PebbleLog S
close log = record log { closed = true }
