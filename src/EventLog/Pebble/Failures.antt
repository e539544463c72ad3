-- ===== src/EventLog/Pebble/Failures.antt =====
-- The error paths of the Pebble log: what a failed append leaves behind, offsets past the largest
-- int64, reads larger than `make` accepts, and the log after Close.
use eventmesh_go.Prelude.{
  ℕ, ◌<◌, ◌≤◌, Str, is_empty, true, false, Bool-cases, Option, none, some, [], ◌≡◌, refl, ap, ok,
  err, panic, Result, ContextError, arith, inl, inr, ◌⊎◌, sym, ◌∙◌, ◌∷◌, leb, lt→ltb, if◌then◌else◌,
  Bool, le→leb, ◌==◌,
}
use eventmesh_go.Prelude.Words.{two63, add64, not_negative}
use eventmesh_go.EventLog.Event.{
  Event, LogError, storage, with_offset, log_closed, empty_topic, offset_overflow,
}
use eventmesh_go.EventLog.Keys.{event_key, offset_key, encode_offset}
use eventmesh_go.EventLog.Store.{KvStore, Scan}
use eventmesh_go.EventLog.Storage.{Codec, marshal_stored_event}
use eventmesh_go.EventLog.Pebble.{
  PebbleLog, append_event, append_at, write_event, committed, read_events, read_events_locked,
  topic_scan, get_topic_end_offset, get_topic_end_offset_locked, replay_events, compact,
  get_statistics, close,
}

module _ {S : Type 0} (store : KvStore S) (codec : Codec) where
  -- The batch of an append of this event failed to commit: the log is as it was, but for what the
  -- commit made of the store. The batch holds the event at the end offset and the next end offset.
  pub record CommitFailed (topic : Str) (event : Event) (e : LogError) (log log2 : PebbleLog S)
      : Type 0 where
    pub next : ℕ
    pub encoded : Str
    pub at_end : get_topic_end_offset_locked store codec topic log ≡ ok next
    pub encodes : marshal_stored_event codec (with_offset next event) ≡ some encoded
    pub refused :
        store.commit
          ((event_key topic next, encoded) ∷ (offset_key topic, encode_offset (add64 next 1)) ∷ [])
          log.db
        ≡ (false, log2.db)
    pub still : log2.closed ≡ log.closed
    pub reported : e ≡ storage

  abbrev pub Left : Str → Option Event → LogError → PebbleLog S → PebbleLog S → Type 0
  Left topic event e log log2 =
      (log2 ≡ log) ⊎ ((x : Event) × (event ≡ some x) × CommitFailed topic x e log log2)

  the_error :
      {a b : LogError} {x y : PebbleLog S}
      → ◌≡◌ {A = Result LogError Event × PebbleLog S} (err a, x) (err b, y)
      → (b ≡ a) × (y ≡ x)
  the_error h = (cc h, cc h)

  committed-err :
      (e : LogError) (event stored : Event) (topic : Str) (next : ℕ) (encoded : Str)
      (outcome : Bool × S) (log log2 : PebbleLog S)
      → get_topic_end_offset_locked store codec topic log ≡ ok next
      → marshal_stored_event codec (with_offset next event) ≡ some encoded
      → store.commit
          ((event_key topic next, encoded) ∷ (offset_key topic, encode_offset (add64 next 1)) ∷ [])
          log.db
        ≡ outcome
      → committed store codec stored outcome log ≡ (err e, log2)
      → CommitFailed topic event e log log2
  committed-err e event stored topic next encoded (false, db) log log2 at_end encodes done h =
      let (same, after) = the_error h in
      record {
        next = next;
        encoded = encoded;
        at_end = at_end;
        encodes = encodes;
        refused = done ∙ ap (λ (l : PebbleLog S). (false, l.db)) (sym after);
        still = ap (λ (l : PebbleLog S). l.closed) after;
        reported = same;
      }
  committed-err e event stored topic next encoded (true, db) log log2 at_end encodes done h =
      absurd (cc (ap (λ (p : Result LogError Event × PebbleLog S). p.0) h))

  write_event-err :
      (e : LogError) (topic : Str) (next : ℕ) (event : Event) (encoded : Option Str)
      (log log2 : PebbleLog S)
      → get_topic_end_offset_locked store codec topic log ≡ ok next
      → marshal_stored_event codec (with_offset next event) ≡ encoded
      → write_event store codec topic next (with_offset next event) encoded log ≡ (err e, log2)
      → Left topic (some event) e log log2
  write_event-err e topic next event none log log2 at_end encodes h = inl (the_error h).1
  write_event-err e topic next event (some encoded) log log2 at_end encodes h = inr (
    event,
    refl,
    committed-err e event (with_offset next event) topic next encoded _ log log2 at_end encodes refl
        h,
  )

  append_at-err :
      (e : LogError) (topic : Str) (event : Event) (end : Result LogError ℕ)
      (log log2 : PebbleLog S)
      → get_topic_end_offset_locked store codec topic log ≡ end
      → append_at store codec topic event end log ≡ (err e, log2)
      → Left topic (some event) e log log2
  append_at-err e topic event (ok next) log log2 at_end h = elim (Bool-cases (leb two63 next)) [
    | inl over ↦ inl (the_error (rw over at h)).1
    | inr under ↦ write_event-err e topic next event _ log log2 at_end refl (rw under at h)
  ]
  append_at-err e topic event (err e2) log log2 at_end h = inl (the_error h).1
  append_at-err e topic event panic log log2 at_end h =
      absurd (cc (ap (λ (p : Result LogError Event × PebbleLog S). p.0) h))

  -- A guard that returns an error leaves the log to what follows it.
  guard-err :
      (guard : Bool) (e1 e : LogError) (topic : Str) (event : Option Event)
      (rest : Result LogError Event × PebbleLog S) (log log2 : PebbleLog S)
      → (if guard then (err e1, log) else rest) ≡ (err e, log2)
      → (rest ≡ (err e, log2) → Left topic event e log log2)
      → Left topic event e log log2
  guard-err true e1 e topic event rest log log2 h next = inl (the_error h).1
  guard-err false e1 e topic event rest log log2 h next = next h

  -- An append that returns an error leaves the store and the log as they are, whatever the store and
  -- the codec do, unless the commit of its batch failed. Then the batch was that of the event at the
  -- end offset of the topic, with the next end offset, and the store is what the commit left.
  pub append_event-err :
      (e : LogError) (ctx : Option ContextError) (topic : Str) (event : Option Event)
      (log log2 : PebbleLog S)
      → append_event store codec ctx topic event log ≡ (err e, log2)
      → Left topic event e log log2
  unfolding append_event
  append_event-err e (some reason) topic none log log2 h = inl (the_error h).1
  append_event-err e (some reason) topic (some event) log log2 h = inl (the_error h).1
  append_event-err e none topic none log log2 h =
      guard-err (is_empty topic) empty_topic e topic none _ log log2 h
        (λ named. inl (the_error named).1)
  append_event-err e none topic (some event) log log2 h =
      guard-err (is_empty topic) empty_topic e topic (some event) _ log log2 h (λ named.
        guard-err log.closed log_closed e topic (some event) _ log log2 named
          (λ appended. append_at-err e topic event _ log log2 refl appended))

  -- At an end offset past the largest int64 both the append and the question for the end offset
  -- fail with the overflow error, and nothing is written.
  pub overflow_stops :
      (topic : Str) (event : Event) (next : ℕ) (log : PebbleLog S)
      → is_empty topic ≡ false
      → log.closed ≡ false
      → get_topic_end_offset_locked store codec topic log ≡ ok next
      → two63 ≤ next
      → (append_event store codec none topic (some event) log ≡ (err offset_overflow, log))
        × (get_topic_end_offset store codec none topic log ≡ err offset_overflow)
  unfolding append_event get_topic_end_offset
  overflow_stops topic event next log named still at over =
      simp (named, still) (rw (at) (rw (le→leb two63 next over) (refl, refl)))

  -- A read of more events than `make` accepts a capacity for panics, however few the topic has. The
  -- log is open, the topic is named and the store hands out an iterator.
  pub read_events_too_large :
      (max_capacity : ℕ) (cancels : ℕ → Option ContextError) (topic : Str) (start max_count : ℕ)
      (log : PebbleLog S) (scan : Scan)
      → is_empty topic ≡ false
      → log.closed ≡ false
      → start < two63
      → max_count < two63
      → max_capacity < max_count
      → topic_scan store codec topic (event_key topic start) log ≡ some scan
      → read_events store codec max_capacity none cancels topic start max_count log ≡ panic
  unfolding read_events read_events_locked
  read_events_too_large max_capacity cancels topic start max_count log scan named still hs hm over
        found =
      let wanted : (max_count == 0) ≡ false = ground arith in
      simp (named, still, not_negative start hs, not_negative max_count hm, wanted)
        (rw found (rw (lt→ltb max_capacity max_count over)))

  -- Once a log is closed no operation returns a value. The context is live, the topic is named and
  -- the numbers are not negative.
  pub close-stops_pebble :
      (max_capacity : ℕ) (cancels sends : ℕ → Option ContextError) (topic : Str) (event : Event)
      (start max_count : ℕ) (log : PebbleLog S)
      → start < two63
      → max_count < two63
      → is_empty topic ≡ false
      → (append_event store codec none topic (some event) (close log) ≡ (err log_closed, close log))
        × (read_events store codec max_capacity none cancels topic start max_count (close log)
            ≡ err log_closed)
        × (get_topic_end_offset store codec none topic (close log) ≡ err log_closed)
        × (replay_events store codec none cancels sends topic start (close log)
            ≡ ([], some log_closed))
        × (compact store codec none (close log) ≡ some log_closed)
        × (get_statistics store codec none cancels (close log) ≡ err log_closed)
  unfolding append_event read_events get_topic_end_offset replay_events compact get_statistics close
  close-stops_pebble max_capacity cancels sends topic event start max_count log hs hm named =
      simp (named, not_negative start hs, not_negative max_count hm)
        (refl, refl, refl, refl, refl, refl)
