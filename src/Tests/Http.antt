-- ===== src/Tests/Http.antt =====
-- Samples for the HTTP API and the streaming client.
use eventmesh_go.Prelude.{
  ℕ, ◌<◌, ◌≤◌, ◌∷◌, ◌++◌, ◌≡◌, refl, ap, Str, codes, str_eq, Bool-cases, Option, none, some, List,
  [], length, take, drop, drop-append_self, Result, ok, arith, inl, inr, if◌then◌else◌,
}
use eventmesh_go.Prelude.Maps.{Map}
use eventmesh_go.EventLog.Event.{Event}
use eventmesh_go.Http.Cursor.{
  CursorJson, EventCursor, Envelope, IsFaithful, encode_sse_event_cursor, decode_sse_cursor,
  decode_sse_event_cursor,
}
use eventmesh_go.Http.Cursor.Roundtrip.{decode-encode_sse_event_cursor}
use eventmesh_go.Http.Events.{StreamError}
use eventmesh_go.Http.Replay.{
  LogReads, Writer, sse_replay_batch_size, replay_sse_cursor, validate_sse_replay_plan,
  topic_covered_by_subscriptions, max_sse_resume_replay_events, max_sse_resume_topics,
}
use eventmesh_go.Http.Replay.Sending.{Serves, always, owed, replay_sse_cursor_lem}
use eventmesh_go.Http.Replay.Plan.{validate_sse_replay_plan-bounds}

abbrev orders : Str
orders = codes "orders"

abbrev order : ℕ → Event
order n = record { offset = n; topic = orders; payload = n ∷ []; timestamp = 5; headers = [] }

-- Two orders, and nothing under any other topic.
abbrev two_orders : Str → List Event
two_orders topic = if str_eq topic orders then order 0 ∷ order 1 ∷ [] else []

abbrev sample_log : LogReads
sample_log = record {
  read_events = λ topic next max_count. ok (take max_count (drop next (two_orders topic)));
  get_topic_end_offset = λ topic. ok (length (two_orders topic));
}

two_orders-Serves : Serves sample_log two_orders
two_orders-Serves = record {
  read-eq = λ topic next named small. refl;
  end-eq = λ topic named. refl;
  numbered = λ topic. elim (Bool-cases (str_eq topic orders)) [
    | inl e ↦ rw e (refl, (refl, tt))
    | inr e ↦ rw e tt
  ];
  bounded = λ topic. elim (Bool-cases (str_eq topic orders)) [
    | inl e ↦ rw e (omega arith)
    | inr e ↦ rw e (omega arith)
  ];
}

abbrev payload_of : Event → Str
payload_of e = e.payload

abbrev payload_frame : Event → Result StreamError Str
payload_frame e = ok e.payload

payload_frame-eq : (e : Event) → payload_frame e ≡ ok (payload_of e)
payload_frame-eq e = refl

-- A cursor behind the first order.
abbrev seen_one : Map ℕ
seen_one = (orders, 0) ∷ []

abbrev idle_writer : Writer
idle_writer = record { frames = []; events_replayed = 0 }

at_most_two : (topic : Str) → length (two_orders topic) < 3
at_most_two topic = elim (Bool-cases (str_eq topic orders)) [
  | inl e ↦ rw e (omega arith)
  | inr e ↦ rw e (omega arith)
]

replay_sse_cursor_lem_example :
    (after : Writer) × (replay_sse_cursor payload_frame
        (always payload_frame payload_of payload_frame-eq)
        sample_log
        3
        seen_one
        (orders ∷ [])
        idle_writer
      ≡ some (none, after))
    × (after.frames ≡ (1 ∷ []) ∷ [])
unfolding topic_covered_by_subscriptions eventmesh_go.Http.Replay.matches_topic_pattern str_eq
replay_sse_cursor_lem_example =
    replay_sse_cursor_lem payload_frame payload_of payload_frame-eq sample_log two_orders
      two_orders-Serves 3 seen_one (orders ∷ []) idle_writer (refl, omega arith, tt) at_most_two

plan_accepted :
    validate_sse_replay_plan sample_log seen_one
      (orders ∷ [])
      max_sse_resume_replay_events
      max_sse_resume_topics
    ≡ none
unfolding validate_sse_replay_plan eventmesh_go.Http.Replay.plan_loop topic_covered_by_subscriptions
    eventmesh_go.Http.Replay.matches_topic_pattern str_eq
plan_accepted = refl

validate_sse_replay_plan-bounds_example :
    (length (
        owed payload_frame payload_of payload_frame-eq sample_log two_orders two_orders-Serves
          seen_one
          (orders ∷ []))
      ≤ max_sse_resume_replay_events)
    × (length seen_one ≤ max_sse_resume_topics)
validate_sse_replay_plan-bounds_example =
    validate_sse_replay_plan-bounds payload_frame payload_of payload_frame-eq sample_log two_orders
      two_orders-Serves seen_one (orders ∷ []) max_sse_resume_replay_events max_sse_resume_topics
      (refl, omega arith, tt) (λ topic. omega (arith, at_most_two topic)) plan_accepted

-- An encoding of event cursors for the samples; it encodes no other cursor.
abbrev read_cursor : Str → Option EventCursor
read_cursor (v ∷ o ∷ n ∷ s) =
    some (record { version = v; node_id = take n s; topic = drop n s; offset = o })
read_cursor [] = none
read_cursor (v ∷ []) = none
read_cursor (v ∷ o ∷ []) = none

abbrev as_envelope : Option EventCursor → Option Envelope
as_envelope none = none
as_envelope (some c) = some (record {
  version = c.version;
  node_id = c.node_id;
  topic = c.topic;
  offset = c.offset;
  topics = [];
})

abbrev write_cursor : EventCursor → Str
write_cursor c = c.version ∷ c.offset ∷ length c.node_id ∷ (c.node_id ++ c.topic)

abbrev sample_cursors : CursorJson
sample_cursors = record {
  marshal_event = λ c. some (write_cursor c);
  marshal_multi = λ c. none;
  unmarshal_envelope = λ s. as_envelope (read_cursor s);
  unmarshal_event = read_cursor;
  base64_encode = λ s. s;
  base64_decode = λ s. some s;
}

take_front : (s t : Str) → take (length s) (s ++ t) ≡ s
take_front [] t = refl
take_front (c ∷ s) t = ap (λ r. c ∷ r) (take_front s t)

read-write_cursor : (c : EventCursor) → read_cursor (write_cursor c) ≡ some c
read-write_cursor c =
    rw (take_front c.node_id c.topic) (rw (drop-append_self c.node_id c.topic) refl)

written :
    (c : EventCursor) (s : Str)
    → ◌≡◌ {A = Option Str} (some (write_cursor c)) (some s)
    → write_cursor c ≡ s
written c s e = cc e

sample_cursors-IsFaithful : IsFaithful sample_cursors
sample_cursors-IsFaithful = record {
  Utf8 = λ s. Unit;
  base64_decode-encode = λ s. refl;
  is_empty-base64_encode = λ s. refl;
  marshal_event-not_empty = λ c s e. rw (← written c s e) refl;
  marshal_multi-not_empty = λ c s e. absurd (cc e);
  unmarshal_envelope-event =
      λ c s u v e. rw (← written c s e) (ap as_envelope (read-write_cursor c));
  unmarshal_event-event = λ c s u v e. rw (← written c s e) (read-write_cursor c);
  unmarshal_envelope-multi = λ c s u v e. absurd (cc e);
}

abbrev sample_cursor : EventCursor
sample_cursor = record { version = 1; node_id = codes "n1"; topic = orders; offset = 7 }

decode-encode_sse_event_cursor_example :
    (decode_sse_cursor sample_cursors (write_cursor sample_cursor)
      ≡ ok (record { version = 1; node_id = codes "n1"; topics = (orders, 7) ∷ [] }))
    × (decode_sse_event_cursor sample_cursors (write_cursor sample_cursor) ≡ ok sample_cursor)
unfolding encode_sse_event_cursor sample_cursors-IsFaithful
    eventmesh_go.Http.Cursor.encode_sse_cursor
decode-encode_sse_event_cursor_example =
    decode-encode_sse_event_cursor sample_cursors sample_cursors-IsFaithful (codes "n1") orders
      (write_cursor sample_cursor) 7 refl refl (omega arith) tt tt refl
