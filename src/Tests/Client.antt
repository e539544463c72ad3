-- ===== src/Tests/Client.antt =====
-- Samples for the streaming client.
use eventmesh_go.Prelude.{
  ℕ, ◌<◌, ◌∷◌, ◌≡◌, refl, Str, codes, str_eq, true, false, Bool-cases, Option, none, some, List, [],
  ok, arith, inl, inr,
}
use eventmesh_go.Prelude.Words.{two63}
use eventmesh_go.Prelude.Maps.{lookup, insert}
use eventmesh_go.Http.Cursor.{CursorJson, EventCursor}
use eventmesh_go.Http.Events.{StreamMessage, MessageJson, text, message_frame, sse_frame}
use eventmesh_go.Http.Requests.{SubscriptionInfo}
use eventmesh_go.Client.{
  StreamConfig, StreamState, Resume, record_cursor, take_event, process_sse_stream,
  record_resume_event_id, unique_stream_topics,
}
use eventmesh_go.Client.Offsets.{AtLeast, record_cursor-grows, take_event-dropped}
use eventmesh_go.Client.Frames.{scan_lines, process-message_frame}
use eventmesh_go.Client.Streaming.{Server, ensure_stream_subscriptions}
use eventmesh_go.Client.Reconnect.{Round}

abbrev orders : Str
orders = codes "orders"

abbrev cursor : ℕ → EventCursor
cursor n = record { version = 1; node_id = codes "n1"; topic = orders; offset = n }

-- Behind the third order.
abbrev behind_three : Resume
behind_three = record { node_id = codes "n1"; offsets = (orders, 3) ∷ [] }

behind_three-InRange : (t : Str) (n : ℕ) → lookup t behind_three.offsets ≡ some n → n < two63
unfolding lookup
behind_three-InRange t n h = elim (Bool-cases (str_eq orders t)) [
  | inl e ↦ omega (arith, number (rw e at h))
  | inr e ↦ absurd (cc (rw e at h))
]
  where
    number : ◌≡◌ {A = Option ℕ} (some 3) (some n) → ◌≡◌ {A = ℕ} 3 n
    number e = cc e

record_cursor-grows_example :
    AtLeast 7 (lookup orders (record_cursor (cursor 7) behind_three).offsets)
    × ((t : Str) (n : ℕ)
        → lookup t behind_three.offsets ≡ some n
        → AtLeast n (lookup t (record_cursor (cursor 7) behind_three).offsets))
unfolding str_eq
record_cursor-grows_example =
    record_cursor-grows (cursor 7) behind_three refl (omega arith) behind_three-InRange

abbrev message : StreamMessage Unit
message = record {
  event_id = codes "id7";
  topic = orders;
  payload = text (codes "paid");
  timestamp = 5;
  offset = 7;
}

-- One message and one cursor are all that the sample encoding knows.
abbrev sample_json : MessageJson Unit
sample_json = record {
  cursors = record {
    marshal_event = λ c. none;
    marshal_multi = λ c. none;
    unmarshal_envelope = λ s. none;
    unmarshal_event = λ s. some (cursor 7);
    base64_encode = λ s. s;
    base64_decode = λ s. some s;
  };
  unmarshal_payload = λ s. none;
  marshal_message = λ m. some (codes "{}");
  unmarshal_message = λ s. some message;
}

abbrev config : StreamConfig
config = record { topics = []; buffer_size = 1; reconnect_delay = 5; max_reconnect_attempts = 2 }

abbrev waiting : StreamState Unit
waiting = record { current_event_id = []; resume = behind_three; events = []; parse_errors = 0 }

abbrev full : StreamState Unit
full = record waiting { events = message ∷ [] }

take_event-dropped_example :
    ((take_event sample_json config (some message) full).events ≡ message ∷ [])
    × AtLeast 7 (lookup orders (take_event sample_json config (some message) full).resume.offsets)
unfolding str_eq eventmesh_go.Http.Cursor.decode_sse_event_cursor
    eventmesh_go.Http.Cursor.check_event_cursor
take_event-dropped_example =
    take_event-dropped sample_json config message (cursor 7) full refl refl refl refl refl
      (omega arith) behind_three-InRange

process-message_frame_example :
    process_sse_stream sample_json config
      (scan_lines (sse_frame (codes "id7") (codes "{}")))
      waiting
    ≡ record waiting {
      events = message ∷ [];
      resume = record_resume_event_id sample_json.cursors (codes "id7") behind_three;
    }
unfolding message_frame
process-message_frame_example =
    process-message_frame sample_json config message (codes "{}")
      (sse_frame (codes "id7") (codes "{}")) waiting refl refl (refl, refl, (refl, refl, tt))
      (refl, refl, (refl, refl, (refl, refl, tt))) (refl, (refl, (refl, tt))) refl refl refl
      (omega arith) (omega arith) (omega arith)

-- A server with a list of subscriptions, which it numbers.
abbrev subscription : Str → SubscriptionInfo
subscription topic = record { id = codes "s"; topic = topic; client_id = codes "c"; created_at = 1 }

abbrev listing : Server (List SubscriptionInfo)
listing = record {
  list_subscriptions = λ s. some s;
  create_subscription = λ topic s. (some (subscription topic), subscription topic ∷ s);
}

ensured :
    ensure_stream_subscriptions listing (codes " orders " ∷ []) []
    ≡ (ok ((orders, codes "s") ∷ []), subscription orders ∷ [])
unfolding ensure_stream_subscriptions eventmesh_go.Client.Streaming.ensure_loop unique_stream_topics
    eventmesh_go.Client.unique_loop eventmesh_go.Client.trim_right eventmesh_go.Client.trim_left
    eventmesh_go.Client.all_space eventmesh_go.Client.Streaming.ensure_stream_subscription insert
ensured = refl

-- Rounds that never meet a cancelled context and never connect.
abbrev failing : ℕ → Round
failing n = record {
  done_at_start = false;
  ensured = none;
  done_ensuring = false;
  connect_failed = true;
  done_connected = false;
  limit_reported = true;
  done_waiting = false;
}
