-- ===== src/Tests/Streams.antt =====
-- Runs of the event streams, and the hypotheses of their theorems at concrete values.
use eventmesh_go.Prelude.{
  ℕ, ◌≤◌, ◌<◌, Str, codes, Bool, true, false, Option, none, some, List, [], ◌∷◌, ◌++◌, ◌≡◌, refl,
  length, ltb, arith, Result, ok, if◌then◌else◌, str_eq, ◌&&◌,
}
use eventmesh_go.Prelude.Maps.{Map, lookup}
use eventmesh_go.Routing.Table.{Subscriber, local_client}
use eventmesh_go.Routing.Table.Entries.{subscriber_at}
use eventmesh_go.EventLog.Event.{Event}
use eventmesh_go.Http.Events.{StreamError}
use eventmesh_go.Http.Requests.{SubscriptionInfo}
use eventmesh_go.Http.Replay.{Writer}
use eventmesh_go.Http.Streams.{
  HttpClient, new_http_client, as_subscriber, register_sse_client, unregister_sse_client,
  StreamSignal, context_done, ticked, event_taken, delivered, stream_with_keepalive,
}
use eventmesh_go.Http.Streams.Registration.{open_table, holds_topic, topics_of, register-unregister}
use eventmesh_go.Http.Streams.Forwarding.{Forwarded, stream_with_keepalive-Forwarded}

abbrev orders : Str
orders = codes "orders"

abbrev alice : HttpClient
alice =
    new_http_client (codes "a1") 5
      (record { client_id = codes "alice"; is_admin = false; issued_at = 1; expires_at = 9 })

abbrev listed : Str → SubscriptionInfo
listed topic = record { id = codes "s"; topic = topic; client_id = codes "alice"; created_at = 2 }

-- Two subscriptions to one topic.
abbrev twice : List SubscriptionInfo
twice = listed orders ∷ listed orders ∷ []

-- Alice's own subscription stands in the table before the stream.
abbrev before : Map (Map Subscriber)
before = (orders, (codes "alice", as_subscriber alice) ∷ []) ∷ []

-- The stream has one topic, and takes Alice's own entry along when it ends.
one_topic : (register_sse_client alice twice (open_table before)).0 ≡ ok (orders ∷ [])
unfolding register_sse_client eventmesh_go.Http.Streams.register_loop lookup
    eventmesh_go.Prelude.Maps.insert str_eq eventmesh_go.Routing.Table.subscribe
    eventmesh_go.Routing.Table.add_subscriber
one_topic = refl

entry_taken_along : unregister_sse_client alice (orders ∷ []) (open_table before) ≡ open_table []
unfolding unregister_sse_client eventmesh_go.Prelude.Maps.delete lookup str_eq
    eventmesh_go.Routing.Table.unsubscribe eventmesh_go.Routing.Table.remove_subscriber
entry_taken_along = refl

register-unregister_example :
    (topics : List Str) × (streaming : Map (Map Subscriber)) × (register_sse_client alice twice
        (open_table before)
      ≡ (ok topics, open_table streaming))
    × ((t id : Str)
        → subscriber_at streaming t id ≡ (
            if str_eq (codes "alice") id && holds_topic t (topics_of twice)
            then some (as_subscriber alice)
            else subscriber_at before t id))
    × ((t id : Str)
        → subscriber_at
            (unregister_sse_client alice topics (open_table streaming)).subscriptions
            t
            id
          ≡ (if str_eq (codes "alice") id && holds_topic t (topics_of twice)
              then none
              else subscriber_at before t id))
register-unregister_example = register-unregister alice twice before (refl, (refl, tt))

abbrev order : ℕ → Event
order n = record { offset = n; topic = orders; payload = n ∷ []; timestamp = 5; headers = [] }

abbrev payload_of : Event → Str
payload_of e = e.payload

abbrev payload_frame : Event → Result StreamError Str
payload_frame e = ok e.payload

payload_frame-eq : (e : Event) → payload_frame e ≡ ok (payload_of e)
payload_frame-eq e = refl

-- A connection that takes two frames.
abbrev two_fit : ℕ → Bool
two_fit n = ltb n 2

abbrev idle_writer : Writer
idle_writer = record { frames = []; events_replayed = 0 }

-- The second event is lost with the connection.
abbrev course : List StreamSignal
course =
    delivered (some (order 0))
    ∷ delivered none
    ∷ event_taken
    ∷ ticked
    ∷ delivered (some (order 1))
    ∷ delivered (some (order 2))
    ∷ event_taken
    ∷ context_done
    ∷ []

course_end : stream_with_keepalive payload_frame two_fit course alice idle_writer ≡ (
  record alice { event_chan = order 2 ∷ [] },
  record { frames = (0 ∷ []) ∷ codes ": ping\n\n" ∷ []; events_replayed = 0 },
)
unfolding stream_with_keepalive eventmesh_go.Http.Streams.deliver_event
course_end = refl

stream_with_keepalive-Forwarded_example :
    Forwarded payload_frame two_fit payload_of payload_frame-eq course alice idle_writer
      (stream_with_keepalive payload_frame two_fit course alice idle_writer)
stream_with_keepalive-Forwarded_example =
    stream_with_keepalive-Forwarded payload_frame two_fit payload_of payload_frame-eq course alice
      idle_writer (omega arith)
