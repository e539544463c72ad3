-- ===== src/Http/Streams.antt =====
-- internal/httpapi/handlers.go: the client of an event stream with its channel, its entries in the
-- routing table, and the loop that forwards its events. Logging is left out, so an entry that cannot
-- be removed is passed over in silence.
pub mod Registration
pub mod Forwarding
use eventmesh_go.Prelude.{
  ℕ, Str, codes, Bool, true, false, Option, none, some, is_some, List, [], ◌∷◌, ◌++◌, length, ltb,
  if◌then◌else◌, Result, ok, err,
}
use eventmesh_go.Prelude.Maps.{Map, lookup, insert}
use eventmesh_go.Routing.Table.{
  Subscriber, TableError, RoutingTable, local_client, subscribe, unsubscribe,
}
use eventmesh_go.EventLog.Event.{Event}
use eventmesh_go.Http.Events.{StreamError}
use eventmesh_go.Http.Requests.{Claims, SubscriptionInfo}
use eventmesh_go.Http.Replay.{ReplayError, Writer, write_frame}

-- HTTPClient; the channel is the events that wait in it.
pub record HttpClient : Type 0 where
  pub object : Str
  pub client_id : Str
  pub is_authenticated : Bool
  pub connected_at : ℕ
  pub event_chan : List Event

-- The capacity of the channel.
abbrev pub event_chan_capacity : ℕ
event_chan_capacity = 100

-- NewHTTPClient, at the time `now`, as the object that it allocates
abbrev pub new_http_client : Str → ℕ → Claims → HttpClient
new_http_client object now claims = record {
  object = object;
  client_id = claims.client_id;
  is_authenticated = true;
  connected_at = now;
  event_chan = [];
}

-- What the routing table asks of the client: ID and Type.
abbrev pub as_subscriber : HttpClient → Subscriber
as_subscriber c = record { object = c.object; id = c.client_id; kind = local_client }

pub data DeliveryError : Type 0 where
  nil_event channel_full : DeliveryError

-- DeliverEvent
unfoldable pub deliver_event : Option Event → HttpClient → Option DeliveryError × HttpClient
deliver_event none c = (some nil_event, c)
deliver_event (some event) c =
    if ltb (length c.event_chan) event_chan_capacity
    then (none, record c { event_chan = c.event_chan ++ event ∷ [] })
    else (some channel_full, c)

abbrev pub after_subscribe :
    Str
    → Option TableError × RoutingTable
    → (RoutingTable → Result (Str × TableError) (List Str) × RoutingTable)
    → Result (Str × TableError) (List Str) × RoutingTable
after_subscribe topic (some e, rt) rest = (err (topic, e), rt)
after_subscribe topic (none, rt) rest = rest rt

-- The loop of registerSSEClient, with the topics that it has seen.
unfoldable pub register_loop :
    HttpClient
    → List SubscriptionInfo
    → Map (Unit {0})
    → List Str
    → RoutingTable
    → Result (Str × TableError) (List Str) × RoutingTable
register_loop c [] seen topics rt = (ok topics, rt)
register_loop c (s ∷ rest) seen topics rt = elim (is_some (lookup s.topic seen)) [
  | true ↦ register_loop c rest seen topics rt
  | false ↦
      after_subscribe s.topic (subscribe s.topic (some (as_subscriber c)) rt)
        (register_loop c rest (insert s.topic tt seen) (topics ++ s.topic ∷ []))
]

-- registerSSEClient: the topics, or the topic that was refused; the table keeps the entries before it.
unfoldable pub register_sse_client :
    HttpClient
    → List SubscriptionInfo
    → RoutingTable
    → Result (Str × TableError) (List Str) × RoutingTable
register_sse_client c subscriptions rt = register_loop c subscriptions [] [] rt

-- unregisterSSEClient
unfoldable pub unregister_sse_client : HttpClient → List Str → RoutingTable → RoutingTable
unregister_sse_client c [] rt = rt
unregister_sse_client c (topic ∷ topics) rt =
    unregister_sse_client c topics (unsubscribe topic c.client_id rt).1

-- What happens at a stream: the request ends, the ticker fires, the loop takes an event from the
-- channel, or the mesh node delivers one. The channel is never closed.
pub data StreamSignal : Type 0 where
  context_done ticked event_taken : StreamSignal
  delivered : Option Event → StreamSignal

module _ (frame_of : Event → Result StreamError Str) (write_ok : ℕ → Bool) where
  abbrev pub after_write :
      Option ReplayError × Writer
      → HttpClient
      → (HttpClient → Writer → HttpClient × Writer)
      → HttpClient × Writer
  after_write (some e, w) c rest = (c, w)
  after_write (none, w) c rest = rest c w

  -- streamWithKeepalive, on what happens in its course; an empty channel has no event to take.
  unfoldable pub stream_with_keepalive :
      List StreamSignal → HttpClient → Writer → HttpClient × Writer
  stream_with_keepalive [] c w = (c, w)
  stream_with_keepalive (context_done ∷ signals) c w = (c, w)
  stream_with_keepalive (ticked ∷ signals) c w =
      after_write (write_frame write_ok (ok (codes ": ping\n\n")) w) c
        (stream_with_keepalive signals)
  stream_with_keepalive (delivered event ∷ signals) c w =
      stream_with_keepalive signals (deliver_event event c).1 w
  stream_with_keepalive (event_taken ∷ signals) c w = elim c.event_chan [
    | [] ↦ stream_with_keepalive signals c w
    | event ∷ events ↦
        after_write (write_frame write_ok (frame_of event) w) (record c { event_chan = events })
          (stream_with_keepalive signals)
  ]
