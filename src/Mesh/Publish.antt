-- ===== src/Mesh/Publish.antt =====
-- internal/meshnode/client.go and node_publish.go: how an event is published. A subscriber of
-- the routing table refers to an object; the clients are the objects that are TrustedClients, and any
-- other object is taken to have no DeliverEvent. The peer links are an interface: pkg/peerlink's SendEvent and GetConnectedPeers.
pub mod Outcome
pub mod Sent
pub mod Success
pub mod Forwarding
use eventmesh_go.Prelude.{
  ℕ, suc, ◌+◌, Str, Bool, true, false, not, ◌||◌, Option, none, some, List, [], ◌∷◌, ◌++◌, length,
  if◌then◌else◌, ltb, leb, Result, ok, err, panic, ContextError,
}
use eventmesh_go.Prelude.Maps.{Map, lookup, insert}
use eventmesh_go.EventLog.Event.{Event, copy, LogError}
use eventmesh_go.EventLog.Memory.{MemoryLog, append_event}
use eventmesh_go.Peer.Link.{PeerNode}
use eventmesh_go.Routing.Table.{
  Subscriber, SubscriberType, local_client, peer_node, RoutingTable, get_subscribers,
}
use eventmesh_go.Mesh.Interest.{PeerInterest, get_interested_peers}

-- TrustedClient, without the time of its connection.
pub record TrustedClient : Type 0 where
  pub id : Str
  pub event_chan : List Event
  pub event_buffer : List Event

-- The capacity of eventChan.
abbrev pub channel_capacity : ℕ
channel_capacity = 100

-- NewTrustedClient
abbrev pub new_trusted_client : Str → TrustedClient
new_trusted_client id = record { id = id; event_chan = []; event_buffer = [] }

-- DeliverEvent of an event that is not nil: whether it was sent, and the client after it.
unfoldable pub deliver_event : Event → TrustedClient → Bool × TrustedClient
deliver_event e c =
    let buffered = record c { event_buffer = c.event_buffer ++ copy e ∷ [] } in
    if ltb (length c.event_chan) channel_capacity
    then (true, record buffered { event_chan = c.event_chan ++ copy e ∷ [] })
    else (false, buffered)

-- What DeliveryResult.Errors can hold.
pub data DeliveryError : Type 0 where
  no_subscribers no_peers : DeliveryError
  context_done : ContextError → DeliveryError
  channel_full no_deliver_event send_failed : Str → DeliveryError

-- DeliveryResult
pub record DeliveryResult : Type 0 where
  pub local_successes : ℕ
  pub local_failures : ℕ
  pub peer_successes : ℕ
  pub peer_failures : ℕ
  pub errors : List DeliveryError

abbrev pub no_deliveries : DeliveryResult
no_deliveries = record {
  local_successes = 0;
  local_failures = 0;
  peer_successes = 0;
  peer_failures = 0;
  errors = [];
}

-- HasFailures
abbrev pub has_failures : DeliveryResult → Bool
has_failures r = ltb 0 r.local_failures || ltb 0 r.peer_failures

-- TotalAttempts
abbrev pub total_attempts : DeliveryResult → ℕ
total_attempts r = r.local_successes + r.local_failures + r.peer_successes + r.peer_failures

abbrev pub local_failure : DeliveryError → DeliveryResult → DeliveryResult
local_failure e r = record r { local_failures = suc r.local_failures; errors = r.errors ++ e ∷ [] }

abbrev pub add_error : DeliveryError → DeliveryResult → DeliveryResult
add_error e r = record r { errors = r.errors ++ e ∷ [] }

-- What a context answers at each place that asks it, in the order of the code.
pub record Cancellation : Type 0 where
  pub at_append : Option ContextError
  pub at_subscriber : ℕ → Option ContextError
  pub after_local : Option ContextError
  pub at_peer : ℕ → Option ContextError
  pub after_peers : Option ContextError

-- The count of one delivery, by whether it was sent.
abbrev pub count_delivery : Bool → Str → DeliveryResult → DeliveryResult
count_delivery true id r = record r { local_successes = suc r.local_successes }
count_delivery false id r = local_failure (channel_full id) r

-- The body of the loop of deliverToLocalSubscribers, for an object that has DeliverEvent or not.
abbrev pub deliver_found :
    Option TrustedClient
    → Str
    → Str
    → Event
    → DeliveryResult
    → Map TrustedClient
    → DeliveryResult × Map TrustedClient
deliver_found none id object e r clients = (local_failure (no_deliver_event id) r, clients)
deliver_found (some c) id object e r clients =
    (count_delivery (deliver_event e c).0 id r, insert object (deliver_event e c).1 clients)

abbrev pub deliver_to :
    Subscriber → Event → DeliveryResult → Map TrustedClient → DeliveryResult × Map TrustedClient
deliver_to s e r clients = elim s.kind [
  | local_client ↦ deliver_found (lookup s.object clients) s.id s.object e r clients
  | peer_node ↦ (r, clients)
]

-- The loop, which asks the context before the i-th subscriber.
unfoldable pub deliver_loop :
    (ℕ → Option ContextError)
    → ℕ
    → Event
    → List Subscriber
    → DeliveryResult
    → Map TrustedClient
    → DeliveryResult × Map TrustedClient
deliver_loop ctx i e [] r clients = (r, clients)
deliver_loop ctx i e (s ∷ rest) r clients = elim (ctx i) [
  | some why ↦ (add_error (context_done why) r, clients)
  | none ↦
      let (r', clients') = deliver_to s e r clients in deliver_loop ctx (suc i) e rest r' clients'
]

-- deliverToLocalSubscribers
unfoldable pub deliver_to_local_subscribers :
    (ℕ → Option ContextError)
    → Event
    → RoutingTable
    → Map TrustedClient
    → DeliveryResult × Map TrustedClient
deliver_to_local_subscribers ctx e table clients = elim (get_subscribers e.topic table) [
  | ok subscribers ↦ deliver_loop ctx 0 e subscribers no_deliveries clients
  | err why ↦ (add_error no_subscribers no_deliveries, clients)
  | panic ↦ (no_deliveries, clients)
]

-- What the node calls of its peer links: none and false are errors.
pub record PeerLinks (S : Type 0) : Type 0 where
  pub get_connected_peers : S → Option (List PeerNode)
  pub send_event : Str → Event → S → Bool × S

abbrev pub peer_sent : Str → Bool → DeliveryResult → DeliveryResult
peer_sent id true r = record r { peer_successes = suc r.peer_successes }
peer_sent id false r = record r {
  peer_failures = suc r.peer_failures;
  errors = r.errors ++ send_failed id ∷ [];
}

-- What can make PublishEventWithResult fail.
pub data PublishError : Type 0 where
  node_closed node_stopped nil_client nil_event not_authenticated payload_too_large : PublishError
  not_persisted : LogError → PublishError
  publish_context : ContextError → PublishError
  partial_failure : DeliveryResult → PublishError

-- A client, by what IsAuthenticated returns.
pub record Publisher : Type 0 where
  pub is_authenticated : Bool

-- MaxEventPayloadSize
abbrev pub max_event_payload_size : ℕ
max_event_payload_size = 1048576

-- GRPCMeshNode, as far as publishing uses it.
pub record MeshNode (S : Type 0) : Type 0 where
  pub started : Bool
  pub closed : Bool
  pub event_log : MemoryLog
  pub routing_table : RoutingTable
  pub clients : Map TrustedClient
  pub interest : PeerInterest
  pub links : S

-- validatePublishRequest
unfoldable pub validate_publish_request :
    {S : Type 0} → Option Publisher → Option Event → MeshNode S → Option PublishError
validate_publish_request client event n =
    if n.closed
    then some node_closed
    else if not n.started
    then some node_stopped
    else elim client [
      | none ↦ some nil_client
      | some c ↦ elim event [
        | none ↦ some nil_event
        | some e ↦
            if not c.is_authenticated
            then some not_authenticated
            else if ltb max_event_payload_size (length e.payload)
            then some payload_too_large
            else none
      ]
    ]

-- The end of PublishEventWithResult, once peers were sent to.
unfoldable pub conclude : Option ContextError → DeliveryResult → Event → Result PublishError Event
conclude (some why) r e = err (publish_context why)
conclude none r e = if has_failures r then err (partial_failure r) else ok e

module _ {S : Type 0} (peer_links : PeerLinks S) where
  -- The loop of forwardToPeers.
  unfoldable pub forward_loop :
      (ℕ → Option ContextError)
      → ℕ
      → Event
      → List PeerNode
      → DeliveryResult
      → S
      → DeliveryResult × S
  forward_loop ctx i e [] r links = (r, links)
  forward_loop ctx i e (peer ∷ rest) r links = elim (ctx i) [
    | some why ↦ (add_error (context_done why) r, links)
    | none ↦
        let (sent, links') = peer_links.send_event peer.id e links in
        forward_loop ctx (suc i) e rest (peer_sent peer.id sent r) links'
  ]

  -- forwardToPeers
  unfoldable pub forward_to_peers :
      (ℕ → Option ContextError) → Event → PeerInterest → DeliveryResult → S → DeliveryResult × S
  forward_to_peers ctx e interest r links = elim (peer_links.get_connected_peers links) [
    | none ↦ (add_error no_peers r, links)
    | some peers ↦
        forward_loop ctx 0 e (get_interested_peers e.topic peers interest.peer_subscriptions) r
          links
  ]

  -- PublishEventWithResult, from local delivery on.
  unfoldable pub distribute :
      Cancellation → Event → MeshNode S → Result PublishError Event × MeshNode S
  distribute ctx e n =
      let (r, clients) =
        deliver_to_local_subscribers ctx.at_subscriber e n.routing_table n.clients in
      elim ctx.after_local [
        | some why ↦ (err (publish_context why), record n { clients = clients })
        | none ↦
            let (r', links) = forward_to_peers ctx.at_peer e n.interest r n.links in
            (conclude ctx.after_peers r' e, record n { clients = clients; links = links })
      ]

  -- PublishEventWithResult, once AppendEvent has answered.
  abbrev pub after_append :
      Cancellation → Result LogError Event → MeshNode S → Result PublishError Event × MeshNode S
  after_append ctx (ok persisted) n = distribute ctx persisted n
  after_append ctx (err why) n = (err (not_persisted why), n)
  after_append ctx panic n = (panic, n)

  -- PublishEventWithResult, once the request is valid.
  unfoldable pub publish_valid :
      Cancellation → Event → MeshNode S → Result PublishError Event × MeshNode S
  publish_valid ctx e n =
      let (stored, log) = append_event ctx.at_append e.topic (some e) n.event_log in
      after_append ctx stored (record n { event_log = log })

  -- PublishEventWithResult
  unfoldable pub publish_event_with_result :
      Cancellation
      → Option Publisher
      → Option Event
      → MeshNode S
      → Result PublishError Event × MeshNode S
  publish_event_with_result ctx client event n = elim (validate_publish_request client event n) [
    | some why ↦ (err why, n)
    | none ↦ elim event [ none ↦ (panic, n) | some e ↦ publish_valid ctx e n ]
  ]
