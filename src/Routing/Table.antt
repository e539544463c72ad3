-- ===== src/Routing/Table.antt =====
-- pkg/routingtable/subscriber.go and internal/routingtable/inmemory.go: the table of subscriptions.
-- Each method runs under the table's lock, so it is one step on the state.
pub mod Entries
pub mod Invariant
pub mod Lookup
pub mod Gossip
use eventmesh_go.Prelude.{
  ℕ, ◌+◌, Str, is_empty, Bool, true, false, not, ◌&&◌, Option, none, some, List, [], ◌∷◌, ◌++◌,
  length, get_or, if◌then◌else◌, ◌==◌, str_eq, Result, ok, err, panic,
}
use eventmesh_go.Prelude.Maps.{Map, lookup, insert, delete}
use eventmesh_go.Routing.Pattern.{matches_pattern}

-- SubscriberType
pub data SubscriberType : Type 0 where
  local_client peer_node : SubscriberType

-- A Subscriber, by what its methods ID and Type return, and the object that it is: a text that stands
-- for the pointer.
pub record Subscriber : Type 0 where
  pub object : Str
  pub id : Str
  pub kind : SubscriberType

-- NewLocalSubscriber, NewPeerSubscriber, as the object that they allocate
abbrev pub new_local_subscriber : Str → Str → Subscriber
new_local_subscriber object id = record { object = object; id = id; kind = local_client }

abbrev pub new_peer_subscriber : Str → Str → Subscriber
new_peer_subscriber object node_id = record { object = object; id = node_id; kind = peer_node }

pub data TableError : Type 0 where
  nil_subscriber empty_topic table_closed : TableError

-- Subscription; a nil Subscriber is none.
pub record Subscription : Type 0 where
  pub topic : Str
  pub subscriber : Option Subscriber

-- InMemoryRoutingTable
pub record RoutingTable : Type 0 where
  pub subscriptions : Map (Map Subscriber)
  pub closed : Bool

-- NewInMemoryRoutingTable
abbrev pub new_routing_table : RoutingTable
new_routing_table = record { subscriptions = []; closed = false }

-- The subscribers of a topic; the zero value for an absent topic is an empty map.
abbrev pub subscribers_of : Map (Map Subscriber) → Str → Map Subscriber
subscribers_of subscriptions topic = get_or [] (lookup topic subscriptions)

-- `if m[topic] == nil { m[topic] = make(...) }; m[topic][s.ID()] = s`
unfoldable pub add_subscriber : Str → Subscriber → Map (Map Subscriber) → Map (Map Subscriber)
add_subscriber topic s subscriptions =
    insert topic (insert s.id s (subscribers_of subscriptions topic)) subscriptions

-- Subscribe
unfoldable pub subscribe : Str → Option Subscriber → RoutingTable → Option TableError × RoutingTable
subscribe topic none rt = (some nil_subscriber, rt)
subscribe topic (some s) rt =
    if is_empty topic
    then (some empty_topic, rt)
    else if rt.closed
    then (some table_closed, rt)
    else (none, record rt { subscriptions = add_subscriber topic s rt.subscriptions })

-- The removal in Unsubscribe, from the subscribers that stand under the topic.
unfoldable pub remove_subscriber : Str → Str → Map (Map Subscriber) → Map (Map Subscriber)
remove_subscriber topic id subscriptions = elim (lookup topic subscriptions) [
  | none ↦ subscriptions
  | some subscribers ↦
      if length (delete id subscribers) == 0
      then delete topic subscriptions
      else insert topic (delete id subscribers) subscriptions
]

-- Unsubscribe
unfoldable pub unsubscribe : Str → Str → RoutingTable → Option TableError × RoutingTable
unsubscribe topic id rt =
    if rt.closed
    then (some table_closed, rt)
    else (none, record rt { subscriptions = remove_subscriber topic id rt.subscriptions })

-- `for _, v := range m`
abbrev pub values : Map Subscriber → List Subscriber
values [] = []
values ((id, s) ∷ rest) = s ∷ values rest

-- The second loop of GetSubscribers: the patterns other than the topic itself.
unfoldable pub wildcard_subscribers : Str → Map (Map Subscriber) → List Subscriber
wildcard_subscribers topic [] = []
wildcard_subscribers topic ((pattern, subscribers) ∷ rest) =
    (if not (str_eq pattern topic) && matches_pattern pattern topic then values subscribers else [])
    ++ wildcard_subscribers topic rest

-- GetSubscribers
unfoldable pub get_subscribers : Str → RoutingTable → Result TableError (List Subscriber)
get_subscribers topic rt =
    if rt.closed
    then err table_closed
    else ok (
        values (subscribers_of rt.subscriptions topic)
        ++ wildcard_subscribers topic rt.subscriptions)

-- The inner loop of GetAllSubscriptions.
abbrev pub under_topic : Str → Map Subscriber → List Subscription
under_topic topic [] = []
under_topic topic ((id, s) ∷ rest) =
    record { topic = topic; subscriber = some s } ∷ under_topic topic rest

unfoldable pub all_subscriptions : Map (Map Subscriber) → List Subscription
all_subscriptions [] = []
all_subscriptions ((topic, subscribers) ∷ rest) =
    under_topic topic subscribers ++ all_subscriptions rest

-- GetAllSubscriptions
unfoldable pub get_all_subscriptions : RoutingTable → Result TableError (List Subscription)
get_all_subscriptions rt =
    if rt.closed then err table_closed else ok (all_subscriptions rt.subscriptions)

-- `if m[topic] == nil { m[topic] = make(...) }`
abbrev pub ensure_topic : Str → Map (Map Subscriber) → Map (Map Subscriber)
ensure_topic topic subscriptions = insert topic (subscribers_of subscriptions topic) subscriptions

-- The loop of RebuildFromGossip. A nil Subscriber panics when its map is there, maybe empty, and the
-- entries before it stay.
unfoldable pub rebuild_loop :
    List Subscription → Map (Map Subscriber) → Result TableError (Unit {0}) × Map (Map Subscriber)
rebuild_loop [] subscriptions = (ok tt, subscriptions)
rebuild_loop (entry ∷ rest) subscriptions = elim entry.subscriber [
  | none ↦ (panic, ensure_topic entry.topic subscriptions)
  | some s ↦ rebuild_loop rest (add_subscriber entry.topic s subscriptions)
]

-- RebuildFromGossip
unfoldable pub rebuild_from_gossip :
    List Subscription → RoutingTable → Result TableError (Unit {0}) × RoutingTable
rebuild_from_gossip entries rt =
    if rt.closed
    then (err table_closed, rt)
    else ((rebuild_loop entries []).0, record rt { subscriptions = (rebuild_loop entries []).1 })

-- GetTopicCount
unfoldable pub get_topic_count : RoutingTable → Result TableError ℕ
get_topic_count rt = if rt.closed then err table_closed else ok (length rt.subscriptions)

-- The loop of GetSubscriberCount.
unfoldable pub count_subscribers : Map (Map Subscriber) → ℕ → ℕ
count_subscribers [] count = count
count_subscribers ((topic, subscribers) ∷ rest) count =
    count_subscribers rest (count + length subscribers)

-- GetSubscriberCount
unfoldable pub get_subscriber_count : RoutingTable → Result TableError ℕ
get_subscriber_count rt =
    if rt.closed then err table_closed else ok (count_subscribers rt.subscriptions 0)

-- Close
unfoldable pub close : RoutingTable → RoutingTable
close rt = record { subscriptions = []; closed = true }
