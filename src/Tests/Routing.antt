-- ===== src/Tests/Routing.antt =====
-- Samples for the routing table and the subscription patterns.
use eventmesh_go.Prelude.{
  Str, codes, true, false, some, List, [], ◌∷◌, ok, ◌≡◌, ◌↔◌, refl, str_eq, In,
}
use eventmesh_go.Prelude.Maps.{Map, lookup}
use eventmesh_go.Routing.Pattern.{split, matches_pattern, wildcard}
use eventmesh_go.Routing.Pattern.Matching.{PartsMatch, matches_pattern_iff}
use eventmesh_go.Routing.Table.{
  Subscriber, Subscription, RoutingTable, new_local_subscriber, new_peer_subscriber,
  new_routing_table, add_subscriber, remove_subscriber, get_subscribers, get_all_subscriptions,
  get_subscriber_count, rebuild_from_gossip,
}
use eventmesh_go.Routing.Table.Invariant.{
  IsTidy, subscribing, unsubscribing, operate_all, reachable-IsTidy,
}
use eventmesh_go.Routing.Table.Lookup.{Interested, get_subscribers_iff}

abbrev orders_any : Str
orders_any = codes "orders.*"

abbrev orders_eu : Str
orders_eu = codes "orders.eu"

abbrev alice : Subscriber
alice = new_local_subscriber (codes "a1") (codes "alice")

abbrev bob : Subscriber
bob = new_local_subscriber (codes "b1") (codes "bob")

matches_pattern_iff_example :
    (matches_pattern orders_any orders_eu ≡ true) ↔ PartsMatch (split orders_any) (split orders_eu)
matches_pattern_iff_example = matches_pattern_iff orders_any orders_eu

reachable-IsTidy_example :
    IsTidy
      (operate_all
        (subscribing orders_any (some alice)
          ∷ subscribing orders_eu (some bob)
          ∷ unsubscribing orders_any (codes "alice")
          ∷ [])
        new_routing_table).subscriptions
reachable-IsTidy_example =
    reachable-IsTidy
      (subscribing orders_any (some alice)
        ∷ subscribing orders_eu (some bob)
        ∷ unsubscribing orders_any (codes "alice")
        ∷ [])
      tt

-- Alice under "orders.*", Bob under "orders.eu".
abbrev subscriptions : Map (Map Subscriber)
subscriptions =
    (orders_any, (codes "alice", alice) ∷ []) ∷ (orders_eu, (codes "bob", bob) ∷ []) ∷ []

abbrev table : RoutingTable
table = record { subscriptions = subscriptions; closed = false }

subscriptions-IsTidy : IsTidy subscriptions
unfolding lookup str_eq
subscriptions-IsTidy = record {
  distinct = (refl, (refl, tt));
  topics = (
    record { distinct = (refl, tt); own = (refl, tt); some_left = λ e. absurd cc },
    (record { distinct = (refl, tt); own = (refl, tt); some_left = λ e. absurd cc }, tt),
  );
}

found_eu : get_subscribers orders_eu table ≡ ok (bob ∷ alice ∷ [])
unfolding get_subscribers lookup str_eq eventmesh_go.Routing.Table.wildcard_subscribers
    matches_pattern split eventmesh_go.Routing.Pattern.parts_match
found_eu = refl

get_subscribers_iff_example : In alice (bob ∷ alice ∷ []) ↔ Interested orders_eu alice subscriptions
get_subscribers_iff_example =
    get_subscribers_iff orders_eu table alice (bob ∷ alice ∷ []) subscriptions-IsTidy found_eu

abbrev entries : List Subscription
entries =
    record { topic = orders_any; subscriber = some alice }
    ∷ record { topic = orders_eu; subscriber = some bob }
    ∷ []

all_entries : get_all_subscriptions table ≡ ok entries
unfolding get_all_subscriptions eventmesh_go.Routing.Table.all_subscriptions
all_entries = refl
