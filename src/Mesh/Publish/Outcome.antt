-- ===== src/Mesh/Publish/Outcome.antt =====
-- Every local subscriber of an event is counted, as a success or as a failure.
use eventmesh_go.Prelude.{
  ℕ, suc, ◌+◌, Str, Bool, true, false, Option, none, some, List, [], ◌∷◌, ok, ContextError, ◌≡◌,
  arith,
}
use eventmesh_go.Prelude.Maps.{Map, lookup}
use eventmesh_go.EventLog.Event.{Event}
use eventmesh_go.Routing.Table.{
  Subscriber, SubscriberType, local_client, peer_node, RoutingTable, get_subscribers,
}
use eventmesh_go.Mesh.Publish.{
  TrustedClient, deliver_event, DeliveryResult, no_deliveries, count_delivery, deliver_found,
  deliver_to, deliver_loop, deliver_to_local_subscribers,
}

-- The local clients of a list of subscribers.
abbrev pub count_local : List Subscriber → ℕ
count_local [] = 0
count_local (s ∷ rest) = elim s.kind [
  | local_client ↦ suc (count_local rest)
  | peer_node ↦ count_local rest
]

-- Counted deliveries to local clients.
abbrev pub local_attempts : DeliveryResult → ℕ
local_attempts r = r.local_successes + r.local_failures

count_delivery-attempts :
    (b : Bool) (id : Str) (r : DeliveryResult)
    → local_attempts (count_delivery b id r) ≡ suc (local_attempts r)
count_delivery-attempts true id r = omega arith
count_delivery-attempts false id r = omega arith

deliver_found-attempts :
    (o : Option TrustedClient) (id object : Str) (e : Event) (r : DeliveryResult)
    (clients : Map TrustedClient)
    → local_attempts (deliver_found o id object e r clients).0 ≡ suc (local_attempts r)
deliver_found-attempts none id object e r clients = omega arith
deliver_found-attempts (some c) id object e r clients =
    count_delivery-attempts (deliver_event e c).0 id r

deliver_to-attempts :
    (s : Subscriber) (e : Event) (r : DeliveryResult) (clients : Map TrustedClient)
    → local_attempts (deliver_to s e r clients).0 ≡ local_attempts r + count_local (s ∷ [])
deliver_to-attempts s e r clients = attempts s.kind
  where
    attempts :
        (k : SubscriberType)
        → local_attempts
            (elim k as (λ _. DeliveryResult × Map TrustedClient) [
              | local_client ↦ deliver_found (lookup s.object clients) s.id s.object e r clients
              | peer_node ↦ (r, clients)
            ]).0
          ≡ local_attempts r + (elim k as (λ _. ℕ) [ local_client ↦ 1 | peer_node ↦ 0 ])
    attempts local_client =
        omega (arith, deliver_found-attempts (lookup s.object clients) s.id s.object e r clients)
    attempts peer_node = omega arith

count_local-cons :
    (s : Subscriber) (rest : List Subscriber)
    → count_local (s ∷ rest) ≡ count_local (s ∷ []) + count_local rest
count_local-cons s rest = counted s.kind
  where
    counted :
        (k : SubscriberType)
        → (elim k as (λ _. ℕ) [
          | local_client ↦ suc (count_local rest)
          | peer_node ↦ count_local rest
        ])
          ≡ (elim k as (λ _. ℕ) [ local_client ↦ 1 | peer_node ↦ 0 ]) + count_local rest
    counted local_client = omega arith
    counted peer_node = omega arith

deliver_loop-attempts :
    (ctx : ℕ → Option ContextError) (i : ℕ) (e : Event) (subscribers : List Subscriber)
    (r : DeliveryResult) (clients : Map TrustedClient)
    → ((j : ℕ) → ctx j ≡ none)
    → local_attempts (deliver_loop ctx i e subscribers r clients).0
      ≡ local_attempts r + count_local subscribers
unfolding deliver_loop
deliver_loop-attempts ctx i e [] r clients live = omega arith
deliver_loop-attempts ctx i e (s ∷ rest) r clients live =
    rw (live i, deliver_loop)
      (omega (
        arith,
        count_local-cons s rest,
        deliver_to-attempts s e r clients,
        deliver_loop-attempts ctx (suc i) e rest (deliver_to s e r clients).0
            (deliver_to s e r clients).1 live,
      ))

-- As long as the context is not done, each local client that subscribes to the topic is counted exactly
-- once, as a success or as a failure.
pub deliver_to_local-attempts :
    (ctx : ℕ → Option ContextError) (e : Event) (table : RoutingTable) (clients : Map TrustedClient)
    (subscribers : List Subscriber)
    → ((j : ℕ) → ctx j ≡ none)
    → get_subscribers e.topic table ≡ ok subscribers
    → local_attempts (deliver_to_local_subscribers ctx e table clients).0 ≡ count_local subscribers
unfolding deliver_to_local_subscribers
deliver_to_local-attempts ctx e table clients subscribers live h =
    rw (h, deliver_to_local_subscribers)
      (omega (arith, deliver_loop-attempts ctx 0 e subscribers no_deliveries clients live))
