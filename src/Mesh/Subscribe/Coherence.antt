-- ===== src/Mesh/Subscribe/Coherence.antt =====
-- The routing table and the metadata of a node tell of the same subscriptions.
use eventmesh_go.Prelude.{
  ℕ, Str, Bool, true, false, Option, none, some, [], get_or, if◌then◌else◌, ◌==◌, ltb, Result, ok,
  err, panic, ◌≡◌, refl, sym, subst, inl, inr,
}
use eventmesh_go.Prelude.Maps.{lookup, insert}
use eventmesh_go.Routing.Table.{
  SubscriberType, RoutingTable, TableError, add_subscriber, remove_subscriber,
}
use eventmesh_go.Mesh.Interest.{subscribe_action, unsubscribe_action}
use eventmesh_go.Mesh.Subscriptions.{
  add_subscription_metadata, remove_subscription_metadata_by_topic, local_topic_interest_count,
}
use eventmesh_go.Mesh.Subscribe.{
  Client, ControlLinks, SubscribeError, SubscribingNode, subscription_id, check_request,
  propagate_interest_update, after_subscribe, subscribe_checked, subscribe_client,
  after_unsubscribe, unsubscribe_checked, unsubscribe_client,
}
use eventmesh_go.Mesh.Subscribe.Steps.{
  CoherentNode, add-Coherent, remove-Coherent, keep-Coherent, unsubscribe-cases, subscribe-cases,
  passed, propagate-Keeps,
}

module _ {S : Type 0} (control_links : ControlLinks S) where
  if_told-Coherent :
      (b : Bool) (action topic : Str) (n : SubscribingNode S)
      → CoherentNode n
      → CoherentNode (if b then n else (propagate_interest_update control_links action topic n).1)
  if_told-Coherent true action topic n h = h
  if_told-Coherent false action topic n h =
      keep-Coherent n (propagate_interest_update control_links action topic n).1
        (propagate-Keeps control_links action topic n) h

  told_if-Coherent :
      (b : Bool) (action topic : Str) (n : SubscribingNode S)
      → CoherentNode n
      → CoherentNode (if b then (propagate_interest_update control_links action topic n).1 else n)
  told_if-Coherent false action topic n h = h
  told_if-Coherent true action topic n h =
      keep-Coherent n (propagate_interest_update control_links action topic n).1
        (propagate-Keeps control_links action topic n) h

  unsubscribe_checked-Coherent :
      (c : Client) (topic : Str) (n : SubscribingNode S)
      → CoherentNode n
      → CoherentNode (unsubscribe_checked control_links c topic n).1
  unsubscribe_checked-Coherent c topic n h = elim (unsubscribe-cases topic c.id n.routing_table) [
    | inl refused ↦ subst answer (sym refused) h
    | inr removed ↦ subst answer (sym removed) (
        told_if-Coherent
          (local_topic_interest_count topic
              (remove_subscription_metadata_by_topic c.id topic n.subscriptions)
            == 0)
          unsubscribe_action topic
          (record n {
            routing_table = record n.routing_table {
              subscriptions = remove_subscriber topic c.id n.routing_table.subscriptions;
            };
            subscriptions = remove_subscription_metadata_by_topic c.id topic n.subscriptions;
          })
          (remove-Coherent topic c.id n.routing_table.subscriptions n.subscriptions h))
  ]
    where
      answer : Option TableError × RoutingTable → Type 0
      answer x =
          CoherentNode
            (after_unsubscribe control_links c topic x.0 (record n { routing_table = x.1 })).1

  subscribe_checked-Coherent :
      (now : ℕ) (digits : Str) (c : Client) (topic : Str) (kind : Option SubscriberType)
      (n : SubscribingNode S)
      → lookup (subscription_id c.id digits) (get_or [] (lookup c.id n.subscriptions)) ≡ none
      → CoherentNode n
      → CoherentNode (subscribe_checked control_links now digits c topic kind n).1
  subscribe_checked-Coherent now digits c topic none n fresh h = h
  subscribe_checked-Coherent now digits c topic (some kind) n fresh h =
      elim (subscribe-cases topic (record { object = c.object; id = c.id; kind = kind })
        n.routing_table) [
          | inl refused ↦ subst answer (sym refused.1) h
          | inr added ↦ subst answer (sym added) (
              if_told-Coherent (ltb 0 (local_topic_interest_count topic n.subscriptions))
                subscribe_action topic
                (record n {
                  routing_table = record n.routing_table {
                    subscriptions =
                        add_subscriber topic (record { object = c.object; id = c.id; kind = kind })
                          n.routing_table.subscriptions;
                  };
                  clients = insert c.id c n.clients;
                  subscriptions =
                      add_subscription_metadata now c.id (subscription_id c.id digits) topic
                        n.subscriptions;
                })
                (add-Coherent now (subscription_id c.id digits) topic
                  (record { object = c.object; id = c.id; kind = kind })
                  n.routing_table.subscriptions n.subscriptions fresh h))
        ]
    where
      answer : Option TableError × RoutingTable → Type 0
      answer x =
          CoherentNode
            (after_subscribe control_links now digits
              (ltb 0 (local_topic_interest_count topic n.subscriptions)) c topic x.0
              (record n { routing_table = x.1 })).1

  checked-Coherent :
      (r : Result SubscribeError Client) (n : SubscribingNode S)
      (f : Client → Option SubscribeError × SubscribingNode S)
      → ((c : Client) → r ≡ ok c → CoherentNode (f c).1)
      → CoherentNode n
      → CoherentNode
          (elim r as (λ _. Option SubscribeError × SubscribingNode S) [
            | ok c ↦ f c
            | err e ↦ (some e, n)
            | panic ↦ (none, n)
          ]).1
  checked-Coherent (ok c) n f g h = g c refl
  checked-Coherent (err e) n f g h = h
  checked-Coherent panic n f g h = h

  -- Unsubscribe, on every branch, keeps the routing table and the metadata of a node telling the same.
  pub unsubscribe_client-Coherent :
      (client : Option Client) (topic : Str) (n : SubscribingNode S)
      → CoherentNode n
      → CoherentNode (unsubscribe_client control_links client topic n).1
  unfolding unsubscribe_client
  unsubscribe_client-Coherent client topic n h =
      checked-Coherent (check_request client topic n) n
        (λ c. unsubscribe_checked control_links c topic n)
        (λ c e. unsubscribe_checked-Coherent c topic n h) h

  -- Subscribe, on every branch, keeps the routing table and the metadata of a node telling the same, if
  -- the client has no subscription yet under the identifier that the clock gives.
  pub subscribe_client-Coherent :
      (now : ℕ) (digits : Str) (c : Client) (topic : Str) (n : SubscribingNode S)
      → lookup (subscription_id c.id digits) (get_or [] (lookup c.id n.subscriptions)) ≡ none
      → CoherentNode n
      → CoherentNode (subscribe_client control_links now digits (some c) topic n).1
  unfolding subscribe_client
  subscribe_client-Coherent now digits c topic n fresh h =
      checked-Coherent (check_request (some c) topic n) n
        (λ d. subscribe_checked control_links now digits d topic d.kind n)
        (λ d e.
          subscribe_checked-Coherent now digits d topic d.kind n
            (subst
              (λ x.
                lookup (subscription_id x.id digits) (get_or [] (lookup x.id n.subscriptions))
                ≡ none)
              (passed c topic n d e) fresh)
            h)
        h
