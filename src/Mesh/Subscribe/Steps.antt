-- ===== src/Mesh/Subscribe/Steps.antt =====
-- What the steps of the subscription handlers do to the routing table and to the metadata.
use eventmesh_go.Prelude.{
  ℕ, suc, Str, is_empty, Bool, true, false, not, ◌||◌, ◌&&◌, Option, none, some, List, [], ◌∷◌,
  length, get_or, is_some, if◌then◌else◌, ◌==◌, ltb, str_eq, Result, ok, err, ◌≡◌, ◌⊎◌, refl, arith,
  Bool-cases, inl, inr,
}
use eventmesh_go.Prelude.Maps.{Map, lookup}
use eventmesh_go.Prelude.Words.{add64}
use eventmesh_go.Peer.Link.{PeerNode}
use eventmesh_go.Peer.Messages.{InterestUpdate}
use eventmesh_go.Routing.Table.{
  Subscriber, RoutingTable, TableError, empty_topic, table_closed, subscribe, unsubscribe,
  add_subscriber, remove_subscriber,
}
use eventmesh_go.Routing.Table.Entries.{subscriber_at, subscriber_at-add, subscriber_at-remove}
use eventmesh_go.Mesh.Interest.{subscribe_action, unsubscribe_action}
use eventmesh_go.Mesh.Subscriptions.{
  Metadata, add_subscription_metadata, remove_subscription_metadata_by_topic,
}
use eventmesh_go.Mesh.Subscriptions.Snapshot.{client_count, client_count-add, client_count-remove}
use eventmesh_go.Mesh.Subscribe
use eventmesh_go.Mesh.Subscribe.{
  node_closed, node_stopped, not_authenticated, Client, ControlLinks, SubscribeError,
  PropagateError, SubscribingNode, subscription_id, check_request, send_updates, sum_up,
  propagate_interest_update, after_subscribe, subscribe_checked, subscribe_client,
  after_unsubscribe, unsubscribe_checked, unsubscribe_client, unsubscribe_by_id, nothing_named,
  unknown_action, no_peer_list,
}

-- A client stands under a topic in the table exactly if it holds a subscription for it.
abbrev pub Coherent : Map (Map Subscriber) → Metadata → Type 0
Coherent table m =
    (topic client : Str)
    → is_some (subscriber_at table topic client) ≡ ltb 0 (client_count client topic m)

abbrev pub CoherentNode : {S : Type 0} → SubscribingNode S → Type 0
CoherentNode n = Coherent n.routing_table.subscriptions n.subscriptions

pub add-Coherent :
    (now : ℕ) (k topic : Str) (s : Subscriber) (table : Map (Map Subscriber)) (m : Metadata)
    → lookup k (get_or [] (lookup s.id m)) ≡ none
    → Coherent table m
    → Coherent (add_subscriber topic s table) (add_subscription_metadata now s.id k topic m)
add-Coherent now k topic s table m fresh h t c = ground (
  arith,
  subscriber_at-add topic s table t c,
  client_count-add now s.id k topic c t m fresh,
  h t c,
)

pub remove-Coherent :
    (topic id : Str) (table : Map (Map Subscriber)) (m : Metadata)
    → Coherent table m
    → Coherent (remove_subscriber topic id table) (remove_subscription_metadata_by_topic id topic m)
remove-Coherent topic id table m h t c =
    ground
      (arith, subscriber_at-remove topic id table t c, client_count-remove id topic c t m, h t c)

-- What telling the peers leaves alone.
abbrev pub Keeps : {S : Type 0} → SubscribingNode S → SubscribingNode S → Type 0
Keeps n n' = (n'.routing_table ≡ n.routing_table) × (n'.subscriptions ≡ n.subscriptions)

pub keep-Coherent :
    {S : Type 0} (n n' : SubscribingNode S) → Keeps n n' → CoherentNode n → CoherentNode n'
keep-Coherent n n' k h t c = ground (arith, k.0, k.1, h t c)

pub unsubscribe-cases :
    (topic id : Str) (rt : RoutingTable)
    → (unsubscribe topic id rt ≡ (some table_closed, rt))
      ⊎ (unsubscribe topic id rt
          ≡ (none, record rt { subscriptions = remove_subscriber topic id rt.subscriptions }))
unfolding unsubscribe
unsubscribe-cases topic id rt = split rt.closed
  where
    out : Bool → Option TableError × RoutingTable
    out b =
        if b
        then (some table_closed, rt)
        else (none, record rt { subscriptions = remove_subscriber topic id rt.subscriptions })

    split :
        (b : Bool)
        → (out b ≡ (some table_closed, rt))
          ⊎ (out b
              ≡ (none, record rt { subscriptions = remove_subscriber topic id rt.subscriptions }))
    split true = inl refl
    split false = inr refl

pub subscribe-cases :
    (topic : Str) (s : Subscriber) (rt : RoutingTable)
    → ((e : TableError) × (subscribe topic (some s) rt ≡ (some e, rt)))
      ⊎ (subscribe topic (some s) rt
          ≡ (none, record rt { subscriptions = add_subscriber topic s rt.subscriptions }))
unfolding subscribe
subscribe-cases topic s rt = split (is_empty topic) rt.closed
  where
    out : Bool → Bool → Option TableError × RoutingTable
    out a b =
        if a
        then (some empty_topic, rt)
        else if b
        then (some table_closed, rt)
        else (none, record rt { subscriptions = add_subscriber topic s rt.subscriptions })

    split :
        (a b : Bool)
        → ((e : TableError) × (out a b ≡ (some e, rt)))
          ⊎ (out a b
              ≡ (none, record rt { subscriptions = add_subscriber topic s rt.subscriptions }))
    split true b = inl (empty_topic, refl)
    split false true = inl (table_closed, refl)
    split false false = inr refl

pub passed :
    {S : Type 0} (c : Client) (topic : Str) (n : SubscribingNode S) (d : Client)
    → check_request (some c) topic n ≡ ok d
    → c ≡ d
passed c topic n d h = checks n.closed (not n.started) (is_empty topic) (not c.is_authenticated) h
  where
    out : Bool → Bool → Bool → Bool → Result SubscribeError Client
    out closed stopped empty stranger =
        if closed
        then err node_closed
        else if stopped
        then err node_stopped
        else if empty
        then err Subscribe.empty_topic
        else if stranger
        then err not_authenticated
        else ok c

    checks : (w x y z : Bool) → out w x y z ≡ ok d → c ≡ d
    checks true x y z e = absurd cc
    checks false true y z e = absurd cc
    checks false false true z e = absurd cc
    checks false false false true e = absurd cc
    checks false false false false e = cc e

module _ {S : Type 0} (control_links : ControlLinks S) where
  send_updates-Keeps :
      (u : InterestUpdate) (peers : List PeerNode) (state : ℕ × ℕ × SubscribingNode S)
      → Keeps state.2 (send_updates control_links u peers state).2
  unfolding send_updates
  send_updates-Keeps u [] state = (refl, refl)
  send_updates-Keeps u (peer ∷ rest) (sent, failed, n) =
      let (accepted, links) = control_links.send_interest_update peer.id u n.links in
      let counted : SubscribingNode S = record n {
        links = links;
        interest_updates_sent = add64 n.interest_updates_sent 1;
      } in
      elim accepted
        as (λ b.
          Keeps n
            (send_updates control_links u rest (
              if b
              then (suc sent, failed, counted)
              else (sent, suc failed, record n { links = links }))).2) [
                | true ↦ send_updates-Keeps u rest (suc sent, failed, counted)
                | false ↦ send_updates-Keeps u rest (sent, suc failed, record n { links = links })
              ]

  pub propagate-Keeps :
      (action topic : Str) (n : SubscribingNode S)
      → Keeps n (propagate_interest_update control_links action topic n).1
  unfolding propagate_interest_update
  propagate-Keeps action topic n = elim (Bool-cases (is_empty action || is_empty topic)) [
    | inl bad ↦ rw (bad, if◌then◌else◌) (refl, refl)
    | inr named ↦
        rw (named, if◌then◌else◌)
          (elim (Bool-cases
            (not (str_eq action subscribe_action) && not (str_eq action unsubscribe_action))) [
              | inl bad ↦ rw (bad, if◌then◌else◌) (refl, refl)
              | inr known ↦
                  rw (known, if◌then◌else◌) (told (control_links.get_connected_peers n.links))
            ])
  ]
    where
      u : InterestUpdate
      u = record { node_id = n.node_id; action = action; topic = topic }

      to_all : List PeerNode → Option PropagateError × SubscribingNode S
      to_all peers =
          if length peers == 0
          then (none, n)
          else sum_up control_links (send_updates control_links u peers (0, 0, n))

      told :
          (o : Option (List PeerNode))
          → Keeps n
              (elim o as (λ _. Option PropagateError × SubscribingNode S) [
                | none ↦ (some no_peer_list, n)
                | some peers ↦ to_all peers
              ]).1
      told none = (refl, refl)
      told (some peers) = elim (Bool-cases (length peers == 0)) [
        | inl alone ↦ rw (alone, if◌then◌else◌) (refl, refl)
        | inr others ↦ rw (others, if◌then◌else◌) (send_updates-Keeps u peers (0, 0, n))
      ]
