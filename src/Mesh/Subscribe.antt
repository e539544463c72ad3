-- ===== src/Mesh/Subscribe.antt =====
-- internal/meshnode/node_subscriptions.go: Subscribe, Unsubscribe, UnsubscribeByID, and how a change of
-- the local interest is told to the peers. The handlers run under the lock of the node. The clock and its
-- decimal digits in a subscription's identifier are arguments.
pub mod Steps
pub mod Coherence
use eventmesh_go.Prelude.{
  ℕ, suc, ◌+◌, Str, is_empty, Bool, true, false, not, ◌||◌, ◌&&◌, Option, none, some, List, [], ◌∷◌,
  ◌++◌, length, get_or, if◌then◌else◌, ◌==◌, ltb, str_eq, codes, Result, ok, err, panic,
}
use eventmesh_go.Prelude.Words.{add64}
use eventmesh_go.Prelude.Maps.{Map, lookup, insert}
use eventmesh_go.Peer.Link.{PeerNode}
use eventmesh_go.Peer.Messages.{InterestUpdate}
use eventmesh_go.Routing.Table.{
  Subscriber, SubscriberType, RoutingTable, TableError, subscribe, unsubscribe,
}
use eventmesh_go.Mesh.Interest.{subscribe_action, unsubscribe_action}
use eventmesh_go.Mesh.Subscriptions.{
  ClientSubscription, Metadata, add_subscription_metadata, remove_subscription_metadata_by_topic,
  local_topic_interest_count,
}

-- A client, by what its methods return; `kind` is none if it does not implement Subscriber.
pub record Client : Type 0 where
  pub object : Str
  pub id : Str
  pub is_authenticated : Bool
  pub kind : Option SubscriberType

-- What the handlers call of the control plane's peer link: none and false are errors.
pub record ControlLinks (S : Type 0) : Type 0 where
  pub get_connected_peers : S → Option (List PeerNode)
  pub send_interest_update : Str → InterestUpdate → S → Bool × S

pub data SubscribeError : Type 0 where
  node_closed node_stopped nil_client empty_topic not_authenticated : SubscribeError
  not_a_subscriber subscription_not_found client_not_found : SubscribeError
  table_refused : TableError → SubscribeError

pub data PropagateError : Type 0 where
  nothing_named unknown_action no_peer_list all_peers_failed : PropagateError

-- GRPCMeshNode, as far as the handlers use it.
pub record SubscribingNode (S : Type 0) : Type 0 where
  pub node_id : Str
  pub started : Bool
  pub closed : Bool
  pub routing_table : RoutingTable
  pub clients : Map Client
  pub subscriptions : Metadata
  pub interest_updates_sent : ℕ
  pub links : S

-- fmt.Sprintf("sub-%s-%d", …), with the digits of the clock.
abbrev pub subscription_id : Str → Str → Str
subscription_id client_id digits = codes "sub-" ++ client_id ++ codes "-" ++ digits

-- The checks that Subscribe and Unsubscribe begin with.
abbrev pub check_request :
    {S : Type 0} → Option Client → Str → SubscribingNode S → Result SubscribeError Client
check_request none topic n =
    if n.closed then err node_closed else if not n.started then err node_stopped else err nil_client
check_request (some c) topic n =
    if n.closed
    then err node_closed
    else if not n.started
    then err node_stopped
    else if is_empty topic
    then err empty_topic
    else if not c.is_authenticated
    then err not_authenticated
    else ok c

module _ {S : Type 0} (control_links : ControlLinks S) where
  -- The loop of propagateInterestUpdate: successes, failures, and the node after it.
  unfoldable pub send_updates :
      InterestUpdate → List PeerNode → ℕ × ℕ × SubscribingNode S → ℕ × ℕ × SubscribingNode S
  send_updates u [] state = state
  send_updates u (peer ∷ rest) (sent, failed, n) =
      let (accepted, links) = control_links.send_interest_update peer.id u n.links in
      send_updates u rest (
        if accepted
        then (
          suc sent,
          failed,
          record n { links = links; interest_updates_sent = add64 n.interest_updates_sent 1 },
        )
        else (sent, suc failed, record n { links = links }))

  -- The end of propagateInterestUpdate.
  abbrev pub sum_up : ℕ × ℕ × SubscribingNode S → Option PropagateError × SubscribingNode S
  sum_up (sent, failed, n) =
      ((if ltb 0 failed && (sent == 0) then some all_peers_failed else none), n)

  -- propagateInterestUpdate
  unfoldable pub propagate_interest_update :
      Str → Str → SubscribingNode S → Option PropagateError × SubscribingNode S
  propagate_interest_update action topic n =
      if is_empty action || is_empty topic
      then (some nothing_named, n)
      else if not (str_eq action subscribe_action) && not (str_eq action unsubscribe_action)
      then (some unknown_action, n)
      else elim (control_links.get_connected_peers n.links) [
        | none ↦ (some no_peer_list, n)
        | some peers ↦
            if length peers == 0
            then (none, n)
            else sum_up (
                send_updates (record { node_id = n.node_id; action = action; topic = topic }) peers
                  (0, 0, n))
      ]

  -- The end of Subscribe, once the routing table has answered.
  abbrev pub after_subscribe :
      ℕ
      → Str
      → Bool
      → Client
      → Str
      → Option TableError
      → SubscribingNode S
      → Option SubscribeError × SubscribingNode S
  after_subscribe now digits had_local_interest c topic (some e) n = (some (table_refused e), n)
  after_subscribe now digits had_local_interest c topic none n =
      let listed = record n {
        clients = insert c.id c n.clients;
        subscriptions =
            add_subscription_metadata now c.id (subscription_id c.id digits) topic n.subscriptions;
      } in
      (
        none,
        (if had_local_interest
            then listed
            else (propagate_interest_update subscribe_action topic listed).1),
      )

  -- Subscribe, for a client that passed the checks.
  abbrev pub subscribe_checked :
      ℕ
      → Str
      → Client
      → Str
      → Option SubscriberType
      → SubscribingNode S
      → Option SubscribeError × SubscribingNode S
  subscribe_checked now digits c topic none n = (some not_a_subscriber, n)
  subscribe_checked now digits c topic (some kind) n =
      let (refused, table) =
        subscribe topic (some (record { object = c.object; id = c.id; kind = kind }))
          n.routing_table in
      after_subscribe now digits (ltb 0 (local_topic_interest_count topic n.subscriptions)) c topic
        refused (record n { routing_table = table })

  -- Subscribe
  unfoldable pub subscribe_client :
      ℕ → Str → Option Client → Str → SubscribingNode S → Option SubscribeError × SubscribingNode S
  subscribe_client now digits client topic n = elim (check_request client topic n) [
    | ok c ↦ subscribe_checked now digits c topic c.kind n
    | err e ↦ (some e, n)
    | panic ↦ (none, n)
  ]

  -- The end of Unsubscribe, once the routing table has answered.
  abbrev pub after_unsubscribe :
      Client
      → Str
      → Option TableError
      → SubscribingNode S
      → Option SubscribeError × SubscribingNode S
  after_unsubscribe c topic (some e) n = (some (table_refused e), n)
  after_unsubscribe c topic none n =
      let removed = record n {
        subscriptions = remove_subscription_metadata_by_topic c.id topic n.subscriptions;
      } in
      (
        none,
        (if local_topic_interest_count topic removed.subscriptions == 0
            then (propagate_interest_update unsubscribe_action topic removed).1
            else removed),
      )

  abbrev pub unsubscribe_checked :
      Client → Str → SubscribingNode S → Option SubscribeError × SubscribingNode S
  unsubscribe_checked c topic n =
      let (refused, table) = unsubscribe topic c.id n.routing_table in
      after_unsubscribe c topic refused (record n { routing_table = table })

  -- Unsubscribe
  unfoldable pub unsubscribe_client :
      Option Client → Str → SubscribingNode S → Option SubscribeError × SubscribingNode S
  unsubscribe_client client topic n = elim (check_request client topic n) [
    | ok c ↦ unsubscribe_checked c topic n
    | err e ↦ (some e, n)
    | panic ↦ (none, n)
  ]

  -- UnsubscribeByID
  unfoldable pub unsubscribe_by_id :
      Str → Str → SubscribingNode S → Option SubscribeError × SubscribingNode S
  unsubscribe_by_id client_id wanted n =
      elim (lookup wanted (get_or [] (lookup client_id n.subscriptions))) [
        | none ↦ (some subscription_not_found, n)
        | some s ↦ elim (lookup client_id n.clients) [
          | none ↦ (some client_not_found, n)
          | some c ↦ unsubscribe_client (some c) s.topic n
        ]
      ]
