-- ===== src/Mesh/Interest.antt =====
-- internal/meshnode/node_peer_events.go and node_routing_stats.go: what a node knows of the interest of
-- its peers. Each function runs under the lock of that map. Counters are int64 bit patterns.
pub mod View
use eventmesh_go.Prelude.{
  ℕ, ◌+◌, Str, is_empty, Bool, true, false, not, ◌&&◌, Option, none, some, List, [], ◌∷◌, length,
  get_or, if◌then◌else◌, ◌==◌, str_eq, codes,
}
use eventmesh_go.Prelude.Words.{add64}
use eventmesh_go.Prelude.Maps.{Map, lookup, insert, delete}
use eventmesh_go.Peer.Messages.{InterestUpdate, InterestSnapshot, InterestMessage}
use eventmesh_go.Peer.Link.{PeerNode}
use eventmesh_go.Routing.Pattern.{matches_peer_subscription_pattern}

-- The fields of GRPCMeshNode that hold the interest of peers and count the messages about it.
pub record PeerInterest : Type 0 where
  pub peer_subscriptions : Map (Map Bool)
  pub interest_updates_received : ℕ
  pub interest_snapshots_received : ℕ
  pub empty_snapshots_received : ℕ
  pub snapshot_topics_received : ℕ

abbrev pub no_interest : PeerInterest
no_interest = record {
  peer_subscriptions = [];
  interest_updates_received = 0;
  interest_snapshots_received = 0;
  empty_snapshots_received = 0;
  snapshot_topics_received = 0;
}

-- The topics of a peer; the zero value for an absent one is an empty map.
abbrev pub topics_of : Map (Map Bool) → Str → Map Bool
topics_of m peer = get_or [] (lookup peer m)

-- `if m[peer] == nil { m[peer] = make(...) }`
unfoldable pub ensure_peer : Str → Map (Map Bool) → Map (Map Bool)
ensure_peer peer m = elim (lookup peer m) [ none ↦ insert peer [] m | some topics ↦ m ]

abbrev pub subscribe_action : Str
subscribe_action = codes "subscribe"

abbrev pub unsubscribe_action : Str
unsubscribe_action = codes "unsubscribe"

-- The `switch` of processIncomingInterestUpdate.
unfoldable pub apply_action : Str → Str → Str → Map (Map Bool) → Map (Map Bool)
apply_action action peer topic m =
    if str_eq action subscribe_action
    then insert peer (insert topic true (topics_of m peer)) m
    else if str_eq action unsubscribe_action
    then insert peer (delete topic (topics_of m peer)) m
    else m

-- processIncomingInterestUpdate
unfoldable pub process_incoming_interest_update : InterestUpdate → PeerInterest → PeerInterest
process_incoming_interest_update u n = record n {
  interest_updates_received = add64 n.interest_updates_received 1;
  peer_subscriptions =
      apply_action u.action u.node_id u.topic (ensure_peer u.node_id n.peer_subscriptions);
}

-- The loop of processIncomingInterestSnapshot: an empty topic is skipped.
unfoldable pub collect_topics : List Str → Map Bool → Map Bool
collect_topics [] topics = topics
collect_topics (t ∷ ts) topics =
    collect_topics ts (if is_empty t then topics else insert t true topics)

-- processIncomingInterestSnapshot
unfoldable pub process_incoming_interest_snapshot : InterestSnapshot → PeerInterest → PeerInterest
process_incoming_interest_snapshot s n = record n {
  interest_snapshots_received = add64 n.interest_snapshots_received 1;
  empty_snapshots_received =
      (if length s.topics == 0
        then add64 n.empty_snapshots_received 1
        else n.empty_snapshots_received);
  snapshot_topics_received = add64 n.snapshot_topics_received (length s.topics);
  peer_subscriptions = insert s.node_id (collect_topics s.topics []) n.peer_subscriptions;
}

-- processIncomingInterestMessage
unfoldable pub process_incoming_interest_message :
    Option InterestMessage → PeerInterest → PeerInterest
process_incoming_interest_message none n = n
process_incoming_interest_message (some message) n = elim message.update [
  | some u ↦ process_incoming_interest_update u n
  | none ↦ elim message.snapshot [ some s ↦ process_incoming_interest_snapshot s n | none ↦ n ]
]

-- The inner loop of getInterestedPeers, with its `break`.
unfoldable pub any_pattern_matches : Str → Map Bool → Bool
any_pattern_matches topic [] = false
any_pattern_matches topic ((pattern, has_subscriber) ∷ rest) =
    if has_subscriber && matches_peer_subscription_pattern pattern topic
    then true
    else any_pattern_matches topic rest

-- getInterestedPeers
unfoldable pub get_interested_peers : Str → List PeerNode → Map (Map Bool) → List PeerNode
get_interested_peers topic [] m = []
get_interested_peers topic (peer ∷ peers) m =
    let rest = get_interested_peers topic peers m in
    elim (lookup peer.id m) [
      | none ↦ rest
      | some topics ↦ if any_pattern_matches topic topics then peer ∷ rest else rest
    ]
