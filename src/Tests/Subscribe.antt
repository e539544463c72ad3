-- ===== src/Tests/Subscribe.antt =====
-- Samples for the subscriptions of a node.
use eventmesh_go.Prelude.{
  ℕ, ◌+◌, Str, codes, is_empty, not, ◌&&◌, ltb, true, false, some, [], ◌∷◌, ◌≡◌, refl,
}
use eventmesh_go.Prelude.Maps.{lookup}
use eventmesh_go.Routing.Table.{local_client}
use eventmesh_go.Mesh.Interest.{no_interest, process_incoming_interest_snapshot}
use eventmesh_go.Mesh.Interest.View.{has_interest}
use eventmesh_go.Mesh.Subscriptions.{Metadata, local_interest_snapshot, local_topic_interest_count}
use eventmesh_go.Mesh.Subscriptions.Snapshot.{resync_interest}
use eventmesh_go.Mesh.Subscribe.{
  Client, ControlLinks, SubscribingNode, subscribe_client, unsubscribe_client,
}
use eventmesh_go.Mesh.Subscribe.Coherence.{subscribe_client-Coherent, unsubscribe_client-Coherent}
use eventmesh_go.Mesh.Subscribe.Steps.{CoherentNode}

abbrev orders : Str
orders = codes "orders"

abbrev alice : Client
alice = record {
  object = codes "a1";
  id = codes "alice";
  is_authenticated = true;
  kind = some local_client;
}

abbrev metadata : Metadata
metadata =
    (
      codes "alice",
      (
        codes "sub-alice-1",
        record {
          id = codes "sub-alice-1";
          topic = orders;
          client_id = codes "alice";
          created_at = 1;
        },
      )
          ∷ [],
    )
    ∷ []

abbrev control_links : ControlLinks ℕ
control_links = record {
  get_connected_peers = λ n. some (record { id = codes "b"; address = codes "b:9090" } ∷ []);
  send_interest_update = λ id u n. (true, n + 1);
}

-- A node at which nobody has subscribed yet.
abbrev fresh_node : SubscribingNode ℕ
fresh_node = record {
  node_id = codes "a";
  started = true;
  closed = false;
  routing_table = record { subscriptions = []; closed = false };
  clients = [];
  subscriptions = [];
  interest_updates_sent = 0;
  links = 0;
}

nobody_listed : CoherentNode fresh_node
unfolding lookup
nobody_listed t c = refl

subscribe_client-Coherent_example :
    CoherentNode (subscribe_client control_links 1 (codes "1") (some alice) orders fresh_node).1
unfolding lookup
subscribe_client-Coherent_example =
    subscribe_client-Coherent control_links 1 (codes "1") alice orders fresh_node refl nobody_listed

abbrev subscribed : SubscribingNode ℕ
subscribed = (subscribe_client control_links 1 (codes "1") (some alice) orders fresh_node).1

unsubscribe_client-Coherent_example :
    CoherentNode (unsubscribe_client control_links (some alice) orders subscribed).1
unfolding lookup
unsubscribe_client-Coherent_example =
    unsubscribe_client-Coherent control_links (some alice) orders subscribed (
      subscribe_client-Coherent control_links 1 (codes "1") alice orders fresh_node refl
        nobody_listed)

resync_interest_example :
    has_interest
      (process_incoming_interest_snapshot
        (record { node_id = codes "a"; topics = local_interest_snapshot metadata })
        no_interest).peer_subscriptions
      (codes "a")
      orders
    ≡ (ltb 0 (local_topic_interest_count orders metadata) && not (is_empty orders))
resync_interest_example = resync_interest (codes "a") orders metadata no_interest
