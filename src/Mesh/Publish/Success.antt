-- ===== src/Mesh/Publish/Success.antt =====
-- What a publish that succeeds has done, at the level of the node.
use eventmesh_go.Prelude.{Option, none, some, Result, ok, err, panic, ContextError, ◌≡◌, refl}
use eventmesh_go.Prelude.Maps.{Map}
use eventmesh_go.EventLog.Event.{Event, LogError}
use eventmesh_go.EventLog.Memory.{MemoryLog, append_event}
use eventmesh_go.Mesh.Publish.{
  TrustedClient, DeliveryResult, Cancellation, deliver_to_local_subscribers, PeerLinks,
  PublishError, Publisher, MeshNode, forward_to_peers, validate_publish_request, conclude,
  distribute, after_append, publish_valid, publish_event_with_result, publish_context,
}

module _ {S : Type 0} (peer_links : PeerLinks S) where
  -- What `distribute` does with the outcome of the local deliveries.
  abbrev delivered : Cancellation → Event → MeshNode S → DeliveryResult × Map TrustedClient
  delivered ctx e n = deliver_to_local_subscribers ctx.at_subscriber e n.routing_table n.clients

  distribute-log :
      (ctx : Cancellation) (e : Event) (n : MeshNode S)
      → ((distribute peer_links ctx e n).1.event_log ≡ n.event_log)
        × ((distribute peer_links ctx e n).1.routing_table ≡ n.routing_table)
  unfolding distribute
  distribute-log ctx e n = after ctx.after_local
    where
      sent : DeliveryResult × S
      sent = forward_to_peers peer_links ctx.at_peer e n.interest (delivered ctx e n).0 n.links

      out : Option ContextError → Result PublishError Event × MeshNode S
      out (some why) = (err (publish_context why), record n { clients = (delivered ctx e n).1 })
      out none = (
        conclude ctx.after_peers sent.0 e,
        record n { clients = (delivered ctx e n).1; links = sent.1 },
      )

      after :
          (o : Option ContextError)
          → ((out o).1.event_log ≡ n.event_log) × ((out o).1.routing_table ≡ n.routing_table)
      after (some why) = (refl, refl)
      after none = (refl, refl)

  -- A valid publish leaves the log as AppendEvent leaves it, whatever becomes of the deliveries, of the
  -- peers and of the context after that; and it leaves the routing table alone.
  pub publish-persists :
      (ctx : Cancellation) (client : Option Publisher) (e : Event) (n : MeshNode S)
      → validate_publish_request client (some e) n ≡ none
      → ((publish_event_with_result peer_links ctx client (some e) n).1.event_log
          ≡ (append_event ctx.at_append e.topic (some e) n.event_log).1)
        × ((publish_event_with_result peer_links ctx client (some e) n).1.routing_table
            ≡ n.routing_table)
  unfolding publish_event_with_result publish_valid
  publish-persists ctx client e n valid =
      rw (valid, publish_event_with_result)
        (after (append_event ctx.at_append e.topic (some e) n.event_log).0
          (append_event ctx.at_append e.topic (some e) n.event_log).1)
    where
      out : Result LogError Event → MemoryLog → Result PublishError Event × MeshNode S
      out r log = after_append peer_links ctx r (record n { event_log = log })

      after :
          (r : Result LogError Event) (log : MemoryLog)
          → ((out r log).1.event_log ≡ log) × ((out r log).1.routing_table ≡ n.routing_table)
      after (ok persisted) log = distribute-log ctx persisted (record n { event_log = log })
      after (err why) log = (refl, refl)
      after panic log = (refl, refl)
