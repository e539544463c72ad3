-- ===== src/Lib.antt =====
-- eventmesh-go: an event mesh of nodes. Clients publish events at a node and subscribe to topic patterns
-- there; a node stores every event in its log, delivers it to its local clients, and forwards it to the
-- peers that told it of a matching interest.
--
-- The parts and how they meet:
--   EventLog   pkg/eventlog/event.go, internal/eventlog/inmemory.go (Memory), pebble_keys.go (Keys),
--              pebble_storage.go (Storage) and pebble.go (Pebble, over the interface of a key-value store
--              in Store). Contract is what pkg/eventlog/interfaces.go promises: a list of events per topic.
--   Routing    internal/routingtable/inmemory.go (Table; matchesPattern is in Pattern), with the second copy
--              of the pattern test in internal/meshnode/node_peer_events.go.
--   Peer       internal/peerlink: config.go (Config), the messages of grpc.go (Messages), grpc_metrics.go and
--              grpc_heartbeat.go (Metrics), the retry loop of grpc.go (Retry), its queues, connections and
--              sends (Channel, Link), grpc_lifecycle.go with the heartbeat loop (Lifecycle).
--   Mesh       internal/meshnode: node_peer_events.go (Interest), node_publish.go with client.go (Publish),
--              node_subscriptions.go (Subscriptions for the metadata and the snapshot of the interest,
--              Subscribe for the handlers), node_lifecycle.go with node_health.go, node_discovery.go and
--              internal/discovery (Lifecycle).
--              Publishing appends to the log of EventLog, asks the table of Routing for subscribers and
--              the interest of peers for receivers, and sends over an interface for the peer
--              links. Subscribing changes that table and tells the peers.
--   Http       internal/httpapi: sse_cursor.go with the client's copy of it (Cursor), the frames of the
--              event stream (Events) and its replay (Replay), which reads a log through an interface that
--              the in-memory log fills (Replay/Logs); auth.go (Auth), middleware.go and server.go
--              (Access), the request handlers over an interface for the mesh node (Handlers), and the
--              client of an event stream, its entries in the table of Routing and the loop that
--              forwards its events (Streams).
--   Client     pkg/httpclient/streaming.go: the parser and the resume state, which read what Http writes
--              (Frames, Offsets), the subscriptions (Streaming) and the reconnect loop (Reconnect).
--   Prelude    what the components share: lists, maps, texts, int64 bit patterns, Boolean tests.
--   Tests      samples on concrete inputs.
--
-- How the code is modelled. A method under its lock is one function on the state; where the code gives
-- up a lock in between (SendEvent), the parts are functions of their own and their interleavings are
-- sequences of steps (Peer/Link/Invariant). A Go string is a list of bytes. A Go map is an association
-- list whose order stands for the order of iteration. An int64 is its bit pattern, a number below 2 ^ 64
-- with the negative ones from 2 ^ 63 on; sums wrap around. Time is a number of nanoseconds. A context
-- is what it answers at each place that asks it. A run-time panic is a value (panic, crashed). Channels
-- of the peer links stand in a store, since maps and goroutines share them; the clients of a node stand
-- in a map by the object, to which the subscribers of the routing table refer. Loops are structural recursion
-- over lists; the retry loop runs over the list of rounds that it meets. On fuel run the batches of a
-- replay, for which one more than the events of a topic is enough, and the reconnect loop, for which one
-- more than the limit on reconnections is enough.
--
-- Not modelled: the inbound streams of the peer link and its fan-out to subscribers, the receipt of
-- forwarded events by a node (processIncomingUserEvent of internal/meshnode/node_peer_events.go), the resync loop of the
-- node, its construction and accessors, the HTTP handlers that put a stream around its replay, of the statistics and of
-- the health, the requests of the HTTP client, and the commands. Logging and the texts of errors
-- are left out. gRPC, Pebble, protocol buffers, JSON, base64, JWT and the router of net/http
-- are third-party or the standard library's: they are parameters, with what the code relies on as laws,
-- or their outcomes are arguments.
pub mod Prelude
pub mod EventLog
pub mod Http
pub mod Client
pub mod Routing
pub mod Peer
pub mod Mesh
pub mod Tests
