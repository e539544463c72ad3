-- ===== src/Http.antt =====
-- internal/httpapi and pkg/httpclient: the resume cursors of event streams and their replay, access to
-- the endpoints, the request handlers, and the streaming client.
pub mod Cursor
pub mod Requests
pub mod Auth
pub mod Access
pub mod Numbers
pub mod Handlers
pub mod Events
pub mod Replay
pub mod Streams
