-- ===== src/Http/Events.antt =====
-- internal/httpapi/handlers.go: an event as a message of the event stream, and its frame on the wire.
-- The JSON of payloads and messages is a parameter.
use eventmesh_go.Prelude.{
  ℕ, Str, codes, is_empty, Option, none, some, [], ◌∷◌, ◌++◌, if◌then◌else◌, Result, ok, err, panic,
}
use eventmesh_go.EventLog.Event.{Event}
use eventmesh_go.Http.Cursor.{CursorJson, CursorError, encode_sse_event_cursor}

-- A payload that is JSON, or else its text. The event record does not tell a nil payload from an
-- empty one; it is taken as empty, so as text.
pub data Payload (J : Type 0) : Type 0 where
  parsed : J → Payload J
  text : Str → Payload J

-- EventStreamMessage
pub record StreamMessage (J : Type 0) : Type 0 where
  pub event_id : Str
  pub topic : Str
  pub payload : Payload J
  pub timestamp : ℕ
  pub offset : ℕ

-- encoding/json on payloads and messages.
pub record MessageJson (J : Type 0) : Type 0 where
  pub cursors : CursorJson
  pub unmarshal_payload : Str → Option J
  pub marshal_message : StreamMessage J → Option Str
  pub unmarshal_message : Str → Option (StreamMessage J)

pub data StreamError : Type 0 where
  cursor : CursorError → StreamError
  event_id_required message_not_marshalled write_failed : StreamError

abbrev pub payload_or_text : {J : Type 0} → Str → Option J → Payload J
payload_or_text bytes none = text bytes
payload_or_text bytes (some j) = parsed j

abbrev pub with_event_id :
    {J : Type 0}
    → (Str → StreamMessage J)
    → Result CursorError Str
    → Result StreamError (StreamMessage J)
with_event_id message (ok event_id) = ok (message event_id)
with_event_id message (err e) = err (cursor e)
with_event_id message panic = panic

-- "id: %s\ndata: %s\n\n"
unfoldable pub sse_frame : Str → Str → Str
sse_frame event_id json_data =
    codes "id: " ++ event_id ++ b'\n' ∷ (codes "data: " ++ json_data ++ b'\n' ∷ b'\n' ∷ [])

abbrev pub framed : Str → Option Str → Result StreamError Str
framed event_id none = err message_not_marshalled
framed event_id (some json_data) = ok (sse_frame event_id json_data)

module _ {J : Type 0} (json : MessageJson J) where
  -- eventToSSEMessage, on the node of this name.
  unfoldable pub event_to_sse_message : Str → Event → Result StreamError (StreamMessage J)
  event_to_sse_message node_id event =
      with_event_id
        (λ event_id. record {
          event_id = event_id;
          topic = event.topic;
          payload = payload_or_text event.payload (json.unmarshal_payload event.payload);
          timestamp = event.timestamp;
          offset = event.offset;
        })
        (encode_sse_event_cursor json.cursors node_id event.topic event.offset)

  -- writeSSEMessage: what it writes to the connection.
  unfoldable pub message_frame : StreamMessage J → Result StreamError Str
  message_frame message =
      if is_empty message.event_id
      then err event_id_required
      else framed message.event_id (json.marshal_message message)

  abbrev pub frame_of_message : Result StreamError (StreamMessage J) → Result StreamError Str
  frame_of_message (ok message) = message_frame message
  frame_of_message (err e) = err e
  frame_of_message panic = panic

  -- The frame of an event: eventToSSEMessage, then writeSSEMessage.
  abbrev pub event_frame : Str → Event → Result StreamError Str
  event_frame node_id event = frame_of_message (event_to_sse_message node_id event)
