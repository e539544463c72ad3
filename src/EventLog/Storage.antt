-- ===== src/EventLog/Storage.antt =====
-- internal/eventlog/pebble_storage.go: the message under which an event is stored. The protocol
-- buffer encoding of the message is a parameter; its documented behaviour is `IsFaithful`.
pub mod Roundtrip
use eventmesh_go.Prelude.{
  ℕ, Str, Option, none, some, List, [], ◌∷◌, ◌≡◌, refl, ap, ◌∙◌, get_or, map, str_eq_refl,
}
use eventmesh_go.Prelude.Sorting.{sort_strings}
use eventmesh_go.Prelude.Maps.{Map, lookup}
use eventmesh_go.EventLog.Event.{Event, copy_map, copy_bytes}

-- The fields of the message; a header is a key and a value.
pub record StoredEvent : Type 0 where
  pub topic : Str
  pub offset : ℕ
  pub payload : Str
  pub headers : List (Str × Str)
  pub timestamp_nano : ℕ

-- `proto.MarshalOptions{Deterministic: true}.Marshal` and `proto.Unmarshal`
pub record Codec : Type 0 where
  pub marshal : StoredEvent → Option Str
  pub unmarshal : Str → Option StoredEvent

-- What is marshalled is unmarshalled to the same message.
pub record IsFaithful (codec : Codec) : Type 0 where
  pub unmarshal-marshal :
      (m : StoredEvent) (encoded : Str)
      → codec.marshal m ≡ some encoded
      → codec.unmarshal encoded ≡ some m

abbrev pub keys_of : Map Str → List Str
keys_of [] = []
keys_of ((k, v) ∷ m) = k ∷ keys_of m

-- The headers under the given keys.
unfoldable pub header_rows : Map Str → List Str → List (Str × Str)
header_rows headers [] = []
header_rows headers (k ∷ ks) = (k, get_or [] (lookup k headers)) ∷ header_rows headers ks

-- The message that marshalPebbleStoredEvent fills in.
unfoldable pub to_stored : Event → StoredEvent
to_stored event = record {
  topic = event.topic;
  offset = event.offset;
  payload = copy_bytes event.payload;
  headers = header_rows event.headers (sort_strings (keys_of event.headers));
  timestamp_nano = event.timestamp;
}

-- The event that unmarshalPebbleStoredEvent reads from a message.
unfoldable pub from_stored : StoredEvent → Event
from_stored message = record {
  offset = message.offset;
  topic = message.topic;
  payload = copy_bytes message.payload;
  timestamp = message.timestamp_nano;
  headers = copy_map message.headers;
}

-- marshalPebbleStoredEvent
unfoldable pub marshal_stored_event : Codec → Event → Option Str
marshal_stored_event codec event = codec.marshal (to_stored event)

-- unmarshalPebbleStoredEvent
unfoldable pub unmarshal_stored_event : Codec → Str → Option Event
unmarshal_stored_event codec encoded = elim (codec.unmarshal encoded) [
  | none ↦ none
  | some message ↦ some (from_stored message)
]
