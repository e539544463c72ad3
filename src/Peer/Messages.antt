-- ===== src/Peer/Messages.antt =====
-- internal/peerlink/grpc.go, pkg/peerlink/interfaces.go, proto/peerlink/v1/peerlink.proto: the queued
-- messages, the wire messages, and the conversions between them.
use eventmesh_go.Prelude.{
  ℕ, ◌+◌, ◌/◌, Str, Option, none, some, List, [], ◌∷◌, Result, ok, err, panic, codes,
}
use eventmesh_go.Prelude.Maps.{Map}
use eventmesh_go.EventLog.Event.{Event, copy_map, copy_bytes}

-- InterestUpdate, InterestSnapshot, InterestMessage
pub record InterestUpdate : Type 0 where
  pub node_id : Str
  pub action : Str
  pub topic : Str

pub record InterestSnapshot : Type 0 where
  pub node_id : Str
  pub topics : List Str

pub record InterestMessage : Type 0 where
  pub update : Option InterestUpdate
  pub snapshot : Option InterestSnapshot

-- DataPlaneMessage, ControlPlaneMsg and HeartbeatMsg, by what they hold; a nil pointer is none.
pub data Body : Type 0 where
  data_plane : Option Event → Body
  control_plane : Option InterestMessage → Body
  heartbeat : Body

-- PeerMessage: the fields that the three have in common.
pub record PeerMessage : Type 0 where
  pub peer_id : Str
  pub body : Body
  pub sent_at : ℕ
  pub send_attempts : ℕ

-- IncrementSendAttempts
abbrev pub increment_send_attempts : PeerMessage → PeerMessage
increment_send_attempts m = record m { send_attempts = m.send_attempts + 1 }

-- The messages of the protocol buffer.
pub record WireUpdate : Type 0 where
  pub node_id : Str
  pub action : Str
  pub topic : Str

pub record WireSnapshot : Type 0 where
  pub node_id : Str
  pub topics : List Str

pub data ControlPlaneMessage : Type 0 where
  interest_update : WireUpdate → ControlPlaneMessage
  interest_snapshot : WireSnapshot → ControlPlaneMessage
  no_kind : ControlPlaneMessage

pub record WireEvent : Type 0 where
  pub topic : Str
  pub payload : Str
  pub headers : Map Str
  pub offset : ℕ

pub data WireMessage : Type 0 where
  handshake : Str → ℕ → WireMessage
  event : WireEvent → WireMessage
  control : ControlPlaneMessage → WireMessage
  beat : ℕ → WireMessage
  ack : Str → ℕ → WireMessage

pub data MessageError : Type 0 where
  nil_interest empty_interest : MessageError

-- `append([]string(nil), topics...)`
abbrev pub copy_topics : List Str → List Str
copy_topics [] = []
copy_topics (t ∷ ts) = t ∷ copy_topics ts

-- controlMessageToProto
unfoldable pub control_message_to_proto :
    Option InterestMessage → Result MessageError ControlPlaneMessage
control_message_to_proto none = err nil_interest
control_message_to_proto (some message) = elim message.update [
  | some u ↦
      ok (interest_update (record { node_id = u.node_id; action = u.action; topic = u.topic }))
  | none ↦ elim message.snapshot [
    | some s ↦
        ok (interest_snapshot (record { node_id = s.node_id; topics = copy_topics s.topics }))
    | none ↦ err empty_interest
  ]
]

-- interestMessageFromProto
unfoldable pub interest_message_from_proto : ControlPlaneMessage → Option InterestMessage
interest_message_from_proto (interest_update u) = some (record {
  update = some (record { node_id = u.node_id; action = u.action; topic = u.topic });
  snapshot = none;
})
interest_message_from_proto (interest_snapshot s) = some (record {
  update = none;
  snapshot = some (record { node_id = s.node_id; topics = copy_topics s.topics });
})
interest_message_from_proto no_kind = none

-- eventFromProto, at the time `now`.
unfoldable pub event_from_proto : ℕ → WireEvent → Event
event_from_proto now e = record {
  topic = e.topic;
  payload = copy_bytes e.payload;
  headers = copy_map e.headers;
  offset = e.offset;
  timestamp = now;
}

-- serializeMessage. A nil event is dereferenced. Times are nanoseconds; UnixMilli divides.
unfoldable pub serialize_message : PeerMessage → Result MessageError WireMessage
serialize_message m = elim m.body [
  | data_plane none ↦ panic
  | data_plane (some e) ↦ ok (
      event
        (record { topic = e.topic; payload = e.payload; headers = e.headers; offset = e.offset }))
  | control_plane message ↦ elim (control_message_to_proto message) [
    | ok c ↦ ok (control c)
    | err e ↦ err e
    | panic ↦ panic
  ]
  | heartbeat ↦ ok (beat (m.sent_at / 1000000))
]

abbrev unknown : Str
unknown = codes "unknown"

-- messageTopic
unfoldable pub message_topic : PeerMessage → Str
message_topic m = elim m.body [
  | data_plane none ↦ unknown
  | data_plane (some e) ↦ e.topic
  | control_plane none ↦ unknown
  | control_plane (some message) ↦ elim message.update [
    | some u ↦ u.topic
    | none ↦ elim message.snapshot [ some s ↦ codes "interest-snapshot" | none ↦ unknown ]
  ]
  | heartbeat ↦ codes "heartbeat"
]

-- peerMessagePlane
pub data Plane : Type 0 where
  data_plane_message control_plane_message : Plane

-- planeForMessage
unfoldable pub plane_for_message : PeerMessage → Plane
plane_for_message m = elim m.body [
  | data_plane e ↦ data_plane_message
  | control_plane message ↦ control_plane_message
  | heartbeat ↦ control_plane_message
]
