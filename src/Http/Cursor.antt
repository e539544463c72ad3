-- ===== src/Http/Cursor.antt =====
-- internal/httpapi/sse_cursor.go and pkg/httpclient/sse_cursor.go: the cursors that name the last event
-- a stream has seen. encoding/json and base64 are a parameter; what the code relies on is `IsFaithful`.
pub mod Roundtrip
use eventmesh_go.Prelude.{
  ℕ, Str, is_empty, Bool, true, false, not, ◌&&◌, ◌||◌, Option, none, some, List, [], ◌∷◌, ◌≡◌,
  length, ltb, ◌==◌, if◌then◌else◌, Result, ok, err, panic,
}
use eventmesh_go.Prelude.Words.{is_negative}
use eventmesh_go.Prelude.Maps.{Map, lookup, IsMap}

-- sseCursorVersion
abbrev pub sse_cursor_version : ℕ
sse_cursor_version = 1

-- sseEventCursor
pub record EventCursor : Type 0 where
  pub version : ℕ
  pub node_id : Str
  pub topic : Str
  pub offset : ℕ

-- sseMultiTopicCursor
pub record MultiCursor : Type 0 where
  pub version : ℕ
  pub node_id : Str
  pub topics : Map ℕ

-- The `envelope` of decodeSSECursor, which takes either form.
pub record Envelope : Type 0 where
  pub version : ℕ
  pub node_id : Str
  pub topic : Str
  pub offset : ℕ
  pub topics : Map ℕ

pub data CursorError : Type 0 where
  marshal_failed cursor_required base64_failed parse_failed unsupported_version : CursorError
  node_id_required topic_required negative_cursor_offset : CursorError

-- json.Marshal and json.Unmarshal on these types, and base64.RawURLEncoding.
pub record CursorJson : Type 0 where
  pub marshal_event : EventCursor → Option Str
  pub marshal_multi : MultiCursor → Option Str
  pub unmarshal_envelope : Str → Option Envelope
  pub unmarshal_event : Str → Option EventCursor
  pub base64_encode : Str → Str
  pub base64_decode : Str → Option Str

-- Documents of valid UTF-8 are read back field by field, an absent field as its zero value, and
-- base64 is read back.
pub record IsFaithful (json : CursorJson) : Type 1 where
  pub Utf8 : Str → Type 0
  pub base64_decode-encode : (s : Str) → json.base64_decode (json.base64_encode s) ≡ some s
  pub is_empty-base64_encode : (s : Str) → is_empty (json.base64_encode s) ≡ is_empty s
  pub marshal_event-not_empty :
      (c : EventCursor) (doc : Str) → json.marshal_event c ≡ some doc → is_empty doc ≡ false
  pub marshal_multi-not_empty :
      (c : MultiCursor) (doc : Str) → json.marshal_multi c ≡ some doc → is_empty doc ≡ false
  pub unmarshal_envelope-event :
      (c : EventCursor) (doc : Str)
      → Utf8 c.node_id
      → Utf8 c.topic
      → json.marshal_event c ≡ some doc
      → json.unmarshal_envelope doc
        ≡ some (record {
          version = c.version;
          node_id = c.node_id;
          topic = c.topic;
          offset = c.offset;
          topics = [];
        })
  pub unmarshal_event-event :
      (c : EventCursor) (doc : Str)
      → Utf8 c.node_id
      → Utf8 c.topic
      → json.marshal_event c ≡ some doc
      → json.unmarshal_event doc ≡ some c
  pub unmarshal_envelope-multi :
      (c : MultiCursor) (doc : Str)
      → Utf8 c.node_id
      → ((k : Str) (n : ℕ) → lookup k c.topics ≡ some n → Utf8 k)
      → json.marshal_multi c ≡ some doc
      → (topics : Map ℕ) × (json.unmarshal_envelope doc
          ≡ some (record {
            version = c.version;
            node_id = c.node_id;
            topic = [];
            offset = 0;
            topics = topics;
          }))
        × IsMap topics
        × ((k : Str) → lookup k topics ≡ lookup k c.topics)

-- validateSSECursorTopics
unfoldable pub validate_sse_cursor_topics : Map ℕ → Option CursorError
validate_sse_cursor_topics [] = none
validate_sse_cursor_topics ((topic, offset) ∷ topics) =
    let rest = validate_sse_cursor_topics topics in
    if is_empty topic
    then some topic_required
    else if is_negative offset
    then some negative_cursor_offset
    else rest

abbrev pub refuse : Option CursorError → MultiCursor → Result CursorError MultiCursor
refuse none cursor = ok cursor
refuse (some e) cursor = err e

-- The checks of decodeSSECursor on what it has parsed.
unfoldable pub check_envelope : Envelope → Result CursorError MultiCursor
check_envelope envelope =
    if not (envelope.version == sse_cursor_version)
    then err unsupported_version
    else if is_empty envelope.node_id
    then err node_id_required
    else if ltb 0 (length envelope.topics)
    then refuse (validate_sse_cursor_topics envelope.topics) (record {
      version = envelope.version;
      node_id = envelope.node_id;
      topics = envelope.topics;
    })
    else if is_empty envelope.topic
    then err topic_required
    else if is_negative envelope.offset
    then err negative_cursor_offset
    else ok (record {
      version = envelope.version;
      node_id = envelope.node_id;
      topics = (envelope.topic, envelope.offset) ∷ [];
    })

abbrev pub parsed_envelope : Option Envelope → Result CursorError MultiCursor
parsed_envelope none = err parse_failed
parsed_envelope (some envelope) = check_envelope envelope

-- The checks of decodeSSEEventCursor on what it has parsed.
unfoldable pub check_event_cursor : EventCursor → Result CursorError EventCursor
check_event_cursor cursor =
    if not (cursor.version == sse_cursor_version)
    then err unsupported_version
    else if is_empty cursor.node_id
    then err node_id_required
    else if is_empty cursor.topic
    then err topic_required
    else if is_negative cursor.offset
    then err negative_cursor_offset
    else ok cursor

abbrev pub parsed_event : Option EventCursor → Result CursorError EventCursor
parsed_event none = err parse_failed
parsed_event (some cursor) = check_event_cursor cursor

module _ (json : CursorJson) where
  -- encodeSSECursor, on what json.Marshal returns; the server's and the client's copy.
  unfoldable pub encode_sse_cursor : Option Str → Result CursorError Str
  encode_sse_cursor none = err marshal_failed
  encode_sse_cursor (some doc) = ok (json.base64_encode doc)

  -- encodeSSEEventCursor
  unfoldable pub encode_sse_event_cursor : Str → Str → ℕ → Result CursorError Str
  encode_sse_event_cursor node_id topic offset = encode_sse_cursor (
      json.marshal_event (record {
        version = sse_cursor_version;
        node_id = node_id;
        topic = topic;
        offset = offset;
      }))

  abbrev pub decoded_envelope : Option Str → Result CursorError MultiCursor
  decoded_envelope none = err base64_failed
  decoded_envelope (some doc) = parsed_envelope (json.unmarshal_envelope doc)

  -- decodeSSECursor, the server's.
  unfoldable pub decode_sse_cursor : Str → Result CursorError MultiCursor
  decode_sse_cursor raw =
      if is_empty raw then err cursor_required else decoded_envelope (json.base64_decode raw)

  abbrev pub decoded_event : Option Str → Result CursorError EventCursor
  decoded_event none = err base64_failed
  decoded_event (some doc) = parsed_event (json.unmarshal_event doc)

  -- decodeSSEEventCursor, the client's.
  unfoldable pub decode_sse_event_cursor : Str → Result CursorError EventCursor
  decode_sse_event_cursor raw = decoded_event (json.base64_decode raw)

  -- encodeSSEMultiTopicCursor, the client's: no cursor is the empty string.
  unfoldable pub encode_sse_multi_topic_cursor : Str → Map ℕ → Result CursorError Str
  encode_sse_multi_topic_cursor node_id topics =
      if is_empty node_id || (length topics == 0)
      then ok []
      else encode_sse_cursor (
          json.marshal_multi
            (record { version = sse_cursor_version; node_id = node_id; topics = topics }))
