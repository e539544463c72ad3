-- ===== src/Client.antt =====
-- pkg/httpclient/streaming.go: the client of the event streams. Its channels, the server and the
-- connection are what the definitions take as arguments.
pub mod Offsets
pub mod Frames
pub mod Streaming
pub mod Reconnect
use eventmesh_go.Prelude.{
  ℕ, zero, suc, ◌+◌, Str, codes, is_empty, str_eq, Bool, true, false, not, ◌&&◌, ◌||◌, Option, none,
  some, List, [], ◌∷◌, ◌++◌, length, ltb, leb, ◌==◌, if◌then◌else◌, Result, ok, err, panic,
}
use eventmesh_go.Prelude.Words.{is_negative, less64}
use eventmesh_go.Prelude.Maps.{Map, lookup, insert}
use eventmesh_go.Routing.Pattern.{split, parts_match}
use eventmesh_go.Http.Auth.{has_prefix, trim_prefix}
use eventmesh_go.Http.Events.{StreamMessage, MessageJson}
use eventmesh_go.Http.Cursor.{
  CursorJson, CursorError, EventCursor, decode_sse_event_cursor, encode_sse_multi_topic_cursor,
}
use eventmesh_go.Http.Requests.{SubscriptionInfo}

-- StreamConfig, with times as int64 bit patterns.
pub record StreamConfig : Type 0 where
  pub topics : List Str
  pub buffer_size : ℕ
  pub reconnect_delay : ℕ
  pub max_reconnect_attempts : ℕ

-- SetDefaults
unfoldable pub set_stream_defaults : StreamConfig → StreamConfig
set_stream_defaults c = record c {
  buffer_size = if c.buffer_size == 0 then 100 else c.buffer_size;
  reconnect_delay = if c.reconnect_delay == 0 then 2000000000 else c.reconnect_delay;
}

-- strings.TrimSpace, for blanks in ASCII.
abbrev pub is_space : ℕ → Bool
is_space c = (c == 0x20) || (leb 0x09 c && leb c 0x0d)

unfoldable pub trim_left : Str → Str
trim_left [] = []
trim_left (c ∷ s) = let rest = trim_left s in if is_space c then rest else c ∷ s

unfoldable pub all_space : Str → Bool
all_space [] = true
all_space (c ∷ s) = is_space c && all_space s

unfoldable pub trim_right : Str → Str
trim_right [] = []
trim_right (c ∷ s) = let rest = trim_right s in if all_space (c ∷ s) then [] else c ∷ rest

abbrev pub trim_space : Str → Str
trim_space s = trim_right (trim_left s)

abbrev pub seen_before : Str → List Str → Bool
seen_before topic [] = false
seen_before topic (t ∷ ts) = str_eq t topic || seen_before topic ts

-- The loop of uniqueStreamTopics, with the topics that it has seen.
unfoldable pub unique_loop : List Str → List Str → List Str
unique_loop seen [] = []
unique_loop seen (raw ∷ raws) =
    let topic = trim_space raw in
    if is_empty topic
    then unique_loop seen raws
    else if seen_before topic seen
    then unique_loop seen raws
    else topic ∷ unique_loop (topic ∷ seen) raws

-- uniqueStreamTopics
unfoldable pub unique_stream_topics : List Str → List Str
unique_stream_topics topics = unique_loop [] topics

-- matchesStreamTopic, the client's copy of the test.
unfoldable pub matches_stream_topic : Str → Str → Bool
matches_stream_topic pattern topic =
    if str_eq pattern topic
    then true
    else if not (length (split pattern) == length (split topic))
    then false
    else parts_match (split pattern) (split topic)

unfoldable pub any_stream_topic : List Str → Str → Bool
any_stream_topic [] topic = false
any_stream_topic (pattern ∷ patterns) topic =
    if matches_stream_topic pattern topic then true else any_stream_topic patterns topic

-- matchesAnyStreamTopic
abbrev pub matches_any_stream_topic : List Str → Str → Bool
matches_any_stream_topic patterns topic = any_stream_topic (unique_stream_topics patterns) topic

-- parseSSEField: the value of a line of the field, if it is one.
unfoldable pub parse_sse_field : Str → Str → Option Str
parse_sse_field line field =
    let prefix = field ++ b':' ∷ [] in
    if not (has_prefix line prefix)
    then none
    else some (trim_prefix (trim_prefix line prefix) (b' ' ∷ []))

-- What the client remembers of the stream, for resuming it.
pub record Resume : Type 0 where
  pub node_id : Str
  pub offsets : Map ℕ

abbrev pub no_resume : Resume
no_resume = record { node_id = []; offsets = [] }

abbrev pub raise_offset : Option ℕ → ℕ → Bool
raise_offset none offset = true
raise_offset (some current) offset = less64 current offset

-- The offsets that stay: all of them if the cursor is of the node that is resumed from.
abbrev pub on_node : EventCursor → Resume → Resume
on_node cursor resume =
    if is_empty resume.node_id || str_eq resume.node_id cursor.node_id
    then record { node_id = cursor.node_id; offsets = resume.offsets }
    else record { node_id = cursor.node_id; offsets = [] }

abbrev pub raised : EventCursor → Resume → Resume
raised cursor resume =
    if raise_offset (lookup cursor.topic resume.offsets) cursor.offset
    then record resume { offsets = insert cursor.topic cursor.offset resume.offsets }
    else resume

-- The part of recordResumeEventID behind the decoding.
unfoldable pub record_cursor : EventCursor → Resume → Resume
record_cursor cursor resume = raised cursor (on_node cursor resume)

abbrev pub record_decoded : Result CursorError EventCursor → Resume → Resume
record_decoded (ok cursor) resume = record_cursor cursor resume
record_decoded (err e) resume = resume
record_decoded panic resume = resume

-- recordResumeEventID
unfoldable pub record_resume_event_id : CursorJson → Str → Resume → Resume
record_resume_event_id json event_id resume =
    if is_empty event_id
    then resume
    else record_decoded (decode_sse_event_cursor json event_id) resume

-- resumeCursorHeader
unfoldable pub resume_cursor_header : CursorJson → Resume → Result CursorError Str
resume_cursor_header json resume =
    if length resume.offsets == 0
    then ok []
    else encode_sse_multi_topic_cursor json resume.node_id resume.offsets

-- What processSSEStream works on: the current event id, the resume state, the events in the channel,
-- and the number of errors that it has reported.
pub record StreamState (J : Type 0) : Type 0 where
  pub current_event_id : Str
  pub resume : Resume
  pub events : List (StreamMessage J)
  pub parse_errors : ℕ

-- bufio.MaxScanTokenSize: the buffer of a scanner, which holds a line with its newline.
abbrev pub max_scan_token_size : ℕ
max_scan_token_size = 65536

module _ {J : Type 0} (json : MessageJson J) (config : StreamConfig) where
  abbrev pub with_current_id : StreamMessage J → Str → StreamMessage J
  with_current_id event current =
      if is_empty event.event_id then record event { event_id = current } else event

  -- The send on the channel, which drops the event if the channel is full.
  abbrev pub send_event : StreamMessage J → StreamState J → StreamState J
  send_event event s =
      if ltb (length s.events) config.buffer_size
      then record s { events = s.events ++ event ∷ [] }
      else s

  abbrev pub take_event : Option (StreamMessage J) → StreamState J → StreamState J
  take_event none s = record s { parse_errors = suc s.parse_errors }
  take_event (some parsed) s =
      let event = with_current_id parsed s.current_event_id in
      let noted : StreamState J = record s {
        resume = record_resume_event_id json.cursors event.event_id s.resume;
        current_event_id = [];
      } in
      if ltb 0 (length config.topics) && not (matches_any_stream_topic config.topics event.topic)
      then noted
      else send_event event noted

  abbrev pub after_id : Option Str → Option Str → StreamState J → StreamState J
  after_id (some id) value s = record s { current_event_id = trim_space id }
  after_id none (some json_data) s = take_event (json.unmarshal_message json_data) s
  after_id none none s = s

  -- One line of the stream.
  unfoldable pub process_line : Str → StreamState J → StreamState J
  process_line line s =
      after_id (parse_sse_field line (codes "id")) (parse_sse_field line (codes "data")) s

  -- processSSEStream, over the lines of a stream whose context stays live, while the consumer of the
  -- channel takes nothing. The scanner stops at a line that does not fit its buffer.
  unfoldable pub process_sse_stream : List Str → StreamState J → StreamState J
  process_sse_stream [] s = s
  process_sse_stream (line ∷ lines) s =
      if leb max_scan_token_size (length line)
      then s
      else process_sse_stream lines (process_line line s)
