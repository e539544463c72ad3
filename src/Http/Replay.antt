-- ===== src/Http/Replay.antt =====
-- internal/httpapi/handlers.go: the replay of the events that a stream missed, from a resume cursor.
-- The log is read as it stands when the stream resumes; `write_ok n` tells whether the connection
-- takes the frame after n frames.
pub mod Sending
pub mod Plan
pub mod Logs
use eventmesh_go.Prelude.{
  ℕ, zero, suc, ◌+◌, ◌-◌, Str, str_eq, Bool, true, false, not, ◌&&◌, Option, none, some, List, [],
  ◌∷◌, ◌++◌, length, ltb, leb, ◌==◌, if◌then◌else◌, Result, ok, err, panic,
}
use eventmesh_go.Prelude.Words.{add64, less64, is_negative}
use eventmesh_go.Prelude.Maps.{Map}
use eventmesh_go.Routing.Pattern.{split, parts_match}
use eventmesh_go.EventLog.Event.{Event, LogError}
use eventmesh_go.Http.Events.{StreamError, write_failed}

-- maxSSEResumeTopics, maxSSEResumeReplayEvents, sseReplayBatchSize
abbrev pub max_sse_resume_topics : ℕ
max_sse_resume_topics = 64

abbrev pub max_sse_resume_replay_events : ℕ
max_sse_resume_replay_events = 10000

abbrev pub sse_replay_batch_size : ℕ
sse_replay_batch_size = 1000

-- What the replay reads of the event log: ReadEvents and GetTopicEndOffset.
pub record LogReads : Type 0 where
  pub read_events : Str → ℕ → ℕ → Result LogError (List Event)
  pub get_topic_end_offset : Str → Result LogError ℕ

pub data ReplayError : Type 0 where
  topic_limit_exceeded event_limit_exceeded invalid_resume_offset crashed : ReplayError
  end_offset_failed read_failed : LogError → ReplayError
  stream_failed : StreamError → ReplayError

-- matchesTopicPattern, the HTTP API's own copy of the test.
unfoldable pub matches_topic_pattern : Str → Str → Bool
matches_topic_pattern pattern topic =
    if str_eq pattern topic
    then true
    else if not (length (split pattern) == length (split topic))
    then false
    else parts_match (split pattern) (split topic)

-- topicCoveredBySubscriptions
unfoldable pub topic_covered_by_subscriptions : Str → List Str → Bool
topic_covered_by_subscriptions topic [] = false
topic_covered_by_subscriptions topic (subscription ∷ subscriptions) =
    if matches_topic_pattern subscription topic
    then true
    else topic_covered_by_subscriptions topic subscriptions

-- One topic of the plan: the new total, with which the loop goes on.
abbrev pub plan_topic :
    ℕ → ℕ → ℕ → Result LogError ℕ → (ℕ → Option ReplayError) → Option ReplayError
plan_topic max_events next total (err e) rest = some (end_offset_failed e)
plan_topic max_events next total panic rest = some crashed
plan_topic max_events next total (ok end) rest =
    if is_negative next
    then some invalid_resume_offset
    else if not (less64 next end)
    then rest total
    else if less64 max_events (add64 total (end - next))
    then some event_limit_exceeded
    else rest (add64 total (end - next))

-- The loop of validateSSEReplayPlan. The total is an int64, which wraps around.
unfoldable pub plan_loop : LogReads → List Str → ℕ → Map ℕ → ℕ → Option ReplayError
plan_loop log subscriptions max_events [] total = none
plan_loop log subscriptions max_events ((topic, offset) ∷ topics) total =
    if not (topic_covered_by_subscriptions topic subscriptions)
    then plan_loop log subscriptions max_events topics total
    else plan_topic max_events (add64 offset 1) total (log.get_topic_end_offset topic)
        (plan_loop log subscriptions max_events topics)

-- validateSSEReplayPlan: `none` lets the replay go ahead.
unfoldable pub validate_sse_replay_plan : LogReads → Map ℕ → List Str → ℕ → ℕ → Option ReplayError
validate_sse_replay_plan log topics subscriptions max_events max_topics =
    if ltb max_topics (length topics)
    then some topic_limit_exceeded
    else plan_loop log subscriptions max_events topics 0

-- The connection: the frames that it has taken; and the count of replayed events, an atomic int64.
pub record Writer : Type 0 where
  pub frames : List Str
  pub events_replayed : ℕ

abbrev pub write_frame : (ℕ → Bool) → Result StreamError Str → Writer → Option ReplayError × Writer
write_frame write_ok (err e) w = (some (stream_failed e), w)
write_frame write_ok panic w = (some crashed, w)
write_frame write_ok (ok frame) w =
    if write_ok (length w.frames)
    then (none, record w { frames = w.frames ++ frame ∷ [] })
    else (some (stream_failed write_failed), w)

module _ (frame_of : Event → Result StreamError Str) (write_ok : ℕ → Bool) where
  abbrev pub after_frame :
      Option ReplayError × Writer
      → (Writer → Option ReplayError × ℕ × Writer)
      → ℕ
      → Option ReplayError × ℕ × Writer
  after_frame (none, w) rest next = rest w
  after_frame (some e, w) rest next = (some e, next, w)

  -- The loop over one batch, which moves the next offset behind each event that is written.
  unfoldable pub send_batch : List Event → ℕ → Writer → Option ReplayError × ℕ × Writer
  send_batch [] next w = (none, next, w)
  send_batch (event ∷ events) next w =
      after_frame (write_frame write_ok (frame_of event) w)
        (send_batch events (add64 event.offset 1)) next

  -- After a batch: the next one, if this one was full.
  abbrev pub after_batch :
      ℕ
      → Option ReplayError × ℕ × Writer
      → (ℕ → Writer → Option (Option ReplayError × Writer))
      → Option (Option ReplayError × Writer)
  after_batch size (some e, next, w) again = some (some e, w)
  after_batch size (none, next, w) again =
      let counted : Writer = record w { events_replayed = add64 w.events_replayed size } in
      if ltb size sse_replay_batch_size then some (none, counted) else again next counted

  abbrev pub after_read :
      Result LogError (List Event)
      → ℕ
      → Writer
      → (ℕ → Writer → Option (Option ReplayError × Writer))
      → Option (Option ReplayError × Writer)
  after_read (err e) next w again = some (some (read_failed e), w)
  after_read panic next w again = some (some crashed, w)
  after_read (ok []) next w again = some (none, w)
  after_read (ok (event ∷ events)) next w again =
      after_batch (length (event ∷ events)) (send_batch (event ∷ events) next w) again

  -- The batches of one topic; `none` if the fuel runs out.
  unfoldable pub replay_topic :
      LogReads → ℕ → Str → ℕ → Writer → Option (Option ReplayError × Writer)
  replay_topic log zero topic next w = none
  replay_topic log (suc fuel) topic next w =
      after_read (log.read_events topic next sse_replay_batch_size) next w
        (replay_topic log fuel topic)

  abbrev pub after_topic :
      Option (Option ReplayError × Writer)
      → (Writer → Option (Option ReplayError × Writer))
      → Option (Option ReplayError × Writer)
  after_topic none rest = none
  after_topic (some (some e, w)) rest = some (some e, w)
  after_topic (some (none, w)) rest = rest w

  -- replaySSECursor, with fuel for each topic.
  unfoldable pub replay_sse_cursor :
      LogReads → ℕ → Map ℕ → List Str → Writer → Option (Option ReplayError × Writer)
  replay_sse_cursor log fuel [] subscriptions w = some (none, w)
  replay_sse_cursor log fuel ((topic, offset) ∷ topics) subscriptions w =
      let rest = replay_sse_cursor log fuel topics subscriptions in
      if not (topic_covered_by_subscriptions topic subscriptions)
      then rest w
      else after_topic (replay_topic log fuel topic (add64 offset 1) w) rest
