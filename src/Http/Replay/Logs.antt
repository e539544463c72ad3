-- ===== src/Http/Replay/Logs.antt =====
-- The in-memory log is one that a replay can be served from.
use eventmesh_go.Prelude.{
  ℕ, ◌+◌, ◌<◌, Str, false, none, List, ◌≡◌, ap, sym, length, take, drop, drop_all, take-nil, arith,
  inl, inr, Bool-cases, leb, leb→le, ok,
}
use eventmesh_go.Prelude.Words.{two63, not_negative}
use eventmesh_go.EventLog.Event.{Event}
use eventmesh_go.EventLog.Memory.{
  MemoryLog, events_of, read_events, get_topic_end_offset, slice_events,
}
use eventmesh_go.EventLog.Memory.Invariant.{IsConsistent}
use eventmesh_go.EventLog.Memory.Refinement.{slice_events-eq}
use eventmesh_go.Http.Replay.{LogReads, sse_replay_batch_size}
use eventmesh_go.Http.Replay.Sending.{Serves}

-- The reads of the in-memory log, with a live context.
abbrev pub memory_reads : MemoryLog → LogReads
memory_reads log = record {
  read_events = λ topic next max_count. read_events none topic next max_count log;
  get_topic_end_offset = λ topic. get_topic_end_offset none topic log;
}

slice_events-page :
    (es : List Event) (next : ℕ)
    → length es + sse_replay_batch_size < two63
    → next < two63
    → slice_events es next sse_replay_batch_size ≡ ok (take sse_replay_batch_size (drop next es))
slice_events-page es next room small = elim (Bool-cases (leb (length es) next)) [
  | inl past ↦
      unfold slice_events in
      rw past
        (rw (drop_all next es (leb→le _ _ past)) (ap ok (sym (take-nil sse_replay_batch_size))))
  | inr before ↦ slice_events-eq es next sse_replay_batch_size (omega arith) small (ground arith)
]

-- An open, consistent log in memory serves replays with the events that it holds, as long as every
-- topic is a batch away from the largest int64.
pub memory_reads-Serves :
    (log : MemoryLog)
    → log.closed ≡ false
    → IsConsistent log
    → ((topic : Str) → length (events_of log topic) + sse_replay_batch_size < two63)
    → Serves (memory_reads log) (events_of log)
unfolding read_events get_topic_end_offset
memory_reads-Serves log open_log c room = record {
  read-eq = λ topic next named small.
      simp (named, not_negative next small, open_log)
        (slice_events-page (events_of log topic) next (room topic) small);
  end-eq = λ topic named. simp (named, open_log) (ap ok (c.counted topic));
  numbered = c.numbered;
  bounded = λ topic. omega (arith, room topic);
}
