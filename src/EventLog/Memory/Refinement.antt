-- ===== src/EventLog/Memory/Refinement.antt =====
-- The in-memory log implements the contract of an event log.
use eventmesh_go.Prelude.{
  ℕ, suc, ◌+◌, ◌-◌, ◌<◌, ◌≤◌, Str, is_empty, str_eq, false, none, some, List, [], ◌∷◌, ◌≡◌, refl,
  ap, sym, ◌∙◌, length, length-append, take, drop, drop_all, take_all, take-nil, length-drop, ok,
  arith, inl, inr, ◌⊎◌, Bool-cases, leb, leb→le, ltb, ltb→lt,
}
use eventmesh_go.Prelude.Words.{two63, add64, is_negative, less64-eq-ltb, not_negative}
use eventmesh_go.Prelude.Maps.{lookup}
use eventmesh_go.EventLog.Event.{Event, with_offset}
use eventmesh_go.EventLog.Contract.{
  Request, append, read, end_offset, Reply, stored, events, offset, reply_of, Contents, no_contents,
  extend, spec_step, run, All, Simulation, run-eq-spec,
}
use eventmesh_go.EventLog.Memory.{
  MemoryLog, new_memory_log, events_of, next_offset_of, append_open, append_event, end_index,
  slice_events, read_events, get_topic_end_offset,
}
use eventmesh_go.EventLog.Memory.Invariant.{events_of-append_open, next_offset_of-append_open}

-- A request to the log in memory, with a live context.
unfoldable pub step : Request → MemoryLog → Reply × MemoryLog
step (append topic event) log = (
  reply_of stored (append_event none topic (some event) log).0,
  (append_event none topic (some event) log).1,
)
step (read topic start max_count) log =
    (reply_of events (read_events none topic start max_count log), log)
step (end_offset topic) log = (reply_of offset (get_topic_end_offset none topic log), log)

-- A read whose range does not pass the largest int64.
abbrev pub Safe : Request → Type 0
Safe (append topic event) = Unit
Safe (read topic start max_count) =
    (two63 ≤ start) ⊎ (two63 ≤ max_count) ⊎ (start + max_count < two63)
Safe (end_offset topic) = Unit

-- An open log with the given contents, and with room for `n` more events in each topic.
pub record Represents (n : ℕ) (log : MemoryLog) (c : Contents) : Type 0 where
  pub open_log : log.closed ≡ false
  pub content : (topic : Str) → events_of log topic ≡ c topic
  pub counted : (topic : Str) → next_offset_of log topic ≡ length (c topic)
  pub room : (topic : Str) → length (c topic) + n < two63

-- In range, the slice is what the specification reads.
pub slice_events-eq :
    (xs : List Event) (start max_count : ℕ)
    → length xs < two63
    → start < two63
    → start + max_count < two63
    → slice_events xs start max_count ≡ ok (take max_count (drop start xs))
unfolding slice_events end_index
slice_events-eq xs start max_count hx hs h = elim (Bool-cases (leb (length xs) start)) [
  | inl past ↦ rw past (rw (drop_all start xs (leb→le _ _ past)) (rw take-nil))
  | inr before ↦
      let sum : add64 start max_count ≡ start + max_count = omega arith in
      rw before (
        rw sum (
          rw (less64-eq-ltb (length xs) (start + max_count) hx h)
            (elim (Bool-cases (ltb (length xs) (start + max_count))) [
              | inl long ↦ rw long (
                  rw (not_negative (length xs) hx) (
                    ap ok (
                      take_all (length xs - start) (drop start xs)
                        (omega (arith, length-drop start xs))
                      ∙ sym (
                          take_all max_count (drop start xs) (
                            omega (
                              arith,
                              length-drop start xs,
                              ltb→lt (length xs) (start + max_count) long,
                            ))))))
              | inr short ↦ rw short (
                  rw (not_negative (start + max_count) h)
                    (ap (λ (k : ℕ). ok (take k (drop start xs))) (omega arith)))
            ])))
]

respond_read :
    (topic : Str) (start max_count n : ℕ) (log : MemoryLog) (c : Contents)
    → Safe (read topic start max_count)
    → Represents (suc n) log c
    → (step (read topic start max_count) log).0 ≡ (spec_step (read topic start max_count) c).0
unfolding step spec_step read_events
respond_read topic start max_count n log c safe r = elim (Bool-cases (is_empty topic)) [
  | inl e ↦ rw e
  | inr e ↦ rw e (elim (Bool-cases (is_negative start)) [
    | inl below ↦ rw below
    | inr start_ok ↦ rw start_ok (elim (Bool-cases (is_negative max_count)) [
      | inl below ↦ rw below
      | inr max_ok ↦
          simp (max_ok, r.open_log, r.content)
            (rw (
              slice_events-eq (c topic) start max_count (omega (arith, r.room topic)) (ground arith)
                (ground arith)))
    ])
  ])
]

respond :
    (n : ℕ) (r : Request) (log : MemoryLog) (c : Contents)
    → Safe r
    → Represents (suc n) log c
    → (step r log).0 ≡ (spec_step r c).0
unfolding step spec_step append_event append_open get_topic_end_offset
respond n (append topic event) log c safe r = elim (Bool-cases (is_empty topic)) [
  | inl e ↦ rw e
  | inr e ↦ simp (e, r.open_log, r.counted)
]
respond n (read topic start max_count) log c safe r =
    respond_read topic start max_count n log c safe r
respond n (end_offset topic) log c safe r = elim (Bool-cases (is_empty topic)) [
  | inl e ↦ rw e
  | inr e ↦ simp (e, r.open_log, r.counted)
]

Represents-append :
    (n : ℕ) (topic : Str) (event : Event) (log : MemoryLog) (c : Contents)
    → Represents (suc n) log c
    → Represents n
        (append_open topic event log).1
        (extend topic (with_offset (length (c topic)) event) c)
Represents-append n topic event log c r = record {
  open_log = unfold append_open in r.open_log;
  content = λ j. rw events_of-append_open (rw (r.counted topic, r.content topic, r.content j));
  counted = λ j. rw next_offset_of-append_open (elim (Bool-cases (str_eq topic j)) [
    | inl same ↦ rw same (
        omega (
          arith,
          r.counted topic,
          r.room topic,
          length-append {0} (c topic) (with_offset (length (c topic)) event ∷ []),
        ))
    | inr other ↦ rw other (r.counted j)
  ]);
  room = λ j. elim (Bool-cases (str_eq topic j)) [
    | inl same ↦ rw same (
        omega (
          arith,
          r.room topic,
          length-append {0} (c topic) (with_offset (length (c topic)) event ∷ []),
        ))
    | inr other ↦ rw other (omega (arith, r.room j))
  ];
}

Represents-less :
    (n : ℕ) (log : MemoryLog) (c : Contents) → Represents (suc n) log c → Represents n log c
Represents-less n log c r = record {
  open_log = r.open_log;
  content = r.content;
  counted = r.counted;
  room = λ j. omega (arith, r.room j);
}

follow :
    (n : ℕ) (r : Request) (log : MemoryLog) (c : Contents)
    → Safe r
    → Represents (suc n) log c
    → Represents n (step r log).1 (spec_step r c).1
unfolding step spec_step append_event
follow n (append topic event) log c safe r = elim (Bool-cases (is_empty topic)) [
  | inl e ↦ simp e (Represents-less n log c r)
  | inr e ↦ simp (e, r.open_log) (Represents-append n topic event log c r)
]
follow n (read topic start max_count) log c safe r = Represents-less n log c r
follow n (end_offset topic) log c safe r = Represents-less n log c r

memory_simulation : Simulation step Safe
memory_simulation = record { Relates = Represents; respond = respond; follow = follow }

-- From a new log, any fewer than 2 ^ 63 requests, whose reads do not range past the largest int64,
-- are answered by the in-memory log exactly as the list specification answers them: each stored
-- event with the offset that the specification assigns, each page, each end offset and each error.
pub run-eq-contract :
    (rs : List Request)
    → All Safe rs
    → length rs < two63
    → run step rs new_memory_log ≡ run spec_step rs no_contents
unfolding memory_simulation
run-eq-contract rs safe few =
    run-eq-spec step Safe memory_simulation rs new_memory_log no_contents safe (record {
      open_log = refl;
      content = λ topic. unfold lookup in refl;
      counted = λ topic. unfold lookup in refl;
      room = λ topic. omega arith;
    })
