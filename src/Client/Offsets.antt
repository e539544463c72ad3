-- ===== src/Client/Offsets.antt =====
-- What the client remembers for resuming a stream: offsets only grow, and what it drops it forgets.
use eventmesh_go.Prelude.{
  ℕ, ◌<◌, ◌≤◌, Str, is_empty, str_eq, str_eq_iff, str_eq_refl, true, false, Bool-cases, Option,
  none, some, [], ◌≡◌, refl, ap, ◌∙◌, sym, length, ltb, leb, ltb→lt, ◌||◌, if◌then◌else◌, arith,
  inl, inr, ok,
}
use eventmesh_go.Prelude.Words.{two63, less64, less64-eq-ltb}
use eventmesh_go.Prelude.Maps.{Map, lookup, lookup-insert}
use eventmesh_go.Http.Events.{MessageJson, StreamMessage}
use eventmesh_go.Http.Cursor.{EventCursor, decode_sse_event_cursor}
use eventmesh_go.Client.{
  Resume, record_cursor, record_resume_event_id, raise_offset, raised, StreamConfig, StreamState,
  take_event,
}

-- At least `n` is recorded for the topic.
abbrev pub AtLeast : ℕ → Option ℕ → Type 0
AtLeast n none = ⊥
AtLeast n (some m) = n ≤ m

-- Every recorded offset is an int64 that is not negative.
abbrev pub InRange : Resume → Type 0
InRange resume = (t : Str) (n : ℕ) → lookup t resume.offsets ≡ some n → n < two63

-- The offsets that are kept when a cursor of this node arrives.
abbrev kept : Str → Resume → Map ℕ
kept node_id resume =
    if is_empty resume.node_id || str_eq resume.node_id node_id then resume.offsets else []

AtLeast-raise :
    (old : Option ℕ) (offset : ℕ)
    → offset < two63
    → ((n : ℕ) → old ≡ some n → n < two63)
    → AtLeast offset (if raise_offset old offset then some offset else old)
AtLeast-raise none offset small range = omega arith
AtLeast-raise (some n) offset small range = elim (Bool-cases (less64 n offset)) [
  | inl lower ↦ rw lower (omega arith)
  | inr higher ↦
      let below = sym (less64-eq-ltb n offset (range n refl) small) ∙ higher in
      rw higher (ground (arith, below))
]

AtLeast-keep :
    (n : ℕ) (old : Option ℕ) (offset : ℕ)
    → offset < two63
    → n < two63
    → old ≡ some n
    → AtLeast n (if raise_offset old offset then some offset else old)
AtLeast-keep n none offset small range h = absurd (cc h)
AtLeast-keep n (some m) offset small range h =
    let e : m ≡ n = number m h in
    elim (Bool-cases (less64 m offset)) [
      | inl lower ↦
          let above = sym (less64-eq-ltb m offset (omega (arith, e)) small) ∙ lower in
          rw lower (omega (arith, e, ltb→lt m offset above))
      | inr higher ↦ rw higher (omega (arith, e))
    ]
  where
    number : (m : ℕ) → ◌≡◌ {A = Option ℕ} (some m) (some n) → m ≡ n
    number m h = cc h

raised_offset :
    (cursor : EventCursor) (resume : Resume) (t : Str)
    → lookup t (raised cursor resume).offsets ≡ (
        if str_eq cursor.topic t
        then (if raise_offset (lookup cursor.topic resume.offsets) cursor.offset
            then some cursor.offset
            else lookup cursor.topic resume.offsets)
        else lookup t resume.offsets)
raised_offset cursor resume t =
    elim (Bool-cases (raise_offset (lookup cursor.topic resume.offsets) cursor.offset)) [
      | inl up ↦ rw up (lookup-insert cursor.topic t cursor.offset resume.offsets)
      | inr stay ↦ rw stay (elim (Bool-cases (str_eq cursor.topic t)) [
        | inl same ↦
            rw same (ap (λ k. lookup k resume.offsets) (sym ((str_eq_iff cursor.topic t).0 same)))
        | inr other ↦ rw other
      ])
    ]

-- The offset of a topic after a cursor.
recorded_offset :
    (cursor : EventCursor) (resume : Resume) (t : Str)
    → lookup t (record_cursor cursor resume).offsets ≡ (
        if str_eq cursor.topic t
        then (if raise_offset (lookup cursor.topic (kept cursor.node_id resume)) cursor.offset
            then some cursor.offset
            else lookup cursor.topic (kept cursor.node_id resume))
        else lookup t (kept cursor.node_id resume))
unfolding record_cursor
recorded_offset cursor resume t =
    elim (Bool-cases (is_empty resume.node_id || str_eq resume.node_id cursor.node_id)) [
      | inl same ↦
          rw same
            (raised_offset cursor (record { node_id = cursor.node_id; offsets = resume.offsets }) t)
      | inr other ↦
          rw other (raised_offset cursor (record { node_id = cursor.node_id; offsets = [] }) t)
    ]

-- A cursor of the node that the client resumes from, or of the first node, makes the client remember
-- at least its offset for its topic, and lowers the offset of no topic. Offsets are not negative.
pub record_cursor-grows :
    (cursor : EventCursor) (resume : Resume)
    → (is_empty resume.node_id || str_eq resume.node_id cursor.node_id) ≡ true
    → cursor.offset < two63
    → InRange resume
    → AtLeast cursor.offset (lookup cursor.topic (record_cursor cursor resume).offsets)
      × ((t : Str) (n : ℕ)
          → lookup t resume.offsets ≡ some n
          → AtLeast n (lookup t (record_cursor cursor resume).offsets))
record_cursor-grows cursor resume same small range = (
  rw (recorded_offset cursor resume cursor.topic) (
      rw (str_eq_refl cursor.topic) (
        rw same (
          AtLeast-raise (lookup cursor.topic resume.offsets) cursor.offset small
            (range cursor.topic)))),
  λ t n h. rw (recorded_offset cursor resume t) (elim (Bool-cases (str_eq cursor.topic t)) [
    | inl here ↦
        let e = (str_eq_iff cursor.topic t).0 here in
        rw here (
          rw same (
            AtLeast-keep n (lookup cursor.topic resume.offsets) cursor.offset small (range t n h)
              (ap (λ k. lookup k resume.offsets) e ∙ h)))
    | inr elsewhere ↦ rw elsewhere (rw same (rw h (omega arith)))
  ]),
)

-- An event that arrives while the channel is full is dropped, but its cursor is recorded all the same:
-- the channel is as it was, and the client resumes behind the event. The event has an identifier
-- of its own, the client does not filter topics, and the cursor is of the node it resumes from.
pub take_event-dropped :
    {J : Type 0} (json : MessageJson J) (config : StreamConfig) (event : StreamMessage J)
    (cursor : EventCursor) (s : StreamState J)
    → config.topics ≡ []
    → leb config.buffer_size (length s.events) ≡ true
    → is_empty event.event_id ≡ false
    → decode_sse_event_cursor json.cursors event.event_id ≡ ok cursor
    → (is_empty s.resume.node_id || str_eq s.resume.node_id cursor.node_id) ≡ true
    → cursor.offset < two63
    → InRange s.resume
    → ((take_event json config (some event) s).events ≡ s.events)
      × AtLeast cursor.offset
          (lookup cursor.topic (take_event json config (some event) s).resume.offsets)
unfolding record_resume_event_id
take_event-dropped json config event cursor s all full named decoded same small range =
    let no_room : ltb (length s.events) config.buffer_size ≡ false = ground (arith, full) in
    let grows = (record_cursor-grows cursor s.resume same small range).0 in
    simp (all, named, decoded, no_room) (refl, grows)
