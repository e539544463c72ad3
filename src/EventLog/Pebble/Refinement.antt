-- ===== src/EventLog/Pebble/Refinement.antt =====
-- The Pebble log implements the contract of an event log, over any ordered store and faithful codec.
use eventmesh_go.Prelude.{
  ℕ, suc, ◌+◌, ◌<◌, ◌≤◌, ◌^◌, Str, is_empty, str_eq, str_eq_iff, str_eq_refl, true, false, Option,
  none, some, List, [], ◌∷◌, ◌++◌, ◌≡◌, refl, ap, ◌∙◌, sym, length, length-append, take, drop, map,
  ok, arith, inl, inr, ◌⊎◌, Bool-cases, le→ltb, ◌==◌, ==_iff,
}
use eventmesh_go.Prelude.Words.{two63, add64, is_negative, not_negative}
use eventmesh_go.Prelude.Maps.{Map, lookup}
use eventmesh_go.EventLog.Event.{Event, with_offset}
use eventmesh_go.EventLog.Contract.{
  Request, append, read, end_offset, Reply, stored, events, offset, reply_of, Contents, no_contents,
  extend, spec_step, run, All, Simulation, run-eq-spec,
}
use eventmesh_go.EventLog.Keys.{
  event_key, offset_key, topic_prefix, event_topic_prefix, prefix_upper_bound, encode_offset,
  decode_offset_topic_key,
}
use eventmesh_go.EventLog.Keys.Order.{length-big_endian, decode-encode_offset, decode-offset_key}
use eventmesh_go.EventLog.Keys.Prefix.{Bytes, iterator_isolates_topic}
use eventmesh_go.EventLog.Store.{
  KvStore, IsOrdered, put, put_all, rows_within, rows_from, readable, Ascending,
}
use eventmesh_go.EventLog.Store.Rows.{lookup-put, rows_within-put_outside, rows_within-put_last}
use eventmesh_go.EventLog.Storage.{Codec, IsFaithful, marshal_stored_event}
use eventmesh_go.EventLog.Storage.Roundtrip.{unmarshal-marshal_stored_event}
use eventmesh_go.EventLog.Pebble.{
  PebbleLog, append_event, append_at, read_events, read_events_locked, topic_scan,
  get_topic_end_offset, get_topic_end_offset_locked, end_offset_of, checked_offset, replay_events,
}
use eventmesh_go.EventLog.Pebble.Rows.{
  live, Holds, Holds-append, Holds-Below, Holds-rows_from, read_loop-take, replay_loop-all,
}

-- A topic that the key layout can hold: bytes, fewer than 2 ^ 32 of them.
pub record IsTopic (topic : Str) : Type 0 where
  pub bytes : Bytes topic
  pub short : length topic < 2 ^ 32

-- An event that the codec can encode at every offset, with its headers listed by their keys.
pub record IsStorable (codec : Codec) (event : Event) : Type 0 where
  pub encoded : ℕ → Str
  pub encodes : (n : ℕ) → marshal_stored_event codec (with_offset n event) ≡ some (encoded n)
  pub ordered : Ascending event.headers

offset_key_injective :
    (t u : Str) → IsTopic t → IsTopic u → str_eq (offset_key t) (offset_key u) ≡ str_eq t u
offset_key_injective t u gt gu = elim (Bool-cases (str_eq t u)) [
  | inl same ↦ same_key same
  | inr other ↦ elim (Bool-cases (str_eq (offset_key t) (offset_key u))) [
    | inl h ↦ absurd (
        cc (
          other,
          (str_eq_iff t u).1 (
              topics_agree (
                sym (decode-offset_key t gt.short)
                ∙ ap decode_offset_topic_key ((str_eq_iff (offset_key t) (offset_key u)).0 h)
                ∙ decode-offset_key u gu.short)),
        ))
    | inr h ↦ h ∙ sym other
  ]
]
  where
    same_key : str_eq t u ≡ true → str_eq (offset_key t) (offset_key u) ≡ str_eq t u
    same_key same =
        let e = (str_eq_iff t u).0 same in
        (str_eq_iff (offset_key t) (offset_key u)).1 (ap offset_key e) ∙ sym same

    topics_agree : ◌≡◌ {A = Option Str} (some t) (some u) → t ≡ u
    topics_agree e = cc e

event_key_apart : (t u : Str) (n : ℕ) → str_eq (event_key t n) (offset_key u) ≡ false
unfolding event_key topic_prefix str_eq
event_key_apart t u n = refl

checked-encode_offset : (n : ℕ) → n < 2 ^ 64 → checked_offset (encode_offset n) ≡ ok n
checked-encode_offset n h = rw (length-big_endian 8 n) (ap ok (decode-encode_offset n h))

module _ {S : Type 0} (store : KvStore S) (codec : Codec) (max_capacity : ℕ) (o : IsOrdered store)
    (f : IsFaithful codec) where
  -- A request to the Pebble log, with a live context.
  unfoldable pub step : Request → PebbleLog S → Reply × PebbleLog S
  step (append topic event) log = (
    reply_of stored (append_event store codec none topic (some event) log).0,
    (append_event store codec none topic (some event) log).1,
  )
  step (read topic start max_count) log = (
    reply_of events (read_events store codec max_capacity none live topic start max_count log),
    log,
  )
  step (end_offset topic) log =
      (reply_of offset (get_topic_end_offset store codec none topic log), log)

  -- Topics that the keys can hold, events that the codec can encode, counts that `make` accepts.
  abbrev pub Safe : Request → Type 0
  Safe (append topic event) = IsTopic topic × IsStorable codec event
  Safe (read topic start max_count) =
      IsTopic topic × ((two63 ≤ max_count) ⊎ (max_count ≤ max_capacity))
  Safe (end_offset topic) = IsTopic topic

  abbrev topic_rows : Str → Map Str → Map Str
  topic_rows topic m =
      rows_within (event_topic_prefix topic) (prefix_upper_bound (event_topic_prefix topic)) m

  -- An open log with the given contents, and with room for `n` more events in each topic.
  pub record Represents (n : ℕ) (log : PebbleLog S) (c : Contents) : Type 0 where
    pub open_log : log.closed ≡ false
    pub ends :
        (topic : Str)
        → IsTopic topic
        → end_offset_of (ok (lookup (offset_key topic) (o.content log.db))) ≡ ok (length (c topic))
    pub held :
        (topic : Str)
        → IsTopic topic
        → Holds codec topic 0 (topic_rows topic (o.content log.db)) (c topic)
    pub room : (topic : Str) → length (c topic) + n < two63

  end_offset-eq :
      (n : ℕ) (topic : Str) (log : PebbleLog S) (c : Contents)
      → IsTopic topic
      → Represents n log c
      → get_topic_end_offset_locked store codec topic log ≡ ok (length (c topic))
  unfolding get_topic_end_offset_locked
  end_offset-eq n topic log c g r =
      ap end_offset_of (o.get-eq (offset_key topic) log.db) ∙ r.ends topic g

  -- What AppendEvent does to a log that represents `c`.
  pub record Appended (n : ℕ) (topic : Str) (event : Event) (log : PebbleLog S) (c : Contents)
      : Type 0 where
    pub after : PebbleLog S
    pub answer :
        append_at store codec topic event (get_topic_end_offset_locked store codec topic log) log
        ≡ (ok (with_offset (length (c topic)) event), after)
    pub kept : Represents n after (extend topic (with_offset (length (c topic)) event) c)

  module _ (n : ℕ) (topic : Str) (event : Event) (log : PebbleLog S) (c : Contents)
      (g : IsTopic topic) (st : IsStorable codec event) (r : Represents (suc n) log c) where
    abbrev next : ℕ
    next = length (c topic)

    abbrev writes : List (Str × Str)
    writes =
        (event_key topic next, st.encoded next)
        ∷ (offset_key topic, encode_offset (add64 next 1))
        ∷ []

    small : next + suc n < two63
    small = r.room topic

    number : add64 next 1 ≡ suc next
    number = omega (arith, small)

    ends_after :
        (j : Str)
        → IsTopic j
        → end_offset_of (ok (lookup (offset_key j) (put_all writes (o.content log.db))))
          ≡ ok (length (extend topic (with_offset next event) c j))
    unfolding put_all
    ends_after j gj = rw lookup-put (
        rw (offset_key_injective topic j g gj) (elim (Bool-cases (str_eq topic j)) [
          | inl same ↦ rw same (
              rw number (
                checked-encode_offset (suc next) (omega (arith, small))
                ∙ ap ok (omega (arith, length-append {0} (c topic) (with_offset next event ∷ [])))))
          | inr other ↦ rw other (rw lookup-put (rw event_key_apart (r.ends j gj)))
        ]))

    ordered_after : Ascending (with_offset next event).headers
    unfolding with_offset
    ordered_after = st.ordered

    abbrev rows_before : Map Str
    rows_before = topic_rows topic (o.content log.db)

    -- The rows of the topic itself: one more at the end.
    held_self :
        Holds codec topic 0
          (topic_rows topic (put (event_key topic next) (st.encoded next) (o.content log.db)))
          (c topic ++ with_offset next event ∷ [])
    held_self =
        let isolated = iterator_isolates_topic topic topic next g.short g.short g.bytes g.bytes in
        let held = r.held topic g in
        rw
          (rows_within-put_last (event_topic_prefix topic)
            (prefix_upper_bound (event_topic_prefix topic)) (event_key topic next) (st.encoded next)
            (o.content log.db) (isolated.0 ∙ str_eq_refl topic) (o.content-Ascending log.db)
            (Holds-Below codec topic 0 next rows_before (c topic) held (omega arith)
              (omega (arith, small))))
          (Holds-append codec topic 0 next rows_before (c topic) (st.encoded next)
            (with_offset next event) held (omega arith)
            (unmarshal-marshal_stored_event codec (with_offset next event) (st.encoded next) f
              ordered_after (st.encodes next)))

    held_after :
        (j : Str)
        → IsTopic j
        → Holds codec j 0
            (topic_rows j (put_all writes (o.content log.db)))
            (extend topic (with_offset next event) c j)
    unfolding put_all
    held_after j gj =
        let isolated = iterator_isolates_topic j topic next gj.short g.short gj.bytes g.bytes in
        rw
          (rows_within-put_outside (event_topic_prefix j)
            (prefix_upper_bound (event_topic_prefix j)) (offset_key topic)
            (encode_offset (add64 next 1))
            (put (event_key topic next) (st.encoded next) (o.content log.db)) isolated.1)
          (elim (Bool-cases (str_eq topic j)) [
            | inl same ↦ rw same (rw (← (str_eq_iff topic j).0 same) held_self)
            | inr other ↦ rw other (
                rw
                  (rows_within-put_outside (event_topic_prefix j)
                    (prefix_upper_bound (event_topic_prefix j)) (event_key topic next)
                    (st.encoded next) (o.content log.db)
                    (isolated.0 ∙ ground (arith, str_eq_iff topic j, str_eq_iff j topic, other)))
                  (r.held j gj))
          ])

  append_lem :
      (n : ℕ) (topic : Str) (event : Event) (log : PebbleLog S) (c : Contents)
      → IsTopic topic
      → IsStorable codec event
      → Represents (suc n) log c
      → Appended n topic event log c
  append_lem n topic event log c g st r =
      let next = length (c topic) in
      let (db, done, content) = o.commit-eq (writes n topic event log c g st r) log.db in
      record {
        after = record log { db = db };
        answer =
            rw (end_offset-eq (suc n) topic log c g r) (
              rw (not_negative next (omega (arith, r.room topic)))
                (rw (st.encodes next) (rw done)));
        kept = record {
          open_log = r.open_log;
          ends = λ j gj. rw content (ends_after n topic event log c g st r j gj);
          held = λ j gj. rw content (held_after n topic event log c g st r j gj);
          room = λ j. elim (Bool-cases (str_eq topic j)) [
            | inl same ↦ rw same (
                omega
                  (arith, r.room topic, length-append {0} (c topic) (with_offset next event ∷ [])))
            | inr other ↦ rw other (omega (arith, r.room j))
          ];
        };
      }

  Represents-less :
      (n : ℕ) (log : PebbleLog S) (c : Contents) → Represents (suc n) log c → Represents n log c
  Represents-less n log c r = record {
    open_log = r.open_log;
    ends = r.ends;
    held = r.held;
    room = λ j. omega (arith, r.room j);
  }

  topic_scan-eq :
      (topic seek : Str) (log : PebbleLog S)
      → topic_scan store codec topic seek log
        ≡ some (record {
          rows = map readable (rows_from seek (topic_rows topic (o.content log.db)));
          broken = false;
        })
  unfolding topic_scan
  topic_scan-eq topic seek log =
      o.scan-eq (event_topic_prefix topic) (prefix_upper_bound (event_topic_prefix topic)) seek
        log.db

  read_locked-eq :
      (n : ℕ) (topic : Str) (start max_count : ℕ) (log : PebbleLog S) (c : Contents)
      → IsTopic topic
      → start < two63
      → max_count ≤ max_capacity
      → Represents n log c
      → read_events_locked store codec max_capacity live topic start max_count log
        ≡ ok (take max_count (drop start (c topic)))
  unfolding read_events_locked
  read_locked-eq n topic start max_count log c g hs hm r =
      rw (topic_scan-eq topic (event_key topic start) log) (
        rw (le→ltb max_capacity max_count hm) (
          read_loop-take codec topic store start 0 max_count
            (rows_from (event_key topic start) (topic_rows topic (o.content log.db)))
            (drop start (c topic))
            (Holds-rows_from codec topic 0 start start (topic_rows topic (o.content log.db))
              (c topic) (r.held topic g) (omega arith) (omega (arith, r.room topic))
              (omega arith))))

  -- On a log that represents the contents, a replay with a live context sends every event of the
  -- topic from the given offset on, in order, and no error.
  pub replay_events-all :
      (n : ℕ) (topic : Str) (start : ℕ) (log : PebbleLog S) (c : Contents)
      → IsTopic topic
      → is_empty topic ≡ false
      → start < two63
      → Represents n log c
      → replay_events store codec none live live topic start log ≡ (drop start (c topic), none)
  unfolding replay_events
  replay_events-all n topic start log c g named hs r =
      simp (named, not_negative start hs, r.open_log)
        (rw (topic_scan-eq topic (event_key topic start) log) (
          replay_loop-all codec topic store start 0
            (rows_from (event_key topic start) (topic_rows topic (o.content log.db)))
            (drop start (c topic))
            (Holds-rows_from codec topic 0 start start (topic_rows topic (o.content log.db))
              (c topic) (r.held topic g) (omega arith) (omega (arith, r.room topic))
              (omega arith))))

  respond :
      (n : ℕ) (q : Request) (log : PebbleLog S) (c : Contents)
      → Safe q
      → Represents (suc n) log c
      → (step q log).0 ≡ (spec_step q c).0
  unfolding step spec_step append_event read_events get_topic_end_offset
  respond n (append topic event) log c safe r = elim (Bool-cases (is_empty topic)) [
    | inl e ↦ rw e
    | inr e ↦ simp (e, r.open_log) (rw (append_lem n topic event log c safe.0 safe.1 r).answer)
  ]
  respond n (read topic start max_count) log c safe r = elim (Bool-cases (is_empty topic)) [
    | inl e ↦ rw e
    | inr e ↦ rw e (elim (Bool-cases (is_negative start)) [
      | inl below ↦ rw below
      | inr start_ok ↦ rw start_ok (elim (Bool-cases (is_negative max_count)) [
        | inl below ↦ rw below
        | inr max_ok ↦ rw max_ok (elim (Bool-cases (max_count == 0)) [
          | inl none_wanted ↦
              simp (r.open_log, none_wanted)
                (ap (λ (k : ℕ). events (take k (drop start (c topic))))
                  (sym ((==_iff max_count 0).0 none_wanted)))
          | inr wanted ↦
              simp (r.open_log, wanted)
                (rw (
                  read_locked-eq (suc n) topic start max_count log c safe.0 (ground arith)
                    (ground (arith, safe.1)) r))
        ])
      ])
    ])
  ]
  respond n (end_offset topic) log c safe r = elim (Bool-cases (is_empty topic)) [
    | inl e ↦ rw e
    | inr e ↦
        simp (e, r.open_log)
          (rw (end_offset-eq (suc n) topic log c safe r)
            (rw (not_negative (length (c topic)) (omega (arith, r.room topic)))))
  ]

  follow :
      (n : ℕ) (q : Request) (log : PebbleLog S) (c : Contents)
      → Safe q
      → Represents (suc n) log c
      → Represents n (step q log).1 (spec_step q c).1
  unfolding step spec_step append_event
  follow n (append topic event) log c safe r = elim (Bool-cases (is_empty topic)) [
    | inl e ↦ simp e (Represents-less n log c r)
    | inr e ↦
        let appended = append_lem n topic event log c safe.0 safe.1 r in
        simp (e, r.open_log) (rw appended.answer appended.kept)
  ]
  follow n (read topic start max_count) log c safe r = Represents-less n log c r
  follow n (end_offset topic) log c safe r = Represents-less n log c r

  pebble_simulation : Simulation step Safe
  pebble_simulation = record { Relates = Represents; respond = respond; follow = follow }

  -- From an empty store that keeps its promises, the Pebble log answers any fewer than 2 ^ 63
  -- requests exactly as the list specification answers them: each stored event with its offset, each
  -- page, each end offset and each error. The topics are bytes, fewer than 2 ^ 32; the appended
  -- events can be encoded and list their headers by their keys; a count is negative or one that
  -- `make` accepts; the contexts are live.
  pub run-eq-pebble_contract :
      (db : S) (rs : List Request)
      → o.content db ≡ []
      → All Safe rs
      → length rs < two63
      → run step rs (record { db = db; closed = false }) ≡ run spec_step rs no_contents
  unfolding pebble_simulation
  run-eq-pebble_contract db rs empty safe few =
      run-eq-spec step Safe pebble_simulation rs (record { db = db; closed = false }) no_contents
        safe
        (record {
          open_log = refl;
          ends = λ topic g. rw empty (unfold lookup in refl);
          held = λ topic g. rw empty (unfold rows_within in tt);
          room = λ topic. omega arith;
        })
