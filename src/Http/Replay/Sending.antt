-- ===== src/Http/Replay/Sending.antt =====
-- A resumed stream is sent what it missed: the events of each topic from the one after the cursor on.
use eventmesh_go.Prelude.{
  ℕ, zero, suc, ◌+◌, ◌<◌, ◌≤◌, Str, is_empty, Bool, true, false, Bool-cases, Option, none, some,
  List, [], ◌∷◌, ◌++◌, ◌≡◌, refl, ap, ◌∙◌, sym, subst, map, length, take, drop, drop-drop,
  length-drop, append-nil, append_assoc, ltb, ◌==◌, ltb→lt, arith, inl, inr, Result, ok, ==_iff,
  if◌then◌else◌,
}
use eventmesh_go.Prelude.Words.{two63, add64}
use eventmesh_go.Prelude.Maps.{Map}
use eventmesh_go.EventLog.Event.{Event}
use eventmesh_go.EventLog.Memory.Invariant.{Numbered}
use eventmesh_go.Http.Events.{StreamError}
use eventmesh_go.Http.Replay.{
  LogReads, Writer, ReplayError, sse_replay_batch_size, send_batch, after_read, replay_topic,
  after_topic, replay_sse_cursor, topic_covered_by_subscriptions,
}

-- A log that is read like a list of numbered events for each named topic.
pub record Serves (log : LogReads) (c : Str → List Event) : Type 0 where
  pub read-eq :
      (topic : Str) (next : ℕ)
      → is_empty topic ≡ false
      → next < two63
      → log.read_events topic next sse_replay_batch_size
        ≡ ok (take sse_replay_batch_size (drop next (c topic)))
  pub end-eq :
      (topic : Str)
      → is_empty topic ≡ false
      → log.get_topic_end_offset topic ≡ ok (length (c topic))
  pub numbered : (topic : Str) → Numbered 0 (c topic)
  pub bounded : (topic : Str) → length (c topic) < two63

Numbered-drop : (k n : ℕ) (es : List Event) → Numbered k es → Numbered (k + n) (drop n es)
Numbered-drop k zero es h = subst (λ (m : ℕ). Numbered m es) {x = k} (omega arith) h
Numbered-drop k (suc n) [] h = tt
Numbered-drop k (suc n) (e ∷ es) h =
    subst (λ (m : ℕ). Numbered m (drop n es)) {x = suc k + n} (omega arith)
      (Numbered-drop (suc k) n es h.1)

Numbered-take : (k n : ℕ) (es : List Event) → Numbered k es → Numbered k (take n es)
Numbered-take k zero es h = tt
Numbered-take k (suc n) [] h = tt
Numbered-take k (suc n) (e ∷ es) h = (h.0, Numbered-take (suc k) n es h.1)

take_append_drop : (n : ℕ) (es : List Event) → take n es ++ drop n es ≡ es
take_append_drop zero es = refl
take_append_drop (suc n) [] = refl
take_append_drop (suc n) (e ∷ es) = ap (λ r. e ∷ r) (take_append_drop n es)

length-take : (n : ℕ) (es : List Event) → length (take n es) + length (drop n es) ≡ length es
length-take zero es = omega arith
length-take (suc n) [] = omega arith
length-take (suc n) (e ∷ es) = omega (arith, length-take n es)

length-take_bound : (n : ℕ) (es : List Event) → length (take n es) ≤ n
length-take_bound zero es = omega arith
length-take_bound (suc n) [] = omega arith
length-take_bound (suc n) (e ∷ es) = omega (arith, length-take_bound n es)

-- A page that is not full holds all.
short_page : (n : ℕ) (es : List Event) → length (take n es) < n → drop n es ≡ []
short_page zero es h = absurd (omega arith)
short_page (suc n) [] h = refl
short_page (suc n) (e ∷ es) h = short_page n es (omega arith)

map-append : (f : Event → Str) (xs ys : List Event) → map f (xs ++ ys) ≡ map f xs ++ map f ys
map-append f [] ys = refl
map-append f (x ∷ xs) ys = ap (λ r. f x ∷ r) (map-append f xs ys)

module _ (frame_of : Event → Result StreamError Str) (frames : Event → Str)
    (encodes : (e : Event) → frame_of e ≡ ok (frames e)) where
  -- A connection that takes every frame.
  abbrev pub always : ℕ → Bool
  always n = true

  abbrev with_frames : List Event → ℕ → Writer → Writer
  with_frames es replayed w = record {
    frames = w.frames ++ map frames es;
    events_replayed = replayed;
  }

  send_batch-all :
      (es : List Event) (n : ℕ) (w : Writer)
      → Numbered n es
      → n + length es < two63
      → send_batch frame_of always es n w
        ≡ (none, n + length es, with_frames es w.events_replayed w)
  unfolding send_batch
  send_batch-all [] n w h small = λ i. (
    none,
    same_number i,
    record { frames = sym (append-nil w.frames) i; events_replayed = w.events_replayed },
  )
    where
      same_number : n ≡ n + 0
      same_number = omega arith
  send_batch-all (e ∷ es) n w h small =
      let next : add64 e.offset 1 ≡ suc n = omega (arith, h.0) in
      rw (encodes e) (
        rw next (
          send_batch-all es (suc n)
            (record { frames = w.frames ++ frames e ∷ []; events_replayed = w.events_replayed }) h.1
            (omega arith)
          ∙ (λ i. (
            none,
            moved i,
            record {
              frames = append_assoc w.frames (frames e ∷ []) (map frames es) i;
              events_replayed = w.events_replayed;
            },
          ))))
    where
      moved : suc n + length es ≡ n + suc (length es)
      moved = omega arith

  after_read-all :
      (es : List Event) (n : ℕ) (w : Writer)
      (again : ℕ → Writer → Option (Option ReplayError × Writer))
      → (length es == 0) ≡ false
      → Numbered n es
      → n + length es < two63
      → after_read frame_of always (ok es) n w again ≡ (
          if ltb (length es) sse_replay_batch_size
          then some (none, with_frames es (add64 w.events_replayed (length es)) w)
          else again (n + length es) (with_frames es (add64 w.events_replayed (length es)) w))
  after_read-all [] n w again some_event h small = absurd (cc some_event)
  after_read-all (e ∷ es) n w again some_event h small = rw (send_batch-all (e ∷ es) n w h small)

  module _ (log : LogReads) (c : Str → List Event) (s : Serves log c) where
    module _ (topic : Str) (n : ℕ) (w : Writer) where
      abbrev rest : List Event
      rest = drop n (c topic)

      abbrev page : List Event
      page = take sse_replay_batch_size rest

      abbrev with_page : Writer
      with_page = with_frames page (add64 w.events_replayed (length page)) w

      in_order : Numbered n page
      in_order = Numbered-take n sse_replay_batch_size rest (
          subst (λ (m : ℕ). Numbered m rest) {x = 0 + n} (omega arith)
            (Numbered-drop 0 n (c topic) (s.numbered topic)))

      page_end : (length page == 0) ≡ false → n + length page < two63
      page_end some_event =
          let positive : 0 < length page = ground arith in
          omega (
            arith,
            positive,
            length-take sse_replay_batch_size rest,
            length-drop n (c topic),
            s.bounded topic,
          )

      no_events : (es : List Event) → (length es == 0) ≡ true → es ≡ []
      no_events [] h = refl
      no_events (e ∷ es) h = absurd (omega (arith, (==_iff (suc (length es)) 0).0 h))

      nothing_left : (length page == 0) ≡ true → rest ≡ []
      nothing_left empty =
          sym (take_append_drop sse_replay_batch_size rest)
          ∙ ap (λ r. r ++ drop sse_replay_batch_size rest) (no_events page empty)
          ∙ short_page sse_replay_batch_size rest
              (let none_there : length page ≡ 0 = (==_iff (length page) 0).0 empty in omega arith)

    -- The frames that are sent of a topic, and that sending ends.
    pub record Replayed (fuel : ℕ) (topic : Str) (n : ℕ) (w : Writer) : Type 0 where
      pub after : Writer
      pub ends : replay_topic frame_of always log fuel topic n w ≡ some (none, after)
      pub sent : after.frames ≡ w.frames ++ map frames (drop n (c topic))

    replay_topic-all :
        (fuel : ℕ) (topic : Str) (n : ℕ) (w : Writer)
        → is_empty topic ≡ false
        → n < two63
        → length (drop n (c topic)) < fuel
        → Replayed fuel topic n w
    unfolding replay_topic
    replay_topic-all zero topic n w named small enough = absurd (omega arith)
    replay_topic-all (suc fuel) topic n w named small enough =
        let rest : List Event = rest topic n w in
        let page : List Event = page topic n w in
        let with_page : Writer = with_page topic n w in
        elim (Bool-cases (length page == 0)) [
          | inl empty ↦ record {
            after = w;
            ends = rw (s.read-eq topic n named small) (rw (no_events topic n w page empty));
            sent = rw (nothing_left topic n w empty) (sym (append-nil w.frames));
          }
          | inr some_event ↦
              let step =
                after_read-all page n w (replay_topic frame_of always log fuel topic) some_event
                  (in_order topic n w) (page_end topic n w some_event) in
              elim (Bool-cases (ltb (length page) sse_replay_batch_size)) [
                | inl last ↦ record {
                  after = with_page;
                  ends = rw (s.read-eq topic n named small) (step ∙ rw last);
                  sent =
                      let whole : page ≡ rest =
                        sym (append-nil page)
                        ∙ ap (λ r. page ++ r)
                            (sym (short_page sse_replay_batch_size rest (ltb→lt _ _ last)))
                        ∙ take_append_drop sse_replay_batch_size rest in
                      ap (λ r. w.frames ++ map frames r) whole;
                }
                | inr full ↦
                    let size : length page ≡ sse_replay_batch_size =
                      ground (arith, length-take_bound sse_replay_batch_size rest) in
                    let left : drop (n + length page) (c topic) ≡ drop sse_replay_batch_size rest =
                      ap (λ (k : ℕ). drop (n + k) (c topic)) size
                      ∙ sym (drop-drop n sse_replay_batch_size (c topic)) in
                    let again =
                      replay_topic-all fuel topic (n + length page) with_page named
                        (page_end topic n w some_event)
                        (rw left
                          (omega (arith, length-take sse_replay_batch_size rest, size, enough))) in
                    record {
                      after = again.after;
                      ends = rw (s.read-eq topic n named small) (step ∙ rw full again.ends);
                      sent =
                          again.sent
                          ∙ append_assoc w.frames (map frames page)
                              (map frames (drop (n + length page) (c topic)))
                          ∙ ap (λ r. w.frames ++ r)
                              (ap (λ r. map frames page ++ map frames r) left
                                ∙ sym (map-append frames page (drop sse_replay_batch_size rest))
                                ∙ ap (map frames) (take_append_drop sse_replay_batch_size rest));
                    }
              ]
        ]

    -- The frames that the covered topics of a cursor are owed, in the order of the cursor.
    abbrev pub owed : Map ℕ → List Str → List Str
    owed [] subscriptions = []
    owed ((topic, offset) ∷ topics) subscriptions =
        if topic_covered_by_subscriptions topic subscriptions
        then map frames (drop (suc offset) (c topic)) ++ owed topics subscriptions
        else owed topics subscriptions

    -- Topics that are named, with offsets that have a successor.
    abbrev pub Resumable : Map ℕ → Type 0
    Resumable [] = Unit
    Resumable ((topic, offset) ∷ topics) =
        (is_empty topic ≡ false) × (suc offset < two63) × Resumable topics

    -- With fuel for the longest topic, the replay of a cursor ends without an error, and has sent for
    -- every topic that a subscription covers exactly the events after the cursor's offset, in their
    -- order and in the order of the cursor, and for no other topic any. The connection takes every
    -- frame, every event has a frame, topics are named and offsets have a successor.
    pub replay_sse_cursor_lem :
        (fuel : ℕ) (topics : Map ℕ) (subscriptions : List Str) (w : Writer)
        → Resumable topics
        → ((topic : Str) → length (c topic) < fuel)
        → (after : Writer) × (replay_sse_cursor frame_of always log fuel topics subscriptions w
            ≡ some (none, after))
          × (after.frames ≡ w.frames ++ owed topics subscriptions)
    unfolding replay_sse_cursor
    replay_sse_cursor_lem fuel [] subscriptions w ok_topics enough =
        (w, refl, sym (append-nil w.frames))
    replay_sse_cursor_lem fuel ((topic, offset) ∷ topics) subscriptions w ok_topics enough =
        let next : add64 offset 1 ≡ suc offset = omega (arith, ok_topics.1) in
        elim (Bool-cases (topic_covered_by_subscriptions topic subscriptions)) [
          | inl covered ↦
              let one =
                replay_topic-all fuel topic (suc offset) w ok_topics.0 ok_topics.1
                  (omega (arith, length-drop (suc offset) (c topic), enough topic)) in
              let (after, ends, sent) =
                replay_sse_cursor_lem fuel topics subscriptions one.after ok_topics.2 enough in
              let first : replay_topic frame_of always log fuel topic (add64 offset 1) w
                  ≡ some (none, one.after) =
                ap (λ (k : ℕ). replay_topic frame_of always log fuel topic k w) next ∙ one.ends in
              rw covered (
                after,
                ap
                      (λ r.
                        after_topic frame_of always r
                          (replay_sse_cursor frame_of always log fuel topics subscriptions))
                      first
                    ∙ ends,
                sent
                    ∙ ap (λ r. r ++ owed topics subscriptions) one.sent
                    ∙ append_assoc w.frames (map frames (drop (suc offset) (c topic)))
                        (owed topics subscriptions),
              )
          | inr other ↦
              rw other (replay_sse_cursor_lem fuel topics subscriptions w ok_topics.2 enough)
        ]
