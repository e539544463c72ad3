-- ===== src/Http/Streams/Forwarding.antt =====
-- internal/httpapi/handlers.go: the channel of a stream, and what the stream forwards from it.
use eventmesh_go.Prelude.{
  zero, suc, ℕ, ◌≤◌, Str, codes, Bool, Option, none, some, List, [], ◌∷◌, ◌++◌, ◌≡◌, sym, ap, ◌∙◌,
  append-nil, append_assoc, length, length-append, ltb, ltb→lt, arith, Result, ok, Bool-cases, inl,
  inr, refl, if◌then◌else◌, true, false,
}
use eventmesh_go.EventLog.Event.{Event}
use eventmesh_go.Http.Events.{StreamError}
use eventmesh_go.Http.Replay.{Writer}
use eventmesh_go.Http.Streams.{
  HttpClient, StreamSignal, context_done, ticked, event_taken, delivered, deliver_event,
  stream_with_keepalive,
}

-- The events that a channel with room for a hundred takes in the course of a stream, told from the
-- number of events that wait and the number of frames that the connection has taken: those that are
-- handed over while fewer than a hundred wait, until the request ends or a write fails.
abbrev pub accepted : (ℕ → Bool) → List StreamSignal → ℕ → ℕ → List Event
accepted write_ok [] waiting taken = []
accepted write_ok (context_done ∷ signals) waiting taken = []
accepted write_ok (ticked ∷ signals) waiting taken =
    let rest = accepted write_ok signals waiting (suc taken) in if write_ok taken then rest else []
accepted write_ok (delivered none ∷ signals) waiting taken = accepted write_ok signals waiting taken
accepted write_ok (delivered (some e) ∷ signals) waiting taken = elim (ltb waiting 100) [
  | true ↦ e ∷ accepted write_ok signals (suc waiting) taken
  | false ↦ accepted write_ok signals waiting taken
]
accepted write_ok (event_taken ∷ signals) zero taken = accepted write_ok signals zero taken
accepted write_ok (event_taken ∷ signals) (suc waiting) taken =
    let rest = accepted write_ok signals waiting (suc taken) in if write_ok taken then rest else []

-- The events among what was written, where none is a keepalive message.
abbrev pub events_in : List (Option Event) → List Event
events_in [] = []
events_in (some e ∷ sent) = e ∷ events_in sent
events_in (none ∷ sent) = events_in sent

module _ (frame_of : Event → Result StreamError Str) (write_ok : ℕ → Bool) (frames : Event → Str)
    (encodes : (e : Event) → frame_of e ≡ ok (frames e)) where
  abbrev pub written : List (Option Event) → List Str
  written [] = []
  written (some e ∷ sent) = frames e ∷ written sent
  written (none ∷ sent) = codes ": ping\n\n" ∷ written sent

  -- What a stream writes, what it loses when the connection fails, and what waits in the channel.
  pub record Forwarded (signals : List StreamSignal) (c : HttpClient) (w : Writer)
      (after : HttpClient × Writer) : Type 0 where
    sent : List (Option Event)
    lost : List Event
    wrote : after.1.frames ≡ w.frames ++ written sent
    in_order :
        events_in sent ++ lost ++ after.0.event_chan
        ≡ c.event_chan ++ accepted write_ok signals (length c.event_chan) (length w.frames)
    one_lost : length lost ≤ 1
    bounded : length after.0.event_chan ≤ 100

  -- The stream from a client and a writer on, for what happens next.
  abbrev Goes : List StreamSignal → HttpClient → Writer → Type 0
  Goes signals c w = Forwarded signals c w (stream_with_keepalive frame_of write_ok signals c w)

  -- Nothing more happens.
  ended :
      (signals : List StreamSignal) (c : HttpClient) (w : Writer)
      → length c.event_chan ≤ 100
      → accepted write_ok signals (length c.event_chan) (length w.frames) ≡ []
      → Forwarded signals c w (c, w)
  ended signals c w low none_more = record {
    sent = [];
    lost = [];
    wrote = sym (append-nil w.frames);
    in_order = rw none_more (sym (append-nil c.event_chan));
    one_lost = omega arith;
    bounded = low;
  }

  -- A signal that neither writes nor fills the channel.
  again :
      (signal : StreamSignal) (signals : List StreamSignal) (c : HttpClient) (w : Writer)
      (after : HttpClient × Writer)
      → accepted write_ok (signal ∷ signals) (length c.event_chan) (length w.frames)
        ≡ accepted write_ok signals (length c.event_chan) (length w.frames)
      → Forwarded signals c w after
      → Forwarded (signal ∷ signals) c w after
  again signal signals c w after same r = record {
    sent = r.sent;
    lost = r.lost;
    wrote = r.wrote;
    in_order = r.in_order ∙ ap (λ (es : List Event). c.event_chan ++ es) (sym same);
    one_lost = r.one_lost;
    bounded = r.bounded;
  }

  -- One more frame at the front of what is written.
  one_more :
      (f : Str) (w : Writer) (after rest : List Str)
      → after ≡ (w.frames ++ f ∷ []) ++ rest
      → after ≡ w.frames ++ f ∷ rest
  one_more f w after rest e = e ∙ append_assoc w.frames (f ∷ []) rest

  length-more : (f : Str) (w : Writer) → length (w.frames ++ f ∷ []) ≡ suc (length w.frames)
  length-more f w = omega (arith, length-append w.frames (f ∷ []))

  pinged :
      (signals : List StreamSignal) (c : HttpClient) (w : Writer)
      → length c.event_chan ≤ 100
      → ((v : Writer) → Goes signals c v)
      → Goes (ticked ∷ signals) c w
  unfolding stream_with_keepalive
  pinged signals c w low rest = elim (Bool-cases (write_ok (length w.frames))) [
    | inl fine ↦
        let r = rest (record w { frames = w.frames ++ codes ": ping\n\n" ∷ [] }) in
        rw fine (record {
          sent = none ∷ r.sent;
          lost = r.lost;
          wrote = one_more (codes ": ping\n\n") w _ (written r.sent) r.wrote;
          in_order = rw fine (rw (length-more (codes ": ping\n\n") w) at r.in_order);
          one_lost = r.one_lost;
          bounded = r.bounded;
        })
    | inr broken ↦ rw broken (ended (ticked ∷ signals) c w low (rw broken refl))
  ]

  taken :
      (signals : List StreamSignal) (c : HttpClient) (es : List Event) (w : Writer)
      → length es ≤ 100
      → ((d : HttpClient) (v : Writer) → length d.event_chan ≤ 100 → Goes signals d v)
      → Goes (event_taken ∷ signals) (record c { event_chan = es }) w
  unfolding stream_with_keepalive
  taken signals c [] w low rest =
      let d : HttpClient = record c { event_chan = [] } in
      again event_taken signals d w _ refl (rest d w low)
  taken signals c (e ∷ es) w low rest = elim (Bool-cases (write_ok (length w.frames))) [
    | inl fine ↦
        let r =
          rest (record c { event_chan = es }) (record w { frames = w.frames ++ frames e ∷ [] })
            (omega (arith, low)) in
        rw (encodes e, fine)
          (record {
            sent = some e ∷ r.sent;
            lost = r.lost;
            wrote = one_more (frames e) w _ (written r.sent) r.wrote;
            in_order =
                rw fine
                  (ap (λ (l : List Event). e ∷ l) (rw (length-more (frames e) w) at r.in_order));
            one_lost = r.one_lost;
            bounded = r.bounded;
          })
    | inr broken ↦
        rw (encodes e, broken)
          (record {
            sent = [];
            lost = e ∷ [];
            wrote = sym (append-nil w.frames);
            in_order = rw broken (sym (append-nil (e ∷ es)));
            one_lost = omega arith;
            bounded = omega (arith, low);
          })
  ]

  given :
      (signals : List StreamSignal) (e : Event) (c : HttpClient) (w : Writer)
      → length c.event_chan ≤ 100
      → ((d : HttpClient) → length d.event_chan ≤ 100 → Goes signals d w)
      → Goes (delivered (some e) ∷ signals) c w
  unfolding stream_with_keepalive deliver_event
  given signals e c w low rest = elim (Bool-cases (ltb (length c.event_chan) 100)) [
    | inl room ↦
        let longer : length (c.event_chan ++ e ∷ []) ≡ suc (length c.event_chan) =
          omega (arith, length-append c.event_chan (e ∷ [])) in
        let r =
          rest (record c { event_chan = c.event_chan ++ e ∷ [] })
            (omega (arith, longer, ltb→lt _ _ room)) in
        rw (room, deliver_event)
          (record {
            sent = r.sent;
            lost = r.lost;
            wrote = r.wrote;
            in_order =
                rw (room, accepted)
                  (rw longer at r.in_order
                    ∙ append_assoc c.event_chan (e ∷ [])
                        (accepted write_ok signals (suc (length c.event_chan)) (length w.frames)));
            one_lost = r.one_lost;
            bounded = r.bounded;
          })
    | inr full ↦
        rw (full, deliver_event)
          (again (delivered (some e)) signals c w _ (rw (full, accepted) refl) (rest c low))
  ]

  -- Whatever happens at a stream, in any order, and wherever the connection fails, if the encoding
  -- of events does not and the channel starts with at most a hundred events: the frames that are
  -- written are keepalive messages and events; these events, at most one that is lost with the
  -- connection, and those that still wait are, in order, the ones that waited at the start and then
  -- every event that is handed over while fewer than a hundred wait; and at most a hundred wait.
  pub stream_with_keepalive-Forwarded :
      (signals : List StreamSignal) (c : HttpClient) (w : Writer)
      → length c.event_chan ≤ 100
      → Forwarded signals c w (stream_with_keepalive frame_of write_ok signals c w)
  unfolding stream_with_keepalive deliver_event
  stream_with_keepalive-Forwarded [] c w low = ended [] c w low refl
  stream_with_keepalive-Forwarded (context_done ∷ signals) c w low =
      ended (context_done ∷ signals) c w low refl
  stream_with_keepalive-Forwarded (ticked ∷ signals) c w low =
      pinged signals c w low (λ v. stream_with_keepalive-Forwarded signals c v low)
  stream_with_keepalive-Forwarded (delivered none ∷ signals) c w low =
      again (delivered none) signals c w _ refl (stream_with_keepalive-Forwarded signals c w low)
  stream_with_keepalive-Forwarded (delivered (some e) ∷ signals) c w low =
      given signals e c w low (λ d. stream_with_keepalive-Forwarded signals d w)
  stream_with_keepalive-Forwarded (event_taken ∷ signals) c w low =
      taken signals c c.event_chan w low (stream_with_keepalive-Forwarded signals)
