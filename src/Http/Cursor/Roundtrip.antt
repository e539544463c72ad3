-- ===== src/Http/Cursor/Roundtrip.antt =====
-- Cursors come back: the server and the client read what the server writes, and the server reads what
-- the client writes.
use eventmesh_go.Prelude.{
  ℕ, ◌<◌, Str, is_empty, str_eq_refl, true, false, Option, none, some, [], ◌∷◌, ◌≡◌, refl, ◌∙◌, sym,
  In, length, ltb, ◌==◌, arith, Result, ok, inl, inr,
}
use eventmesh_go.Prelude.Words.{two63, not_negative}
use eventmesh_go.Prelude.Maps.{Map, lookup, In→lookup}
use eventmesh_go.Http.Cursor.{
  CursorJson, IsFaithful, EventCursor, MultiCursor, CursorError, sse_cursor_version,
  encode_sse_cursor, encode_sse_event_cursor, decode_sse_cursor, decode_sse_event_cursor,
  encode_sse_multi_topic_cursor, validate_sse_cursor_topics, check_envelope, check_event_cursor,
}

valid_by_entries :
    (m : Map ℕ)
    → ((k : Str) (n : ℕ) → In (k, n) m → (is_empty k ≡ false) × (n < two63))
    → validate_sse_cursor_topics m ≡ none
unfolding validate_sse_cursor_topics
valid_by_entries [] h = refl
valid_by_entries ((k, n) ∷ m) h =
    let (named, small) = h k n (inl refl) in
    rw named (rw (not_negative n small) (valid_by_entries m (λ j i e. h j i (inr e))))

found_not_empty : (k : Str) (n : ℕ) (m : Map ℕ) → lookup k m ≡ some n → ltb 0 (length m) ≡ true
unfolding lookup
found_not_empty k n [] h = absurd (cc h)
found_not_empty k n (entry ∷ m) h = ground arith

first_entry : (m : Map ℕ) → (length m == 0) ≡ false → (k : Str) × (n : ℕ) × (lookup k m ≡ some n)
unfolding lookup
first_entry [] h = absurd (cc h)
first_entry ((k, n) ∷ m) h = (k, n, rw (str_eq_refl k))

module _ (json : CursorJson) (f : IsFaithful json) where
  some_injective : (a b : Str) → ◌≡◌ {A = Result CursorError Str} (ok a) (ok b) → a ≡ b
  some_injective a b e = cc e

  encoded_data :
      (doc : Option Str) (raw : Str)
      → encode_sse_cursor json doc ≡ ok raw
      → (s : Str) × (doc ≡ some s) × (raw ≡ json.base64_encode s)
  unfolding encode_sse_cursor
  encoded_data none raw h = absurd (cc h)
  encoded_data (some s) raw h = (s, refl, cc h)

  -- The identifier that the server gives to an event is read back by the server as a cursor with
  -- that one topic and offset, and by the client as the same node, topic and offset. The node and
  -- the topic are named in valid UTF-8 and the offset is not negative.
  pub decode-encode_sse_event_cursor :
      (node_id topic raw : Str) (offset : ℕ)
      → is_empty node_id ≡ false
      → is_empty topic ≡ false
      → offset < two63
      → f.Utf8 node_id
      → f.Utf8 topic
      → encode_sse_event_cursor json node_id topic offset ≡ ok raw
      → (decode_sse_cursor json raw
          ≡ ok (record {
            version = sse_cursor_version;
            node_id = node_id;
            topics = (topic, offset) ∷ [];
          }))
        × (decode_sse_event_cursor json raw
            ≡ ok (record {
              version = sse_cursor_version;
              node_id = node_id;
              topic = topic;
              offset = offset;
            }))
  unfolding encode_sse_event_cursor decode_sse_cursor decode_sse_event_cursor check_envelope
      check_event_cursor
  decode-encode_sse_event_cursor node_id topic raw offset hn ht ho un ut h =
      let cursor : EventCursor = record {
        version = sse_cursor_version;
        node_id = node_id;
        topic = topic;
        offset = offset;
      } in
      let (doc, made, is_raw) = encoded_data (json.marshal_event cursor) raw h in
      let named : is_empty (json.base64_encode doc) ≡ false =
        f.is_empty-base64_encode doc ∙ f.marshal_event-not_empty cursor doc made in
      rw is_raw (
        rw named (
          rw (f.base64_decode-encode doc) (
            rw (f.unmarshal_envelope-event cursor doc un ut made) (
              rw (f.unmarshal_event-event cursor doc un ut made)
                (simp (hn, ht, not_negative offset ho) (refl, refl))))))

  -- The cursor that the client sends to resume is read by the server with the same node and, for
  -- every topic, the same offset. The node is named, there is a topic, all is valid UTF-8, and no
  -- topic is empty or has a negative offset.
  pub decode-encode_sse_multi_topic_cursor :
      (node_id raw : Str) (topics : Map ℕ)
      → is_empty node_id ≡ false
      → (length topics == 0) ≡ false
      → f.Utf8 node_id
      → ((k : Str) (n : ℕ) → lookup k topics ≡ some n → f.Utf8 k)
      → ((k : Str) (n : ℕ) → lookup k topics ≡ some n → (is_empty k ≡ false) × (n < two63))
      → encode_sse_multi_topic_cursor json node_id topics ≡ ok raw
      → (cursor : MultiCursor) × (decode_sse_cursor json raw ≡ ok cursor)
        × (cursor.node_id ≡ node_id)
        × ((k : Str) → lookup k cursor.topics ≡ lookup k topics)
  unfolding encode_sse_multi_topic_cursor decode_sse_cursor check_envelope
  decode-encode_sse_multi_topic_cursor node_id raw topics hn some_topic un ut valid h =
      let cursor : MultiCursor = record {
        version = sse_cursor_version;
        node_id = node_id;
        topics = topics;
      } in
      let h2 : encode_sse_cursor json (json.marshal_multi cursor) ≡ ok raw =
        rw (hn, some_topic) at h in
      let (doc, made, is_raw) = encoded_data (json.marshal_multi cursor) raw h2 in
      let named : is_empty (json.base64_encode doc) ≡ false =
        f.is_empty-base64_encode doc ∙ f.marshal_multi-not_empty cursor doc made in
      let (read, is_read, m, same) = f.unmarshal_envelope-multi cursor doc un ut made in
      let all_valid : validate_sse_cursor_topics read ≡ none =
        valid_by_entries read (λ k n e. valid k n (sym (same k) ∙ In→lookup k n read m e)) in
      let (first, offset, found) = first_entry topics some_topic in
      let several : ltb 0 (length read) ≡ true =
        found_not_empty first offset read (same first ∙ found) in
      (
        record { version = sse_cursor_version; node_id = node_id; topics = read },
        rw is_raw (
            rw named
              (rw (f.base64_decode-encode doc) (rw is_read (simp (hn, several) (rw all_valid))))),
        refl,
        same,
      )
