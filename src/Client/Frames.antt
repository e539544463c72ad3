-- ===== src/Client/Frames.antt =====
-- A frame that the server writes is the event that the client reads.
use eventmesh_go.Prelude.{
  ℕ, ◌<◌, ◌+◌, leb, Str, codes, is_empty, true, false, some, List, [], ◌∷◌, ◌++◌, ◌≡◌, refl, ap,
  ◌∙◌, sym, length, ◌==◌, drop-append_self, append_assoc, if◌then◌else◌, arith, lt→ltb, Result, ok,
}
use eventmesh_go.Http.Auth.{has_prefix, trim_prefix}
use eventmesh_go.Http.Events.{MessageJson, StreamMessage, StreamError, sse_frame, message_frame}
use eventmesh_go.Client.{
  StreamConfig, StreamState, process_line, process_sse_stream, take_event, parse_sse_field,
  max_scan_token_size, trim_space, trim_left, trim_right, all_space, is_space,
  record_resume_event_id,
}

abbrev pub onto_line : ℕ → List Str → List Str
onto_line c [] = (c ∷ []) ∷ []
onto_line c (line ∷ lines) = (c ∷ line) ∷ lines

-- bufio.ScanLines without its care for "\r": the lines of a text, each without its "\n".
unfoldable pub scan_lines : Str → List Str
scan_lines [] = []
scan_lines (c ∷ s) = let rest = scan_lines s in if c == b'\n' then [] ∷ rest else onto_line c rest

-- No newline and no carriage return.
abbrev pub OneLine : Str → Type 0
OneLine [] = Unit
OneLine (c ∷ s) = ((c == b'\n') ≡ false) × ((c == b'\r') ≡ false) × OneLine s

-- No blank at all.
abbrev pub NoBlank : Str → Type 0
NoBlank [] = Unit
NoBlank (c ∷ s) = (is_space c ≡ false) × NoBlank s

scan_lines-line :
    (line rest : Str) → OneLine line → scan_lines (line ++ b'\n' ∷ rest) ≡ line ∷ scan_lines rest
unfolding scan_lines
scan_lines-line [] rest h = refl
scan_lines-line (c ∷ line) rest h = rw h.0 (ap (onto_line c) (scan_lines-line line rest h.2))

has_prefix-append : (p s : Str) → has_prefix (p ++ s) p ≡ true
unfolding has_prefix
has_prefix-append [] s = refl
has_prefix-append (c ∷ p) s = ground (arith, has_prefix-append p s)

-- A line "field: value" is read as the value.
pub parse_sse_field-line :
    (field value : Str) → parse_sse_field (field ++ b':' ∷ b' ' ∷ value) field ≡ some value
unfolding parse_sse_field trim_prefix has_prefix
parse_sse_field-line field value =
    let whole : field ++ b':' ∷ b' ' ∷ value ≡ (field ++ b':' ∷ []) ++ b' ' ∷ value =
      sym (append_assoc field (b':' ∷ []) (b' ' ∷ value)) in
    rw whole (
      rw (has_prefix-append (field ++ b':' ∷ []) (b' ' ∷ value))
        (rw (drop-append_self (field ++ b':' ∷ []) (b' ' ∷ value)) refl))

trim_left-NoBlank : (s : Str) → NoBlank s → trim_left s ≡ s
unfolding trim_left
trim_left-NoBlank [] h = refl
trim_left-NoBlank (c ∷ s) h = rw h.0 refl

trim_right-NoBlank : (s : Str) → NoBlank s → trim_right s ≡ s
unfolding trim_right all_space
trim_right-NoBlank [] h = refl
trim_right-NoBlank (c ∷ s) h = rw h.0 (ap (λ r. c ∷ r) (trim_right-NoBlank s h.1))

trim_space-NoBlank : (s : Str) → NoBlank s → trim_space s ≡ s
trim_space-NoBlank s h = ap trim_right (trim_left-NoBlank s h) ∙ trim_right-NoBlank s h

sse_frame-lines :
    (event_id doc : Str)
    → OneLine event_id
    → OneLine doc
    → scan_lines (sse_frame event_id doc)
      ≡ (codes "id: " ++ event_id) ∷ (codes "data: " ++ doc) ∷ [] ∷ []
unfolding sse_frame scan_lines
sse_frame-lines event_id doc hi hd =
    ap (λ r. onto_line b'i' (onto_line b'd' (onto_line b':' (onto_line b' ' r))))
      (scan_lines-line event_id (codes "data: " ++ doc ++ b'\n' ∷ b'\n' ∷ []) hi)
    ∙ ap
        (λ r.
          (codes "id: " ++ event_id)
          ∷ onto_line b'd' (
              onto_line b'a' (onto_line b't' (onto_line b'a' (onto_line b':' (onto_line b' ' r))))))
        (scan_lines-line doc (b'\n' ∷ []) hd)

module _ {J : Type 0} (json : MessageJson J) (config : StreamConfig) where
  process_lines :
      (event_id doc : Str) (s : StreamState J)
      → NoBlank event_id
      → length event_id + 4 < max_scan_token_size
      → length doc + 6 < max_scan_token_size
      → process_sse_stream json config
          ((codes "id: " ++ event_id) ∷ (codes "data: " ++ doc) ∷ [] ∷ [])
          s
        ≡ take_event json config
            (json.unmarshal_message doc)
            (record s { current_event_id = event_id })
  unfolding process_sse_stream process_line parse_sse_field has_prefix trim_prefix
  process_lines event_id doc s h id_fits doc_fits =
      let short_id : leb max_scan_token_size (length (codes "id: " ++ event_id)) ≡ false =
        ground arith in
      let short_doc : leb max_scan_token_size (length (codes "data: " ++ doc)) ≡ false =
        ground arith in
      rw (short_id, short_doc)
        (ap
          (λ id.
            take_event json config (json.unmarshal_message doc)
              (record s { current_event_id = id }))
          (trim_space-NoBlank event_id h))

  text_of : {a b : Str} → ◌≡◌ {A = Result StreamError Str} (ok a) (ok b) → b ≡ a
  text_of e = cc e

  -- The client reads the frame of a message as that message, puts it into its channel and records its
  -- identifier. JSON reads back what it writes on one line; the identifier is one line without
  -- blanks; the client does not filter topics and its channel has room; the two lines with their newlines fit the
  -- scanner's buffer of 64 KiB.
  pub process-message_frame :
      (message : StreamMessage J) (doc frame : Str) (s : StreamState J)
      → json.marshal_message message ≡ some doc
      → json.unmarshal_message doc ≡ some message
      → OneLine doc
      → OneLine message.event_id
      → NoBlank message.event_id
      → is_empty message.event_id ≡ false
      → message_frame json message ≡ ok frame
      → config.topics ≡ []
      → length s.events < config.buffer_size
      → length message.event_id + 4 < max_scan_token_size
      → length doc + 6 < max_scan_token_size
      → process_sse_stream json config (scan_lines frame) s ≡ record s {
        events = s.events ++ message ∷ [];
        current_event_id = [];
        resume = record_resume_event_id json.cursors message.event_id s.resume;
      }
  unfolding message_frame
  process-message_frame message doc frame s written read one_line one_id no_blank named made all
        room id_fits doc_fits =
      let is_frame : frame ≡ sse_frame message.event_id doc =
        text_of (rw (named, written) at made) in
      rw is_frame (
        rw (sse_frame-lines message.event_id doc one_id one_line) (
          process_lines message.event_id doc s no_blank id_fits doc_fits
          ∙ rw read (simp (named, all, lt→ltb (length s.events) config.buffer_size room) refl)))
