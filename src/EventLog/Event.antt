-- ===== src/EventLog/Event.antt =====
-- pkg/eventlog/event.go: the event record, its constructors and its copies; and the errors of
-- internal/eventlog. A time is the number of nanoseconds since the epoch.
use eventmesh_go.Prelude.{ℕ, Str, ◌≡◌, refl, ap, ◌∙◌, sym, [], ◌∷◌, ◌++◌, none, arith}
use eventmesh_go.Prelude.{append-nil, append_assoc, ContextError, str_eq, str_eq_iff, Bool-cases}
use eventmesh_go.Prelude.{inl, inr, ◌≢◌}
use eventmesh_go.Prelude.Maps.{Map, lookup, insert, IsMap}

pub record Event : Type 0 where
  pub offset : ℕ
  pub topic : Str
  pub payload : Str
  pub timestamp : ℕ
  pub headers : Map Str

pub data LogError : Type 0 where
  context : ContextError → LogError
  empty_topic nil_event negative_offset negative_max_count log_closed : LogError
  offset_overflow invalid_offset_value encoding storage : LogError

-- `for k, v := range src { dst[k] = v }`
unfoldable pub copy_into : Map Str → Map Str → Map Str
copy_into dst [] = dst
copy_into dst ((k, v) ∷ src) = copy_into (insert k v dst) src

abbrev pub copy_map : Map Str → Map Str
copy_map src = copy_into [] src

-- `make` and `copy` of a byte slice.
abbrev pub copy_bytes : Str → Str
copy_bytes [] = []
copy_bytes (c ∷ s) = c ∷ copy_bytes s

-- NewEvent, at the time `now`.
unfoldable pub new_event : ℕ → Str → Str → Event
new_event now topic payload = record {
  offset = 0;
  topic = topic;
  payload = copy_bytes payload;
  timestamp = now;
  headers = [];
}

-- NewEventWithHeaders, at the time `now`.
unfoldable pub new_event_with_headers : ℕ → Str → Str → Map Str → Event
new_event_with_headers now topic payload headers = record {
  offset = 0;
  topic = topic;
  payload = copy_bytes payload;
  timestamp = now;
  headers = copy_map headers;
}

-- WithOffset
unfoldable pub with_offset : ℕ → Event → Event
with_offset offset e = record {
  offset = offset;
  topic = e.topic;
  payload = e.payload;
  timestamp = e.timestamp;
  headers = e.headers;
}

-- Copy
unfoldable pub copy : Event → Event
copy e = record {
  offset = e.offset;
  topic = e.topic;
  payload = copy_bytes e.payload;
  timestamp = e.timestamp;
  headers = copy_map e.headers;
}

pub copy_bytes-eq : (s : Str) → copy_bytes s ≡ s
copy_bytes-eq [] = refl
copy_bytes-eq (c ∷ s) = ap (λ r. c ∷ r) (copy_bytes-eq s)

-- A write of a new key stands at the end.
insert_absent : (k v : Str) (m : Map Str) → lookup k m ≡ none → insert k v m ≡ m ++ (k, v) ∷ []
unfolding lookup insert
insert_absent k v [] h = refl
insert_absent k v ((j, w) ∷ m) h = ground (arith, insert_absent k v m)

lookup-append_singleton :
    (k j v : Str) (m : Map Str) → lookup k m ≡ none → j ≢ k → lookup k (m ++ (j, v) ∷ []) ≡ none
unfolding lookup
lookup-append_singleton k j v [] h n = ground (arith, str_eq_iff j k)
lookup-append_singleton k j v ((i, w) ∷ m) h n = ground (arith, lookup-append_singleton k j v m)

-- No key of the second map stands in the first.
abbrev Apart : Map Str → Map Str → Type 0
Apart dst [] = Unit
Apart dst ((k, v) ∷ src) = (lookup k dst ≡ none) × Apart dst src

Apart-extend :
    (j v : Str) (dst src : Map Str)
    → lookup j src ≡ none
    → Apart dst src
    → Apart (dst ++ (j, v) ∷ []) src
unfolding lookup
Apart-extend j v dst [] h a = tt
Apart-extend j v dst ((k, w) ∷ src) h a = elim (Bool-cases (str_eq k j)) [
  | inl same ↦ absurd (cc (h, same))
  | inr other ↦ (
    lookup-append_singleton k j v dst a.0 (λ e. cc ((str_eq_iff k j).1 (sym e))),
    Apart-extend j v dst src (rw other at h) a.1,
  )
]

copy_into-append : (dst src : Map Str) → Apart dst src → IsMap src → copy_into dst src ≡ dst ++ src
unfolding copy_into
copy_into-append dst [] a m = sym (append-nil dst)
copy_into-append dst ((k, v) ∷ src) a m = rw (insert_absent k v dst a.0) (
    copy_into-append (dst ++ (k, v) ∷ []) src (Apart-extend k v dst src m.0 a.1) m.1
    ∙ append_assoc dst ((k, v) ∷ []) src)

Apart-nil : (src : Map Str) → Apart [] src
unfolding lookup
Apart-nil [] = tt
Apart-nil ((k, v) ∷ src) = (refl, Apart-nil src)

pub copy_map-eq : (src : Map Str) → IsMap src → copy_map src ≡ src
copy_map-eq src m = copy_into-append [] src (Apart-nil src) m

-- A deep copy of an event whose headers are a map has the same content in every field.
pub copy_lem : (e : Event) → IsMap e.headers → copy e ≡ e
unfolding copy
copy_lem e m = λ i. record {
  offset = e.offset;
  topic = e.topic;
  payload = copy_bytes-eq e.payload i;
  timestamp = e.timestamp;
  headers = copy_map-eq e.headers m i;
}
