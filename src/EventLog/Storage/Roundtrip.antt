-- ===== src/EventLog/Storage/Roundtrip.antt =====
-- An event comes back from the message that is stored for it.
use eventmesh_go.Prelude.{Str, some, [], ◌∷◌, ◌≡◌, refl, ap, ◌∙◌, In, inl, inr}
use eventmesh_go.Prelude.Sorting.{sorted_in, sort_strings, less_bytes_asym}
use eventmesh_go.Prelude.Maps.{Map, lookup, In→lookup}
use eventmesh_go.EventLog.Event.{Event, copy_map, copy_map-eq, copy_bytes-eq}
use eventmesh_go.EventLog.Store.{Above, Ascending}
use eventmesh_go.EventLog.Store.Rows.{Ascending→IsMap}
use eventmesh_go.EventLog.Storage.{
  Codec, IsFaithful, keys_of, header_rows, to_stored, from_stored, marshal_stored_event,
  unmarshal_stored_event,
}

sorted_in_front : (k : Str) (m : Map Str) → Above k m → sorted_in k (keys_of m) ≡ k ∷ keys_of m
unfolding sorted_in
sorted_in_front k [] a = refl
sorted_in_front k ((j, w) ∷ m) a = rw (less_bytes_asym k j a.0)

sort-keys_of : (m : Map Str) → Ascending m → sort_strings (keys_of m) ≡ keys_of m
unfolding sort_strings
sort-keys_of [] a = refl
sort-keys_of ((k, v) ∷ m) a = ap (sorted_in k) (sort-keys_of m a.1) ∙ sorted_in_front k m a.0

header_rows-keys_of :
    (full m : Map Str)
    → ((k v : Str) → In (k, v) m → lookup k full ≡ some v)
    → header_rows full (keys_of m) ≡ m
unfolding header_rows
header_rows-keys_of full [] h = refl
header_rows-keys_of full ((k, v) ∷ m) h =
    rw (h k v (inl refl))
      (ap (λ r. (k, v) ∷ r) (header_rows-keys_of full m (λ j w i. h j w (inr i))))

pub from_stored-to_stored : (e : Event) → Ascending e.headers → from_stored (to_stored e) ≡ e
unfolding from_stored to_stored
from_stored-to_stored e a =
    let m = Ascending→IsMap e.headers a in
    let rows : header_rows e.headers (sort_strings (keys_of e.headers)) ≡ e.headers =
      ap (header_rows e.headers) (sort-keys_of e.headers a)
      ∙ header_rows-keys_of e.headers e.headers (λ k v i. In→lookup k v e.headers m i) in
    let headers = ap copy_map rows ∙ copy_map-eq e.headers m in
    let payload = copy_bytes-eq _ ∙ copy_bytes-eq e.payload in
    λ i. record {
      offset = e.offset;
      topic = e.topic;
      payload = payload i;
      timestamp = e.timestamp;
      headers = headers i;
    }

-- What is stored for an event is read back as that event. Its headers are listed in the order of
-- their keys; the codec reads back what it writes.
pub unmarshal-marshal_stored_event :
    (codec : Codec) (e : Event) (encoded : Str)
    → IsFaithful codec
    → Ascending e.headers
    → marshal_stored_event codec e ≡ some encoded
    → unmarshal_stored_event codec encoded ≡ some e
unfolding marshal_stored_event unmarshal_stored_event
unmarshal-marshal_stored_event codec e encoded f a h =
    rw (f.unmarshal-marshal (to_stored e) encoded h, unmarshal_stored_event)
      (ap some (from_stored-to_stored e a))
