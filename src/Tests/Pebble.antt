-- ===== src/Tests/Pebble.antt =====
-- Samples for the Pebble log: a store in memory, a codec for the samples, and runs on them.
use eventmesh_go.Prelude.{
  true, ℕ, zero, suc, Str, codes, false, Option, none, some, List, [], ◌∷◌, ◌++◌, ◌≡◌, refl, ap,
  length, take, drop, drop-append_self, map, ok, err, arith, inr,
}
use eventmesh_go.Prelude.Sorting.{less_bytes}
use eventmesh_go.Prelude.Maps.{Map, lookup}
use eventmesh_go.EventLog.Event.{Event, with_offset, storage}
use eventmesh_go.EventLog.Contract.{Request, append, read, end_offset, spec_step, run, no_contents}
use eventmesh_go.EventLog.Store.{
  KvStore, IsOrdered, put_all, rows_within, rows_from, readable, Ascending,
}
use eventmesh_go.EventLog.Store.Rows.{put_all-Ascending}
use eventmesh_go.EventLog.Storage.{
  Codec, IsFaithful, StoredEvent, to_stored, marshal_stored_event, unmarshal_stored_event,
}
use eventmesh_go.EventLog.Storage.Roundtrip.{unmarshal-marshal_stored_event}
use eventmesh_go.EventLog.Pebble.{PebbleLog, append_event, read_events, topic_scan}
use eventmesh_go.EventLog.Pebble.Failures.{Left, append_event-err}
use eventmesh_go.EventLog.Pebble.Refinement.{step, IsTopic, IsStorable, run-eq-pebble_contract}

-- An ordered list of keys and values as a store that never fails.
abbrev Sorted : Type 0
Sorted = (m : Map Str) × Ascending m

abbrev sorted_store : KvStore Sorted
sorted_store = record {
  get = λ k s. ok (lookup k s.0);
  commit = λ ws s. (true, (put_all ws s.0, put_all-Ascending ws s.0 s.1));
  scan = λ lower upper seek s. some (record {
    rows = map readable (rows_from seek (rows_within lower upper s.0));
    broken = false;
  });
}

sorted_store-IsOrdered : IsOrdered sorted_store
sorted_store-IsOrdered = record {
  content = λ s. s.0;
  content-Ascending = λ s. s.1;
  get-eq = λ k s. refl;
  commit-eq = λ ws s. ((put_all ws s.0, put_all-Ascending ws s.0 s.1), refl, refl);
  scan-eq = λ lower upper seek s. refl;
}

-- A text in front of the rest, with its length before it.
abbrev write_text : Str → Str → Str
write_text s rest = length s ∷ (s ++ rest)

abbrev write_rows : List (Str × Str) → Str
write_rows [] = []
write_rows ((k, v) ∷ rows) = write_text k (write_text v (write_rows rows))

abbrev first_text : Str → Str
first_text [] = []
first_text (n ∷ s) = take n s

abbrev after_text : Str → Str
after_text [] = []
after_text (n ∷ s) = drop n s

abbrev read_rows : ℕ → Str → List (Str × Str)
read_rows zero s = []
read_rows (suc n) s =
    (first_text s, first_text (after_text s)) ∷ read_rows n (after_text (after_text s))

abbrev write_message : StoredEvent → Str
write_message m =
    m.offset
    ∷ m.timestamp_nano
    ∷ write_text m.topic (write_text m.payload (length m.headers ∷ write_rows m.headers))

abbrev read_counted : Str → List (Str × Str)
read_counted [] = []
read_counted (n ∷ s) = read_rows n s

abbrev read_message : Str → Option StoredEvent
read_message [] = none
read_message (n ∷ []) = none
read_message (n ∷ t ∷ s) = some (record {
  topic = first_text s;
  offset = n;
  payload = first_text (after_text s);
  headers = read_counted (after_text (after_text s));
  timestamp_nano = t;
})

abbrev sample_codec : Codec
sample_codec = record { marshal = λ m. some (write_message m); unmarshal = read_message }

take_front : (s t : Str) → take (length s) (s ++ t) ≡ s
take_front [] t = refl
take_front (c ∷ s) t = ap (λ r. c ∷ r) (take_front s t)

read_rows-write_rows : (rows : List (Str × Str)) → read_rows (length rows) (write_rows rows) ≡ rows
read_rows-write_rows [] = refl
read_rows-write_rows ((k, v) ∷ rows) = rw (drop-append_self k (write_text v (write_rows rows))) (
    rw (take_front k (write_text v (write_rows rows))) (
      rw (take_front v (write_rows rows)) (
        rw (drop-append_self v (write_rows rows))
          (ap (λ r. (k, v) ∷ r) (read_rows-write_rows rows)))))

read-write_message : (m : StoredEvent) → read_message (write_message m) ≡ some m
read-write_message m =
    let tail : Str = length m.headers ∷ write_rows m.headers in
    rw (drop-append_self m.topic (write_text m.payload tail)) (
      rw (take_front m.topic (write_text m.payload tail)) (
        rw (take_front m.payload tail)
          (rw (drop-append_self m.payload tail) (rw (read_rows-write_rows m.headers)))))

sample_codec-IsFaithful : IsFaithful sample_codec
sample_codec-IsFaithful = record {
  unmarshal-marshal = λ m encoded e. rw (← some_eq m encoded e) (read-write_message m);
}
  where
    some_eq :
        (m : StoredEvent) (encoded : Str)
        → some (write_message m) ≡ some encoded
        → write_message m ≡ encoded
    some_eq m encoded e = cc e

abbrev orders : Str
orders = codes "orders"

-- An event with two headers.
abbrev order : ℕ → Event
order n = record {
  offset = 0;
  topic = orders;
  payload = n ∷ [];
  timestamp = 5;
  headers = (codes "a", codes "x") ∷ (codes "b", codes "y") ∷ [];
}

orders-IsTopic : IsTopic orders
orders-IsTopic = record { bytes = ground arith; short = omega arith }

order-IsStorable : (n : ℕ) → IsStorable sample_codec (order n)
unfolding less_bytes marshal_stored_event
order-IsStorable n = record {
  encoded = λ k. write_message (to_stored (with_offset k (order n)));
  encodes = λ k. refl;
  ordered = ((refl, tt), (tt, tt));
}

abbrev requests : List Request
requests =
    append orders (order 7) ∷ append orders (order 8) ∷ read orders 1 5 ∷ end_offset orders ∷ []

abbrev empty_store : Sorted
empty_store = ([], tt)

run-eq-pebble_contract_example :
    run
      (step sorted_store sample_codec 1000 sorted_store-IsOrdered sample_codec-IsFaithful)
      requests
      (record { db = empty_store; closed = false })
    ≡ run spec_step requests no_contents
unfolding sorted_store-IsOrdered
run-eq-pebble_contract_example =
    run-eq-pebble_contract sorted_store sample_codec 1000 sorted_store-IsOrdered
      sample_codec-IsFaithful empty_store requests refl
      (
        (orders-IsTopic, order-IsStorable 7),
        (
          (orders-IsTopic, order-IsStorable 8),
          ((orders-IsTopic, inr (omega arith)), (orders-IsTopic, tt)),
        ),
      )
      (omega arith)

abbrev empty_log : PebbleLog Sorted
empty_log = record { db = empty_store; closed = false }

-- The store, but a commit is applied and then its sync fails.
abbrev unsynced_store : KvStore Sorted
unsynced_store = record sorted_store {
  commit = λ ws s. (false, (put_all ws s.0, put_all-Ascending ws s.0 s.1));
}

abbrev unsynced_log : PebbleLog Sorted
unsynced_log = (append_event unsynced_store sample_codec none orders (some (order 7)) empty_log).1

unsynced_append :
    append_event unsynced_store sample_codec none orders (some (order 7)) empty_log
    ≡ (err storage, unsynced_log)
unfolding append_event eventmesh_go.EventLog.Pebble.get_topic_end_offset_locked lookup
    marshal_stored_event
unsynced_append = refl

append_event-err_example :
    Left unsynced_store sample_codec orders (some (order 7)) storage empty_log unsynced_log
append_event-err_example =
    append_event-err unsynced_store sample_codec storage none orders (some (order 7)) empty_log
      unsynced_log unsynced_append

unmarshal-marshal_stored_event_example :
    unmarshal_stored_event sample_codec (write_message (to_stored (order 7))) ≡ some (order 7)
unfolding less_bytes marshal_stored_event
unmarshal-marshal_stored_event_example =
    unmarshal-marshal_stored_event sample_codec (order 7) (write_message (to_stored (order 7)))
      sample_codec-IsFaithful ((refl, tt), (tt, tt)) refl
