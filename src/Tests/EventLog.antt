-- ===== src/Tests/EventLog.antt =====
-- Samples for the event log.
use eventmesh_go.Prelude.{
  ℕ, Str, codes, false, Option, none, some, List, [], ◌∷◌, ok, panic, ContextError, canceled, ◌≡◌,
  refl, arith, str_eq, if◌then◌else◌, ◌==◌, inr,
}
use eventmesh_go.Prelude.Maps.{lookup}
use eventmesh_go.EventLog.Event.{Event}
use eventmesh_go.EventLog.Contract.{Request, spec_step, run, no_contents, append, read, end_offset}
use eventmesh_go.EventLog.Memory.{MemoryLog, new_memory_log, read_events}
use eventmesh_go.EventLog.Memory.Refinement.{step, run-eq-contract}
use eventmesh_go.EventLog.Memory.Reads.{read_events_overflow}
use eventmesh_go.EventLog.Keys.{
  event_key, offset_key, event_topic_prefix, prefix_upper_bound, in_bounds,
}
use eventmesh_go.EventLog.Keys.Prefix.{Bytes, iterator_isolates_topic}

abbrev orders : Str
orders = codes "orders"

abbrev order : ℕ → Event
order n = record { offset = 0; topic = orders; payload = n ∷ []; timestamp = 5; headers = [] }

abbrev stored : ℕ → Event
stored n = record { offset = n; topic = orders; payload = n ∷ []; timestamp = 5; headers = [] }

-- A log with three events.
abbrev three_orders : MemoryLog
three_orders = record {
  events_by_topic = (orders, stored 0 ∷ stored 1 ∷ stored 2 ∷ []) ∷ [];
  next_offset_by_topic = (orders, 3) ∷ [];
  closed = false;
}

-- Two appends, a read and a question for the end, as requests.
abbrev requests : List Request
requests =
    append orders (order 0) ∷ append orders (order 1) ∷ read orders 1 5 ∷ end_offset orders ∷ []

run-eq-contract_example : run step requests new_memory_log ≡ run spec_step requests no_contents
run-eq-contract_example =
    run-eq-contract requests (tt, (tt, (inr (inr (omega arith)), (tt, tt)))) (omega arith)

first_page : read_events none orders 0 2 three_orders ≡ ok (stored 0 ∷ stored 1 ∷ [])
unfolding read_events lookup str_eq
first_page = refl

second_page : read_events none orders 2 2 three_orders ≡ ok (stored 2 ∷ [])
unfolding read_events lookup str_eq
second_page = refl

read_events_overflow_example : read_events none orders 1 9223372036854775807 three_orders ≡ panic
unfolding lookup str_eq
read_events_overflow_example =
    read_events_overflow orders 1 9223372036854775807 three_orders refl refl (omega arith)
      (omega arith) (omega arith) (omega arith)

abbrev cancelled_at_two : ℕ → Option ContextError
cancelled_at_two n = if n == 2 then some canceled else none

orders-Bytes : Bytes orders
orders-Bytes = ground arith

iterator_isolates_topic_example :
    (in_bounds
        (event_topic_prefix orders)
        (prefix_upper_bound (event_topic_prefix orders))
        (event_key (codes "orders2") 4)
      ≡ false)
    × (in_bounds
          (event_topic_prefix orders)
          (prefix_upper_bound (event_topic_prefix orders))
          (offset_key (codes "orders2"))
        ≡ false)
unfolding str_eq
iterator_isolates_topic_example =
    iterator_isolates_topic orders (codes "orders2") 4 (omega arith) (omega arith) (ground arith)
      (ground arith)
