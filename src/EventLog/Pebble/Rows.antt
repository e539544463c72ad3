-- ===== src/EventLog/Pebble/Rows.antt =====
-- The rows of one topic in the store, and what the loops over them read.
use eventmesh_go.Prelude.{
  ℕ, zero, suc, ◌+◌, ◌<◌, ◌≤◌, ◌^◌, Str, true, false, Option, none, some, List, [], ◌∷◌, ◌++◌, ◌≡◌,
  refl, ap, length, take, drop, map, ok, arith, ContextError, ◌⊎◌, inl, inr, Bool-cases, ltb,
  ltb→lt,
}
use eventmesh_go.Prelude.Sorting.{less_bytes, less_bytes_asym, less_bytes_irrefl}
use eventmesh_go.Prelude.Maps.{Map}
use eventmesh_go.EventLog.Event.{Event}
use eventmesh_go.EventLog.Keys.{event_key}
use eventmesh_go.EventLog.Keys.Order.{less_bytes-event_key}
use eventmesh_go.EventLog.Store.{KvStore, rows_from, readable}
use eventmesh_go.EventLog.Store.Rows.{Below}
use eventmesh_go.EventLog.Storage.{Codec, unmarshal_stored_event}
use eventmesh_go.EventLog.Pebble.{read_loop, replay_loop, event_from_iterator_value}

abbrev pub live : ℕ → Option ContextError
live i = none

order : (a b : ℕ) → a ≤ b → (a < b) ⊎ (a ≡ b)
order a b h = elim (Bool-cases (ltb a b)) [
  | inl e ↦ inl (ltb→lt a b e)
  | inr e ↦ inr (ground arith)
]

module _ (codec : Codec) (topic : Str) where
  -- The rows hold the events, under the keys of the offsets n, n + 1, …
  abbrev pub Holds : ℕ → Map Str → List Event → Type 0
  Holds n [] [] = Unit
  Holds n [] (e ∷ es) = ⊥
  Holds n (row ∷ rows) [] = ⊥
  Holds n ((k, v) ∷ rows) (e ∷ es) =
      (k ≡ event_key topic n) × (unmarshal_stored_event codec v ≡ some e) × Holds (suc n) rows es

  pub Holds-append :
      (n m : ℕ) (rows : Map Str) (es : List Event) (v : Str) (e : Event)
      → Holds n rows es
      → m ≡ n + length es
      → unmarshal_stored_event codec v ≡ some e
      → Holds n (rows ++ (event_key topic m, v) ∷ []) (es ++ e ∷ [])
  Holds-append n m [] [] v e h at_end u = (ap (event_key topic) {x = m} (omega arith), u, tt)
  Holds-append n m [] (e1 ∷ es) v e h at_end u = absurd h
  Holds-append n m (row ∷ rows) [] v e h at_end u = absurd h
  Holds-append n m ((k, w) ∷ rows) (e1 ∷ es) v e h at_end u =
      (h.0, h.1, Holds-append (suc n) m rows es v e h.2 (omega arith) u)

  pub Holds-Below :
      (n m : ℕ) (rows : Map Str) (es : List Event)
      → Holds n rows es
      → n + length es ≤ m
      → m < 2 ^ 64
      → Below (event_key topic m) rows
  Holds-Below n m [] es h le lt = tt
  Holds-Below n m (row ∷ rows) [] h le lt = absurd h
  Holds-Below n m ((k, w) ∷ rows) (e ∷ es) h le lt = (
    rw h.0 (less_bytes-event_key topic n m (omega arith) lt),
    Holds-Below (suc n) m rows es h.2 (omega arith) lt,
  )

  rows_from_kept :
      (start n : ℕ) (rows : Map Str) (es : List Event)
      → Holds n rows es
      → start ≤ n
      → n + length es < 2 ^ 64
      → rows_from (event_key topic start) rows ≡ rows
  unfolding rows_from
  rows_from_kept start n [] es h le lt = refl
  rows_from_kept start n (row ∷ rows) [] h le lt = absurd h
  rows_from_kept start n ((k, w) ∷ rows) (e ∷ es) h le lt =
      rw (not_below) (
        ap (λ r. (k, w) ∷ r) (rows_from_kept start (suc n) rows es h.2 (omega arith) (omega arith)))
    where
      not_below : less_bytes k (event_key topic start) ≡ false
      not_below = rw h.0 (elim (order start n le) [
        | inl lower ↦
            less_bytes_asym (event_key topic start) (event_key topic n)
              (less_bytes-event_key topic start n lower (omega arith))
        | inr same ↦ rw same (less_bytes_irrefl (event_key topic n))
      ])

  -- From a key of the topic on, the rows hold the events from that offset on.
  pub Holds-rows_from :
      (n k start : ℕ) (rows : Map Str) (es : List Event)
      → Holds n rows es
      → start ≡ n + k
      → n + length es < 2 ^ 64
      → start < 2 ^ 64
      → Holds start (rows_from (event_key topic start) rows) (drop k es)
  unfolding rows_from
  Holds-rows_from n zero start rows es h at lt small =
      let e : start ≡ n = omega arith in rw e (rw (rows_from_kept n n rows es h (omega arith) lt) h)
  Holds-rows_from n (suc k) start [] [] h at lt small = tt
  Holds-rows_from n (suc k) start [] (e ∷ es) h at lt small = absurd h
  Holds-rows_from n (suc k) start (row ∷ rows) [] h at lt small = absurd h
  Holds-rows_from n (suc k) start ((j, w) ∷ rows) (e ∷ es) h at lt small =
      let below : less_bytes j (event_key topic start) ≡ true =
        rw h.0 (less_bytes-event_key topic n start (omega arith) small) in
      rw below (Holds-rows_from (suc n) k start rows es h.2 (omega arith) (omega arith) small)

  -- With a live context, the loop of a read returns the first events that the rows hold.
  pub read_loop-take :
      {S : Type 0} (store : KvStore S) (n i max_count : ℕ) (rows : Map Str) (es : List Event)
      → Holds n rows es
      → read_loop store codec live i max_count (map readable rows) false ≡ ok (take max_count es)
  unfolding read_loop event_from_iterator_value
  read_loop-take store n i zero [] [] h = refl
  read_loop-take store n i (suc max_count) [] [] h = refl
  read_loop-take store n i max_count [] (e ∷ es) h = absurd h
  read_loop-take store n i max_count (row ∷ rows) [] h = absurd h
  read_loop-take store n i zero ((k, v) ∷ rows) (e ∷ es) h = refl
  read_loop-take store n i (suc max_count) ((k, v) ∷ rows) (e ∷ es) h =
      rw h.1 (rw (read_loop-take store (suc n) (suc i) max_count rows es h.2))

  -- With a live context, a replay sends all the events that the rows hold.
  pub replay_loop-all :
      {S : Type 0} (store : KvStore S) (n i : ℕ) (rows : Map Str) (es : List Event)
      → Holds n rows es
      → replay_loop store codec live live i (map readable rows) false ≡ (es, none)
  unfolding replay_loop event_from_iterator_value
  replay_loop-all store n i [] [] h = refl
  replay_loop-all store n i [] (e ∷ es) h = absurd h
  replay_loop-all store n i (row ∷ rows) [] h = absurd h
  replay_loop-all store n i ((k, v) ∷ rows) (e ∷ es) h =
      rw h.1 (rw (replay_loop-all store (suc n) (suc i) rows es h.2))
