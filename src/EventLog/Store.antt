-- ===== src/EventLog/Store.antt =====
-- github.com/cockroachdb/pebble, as far as internal/eventlog/pebble.go calls it: an ordered store of
-- keys and values. The store is a parameter of the log; its documented behaviour is `IsOrdered`.
pub mod Rows
use eventmesh_go.Prelude.{
  Str, str_eq, Bool, true, false, not, ◌&&◌, Option, none, some, List, [], ◌∷◌, map, ◌≡◌, Result,
  ok, if◌then◌else◌,
}
use eventmesh_go.Prelude.Sorting.{less_bytes}
use eventmesh_go.Prelude.Maps.{Map, lookup}
use eventmesh_go.EventLog.Event.{LogError}
use eventmesh_go.EventLog.Keys.{in_bounds}

-- What an iterator meets from the key it is set to: the keys with their values, `none` for a value
-- that cannot be read, and whether `iter.Error()` tells of a failure at the end.
pub record Scan : Type 0 where
  pub rows : List (Str × Option Str)
  pub broken : Bool

pub record KvStore (S : Type 0) : Type 0 where
  -- `db.Get`; `ok none` is `pebble.ErrNotFound`.
  pub get : Str → S → Result LogError (Option Str)
  -- `batch.Set` for each pair and `batch.Commit(pebble.Sync)`: whether it returns no error, and the
  -- store after it. A commit whose sync fails may have changed the store.
  pub commit : List (Str × Str) → S → Bool × S
  -- `db.NewIter` with these bounds, then `SeekGE` to a key and `Next` to the end.
  pub scan : Str → Option Str → Str → S → Option Scan

-- A write to an ordered list of keys.
unfoldable pub put : Str → Str → Map Str → Map Str
put k v [] = (k, v) ∷ []
put k v ((j, w) ∷ m) =
    let rest = put k v m in
    if less_bytes j k then (j, w) ∷ rest else if str_eq j k then (k, v) ∷ m else (k, v) ∷ (j, w) ∷ m

unfoldable pub put_all : List (Str × Str) → Map Str → Map Str
put_all [] m = m
put_all ((k, v) ∷ ws) m = put_all ws (put k v m)

-- The rows within bounds.
unfoldable pub rows_within : Str → Option Str → Map Str → Map Str
rows_within lower upper [] = []
rows_within lower upper ((k, v) ∷ m) =
    let rest = rows_within lower upper m in if in_bounds lower upper k then (k, v) ∷ rest else rest

-- The rows from a key on.
unfoldable pub rows_from : Str → Map Str → Map Str
rows_from seek [] = []
rows_from seek ((k, v) ∷ m) =
    let rest = rows_from seek m in if less_bytes k seek then rest else (k, v) ∷ rest

abbrev pub readable : Str × Str → Str × Option Str
readable (k, v) = (k, some v)

-- Every key of the list is above `j`.
abbrev pub Above : Str → Map Str → Type 0
Above j [] = Unit
Above j ((k, v) ∷ m) = (less_bytes j k ≡ true) × Above j m

abbrev pub Ascending : Map Str → Type 0
Ascending [] = Unit
Ascending ((k, v) ∷ m) = Above k m × Ascending m

-- A store that does not fail: reads and iterators show the keys and values that were committed, in
-- the order of the keys.
pub record IsOrdered {S : Type 0} (store : KvStore S) : Type 0 where
  pub content : S → Map Str
  pub content-Ascending : (s : S) → Ascending (content s)
  pub get-eq : (k : Str) (s : S) → store.get k s ≡ ok (lookup k (content s))
  pub commit-eq :
      (ws : List (Str × Str)) (s : S)
      → (s' : S) × (store.commit ws s ≡ (true, s')) × (content s' ≡ put_all ws (content s))
  pub scan-eq :
      (lower : Str) (upper : Option Str) (seek : Str) (s : S)
      → store.scan lower upper seek s
        ≡ some (record {
          rows = map readable (rows_from seek (rows_within lower upper (content s)));
          broken = false;
        })
