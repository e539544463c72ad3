-- ===== src/EventLog/Store/Rows.antt =====
-- What writes do to an ordered store, and to the rows within the bounds of an iterator.
use eventmesh_go.Prelude.{
  Str, str_eq, str_eq_iff, Bool-cases, inl, inr, true, false, Option, none, some, [], ◌∷◌, ◌++◌,
  ◌≡◌, refl, ap, if◌then◌else◌, arith,
}
use eventmesh_go.Prelude.Sorting.{
  less_bytes, less_bytes_irrefl, less_bytes_trans, less_bytes_asym, less_bytes_total,
}
use eventmesh_go.Prelude.Maps.{Map, lookup, IsMap}
use eventmesh_go.EventLog.Keys.{in_bounds}
use eventmesh_go.EventLog.Store.{put, put_all, rows_within, Above, Ascending}

-- Every key of the list is below `k`.
abbrev pub Below : Str → Map Str → Type 0
Below k [] = Unit
Below k ((j, v) ∷ m) = (less_bytes j k ≡ true) × Below k m

pub lookup-put :
    (j k v : Str) (m : Map Str) → lookup k (put j v m) ≡ (if str_eq j k then some v else lookup k m)
unfolding lookup put
lookup-put j k v [] = refl
lookup-put j k v ((i, w) ∷ m) =
    ground (
      arith,
      str_eq_iff j k,
      str_eq_iff i k,
      str_eq_iff i j,
      less_bytes_irrefl j,
      lookup-put j k v m,
    )

pub Above-trans : (k j : Str) (m : Map Str) → less_bytes k j ≡ true → Above j m → Above k m
Above-trans k j [] h a = tt
Above-trans k j ((i, w) ∷ m) h a = (less_bytes_trans k j i h a.0, Above-trans k j m h a.1)

Above-put : (j k v : Str) (m : Map Str) → less_bytes j k ≡ true → Above j m → Above j (put k v m)
unfolding put
Above-put j k v [] h a = (h, tt)
Above-put j k v ((i, w) ∷ m) h a = ground (arith, Above-put j k v m, a.0, a.1)

-- A write keeps the keys in order.
pub put-Ascending : (k v : Str) (m : Map Str) → Ascending m → Ascending (put k v m)
unfolding put
put-Ascending k v [] a = (tt, tt)
put-Ascending k v ((j, w) ∷ m) a = elim (Bool-cases (less_bytes j k)) [
  | inl below ↦ rw below (Above-put j k v m below a.0, put-Ascending k v m a.1)
  | inr above ↦ rw above (elim (Bool-cases (str_eq j k)) [
    | inl same ↦ rw same (rw (← (str_eq_iff j k).0 same) a)
    | inr other ↦
        let up = less_bytes_total j k other above in rw other ((up, Above-trans k j m up a.0), a)
  ])
]

pub put_all-Ascending : (ws m : Map Str) → Ascending m → Ascending (put_all ws m)
unfolding put_all
put_all-Ascending [] m a = a
put_all-Ascending ((k, v) ∷ ws) m a = put_all-Ascending ws (put k v m) (put-Ascending k v m a)

lookup-Above : (k : Str) (m : Map Str) → Above k m → lookup k m ≡ none
unfolding lookup
lookup-Above k [] a = refl
lookup-Above k ((j, w) ∷ m) a = elim (Bool-cases (str_eq j k)) [
  | inl same ↦ absurd (cc (a.0, less_bytes_irrefl k, (str_eq_iff j k).0 same))
  | inr other ↦ rw other (lookup-Above k m a.1)
]

pub Ascending→IsMap : (m : Map Str) → Ascending m → IsMap m
Ascending→IsMap [] a = tt
Ascending→IsMap ((k, v) ∷ m) a = (lookup-Above k m a.0, Ascending→IsMap m a.1)

module _ (lower : Str) (upper : Option Str) where
  -- A write outside the bounds of an iterator changes none of its rows.
  pub rows_within-put_outside :
      (k v : Str) (m : Map Str)
      → in_bounds lower upper k ≡ false
      → rows_within lower upper (put k v m) ≡ rows_within lower upper m
  unfolding rows_within put
  rows_within-put_outside k v [] out = rw out
  rows_within-put_outside k v ((j, w) ∷ m) out =
      ground (arith, str_eq_iff j k, rows_within-put_outside k v m out, out)

  none_between :
      (k : Str) (m : Map Str)
      → Above k m
      → Below k (rows_within lower upper m)
      → rows_within lower upper m ≡ []
  unfolding rows_within
  none_between k [] a b = refl
  none_between k ((j, w) ∷ m) a b = elim (Bool-cases (in_bounds lower upper j)) [
    | inl within ↦ let b2 = rw within at b in absurd (cc (less_bytes_asym k j a.0, b2.0))
    | inr out ↦ rw out (none_between k m a.1 (rw out at b))
  ]

  -- A write within the bounds, above all their rows, is one more row at the end.
  pub rows_within-put_last :
      (k v : Str) (m : Map Str)
      → in_bounds lower upper k ≡ true
      → Ascending m
      → Below k (rows_within lower upper m)
      → rows_within lower upper (put k v m) ≡ rows_within lower upper m ++ (k, v) ∷ []
  unfolding rows_within put
  rows_within-put_last k v [] within a b = rw within
  rows_within-put_last k v ((j, w) ∷ m) within a b = elim (Bool-cases (less_bytes j k)) [
    | inl below ↦ rw below (elim (Bool-cases (in_bounds lower upper j)) [
      | inl inside ↦
          let b2 = rw inside at b in
          rw inside (ap (λ r. (j, w) ∷ r) (rows_within-put_last k v m within a.1 b2.1))
      | inr out ↦ rw out (rows_within-put_last k v m within a.1 (rw out at b))
    ])
    | inr above ↦ rw above (elim (Bool-cases (str_eq j k)) [
      | inl same ↦
          let e = (str_eq_iff j k).0 same in
          let b2 = rw (e, within) at b in absurd (cc (b2.0, less_bytes_irrefl k))
      | inr other ↦
          let up = less_bytes_total j k other above in
          let empty : rows_within lower upper ((j, w) ∷ m) ≡ [] =
            none_between k ((j, w) ∷ m) (up, Above-trans k j m up a.0) b in
          rw other (rw within (rw empty))
    ])
  ]
