-- ===== src/Prelude/Maps.antt =====
-- Go maps with string keys, as association lists. Their order stands for the order of iteration,
-- which Go leaves open.
use Prim.Native.Nat.{suc}
use mathlib.Core.Path.{◌≡◌, refl, ap}
use mathlib.Core.Logic.{inl, inr}
use mathlib.Core.Option.{Option, none, some}
use mathlib.Core.List.{List, [], ◌∷◌}
use native.Mathlib.Omega.{arith}
use eventmesh_go.Prelude.Tests.{if◌then◌else◌, Bool-cases}
use eventmesh_go.Prelude.Lists.{length, In}
use eventmesh_go.Prelude.Text.{Str, str_eq, str_eq_iff, str_eq_refl}

abbrev pub Map : Type 0 → Type 0
Map V = List (Str × V)

module _ {V : Type 0} where
  -- `v, ok := m[k]`
  unfoldable pub lookup : Str → Map V → Option V
  lookup k [] = none
  lookup k ((j, v) ∷ m) = if str_eq j k then some v else lookup k m

  -- `m[k] = v`
  unfoldable pub insert : Str → V → Map V → Map V
  insert k v [] = (k, v) ∷ []
  insert k v ((j, w) ∷ m) = if str_eq j k then (k, v) ∷ m else (j, w) ∷ insert k v m

  -- `delete(m, k)`
  unfoldable pub delete : Str → Map V → Map V
  delete k [] = []
  delete k ((j, w) ∷ m) = let rest = delete k m in if str_eq j k then rest else (j, w) ∷ rest

  -- No key stands twice.
  abbrev pub IsMap : Map V → Type 0
  IsMap [] = Unit
  IsMap ((k, v) ∷ m) = (lookup k m ≡ none) × IsMap m

  pub lookup-insert :
      (k j : Str) (v : V) (m : Map V)
      → lookup j (insert k v m) ≡ (if str_eq k j then some v else lookup j m)
  unfolding lookup insert
  lookup-insert k j v [] = refl
  lookup-insert k j v ((i, w) ∷ m) =
      ground (arith, str_eq_iff k j, str_eq_iff i k, str_eq_iff i j, lookup-insert k j v m)

  pub lookup-insert_self : (k : Str) (v : V) (m : Map V) → lookup k (insert k v m) ≡ some v
  lookup-insert_self k v m = simp (lookup-insert, str_eq_refl)

  pub lookup-delete :
      (k j : Str) (m : Map V) → lookup j (delete k m) ≡ (if str_eq k j then none else lookup j m)
  unfolding lookup delete
  lookup-delete k j [] = ground arith
  lookup-delete k j ((i, w) ∷ m) =
      ground (arith, str_eq_iff k j, str_eq_iff i k, str_eq_iff i j, lookup-delete k j m)

  pub insert-IsMap : (k : Str) (v : V) (m : Map V) → IsMap m → IsMap (insert k v m)
  unfolding lookup insert
  insert-IsMap k v [] h = (refl, tt)
  insert-IsMap k v ((i, w) ∷ m) h =
      ground (arith, str_eq_iff i k, str_eq_iff k i, lookup-insert k i v m, insert-IsMap k v m h.1)

  pub delete-IsMap : (k : Str) (m : Map V) → IsMap m → IsMap (delete k m)
  unfolding lookup delete
  delete-IsMap k [] h = tt
  delete-IsMap k ((i, w) ∷ m) h = ground (arith, lookup-delete k i m, delete-IsMap k m h.1)

  -- In a map, the entries and the lookups say the same.
  pub In→lookup : (k : Str) (v : V) (m : Map V) → IsMap m → In (k, v) m → lookup k m ≡ some v
  unfolding lookup
  In→lookup k v [] h e = absurd e
  In→lookup k v ((i, w) ∷ m) h (inl e) =
      rw (ap (λ (p : Str × V). p.0) e) (rw (str_eq_refl k) (ap (λ (p : Str × V). some p.1) e))
  In→lookup k v ((i, w) ∷ m) h (inr e) =
      let found = In→lookup k v m h.1 e in
      elim (Bool-cases (str_eq i k)) [
        | inl same ↦ absurd (cc (found, h.0, (str_eq_iff i k).0 same))
        | inr other ↦ rw other found
      ]

  pub lookup→In : (k : Str) (v : V) (m : Map V) → lookup k m ≡ some v → In (k, v) m
  unfolding lookup
  lookup→In k v [] h = cc
  lookup→In k v ((i, w) ∷ m) h = elim (Bool-cases (str_eq i k)) [
    | inl same ↦ inl (cc ((str_eq_iff i k).0 same, rw same at h))
    | inr other ↦ inr (lookup→In k v m (rw other at h))
  ]

  -- `len(m)` after a write and after a deletion.
  pub length-insert :
      (k : Str) (v : V) (m : Map V)
      → length (insert k v m) ≡ (elim (lookup k m) [ none ↦ suc (length m) | some _ ↦ length m ])
  unfolding lookup insert
  length-insert k v [] = refl
  length-insert k v ((i, w) ∷ m) = ground (arith, length-insert k v m)

  pub delete_absent : (k : Str) (m : Map V) → lookup k m ≡ none → delete k m ≡ m
  unfolding lookup delete
  delete_absent k [] h = refl
  delete_absent k ((i, w) ∷ m) h = ground (arith, delete_absent k m)

  pub lookup-ext_nil : (m : Map V) → ((k : Str) → lookup k m ≡ none) → m ≡ []
  unfolding lookup
  lookup-ext_nil [] h = refl
  lookup-ext_nil ((i, w) ∷ m) h = absurd (cc (rw (str_eq_refl i) at (h i)))
