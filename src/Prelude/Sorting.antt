-- ===== src/Prelude/Sorting.antt =====
-- The bytewise order of strings, as Go's `<` and bytes.Compare have it, and sort.Strings.
use mathlib.Core.Path.{◌≡◌, refl}
use mathlib.Core.Logic.{inl, inr}
use mathlib.Core.Bool.{Bool, true, false}
use mathlib.Core.List.{List, [], ◌∷◌}
use native.Mathlib.Omega.{arith}
use eventmesh_go.Prelude.Tests.{if◌then◌else◌, ltb, ◌==◌, Bool-cases}
use eventmesh_go.Prelude.Text.{Str, str_eq}

-- `a < b`
unfoldable pub less_bytes : Str → Str → Bool
less_bytes [] [] = false
less_bytes [] (d ∷ t) = true
less_bytes (c ∷ s) [] = false
less_bytes (c ∷ s) (d ∷ t) = if c == d then less_bytes s t else ltb c d

-- sort.Strings
unfoldable pub sorted_in : Str → List Str → List Str
sorted_in t [] = t ∷ []
sorted_in t (u ∷ us) = let rest = sorted_in t us in if less_bytes u t then u ∷ rest else t ∷ u ∷ us

unfoldable pub sort_strings : List Str → List Str
sort_strings [] = []
sort_strings (t ∷ ts) = sorted_in t (sort_strings ts)

pub less_bytes_irrefl : (s : Str) → less_bytes s s ≡ false
unfolding less_bytes
less_bytes_irrefl [] = refl
less_bytes_irrefl (c ∷ s) = ground (arith, less_bytes_irrefl s)

pub less_bytes_trans :
    (s t u : Str) → less_bytes s t ≡ true → less_bytes t u ≡ true → less_bytes s u ≡ true
unfolding less_bytes
less_bytes_trans s [] [] h k = cc
less_bytes_trans [] [] (e ∷ u) h k = cc
less_bytes_trans (c ∷ s) [] (e ∷ u) h k = cc
less_bytes_trans s (d ∷ t) [] h k = cc
less_bytes_trans [] (d ∷ t) (e ∷ u) h k = refl
less_bytes_trans (c ∷ s) (d ∷ t) (e ∷ u) h k = ground (arith, less_bytes_trans s t u)

pub less_bytes_asym : (s t : Str) → less_bytes s t ≡ true → less_bytes t s ≡ false
less_bytes_asym s t h = elim (Bool-cases (less_bytes t s)) [
  | inl back ↦ absurd (cc (less_bytes_trans s t s h back, less_bytes_irrefl s))
  | inr e ↦ e
]

-- A difference is an order.
pub less_bytes_total :
    (s t : Str) → str_eq s t ≡ false → less_bytes s t ≡ false → less_bytes t s ≡ true
unfolding less_bytes str_eq
less_bytes_total [] [] h k = cc
less_bytes_total [] (d ∷ t) h k = cc
less_bytes_total (c ∷ s) [] h k = refl
less_bytes_total (c ∷ s) (d ∷ t) h k = ground (arith, less_bytes_total s t)
