-- ===== src/Prelude/Lists.antt =====
-- Lists over the native numbers: lengths, slices, and membership by recursion.
use Prim.Native.Nat.{ℕ, zero, suc, ◌+◌, ◌-◌, ◌≤◌}
use mathlib.Core.Path.{◌≡◌, refl, ap, ◌∙◌}
use mathlib.Core.Logic.{◌⊎◌, inl, inr}
use mathlib.Core.Bool.{Bool, true, false}
use mathlib.Core.Option.{Option, none, some}
use mathlib.Core.List.{List, [], ◌∷◌, ◌++◌}
use native.Mathlib.Omega.{arith}

module _ {ℓ} {A : Type ℓ} where
  abbrev pub length : List A → ℕ
  length [] = 0
  length (x ∷ xs) = suc (length xs)

  abbrev pub get_elem? : List A → ℕ → Option A
  get_elem? [] i = none
  get_elem? (x ∷ xs) zero = some x
  get_elem? (x ∷ xs) (suc i) = get_elem? xs i

  abbrev pub take : ℕ → List A → List A
  take zero xs = []
  take (suc n) [] = []
  take (suc n) (x ∷ xs) = x ∷ take n xs

  abbrev pub drop : ℕ → List A → List A
  drop zero xs = xs
  drop (suc n) [] = []
  drop (suc n) (x ∷ xs) = drop n xs

  abbrev empty_list : List A
  empty_list = []

  abbrev pub get_or : A → Option A → A
  get_or d none = d
  get_or d (some x) = x

  abbrev pub is_some : Option A → Bool
  is_some none = false
  is_some (some x) = true

  pub length-append : (xs ys : List A) → length (xs ++ ys) ≡ length xs + length ys
  length-append [] ys = omega arith
  length-append (x ∷ xs) ys = omega (arith, length-append xs ys)

  pub drop_all : (n : ℕ) (xs : List A) → length xs ≤ n → drop n xs ≡ []
  drop_all zero [] h = refl
  drop_all zero (x ∷ xs) h = absurd (omega arith)
  drop_all (suc n) [] h = refl
  drop_all (suc n) (x ∷ xs) h = drop_all n xs (omega arith)

  pub take_all : (n : ℕ) (xs : List A) → length xs ≤ n → take n xs ≡ xs
  take_all zero [] h = refl
  take_all zero (x ∷ xs) h = absurd (omega arith)
  take_all (suc n) [] h = refl
  take_all (suc n) (x ∷ xs) h = ap (λ r. x ∷ r) (take_all n xs (omega arith))

  pub length-drop : (n : ℕ) (xs : List A) → length (drop n xs) ≡ length xs - n
  length-drop zero xs = omega arith
  length-drop (suc n) [] = omega arith
  length-drop (suc n) (x ∷ xs) = omega (arith, length-drop n xs)

  pub take-nil : (n : ℕ) → take n [] ≡ []
  take-nil zero = refl
  take-nil (suc n) = refl

  pub drop-append_self : (xs ys : List A) → drop (length xs) (xs ++ ys) ≡ ys
  drop-append_self [] ys = refl
  drop-append_self (x ∷ xs) ys = drop-append_self xs ys

  -- Reading `m` items and then `n` more is reading `m + n` items.
  pub take-take-drop : (m n : ℕ) (xs : List A) → take m xs ++ take n (drop m xs) ≡ take (m + n) xs
  take-take-drop zero n xs = ap (λ (k : ℕ). take k xs) (omega arith)
  take-take-drop (suc m) n [] =
      take-nil n ∙ ap (λ (k : ℕ). take k empty_list) {x = suc (m + n)} (omega arith)
  take-take-drop (suc m) n (x ∷ xs) =
      ap (λ r. x ∷ r) (take-take-drop m n xs)
      ∙ ap (λ (k : ℕ). take k (x ∷ xs)) {x = suc (m + n)} (omega arith)

  pub drop-drop : (m n : ℕ) (xs : List A) → drop n (drop m xs) ≡ drop (m + n) xs
  drop-drop zero n xs = ap (λ (k : ℕ). drop k xs) (omega arith)
  drop-drop (suc m) zero [] = ap (λ (k : ℕ). drop k empty_list) {x = suc (m + 0)} (omega arith)
  drop-drop (suc m) (suc n) [] =
      ap (λ (k : ℕ). drop k empty_list) {x = suc (m + suc n)} (omega arith)
  drop-drop (suc m) n (x ∷ xs) =
      drop-drop m n xs ∙ ap (λ (k : ℕ). drop k (x ∷ xs)) {x = suc (m + n)} (omega arith)

module _ {A : Type 0} where
  -- `v` stands in the list.
  abbrev pub In : A → List A → Type 0
  In v [] = ⊥
  In v (x ∷ xs) = (x ≡ v) ⊎ In v xs

  pub In-append_left : (v : A) (xs ys : List A) → In v xs → In v (xs ++ ys)
  In-append_left v [] ys h = absurd h
  In-append_left v (x ∷ xs) ys (inl e) = inl e
  In-append_left v (x ∷ xs) ys (inr h) = inr (In-append_left v xs ys h)

  pub In-append_right : (v : A) (xs ys : List A) → In v ys → In v (xs ++ ys)
  In-append_right v [] ys h = h
  In-append_right v (x ∷ xs) ys h = inr (In-append_right v xs ys h)

  pub In-append_cases : (v : A) (xs ys : List A) → In v (xs ++ ys) → In v xs ⊎ In v ys
  In-append_cases v [] ys h = inr h
  In-append_cases v (x ∷ xs) ys (inl e) = inl (inl e)
  In-append_cases v (x ∷ xs) ys (inr h) = elim (In-append_cases v xs ys h) [
    | inl a ↦ inl (inr a)
    | inr b ↦ inr b
  ]
