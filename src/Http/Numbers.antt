-- ===== src/Http/Numbers.antt =====
-- strconv.ParseInt in base 10, which strconv.Atoi is on 64-bit platforms, and "%d".
use eventmesh_go.Prelude.{
  ℕ, zero, suc, ◌+◌, ◌-◌, ◌*◌, ◌/◌, ◌%◌, Str, ◌&&◌, Option, none, some, [], ◌∷◌, leb, ltb, ◌==◌,
  if◌then◌else◌,
}
use eventmesh_go.Prelude.Words.{two63, two64, is_negative}

-- The value of a text of digits, from an accumulated front.
unfoldable pub digits_value : ℕ → Str → Option ℕ
digits_value front [] = some front
digits_value front (c ∷ s) =
    let rest = digits_value (front * 10 + (c - b'0')) s in
    if leb b'0' c && leb c b'9' then rest else none

abbrev pub unsigned_value : Str → Option ℕ
unsigned_value [] = none
unsigned_value (c ∷ s) = digits_value 0 (c ∷ s)

abbrev pub in_positive_range : Option ℕ → Option ℕ
in_positive_range none = none
in_positive_range (some n) = if ltb n two63 then some n else none

-- The bit pattern of `-n`.
abbrev pub in_negative_range : Option ℕ → Option ℕ
in_negative_range none = none
in_negative_range (some n) = if leb n two63 then some ((two64 - n) % two64) else none

-- strconv.ParseInt(s, 10, 64), as a bit pattern.
unfoldable pub parse_int : Str → Option ℕ
parse_int [] = none
parse_int (c ∷ s) =
    if c == b'-'
    then in_negative_range (unsigned_value s)
    else if c == b'+'
    then in_positive_range (unsigned_value s)
    else in_positive_range (unsigned_value (c ∷ s))

-- The digits of a number in front of a text, at most `fuel` of them.
unfoldable pub digits_onto : ℕ → ℕ → Str → Str
digits_onto zero n s = s
digits_onto (suc fuel) n s =
    let rest = digits_onto fuel (n / 10) ((b'0' + n % 10) ∷ s) in
    if n / 10 == 0 then (b'0' + n % 10) ∷ s else rest

-- "%d" of an int64: 19 digits are enough.
unfoldable pub decimal : ℕ → Str
decimal n = if is_negative n then b'-' ∷ digits_onto 19 (two64 - n) [] else digits_onto 19 n []
