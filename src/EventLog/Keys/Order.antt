-- ===== src/EventLog/Keys/Order.antt =====
-- Big-endian bytes: decoding gives back the number, and the order of the bytes is the order of the
-- numbers, so that the keys of a topic lie in the order of their offsets.
use mathlib.Core.List.{foldl-append}
use eventmesh_go.Prelude.{
  ℕ, zero, suc, ◌+◌, ◌*◌, ◌/◌, ◌%◌, ◌^◌, ◌<◌, Str, true, some, [], ◌∷◌, ◌++◌, ◌≡◌, refl, ap, ◌∙◌,
  sym, length, length-append, take, drop, ◌==◌, arith, ==_iff, Bool-cases, inl, inr,
}
use eventmesh_go.Prelude.Sorting.{less_bytes}
use eventmesh_go.EventLog.Keys.{
  big_endian, from_big_endian, event_key, topic_prefix, offset_key, decode_offset_topic_key,
  encode_offset, decode_offset,
}

from_big_endian-append :
    (s : Str) (b : ℕ) → from_big_endian (s ++ b ∷ []) ≡ from_big_endian s * 256 + b
unfolding from_big_endian
from_big_endian-append s b = rw foldl-append

pub length-big_endian : (n x : ℕ) → length (big_endian n x) ≡ n
unfolding big_endian
length-big_endian zero x = refl
length-big_endian (suc n) x = omega (
  arith,
  length-append {0} (big_endian n (x / 256)) (x % 256 ∷ []),
  length-big_endian n (x / 256),
)

-- The numbers that `n` bytes hold: 256 ^ n, by recursion.
abbrev pub capacity : ℕ → ℕ
capacity zero = 1
capacity (suc n) = capacity n * 256

pub from-big_endian : (n x : ℕ) → x < capacity n → from_big_endian (big_endian n x) ≡ x
unfolding big_endian
from-big_endian zero x h = unfold from_big_endian in omega arith
from-big_endian (suc n) x h =
    from_big_endian-append (big_endian n (x / 256)) (x % 256)
    ∙ omega (arith, from-big_endian n (x / 256) (omega arith))

-- Stored offsets come back: decoding the eight bytes of a number below 2 ^ 64 gives the number.
pub decode-encode_offset : (x : ℕ) → x < 2 ^ 64 → decode_offset (encode_offset x) ≡ x
decode-encode_offset x h = from-big_endian 8 x h

less_bytes-append_left : (p s t : Str) → less_bytes (p ++ s) (p ++ t) ≡ less_bytes s t
unfolding less_bytes
less_bytes-append_left [] s t = refl
less_bytes-append_left (c ∷ p) s t = ground (arith, less_bytes-append_left p s t)

-- A difference in front decides.
less_bytes-append_right :
    (s t u v : Str)
    → length s ≡ length t
    → less_bytes s t ≡ true
    → less_bytes (s ++ u) (t ++ v) ≡ true
unfolding less_bytes
less_bytes-append_right [] [] u v e h = cc
less_bytes-append_right [] (d ∷ t) u v e h = absurd (omega arith)
less_bytes-append_right (c ∷ s) [] u v e h = absurd (omega arith)
less_bytes-append_right (c ∷ s) (d ∷ t) u v e h = elim (Bool-cases (c == d)) [
  | inl same ↦ rw same (less_bytes-append_right s t u v (omega arith) (rw same at h))
  | inr other ↦ rw other (rw other at h)
]

big_endian_mono :
    (n x y : ℕ) → x < y → y < capacity n → less_bytes (big_endian n x) (big_endian n y) ≡ true
unfolding big_endian
big_endian_mono zero x y h k = absurd (omega arith)
big_endian_mono (suc n) x y h k = elim (Bool-cases (x / 256 == y / 256)) [
  | inl same ↦
      let e = (==_iff (x / 256) (y / 256)).0 same in
      rw e (rw (less_bytes-append_left (big_endian n (y / 256))) (last_bytes (omega arith)))
  | inr other ↦
      less_bytes-append_right (big_endian n (x / 256)) (big_endian n (y / 256)) (x % 256 ∷ [])
        (y % 256 ∷ []) (length-big_endian n (x / 256) ∙ sym (length-big_endian n (y / 256)))
        (big_endian_mono n (x / 256) (y / 256) (ground arith) (omega arith))
]
  where
    last_bytes : x % 256 < y % 256 → less_bytes (x % 256 ∷ []) (y % 256 ∷ []) ≡ true
    last_bytes lt = unfold less_bytes in ground arith

-- The keys of one topic lie in the order of their offsets, which are below 2 ^ 64: the key of a
-- smaller offset is the smaller key.
pub less_bytes-event_key :
    (topic : Str) (x y : ℕ)
    → x < y
    → y < 2 ^ 64
    → less_bytes (event_key topic x) (event_key topic y) ≡ true
unfolding event_key
less_bytes-event_key topic x y h k =
    less_bytes-append_left (topic_prefix b'e' topic) (big_endian 8 x) (big_endian 8 y)
    ∙ big_endian_mono 8 x y h k

take-append_length : (s t : Str) → take (length s) (s ++ t) ≡ s
take-append_length [] t = refl
take-append_length (c ∷ s) t = ap (λ r. c ∷ r) (take-append_length s t)

drop-append_length : (s t : Str) → drop (length s) (s ++ t) ≡ t
drop-append_length [] t = refl
drop-append_length (c ∷ s) t = drop-append_length s t

-- A topic shorter than 2 ^ 32 bytes is read back from its offset key.
pub decode-offset_key :
    (topic : Str) → length topic < 2 ^ 32 → decode_offset_topic_key (offset_key topic) ≡ some topic
unfolding decode_offset_topic_key topic_prefix
decode-offset_key topic h =
    let header : Str = big_endian 4 (length topic % 2 ^ 32) in
    let four : length header ≡ 4 = length-big_endian 4 (length topic % 2 ^ 32) in
    let front : take 4 (header ++ topic) ≡ header =
      ap (λ (k : ℕ). take k (header ++ topic)) (sym four) ∙ take-append_length header topic in
    let back : drop 4 (header ++ topic) ≡ topic =
      ap (λ (k : ℕ). drop k (header ++ topic)) (sym four) ∙ drop-append_length header topic in
    let number : from_big_endian header ≡ length topic =
      from-big_endian 4 (length topic % 2 ^ 32) (omega arith) ∙ omega arith in
    let size : length (header ++ topic) ≡ 4 + length topic =
      length-append header topic ∙ omega arith in
    rw size (rw front (rw number (rw back (ground arith))))
