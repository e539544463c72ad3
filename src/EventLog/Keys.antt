-- ===== src/EventLog/Keys.antt =====
-- internal/eventlog/pebble_keys.go: the byte strings under which the Pebble log keeps its records.
pub mod Order
pub mod Prefix
use eventmesh_go.Prelude.Sorting.{less_bytes}
use eventmesh_go.Prelude.{
  ℕ, zero, suc, ◌+◌, ◌*◌, ◌/◌, ◌%◌, ◌^◌, Str, Bool, true, false, not, ◌&&◌, Option, none, some,
  List, [], ◌∷◌, ◌++◌, length, take, drop, if◌then◌else◌, ltb, ◌==◌, foldl,
}

-- The `n` low bytes of a number, the most significant first: encoding/binary's big-endian order.
unfoldable pub big_endian : ℕ → ℕ → Str
big_endian zero x = []
big_endian (suc n) x = big_endian n (x / 256) ++ x % 256 ∷ []

-- The number that big-endian bytes stand for.
unfoldable pub from_big_endian : Str → ℕ
from_big_endian s = foldl (λ acc b. acc * 256 + b) 0 s

-- pebbleEventKeyPrefix, pebbleOffsetKeyPrefix
abbrev pub event_key_prefix : ℕ
event_key_prefix = b'e'

abbrev pub offset_key_prefix : ℕ
offset_key_prefix = b'o'

-- pebbleTopicPrefix; `uint32(len(topic))` keeps the low 32 bits, as four bytes do.
unfoldable pub topic_prefix : ℕ → Str → Str
topic_prefix prefix topic = prefix ∷ (big_endian 4 (length topic % 2 ^ 32) ++ topic)

-- pebbleEventTopicPrefix
abbrev pub event_topic_prefix : Str → Str
event_topic_prefix topic = topic_prefix event_key_prefix topic

-- pebbleOffsetKey
abbrev pub offset_key : Str → Str
offset_key topic = topic_prefix offset_key_prefix topic

-- pebbleEventKey
unfoldable pub event_key : Str → ℕ → Str
event_key topic offset = event_topic_prefix topic ++ big_endian 8 offset

-- pebblePrefixUpperBound: the last byte that is not 0xff is incremented and what follows it is cut
-- off; nil if there is no such byte. The loop looks from the end, as the recursion does.
unfoldable pub prefix_upper_bound : Str → Option Str
prefix_upper_bound [] = none
prefix_upper_bound (c ∷ s) = elim (prefix_upper_bound s) [
  | some upper ↦ some (c ∷ upper)
  | none ↦ if c == 0xff then none else some ((c + 1) ∷ [])
]

-- encodePebbleOffset
abbrev pub encode_offset : ℕ → Str
encode_offset offset = big_endian 8 offset

-- decodePebbleOffset
abbrev pub decode_offset : Str → ℕ
decode_offset encoded = from_big_endian encoded

-- decodePebbleOffsetTopicKey: the topic of an offset key, if it is one.
unfoldable pub decode_offset_topic_key : Str → Option Str
decode_offset_topic_key [] = none
decode_offset_topic_key (prefix ∷ rest) =
    if ltb (length (prefix ∷ rest)) 5
    then none
    else if not (prefix == offset_key_prefix)
    then none
    else if length (prefix ∷ rest) == 5 + from_big_endian (take 4 rest)
    then some (drop 4 rest)
    else none

-- The keys that an iterator with these bounds visits: the lower bound included, the upper one not.
unfoldable pub in_bounds : Str → Option Str → Str → Bool
in_bounds lower none key = not (less_bytes key lower)
in_bounds lower (some upper) key = not (less_bytes key lower) && less_bytes key upper
