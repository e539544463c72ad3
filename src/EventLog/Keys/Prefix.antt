-- ===== src/EventLog/Keys/Prefix.antt =====
-- The bounds of a topic iterator enclose the keys of that topic and no other key.
use eventmesh_go.Prelude.{
  ℕ, zero, suc, ◌+◌, ◌%◌, ◌^◌, ◌<◌, Str, Bool, true, false, ◌&&◌, Option, none, some, [], ◌∷◌, ◌++◌,
  ◌≡◌, refl, ap, ◌∙◌, sym, length, if◌then◌else◌, ◌==◌, arith, ==_iff, Bool-cases, inl, inr, str_eq,
  str_eq_iff, &&-eq-true, append-nil, append_assoc, ◌/◌,
}
use eventmesh_go.Prelude.Sorting.{less_bytes}
use eventmesh_go.EventLog.Keys.{
  big_endian, from_big_endian, event_key, event_topic_prefix, event_key_prefix, offset_key,
  prefix_upper_bound, in_bounds, topic_prefix,
}
use eventmesh_go.EventLog.Keys.Order.{length-big_endian, from-big_endian}

-- Every element is a byte.
abbrev pub Bytes : Str → Type 0
Bytes [] = Unit
Bytes (c ∷ s) = (c < 256) × Bytes s

-- bytes.HasPrefix
unfoldable pub has_prefix : Str → Str → Bool
has_prefix [] s = true
has_prefix (c ∷ p) [] = false
has_prefix (c ∷ p) (d ∷ s) = c == d && has_prefix p s

less_bytes-nil : (s : Str) → less_bytes s [] ≡ false
unfolding less_bytes
less_bytes-nil [] = refl
less_bytes-nil (c ∷ s) = refl

-- The half-open range from a prefix of bytes to its upper bound holds, of all strings of bytes,
-- exactly those that begin with the prefix.
pub in_bounds-prefix :
    (p s : Str) → Bytes p → Bytes s → in_bounds p (prefix_upper_bound p) s ≡ has_prefix p s
unfolding has_prefix prefix_upper_bound less_bytes in_bounds
in_bounds-prefix [] s hp hs = rw less_bytes-nil
in_bounds-prefix (c ∷ p) [] hp hs = bounded (prefix_upper_bound p)
  where
    bounded :
        (upper : Option Str)
        → in_bounds
            (c ∷ p)
            (elim upper [
              | some u ↦ some (c ∷ u)
              | none ↦ if c == 0xff then none else some ((c + 1) ∷ [])
            ])
            []
          ≡ false
    bounded none = ground arith
    bounded (some u) = refl
in_bounds-prefix (c ∷ p) (d ∷ s) hp hs =
    bounded (prefix_upper_bound p) (in_bounds-prefix p s hp.1 hs.1)
  where
    bounded :
        (upper : Option Str)
        → in_bounds p upper s ≡ has_prefix p s
        → in_bounds
            (c ∷ p)
            (elim upper [
              | some u ↦ some (c ∷ u)
              | none ↦ if c == 0xff then none else some ((c + 1) ∷ [])
            ])
            (d ∷ s)
          ≡ (c == d && has_prefix p s)
    bounded none ih = ground (arith, less_bytes-nil s, hp.0, hs.0)
    bounded (some u) ih = ground arith

has_prefix-append_self : (p s : Str) → has_prefix p (p ++ s) ≡ true
unfolding has_prefix
has_prefix-append_self [] s = refl
has_prefix-append_self (c ∷ p) s = ground (arith, has_prefix-append_self p s)

-- Two fronts of one length agree if the one text is a prefix of the other, and so do the rests.
fronts_agree :
    (a b p s : Str)
    → length a ≡ length b
    → has_prefix (a ++ p) (b ++ s) ≡ true
    → (a ≡ b) × (has_prefix p s ≡ true)
unfolding has_prefix
fronts_agree [] [] p s e h = (refl, h)
fronts_agree [] (d ∷ b) p s e h = absurd (omega arith)
fronts_agree (c ∷ a) [] p s e h = absurd (omega arith)
fronts_agree (c ∷ a) (d ∷ b) p s e h =
    let (same, rest) = &&-eq-true (c == d) (has_prefix (a ++ p) (b ++ s)) h in
    let (front, back) = fronts_agree a b p s (omega arith) rest in
    (λ i. (==_iff c d).0 same i ∷ front i, back)

same_length_prefix : (t u s : Str) → length t ≡ length u → has_prefix t (u ++ s) ≡ true → t ≡ u
same_length_prefix t u s e h =
    (fronts_agree t u [] s e (ap (λ r. has_prefix r (u ++ s)) (append-nil t) ∙ h)).0

module _ (t u : Str) (offset : ℕ) (short_t : length t < 2 ^ 32) (short_u : length u < 2 ^ 32) where
  abbrev header : Str → Str
  header topic = big_endian 4 (length topic % 2 ^ 32)

  prefix→topic : has_prefix (event_topic_prefix t) (event_key u offset) ≡ true → t ≡ u
  unfolding has_prefix event_key topic_prefix
  prefix→topic h =
      let regrouped = rw (append_assoc (header u) u (big_endian 8 offset)) at h in
      let (headers, rest) =
        fronts_agree (header t) (header u) t (u ++ big_endian 8 offset)
          (length-big_endian 4 _ ∙ sym (length-big_endian 4 _)) regrouped in
      let number =
        sym (from-big_endian 4 (length t % 2 ^ 32) (omega arith))
        ∙ ap from_big_endian headers
        ∙ from-big_endian 4 (length u % 2 ^ 32) (omega arith) in
      same_length_prefix t u (big_endian 8 offset) (omega (arith, number)) rest

  has_prefix-event_key : has_prefix (event_topic_prefix t) (event_key u offset) ≡ str_eq t u
  has_prefix-event_key = elim (Bool-cases (str_eq t u)) [
    | inl same ↦ rw same (
        rw ((str_eq_iff t u).0 same)
          (unfold event_key in has_prefix-append_self (event_topic_prefix u) (big_endian 8 offset)))
    | inr other ↦ elim (Bool-cases (has_prefix (event_topic_prefix t) (event_key u offset))) [
      | inl h ↦ absurd (cc (other, (str_eq_iff t u).1 (prefix→topic h)))
      | inr h ↦ h ∙ sym other
    ]
  ]

Bytes-append : (s t : Str) → Bytes s → Bytes t → Bytes (s ++ t)
Bytes-append [] t hs ht = ht
Bytes-append (c ∷ s) t hs ht = (hs.0, Bytes-append s t hs.1 ht)

Bytes-big_endian : (n x : ℕ) → Bytes (big_endian n x)
unfolding big_endian
Bytes-big_endian zero x = tt
Bytes-big_endian (suc n) x =
    Bytes-append (big_endian n (x / 256)) (x % 256 ∷ []) (Bytes-big_endian n (x / 256))
      (omega arith, tt)

Bytes-topic_prefix :
    (prefix : ℕ) (topic : Str) → prefix < 256 → Bytes topic → Bytes (topic_prefix prefix topic)
unfolding topic_prefix
Bytes-topic_prefix prefix topic hp ht =
    (hp, Bytes-append (big_endian 4 (length topic % 2 ^ 32)) topic (Bytes-big_endian 4 _) ht)

-- The iterator of a topic visits an event key exactly if it is a key of that topic, and visits no
-- offset key. Topics are strings of bytes, shorter than 2 ^ 32.
pub iterator_isolates_topic :
    (t u : Str) (offset : ℕ)
    → length t < 2 ^ 32
    → length u < 2 ^ 32
    → Bytes t
    → Bytes u
    → (in_bounds
          (event_topic_prefix t)
          (prefix_upper_bound (event_topic_prefix t))
          (event_key u offset)
        ≡ str_eq t u)
      × (in_bounds (event_topic_prefix t) (prefix_upper_bound (event_topic_prefix t)) (offset_key u)
          ≡ false)
iterator_isolates_topic t u offset ht hu bt bu = (
  in_bounds-prefix (event_topic_prefix t) (event_key u offset)
        (Bytes-topic_prefix event_key_prefix t (omega arith) bt)
        (unfold event_key in
          Bytes-append (event_topic_prefix u) (big_endian 8 offset)
            (Bytes-topic_prefix event_key_prefix u (omega arith) bu) (Bytes-big_endian 8 offset))
      ∙ has_prefix-event_key t u offset ht hu,
  in_bounds-prefix (event_topic_prefix t) (offset_key u)
        (Bytes-topic_prefix event_key_prefix t (omega arith) bt)
        (Bytes-topic_prefix b'o' u (omega arith) bu)
      ∙ unfold topic_prefix has_prefix in refl,
)
