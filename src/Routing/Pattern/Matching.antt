-- ===== src/Routing/Pattern/Matching.antt =====
-- What it means for a topic to match a pattern, and that the tests decide it.
use eventmesh_go.Prelude.{
  ℕ, suc, Str, true, List, [], ◌∷◌, ◌++◌, ◌≡◌, ◌≢◌, ◌↔◌, refl, ap, sym, ◌∙◌, length, if◌then◌else◌,
  ◌==◌, ==_iff, str_eq, str_eq_iff, arith, Bool-cases, inl, inr,
}
use eventmesh_go.Routing.Pattern.{
  onto_first, split, wildcard, parts_match, matches_pattern, matches_peer_subscription_pattern,
}

-- Part by part, a pattern's part is the wildcard or the topic's part itself.
pub data PartsMatch : List Str → List Str → Type 0 where
  done : PartsMatch [] []
  any :
      {part topic_part : Str} {parts topic_parts : List Str}
      → part ≡ wildcard
      → PartsMatch parts topic_parts
      → PartsMatch (part ∷ parts) (topic_part ∷ topic_parts)
  same :
      {part topic_part : Str} {parts topic_parts : List Str}
      → part ≡ topic_part
      → PartsMatch parts topic_parts
      → PartsMatch (part ∷ parts) (topic_part ∷ topic_parts)

PartsMatch-refl : (parts : List Str) → PartsMatch parts parts
PartsMatch-refl [] = done
PartsMatch-refl (part ∷ parts) = same refl (PartsMatch-refl parts)

length-PartsMatch : {ps ts : List Str} → PartsMatch ps ts → length ps ≡ length ts
length-PartsMatch done = refl
length-PartsMatch (any e m) = ap suc (length-PartsMatch m)
length-PartsMatch (same e m) = ap suc (length-PartsMatch m)

parts_match→PartsMatch :
    (ps ts : List Str) → length ps ≡ length ts → parts_match ps ts ≡ true → PartsMatch ps ts
unfolding parts_match
parts_match→PartsMatch [] [] e h = done
parts_match→PartsMatch [] (t ∷ ts) e h = absurd (omega arith)
parts_match→PartsMatch (p ∷ ps) [] e h = cc
parts_match→PartsMatch (p ∷ ps) (t ∷ ts) e h = elim (Bool-cases (str_eq p wildcard)) [
  | inl star ↦
      any ((str_eq_iff p wildcard).0 star)
        (parts_match→PartsMatch ps ts (omega arith) (rw star at h))
  | inr plain ↦ elim (Bool-cases (str_eq p t)) [
    | inl eq ↦
        same ((str_eq_iff p t).0 eq)
          (parts_match→PartsMatch ps ts (omega arith) (rw (plain, eq) at h))
    | inr ne ↦ absurd (cc (rw (plain, ne) at h))
  ]
]

PartsMatch→parts_match : {ps ts : List Str} → PartsMatch ps ts → parts_match ps ts ≡ true
unfolding parts_match
PartsMatch→parts_match done = refl
PartsMatch→parts_match (any {part = p} {topic_part = t} e m) =
    ground (arith, (str_eq_iff p wildcard).1 e, PartsMatch→parts_match m)
PartsMatch→parts_match (same {part = p} {topic_part = t} e m) =
    ground (arith, (str_eq_iff p t).1 e, PartsMatch→parts_match m)

module _ (pattern topic : Str) where
  -- A topic matches a pattern exactly if the texts have the same number of parts between dots and
  -- each part of the pattern is "*" or the topic's part at its place.
  pub matches_pattern_iff :
      (matches_pattern pattern topic ≡ true) ↔ PartsMatch (split pattern) (split topic)
  unfolding matches_pattern
  matches_pattern_iff = (
    λ h. elim (Bool-cases (str_eq pattern topic)) [
      | inl eq ↦ rw ((str_eq_iff pattern topic).0 eq) (PartsMatch-refl (split topic))
      | inr ne ↦ elim (Bool-cases (length (split pattern) == length (split topic))) [
        | inl long ↦
            parts_match→PartsMatch (split pattern) (split topic) ((==_iff _ _).0 long)
              (rw (ne, long) at h)
        | inr other ↦ absurd (cc (rw (ne, other) at h))
      ]
    ],
    λ m. ground (arith, length-PartsMatch m, PartsMatch→parts_match m),
  )

  -- The routing table and the mesh node decide alike.
  pub matches_peer-eq :
      matches_peer_subscription_pattern pattern topic ≡ matches_pattern pattern topic
  unfolding matches_pattern matches_peer_subscription_pattern
  matches_peer-eq = refl

-- The parts, with a dot between two of them.
abbrev pub join : List Str → Str
join [] = []
join (p ∷ []) = p
join (p ∷ q ∷ ps) = p ++ b'.' ∷ join (q ∷ ps)

join-onto_first : (c : ℕ) (p : Str) (ps : List Str) → join ((c ∷ p) ∷ ps) ≡ c ∷ join (p ∷ ps)
join-onto_first c p [] = refl
join-onto_first c p (q ∷ ps) = refl

split-ne-nil : (s : Str) → split s ≢ []
unfolding split
split-ne-nil [] = λ h. cc
split-ne-nil (c ∷ s) = not_nil (split s)
  where
    not_nil : (parts : List Str) → (if c == b'.' then [] ∷ parts else onto_first c parts) ≢ []
    not_nil [] = ground arith
    not_nil (p ∷ ps) = ground arith

-- Splitting loses nothing: the parts with dots between them are the text.
join-split : (s : Str) → join (split s) ≡ s
unfolding split
join-split [] = refl
join-split (c ∷ s) = joined (split s) (split-ne-nil s) (join-split s)
  where
    joined :
        (parts : List Str)
        → parts ≢ []
        → join parts ≡ s
        → join (if c == b'.' then [] ∷ parts else onto_first c parts) ≡ c ∷ s
    joined [] n e = absurd (n refl)
    joined (p ∷ ps) n e = elim (Bool-cases (c == b'.')) [
      | inl dot ↦ rw dot (λ i. sym ((==_iff c b'.').0 dot) i ∷ e i)
      | inr other ↦ rw other (join-onto_first c p ps ∙ ap (λ r. c ∷ r) e)
    ]

-- No part is the wildcard.
abbrev pub Literal : List Str → Type 0
Literal [] = Unit
Literal (p ∷ ps) = (p ≢ wildcard) × Literal ps

PartsMatch-Literal : {ps ts : List Str} → Literal ps → PartsMatch ps ts → ps ≡ ts
PartsMatch-Literal l done = refl
PartsMatch-Literal l (any e m) = absurd (l.0 e)
PartsMatch-Literal l (same e m) = λ i. e i ∷ PartsMatch-Literal l.1 m i

-- A pattern none of whose parts is "*" matches its own text and no other topic.
pub matches_pattern-Literal :
    (pattern topic : Str)
    → Literal (split pattern)
    → (matches_pattern pattern topic ≡ true) ↔ (pattern ≡ topic)
matches_pattern-Literal pattern topic l = (
  λ h.
      sym (join-split pattern)
      ∙ ap join (PartsMatch-Literal l ((matches_pattern_iff pattern topic).0 h))
      ∙ join-split topic,
  λ e. rw e ((matches_pattern_iff topic topic).1 (PartsMatch-refl (split topic))),
)
