-- ===== src/Routing/Pattern.antt =====
-- internal/routingtable/inmemory.go and internal/meshnode/node_peer_events.go: subscription patterns.
pub mod Matching
use eventmesh_go.Prelude.{
  ℕ, Str, Bool, true, false, not, ◌&&◌, List, [], ◌∷◌, length, if◌then◌else◌, ◌==◌, str_eq,
}

-- A character in front of the first part.
abbrev pub onto_first : ℕ → List Str → List Str
onto_first c [] = (c ∷ []) ∷ []
onto_first c (part ∷ parts) = (c ∷ part) ∷ parts

-- strings.Split(s, "."): one part more than there are dots.
unfoldable pub split : Str → List Str
split [] = [] ∷ []
split (c ∷ s) = let rest = split s in if c == b'.' then [] ∷ rest else onto_first c rest

-- "*"
abbrev pub wildcard : Str
wildcard = b'*' ∷ []

-- The loop over the parts, which starts on lists of one length: `topicParts[i]` is in range.
unfoldable pub parts_match : List Str → List Str → Bool
parts_match [] topic_parts = true
parts_match (part ∷ parts) [] = false
parts_match (part ∷ parts) (topic_part ∷ topic_parts) =
    if not (str_eq part wildcard) && not (str_eq part topic_part)
    then false
    else parts_match parts topic_parts

-- matchesPattern
unfoldable pub matches_pattern : Str → Str → Bool
matches_pattern pattern topic =
    if str_eq pattern topic
    then true
    else if not (length (split pattern) == length (split topic))
    then false
    else parts_match (split pattern) (split topic)

-- matchesPeerSubscriptionPattern, the mesh node's own copy of the test.
unfoldable pub matches_peer_subscription_pattern : Str → Str → Bool
matches_peer_subscription_pattern pattern topic =
    if str_eq pattern topic
    then true
    else if not (length (split pattern) == length (split topic))
    then false
    else parts_match (split pattern) (split topic)
