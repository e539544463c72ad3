-- ===== src/Mesh/Interest/View.antt =====
-- Which events a node forwards to which peers, and how the messages of a peer change that.
use eventmesh_go.Prelude.{
  Str, is_empty, Bool, true, false, not, ◌&&◌, Option, none, some, List, [], ◌∷◌, ◌≡◌, ◌↔◌, refl,
  ap, sym, ◌∙◌, subst, get_or, if◌then◌else◌, str_eq, str_eq_iff, str_eq_refl, arith, Bool-cases,
  inl, inr, In,
}
use eventmesh_go.Prelude.Maps.{Map, lookup, insert, IsMap, lookup-insert, lookup-delete}
use eventmesh_go.Peer.Messages.{InterestUpdate, InterestSnapshot}
use eventmesh_go.Peer.Link.{PeerNode}
use eventmesh_go.Routing.Pattern.{matches_pattern, matches_peer_subscription_pattern}
use eventmesh_go.Routing.Pattern.Matching.{matches_peer-eq}
use eventmesh_go.Mesh.Interest.{
  PeerInterest, topics_of, ensure_peer, subscribe_action, unsubscribe_action, apply_action,
  process_incoming_interest_update, collect_topics, process_incoming_interest_snapshot,
  any_pattern_matches, get_interested_peers,
}

-- Whether a peer is known to be interested in a pattern.
abbrev pub has_interest : Map (Map Bool) → Str → Str → Bool
has_interest m peer pattern = get_or false (lookup pattern (topics_of m peer))

topics_of-ensure_peer :
    (p q : Str) (m : Map (Map Bool)) → topics_of (ensure_peer p m) q ≡ topics_of m q
unfolding ensure_peer
topics_of-ensure_peer p q m = ensured (lookup p m) refl
  where
    ensured :
        (o : Option (Map Bool))
        → lookup p m ≡ o
        → topics_of (elim o as (λ _. Map (Map Bool)) [ none ↦ insert p [] m | some t ↦ m ]) q
          ≡ topics_of m q
    ensured none e = rw lookup-insert (ground (arith, str_eq_iff p q))
    ensured (some t) e = refl

has_interest-insert :
    (p q t : Str) (topics : Map Bool) (m : Map (Map Bool))
    → has_interest (insert p topics m) q t
      ≡ (if str_eq p q then get_or false (lookup t topics) else has_interest m q t)
has_interest-insert p q t topics m = rw lookup-insert (ground arith)

has_interest-apply :
    (action p topic q t : Str) (m : Map (Map Bool))
    → has_interest (apply_action action p topic m) q t ≡ (
        if str_eq p q && str_eq topic t
        then (if str_eq action subscribe_action
            then true
            else if str_eq action unsubscribe_action
            then false
            else has_interest m q t)
        else has_interest m q t)
unfolding apply_action
has_interest-apply action p topic q t m = elim (Bool-cases (str_eq action subscribe_action)) [
  | inl s ↦
      rw (s, if◌then◌else◌)
        (rw has_interest-insert
          (rw lookup-insert (ground (arith, str_eq_iff p q, str_eq_iff topic t))))
  | inr s ↦ elim (Bool-cases (str_eq action unsubscribe_action)) [
    | inl u ↦
        rw (s, if◌then◌else◌)
          (rw (u, if◌then◌else◌)
            (rw has_interest-insert
              (rw lookup-delete (ground (arith, str_eq_iff p q, str_eq_iff topic t)))))
    | inr u ↦ rw (s, if◌then◌else◌) (rw (u, if◌then◌else◌) (ground arith))
  ]
]

-- An update of a peer changes that peer's interest in its topic and nothing else: "subscribe" sets it,
-- "unsubscribe" clears it, and any other action leaves all interest as it is.
pub has_interest-update :
    (u : InterestUpdate) (n : PeerInterest) (peer pattern : Str)
    → has_interest (process_incoming_interest_update u n).peer_subscriptions peer pattern ≡ (
        if str_eq u.node_id peer && str_eq u.topic pattern
        then (if str_eq u.action subscribe_action
            then true
            else if str_eq u.action unsubscribe_action
            then false
            else has_interest n.peer_subscriptions peer pattern)
        else has_interest n.peer_subscriptions peer pattern)
unfolding process_incoming_interest_update
has_interest-update u n peer pattern =
    has_interest-apply u.action u.node_id u.topic peer pattern
      (ensure_peer u.node_id n.peer_subscriptions)
    ∙ rw (topics_of-ensure_peer u.node_id peer n.peer_subscriptions)

-- A text stands in a list.
abbrev pub member : Str → List Str → Bool
member t [] = false
member t (x ∷ xs) = if str_eq x t then true else member t xs

collect_topics-eq :
    (ts : List Str) (topics : Map Bool) (t : Str)
    → get_or false (lookup t (collect_topics ts topics))
      ≡ (if member t ts && not (is_empty t) then true else get_or false (lookup t topics))
unfolding collect_topics
collect_topics-eq [] topics t = refl
collect_topics-eq ([] ∷ ts) topics t =
    collect_topics-eq ts topics t ∙ ground (arith, str_eq_iff [] t)
collect_topics-eq ((c ∷ x) ∷ ts) topics t =
    collect_topics-eq ts (insert (c ∷ x) true topics) t
    ∙ rw lookup-insert (ground (arith, str_eq_iff (c ∷ x) t))

-- A snapshot of a peer replaces all that was known of its interest by the topics that the snapshot
-- lists, the empty one left out, and changes nothing of other peers.
pub has_interest-snapshot :
    (s : InterestSnapshot) (n : PeerInterest) (peer pattern : Str)
    → has_interest (process_incoming_interest_snapshot s n).peer_subscriptions peer pattern ≡ (
        if str_eq s.node_id peer
        then member pattern s.topics && not (is_empty pattern)
        else has_interest n.peer_subscriptions peer pattern)
unfolding process_incoming_interest_snapshot
has_interest-snapshot s n peer pattern =
    rw has_interest-insert (rw collect_topics-eq (unfold lookup in ground arith))

-- The innermost maps are maps: no pattern stands twice under a peer.
abbrev pub Distinct : Map (Map Bool) → Type 0
Distinct [] = Unit
Distinct ((peer, topics) ∷ rest) = IsMap topics × Distinct rest

-- A pattern that is known to be wanted and matches the topic.
abbrev pub Wants : Str → Map Bool → Type 0
Wants topic topics =
    (pattern : Str) × (get_or false (lookup pattern topics) ≡ true)
    × (matches_pattern pattern topic ≡ true)

any_pattern-Wants :
    (topic : Str) (topics : Map Bool)
    → IsMap topics
    → any_pattern_matches topic topics ≡ true
    → Wants topic topics
unfolding any_pattern_matches lookup
any_pattern-Wants topic [] m h = cc
any_pattern-Wants topic ((p, b) ∷ rest) m h =
    elim (Bool-cases (b && matches_peer_subscription_pattern p topic)) [
      | inl here ↦ (
        p,
        rw (str_eq_refl p) (ground (arith, here)),
        subst (λ x. x ≡ true) (matches_peer-eq p topic) (ground (arith, here)),
      )
      | inr later ↦
          let found = any_pattern-Wants topic rest m.1 (rw later at h) in
          (found.0, ground (arith, str_eq_iff p found.0, found.1, m.0), found.2)
    ]

any_pattern_of_wanted :
    (topic pattern : Str) (topics : Map Bool)
    → get_or false (lookup pattern topics) ≡ true
    → matches_pattern pattern topic ≡ true
    → any_pattern_matches topic topics ≡ true
unfolding any_pattern_matches lookup
any_pattern_of_wanted topic pattern [] h w = cc
any_pattern_of_wanted topic pattern ((p, b) ∷ rest) h w = elim (Bool-cases (str_eq p pattern)) [
  | inl same ↦
      let known = rw (same, if◌then◌else◌) at h in
      let matched : matches_peer_subscription_pattern p topic ≡ true =
        matches_peer-eq p topic
        ∙ ap (λ q. matches_pattern q topic) ((str_eq_iff p pattern).0 same)
        ∙ w in
      rw known (rw matched refl)
  | inr other ↦
      let rest_matches =
        any_pattern_of_wanted topic pattern rest (rw (other, if◌then◌else◌) at h) w in
      ground (arith, rest_matches)
]

topics-IsMap :
    (p : Str) (topics : Map Bool) (m : Map (Map Bool))
    → Distinct m
    → lookup p m ≡ some topics
    → IsMap topics
unfolding lookup
topics-IsMap p topics [] d h = cc
topics-IsMap p topics ((q, ts) ∷ m) d h = elim (Bool-cases (str_eq q p)) [
  | inl same ↦ subst IsMap (cc (rw (same, if◌then◌else◌) at h)) d.0
  | inr other ↦ topics-IsMap p topics m d.1 (rw (other, if◌then◌else◌) at h)
]

any_pattern_none : (topic : Str) → any_pattern_matches topic [] ≡ false
unfolding any_pattern_matches
any_pattern_none topic = refl

-- One step of the loop, on the topics of the peer.
get_interested_peers-cons :
    (topic : Str) (peer : PeerNode) (peers : List PeerNode) (m : Map (Map Bool))
    → get_interested_peers topic (peer ∷ peers) m ≡ (
        if any_pattern_matches topic (topics_of m peer.id)
        then peer ∷ get_interested_peers topic peers m
        else get_interested_peers topic peers m)
unfolding get_interested_peers
get_interested_peers-cons topic peer peers m = step (lookup peer.id m) refl
  where
    step :
        (o : Option (Map Bool))
        → lookup peer.id m ≡ o
        → (elim o as (λ _. List PeerNode) [
          | none ↦ get_interested_peers topic peers m
          | some topics ↦
              if any_pattern_matches topic topics
              then peer ∷ get_interested_peers topic peers m
              else get_interested_peers topic peers m
        ])
          ≡ (if any_pattern_matches topic (get_or [] o)
              then peer ∷ get_interested_peers topic peers m
              else get_interested_peers topic peers m)
    step none e = rw (any_pattern_none topic, if◌then◌else◌) refl
    step (some topics) e = refl

interested-In :
    (topic : Str) (peer : PeerNode) (peers : List PeerNode) (m : Map (Map Bool))
    → In peer (get_interested_peers topic peers m)
    → In peer peers × (any_pattern_matches topic (topics_of m peer.id) ≡ true)
unfolding get_interested_peers
interested-In topic peer [] m i = absurd i
interested-In topic peer (p ∷ peers) m i =
    elim (Bool-cases (any_pattern_matches topic (topics_of m p.id))) [
      | inl wanted ↦
          elim (rw (wanted, if◌then◌else◌) at
            (subst (In peer) (get_interested_peers-cons topic p peers m) i)) [
              | inl here ↦ (inl here, rw (← here) wanted)
              | inr later ↦
                  let found = interested-In topic peer peers m later in (inr found.0, found.1)
            ]
      | inr unwanted ↦
          let found = interested-In topic peer peers m (
            rw (unwanted, if◌then◌else◌) at
              (subst (In peer) (get_interested_peers-cons topic p peers m) i)) in
          (inr found.0, found.1)
    ]

In-interested :
    (topic : Str) (peer : PeerNode) (peers : List PeerNode) (m : Map (Map Bool))
    → In peer peers
    → any_pattern_matches topic (topics_of m peer.id) ≡ true
    → In peer (get_interested_peers topic peers m)
In-interested topic peer [] m i w = absurd i
In-interested topic peer (p ∷ peers) m (inl here) w =
    subst (In peer) (sym (get_interested_peers-cons topic p peers m))
      (rw here (rw (w, if◌then◌else◌) (inl refl)))
In-interested topic peer (p ∷ peers) m (inr later) w =
    let found = In-interested topic peer peers m later w in
    subst (In peer) (sym (get_interested_peers-cons topic p peers m))
      (elim (Bool-cases (any_pattern_matches topic (topics_of m p.id))) [
        | inl wanted ↦ rw (wanted, if◌then◌else◌) (inr found)
        | inr unwanted ↦ rw (unwanted, if◌then◌else◌) found
      ])

topics_of-IsMap : (p : Str) (m : Map (Map Bool)) → Distinct m → IsMap (topics_of m p)
topics_of-IsMap p m d = known (lookup p m) refl
  where
    known : (o : Option (Map Bool)) → lookup p m ≡ o → IsMap (get_or [] o)
    known none e = tt
    known (some topics) e = topics-IsMap p topics m d e

-- The peers that the choice for a topic returns are exactly those of the given peers that are known to
-- want a pattern that matches the topic.
pub get_interested_peers_iff :
    (topic : Str) (peer : PeerNode) (peers : List PeerNode) (m : Map (Map Bool))
    → Distinct m
    → In peer (get_interested_peers topic peers m)
      ↔ In peer peers
        × ((pattern : Str) × (has_interest m peer.id pattern ≡ true)
            × (matches_pattern pattern topic ≡ true))
get_interested_peers_iff topic peer peers m d = (
  (λ i.
      let (there, matched) = interested-In topic peer peers m i in
      (there, any_pattern-Wants topic (topics_of m peer.id) (topics_of-IsMap peer.id m d) matched)),
  (λ h.
      In-interested topic peer peers m h.0
        (any_pattern_of_wanted topic h.1.0 (topics_of m peer.id) h.1.1 h.1.2)),
)
