-- ===== src/Routing/Table/Lookup.antt =====
-- What GetSubscribers returns.
use eventmesh_go.Prelude.{
  Str, Bool, true, false, not, ◌&&◌, Option, none, some, List, [], ◌∷◌, ◌++◌, ◌≡◌, ◌↔◌, refl, ap,
  sym, ◌∙◌, get_or, if◌then◌else◌, str_eq, str_eq_iff, str_eq_refl, ok, Bool-cases, inl, inr, In,
  In-append_left, In-append_right, In-append_cases,
}
use eventmesh_go.Prelude.Maps.{Map, lookup, In→lookup, lookup→In}
use eventmesh_go.Routing.Pattern.{matches_pattern}
use eventmesh_go.Routing.Table.{
  Subscriber, RoutingTable, subscribers_of, values, wildcard_subscribers, get_subscribers,
}
use eventmesh_go.Routing.Table.Invariant.{Own, IsTidy, subscribers_of-distinct}
use eventmesh_go.Routing.Table.Entries.{subscriber_at}

values→In : (s : Subscriber) (m : Map Subscriber) → Own m → In s (values m) → In (s.id, s) m
values→In s [] o h = h
values→In s ((id, t) ∷ m) o (inl e) =
    let key : id ≡ s.id = sym o.0 ∙ ap (λ (x : Subscriber). x.id) e in inl (λ i. (key i, e i))
values→In s ((id, t) ∷ m) o (inr h) = inr (values→In s m o.1 h)

In→values : (id : Str) (s : Subscriber) (m : Map Subscriber) → In (id, s) m → In s (values m)
In→values id s [] h = h
In→values id s ((i, t) ∷ m) (inl e) = inl (ap (λ (p : Str × Subscriber). p.1) e)
In→values id s ((i, t) ∷ m) (inr h) = inr (In→values id s m h)

-- Some topic other than the given one matches it, and `s` stands there.
abbrev Elsewhere : Str → Subscriber → Map (Map Subscriber) → Type 0
Elsewhere topic s m =
    (pattern : Str) × (subscribers : Map Subscriber) × (In (pattern, subscribers) m)
    × (str_eq pattern topic ≡ false)
    × (matches_pattern pattern topic ≡ true)
    × In s (values subscribers)

In-wildcard→ :
    (topic : Str) (s : Subscriber) (m : Map (Map Subscriber))
    → In s (wildcard_subscribers topic m)
    → Elsewhere topic s m
unfolding wildcard_subscribers
In-wildcard→ topic s [] h = absurd h
In-wildcard→ topic s ((p, subs) ∷ m) h =
    elim (In-append_cases s _ (wildcard_subscribers topic m) h) [
      | inl here ↦ chosen (str_eq p topic) (matches_pattern p topic) refl refl here
      | inr later ↦
          let (q, qs, e, ne, ma, i) = In-wildcard→ topic s m later in (q, qs, inr e, ne, ma, i)
    ]
  where
    chosen :
        (a b : Bool)
        → str_eq p topic ≡ a
        → matches_pattern p topic ≡ b
        → In s (if not a && b then values subs else [])
        → Elsewhere topic s ((p, subs) ∷ m)
    chosen true b ea eb i = absurd i
    chosen false true ea eb i = (p, subs, inl refl, ea, eb, i)
    chosen false false ea eb i = absurd i

→In-wildcard :
    (topic : Str) (s : Subscriber) (p : Str) (subs : Map Subscriber) (m : Map (Map Subscriber))
    → str_eq p topic ≡ false
    → matches_pattern p topic ≡ true
    → In s (values subs)
    → In (p, subs) m
    → In s (wildcard_subscribers topic m)
unfolding wildcard_subscribers
→In-wildcard topic s p subs [] ne ma i h = absurd h
→In-wildcard topic s p subs ((q, qs) ∷ m) ne ma i (inr h) =
    In-append_right s _ (wildcard_subscribers topic m) (→In-wildcard topic s p subs m ne ma i h)
→In-wildcard topic s p subs ((q, qs) ∷ m) ne ma i (inl e) =
    let key : q ≡ p = ap (λ (x : Str × Map Subscriber). x.0) e in
    let content : qs ≡ subs = ap (λ (x : Str × Map Subscriber). x.1) e in
    In-append_left s _ (wildcard_subscribers topic m) (rw key (rw content (rw ne (rw ma i))))

matches_pattern_refl : (t : Str) → matches_pattern t t ≡ true
unfolding matches_pattern
matches_pattern_refl t = rw (str_eq_refl t)

-- The key of a subscription that is there.
found_topic :
    (o : Option (Map Subscriber)) (id : Str) (s : Subscriber)
    → lookup id (get_or [] o) ≡ some s
    → (subs : Map Subscriber) × (o ≡ some subs) × (lookup id subs ≡ some s)
unfolding lookup
found_topic none id s h = absurd cc
found_topic (some subs) id s h = (subs, refl, h)

abbrev found_by : Str → Map (Map Subscriber) → List Subscriber
found_by topic m = values (subscribers_of m topic) ++ wildcard_subscribers topic m

get_subscribers-ok :
    (topic : Str) (rt : RoutingTable) (result : List Subscriber)
    → get_subscribers topic rt ≡ ok result
    → result ≡ found_by topic rt.subscriptions
unfolding get_subscribers
get_subscribers-ok topic rt result h = elim (Bool-cases rt.closed) [
  | inl shut ↦ absurd (cc (rw (shut, if◌then◌else◌) at h))
  | inr still ↦ cc (rw (still, if◌then◌else◌) at h)
]

-- Some pattern matches the topic, and `s` stands under it.
abbrev pub Interested : Str → Subscriber → Map (Map Subscriber) → Type 0
Interested topic s m =
    (pattern : Str) × (matches_pattern pattern topic ≡ true)
    × (subscriber_at m pattern s.id ≡ some s)

module _ (topic : Str) (s : Subscriber) (m : Map (Map Subscriber)) (t : IsTidy m) where
  standing : (p : Str) → In s (values (subscribers_of m p)) → subscriber_at m p s.id ≡ some s
  standing p i =
      let (distinct, own) = subscribers_of-distinct p m t in
      In→lookup s.id s (subscribers_of m p) distinct (values→In s (subscribers_of m p) own i)

  found→Interested : In s (found_by topic m) → Interested topic s m
  found→Interested i = elim (In-append_cases s _ (wildcard_subscribers topic m) i) [
    | inl exact ↦ (topic, matches_pattern_refl topic, standing topic exact)
    | inr wild ↦
        let (p, subs, entry, ne, ma, inside) = In-wildcard→ topic s m wild in
        let there = In→lookup p subs m t.distinct entry in (p, ma, standing p (rw there inside))
  ]

  Interested→found : Interested topic s m → In s (found_by topic m)
  Interested→found (p, ma, at_p) =
      let (subs, there, inside) = found_topic (lookup p m) s.id s at_p in
      let listed = In→values s.id s subs (lookup→In s.id s subs inside) in
      elim (Bool-cases (str_eq p topic)) [
        | inl same ↦
            In-append_left s _ (wildcard_subscribers topic m)
              (rw (← (str_eq_iff p topic).0 same) (rw there listed))
        | inr other ↦
            In-append_right s (values (subscribers_of m topic)) _
              (→In-wildcard topic s p subs m other ma listed (lookup→In p subs m there))
      ]

-- On a tidy table, GetSubscribers returns a subscriber exactly if it has a subscription under some
-- pattern that matches the topic.
pub get_subscribers_iff :
    (topic : Str) (rt : RoutingTable) (s : Subscriber) (result : List Subscriber)
    → IsTidy rt.subscriptions
    → get_subscribers topic rt ≡ ok result
    → In s result ↔ Interested topic s rt.subscriptions
get_subscribers_iff topic rt s result t h =
    rw (get_subscribers-ok topic rt result h)
      (found→Interested topic s rt.subscriptions t, Interested→found topic s rt.subscriptions t)
