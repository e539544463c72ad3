-- ===== src/Routing/Table/Gossip.antt =====
-- GetAllSubscriptions, the counts, and RebuildFromGossip: a table is rebuilt from its own entries.
use eventmesh_go.Prelude.{
  ℕ, suc, ◌+◌, Str, false, ◌&&◌, Option, none, some, List, [], ◌∷◌, ◌++◌, ◌≡◌, ◌≢◌, refl, ap, ◌∙◌,
  length, length-append, if◌then◌else◌, str_eq, str_eq_iff, Result, ok, panic, arith, Bool-cases,
  inl, inr,
}
use eventmesh_go.Prelude.Maps.{Map, lookup, IsMap}
use eventmesh_go.Routing.Table.{
  Subscriber, Subscription, TableError, RoutingTable, add_subscriber, under_topic,
  all_subscriptions, ensure_topic, rebuild_loop, rebuild_from_gossip, get_all_subscriptions,
  get_subscriber_count, count_subscribers,
}
use eventmesh_go.Routing.Table.Invariant.{Own, Topics, IsTidy}
use eventmesh_go.Routing.Table.Entries.{subscriber_at, subscriber_at-add}

-- The subscriber that the last entry for a topic and an identifier names, if there is one.
abbrev pub last_entry : List Subscription → Str → Str → Option Subscriber → Option Subscriber
last_entry [] topic id default = default
last_entry (entry ∷ rest) topic id default = last_entry rest topic id (elim entry.subscriber [
  | none ↦ default
  | some s ↦ if str_eq entry.topic topic && str_eq s.id id then some s else default
])

-- No entry has a nil subscriber.
abbrev pub NoNil : List Subscription → Type 0
NoNil [] = Unit
NoNil (entry ∷ rest) = (entry.subscriber ≢ none) × NoNil rest

rebuild_loop-last_entry :
    (entries : List Subscription) (m : Map (Map Subscriber)) (topic id : Str)
    → NoNil entries
    → ((rebuild_loop entries m).0 ≡ ok tt)
      × (subscriber_at (rebuild_loop entries m).1 topic id
          ≡ last_entry entries topic id (subscriber_at m topic id))
unfolding rebuild_loop
rebuild_loop-last_entry [] m topic id h = (refl, refl)
rebuild_loop-last_entry (entry ∷ rest) m topic id h =
    rebuilt entry.subscriber h.0
      (λ s. rebuild_loop-last_entry rest (add_subscriber entry.topic s m) topic id h.1)
  where
    rebuilt :
        (o : Option Subscriber)
        → o ≢ none
        → ((s : Subscriber)
            → ((rebuild_loop rest (add_subscriber entry.topic s m)).0 ≡ ok tt)
              × (subscriber_at (rebuild_loop rest (add_subscriber entry.topic s m)).1 topic id
                  ≡ last_entry rest topic id
                      (subscriber_at (add_subscriber entry.topic s m) topic id)))
        → ((elim o as (λ _. Result TableError (Unit {0}) × Map (Map Subscriber)) [
          | none ↦ (panic, ensure_topic entry.topic m)
          | some s ↦ rebuild_loop rest (add_subscriber entry.topic s m)
        ]).0
            ≡ ok tt)
          × (subscriber_at
                (elim o as (λ _. Result TableError (Unit {0}) × Map (Map Subscriber)) [
                  | none ↦ (panic, ensure_topic entry.topic m)
                  | some s ↦ rebuild_loop rest (add_subscriber entry.topic s m)
                ]).1
                topic
                id
              ≡ last_entry rest topic id (elim o [
                | none ↦ subscriber_at m topic id
                | some s ↦
                    if str_eq entry.topic topic && str_eq s.id id
                    then some s
                    else subscriber_at m topic id
              ]))
    rebuilt none n ih = absurd (n refl)
    rebuilt (some s) n ih = (
      (ih s).0,
      (ih s).1 ∙ ap (last_entry rest topic id) (subscriber_at-add entry.topic s m topic id),
    )

last_entry-append :
    (a b : List Subscription) (topic id : Str) (d : Option Subscriber)
    → last_entry (a ++ b) topic id d ≡ last_entry b topic id (last_entry a topic id d)
last_entry-append [] b topic id d = refl
last_entry-append (entry ∷ a) b topic id d = last_entry-append a b topic id _

or_else : Option Subscriber → Option Subscriber → Option Subscriber
or_else none d = d
or_else (some s) d = some s

or_else-none : (o : Option Subscriber) → or_else o none ≡ o
unfolding or_else
or_else-none none = refl
or_else-none (some s) = refl

last_entry-under_topic :
    (t : Str) (subs : Map Subscriber) (topic id : Str) (d : Option Subscriber)
    → IsMap subs
    → Own subs
    → last_entry (under_topic t subs) topic id d
      ≡ (if str_eq t topic then or_else (lookup id subs) d else d)
unfolding lookup or_else
last_entry-under_topic t [] topic id d m o = ground arith
last_entry-under_topic t ((i, s) ∷ subs) topic id d m o =
    rw
      (last_entry-under_topic t subs topic id
        (if str_eq t topic && str_eq s.id id then some s else d) m.1 o.1)
      (rw o.0 (ground (arith, str_eq_iff i id, m.0)))

last_entry-all :
    (m : Map (Map Subscriber)) (topic id : Str) (d : Option Subscriber)
    → IsMap m
    → Topics m
    → last_entry (all_subscriptions m) topic id d ≡ or_else (subscriber_at m topic id) d
unfolding all_subscriptions lookup or_else
last_entry-all [] topic id d h t = refl
last_entry-all ((p, subs) ∷ m) topic id d h t =
    last_entry-append (under_topic p subs) (all_subscriptions m) topic id d
    ∙ last_entry-all m topic id _ h.1 t.1
    ∙ ap (or_else (subscriber_at m topic id))
        (last_entry-under_topic p subs topic id d t.0.distinct t.0.own)
    ∙ ground (arith, str_eq_iff p topic, h.0)

NoNil-append : (a b : List Subscription) → NoNil a → NoNil b → NoNil (a ++ b)
NoNil-append [] b ha hb = hb
NoNil-append (entry ∷ a) b ha hb = (ha.0, NoNil-append a b ha.1 hb)

NoNil-under_topic : (t : Str) (subs : Map Subscriber) → NoNil (under_topic t subs)
NoNil-under_topic t [] = tt
NoNil-under_topic t ((i, s) ∷ subs) = (λ e. cc, NoNil-under_topic t subs)

NoNil-all : (m : Map (Map Subscriber)) → NoNil (all_subscriptions m)
unfolding all_subscriptions
NoNil-all [] = tt
NoNil-all ((p, subs) ∷ m) =
    NoNil-append (under_topic p subs) (all_subscriptions m) (NoNil-under_topic p subs) (NoNil-all m)

get_all-ok :
    (rt : RoutingTable) (entries : List Subscription)
    → get_all_subscriptions rt ≡ ok entries
    → entries ≡ all_subscriptions rt.subscriptions
unfolding get_all_subscriptions
get_all-ok rt entries h = elim (Bool-cases rt.closed) [
  | inl shut ↦ absurd (cc (rw (shut, if◌then◌else◌) at h))
  | inr still ↦ cc (rw (still, if◌then◌else◌) at h)
]

rebuilt_empty :
    (m : Map (Map Subscriber)) (topic id : Str)
    → IsTidy m
    → subscriber_at (rebuild_loop (all_subscriptions m) []).1 topic id ≡ subscriber_at m topic id
rebuilt_empty m topic id t =
    (rebuild_loop-last_entry (all_subscriptions m) [] topic id (NoNil-all m)).1
    ∙ last_entry-all m topic id (subscriber_at [] topic id) t.distinct t.topics
    ∙ unfold lookup in or_else-none (subscriber_at m topic id)

-- Rebuilding any open table from all subscriptions of a tidy one succeeds, and every topic and
-- identifier then has the subscriber that it has in that one.
pub rebuild-get_all :
    (rt target : RoutingTable) (entries : List Subscription) (topic id : Str)
    → IsTidy rt.subscriptions
    → target.closed ≡ false
    → get_all_subscriptions rt ≡ ok entries
    → ((rebuild_from_gossip entries target).0 ≡ ok tt)
      × (subscriber_at (rebuild_from_gossip entries target).1.subscriptions topic id
          ≡ subscriber_at rt.subscriptions topic id)
unfolding rebuild_from_gossip
rebuild-get_all rt target entries topic id t still h = rw (get_all-ok rt entries h) (
    simp still (
      (rebuild_loop-last_entry (all_subscriptions rt.subscriptions) [] topic id
          (NoNil-all rt.subscriptions)).0,
      rebuilt_empty rt.subscriptions topic id t,
    ))

length-under_topic : (t : Str) (subs : Map Subscriber) → length (under_topic t subs) ≡ length subs
length-under_topic t [] = refl
length-under_topic t ((i, s) ∷ subs) = ap suc (length-under_topic t subs)

-- GetSubscriberCount is the number of entries that GetAllSubscriptions returns.
count_subscribers-all :
    (m : Map (Map Subscriber)) (n : ℕ) → count_subscribers m n ≡ n + length (all_subscriptions m)
unfolding count_subscribers all_subscriptions
count_subscribers-all [] n = omega arith
count_subscribers-all ((p, subs) ∷ m) n = omega (
  arith,
  count_subscribers-all m (n + length subs),
  length-append {0} (under_topic p subs) (all_subscriptions m),
  length-under_topic p subs,
)

-- On an open table GetSubscriberCount is the number of entries that GetAllSubscriptions returns.
pub get_subscriber_count-get_all :
    (rt : RoutingTable) (entries : List Subscription)
    → get_all_subscriptions rt ≡ ok entries
    → get_subscriber_count rt ≡ ok (length entries)
unfolding get_subscriber_count get_all_subscriptions
get_subscriber_count-get_all rt entries h = elim (Bool-cases rt.closed) [
  | inl shut ↦ absurd (cc (rw (shut, if◌then◌else◌) at h))
  | inr still ↦
      rw (still, if◌then◌else◌)
        (rw (get_all-ok rt entries h)
          (ap ok (count_subscribers-all rt.subscriptions 0 ∙ omega arith)))
]
