-- ===== src/Routing/Table/Invariant.antt =====
-- The invariant of the table, what each operation does to a single subscription, and that each
-- operation keeps the invariant.
use eventmesh_go.Prelude.{
  Str, is_empty, Bool, true, false, Option, none, some, List, [], ◌∷◌, ◌≡◌, ◌≢◌, refl, subst,
  length, get_or, if◌then◌else◌, ◌==◌, str_eq, arith, Bool-cases, inl, inr,
}
use eventmesh_go.Prelude.Maps.{Map, lookup, insert, delete, IsMap, insert-IsMap, delete-IsMap}
use eventmesh_go.Routing.Table.{
  Subscriber, Subscription, RoutingTable, new_routing_table, subscribers_of, add_subscriber,
  remove_subscriber, subscribe, unsubscribe, rebuild_loop, rebuild_from_gossip, close,
}

-- Each subscriber stands under its own identifier.
abbrev pub Own : Map Subscriber → Type 0
Own [] = Unit
Own ((id, s) ∷ rest) = (s.id ≡ id) × Own rest

-- A topic's subscribers: a map, not empty, each under its own identifier.
pub record IsTopic (subscribers : Map Subscriber) : Type 0 where
  pub distinct : IsMap subscribers
  pub own : Own subscribers
  pub some_left : subscribers ≢ []

abbrev pub Topics : Map (Map Subscriber) → Type 0
Topics [] = Unit
Topics ((topic, subscribers) ∷ rest) = IsTopic subscribers × Topics rest

pub record IsTidy (m : Map (Map Subscriber)) : Type 0 where
  pub distinct : IsMap m
  pub topics : Topics m

Own-insert : (s : Subscriber) (m : Map Subscriber) → Own m → Own (insert s.id s m)
unfolding insert
Own-insert s [] h = (refl, tt)
Own-insert s ((id, t) ∷ m) h = elim (Bool-cases (str_eq id s.id)) [
  | inl e ↦ simp e (refl, h.1)
  | inr e ↦ simp e (h.0, Own-insert s m h.1)
]

Own-delete : (id : Str) (m : Map Subscriber) → Own m → Own (delete id m)
unfolding delete
Own-delete id [] h = tt
Own-delete id ((i, t) ∷ m) h = elim (Bool-cases (str_eq i id)) [
  | inl e ↦ simp e (Own-delete id m h.1)
  | inr e ↦ simp e (h.0, Own-delete id m h.1)
]

insert-ne-nil : {V : Type 0} (k : Str) (v : V) (m : Map V) → insert k v m ≢ []
unfolding insert
insert-ne-nil k v [] = λ h. cc
insert-ne-nil k v ((j, w) ∷ m) = ground arith

Topics-insert :
    (topic : Str) (subscribers : Map Subscriber) (m : Map (Map Subscriber))
    → IsTopic subscribers
    → Topics m
    → Topics (insert topic subscribers m)
unfolding insert
Topics-insert topic subscribers [] h t = (h, tt)
Topics-insert topic subscribers ((j, w) ∷ m) h t = elim (Bool-cases (str_eq j topic)) [
  | inl e ↦ simp e (h, t.1)
  | inr e ↦ simp e (t.0, Topics-insert topic subscribers m h t.1)
]

Topics-delete : (topic : Str) (m : Map (Map Subscriber)) → Topics m → Topics (delete topic m)
unfolding delete
Topics-delete topic [] t = tt
Topics-delete topic ((j, w) ∷ m) t = elim (Bool-cases (str_eq j topic)) [
  | inl e ↦ simp e (Topics-delete topic m t.1)
  | inr e ↦ simp e (t.0, Topics-delete topic m t.1)
]

Topics-lookup :
    (topic : Str) (m : Map (Map Subscriber)) (subscribers : Map Subscriber)
    → Topics m
    → lookup topic m ≡ some subscribers
    → IsTopic subscribers
unfolding lookup
Topics-lookup topic [] subscribers t h = absurd (cc)
Topics-lookup topic ((j, w) ∷ m) subscribers t h = elim (Bool-cases (str_eq j topic)) [
  | inl e ↦ subst IsTopic (cc (rw e at h)) t.0
  | inr e ↦ Topics-lookup topic m subscribers t.1 (rw e at h)
]

-- A topic's map, empty or not, is a map of subscribers under their own identifiers.
pub subscribers_of-distinct :
    (topic : Str) (m : Map (Map Subscriber))
    → IsTidy m
    → IsMap (subscribers_of m topic) × Own (subscribers_of m topic)
subscribers_of-distinct topic m t = found (lookup topic m) (λ s. Topics-lookup topic m s t.topics)
  where
    found :
        (o : Option (Map Subscriber))
        → ((s : Map Subscriber) → o ≡ some s → IsTopic s)
        → IsMap (get_or [] o) × Own (get_or [] o)
    found none h = (tt, tt)
    found (some s) h = ((h s refl).distinct, (h s refl).own)

pub add_subscriber-IsTidy :
    (topic : Str) (s : Subscriber) (m : Map (Map Subscriber))
    → IsTidy m
    → IsTidy (add_subscriber topic s m)
unfolding add_subscriber
add_subscriber-IsTidy topic s m t =
    let (distinct, own) = subscribers_of-distinct topic m t in
    record {
      distinct = insert-IsMap topic _ m t.distinct;
      topics =
          Topics-insert topic _ m
            (record {
              distinct = insert-IsMap s.id s (subscribers_of m topic) distinct;
              own = Own-insert s (subscribers_of m topic) own;
              some_left = insert-ne-nil s.id s (subscribers_of m topic);
            })
            t.topics;
    }

length-zero : {V : Type 0} (m : Map V) → length m == 0 ≡ false → m ≢ []
length-zero [] h = cc
length-zero (x ∷ m) h = λ e. cc

pub remove_subscriber-IsTidy :
    (topic id : Str) (m : Map (Map Subscriber)) → IsTidy m → IsTidy (remove_subscriber topic id m)
unfolding remove_subscriber
remove_subscriber-IsTidy topic id m t =
    removed (lookup topic m) (λ s. Topics-lookup topic m s t.topics)
  where
    removed :
        (o : Option (Map Subscriber))
        → ((s : Map Subscriber) → o ≡ some s → IsTopic s)
        → IsTidy (elim o [
          | none ↦ m
          | some subscribers ↦
              if length (delete id subscribers) == 0
              then delete topic m
              else insert topic (delete id subscribers) m
        ])
    removed none h = t
    removed (some s) h = elim (Bool-cases (length (delete id s) == 0)) [
      | inl e ↦ rw e (record {
        distinct = delete-IsMap topic m t.distinct;
        topics = Topics-delete topic m t.topics;
      })
      | inr e ↦ rw e (record {
        distinct = insert-IsMap topic _ m t.distinct;
        topics =
            Topics-insert topic _ m
              (record {
                distinct = delete-IsMap id s (h s refl).distinct;
                own = Own-delete id s (h s refl).own;
                some_left = length-zero (delete id s) e;
              })
              t.topics;
      })
    ]

-- Every entry of the gossip has a subscriber.
abbrev pub AllThere : List Subscription → Type 0
AllThere [] = Unit
AllThere (entry ∷ rest) = ((s : Subscriber) × (entry.subscriber ≡ some s)) × AllThere rest

rebuild_loop-IsTidy :
    (entries : List Subscription) (m : Map (Map Subscriber))
    → AllThere entries
    → IsTidy m
    → IsTidy (rebuild_loop entries m).1
unfolding rebuild_loop
rebuild_loop-IsTidy [] m h t = t
rebuild_loop-IsTidy (entry ∷ rest) m ((s, there), h) t =
    rw (there, rebuild_loop)
      (rebuild_loop-IsTidy rest (add_subscriber entry.topic s m) h
        (add_subscriber-IsTidy entry.topic s m t))

-- A call that changes the table.
pub data Operation : Type 0 where
  subscribing : Str → Option Subscriber → Operation
  unsubscribing : Str → Str → Operation
  rebuilding : List Subscription → Operation
  closing : Operation

abbrev pub operate : Operation → RoutingTable → RoutingTable
operate (subscribing topic s) rt = (subscribe topic s rt).1
operate (unsubscribing topic id) rt = (unsubscribe topic id rt).1
operate (rebuilding entries) rt = (rebuild_from_gossip entries rt).1
operate closing rt = close rt

-- No gossip in the calls has an entry without a subscriber.
abbrev pub Usable : List Operation → Type 0
Usable [] = Unit
Usable (rebuilding entries ∷ ops) = AllThere entries × Usable ops
Usable (subscribing topic s ∷ ops) = Usable ops
Usable (unsubscribing topic id ∷ ops) = Usable ops
Usable (closing ∷ ops) = Usable ops

abbrev pub operate_all : List Operation → RoutingTable → RoutingTable
operate_all [] rt = rt
operate_all (op ∷ ops) rt = operate_all ops (operate op rt)

IsTidy-if :
    {X : Type 0} (b : Bool) (x y : X × RoutingTable)
    → IsTidy x.1.subscriptions
    → IsTidy y.1.subscriptions
    → IsTidy (if b then x else y).1.subscriptions
IsTidy-if true x y hx hy = hx
IsTidy-if false x y hx hy = hy

operate_all-IsTidy :
    (ops : List Operation) (rt : RoutingTable)
    → Usable ops
    → IsTidy rt.subscriptions
    → IsTidy (operate_all ops rt).subscriptions
unfolding subscribe unsubscribe rebuild_from_gossip close
operate_all-IsTidy [] rt u t = t
operate_all-IsTidy (subscribing topic none ∷ ops) rt u t = operate_all-IsTidy ops rt u t
operate_all-IsTidy (subscribing topic (some s) ∷ ops) rt u t =
    operate_all-IsTidy ops (operate (subscribing topic (some s)) rt) u (
      IsTidy-if (is_empty topic) _ _ t
        (IsTidy-if rt.closed _ _ t (add_subscriber-IsTidy topic s rt.subscriptions t)))
operate_all-IsTidy (unsubscribing topic id ∷ ops) rt u t =
    operate_all-IsTidy ops (operate (unsubscribing topic id) rt) u
      (IsTidy-if rt.closed _ _ t (remove_subscriber-IsTidy topic id rt.subscriptions t))
operate_all-IsTidy (rebuilding entries ∷ ops) rt (there, u) t =
    operate_all-IsTidy ops (operate (rebuilding entries) rt) u (
      IsTidy-if rt.closed _ _ t
        (rebuild_loop-IsTidy entries [] there (record { distinct = tt; topics = tt })))
operate_all-IsTidy (closing ∷ ops) rt u t =
    operate_all-IsTidy ops (close rt) u (record { distinct = tt; topics = tt })

-- After any calls of Subscribe, Unsubscribe, RebuildFromGossip and Close on a new table, failing or
-- not, no topic and no identifier stands twice, no topic is without subscribers, and each subscriber
-- stands under its own identifier. No gossip has an entry without a subscriber, which panics.
pub reachable-IsTidy :
    (ops : List Operation) → Usable ops → IsTidy (operate_all ops new_routing_table).subscriptions
reachable-IsTidy ops u =
    operate_all-IsTidy ops new_routing_table u (record { distinct = tt; topics = tt })
