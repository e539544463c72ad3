-- ===== src/Routing/Table/Entries.antt =====
-- What stands in the routing table after one subscription or one removal.
use eventmesh_go.Prelude.{
  Str, true, ◌&&◌, Option, none, some, [], ◌∷◌, ◌≡◌, refl, length, if◌then◌else◌, ◌==◌, str_eq,
  str_eq_iff, arith, Bool-cases, inl, inr,
}
use eventmesh_go.Prelude.Maps.{Map, lookup, insert, delete, lookup-insert, lookup-delete}
use eventmesh_go.Routing.Table.{Subscriber, subscribers_of, add_subscriber, remove_subscriber}

-- Who stands under a topic and an identifier.
abbrev pub subscriber_at : Map (Map Subscriber) → Str → Str → Option Subscriber
subscriber_at m topic id = lookup id (subscribers_of m topic)

-- A subscription is there from then on, and no other one changes.
pub subscriber_at-add :
    (topic : Str) (s : Subscriber) (m : Map (Map Subscriber)) (t id : Str)
    → subscriber_at (add_subscriber topic s m) t id
      ≡ (if str_eq topic t && str_eq s.id id then some s else subscriber_at m t id)
unfolding add_subscriber
subscriber_at-add topic s m t id = elim (Bool-cases (str_eq topic t)) [
  | inl e ↦ rw lookup-insert (rw e (rw lookup-insert (rw ((str_eq_iff topic t).0 e))))
  | inr e ↦ rw lookup-insert (rw e)
]

absent : (i : Str) → lookup {V = Subscriber} i [] ≡ none
unfolding lookup
absent i = refl

emptied : (m : Map Subscriber) → length m == 0 ≡ true → m ≡ []
emptied [] h = refl
emptied (x ∷ m) h = ground arith

-- A subscription is gone from then on, and no other one changes.
pub subscriber_at-remove :
    (topic id : Str) (m : Map (Map Subscriber)) (t i : Str)
    → subscriber_at (remove_subscriber topic id m) t i
      ≡ (if str_eq topic t && str_eq id i then none else subscriber_at m t i)
unfolding remove_subscriber
subscriber_at-remove topic id m t i = removed (lookup topic m) refl
  where
    removed :
        (o : Option (Map Subscriber))
        → lookup topic m ≡ o
        → subscriber_at
            (elim o as (λ _. Map (Map Subscriber)) [
              | none ↦ m
              | some subscribers ↦
                  if length (delete id subscribers) == 0
                  then delete topic m
                  else insert topic (delete id subscribers) m
            ])
            t
            i
          ≡ (if str_eq topic t && str_eq id i then none else subscriber_at m t i)
    removed none e = ground (arith, str_eq_iff topic t, absent i)
    removed (some s) e = elim (Bool-cases (length (delete id s) == 0)) [
      | inl gone ↦
          rw (gone, if◌then◌else◌)
            (rw lookup-delete (
              ground (
                arith,
                str_eq_iff topic t,
                absent i,
                emptied (delete id s) gone,
                lookup-delete id i s,
              )))
      | inr left ↦
          rw (left, if◌then◌else◌)
            (rw lookup-insert (ground (arith, str_eq_iff topic t, lookup-delete id i s)))
    ]
