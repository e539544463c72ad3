-- ===== src/Http/Streams/Registration.antt =====
-- internal/httpapi/handlers.go: what a stream leaves in the routing table.
use eventmesh_go.Prelude.{
  Str, is_empty, Bool, true, false, not, ◌&&◌, ◌||◌, none, some, is_some, List, [], ◌∷◌, ◌++◌, ◌≡◌,
  refl, sym, ap, ◌∙◌, append-nil, append_assoc, if◌then◌else◌, str_eq, str_eq_iff, arith, ok,
  Bool-cases, inl, inr,
}
use eventmesh_go.Prelude.Maps.{Map, lookup, insert, lookup-insert}
use eventmesh_go.Routing.Table.{
  Subscriber, RoutingTable, add_subscriber, remove_subscriber, subscribe, unsubscribe,
}
use eventmesh_go.Routing.Table.Entries.{subscriber_at, subscriber_at-add, subscriber_at-remove}
use eventmesh_go.Http.Requests.{SubscriptionInfo}
use eventmesh_go.Http.Streams.{
  HttpClient, as_subscriber, register_loop, register_sse_client, unregister_sse_client,
}

-- Whether a topic is among these.
abbrev pub holds_topic : Str → List Str → Bool
holds_topic t [] = false
holds_topic t (topic ∷ topics) = str_eq topic t || holds_topic t topics

abbrev pub topics_of : List SubscriptionInfo → List Str
topics_of [] = []
topics_of (s ∷ rest) = s.topic ∷ topics_of rest

-- No topic is empty.
abbrev pub Named : List SubscriptionInfo → Type 0
Named [] = Unit
Named (s ∷ rest) = (is_empty s.topic ≡ false) × Named rest

-- A table that is not closed.
abbrev pub open_table : Map (Map Subscriber) → RoutingTable
open_table m = record { subscriptions = m; closed = false }

-- Two removals, or an addition and what came after it, as one test.
two_tests :
    {A : Type 0} (same here later : Bool) (x y : A)
    → (if same && later then x else (if here && same then x else y))
      ≡ (if same && (here || later) then x else y)
two_tests true true true x y = refl
two_tests true true false x y = refl
two_tests true false true x y = refl
two_tests true false false x y = refl
two_tests false true later x y = refl
two_tests false false later x y = refl

if_never : {A : Type 0} (b : Bool) (x y : A) → (if b && false then x else y) ≡ y
if_never true x y = refl
if_never false x y = refl

-- After the removals no entry of the client is left under the topics, and the others stand.
pub unregister-entries :
    (c : HttpClient) (topics : List Str) (m : Map (Map Subscriber)) (t id : Str)
    → subscriber_at (unregister_sse_client c topics (open_table m)).subscriptions t id
      ≡ (if str_eq c.client_id id && holds_topic t topics then none else subscriber_at m t id)
unfolding unregister_sse_client unsubscribe
unregister-entries c [] m t id = sym (if_never (str_eq c.client_id id) _ _)
unregister-entries c (topic ∷ topics) m t id =
    unregister-entries c topics (remove_subscriber topic c.client_id m) t id
    ∙ rw (subscriber_at-remove topic c.client_id m t id) (
        two_tests (str_eq c.client_id id) (str_eq topic t) (holds_topic t topics) none
          (subscriber_at m t id))

-- Topics that the loop adds: those of the subscriptions that it has not seen.
record Registered (c : HttpClient) (subscriptions : List SubscriptionInfo) (seen : Map (Unit {0}))
    (topics : List Str) (m : Map (Map Subscriber)) : Type 0 where
  fresh : List Str
  table : Map (Map Subscriber)
  result :
      register_loop c subscriptions seen topics (open_table m)
      ≡ (ok (topics ++ fresh), open_table table)
  covers :
      (t : Str)
      → holds_topic t fresh
        ≡ (holds_topic t (topics_of subscriptions) && not (is_some (lookup t seen)))
  entries :
      (t id : Str)
      → subscriber_at table t id ≡ (
          if str_eq c.client_id id && holds_topic t fresh
          then some (as_subscriber c)
          else subscriber_at m t id)

-- A topic that the loop has seen already adds nothing.
covers_seen :
    (topic t : Str) (seen : Map (Unit {0})) (later : Bool)
    → is_some (lookup topic seen) ≡ true
    → (later && not (is_some (lookup t seen)))
      ≡ ((str_eq topic t || later) && not (is_some (lookup t seen)))
covers_seen topic t seen later h = elim (Bool-cases (str_eq topic t)) [
  | inl e ↦ ground (arith, str_eq_iff topic t, h, e)
  | inr e ↦ rw e refl
]

covers_fresh :
    (topic t : Str) (seen : Map (Unit {0})) (later : Bool)
    → is_some (lookup topic seen) ≡ false
    → (str_eq topic t || (later && not (is_some (lookup t (insert topic tt seen)))))
      ≡ ((str_eq topic t || later) && not (is_some (lookup t seen)))
covers_fresh topic t seen later h = rw lookup-insert (elim (Bool-cases (str_eq topic t)) [
  | inl e ↦ ground (arith, str_eq_iff topic t, h, e)
  | inr e ↦ rw e refl
])

register_loop-Registered :
    (c : HttpClient) (subscriptions : List SubscriptionInfo) (seen : Map (Unit {0}))
    (topics : List Str) (m : Map (Map Subscriber))
    → Named subscriptions
    → Registered c subscriptions seen topics m
unfolding register_loop subscribe
register_loop-Registered c [] seen topics m n = record {
  fresh = [];
  table = m;
  result = ap (λ (ts : List Str). (ok ts, open_table m)) (sym (append-nil topics));
  covers = λ t. refl;
  entries = λ t id. sym (if_never (str_eq c.client_id id) _ _);
}
register_loop-Registered c (s ∷ rest) seen topics m n =
    elim (Bool-cases (is_some (lookup s.topic seen))) [
      | inl known ↦
          let r = register_loop-Registered c rest seen topics m n.1 in
          record {
            fresh = r.fresh;
            table = r.table;
            result = rw (known, register_loop) r.result;
            covers =
                λ t. r.covers t ∙ covers_seen s.topic t seen (holds_topic t (topics_of rest)) known;
            entries = r.entries;
          }
      | inr new ↦
          let r =
            register_loop-Registered c rest (insert s.topic tt seen) (topics ++ s.topic ∷ [])
              (add_subscriber s.topic (as_subscriber c) m) n.1 in
          record {
            fresh = s.topic ∷ r.fresh;
            table = r.table;
            result =
                rw (new, n.0, register_loop, subscribe)
                  (r.result
                    ∙ ap (λ (ts : List Str). (ok ts, open_table r.table))
                        (append_assoc topics (s.topic ∷ []) r.fresh));
            covers = λ t.
                ap (λ b. str_eq s.topic t || b) (r.covers t)
                ∙ covers_fresh s.topic t seen (holds_topic t (topics_of rest)) new;
            entries = λ t id.
                r.entries t id
                ∙ rw (subscriber_at-add s.topic (as_subscriber c) m t id) (
                    two_tests (str_eq c.client_id id) (str_eq s.topic t) (holds_topic t r.fresh)
                      (some (as_subscriber c)) (subscriber_at m t id));
          }
    ]

unseen : (t : Str) (b : Bool) → (b && not (is_some (lookup {V = Unit {0}} t []))) ≡ b
unfolding lookup
unseen t true = refl
unseen t false = refl

overwritten :
    {A : Type 0} (b : Bool) (x y z : A)
    → (if b then x else (if b then y else z)) ≡ (if b then x else z)
overwritten true x y z = refl
overwritten false x y z = refl

-- On an open table, registering a stream for subscriptions with topics that are not empty succeeds.
-- From then on the client's stream stands under each of these topics, and every other entry of the
-- table is as before. When the stream is unregistered, no entry with the client's name is left under
-- these topics, even if one stood there before the stream, and every other entry is as before.
pub register-unregister :
    (c : HttpClient) (subscriptions : List SubscriptionInfo) (m : Map (Map Subscriber))
    → Named subscriptions
    → (topics : List Str) × (streaming : Map (Map Subscriber)) × (register_sse_client c
          subscriptions
          (open_table m)
        ≡ (ok topics, open_table streaming))
      × ((t id : Str)
          → subscriber_at streaming t id ≡ (
              if str_eq c.client_id id && holds_topic t (topics_of subscriptions)
              then some (as_subscriber c)
              else subscriber_at m t id))
      × ((t id : Str)
          → subscriber_at (unregister_sse_client c topics (open_table streaming)).subscriptions t id
            ≡ (if str_eq c.client_id id && holds_topic t (topics_of subscriptions)
                then none
                else subscriber_at m t id))
unfolding register_sse_client
register-unregister c subscriptions m n =
    let r = register_loop-Registered c subscriptions [] [] m n in
    let same : (t : Str) → holds_topic t r.fresh ≡ holds_topic t (topics_of subscriptions) =
      λ t. r.covers t ∙ unseen t (holds_topic t (topics_of subscriptions)) in
    (
      r.fresh,
      r.table,
      r.result,
      λ t id. rw (← same t) (r.entries t id),
      λ t id.
          unregister-entries c r.fresh r.table t id
          ∙ rw (r.entries t id, same t)
              (overwritten (str_eq c.client_id id && holds_topic t (topics_of subscriptions)) none
                (some (as_subscriber c)) (subscriber_at m t id)),
    )
