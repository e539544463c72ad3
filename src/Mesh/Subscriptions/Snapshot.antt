-- ===== src/Mesh/Subscriptions/Snapshot.antt =====
-- What a node tells its peers of its local interest.
use eventmesh_go.Prelude.{
  ℕ, ◌+◌, Str, Bool, true, false, ◌||◌, ◌&&◌, not, Option, none, some, List, [], ◌∷◌, ◌++◌, length,
  get_or, is_some, if◌then◌else◌, ◌==◌, ltb, str_eq, str_eq_iff, str_eq_refl, is_empty, ==_iff, ◌≡◌,
  refl, ap, sym, ◌∙◌, arith, Bool-cases, inl, inr,
}
use eventmesh_go.Prelude.Maps.{Map, lookup, insert, delete, lookup-insert, lookup-delete}
use eventmesh_go.Mesh.Interest.View.{member, has_interest, has_interest-snapshot}
use eventmesh_go.Mesh.Interest.{PeerInterest, process_incoming_interest_snapshot}
use eventmesh_go.Prelude.Sorting.{sorted_in, sort_strings}
use eventmesh_go.Mesh.Subscriptions.{
  ClientSubscription, Metadata, add_subscription_metadata, remove_subscription_metadata_by_topic,
  without_topic, count_topic, local_topic_interest_count, subscriptions_in,
  local_subscription_snapshot, distinct_topics, local_interest_snapshot,
}

member-sorted_in :
    (x t : Str) (ts : List Str) → member x (sorted_in t ts) ≡ (str_eq t x || member x ts)
unfolding sorted_in
member-sorted_in x t [] = ground arith
member-sorted_in x t (u ∷ us) = ground (arith, member-sorted_in x t us)

member-sort_strings : (x : Str) (ts : List Str) → member x (sort_strings ts) ≡ member x ts
unfolding sort_strings
member-sort_strings x [] = refl
member-sort_strings x (t ∷ ts) =
    member-sorted_in x t (sort_strings ts) ∙ ground (arith, member-sort_strings x ts)

-- Some subscription of the list has the topic.
abbrev has_topic : Str → List ClientSubscription → Bool
has_topic t [] = false
has_topic t (s ∷ rest) = if str_eq s.topic t then true else has_topic t rest

member-distinct_topics :
    (t : Str) (subs : List ClientSubscription) (seen : Map Bool)
    → member t (distinct_topics subs seen) ≡ (has_topic t subs && not (is_some (lookup t seen)))
unfolding distinct_topics
member-distinct_topics t [] seen = ground arith
member-distinct_topics t (s ∷ rest) seen = ground (
  arith,
  str_eq_iff s.topic t,
  lookup-insert s.topic t true seen,
  member-distinct_topics t rest seen,
  member-distinct_topics t rest (insert s.topic true seen),
)

has_topic-append :
    (t : Str) (xs ys : List ClientSubscription)
    → has_topic t (xs ++ ys) ≡ (has_topic t xs || has_topic t ys)
has_topic-append t [] ys = refl
has_topic-append t (x ∷ xs) ys = ground (arith, has_topic-append t xs ys)

has_topic-subscriptions_in :
    (t : Str) (subs : Map ClientSubscription)
    → has_topic t (subscriptions_in subs) ≡ ltb 0 (count_topic t subs)
has_topic-subscriptions_in t [] = ground arith
has_topic-subscriptions_in t ((k, s) ∷ rest) = ground (arith, has_topic-subscriptions_in t rest)

has_topic-local_subscriptions :
    (t : Str) (m : Metadata)
    → has_topic t (local_subscription_snapshot m) ≡ ltb 0 (local_topic_interest_count t m)
unfolding local_subscription_snapshot local_topic_interest_count
has_topic-local_subscriptions t [] = ground arith
has_topic-local_subscriptions t ((c, subs) ∷ rest) =
    has_topic-append t (subscriptions_in subs) (local_subscription_snapshot rest)
    ∙ ground (arith, has_topic-subscriptions_in t subs, has_topic-local_subscriptions t rest)

-- The snapshot that a node sends lists exactly the topics with local subscriptions, as
-- localTopicInterestCount counts them.
pub local_interest_snapshot-member :
    (t : Str) (m : Metadata)
    → member t (local_interest_snapshot m) ≡ ltb 0 (local_topic_interest_count t m)
unfolding local_interest_snapshot lookup
local_interest_snapshot-member t m =
    member-sort_strings t (distinct_topics (local_subscription_snapshot m) [])
    ∙ member-distinct_topics t (local_subscription_snapshot m) []
    ∙ ground (arith, has_topic-local_subscriptions t m)

-- A peer that takes in the snapshot of a node then knows the node to want exactly the named topics with
-- local subscriptions there, whatever it knew of the node before.
pub resync_interest :
    (node t : Str) (m : Metadata) (known : PeerInterest)
    → has_interest
        (process_incoming_interest_snapshot
          (record { node_id = node; topics = local_interest_snapshot m })
          known).peer_subscriptions
        node
        t
      ≡ (ltb 0 (local_topic_interest_count t m) && not (is_empty t))
resync_interest node t m known =
    has_interest-snapshot (record { node_id = node; topics = local_interest_snapshot m }) known node
      t
    ∙ rw (str_eq_refl node, if◌then◌else◌)
        (ap (λ b. b && not (is_empty t)) (local_interest_snapshot-member t m))

count_topic-without_topic :
    (t u : Str) (subs : Map ClientSubscription)
    → count_topic u (without_topic t subs) ≡ (if str_eq t u then 0 else count_topic u subs)
unfolding without_topic
count_topic-without_topic t u [] = ground arith
count_topic-without_topic t u ((k, s) ∷ rest) = ground (
  arith,
  str_eq_iff s.topic t,
  str_eq_iff s.topic u,
  str_eq_iff t u,
  count_topic-without_topic t u rest,
)

-- The subscriptions that a client holds for a topic.
abbrev pub client_count : Str → Str → Metadata → ℕ
client_count client_id topic m = count_topic topic (get_or [] (lookup client_id m))

client_count-insert :
    (c d t : Str) (subs : Map ClientSubscription) (m : Metadata)
    → client_count d t (insert c subs m)
      ≡ (if str_eq c d then count_topic t subs else client_count d t m)
client_count-insert c d t subs m = rw lookup-insert (ground arith)

client_count-delete :
    (c d t : Str) (m : Metadata)
    → client_count d t (delete c m) ≡ (if str_eq c d then 0 else client_count d t m)
client_count-delete c d t m = rw lookup-delete (ground arith)

empty_count : (t : Str) (subs : Map ClientSubscription) → length subs ≡ 0 → count_topic t subs ≡ 0
empty_count t [] h = refl
empty_count t (s ∷ subs) h = absurd (omega arith)

client_count-at :
    (c d t : Str) (o : Option (Map ClientSubscription)) (m : Metadata)
    → lookup c m ≡ o
    → str_eq c d ≡ true
    → client_count d t m ≡ count_topic t (get_or [] o)
client_count-at c d t o m h same =
    ap (λ k. client_count k t m) (sym ((str_eq_iff c d).0 same))
    ∙ ap (λ x. count_topic t (get_or [] x)) h

-- Removing a topic's metadata takes away all subscriptions of that client for that topic, and no other
-- subscription of any client.
pub client_count-remove :
    (c t d u : Str) (m : Metadata)
    → client_count d u (remove_subscription_metadata_by_topic c t m)
      ≡ (if str_eq c d && str_eq t u then 0 else client_count d u m)
unfolding remove_subscription_metadata_by_topic
client_count-remove c t d u m = removed (lookup c m) refl
  where
    removed :
        (o : Option (Map ClientSubscription))
        → lookup c m ≡ o
        → client_count d u (elim o as (λ _. Metadata) [
          | none ↦ m
          | some subs ↦
              if length (without_topic t subs) == 0
              then delete c m
              else insert c (without_topic t subs) m
        ])
          ≡ (if str_eq c d && str_eq t u then 0 else client_count d u m)
    removed none h = elim (Bool-cases (str_eq c d)) [
      | inl same ↦ ground (arith, same, client_count-at c d u none m h same)
      | inr other ↦ ground (arith, other)
    ]
    removed (some subs) h = elim (Bool-cases (length (without_topic t subs) == 0)) [
      | inl gone ↦
          rw (gone, if◌then◌else◌)
            (rw client_count-delete (elim (Bool-cases (str_eq c d)) [
              | inl same ↦ ground (
                arith,
                same,
                client_count-at c d u (some subs) m h same,
                count_topic-without_topic t u subs,
                empty_count u (without_topic t subs)
                    ((==_iff (length (without_topic t subs)) 0).0 gone),
              )
              | inr other ↦ ground (arith, other)
            ]))
      | inr left ↦
          rw (left, if◌then◌else◌)
            (rw client_count-insert (elim (Bool-cases (str_eq c d)) [
              | inl same ↦ ground (
                arith,
                same,
                client_count-at c d u (some subs) m h same,
                count_topic-without_topic t u subs,
              )
              | inr other ↦ ground (arith, other)
            ]))
    ]

count_topic-insert_fresh :
    (k t : Str) (s : ClientSubscription) (subs : Map ClientSubscription)
    → lookup k subs ≡ none
    → count_topic t (insert k s subs) ≡ count_topic t subs + (if str_eq s.topic t then 1 else 0)
unfolding insert lookup
count_topic-insert_fresh k t s [] h = ground arith
count_topic-insert_fresh k t s ((j, r) ∷ subs) h = elim (Bool-cases (str_eq j k)) [
  | inl same ↦ absurd (cc (rw (same, if◌then◌else◌) at h))
  | inr other ↦
      rw (other, if◌then◌else◌)
        (ground (arith, count_topic-insert_fresh k t s subs (rw (other, if◌then◌else◌) at h)))
]

-- A subscription under an identifier that the client does not have yet adds one to the subscriptions of
-- that client for its topic, and changes no other count.
pub client_count-add :
    (now : ℕ) (c k t d u : Str) (m : Metadata)
    → lookup k (get_or [] (lookup c m)) ≡ none
    → client_count d u (add_subscription_metadata now c k t m)
      ≡ (client_count d u m + (if str_eq c d && str_eq t u then 1 else 0))
unfolding add_subscription_metadata
client_count-add now c k t d u m fresh =
    let s : ClientSubscription = record { id = k; topic = t; client_id = c; created_at = now } in
    rw client_count-insert (elim (Bool-cases (str_eq c d)) [
      | inl same ↦ ground (
        arith,
        same,
        client_count-at c d u (lookup c m) m refl same,
        count_topic-insert_fresh k u s (get_or [] (lookup c m)) fresh,
      )
      | inr other ↦ ground (arith, other)
    ])
