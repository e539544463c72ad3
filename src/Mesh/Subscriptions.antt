-- ===== src/Mesh/Subscriptions.antt =====
-- internal/meshnode/node_subscriptions.go: the metadata of local subscriptions, and the aggregate
-- interest that a node tells its peers. Each function runs under the lock of that map.
pub mod Snapshot
use eventmesh_go.Prelude.{
  ℕ, suc, ◌+◌, Str, Bool, true, false, Option, none, some, List, [], ◌∷◌, ◌++◌, length, get_or,
  is_some, if◌then◌else◌, ◌==◌, str_eq,
}
use eventmesh_go.Prelude.Maps.{Map, lookup, insert, delete}
use eventmesh_go.Prelude.Sorting.{sort_strings}

-- ClientSubscription
pub record ClientSubscription : Type 0 where
  pub id : Str
  pub topic : Str
  pub client_id : Str
  pub created_at : ℕ

-- The field `subscriptions` of GRPCMeshNode: client, then subscription.
abbrev pub Metadata : Type 0
Metadata = Map (Map ClientSubscription)

-- addSubscriptionMetadata, at the time `now`
unfoldable pub add_subscription_metadata : ℕ → Str → Str → Str → Metadata → Metadata
add_subscription_metadata now client_id subscription_id topic m =
    insert client_id
      (insert subscription_id
        (record { id = subscription_id; topic = topic; client_id = client_id; created_at = now })
        (get_or [] (lookup client_id m)))
      m

-- The loop of removeSubscriptionMetadataByTopic.
unfoldable pub without_topic : Str → Map ClientSubscription → Map ClientSubscription
without_topic topic [] = []
without_topic topic ((k, s) ∷ rest) =
    let kept = without_topic topic rest in if str_eq s.topic topic then kept else (k, s) ∷ kept

-- removeSubscriptionMetadataByTopic
unfoldable pub remove_subscription_metadata_by_topic : Str → Str → Metadata → Metadata
remove_subscription_metadata_by_topic client_id topic m = elim (lookup client_id m) [
  | none ↦ m
  | some subs ↦
      let kept = without_topic topic subs in
      if length kept == 0 then delete client_id m else insert client_id kept m
]

-- The inner loop of localTopicInterestCount.
abbrev pub count_topic : Str → Map ClientSubscription → ℕ
count_topic topic [] = 0
count_topic topic ((k, s) ∷ rest) =
    if str_eq s.topic topic then suc (count_topic topic rest) else count_topic topic rest

-- localTopicInterestCount
unfoldable pub local_topic_interest_count : Str → Metadata → ℕ
local_topic_interest_count topic [] = 0
local_topic_interest_count topic ((client, subs) ∷ rest) =
    count_topic topic subs + local_topic_interest_count topic rest

abbrev pub subscriptions_in : Map ClientSubscription → List ClientSubscription
subscriptions_in [] = []
subscriptions_in ((k, s) ∷ rest) = s ∷ subscriptions_in rest

-- localSubscriptionSnapshot
unfoldable pub local_subscription_snapshot : Metadata → List ClientSubscription
local_subscription_snapshot [] = []
local_subscription_snapshot ((client, subs) ∷ rest) =
    subscriptions_in subs ++ local_subscription_snapshot rest

-- GetClientSubscriptions
unfoldable pub get_client_subscriptions : Str → Metadata → List ClientSubscription
get_client_subscriptions client_id m = subscriptions_in (get_or [] (lookup client_id m))

-- The loop of localInterestSnapshot, which keeps the first of each topic.
unfoldable pub distinct_topics : List ClientSubscription → Map Bool → List Str
distinct_topics [] seen = []
distinct_topics (s ∷ rest) seen =
    let seen_before = distinct_topics rest seen in
    let now_seen = distinct_topics rest (insert s.topic true seen) in
    if is_some (lookup s.topic seen) then seen_before else s.topic ∷ now_seen

-- localInterestSnapshot
unfoldable pub local_interest_snapshot : Metadata → List Str
local_interest_snapshot m = sort_strings (distinct_topics (local_subscription_snapshot m) [])
