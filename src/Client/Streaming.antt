-- ===== src/Client/Streaming.antt =====
-- pkg/httpclient/streaming.go: the subscriptions that a stream makes sure of, and the loop that keeps
-- a stream connected. The server is a parameter; a round of the loop is what it meets.
use eventmesh_go.Prelude.{
  Str, is_empty, str_eq, Bool, true, false, Option, none, some, List, [], ◌∷◌, if◌then◌else◌,
  Result, ok, err, panic,
}
use eventmesh_go.Prelude.Maps.{Map, insert}
use eventmesh_go.Http.Requests.{SubscriptionInfo}
use eventmesh_go.Client.{unique_stream_topics}

-- ListSubscriptions and CreateSubscription of the server.
pub record Server (S : Type 0) : Type 0 where
  pub list_subscriptions : S → Option (List SubscriptionInfo)
  pub create_subscription : Str → S → Option SubscriptionInfo × S

pub data EnsureError : Type 0 where
  not_listed not_created : EnsureError

abbrev pub has_topic : Str → List SubscriptionInfo → Bool
has_topic topic [] = false
has_topic topic (sub ∷ subs) = if str_eq sub.topic topic then true else has_topic topic subs

abbrev pub created_id : {S : Type 0} → Option SubscriptionInfo × S → Result EnsureError Str × S
created_id (none, s) = (err not_created, s)
created_id (some sub, s) = (ok sub.id, s)

module _ {S : Type 0} (server : Server S) where
  abbrev pub ensure_listed : Str → Option (List SubscriptionInfo) → S → Result EnsureError Str × S
  ensure_listed topic none s = (err not_listed, s)
  ensure_listed topic (some subs) s =
      if has_topic topic subs then (ok [], s) else created_id (server.create_subscription topic s)

  -- ensureStreamSubscription: the identifier of the subscription it has created, or "".
  unfoldable pub ensure_stream_subscription : Str → S → Result EnsureError Str × S
  ensure_stream_subscription topic s = ensure_listed topic (server.list_subscriptions s) s

  abbrev pub ensured :
      Str
      → Result EnsureError Str × S
      → Map Str
      → (Map Str → S → Result EnsureError (Map Str) × S)
      → Result EnsureError (Map Str) × S
  ensured topic (err e, s) created rest = (err e, s)
  ensured topic (panic, s) created rest = (panic, s)
  ensured topic (ok id, s) created rest =
      rest (if is_empty id then created else insert topic id created) s

  -- The loop of ensureStreamSubscriptions. On an error it returns no map, whatever it has created.
  unfoldable pub ensure_loop : List Str → Map Str → S → Result EnsureError (Map Str) × S
  ensure_loop [] created s = (ok created, s)
  ensure_loop (topic ∷ topics) created s =
      ensured topic (ensure_stream_subscription topic s) created (ensure_loop topics)

  -- ensureStreamSubscriptions
  unfoldable pub ensure_stream_subscriptions : List Str → S → Result EnsureError (Map Str) × S
  ensure_stream_subscriptions topics s = ensure_loop (unique_stream_topics topics) [] s
