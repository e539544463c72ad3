-- ===== src/Http/Requests.antt =====
-- internal/httpapi: requests with their context, and responses. net/http is not modelled: a request
-- is the parts that the handlers read, each header and query parameter empty if it is absent.
use eventmesh_go.Prelude.{ℕ, Str, Bool, Option, List}
use eventmesh_go.Http.Events.{StreamMessage}

-- JWTClaims, with the two registered claims that are set, in whole seconds.
pub record Claims : Type 0 where
  pub client_id : Str
  pub is_admin : Bool
  pub issued_at : ℕ
  pub expires_at : ℕ

-- What the handlers read of an http.Request; the last three are the values of its context.
pub record Request : Type 0 where
  pub method : Str
  pub path : Str
  pub authorization : Str
  pub content_type : Str
  pub accept : Str
  pub last_event_id : Str
  pub topic_query : Str
  pub since_query : Str
  pub stream_query : Str
  pub offset_query : Str
  pub limit_query : Str
  pub body : Str
  pub claims : Option Claims
  pub subscription_id : Str
  pub topic : Str

-- SubscriptionResponse, and ClientSubscription of the mesh node
pub record SubscriptionInfo : Type 0 where
  pub id : Str
  pub topic : Str
  pub client_id : Str
  pub created_at : ℕ

-- ClientInfo
pub record ClientInfo : Type 0 where
  pub id : Str
  pub authenticated : Bool
  pub connected_at : ℕ
  pub subscriptions : List Str

-- The messages of the error responses.
pub data Failure : Type 0 where
  authorization_required invalid_token admin_required internal_error not_found : Failure
  method_not_allowed invalid_content_type invalid_body client_id_required client_id_short : Failure
  topic_required topic_short topic_characters token_not_generated authentication_required : Failure
  invalid_payload publish_failed invalid_offset negative_offset invalid_limit : Failure
  limit_out_of_range read_failed subscriptions_failed subscribe_failed subscription_not_listed :
      Failure
  subscription_id_required subscription_not_found unsubscribe_failed stats_failed : Failure
  health_failed topic_query_unsupported invalid_cursor other_node register_failed : Failure
  replay_too_large replay_not_validated : Failure

pub data Body (J : Type 0) : Type 0 where
  nothing api_info : Body J
  failed : Failure → Body J
  redirect : Str → Body J
  logged_in : Str → Str → ℕ → Body J
  published : Str → ℕ → ℕ → Body J
  events_read : List (StreamMessage J) → Str → ℕ → ℕ → Body J
  subscription_created : SubscriptionInfo → Body J
  subscriptions_listed : List SubscriptionInfo → Body J
  clients_listed : List ClientInfo → Body J

-- A response; `crashed` is a handler that panics before it responds.
pub data Response (J : Type 0) : Type 0 where
  respond : ℕ → Body J → Response J
  crashed : Response J

abbrev pub Handler : Type 0 → Type 0 → Type 0
Handler J S = Request → S → Response J × S

-- writeError
abbrev pub write_error : {J : Type 0} → ℕ → Failure → Response J
write_error status failure = respond status (failed failure)
