-- ===== src/Http/Access.antt =====
-- internal/httpapi/middleware.go and server.go: the middleware around the handlers, and the routes.
-- The choice of a route is net/http's ServeMux on clean paths: a pattern that ends in "/" takes the
-- paths that begin with it, any other only itself, and the longest pattern wins.
pub mod Admin
use eventmesh_go.Prelude.{
  ℕ, ◌-◌, Str, codes, is_empty, str_eq, Bool, true, false, not, Option, none, some, List, [], ◌∷◌,
  ◌++◌, length, take, drop, if◌then◌else◌, Result, ok, err, panic,
}
use eventmesh_go.Http.Requests.{
  Claims, Request, Response, respond, crashed, Handler, Failure, write_error, nothing, api_info,
  redirect, authorization_required, invalid_token, admin_required, internal_error, not_found,
  method_not_allowed, topic_required, subscription_id_required,
}
use eventmesh_go.Http.Auth.{Jwt, AuthError, has_prefix, trim_prefix, bearer, validate_token}

-- Middleware
pub record Middleware : Type 0 where
  pub jwt : Jwt
  pub secret_key : Str
  pub no_auth : Bool

-- "dev-client"
abbrev pub dev_claims : Claims
dev_claims = record {
  client_id = codes "dev-client";
  is_admin = false;
  issued_at = 0;
  expires_at = 0;
}

abbrev pub with_claims : Request → Claims → Request
with_claims r claims = record r { claims = some claims }

-- extractToken
unfoldable pub extract_token : Request → Str
extract_token r =
    if is_empty r.authorization
    then []
    else if has_prefix r.authorization bearer
    then trim_prefix r.authorization bearer
    else r.authorization

-- strings.HasSuffix, strings.TrimSuffix
unfoldable pub has_suffix : Str → Str → Bool
has_suffix [] p = is_empty p
has_suffix (c ∷ s) p = let rest = has_suffix s p in if str_eq (c ∷ s) p then true else rest

unfoldable pub trim_suffix : Str → Str → Str
trim_suffix s p = if has_suffix s p then take (length s - length p) s else s

-- The handlers that the server calls.
pub record Endpoints (J S : Type 0) : Type 0 where
  pub login : Handler J S
  pub publish_event : Handler J S
  pub stream_events : Handler J S
  pub read_topic_events : Handler J S
  pub list_subscriptions : Handler J S
  pub create_subscription : Handler J S
  pub delete_subscription : Handler J S
  pub admin_list_clients : Handler J S
  pub admin_list_subscriptions : Handler J S
  pub admin_get_stats : Handler J S
  pub health : Handler J S

module _ {J S : Type 0} where
  -- Recovery: a panic becomes an error response.
  abbrev pub recovered : Response J × S → Response J × S
  recovered (respond status body, s) = (respond status body, s)
  recovered (crashed, s) = (write_error 500 internal_error, s)

  unfoldable pub recovery : Handler J S → Handler J S
  recovery next r s = recovered (next r s)

  -- CORS
  unfoldable pub cors : Handler J S → Handler J S
  cors next r s = if str_eq r.method (codes "OPTIONS") then (respond 200 nothing, s) else next r s

  -- Recovery, Logging, CORS and ContentType. Logging and ContentType touch neither the response's
  -- status and body nor the state.
  abbrev pub with_middleware : Handler J S → Handler J S
  with_middleware next = recovery (cors next)

  module _ (m : Middleware) (now : ℕ) where
    abbrev pub authenticated : Result AuthError Claims → Handler J S → Handler J S
    authenticated (ok claims) next r s = next (with_claims r claims) s
    authenticated (err e) next r s = (write_error 401 invalid_token, s)
    authenticated panic next r s = (crashed, s)

    -- AuthRequired
    unfoldable pub auth_required : Handler J S → Handler J S
    auth_required next r s =
        if m.no_auth
        then next (with_claims r dev_claims) s
        else if is_empty (extract_token r)
        then (write_error 401 authorization_required, s)
        else authenticated (validate_token m.jwt m.secret_key now (extract_token r)) next r s

    abbrev pub authorised : Result AuthError Claims → Handler J S → Handler J S
    authorised (ok claims) next r s =
        if not claims.is_admin
        then (write_error 403 admin_required, s)
        else next (with_claims r claims) s
    authorised (err e) next r s = (write_error 401 invalid_token, s)
    authorised panic next r s = (crashed, s)

    -- AdminRequired
    unfoldable pub admin_required_for : Handler J S → Handler J S
    admin_required_for next r s =
        if is_empty (extract_token r)
        then (write_error 401 authorization_required, s)
        else authorised (validate_token m.jwt m.secret_key now (extract_token r)) next r s

  -- handleEvents
  unfoldable pub handle_events : Endpoints J S → Handler J S
  handle_events h r s =
      if str_eq r.method (codes "POST")
      then h.publish_event r s
      else if str_eq r.method (codes "GET")
      then (respond 307 (redirect (codes "/api/v1/events/stream")), s)
      else (write_error 405 method_not_allowed, s)

  -- handleSubscriptions
  unfoldable pub handle_subscriptions : Endpoints J S → Handler J S
  handle_subscriptions h r s =
      if str_eq r.method (codes "GET")
      then h.list_subscriptions r s
      else if str_eq r.method (codes "POST")
      then h.create_subscription r s
      else (write_error 405 method_not_allowed, s)

  -- handleSubscriptionByID
  unfoldable pub handle_subscription_by_id : Endpoints J S → Handler J S
  handle_subscription_by_id h r s =
      let id = trim_prefix r.path (codes "/api/v1/subscriptions/") in
      if not (has_prefix r.path (codes "/api/v1/subscriptions/"))
      then (write_error 404 not_found, s)
      else if is_empty id
      then (write_error 400 subscription_id_required, s)
      else if str_eq r.method (codes "DELETE")
      then h.delete_subscription (record r { subscription_id = id }) s
      else (write_error 405 method_not_allowed, s)

  -- handleTopicEvents
  unfoldable pub handle_topic_events : Endpoints J S → Handler J S
  handle_topic_events h r s =
      let after = trim_prefix r.path (codes "/api/v1/topics/") in
      let topic = trim_suffix after (codes "/events") in
      if not (has_prefix r.path (codes "/api/v1/topics/"))
      then (write_error 404 not_found, s)
      else if is_empty after
      then (write_error 400 topic_required, s)
      else if not (has_suffix after (codes "/events"))
      then (write_error 404 not_found, s)
      else if is_empty topic
      then (write_error 400 topic_required, s)
      else if str_eq r.method (codes "GET")
      then h.read_topic_events (record r { topic = topic }) s
      else (write_error 405 method_not_allowed, s)

  -- handleRoot
  unfoldable pub handle_root : Handler J S
  handle_root r s =
      if not (str_eq r.path (codes "/"))
      then (write_error 404 not_found, s)
      else (respond 200 api_info, s)

  -- The handler of the pattern that takes a path.
  unfoldable pub route : Middleware → ℕ → Endpoints J S → Str → Handler J S
  route m now h path =
      if str_eq path (codes "/api/v1/auth/login")
      then with_middleware h.login
      else if str_eq path (codes "/api/v1/events")
      then with_middleware (auth_required m now (handle_events h))
      else if str_eq path (codes "/api/v1/events/stream")
      then with_middleware (auth_required m now h.stream_events)
      else if str_eq path (codes "/api/v1/subscriptions")
      then with_middleware (auth_required m now (handle_subscriptions h))
      else if has_prefix path (codes "/api/v1/subscriptions/")
      then with_middleware (auth_required m now (handle_subscription_by_id h))
      else if has_prefix path (codes "/api/v1/topics/")
      then with_middleware (auth_required m now (handle_topic_events h))
      else if str_eq path (codes "/api/v1/admin/clients")
      then with_middleware (admin_required_for m now h.admin_list_clients)
      else if str_eq path (codes "/api/v1/admin/subscriptions")
      then with_middleware (admin_required_for m now h.admin_list_subscriptions)
      else if str_eq path (codes "/api/v1/admin/stats")
      then with_middleware (admin_required_for m now h.admin_get_stats)
      else if str_eq path (codes "/api/v1/health")
      then with_middleware h.health
      else with_middleware handle_root

  -- setupRoutes
  unfoldable pub setup_routes : Middleware → ℕ → Endpoints J S → Handler J S
  setup_routes m now h r s = route m now h r.path r s
