-- ===== src/Tests/Access.antt =====
-- Samples for tokens, routes and handlers.
use eventmesh_go.Prelude.{
  ℕ, zero, suc, ◌+◌, ◌-◌, ◌*◌, ◌^◌, ◌<◌, ◌∷◌, ◌++◌, ◌≡◌, ◌≢◌, ◌⊎◌, refl, ap, ap, ◌∙◌, Str, codes,
  Bool, true, false, Option, none, some, [], ok, arith, inr, if◌then◌else◌, ltb, lt→ltb,
}
use eventmesh_go.EventLog.Event.{with_offset}
use eventmesh_go.Http.Requests.{Claims, Request, respond, nothing, Handler}
use eventmesh_go.Http.Auth.{Jwt, IsSound, generate_token, validate_token, token_lifetime}
use eventmesh_go.Http.Auth.Tokens.{validate-generate_token}
use eventmesh_go.Http.Access.{Middleware, Endpoints, setup_routes, recovered}
use eventmesh_go.Http.Access.Admin.{Guarded, setup_routes-admin}
use eventmesh_go.Http.Handlers.{BodyJson, MeshApi, removed, publish_event, read_topic_events}
use eventmesh_go.Http.Handlers.Guards.{
  Refused, Published, PageRead, publish_event-guarded, read_topic_events-guarded,
}

-- Texts as tokens: every number is moved above the blank.
abbrev raised_text : Str → Str
raised_text [] = []
raised_text (c ∷ s) = (c + 33) ∷ raised_text s

abbrev lowered_text : Str → Str
lowered_text [] = []
lowered_text (c ∷ s) = (c - 33) ∷ lowered_text s

lowered-raised : (s : Str) → lowered_text (raised_text s) ≡ s
lowered-raised [] = refl
lowered-raised (c ∷ s) = λ i. same i ∷ lowered-raised s i
  where
    same : c + 33 - 33 ≡ c
    same = omega arith

raised-no_blank : (s front back : Str) → raised_text s ≢ (front ++ b' ' ∷ back)
raised-no_blank [] [] back e = absurd (cc e)
raised-no_blank [] (d ∷ front) back e = absurd (cc e)
raised-no_blank (c ∷ s) [] back e = absurd (omega (arith, ap first_of e))
  where
    first_of : Str → ℕ
    first_of [] = 0
    first_of (c ∷ s) = c
raised-no_blank (c ∷ s) (d ∷ front) back e = raised-no_blank s front back (ap rest_of e)
  where
    rest_of : Str → Str
    rest_of [] = []
    rest_of (c ∷ s) = s

abbrev flag : Bool → ℕ
flag true = 1
flag false = 0

abbrev unflag : ℕ → Bool
unflag zero = false
unflag (suc n) = true

unflag-flag : (b : Bool) → unflag (flag b) ≡ b
unflag-flag true = refl
unflag-flag false = refl

abbrev token_text : Claims → Str
token_text c = flag c.is_admin ∷ c.issued_at ∷ c.expires_at ∷ c.client_id

abbrev claims_in : Str → ℕ → Option Claims
claims_in [] now = none
claims_in (a ∷ []) now = none
claims_in (a ∷ i ∷ []) now = none
claims_in (a ∷ i ∷ e ∷ client_id) now =
    if ltb now (e * 10 ^ 9)
    then some (record { client_id = client_id; is_admin = unflag a; issued_at = i; expires_at = e })
    else none

-- Tokens that anyone can write, for the samples only.
abbrev sample_jwt : Jwt
sample_jwt = record {
  signed_string = λ key claims. some (raised_text (token_text claims));
  parse_with_claims = λ key now token. claims_in (lowered_text token) now;
}

signed_as :
    (c : Claims) (token : Str)
    → ◌≡◌ {A = Option Str} (some (raised_text (token_text c))) (some token)
    → raised_text (token_text c) ≡ token
signed_as c token e = cc e

parsed_back :
    (c : Claims) (now : ℕ) → now < c.expires_at * 10 ^ 9 → claims_in (token_text c) now ≡ some c
parsed_back c now early =
    rw (lt→ltb now (c.expires_at * 10 ^ 9) early) (rw (unflag-flag c.is_admin) refl)

sample_jwt-IsSound : IsSound sample_jwt
sample_jwt-IsSound = record {
  Utf8 = λ s. Unit;
  parse-signed = λ key token now c named e early.
      rw (← signed_as c token e)
        (ap (λ s. claims_in s now) (lowered-raised (token_text c)) ∙ parsed_back c now early);
  signed-not_empty = λ key token c e. rw (← signed_as c token e) refl;
  signed-no_blank = λ key token c e front back same.
      raised-no_blank (token_text c) front back (signed_as c token e ∙ same);
}

abbrev admin : Str
admin = codes "admin"

abbrev admin_claims : Claims
admin_claims = record { client_id = admin; is_admin = true; issued_at = 0; expires_at = 86400 }

validate-generate_token_example :
    (claims : Claims) × (validate_token sample_jwt
        (codes "key")
        60
        (raised_text (token_text admin_claims))
      ≡ ok claims)
    × (claims.client_id ≡ admin)
    × (claims.is_admin ≡ true)
unfolding generate_token sample_jwt-IsSound
validate-generate_token_example =
    validate-generate_token sample_jwt sample_jwt-IsSound (codes "key") admin
      (raised_text (token_text admin_claims)) true 0 60 token_lifetime refl tt (omega arith)

abbrev sample_middleware : Middleware
sample_middleware = record { jwt = sample_jwt; secret_key = codes "key"; no_auth = true }

-- A handler that counts its calls.
abbrev counted : Handler Unit ℕ
counted r s = (respond 200 nothing, suc s)

abbrev counting : Endpoints Unit ℕ
counting = record {
  login = counted;
  publish_event = counted;
  stream_events = counted;
  read_topic_events = counted;
  list_subscriptions = counted;
  create_subscription = counted;
  delete_subscription = counted;
  admin_list_clients = counted;
  admin_list_subscriptions = counted;
  admin_get_stats = counted;
  health = counted;
}

abbrev stats_request : Request
stats_request = record {
  method = codes "GET";
  path = codes "/api/v1/admin/stats";
  authorization = raised_text (token_text admin_claims);
  content_type = codes "application/json";
  accept = [];
  last_event_id = [];
  topic_query = [];
  since_query = [];
  stream_query = [];
  offset_query = codes "3";
  limit_query = [];
  body = codes "orders";
  claims = some admin_claims;
  subscription_id = [];
  topic = codes "orders";
}

setup_routes-admin_example :
    Guarded sample_middleware 60 recovered counted
      (setup_routes sample_middleware 60 counting stats_request 0)
      stats_request
      0
setup_routes-admin_example =
    setup_routes-admin sample_middleware 60 counting counted stats_request 0
      (inr (inr (refl, refl)))

-- Bodies are topics, and payloads are absent.
abbrev sample_json : BodyJson Unit
sample_json = record {
  auth_request = λ body. some body;
  publish_request = λ body. some (body, none);
  subscription_request = λ body. some body;
  marshal_payload = λ j. none;
  unmarshal_payload = λ s. none;
}

-- A node that numbers what it publishes.
abbrev sample_mesh : MeshApi ℕ
sample_mesh = record {
  publish_event_with_result = λ client event s. (some (with_offset s event), suc s);
  subscribe = λ client topic s. (true, s);
  get_client_subscriptions = λ client s. some [];
  unsubscribe_by_id = λ client id s. (removed, s);
  get_connected_clients = λ s. some [];
  read_events = λ topic start limit s. ok [];
}

publish_event-guarded_example :
    Refused sample_json sample_mesh (publish_event sample_json sample_mesh 60 stats_request 0) 0
    ⊎ Published sample_json sample_mesh 60 stats_request
        (publish_event sample_json sample_mesh 60 stats_request 0)
        0
publish_event-guarded_example = publish_event-guarded sample_json sample_mesh 60 stats_request 0

read_topic_events-guarded_example :
    Refused sample_json sample_mesh (read_topic_events sample_json sample_mesh stats_request 0) 0
    ⊎ PageRead sample_json sample_mesh stats_request
        (read_topic_events sample_json sample_mesh stats_request 0)
        0
read_topic_events-guarded_example =
    read_topic_events-guarded sample_json sample_mesh stats_request 0
