-- ===== src/Http/Handlers.antt =====
-- internal/httpapi/handlers.go: the handlers, over an interface for the mesh node. Logging and the
-- texts of the error messages are left out.
pub mod Guards
pub mod Newest
use eventmesh_go.Prelude.{
  ℕ, zero, suc, ◌+◌, Str, codes, is_empty, str_eq, Bool, true, false, not, ◌&&◌, ◌||◌, Option, none,
  some, List, [], ◌∷◌, ◌++◌, map, length, leb, ltb, ◌==◌, if◌then◌else◌, Result, ok, err, panic,
}
use eventmesh_go.Prelude.Words.{is_negative}
use eventmesh_go.EventLog.Event.{Event, LogError, new_event}
use eventmesh_go.Http.Numbers.{parse_int, decimal}
use eventmesh_go.Http.Events.{MessageJson, Payload, StreamMessage, payload_or_text}
use eventmesh_go.Http.Requests.{
  Claims, Request, SubscriptionInfo, ClientInfo, Failure, Body, Response, respond, crashed, Handler,
  write_error, nothing, logged_in, published, events_read, subscription_created,
  subscriptions_listed, clients_listed, invalid_content_type, invalid_body, client_id_required,
  client_id_short, topic_required, topic_short, topic_characters, token_not_generated,
  authentication_required, invalid_payload, publish_failed, invalid_offset, negative_offset,
  invalid_limit, limit_out_of_range, read_failed, subscriptions_failed, subscribe_failed,
  subscription_not_listed, subscription_id_required, subscription_not_found, unsubscribe_failed,
  admin_required,
}
use eventmesh_go.Http.Auth.{Jwt, AuthError, generate_token}

-- What UnsubscribeByID reports.
pub data Removal : Type 0 where
  removed not_there not_removed : Removal

-- A client as GetConnectedClients lists it.
pub record ClientRow : Type 0 where
  pub id : Str
  pub authenticated : Bool
  pub connected_at : ℕ

-- What the handlers call of the mesh node; `none` and `false` are errors that they only report.
pub record MeshApi (S : Type 0) : Type 0 where
  pub publish_event_with_result : Str → Event → S → Option Event × S
  pub subscribe : Str → Str → S → Bool × S
  pub get_client_subscriptions : Str → S → Option (List SubscriptionInfo)
  pub unsubscribe_by_id : Str → Str → S → Removal × S
  pub get_connected_clients : S → Option (List ClientRow)
  pub read_events : Str → ℕ → ℕ → S → Result LogError (List Event)

-- encoding/json on the bodies of requests, and on payloads.
pub record BodyJson (J : Type 0) : Type 0 where
  pub auth_request : Str → Option Str
  pub publish_request : Str → Option (Str × Option J)
  pub subscription_request : Str → Option Str
  pub marshal_payload : J → Option Str
  pub unmarshal_payload : Str → Option J

-- validateJSON
unfoldable pub validate_json : Request → Bool
validate_json r = str_eq r.content_type (codes "application/json")

-- validateAuthRequest
unfoldable pub validate_auth_request : Str → Option Failure
validate_auth_request client_id =
    if is_empty client_id
    then some client_id_required
    else if ltb (length client_id) 2
    then some client_id_short
    else none

-- The characters of a topic. The source ranges over code points; the bytes of one that is not ASCII
-- are none of these.
abbrev pub topic_character : ℕ → Bool
topic_character c =
    (leb b'a' c && leb c b'z')
    || (leb b'A' c && leb c b'Z')
    || (leb b'0' c && leb c b'9')
    || (c == b'.')
    || (c == b'-')
    || (c == b'_')

unfoldable pub check_characters : Str → Option Failure
check_characters [] = none
check_characters (c ∷ s) =
    let rest = check_characters s in if not (topic_character c) then some topic_characters else rest

-- validateTopic
unfoldable pub validate_topic : Str → Option Failure
validate_topic topic =
    if is_empty topic
    then some topic_required
    else if ltb (length topic) 2
    then some topic_short
    else check_characters topic

-- "%s-%d"
abbrev pub event_id_of : Event → Str
event_id_of event = event.topic ++ b'-' ∷ decimal event.offset

abbrev pub newer : SubscriptionInfo → Option SubscriptionInfo → Option SubscriptionInfo
newer sub none = some sub
newer sub (some best) = if ltb best.created_at sub.created_at then some sub else some best

-- The newest of the subscriptions for a topic: the loop of CreateSubscription.
unfoldable pub newest_for :
    Str → List SubscriptionInfo → Option SubscriptionInfo → Option SubscriptionInfo
newest_for topic [] created = created
newest_for topic (sub ∷ subs) created =
    newest_for topic subs (if str_eq sub.topic topic then newer sub created else created)

module _ {J S : Type 0} (json : BodyJson J) (mesh : MeshApi S) where
  abbrev pub after_token : Str → Result AuthError (Str × ℕ) → Response J
  after_token client_id (ok (token, expires_at)) =
      respond 200 (logged_in token client_id expires_at)
  after_token client_id (err e) = write_error 500 token_not_generated
  after_token client_id panic = crashed

  abbrev pub login_as : Jwt → Str → ℕ → Str → Option Failure → Response J
  login_as jwt key now client_id (some failure) = write_error 400 failure
  login_as jwt key now client_id none =
      after_token client_id
        (generate_token jwt key now client_id (str_eq client_id (codes "admin")))

  abbrev pub login_decoded : Jwt → Str → ℕ → Option Str → Response J
  login_decoded jwt key now none = write_error 400 invalid_body
  login_decoded jwt key now (some client_id) =
      login_as jwt key now client_id (validate_auth_request client_id)

  -- Login
  unfoldable pub login : Jwt → Str → ℕ → Handler J S
  login jwt key now r s =
      if not (validate_json r)
      then (write_error 400 invalid_content_type, s)
      else (login_decoded jwt key now (json.auth_request r.body), s)

  -- Handlers that need claims.
  abbrev pub with_client : Option Claims → (Claims → Response J × S) → S → Response J × S
  with_client none next s = (write_error 401 authentication_required, s)
  with_client (some claims) next s = next claims

  abbrev pub after_publish : Option Event × S → Response J × S
  after_publish (none, s) = (write_error 500 publish_failed, s)
  after_publish (some event, s) =
      (respond 201 (published (event_id_of event) event.offset event.timestamp), s)

  -- No payload is no bytes.
  abbrev pub payload_bytes : Option J → Option Str
  payload_bytes none = some []
  payload_bytes (some j) = json.marshal_payload j

  abbrev pub publish_bytes : ℕ → Str → Claims → Option Str → S → Response J × S
  publish_bytes now topic claims none s = (write_error 400 invalid_payload, s)
  publish_bytes now topic claims (some payload) s =
      after_publish
        (mesh.publish_event_with_result claims.client_id (new_event now topic payload) s)

  abbrev pub publish_checked : ℕ → Request → Str → Option J → Option Failure → S → Response J × S
  publish_checked now r topic payload (some failure) s = (write_error 400 failure, s)
  publish_checked now r topic payload none s =
      with_client r.claims (λ claims. publish_bytes now topic claims (payload_bytes payload) s) s

  abbrev pub publish_decoded : ℕ → Request → Option (Str × Option J) → S → Response J × S
  publish_decoded now r none s = (write_error 400 invalid_body, s)
  publish_decoded now r (some (topic, payload)) s =
      publish_checked now r topic payload (validate_topic topic) s

  -- PublishEvent, with validatePublishRequest.
  unfoldable pub publish_event : ℕ → Handler J S
  publish_event now r s =
      if not (validate_json r)
      then (write_error 400 invalid_content_type, s)
      else publish_decoded now r (json.publish_request r.body) s

  -- The message of an event in a page.
  abbrev pub page_message : Event → StreamMessage J
  page_message event = record {
    event_id = event_id_of event;
    topic = event.topic;
    payload = payload_or_text event.payload (json.unmarshal_payload event.payload);
    timestamp = event.timestamp;
    offset = event.offset;
  }

  -- The parameters of ReadTopicEvents.
  abbrev pub checked_offset : Option ℕ → Result Failure ℕ
  checked_offset none = err invalid_offset
  checked_offset (some n) = if is_negative n then err negative_offset else ok n

  unfoldable pub offset_parameter : Str → Result Failure ℕ
  offset_parameter s = if is_empty s then ok 0 else checked_offset (parse_int s)

  abbrev pub checked_limit : Option ℕ → Result Failure ℕ
  checked_limit none = err invalid_limit
  checked_limit (some n) =
      if is_negative n || (n == 0) || ltb 1000 n then err limit_out_of_range else ok n

  unfoldable pub limit_parameter : Str → Result Failure ℕ
  limit_parameter s = if is_empty s then ok 100 else checked_limit (parse_int s)

  abbrev pub page_of : Str → ℕ → Result LogError (List Event) → Response J
  page_of topic start (ok events) =
      respond 200 (events_read (map page_message events) topic start (length events))
  page_of topic start (err e) = write_error 500 read_failed
  page_of topic start panic = crashed

  abbrev pub read_page : Str → Result Failure ℕ → Result Failure ℕ → S → Response J
  read_page topic (ok start) (ok limit) s =
      page_of topic start (mesh.read_events topic start limit s)
  read_page topic (ok start) (err failure) s = write_error 400 failure
  read_page topic (ok start) panic s = crashed
  read_page topic (err failure) limit s = write_error 400 failure
  read_page topic panic limit s = crashed

  abbrev pub read_valid : Request → Option Failure → S → Response J
  read_valid r (some failure) s = write_error 400 failure
  read_valid r none s =
      read_page r.topic (offset_parameter r.offset_query) (limit_parameter r.limit_query) s

  -- ReadTopicEvents
  unfoldable pub read_topic_events : Handler J S
  read_topic_events r s =
      with_client r.claims
        (λ claims.
          if is_empty r.topic
          then (write_error 400 topic_required, s)
          else (read_valid r (validate_topic r.topic) s, s))
        s

  abbrev pub listed : Option (List SubscriptionInfo) → Response J
  listed none = write_error 500 subscriptions_failed
  listed (some subs) = respond 200 (subscriptions_listed subs)

  -- ListSubscriptions; GetSubscriptions, which no route leads to, lists the same.
  unfoldable pub list_subscriptions : Handler J S
  list_subscriptions r s =
      with_client r.claims
        (λ claims. (listed (mesh.get_client_subscriptions claims.client_id s), s)) s

  abbrev pub created_response : Option SubscriptionInfo → Response J
  created_response none = write_error 500 subscription_not_listed
  created_response (some sub) = respond 201 (subscription_created sub)

  abbrev pub find_created : Str → Option (List SubscriptionInfo) → Response J
  find_created topic none = write_error 500 subscriptions_failed
  find_created topic (some subs) = created_response (newest_for topic subs none)

  abbrev pub after_subscribe : Str → Claims → Bool × S → Response J × S
  after_subscribe topic claims (false, s) = (write_error 500 subscribe_failed, s)
  after_subscribe topic claims (true, s) =
      (find_created topic (mesh.get_client_subscriptions claims.client_id s), s)

  abbrev pub create_decoded : Request → Option Str → S → Response J × S
  create_decoded r none s = (write_error 400 invalid_body, s)
  create_decoded r (some topic) s =
      if is_empty topic
      then (write_error 400 topic_required, s)
      else with_client r.claims
          (λ claims. after_subscribe topic claims (mesh.subscribe claims.client_id topic s)) s

  -- CreateSubscription
  unfoldable pub create_subscription : Handler J S
  create_subscription r s =
      if not (validate_json r)
      then (write_error 400 invalid_content_type, s)
      else create_decoded r (json.subscription_request r.body) s

  abbrev pub after_removal : Removal × S → Response J × S
  after_removal (removed, s) = (respond 204 nothing, s)
  after_removal (not_there, s) = (write_error 404 subscription_not_found, s)
  after_removal (not_removed, s) = (write_error 500 unsubscribe_failed, s)

  -- DeleteSubscription
  unfoldable pub delete_subscription : Handler J S
  delete_subscription r s =
      with_client r.claims
        (λ claims.
          if is_empty r.subscription_id
          then (write_error 400 subscription_id_required, s)
          else after_removal (mesh.unsubscribe_by_id claims.client_id r.subscription_id s))
        s

  -- Handlers that need an administrator's claims.
  abbrev pub with_admin : Option Claims → (S → Response J) → S → Response J × S
  with_admin claims next s =
      with_client claims
        (λ c. if not c.is_admin then (write_error 403 admin_required, s) else (next s, s)) s

  abbrev pub topics_of : Option (List SubscriptionInfo) → List Str
  topics_of none = []
  topics_of (some []) = []
  topics_of (some (sub ∷ subs)) = sub.topic ∷ topics_of (some subs)

  -- The loop of AdminListClients.
  unfoldable pub client_infos : List ClientRow → S → List ClientInfo
  client_infos [] s = []
  client_infos (row ∷ rows) s =
      record {
        id = row.id;
        authenticated = row.authenticated;
        connected_at = row.connected_at;
        subscriptions = topics_of (mesh.get_client_subscriptions row.id s);
      }
      ∷ client_infos rows s

  abbrev pub clients_response : Option (List ClientRow) → S → Response J
  clients_response none s = write_error 500 subscriptions_failed
  clients_response (some rows) s = respond 200 (clients_listed (client_infos rows s))

  -- AdminListClients
  unfoldable pub admin_list_clients : Handler J S
  admin_list_clients r s =
      with_admin r.claims (λ s. clients_response (mesh.get_connected_clients s) s) s

  abbrev pub all_of : Option (List SubscriptionInfo) → List SubscriptionInfo
  all_of none = []
  all_of (some subs) = subs

  -- The loop of AdminListSubscriptions.
  unfoldable pub admin_subscriptions : List ClientRow → S → List SubscriptionInfo
  admin_subscriptions [] s = []
  admin_subscriptions (row ∷ rows) s =
      all_of (mesh.get_client_subscriptions row.id s) ++ admin_subscriptions rows s

  abbrev pub subscriptions_response : Option (List ClientRow) → S → Response J
  subscriptions_response none s = write_error 500 subscriptions_failed
  subscriptions_response (some rows) s =
      respond 200 (subscriptions_listed (admin_subscriptions rows s))

  -- AdminListSubscriptions
  unfoldable pub admin_list_subscriptions : Handler J S
  admin_list_subscriptions r s =
      with_admin r.claims (λ s. subscriptions_response (mesh.get_connected_clients s) s) s
