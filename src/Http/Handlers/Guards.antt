-- ===== src/Http/Handlers/Guards.antt =====
-- What reaches the mesh node: the requests that the handlers let through, and with which arguments.
use eventmesh_go.Prelude.{
  ℕ, ◌<◌, ◌≤◌, Str, is_empty, ◌||◌, Bool-cases, Option, none, some, ◌≡◌, refl, inl, inr, ◌⊎◌, ltb,
  ◌==◌, arith, Result, ok, err,
}
use eventmesh_go.Prelude.Words.{two63, is_negative}
use eventmesh_go.EventLog.Event.{new_event}
use eventmesh_go.Http.Numbers.{parse_int}
use eventmesh_go.Http.Requests.{
  Claims, Request, Failure, Response, write_error, invalid_content_type, invalid_body,
  authentication_required, invalid_payload, topic_required, invalid_limit, limit_out_of_range,
  invalid_offset, negative_offset,
}
use eventmesh_go.Http.Handlers.{
  MeshApi, BodyJson, validate_json, validate_topic, publish_event, publish_decoded, publish_checked,
  publish_bytes, payload_bytes, after_publish, with_client, read_topic_events, read_valid,
  read_page, page_of, offset_parameter, limit_parameter, checked_offset, checked_limit,
}

module _ {J S : Type 0} (json : BodyJson J) (mesh : MeshApi S) where
  -- An error response, and the state as it was.
  abbrev pub Refused : Response J × S → S → Type 0
  Refused outcome s =
      (status : ℕ) × (failure : Failure) × (outcome ≡ (write_error status failure, s))

  -- The outcome of publishing an event under a valid topic for the client of the claims.
  pub record Published (now : ℕ) (r : Request) (outcome : Response J × S) (s : S) : Type 0 where
    pub claims : Claims
    pub topic : Str
    pub payload : Str
    pub authenticated : r.claims ≡ some claims
    pub valid : validate_topic topic ≡ none
    pub outcome-eq :
        outcome
        ≡ after_publish json mesh
            (mesh.publish_event_with_result claims.client_id (new_event now topic payload) s)

  publish_bytes-cases :
      (now : ℕ) (r : Request) (topic : Str) (claims : Claims) (payload : Option Str) (s : S)
      → r.claims ≡ some claims
      → validate_topic topic ≡ none
      → Refused (publish_bytes json mesh now topic claims payload s) s
        ⊎ Published now r (publish_bytes json mesh now topic claims payload s) s
  publish_bytes-cases now r topic claims none s who valid = inl (400, invalid_payload, refl)
  publish_bytes-cases now r topic claims (some payload) s who valid = inr (record {
    claims = claims;
    topic = topic;
    payload = payload;
    authenticated = who;
    valid = valid;
    outcome-eq = refl;
  })

  with_client-cases :
      (now : ℕ) (r : Request) (claims : Option Claims) (topic : Str) (payload : Option Str) (s : S)
      → r.claims ≡ claims
      → validate_topic topic ≡ none
      → Refused
          (with_client json mesh claims (λ c. publish_bytes json mesh now topic c payload s) s)
          s
        ⊎ Published now r
            (with_client json mesh claims (λ c. publish_bytes json mesh now topic c payload s) s)
            s
  with_client-cases now r none topic payload s who valid = inl (401, authentication_required, refl)
  with_client-cases now r (some claims) topic payload s who valid =
      publish_bytes-cases now r topic claims payload s who valid

  publish_checked-cases :
      (now : ℕ) (r : Request) (topic : Str) (payload : Option J) (verdict : Option Failure) (s : S)
      → validate_topic topic ≡ verdict
      → Refused (publish_checked json mesh now r topic payload verdict s) s
        ⊎ Published now r (publish_checked json mesh now r topic payload verdict s) s
  publish_checked-cases now r topic payload (some failure) s valid = inl (400, failure, refl)
  publish_checked-cases now r topic payload none s valid =
      with_client-cases now r r.claims topic (payload_bytes json mesh payload) s refl valid

  publish_decoded-cases :
      (now : ℕ) (r : Request) (decoded : Option (Str × Option J)) (s : S)
      → Refused (publish_decoded json mesh now r decoded s) s
        ⊎ Published now r (publish_decoded json mesh now r decoded s) s
  publish_decoded-cases now r none s = inl (400, invalid_body, refl)
  publish_decoded-cases now r (some (topic, payload)) s =
      publish_checked-cases now r topic payload (validate_topic topic) s refl

  -- A publish request is refused with the state untouched, or an event under a valid topic is
  -- published once, for the client that the request's claims name.
  pub publish_event-guarded :
      (now : ℕ) (r : Request) (s : S)
      → Refused (publish_event json mesh now r s) s
        ⊎ Published now r (publish_event json mesh now r s) s
  unfolding publish_event
  publish_event-guarded now r s = elim (Bool-cases (validate_json r)) [
    | inl typed ↦ rw typed (publish_decoded-cases now r (json.publish_request r.body) s)
    | inr other ↦ rw other (inl (400, invalid_content_type, refl))
  ]

  -- The page that a read request asks for, within its bounds.
  pub record PageRead (r : Request) (outcome : Response J × S) (s : S) : Type 0 where
    pub start : ℕ
    pub limit : ℕ
    pub valid : validate_topic r.topic ≡ none
    pub start_in_range : start < two63
    pub limit_positive : 0 < limit
    pub limit_in_range : limit ≤ 1000
    pub outcome-eq :
        outcome ≡ (page_of json mesh r.topic start (mesh.read_events r.topic start limit s), s)

  -- A parameter is refused, or within its range.
  abbrev Parsed : (ℕ → Type 0) → Result Failure ℕ → Type 0
  Parsed P result = ((f : Failure) × (result ≡ err f)) ⊎ ((n : ℕ) × (result ≡ ok n) × P n)

  checked_offset-Parsed : (n : Option ℕ) → Parsed (λ n. n < two63) (checked_offset json mesh n)
  checked_offset-Parsed none = inl (invalid_offset, refl)
  checked_offset-Parsed (some n) = elim (Bool-cases (is_negative n)) [
    | inl below ↦ inl (negative_offset, rw below)
    | inr fine ↦ inr (n, rw fine, ground arith)
  ]

  offset_parameter-Parsed : (s : Str) → Parsed (λ n. n < two63) (offset_parameter json mesh s)
  unfolding offset_parameter
  offset_parameter-Parsed s = elim (Bool-cases (is_empty s)) [
    | inl absent ↦ rw absent (inr (0, refl, omega arith))
    | inr given ↦ rw given (checked_offset-Parsed (parse_int s))
  ]

  checked_limit-Parsed :
      (n : Option ℕ) → Parsed (λ n. (0 < n) × (n ≤ 1000)) (checked_limit json mesh n)
  checked_limit-Parsed none = inl (invalid_limit, refl)
  checked_limit-Parsed (some n) = elim (Bool-cases (is_negative n || (n == 0) || ltb 1000 n)) [
    | inl out ↦ inl (limit_out_of_range, rw out)
    | inr fine ↦ inr (n, rw fine, (ground arith, ground arith))
  ]

  limit_parameter-Parsed :
      (s : Str) → Parsed (λ n. (0 < n) × (n ≤ 1000)) (limit_parameter json mesh s)
  unfolding limit_parameter
  limit_parameter-Parsed s = elim (Bool-cases (is_empty s)) [
    | inl absent ↦ rw absent (inr (100, refl, (omega arith, omega arith)))
    | inr given ↦ rw given (checked_limit-Parsed (parse_int s))
  ]

  read_page-cases :
      (r : Request) (s : S)
      → validate_topic r.topic ≡ none
      → Refused
          (
            read_page json mesh r.topic
                (offset_parameter json mesh r.offset_query)
                (limit_parameter json mesh r.limit_query)
                s,
            s,
          )
          s
        ⊎ PageRead r
            (
              read_page json mesh r.topic
                  (offset_parameter json mesh r.offset_query)
                  (limit_parameter json mesh r.limit_query)
                  s,
              s,
            )
            s
  read_page-cases r s valid = elim (offset_parameter-Parsed r.offset_query) [
    | inl (f, bad) ↦ rw bad (inl (400, f, refl))
    | inr (start, good, low) ↦ elim (limit_parameter-Parsed r.limit_query) [
      | inl (f, bad) ↦ rw (good, bad) (inl (400, f, refl))
      | inr (limit, fits, (positive, small)) ↦
          rw (good, fits)
            (inr (record {
              start = start;
              limit = limit;
              valid = valid;
              start_in_range = low;
              limit_positive = positive;
              limit_in_range = small;
              outcome-eq = refl;
            }))
    ]
  ]

  read_valid-cases :
      (r : Request) (verdict : Option Failure) (s : S)
      → validate_topic r.topic ≡ verdict
      → Refused (read_valid json mesh r verdict s, s) s
        ⊎ PageRead r (read_valid json mesh r verdict s, s) s
  read_valid-cases r (some failure) s valid = inl (400, failure, refl)
  read_valid-cases r none s valid = read_page-cases r s valid

  read_client-cases :
      (r : Request) (claims : Option Claims) (outcome : Response J × S) (s : S)
      → Refused outcome s ⊎ PageRead r outcome s
      → Refused (with_client json mesh claims (λ c. outcome) s) s
        ⊎ PageRead r (with_client json mesh claims (λ c. outcome) s) s
  read_client-cases r none outcome s h = inl (401, authentication_required, refl)
  read_client-cases r (some claims) outcome s h = h

  -- A read request leaves the state as it is, and it is refused, or it reads one page of a valid
  -- topic from an offset that is not negative, of at least one and at most a thousand events.
  pub read_topic_events-guarded :
      (r : Request) (s : S)
      → Refused (read_topic_events json mesh r s) s ⊎ PageRead r (read_topic_events json mesh r s) s
  unfolding read_topic_events
  read_topic_events-guarded r s =
      read_client-cases r r.claims _ s (elim (Bool-cases (is_empty r.topic)) [
        | inl absent ↦ rw absent (inl (400, topic_required, refl))
        | inr named ↦ rw named (read_valid-cases r (validate_topic r.topic) s refl)
      ])
