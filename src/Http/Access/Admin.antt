-- ===== src/Http/Access/Admin.antt =====
-- What guards the admin endpoints, and what a request without a token can reach.
use eventmesh_go.Prelude.{
  ℕ, Str, codes, is_empty, str_eq, true, Bool-cases, ◌≡◌, refl, ap, ◌∙◌, sym, subst, inl, inr, ◌⊎◌,
  Result, ok, err, panic,
}
use eventmesh_go.Http.Requests.{
  Claims, Request, Response, respond, crashed, Handler, write_error, nothing, internal_error,
  authorization_required, invalid_token, admin_required,
}
use eventmesh_go.Http.Auth.{AuthError, has_prefix, validate_token}
use eventmesh_go.Http.Access.{
  Middleware, Endpoints, extract_token, with_claims, with_middleware, recovery, recovered, cors,
  authorised, admin_required_for, setup_routes, route,
}

-- The token of the request is valid and its claims are an administrator's.
pub record IsAdminRequest (m : Middleware) (now : ℕ) (r : Request) : Type 0 where
  pub claims : Claims
  pub valid : validate_token m.jwt m.secret_key now (extract_token r) ≡ ok claims
  pub is_admin : claims.is_admin ≡ true

-- Why a request does not reach its handler.
pub data Denial : Type 0 where
  no_token bad_token not_an_admin panicked panic_caught preflight : Denial

-- The answers to a request that does not reach its handler.
abbrev pub denial_response : {J : Type 0} → Denial → Response J
denial_response no_token = write_error 401 authorization_required
denial_response bad_token = write_error 401 invalid_token
denial_response not_an_admin = write_error 403 admin_required
denial_response panicked = crashed
denial_response panic_caught = write_error 500 internal_error
denial_response preflight = respond 200 nothing

module _ {J S : Type 0} (m : Middleware) (now : ℕ) where
  -- One of these answers, with the state as it is.
  abbrev pub Refuses : Response J × S → S → Type 0
  Refuses outcome s = (d : Denial) × (outcome ≡ (denial_response d, s))

  -- The outcome is a refusal, or the handler's for an administrator's claims.
  abbrev pub Guarded :
      (Response J × S → Response J × S) → Handler J S → Response J × S → Request → S → Type 0
  Guarded after next outcome r s =
      Refuses outcome s
      ⊎ ((a : IsAdminRequest m now r) × (outcome ≡ after (next (with_claims r a.claims) s)))

  abbrev itself : Response J × S → Response J × S
  itself outcome = outcome

  authorised-cases :
      (result : Result AuthError Claims) (next : Handler J S) (r : Request) (s : S)
      → validate_token m.jwt m.secret_key now (extract_token r) ≡ result
      → Guarded itself next (authorised m now result next r s) r s
  authorised-cases (ok claims) next r s e = elim (Bool-cases claims.is_admin) [
    | inl admin ↦ inr (record { claims = claims; valid = e; is_admin = admin }, rw admin refl)
    | inr other ↦ inl (not_an_admin, rw other refl)
  ]
  authorised-cases (err e) next r s h = inl (bad_token, refl)
  authorised-cases panic next r s h = inl (panicked, refl)

  admin_required-cases :
      (next : Handler J S) (r : Request) (s : S)
      → Guarded itself next (admin_required_for m now next r s) r s
  unfolding admin_required_for
  admin_required-cases next r s = elim (Bool-cases (is_empty (extract_token r))) [
    | inl absent ↦ inl (no_token, rw absent refl)
    | inr present ↦
        rw present
          (authorised-cases (validate_token m.jwt m.secret_key now (extract_token r)) next r s refl)
  ]

  recovered-refusal : (d : Denial) (s : S) → Refuses (recovered (denial_response d, s)) s
  recovered-refusal no_token s = (no_token, refl)
  recovered-refusal bad_token s = (bad_token, refl)
  recovered-refusal not_an_admin s = (not_an_admin, refl)
  recovered-refusal panicked s = (panic_caught, refl)
  recovered-refusal panic_caught s = (panic_caught, refl)
  recovered-refusal preflight s = (preflight, refl)

  recovered-cases :
      (next : Handler J S) (outcome : Response J × S) (r : Request) (s : S)
      → Guarded itself next outcome r s
      → Guarded recovered next (recovered outcome) r s
  recovered-cases next outcome r s (inl (d, e)) =
      let (d2, e2) = recovered-refusal d s in inl (d2, ap recovered e ∙ e2)
  recovered-cases next outcome r s (inr (a, e)) = inr (a, ap recovered e)

  with_middleware-cases :
      (next : Handler J S) (r : Request) (s : S)
      → Guarded recovered next (with_middleware (admin_required_for m now next) r s) r s
  unfolding recovery cors
  with_middleware-cases next r s = elim (Bool-cases (str_eq r.method (codes "OPTIONS"))) [
    | inl asked ↦ rw asked (inl (preflight, refl))
    | inr other ↦ rw other (
        recovered-cases next (admin_required_for m now next r s) r s
          (admin_required-cases next r s))
  ]

  -- The handler of an admin path.
  abbrev pub AdminPath : Endpoints J S → Handler J S → Str → Type 0
  AdminPath h next path =
      ((path ≡ codes "/api/v1/admin/clients") × (next ≡ h.admin_list_clients))
      ⊎ ((path ≡ codes "/api/v1/admin/subscriptions") × (next ≡ h.admin_list_subscriptions))
      ⊎ ((path ≡ codes "/api/v1/admin/stats") × (next ≡ h.admin_get_stats))

  -- A request to an admin path gets one of the answers for a request without a token, with a token
  -- that is not valid or not an administrator's, for a panic or for a preflight, with the state
  -- untouched, or its token is valid with an
  -- administrator's claims and the outcome is that of the path's handler for these claims, with a
  -- panic turned into an error response. This holds in the no-auth mode as well.
  pub setup_routes-admin :
      (h : Endpoints J S) (next : Handler J S) (r : Request) (s : S)
      → AdminPath h next r.path
      → Guarded recovered next (setup_routes m now h r s) r s
  unfolding setup_routes route str_eq has_prefix
  setup_routes-admin h next r s (inl (path, e)) =
      subst (λ p. Guarded recovered next (route m now h p r s) r s) (sym path)
        (rw e (with_middleware-cases h.admin_list_clients r s))
  setup_routes-admin h next r s (inr (inl (path, e))) =
      subst (λ p. Guarded recovered next (route m now h p r s) r s) (sym path)
        (rw e (with_middleware-cases h.admin_list_subscriptions r s))
  setup_routes-admin h next r s (inr (inr (path, e))) =
      subst (λ p. Guarded recovered next (route m now h p r s) r s) (sym path)
        (rw e (with_middleware-cases h.admin_get_stats r s))
