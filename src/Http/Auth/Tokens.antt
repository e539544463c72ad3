-- ===== src/Http/Auth/Tokens.antt =====
-- A token that the server has generated is accepted, as it is and in a header, until it expires.
use eventmesh_go.Prelude.{
  ℕ, ◌+◌, ◌*◌, ◌^◌, ◌<◌, Str, codes, is_empty, Bool, true, Bool-cases, Option, none, some, [], ◌∷◌,
  ◌++◌, ◌≡◌, refl, ◌==◌, ==_iff, ok, inl, inr, &&-eq-true,
}
use eventmesh_go.Http.Requests.{Claims}
use eventmesh_go.Http.Auth.{
  Jwt, IsSound, has_prefix, trim_prefix, bearer, token_lifetime, numeric_date, generate_token,
  validate_token, signed_with_expiry,
}

has_prefix-split : (s p : Str) → has_prefix s p ≡ true → (rest : Str) × (s ≡ p ++ rest)
unfolding has_prefix
has_prefix-split s [] h = (s, refl)
has_prefix-split [] (d ∷ p) h = absurd (cc h)
has_prefix-split (c ∷ s) (d ∷ p) h =
    let (same, front) = &&-eq-true (c == d) (has_prefix s p) h in
    let (rest, e) = has_prefix-split s p front in (rest, λ i. (==_iff c d).0 same i ∷ e i)

module _ (jwt : Jwt) (sound : IsSound jwt) where
  trim-signed :
      (key token : Str) (claims : Claims)
      → jwt.signed_string key claims ≡ some token
      → trim_prefix token bearer ≡ token
  unfolding trim_prefix
  trim-signed key token claims h = elim (Bool-cases (has_prefix token bearer)) [
    | inl e ↦
        let (rest, split) = has_prefix-split token bearer e in
        absurd (sound.signed-no_blank key token claims h (codes "Bearer") rest split)
    | inr e ↦ rw e
  ]

  signed_out :
      (signed : Option Str) (expires expires2 : ℕ) (token : Str)
      → signed_with_expiry signed expires ≡ ok (token, expires2)
      → (signed ≡ some token) × (expires2 ≡ expires)
  signed_out none expires expires2 token h = absurd (cc h)
  signed_out (some t) expires expires2 token h = (cc h, cc h)

  -- A token that GenerateToken returns is accepted by ValidateToken, under the same key and until the
  -- second of its expiry, with the client and the admin flag that it was generated for. The client is named in valid UTF-8.
  pub validate-generate_token :
      (key client_id token : Str) (is_admin : Bool) (now later expires_at : ℕ)
      → generate_token jwt key now client_id is_admin ≡ ok (token, expires_at)
      → sound.Utf8 client_id
      → later < numeric_date expires_at * 10 ^ 9
      → (claims : Claims) × (validate_token jwt key later token ≡ ok claims)
        × (claims.client_id ≡ client_id)
        × (claims.is_admin ≡ is_admin)
  unfolding generate_token validate_token
  validate-generate_token key client_id token is_admin now later expires_at h named_well early =
      elim (Bool-cases (is_empty client_id)) [
        | inl e ↦ absurd (cc (rw e at h))
        | inr named ↦
            let claims : Claims = record {
              client_id = client_id;
              is_admin = is_admin;
              issued_at = numeric_date now;
              expires_at = numeric_date (now + token_lifetime);
            } in
            let (signed, expiry) =
              signed_out (jwt.signed_string key claims) (now + token_lifetime) expires_at token
                (rw named at h) in
            (
              claims,
              rw (sound.signed-not_empty key token claims signed) (
                  rw (trim-signed key token claims signed) (
                    rw (
                      sound.parse-signed key token later claims named_well signed
                        (rw expiry at early)))),
              refl,
              refl,
            )
      ]
