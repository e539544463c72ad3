-- ===== src/Http/Auth.antt =====
-- internal/httpapi/auth.go: tokens. github.com/golang-jwt/jwt is a parameter; what the code relies on
-- is `IsSound`. A time is a number of nanoseconds.
pub mod Tokens
use eventmesh_go.Prelude.{
  ℕ, ◌+◌, ◌*◌, ◌/◌, ◌<◌, ◌^◌, Str, codes, is_empty, str_eq, Bool, true, false, ◌&&◌, Option, none,
  some, List, [], ◌∷◌, ◌≡◌, ◌≢◌, ◌++◌, length, drop, ◌==◌, if◌then◌else◌, Result, ok, err,
}
use eventmesh_go.Http.Requests.{Claims}

-- SignedString with a key and HS256, and ParseWithClaims with a key at a time, which accepts only
-- HMAC signatures that fit and tokens that have not expired.
pub record Jwt : Type 0 where
  pub signed_string : Str → Claims → Option Str
  pub parse_with_claims : Str → ℕ → Str → Option Claims

-- A token that was signed for a client named in valid UTF-8, which JSON keeps, is accepted with its
-- claims under the same key until it expires. Signed tokens are not empty and have no blank.
pub record IsSound (jwt : Jwt) : Type 1 where
  pub Utf8 : Str → Type 0
  pub parse-signed :
      (key token : Str) (now : ℕ) (claims : Claims)
      → Utf8 claims.client_id
      → jwt.signed_string key claims ≡ some token
      → now < claims.expires_at * 10 ^ 9
      → jwt.parse_with_claims key now token ≡ some claims
  pub signed-not_empty :
      (key token : Str) (claims : Claims)
      → jwt.signed_string key claims ≡ some token
      → is_empty token ≡ false
  pub signed-no_blank :
      (key token : Str) (claims : Claims)
      → jwt.signed_string key claims ≡ some token
      → (front back : Str) → token ≢ (front ++ b' ' ∷ back)

pub data AuthError : Type 0 where
  client_id_empty not_signed token_empty token_invalid : AuthError

-- strings.HasPrefix
unfoldable pub has_prefix : Str → Str → Bool
has_prefix s [] = true
has_prefix [] (d ∷ p) = false
has_prefix (c ∷ s) (d ∷ p) = c == d && has_prefix s p

-- strings.TrimPrefix
unfoldable pub trim_prefix : Str → Str → Str
trim_prefix s p = if has_prefix s p then drop (length p) s else s

-- "Bearer "
abbrev pub bearer : Str
bearer = codes "Bearer "

-- 24 * time.Hour
abbrev pub token_lifetime : ℕ
token_lifetime = 86400 * 10 ^ 9

-- jwt.NewNumericDate: whole seconds.
abbrev pub numeric_date : ℕ → ℕ
numeric_date time = time / 10 ^ 9

abbrev pub signed_with_expiry : Option Str → ℕ → Result AuthError (Str × ℕ)
signed_with_expiry none expires_at = err not_signed
signed_with_expiry (some token) expires_at = ok (token, expires_at)

abbrev pub parsed_claims : Option Claims → Result AuthError Claims
parsed_claims none = err token_invalid
parsed_claims (some claims) = ok claims

module _ (jwt : Jwt) (secret_key : Str) (now : ℕ) where
  -- GenerateToken
  unfoldable pub generate_token : Str → Bool → Result AuthError (Str × ℕ)
  generate_token client_id is_admin =
      if is_empty client_id
      then err client_id_empty
      else signed_with_expiry
          (jwt.signed_string secret_key (record {
            client_id = client_id;
            is_admin = is_admin;
            issued_at = numeric_date now;
            expires_at = numeric_date (now + token_lifetime);
          }))
          (now + token_lifetime)

  -- ValidateToken
  unfoldable pub validate_token : Str → Result AuthError Claims
  validate_token token =
      if is_empty token
      then err token_empty
      else parsed_claims (jwt.parse_with_claims secret_key now (trim_prefix token bearer))
