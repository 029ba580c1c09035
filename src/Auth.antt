-- ===== src/Auth.antt =====
-- Who may call the API: the tokens and the middleware (internal/auth/jwt.go, internal/auth/middleware.go),
-- and the login (internal/api/auth_handler.go). The JWT library is a record of what it does. Times are
-- nanoseconds; an `exp` is in seconds.
pub mod Access
pub mod Keys
pub mod Owners
mod Tests
use Prim.Native.Char.{code}
use Prim.Native.String
use function.Prelude.{
  ℕ, ◌+◌, ◌*◌, ◌/◌, ◌^◌, ◌≤◌, ◌<◌, String, ◌≡◌, Bool, not, Option, none, some, eqb, if◌then◌else◌,
  ◌==◌,
}

-- `Claims`
pub record Claims : Type 0 where
  pub claims_user : String
  pub claims_role : String
  pub expires_at : ℕ
  pub issued_at : ℕ

abbrev pub second : ℕ
second = 10 ^ 9

-- golang-jwt: `SignedString`, and `ParseWithClaims` at a time. A signed token is read with its secret
-- before its `exp`, and is refused from then on.
pub record JwtLibrary : Type 0 where
  pub sign : String → Claims → Option String
  pub parse : String → ℕ → String → Option Claims
  pub parse-sign :
      (secret token : String) (c : Claims) (now : ℕ)
      → sign secret c ≡ some token
      → now < c.expires_at * second
      → parse secret now token ≡ some c
  pub parse_expired :
      (secret token : String) (c : Claims) (now : ℕ)
      → sign secret c ≡ some token
      → c.expires_at * second ≤ now
      → parse secret now token ≡ none

-- `JWTManager`; the life of a token is not negative.
pub record JwtManager : Type 0 where
  pub secret : String
  pub expiration : ℕ

pub record UserContext : Type 0 where
  pub user_id : String
  pub user_role : String
  pub auth_method : String

-- `Middleware`; `ValidateAPIKey` gives an error, or a pointer that may be nil.
pub record Middleware : Type 0 where
  pub jwt : JwtManager
  pub key_validator : Option (String → Option (Option UserContext))
  pub enabled : Bool

-- What the middleware reads of a request: the header for keys, the header `Authorization`, and the user
-- of its context.
pub record HttpRequest : Type 0 where
  pub api_key_header : String
  pub authorization : String
  pub context : Option UserContext

-- The next handler is called, and finds the user with `GetUser`; or the answer is a 401.
pub data Passage : Type 0 where
  passed : Option UserContext → Passage
  unauthorized : Passage

-- An answer with its status: what is asked for, or a message.
pub data Answer (A : Type 0) : Type 0 where
  done : ℕ → A → Answer A
  refused : ℕ → String → Answer A

-- `strings.HasPrefix` and `strings.TrimPrefix`
unfoldable pub strip : String → String → Option String
strip String.[] s = some s
strip (String.◌∷◌ c p) String.[] = none
strip (String.◌∷◌ c p) (String.◌∷◌ d s) =
    let rest = strip p s in if eqb (code c) (code d) then rest else none

-- The claims that `Generate` signs; `jwt.NewNumericDate` drops the part of a second.
unfoldable pub claims_of : JwtManager → String → String → ℕ → ℕ → Claims
claims_of m user role now issued = record {
  claims_user = user;
  claims_role = role;
  expires_at = (now + m.expiration) / second;
  issued_at = issued / second;
}

unfoldable pub user_of : Claims → UserContext
user_of c = record { user_id = c.claims_user; user_role = c.claims_role; auth_method = "jwt" }

pub record LoginRequest : Type 0 where
  pub login_user : String
  pub login_role : String

unfoldable pub role_of : String → String
role_of role = if role == "" then "user" else role

module _ (lib : JwtLibrary) where
  -- `Generate`, with the two readings of the clock.
  unfoldable pub generate_token : JwtManager → String → String → ℕ → ℕ → Option String
  unfolding claims_of
  generate_token m user role now issued = lib.sign m.secret (claims_of m user role now issued)

  -- `Validate`
  unfoldable pub validate_token : JwtManager → ℕ → String → Option Claims
  validate_token m now token = lib.parse m.secret now token

  -- The user of an accepted key.
  unfoldable pub key_user :
      Option (String → Option (Option UserContext)) → String → Option (Option UserContext)
  key_user none key = none
  key_user (some validate) key = if key == "" then none else validate key

  unfoldable pub claims_user_of : Option Claims → Option UserContext
  unfolding user_of
  claims_user_of none = none
  claims_user_of (some c) = some (user_of c)

  -- The user of an accepted token.
  unfoldable pub bearer_user : JwtManager → ℕ → Option String → Option UserContext
  unfolding validate_token claims_user_of
  bearer_user m now none = none
  bearer_user m now (some token) = claims_user_of (validate_token m now token)

  unfoldable pub by_token : Option UserContext → Passage
  by_token none = unauthorized
  by_token (some u) = passed (some u)

  unfoldable pub by_key : Option (Option UserContext) → Option UserContext → Passage
  unfolding by_token
  by_key (some u) bearer = passed u
  by_key none bearer = by_token bearer

  -- `Authenticate`
  unfoldable pub authenticate : Middleware → ℕ → HttpRequest → Passage
  unfolding by_key key_user bearer_user strip
  authenticate m now r =
      if not m.enabled
      then passed r.context
      else by_key (key_user m.key_validator r.api_key_header)
          (bearer_user m.jwt now (strip "Bearer " r.authorization))

  unfoldable pub token_answer : Option String → Answer String
  token_answer none = refused 500 "failed to generate token"
  token_answer (some token) = done 200 token

  -- `Login`, of the body as it is decoded.
  unfoldable pub login : JwtManager → Option LoginRequest → ℕ → ℕ → Answer String
  unfolding generate_token token_answer role_of
  login m none now issued = refused 400 "invalid request"
  login m (some r) now issued =
      if r.login_user == ""
      then refused 400 "user_id required"
      else token_answer (generate_token m r.login_user (role_of r.login_role) now issued)
