-- ===== src/Auth/Access.antt =====
-- What `Authenticate` lets through (internal/auth/middleware.go), and what the token of a login is good for.
use Prim.Native.Char.{code}
use Prim.Native.String
use Prim.Native.String.append
use function.Prelude.{
  ℕ, ◌+◌, ◌*◌, ◌/◌, ◌≤◌, String, ◌≡◌, ◌≢◌, ◌↔◌, refl, sym, ◌∙◌, Bool, true, false, not, Option,
  none, some, arith, ltb, eqb, ltb→lt, if◌then◌else◌, ◌==◌, Bool-cases, inl, inr, eq_iff, eqb_iff,
}
use text.Mathlib.TextEquality.{Char-path}
use function.Auth.{
  Claims, JwtLibrary, JwtManager, UserContext, Middleware, HttpRequest, Passage, passed,
  unauthorized, done, strip, claims_of, user_of, LoginRequest, role_of, second, generate_token,
  validate_token, key_user, claims_user_of, bearer_user, by_token, by_key, authenticate,
  token_answer, login,
}

strip-append : (p t : String) → strip p (String.◌++◌ p t) ≡ some t
unfolding strip
strip-append String.[] t = rw append.nil refl
strip-append (String.◌∷◌ c p) t = rw (append.cons, strip-append p t) (ground arith)

strip_step :
    (b : Bool) (x : Option String) (t : String)
    → (if b then x else none) ≡ some t
    → (b ≡ true) × (x ≡ some t)
strip_step true x t e = (refl, e)
strip_step false x t e = cc e

strip-some : (p h t : String) → strip p h ≡ some t → h ≡ String.◌++◌ p t
unfolding strip
strip-some String.[] h t e = cc (e, append.nil t)
strip-some (String.◌∷◌ c p) String.[] t e = cc e
strip-some (String.◌∷◌ c p) (String.◌∷◌ d s) t e =
    let (same, rest) = strip_step (eqb (code c) (code d)) (strip p s) t e in
    cc (Char-path c d ((eqb_iff _ _).0 same), strip-some p s t rest, append.cons c p t)

-- Whom the middleware lets through, and as which user: everyone if it is not enabled, the holder of a key
-- that the validator accepts, and else the bearer of a token that is valid now.
pub data IsAllowed (lib : JwtLibrary) (m : Middleware) (now : ℕ) (r : HttpRequest)
    (u : Option UserContext) : Type 0 where
  open_to_all : m.enabled ≡ false → u ≡ r.context → IsAllowed lib m now r u
  has_key :
      (validate : String → Option (Option UserContext))
      → m.enabled ≡ true
      → m.key_validator ≡ some validate
      → r.api_key_header ≢ ""
      → validate r.api_key_header ≡ some u
      → IsAllowed lib m now r u
  has_token :
      (token : String) (c : Claims)
      → m.enabled ≡ true
      → ((validate : String → Option (Option UserContext))
          → m.key_validator ≡ some validate
          → r.api_key_header ≢ ""
          → validate r.api_key_header ≡ none)
      → r.authorization ≡ String.◌++◌ "Bearer " token
      → lib.parse m.jwt.secret now token ≡ some c
      → u ≡ some (user_of c)
      → IsAllowed lib m now r u

unless_some :
    {A : Type 0} (b : Bool) (x : Option A) (y : A)
    → (if b then none else x) ≡ some y
    → (b ≡ false) × (x ≡ some y)
unless_some true x y e = cc e
unless_some false x y e = (refl, e)

unless_none :
    {A : Type 0} (b : Bool) (x : Option A) → b ≡ false → (if b then none else x) ≡ none → x ≡ none
unless_none true x h e = cc h
unless_none false x h e = e

if_not-true : (b : Bool) (x y : Passage) → b ≡ true → (if not b then x else y) ≡ y
if_not-true b x y on = rw on refl

if_not-false : (b : Bool) (x y : Passage) → b ≡ false → (if not b then x else y) ≡ x
if_not-false b x y off = rw off refl

if_is_true : {A : Type 0} (b : Bool) (x y : A) → b ≡ true → (if b then x else y) ≡ x
if_is_true b x y t = rw t refl

if_is_false : {A : Type 0} (b : Bool) (x y : A) → b ≡ false → (if b then x else y) ≡ y
if_is_false b x y f = rw f refl

not_early : (a b : ℕ) → ltb a b ≡ false → b ≤ a
not_early a b h = ground arith

full_not : (k : String) → (k == "") ≡ false → k ≢ ""
full_not k e h = cc (e, (eq_iff k "").1 h)

not_full : (k : String) → k ≢ "" → (k == "") ≡ false
not_full k ne = elim (Bool-cases (k == "")) [
  | inl empty ↦ elim (ne ((eq_iff k "").0 empty)) [ ]
  | inr full ↦ full
]

module _ (lib : JwtLibrary) where
  key_user-some :
      (v : Option (String → Option (Option UserContext))) (k : String) (u : Option UserContext)
      → key_user lib v k ≡ some u
      → (validate : String → Option (Option UserContext)) × (v ≡ some validate)
        × (k ≢ "")
        × (validate k ≡ some u)
  unfolding key_user
  key_user-some none k u e = cc e
  key_user-some (some validate) k u e =
      let (full, accepted) = unless_some (k == "") (validate k) u e in
      (validate, refl, full_not k full, accepted)

  refused_by_key :
      (v : Option (String → Option (Option UserContext))) (k : String)
      → key_user lib v k ≡ none
      → (validate : String → Option (Option UserContext)) → v ≡ some validate
      → k ≢ ""
      → validate k ≡ none
  unfolding key_user
  refused_by_key none k e validate h ne = cc h
  refused_by_key (some f) k e validate h ne = cc (h, unless_none (k == "") (f k) (not_full k ne) e)

  key_user-none :
      (v : Option (String → Option (Option UserContext))) (k : String)
      → ((validate : String → Option (Option UserContext))
          → v ≡ some validate
          → k ≢ ""
          → validate k ≡ none)
      → key_user lib v k ≡ none
  unfolding key_user
  key_user-none none k h = refl
  key_user-none (some f) k h = elim (Bool-cases (k == "")) [
    | inl empty ↦ rw empty refl
    | inr full ↦ rw full (h f refl (full_not k full))
  ]

  claims_some :
      (x : Option Claims) (w : UserContext)
      → claims_user_of lib x ≡ some w
      → (c : Claims) × (x ≡ some c) × (w ≡ user_of c)
  unfolding claims_user_of
  claims_some none w e = cc e
  claims_some (some c) w e = (c, refl, cc e)

  bearer_some :
      (m : JwtManager) (now : ℕ) (o : Option String) (w : UserContext)
      → bearer_user lib m now o ≡ some w
      → (token : String) × (c : Claims) × (o ≡ some token)
        × (lib.parse m.secret now token ≡ some c)
        × (w ≡ user_of c)
  unfolding bearer_user validate_token
  bearer_some m now none w e = cc e
  bearer_some m now (some token) w e =
      let (c, valid, user) = claims_some (lib.parse m.secret now token) w e in
      (token, c, refl, valid, user)

  by_key-IsAllowed :
      (m : Middleware) (now : ℕ) (r : HttpRequest) (u : Option UserContext)
      (x : Option (Option UserContext)) (y : Option UserContext)
      → m.enabled ≡ true
      → key_user lib m.key_validator r.api_key_header ≡ x
      → bearer_user lib m.jwt now (strip "Bearer " r.authorization) ≡ y
      → by_key lib x y ≡ passed u
      → IsAllowed lib m now r u
  unfolding by_key by_token
  by_key-IsAllowed m now r u (some w) y on k b e =
      let (validate, there, full, accepted) = key_user-some m.key_validator r.api_key_header w k in
      IsAllowed.has_key validate on there full (cc (e, accepted))
  by_key-IsAllowed m now r u none (some w) on k b e =
      let (token, c, header, valid, user) = bearer_some m.jwt now _ w b in
      IsAllowed.has_token token c on (refused_by_key m.key_validator r.api_key_header k)
        (strip-some "Bearer " r.authorization token header) valid (cc (e, user))
  by_key-IsAllowed m now r u none none on k b e = cc e

  allowed-by_key :
      (m : Middleware) (now : ℕ) (r : HttpRequest) (u : Option UserContext)
      → IsAllowed lib m now r u
      → authenticate lib m now r ≡ passed u
  unfolding authenticate by_key by_token bearer_user validate_token key_user claims_user_of
  allowed-by_key m now r u (IsAllowed.open_to_all off same) = rw (off, same) refl
  allowed-by_key m now r u (IsAllowed.has_key validate on there full accepted) =
      rw (on, there, not_full r.api_key_header full, accepted) refl
  allowed-by_key m now r u (IsAllowed.has_token token c on no_key header valid user) =
      rw
        (
          on,
          key_user-none m.key_validator r.api_key_header no_key,
          header,
          strip-append "Bearer " token,
          valid,
          user,
        )
        refl

  -- The middleware lets a request through, with a user, exactly if the request is allowed as that user.
  pub authenticate_iff :
      (m : Middleware) (now : ℕ) (r : HttpRequest) (u : Option UserContext)
      → (authenticate lib m now r ≡ passed u) ↔ IsAllowed lib m now r u
  unfolding authenticate
  authenticate_iff m now r u = (
    λ e. elim (Bool-cases m.enabled) [
      | inl on ↦ by_key-IsAllowed m now r u _ _ on refl refl (sym (if_not-true _ _ _ on) ∙ e)
      | inr off ↦ IsAllowed.open_to_all off (cc (sym (if_not-false _ _ _ off) ∙ e))
    ],
    allowed-by_key m now r u,
  )

  token_signed :
      (x : Option String) (token : String) → token_answer lib x ≡ done 200 token → x ≡ some token
  unfolding token_answer
  token_signed none token e = cc e
  token_signed (some t) token e = cc e

  login_done :
      (m : JwtManager) (r : LoginRequest) (now issued : ℕ) (token : String)
      → login lib m (some r) now issued ≡ done 200 token
      → lib.sign m.secret (claims_of m r.login_user (role_of r.login_role) now issued) ≡ some token
  unfolding login token_answer generate_token
  login_done m r now issued token e = elim (Bool-cases (r.login_user == "")) [
    | inl empty ↦ cc (sym (if_is_true _ _ _ empty) ∙ e)
    | inr full ↦ token_signed _ token (sym (if_is_false _ _ _ full) ∙ e)
  ]

  bearer_of :
      (m : Middleware) (later : ℕ) (q : HttpRequest) (token : String) (x : Option Claims)
      → m.enabled ≡ true
      → key_user lib m.key_validator q.api_key_header ≡ none
      → q.authorization ≡ String.◌++◌ "Bearer " token
      → lib.parse m.jwt.secret later token ≡ x
      → authenticate lib m later q ≡ by_token lib (claims_user_of lib x)
  unfolding authenticate by_key bearer_user validate_token
  bearer_of m later q token x on no_key header read =
      rw (on, no_key, header, strip-append "Bearer " token, read) refl

  -- Where the middleware is enabled and accepts no key of the request, the token of a login lets its
  -- bearer through as the user and with the role that the login was for before the second in which the
  -- life of the token ends, and not after.
  pub login-authenticate :
      (m : Middleware) (r : LoginRequest) (now issued later : ℕ) (token : String) (q : HttpRequest)
      → login lib m.jwt (some r) now issued ≡ done 200 token
      → m.enabled ≡ true
      → key_user lib m.key_validator q.api_key_header ≡ none
      → q.authorization ≡ String.◌++◌ "Bearer " token
      → authenticate lib m later q ≡ (
          if ltb later ((now + m.jwt.expiration) / second * second)
          then passed (
              some (record {
                user_id = r.login_user;
                user_role = role_of r.login_role;
                auth_method = "jwt";
              }))
          else unauthorized)
  unfolding by_token claims_user_of user_of claims_of
  login-authenticate m r now issued later token q e on no_key header =
      let signed = login_done m.jwt r now issued token e in
      elim (Bool-cases (ltb later ((now + m.jwt.expiration) / second * second))) [
        | inl early ↦ rw early (
            bearer_of m later q token _ on no_key header
              (lib.parse-sign m.jwt.secret token _ later signed (ltb→lt _ _ early)))
        | inr late ↦ rw late (
            bearer_of m later q token none on no_key header
              (lib.parse_expired m.jwt.secret token _ later signed (not_early _ _ late)))
      ]
