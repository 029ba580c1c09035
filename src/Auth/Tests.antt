-- ===== src/Auth/Tests.antt =====
-- Runs of the middleware and of the key handlers, and the theorems at inputs that meet their hypotheses. The
-- library of tokens signs one person's claims, with a text for a signature.
use function.Prelude.{
  ℕ, ◌*◌, ◌≤◌, ◌<◌, String, ◌≡◌, refl, Bool, true, false, ◌&&◌, Option, none, some, List, [], ◌∷◌,
  ◌+◌, ◌/◌, ◌↔◌, ap, take, lt→ltb, arith, ltb, eqb, if◌then◌else◌, ◌==◌, eq_iff,
}
use mathlib.Core.Path.{subst}
use function.Prelude.Text.{bytes}
use function.Auth.{
  Claims, JwtLibrary, UserContext, Middleware, HttpRequest, passed, unauthorized, done, second,
  authenticate, login, key_user, role_of,
}
use function.Auth.Access.{IsAllowed, authenticate_iff, login-authenticate}
use function.Auth.Keys.{hash_api_key, get_api_key_by_hash, create_api_key}
use function.Auth.Owners.{Call, creates, deletes, run_all, created_key_stays}

abbrev alices : Claims
alices = record { claims_user = "alice"; claims_role = "user"; expires_at = 60; issued_at = 0 }

abbrev is_alices : Claims → Bool
is_alices c =
    c.claims_user == "alice" && c.claims_role == "user" && eqb c.expires_at 60 && eqb c.issued_at 0

alices_only : (c : Claims) → is_alices c ≡ true → c ≡ alices
alices_only c h = ground (arith, eq_iff c.claims_user "alice", eq_iff c.claims_role "user")

not_before : (a b : ℕ) → b ≤ a → ltb a b ≡ false
not_before a b h = ground arith

sign_one : String → Claims → Option String
sign_one secret c = if is_alices c then some "signed" else none

parse_one : String → ℕ → String → Option Claims
parse_one secret now token =
    if token == "signed" && ltb now (60 * second) then some alices else none

signed_one :
    (b : Bool) (token : String)
    → (if b then some "signed" else none) ≡ some token
    → (b ≡ true) × (token ≡ "signed")
signed_one true token e = (refl, cc e)
signed_one false token e = cc e

parse-sign_one :
    (secret token : String) (c : Claims) (now : ℕ)
    → sign_one secret c ≡ some token
    → now < c.expires_at * second
    → parse_one secret now token ≡ some c
unfolding sign_one parse_one
parse-sign_one secret token c now e early =
    let (hers, same) = signed_one (is_alices c) token e in
    let hers' = alices_only c hers in
    rw
      (same, hers', lt→ltb now (60 * second) (subst (λ d. now < d.expires_at * second) hers' early))
      refl

parse_one_expired :
    (secret token : String) (c : Claims) (now : ℕ)
    → sign_one secret c ≡ some token
    → c.expires_at * second ≤ now
    → parse_one secret now token ≡ none
unfolding sign_one parse_one
parse_one_expired secret token c now e late =
    let (hers, same) = signed_one (is_alices c) token e in
    let late' = subst (λ d. d.expires_at * second ≤ now) (alices_only c hers) late in
    rw (same, not_before now (60 * second) late') refl

abbrev one_signer : JwtLibrary
one_signer = record {
  sign = sign_one;
  parse = parse_one;
  parse-sign = parse-sign_one;
  parse_expired = parse_one_expired;
}

abbrev alice : UserContext
alice = record { user_id = "alice"; user_role = "user"; auth_method = "jwt" }

abbrev guard : Middleware
guard = record {
  jwt = record { secret = "s"; expiration = 60 * second };
  key_validator = none;
  enabled = true;
}

abbrev with_token : HttpRequest
with_token = record { api_key_header = ""; authorization = "Bearer signed"; context = none }

-- The role is `user` where none is asked for; the token is good for a minute.
login_runs :
    (login one_signer guard.jwt (some (record { login_user = "alice"; login_role = "" })) 0 0
      ≡ done 200 "signed")
    × (authenticate one_signer guard 7 with_token ≡ passed (some alice))
    × (authenticate one_signer guard (60 * second) with_token ≡ unauthorized)
unfolding login authenticate sign_one parse_one
login_runs = (refl, refl, refl)

authenticate_iff_example :
    (authenticate one_signer guard 7 with_token ≡ passed (some alice))
    ↔ IsAllowed one_signer guard 7 with_token (some alice)
authenticate_iff_example = authenticate_iff one_signer guard 7 with_token (some alice)

login-authenticate_example : authenticate one_signer guard 7 with_token ≡ (
    if ltb 7 ((0 + guard.jwt.expiration) / second * second)
    then passed (some alice)
    else unauthorized)
unfolding key_user role_of
login-authenticate_example =
    login-authenticate one_signer guard (record { login_user = "alice"; login_role = "" }) 0 0 7
      "signed" with_token login_runs.0 refl refl refl

-- A hash of these tests: the first bytes.
abbrev first_bytes : List ℕ → List ℕ
first_bytes bs = take 5 bs

abbrev calls : List Call
calls =
    creates true (some (record { user_id = "bob"; user_role = "user"; auth_method = "jwt" }))
      (some "b") (some (9 ∷ [])) "k2"
    ∷ deletes true (some (record { user_id = "bob"; user_role = "user"; auth_method = "jwt" })) "k1"
    ∷ []

created_runs :
    create_api_key first_bytes true (some alice) (some "a") (some (0x1f ∷ [])) "k1" [] ≡ (
      done 201 ("k1", "fn_1f"),
      record {
        key_id = "k1";
        key_name = "a";
        key_hash = "666e5f3166";
        key_owner = "alice";
        key_role = "user";
        key_end = none;
      }
          ∷ [],
    )
unfolding create_api_key bytes
created_runs = refl

created_key_stays_example :
    get_api_key_by_hash 3 (hash_api_key first_bytes "fn_1f") (
      run_all first_bytes calls
        (create_api_key first_bytes true (some alice) (some "a") (some (0x1f ∷ [])) "k1" []).1)
    ≡ some ("k1", "alice", "user")
created_key_stays_example =
    created_key_stays first_bytes true alice (some "a") (some (0x1f ∷ [])) "k1" "fn_1f" [] calls 3
      (ap (λ x. x.0) created_runs) ((λ h. cc h), ((λ h. cc h), tt))
