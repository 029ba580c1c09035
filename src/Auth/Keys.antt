-- ===== src/Auth/Keys.antt =====
-- API keys: how they are made (internal/auth/apikey.go), their table (internal/storage/postgres.go) and
-- their handlers (internal/api/auth_handler.go). The random bytes, the id, and whether the database answers
-- are arguments; SHA-256 is a parameter. Times are instants of the database's clock.
use Prim.Native.String
use Prim.Native.String.{count}
use function.Prelude.{
  ℕ, ◌/◌, ◌%◌, String, Bool, true, false, not, ◌&&◌, ◌||◌, Option, none, some, List, [], ◌∷◌, ◌++◌,
  ltb, if◌then◌else◌, get_elem?, ◌==◌,
}
use function.Prelude.Text.{bytes}
use function.Auth.{UserContext, Answer, done, refused}

-- A row of `api_keys`; of its times only the end is read by what is modelled, null where there is none.
pub record KeyRow : Type 0 where
  pub key_id : String
  pub key_name : String
  pub key_hash : String
  pub key_owner : String
  pub key_role : String
  pub key_end : Option ℕ

-- `hex.EncodeToString`
abbrev pub hex_digits : List String
hex_digits =
    "0" ∷ "1" ∷ "2" ∷ "3" ∷ "4" ∷ "5" ∷ "6" ∷ "7" ∷ "8" ∷ "9" ∷ "a" ∷ "b" ∷ "c" ∷ "d" ∷ "e" ∷ "f"
    ∷ []

unfoldable pub hex_digit : ℕ → String
hex_digit n = elim (get_elem? hex_digits n) [ none ↦ "" | some d ↦ d ]

unfoldable pub hex : List ℕ → String
unfolding hex_digit
hex [] = ""
hex (b ∷ bs) = String.◌++◌ (hex_digit (b / 16)) (String.◌++◌ (hex_digit (b % 16)) (hex bs))

-- `HashAPIKey`
unfoldable pub hash_api_key : (List ℕ → List ℕ) → String → String
unfolding hex
hash_api_key sha256 key = hex (sha256 (bytes key))

-- `GenerateAPIKey`: the key and its hash, of 32 random bytes where they can be read.
unfoldable pub generate_api_key : (List ℕ → List ℕ) → Option (List ℕ) → Option (String × String)
unfolding hash_api_key hex
generate_api_key sha256 none = none
generate_api_key sha256 (some random) =
    let key = String.◌++◌ "fn_" (hex random) in some (key, hash_api_key sha256 key)

-- The lengths of the columns.
unfoldable pub fits : KeyRow → Bool
fits k =
    not (ltb 36 (count k.key_id))
    && not (ltb 64 (count k.key_name))
    && not (ltb 64 (count k.key_hash))
    && not (ltb 36 (count k.key_owner))
    && not (ltb 32 (count k.key_role))

-- A row that the primary key or the unique hash keeps out.
unfoldable pub collides : KeyRow → List KeyRow → Bool
collides k [] = false
collides k (j ∷ rows) =
    let more = collides k rows in j.key_id == k.key_id || j.key_hash == k.key_hash || more

-- `PostgresStore.CreateAPIKey`: `none` is an error.
unfoldable pub insert_row : Bool → KeyRow → List KeyRow → Option (List KeyRow)
unfolding fits collides
insert_row up k rows = if up && fits k && not (collides k rows) then some (rows ++ k ∷ []) else none

unfoldable pub is_alive : ℕ → Option ℕ → Bool
is_alive now none = true
is_alive now (some end) = ltb now end

-- `GetAPIKeyByHash`: the id, the user and the role.
unfoldable pub get_api_key_by_hash : ℕ → String → List KeyRow → Option (String × String × String)
unfolding is_alive
get_api_key_by_hash now h [] = none
get_api_key_by_hash now h (k ∷ rows) =
    let rest = get_api_key_by_hash now h rows in
    if k.key_hash == h && is_alive now k.key_end
    then some (k.key_id, k.key_owner, k.key_role)
    else rest

-- `DeleteAPIKey`
unfoldable pub delete_by_id : String → List KeyRow → List KeyRow
delete_by_id id [] = []
delete_by_id id (k ∷ rows) =
    let rest = delete_by_id id rows in if k.key_id == id then rest else k ∷ rest

-- `DeleteAPIKeyByUser`: the rows that are left, and whether one was deleted.
unfoldable pub delete_by_user : String → String → List KeyRow → List KeyRow × Bool
delete_by_user id user [] = ([], false)
delete_by_user id user (k ∷ rows) =
    let rest = delete_by_user id user rows in
    if k.key_id == id && k.key_owner == user then (rest.0, true) else (k ∷ rest.0, rest.1)

unfoldable pub created_answer :
    String → String → Option (List KeyRow) → List KeyRow → Answer (String × String) × List KeyRow
created_answer id key none rows = (refused 500 "failed to create key", rows)
created_answer id key (some rows') rows = (done 201 (id, key), rows')

-- A new key has no end.
unfoldable pub new_key : UserContext → String → String → String → KeyRow
new_key u name id h = record {
  key_id = id;
  key_name = name;
  key_hash = h;
  key_owner = u.user_id;
  key_role = u.user_role;
  key_end = none;
}

-- The key is stored by its hash, for the user who asks.
unfoldable pub store_key :
    Bool
    → UserContext
    → String
    → String
    → Option (String × String)
    → List KeyRow
    → Answer (String × String) × List KeyRow
unfolding created_answer insert_row new_key
store_key up u name id none rows = (refused 500 "failed to generate key", rows)
store_key up u name id (some (key, h)) rows =
    created_answer id key (insert_row up (new_key u name id h) rows) rows

-- The handler `CreateAPIKey`, of the name in the body as it is decoded. The answer is the id and the
-- key; the name that it repeats is left out.
unfoldable pub create_api_key :
    (List ℕ → List ℕ)
    → Bool
    → Option UserContext
    → Option String
    → Option (List ℕ)
    → String
    → List KeyRow
    → Answer (String × String) × List KeyRow
unfolding store_key generate_api_key
create_api_key sha256 up none body random id rows = (refused 401 "unauthorized", rows)
create_api_key sha256 up (some u) none random id rows = (refused 400 "invalid request", rows)
create_api_key sha256 up (some u) (some name) random id rows =
    if name == ""
    then (refused 400 "name is required", rows)
    else store_key up u name id (generate_api_key sha256 random) rows

unfoldable pub deleted_answer : List KeyRow × Bool → Answer Unit × List KeyRow
deleted_answer (rows, true) = (done 204 tt, rows)
deleted_answer (rows, false) = (refused 404 "api key not found", rows)

-- The handler `DeleteAPIKey`
unfoldable pub delete_api_key :
    Bool → Option UserContext → String → List KeyRow → Answer Unit × List KeyRow
unfolding deleted_answer delete_by_user
delete_api_key up none id rows = (refused 401 "unauthorized", rows)
delete_api_key up (some u) id rows =
    if id == ""
    then (refused 400 "id is required", rows)
    else if up
    then deleted_answer (delete_by_user id u.user_id rows)
    else (refused 500 "failed to delete key", rows)
