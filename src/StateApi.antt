-- ===== src/StateApi.antt =====
-- The state of functions over Redis (internal/state/handler.go). Redis and gzip are records of what they
-- do, with the laws that the code relies on; values are bytes, and JSON texts are made by parameters.
pub mod Sessions
pub mod Stored
pub mod Versions
mod Tests
use function.Prelude.{
  ℕ, ◌+◌, ◌-◌, ◌^◌, String, ◌≡◌, Bool, true, false, not, ◌&&◌, ◌||◌, Option, none, some, List, [],
  ◌∷◌, ◌++◌, ltb, leb, eqb, if◌then◌else◌, length, drop, ◌==◌,
}
use Prim.Native.String
use function.Prelude.Int.{ℤ, pos, negsuc, ltb_ℤ, eqb_ℤ, ◌+ℤ◌}
use function.Prelude.Text.{bytes}

-- Lua's numbers are doubles, which have every integer below 2^53.
abbrev pub is_exact : ℤ → Bool
is_exact n = ltb_ℤ (negsuc (2 ^ 53)) n && ltb_ℤ n (pos (2 ^ 53))

-- The commands of Redis, and Lua's `tonumber`, the text of a number and the number plus one. The laws hold at one instant, at
-- which nothing expires.
pub record Redis (S : Type 0) : Type 0 where
  pub get : S → String → Option (List ℕ)
  pub set_value : S → String → List ℕ → S
  pub expire : S → String → ℤ → S
  pub del : S → String → S
  pub incr_by : S → String → ℤ → S × Option ℤ
  pub keys : S → String → List String
  pub str_len : S → String → ℤ
  pub ttl : S → String → ℤ
  pub tonumber : List ℕ → Option ℤ
  pub number_text : ℤ → List ℕ
  pub next_number : ℤ → ℤ
  pub get-set_value :
      (s : S) (k j : String) (v : List ℕ)
      → get (set_value s k v) j ≡ (if k == j then some v else get s j)
  pub get-del : (s : S) (k j : String) → get (del s k) j ≡ (if k == j then none else get s j)
  pub get-expire :
      (s : S) (k j : String) (t : ℤ) → ltb_ℤ (pos 0) t ≡ true → get (expire s k t) j ≡ get s j
  pub tonumber-number_text : (n : ℤ) → is_exact n ≡ true → tonumber (number_text n) ≡ some n
  pub next_number_lem : (n : ℤ) → is_exact (n +ℤ pos 1) ≡ true → next_number n ≡ n +ℤ pos 1

abbrev pub has_magic : List ℕ → Bool
has_magic (a ∷ b ∷ rest) = eqb a 31 && eqb b 139
has_magic _ = false

-- gzip: what is packed starts with the magic number and is unpacked as it was.
pub record Gzip : Type 0 where
  pub pack : List ℕ → Option (List ℕ)
  pub unpack : List ℕ → Option (List ℕ)
  pub unpack-pack : (v z : List ℕ) → pack v ≡ some z → unpack z ≡ some v
  pub pack_magic : (v z : List ℕ) → pack v ≡ some z → has_magic z ≡ true

-- `domain.StateConfig`
pub record StateConfig : Type 0 where
  pub default_ttl : ℤ
  pub max_state_size : ℕ

pub record StateRequest : Type 0 where
  pub function_id : String
  pub session_key : String
  pub invocation_id : String
  pub operation : String
  pub scope : String
  pub key : String
  pub value : List ℕ
  pub request_ttl : ℤ
  pub delta : ℤ
  pub request_version : ℤ

pub record StateResult : Type 0 where
  pub ok : Bool
  pub result_value : Option (List ℕ)
  pub result_version : ℤ
  pub result_error : String

-- How an operation ends; a conversion of what the script returns may panic.
pub data Handled : Type 0 where
  answered : StateResult → Handled
  panicked : Handled

abbrev pub compression_threshold : ℕ
compression_threshold = 1024

-- `compress`
unfoldable pub compress : Gzip → Bool → List ℕ → List ℕ
compress gzip enabled v =
    if not enabled || ltb (length v) compression_threshold
    then v
    else (elim (gzip.pack v) [ none ↦ v | some z ↦ if ltb (length z) (length v) then z else v ])

-- `decompress`
unfoldable pub decompress : Gzip → List ℕ → List ℕ
decompress gzip v = if has_magic v then (elim (gzip.unpack v) [ none ↦ v | some w ↦ w ]) else v

-- The part of a key that the scope gives.
unfoldable pub scope_key : StateRequest → String
scope_key req =
    if req.scope == "function"
    then "_global"
    else if req.scope == "invocation"
    then req.invocation_id
    else if req.session_key == ""
    then "_default"
    else req.session_key

unfoldable pub key_of : String → String → String → String
key_of function_id scope key =
    String.◌++◌ "state:"
      (String.◌++◌ function_id (String.◌++◌ ":" (String.◌++◌ scope (String.◌++◌ ":" key))))

-- `buildKey`
unfoldable pub build_key : StateRequest → String
unfolding key_of scope_key
build_key req = key_of req.function_id (scope_key req) req.key

unfoldable pub version_key : String → String
version_key key = String.◌++◌ key ":version"

unfoldable pub failed : String → StateResult
failed e = record { ok = false; result_value = none; result_version = pos 0; result_error = e }

unfoldable pub succeeded : Option (List ℕ) → ℤ → StateResult
succeeded v n = record { ok = true; result_value = v; result_version = n; result_error = "" }

abbrev pub eq_bytes : List ℕ → List ℕ → Bool
eq_bytes [] [] = true
eq_bytes (x ∷ xs) (y ∷ ys) = eqb x y && eq_bytes xs ys
eq_bytes _ _ = false

-- `strings.HasSuffix(k, ":version")`
unfoldable pub is_version_key : List ℕ → Bool
unfolding bytes
is_version_key k =
    let suffix = bytes ":version" in
    leb (length suffix) (length k) && eq_bytes (drop (length k - length suffix) k) suffix

-- What the script returns: the new version, a conflict with the version that is there, or what cannot be
-- a number: an error, or an array that is too short.
pub data Scripted : Type 0 where
  stored conflict : ℤ → Scripted
  not_a_number too_short : Scripted

-- Whether Redis answers, gzip, and the encoding of JSON.
pub record Env : Type 0 where
  pub down : Bool
  pub gzip : Gzip
  pub config : StateConfig
  pub compresses : Bool
  pub encode_number : ℤ → List ℕ
  pub encode_bool : Bool → List ℕ
  pub encode_keys : List (List ℕ) → List ℕ

module _ {S : Type 0} (redis : Redis S) where
  -- `redis.call('GET', KEYS[2]) or '0'` as a number.
  unfoldable pub version_in : S → String → Option ℤ
  version_in s key = elim (redis.get s (version_key key)) [
    | none ↦ some (pos 0)
    | some v ↦ redis.tonumber v
  ]

  unfoldable pub expire_both : ℤ → String → S → S
  expire_both t key s =
      if ltb_ℤ (pos 0) t then redis.expire (redis.expire s key t) (version_key key) t else s

  unfoldable pub store_version : String → List ℕ → ℤ → ℤ → S → S × Scripted
  unfolding expire_both
  store_version key body t new s = (
    expire_both t key
        (redis.set_value (redis.set_value s key body) (version_key key) (redis.number_text new)),
    stored new,
  )

  -- The script of `handleSetWithVersion`, from the current version on.
  unfoldable pub run_script : String → List ℕ → ℤ → ℤ → Option ℤ → S → S × Scripted
  unfolding store_version
  run_script key body expected t none s =
      if ltb_ℤ (pos 0) expected then (s, too_short) else (s, not_a_number)
  run_script key body expected t (some current) s =
      if ltb_ℤ (pos 0) expected && not (eqb_ℤ current expected)
      then (s, conflict current)
      else store_version key body t (redis.next_number current) s

  unfoldable pub version_result : S × Scripted → S × Handled
  unfolding succeeded failed
  version_result (s, stored n) = (s, answered (succeeded none n))
  version_result (s, conflict n) =
      (s, answered (record (failed "version conflict") { result_version = n }))
  version_result (s, not_a_number) =
      (s, answered (failed "ERR attempt to perform arithmetic on a nil value"))
  version_result (s, too_short) = (s, panicked)

  module _ (env : Env) where
    -- An operation that asks Redis.
    unfoldable pub ask : S × Handled → S → S × Handled
    unfolding failed
    ask out s = if env.down then (s, answered (failed "redis: connection refused")) else out

    unfoldable pub unpacked : Option (List ℕ) → Option (List ℕ)
    unfolding decompress
    unpacked none = none
    unpacked (some v) = some (decompress env.gzip v)

    -- `handleGet`
    unfoldable pub handle_get : String → S → S × Handled
    unfolding unpacked succeeded ask
    handle_get key s = ask (s, answered (succeeded (unpacked (redis.get s key)) (pos 0))) s

    unfoldable pub number_in : Option (List ℕ) → ℤ
    number_in none = pos 0
    number_in (some v) = elim (redis.tonumber v) [ none ↦ pos 0 | some n ↦ n ]

    unfoldable pub versioned : String → S → Option (List ℕ) → S × Handled
    unfolding decompress succeeded number_in
    versioned key s none = (s, answered (succeeded none (pos 0)))
    versioned key s (some v) = (
      s,
      answered
          (succeeded (some (decompress env.gzip v)) (number_in (redis.get s (version_key key)))),
    )

    -- `handleGetWithVersion`
    unfoldable pub handle_get_with_version : String → S → S × Handled
    unfolding versioned ask
    handle_get_with_version key s = ask (versioned key s (redis.get s key)) s

    unfoldable pub ttl_of : ℤ → ℤ
    ttl_of t =
        if ltb_ℤ (pos 0) t
        then t
        else if ltb_ℤ (pos 0) env.config.default_ttl
        then env.config.default_ttl
        else pos 0

    unfoldable pub set_for : String → List ℕ → ℤ → S → S
    set_for key body t s =
        if ltb_ℤ (pos 0) t
        then redis.expire (redis.set_value s key body) key t
        else redis.set_value s key body

    -- `handleSet`
    unfoldable pub handle_set : String → StateRequest → S → S × Handled
    unfolding compress ttl_of set_for succeeded failed ask
    handle_set key req s =
        if ltb 0 env.config.max_state_size && ltb env.config.max_state_size (length req.value)
        then (s, answered (failed "value too large"))
        else ask
            (
              set_for key (compress env.gzip env.compresses req.value) (ttl_of req.request_ttl) s,
              answered (succeeded none (pos 0)),
            )
            s

    -- `handleSetWithVersion`
    unfoldable pub handle_set_with_version : String → StateRequest → S → S × Handled
    unfolding compress version_in run_script version_result ask
    handle_set_with_version key req s =
        ask
          (version_result (
            run_script key (compress env.gzip env.compresses req.value) req.request_version
              req.request_ttl (version_in s key) s))
          s

    -- `handleDelete`
    unfoldable pub handle_delete : String → S → S × Handled
    unfolding succeeded ask
    handle_delete key s =
        ask (redis.del (redis.del s key) (version_key key), answered (succeeded none (pos 0))) s

    -- `handleIncr`: zero stands for one.
    unfoldable pub handle_incr : String → ℤ → S → S × Handled
    unfolding succeeded failed ask
    handle_incr key delta s =
        let out = redis.incr_by s key (if eqb_ℤ delta (pos 0) then pos 1 else delta) in
        ask
          (
            out.0,
            answered (elim (out.1) [
              | none ↦ failed "ERR value is not an integer or out of range"
              | some n ↦ succeeded (some (env.encode_number n)) (pos 0)
            ]),
          )
          s

    unfoldable pub is_there : Option (List ℕ) → Bool
    is_there none = false
    is_there (some v) = true

    -- `handleExists`
    unfoldable pub handle_exists : String → S → S × Handled
    unfolding succeeded is_there ask
    handle_exists key s =
        ask (s, answered (succeeded (some (env.encode_bool (is_there (redis.get s key)))) (pos 0)))
          s

    unfoldable pub user_keys : ℕ → List String → List (List ℕ)
    unfolding is_version_key bytes
    user_keys n [] = []
    user_keys n (k ∷ ks) =
        let rest = user_keys n ks in
        if ltb n (length (bytes k)) && not (is_version_key (bytes k))
        then drop n (bytes k) ∷ rest
        else rest

    -- `handleKeys`
    unfoldable pub handle_keys : StateRequest → S → S × Handled
    unfolding build_key key_of scope_key user_keys succeeded ask
    handle_keys req s =
        ask
          (
            s,
            answered (
                succeeded
                  (some (
                    env.encode_keys (
                      user_keys (length (bytes (key_of req.function_id (scope_key req) "")))
                        (redis.keys s (build_key req)))))
                  (pos 0)),
          )
          s

    -- `handleExpire`
    unfoldable pub handle_expire : String → ℤ → S → S × Handled
    unfolding succeeded failed ask
    handle_expire key t s =
        if ltb_ℤ (pos 0) t
        then ask (redis.expire s key t, answered (succeeded none (pos 0))) s
        else (s, answered (failed "invalid TTL"))

    -- `Handle`
    unfoldable pub handle : StateRequest → S → S × Handled
    unfolding build_key bytes failed handle_get handle_get_with_version handle_set
        handle_set_with_version handle_delete handle_incr handle_exists handle_keys handle_expire
    handle req s =
        let key = build_key req in
        if ltb 256 (length (bytes key))
        then (s, answered (failed "key too long"))
        else if req.operation == "get"
        then handle_get key s
        else if req.operation == "get_with_version"
        then handle_get_with_version key s
        else if req.operation == "set"
        then handle_set key req s
        else if req.operation == "set_with_version"
        then handle_set_with_version key req s
        else if req.operation == "delete"
        then handle_delete key s
        else if req.operation == "incr"
        then handle_incr key req.delta s
        else if req.operation == "exists"
        then handle_exists key s
        else if req.operation == "keys"
        then handle_keys req s
        else if req.operation == "expire"
        then handle_expire key req.request_ttl s
        else (s, answered (failed (String.◌++◌ "unknown operation: " req.operation)))
