-- ===== src/Scheduler/Router.antt =====
-- The choice of the version that serves an invocation (internal/scheduler/router.go, and
-- `resolveVersion` of internal/scheduler/scheduler.go). Times are nanoseconds. The lock of the cache
-- is held for each read and each write, so an operation is a function of the cache.
pub mod Weights
pub mod Cache
use function.Prelude.{
  ℕ, ◌+◌, ◌*◌, String, Bool, not, ◌&&◌, ◌||◌, Option, none, some, List, [], ◌∷◌, ◌++◌, ltb,
  if◌then◌else◌, Map, lookup, set, delete, ◌==◌,
}
use Prim.Native.String
use Prim.Native.String.{len}
use text.Mathlib.Text.{starts_with}
use function.Prelude.Int.{ℤ, pos, ◌+ℤ◌, ltb_ℤ}

pub record VersionWeight : Type 0 where
  pub version : ℤ
  pub weight : ℤ

pub record FunctionAlias : Type 0 where
  pub id : String
  pub function_id : String
  pub name : String
  pub weights : List VersionWeight

pub data Error : Type 0 where
  invalid_weights invalid_version not_found : Error

-- The loop of `weightedSelect`.
unfoldable pub select_from : ℕ → ℤ → List VersionWeight → Option ℤ
select_from random cumulative [] = none
select_from random cumulative (w ∷ ws) =
    let total = cumulative +ℤ w.weight in
    if ltb_ℤ (pos random) total then some w.version else select_from random total ws

abbrev or_first : Option ℤ → ℤ → ℤ
or_first none v = v
or_first (some x) v = x

-- `weightedSelect`; `random` is the draw of `rng.Intn(100)`.
unfoldable pub weighted_select : ℕ → List VersionWeight → ℤ
unfolding select_from
weighted_select random [] = pos 0
weighted_select random (w ∷ []) = w.version
weighted_select random (w ∷ ws) = or_first (select_from random (pos 0) (w ∷ ws)) w.version

check_from : ℤ → List VersionWeight → Option Error
check_from total [] =
    if ltb_ℤ total (pos 100) || ltb_ℤ (pos 100) total then some invalid_weights else none
check_from total (w ∷ ws) =
    let rest = check_from (total +ℤ w.weight) ws in
    if ltb_ℤ w.weight (pos 0) || ltb_ℤ (pos 100) w.weight
    then some invalid_weights
    else if ltb_ℤ w.version (pos 1)
    then some invalid_version
    else rest

-- `ValidateRoutingConfig`; `none` is the nil error.
unfoldable pub validate_routing_config : List VersionWeight → Option Error
unfolding check_from
validate_routing_config [] = some invalid_weights
validate_routing_config (w ∷ ws) = check_from (pos 0) (w ∷ ws)

pub record CachedAlias : Type 0 where
  pub alias : FunctionAlias
  pub expires_at : ℕ

abbrev pub Cache : Type 0
Cache = Map CachedAlias

abbrev pub cache_ttl : ℕ
cache_ttl = 30 * 1000000000

unfoldable pub cache_key : String → String → String
cache_key function_id alias_name = String.◌++◌ function_id (String.◌++◌ ":" alias_name)

-- `getAlias` after a miss: `found` is what the database holds.
load : String → Option FunctionAlias → ℕ → Cache → Option FunctionAlias × Cache
load key none now cache = (none, cache)
load key (some a) now cache =
    (some a, set key (record { alias = a; expires_at = now + cache_ttl }) cache)

get_cached :
    Option CachedAlias → String → Option FunctionAlias → ℕ → Cache → Option FunctionAlias × Cache
unfolding load
get_cached none key found now cache = load key found now cache
get_cached (some c) key found now cache =
    if ltb now c.expires_at then (some c.alias, cache) else load key found now cache

-- `getAlias`
unfoldable pub get_alias :
    String → String → Option FunctionAlias → ℕ → Cache → Option FunctionAlias × Cache
unfolding get_cached cache_key
get_alias function_id alias_name found now cache =
    let key = cache_key function_id alias_name in get_cached (lookup key cache) key found now cache

abbrev select_of : ℕ → Option FunctionAlias → Option ℤ
select_of random none = none
select_of random (some a) = some (weighted_select random a.weights)

-- `SelectVersion`
unfoldable pub select_version :
    ℕ → String → String → Option FunctionAlias → ℕ → Cache → Option ℤ × Cache
unfolding get_alias weighted_select
select_version random function_id alias_name found now cache =
    let (a, cache') = get_alias function_id alias_name found now cache in
    (select_of random a, cache')

-- `InvalidateCache`
unfoldable pub invalidate_cache : String → String → Cache → Cache
unfolding cache_key
invalidate_cache function_id alias_name cache = delete (cache_key function_id alias_name) cache

-- `InvalidateFunctionCache`
unfoldable pub has_prefix : String → String → Bool
has_prefix key prefix = ltb (len prefix) (len key) && starts_with key prefix

unfoldable pub drop_prefix : String → Cache → Cache
drop_prefix prefix [] = []
drop_prefix prefix ((k, c) ∷ cache) =
    let rest = drop_prefix prefix cache in if has_prefix k prefix then rest else (k, c) ∷ rest

unfoldable pub invalidate_function_cache : String → Cache → Cache
unfolding drop_prefix
invalidate_function_cache function_id cache = drop_prefix (String.◌++◌ function_id ":") cache

-- `ClearCache`
unfoldable pub clear_cache : Cache → Cache
clear_cache cache = []

-- What `resolveVersion` returns: the version, the alias that was used, and the version's code, or
-- the function's own code.
pub data Resolved : Type 0 where
  pinned : ℤ → Resolved
  by_alias : ℤ → String → Resolved
  current : ℤ → Resolved
  no_version : ℤ → Resolved

resolve_alias : Option ℤ → ℤ → String → (ℤ → Bool) → Resolved
resolve_alias none current_version alias_name stored = current current_version
resolve_alias (some v) current_version alias_name stored =
    if stored v then by_alias v alias_name else no_version v

-- `resolveVersion` with the result of `SelectVersion`; `stored` says which versions the database has.
unfoldable pub resolve_version : ℤ → String → Option ℤ → ℤ → (ℤ → Bool) → Resolved
unfolding resolve_alias
resolve_version version alias selected current_version stored =
    let name = if alias == "" then "latest" else alias in
    if ltb_ℤ (pos 0) version
    then (if stored version then pinned version else no_version version)
    else resolve_alias selected current_version name stored

-- The check of `CreateFunctionAlias` and `UpdateFunctionAlias` in internal/api/handler.go.
sum_from : ℤ → List VersionWeight → ℤ
sum_from total [] = total
sum_from total (w ∷ ws) = sum_from (total +ℤ w.weight) ws

unfoldable pub handler_accepts : List VersionWeight → Bool
unfolding sum_from
handler_accepts ws =
    not (ltb_ℤ (sum_from (pos 0) ws) (pos 100) || ltb_ℤ (pos 100) (sum_from (pos 0) ws))
