-- ===== src/Scheduler/Router/Cache.antt =====
-- How long the router serves an alias from its cache, and what an invalidation forgets
-- (internal/scheduler/router.go).
use function.Prelude.{
  ℕ, ◌+◌, ◌≤◌, ◌<◌, String, ◌≡◌, ◌≢◌, refl, sym, ◌∙◌, true, Option, none, some, [], ◌∷◌, arith, ltb,
  if◌then◌else◌, lookup, eq_iff, eq_refl, lookup-set,
}
use mathlib.Core.Path.{subst}
use text.Mathlib.TextBridge.{IsPrefix}
use Prim.Native.String
use Prim.Native.String.{len}
use Prim.Native.String.len
use text.Mathlib.Text.{starts_with}
use text.Mathlib.TextEquality.{starts_with_iff}
use text.Mathlib.TextPositions.{len-append, len_utf8-pos}
use text.Mathlib.TextLemmas.{prefix-append, append_assoc}
use function.Scheduler.Router.{
  FunctionAlias, CachedAlias, Cache, cache_ttl, cache_key, load, get_cached, get_alias, has_prefix,
  drop_prefix, invalidate_function_cache,
}

-- A lookup goes to the database: there is no entry, or it has expired.
abbrev pub IsStale : Option CachedAlias → ℕ → Type 0
IsStale none t = Unit
IsStale (some c) t = c.expires_at ≤ t

load_found :
    (key : String) (found : Option FunctionAlias) (now : ℕ) (cache : Cache)
    → (load key found now cache).0 ≡ found
unfolding load
load_found key none now cache = refl
load_found key (some a) now cache = refl

get_cached_stale :
    (o : Option CachedAlias) (key : String) (found : Option FunctionAlias) (now : ℕ) (cache : Cache)
    → IsStale o now
    → get_cached o key found now cache ≡ load key found now cache
unfolding get_cached
get_cached_stale none key found now cache h = refl
get_cached_stale (some c) key found now cache h = ground arith

filled_at :
    (key : String) (a : FunctionAlias) (t : ℕ) (cache : Cache)
    → lookup key (load key (some a) t cache).1
      ≡ some (record { alias = a; expires_at = t + cache_ttl })
unfolding load
filled_at key a t cache = rw (lookup-set, eq_refl)

served :
    (key : String) (a : FunctionAlias) (t later : ℕ) (found : Option FunctionAlias) (cache : Cache)
    → lookup key cache ≡ some (record { alias = a; expires_at = t + cache_ttl })
    → (get_cached (lookup key cache) key found later cache).0
      ≡ (if ltb later (t + cache_ttl) then some a else found)
unfolding get_cached
served key a t later found cache e = rw e (ground (arith, load_found key found later cache))

-- A lookup that goes to the database at time `t` and finds an alias: every later lookup before
-- `t + 30 s` returns that alias, and one at or after it returns what the database then holds.
pub get_alias_window :
    (function_id alias_name : String) (a : FunctionAlias) (t later : ℕ)
    (found : Option FunctionAlias) (cache : Cache)
    → IsStale (lookup (cache_key function_id alias_name) cache) t
    → let (r, filled) = get_alias function_id alias_name (some a) t cache in
      (r ≡ some a)
      × ((get_alias function_id alias_name found later filled).0
          ≡ (if ltb later (t + cache_ttl) then some a else found))
unfolding get_alias cache_key
get_alias_window f n a t later found cache h =
    let key : String = cache_key f n in
    let s = served key a t later found (load key (some a) t cache).1 (filled_at key a t cache) in
    rw (get_cached_stale (lookup key cache) key (some a) t cache h)
      (load_found key (some a) t cache, s)

lookup-drop_prefix :
    (prefix k : String) (cache : Cache)
    → lookup k (drop_prefix prefix cache) ≡ (if has_prefix k prefix then none else lookup k cache)
unfolding drop_prefix lookup
lookup-drop_prefix prefix k [] = ground arith
lookup-drop_prefix prefix k ((j, c) ∷ cache) =
    ground (arith, eq_iff j k, lookup-drop_prefix prefix k cache)

len-pos : (n : String) → n ≢ "" → 0 < len n
len-pos String.[] ne = absurd (ne refl)
len-pos (String.◌∷◌ c s) ne = omega (arith, len.cons c s, (len_utf8-pos c).1)

starts_with_key :
    (f n : String) → starts_with (String.◌++◌ f (String.◌++◌ ":" n)) (String.◌++◌ f ":") ≡ true
starts_with_key f n = (starts_with_iff _ _).1 (
    subst (IsPrefix (String.◌++◌ f ":")) (append_assoc f ":" n)
      (prefix-append (String.◌++◌ f ":") n))

key_prefix : (f n : String) → n ≢ "" → has_prefix (cache_key f n) (String.◌++◌ f ":") ≡ true
unfolding has_prefix cache_key
key_prefix f n ne = rw starts_with_key (
    ground
      (arith, len-append f ":", len-append f (String.◌++◌ ":" n), len-append ":" n, len-pos n ne))

dropped :
    (f n : String) (cache : Cache)
    → n ≢ ""
    → lookup (cache_key f n) (drop_prefix (String.◌++◌ f ":") cache) ≡ none
dropped f n cache ne =
    lookup-drop_prefix (String.◌++◌ f ":") (cache_key f n) cache ∙ rw (key_prefix f n ne)

-- After `InvalidateFunctionCache` the next lookup of any named alias of the function returns what
-- the database holds; the cache has the keys without the prefix of the function as before, and no other.
pub get_alias-invalidate_function_cache :
    (function_id alias_name : String) (found : Option FunctionAlias) (now : ℕ) (cache : Cache)
    (key : String)
    → alias_name ≢ ""
    → ((get_alias function_id alias_name found now (invalidate_function_cache function_id cache)).0
        ≡ found)
      × (lookup key (invalidate_function_cache function_id cache)
          ≡ (if has_prefix key (String.◌++◌ function_id ":") then none else lookup key cache))
unfolding get_alias invalidate_function_cache
get_alias-invalidate_function_cache f n found now cache key ne = (
  subst
      (λ o.
        (get_cached o (cache_key f n) found now (drop_prefix (String.◌++◌ f ":") cache)).0 ≡ found)
      (sym (dropped f n cache ne))
      (unfold get_cached in
        load_found (cache_key f n) found now (drop_prefix (String.◌++◌ f ":") cache)),
  lookup-drop_prefix (String.◌++◌ f ":") key cache,
)
