-- ===== src/Scheduler/Tests.antt =====
-- Runs of the ring and the router on small inputs, and the theorems at inputs that meet their hypotheses.
mod Calls
mod Timed
use function.Scheduler.Sessions.{Redis, StateConfig, SessionRouter, join_key, route_session}
use function.Scheduler.Sessions.Affinity.{IsRouted, route_session-IsRouted}
use function.Prelude.{
  String, delete, Map, set, ℕ, ◌+◌, ◌≤◌, ◌<◌, ◌≡◌, refl, ◌↔◌, ◌⊎◌, true, false, none, some, List,
  [], ◌∷◌, arith, leb, if◌then◌else◌, length, lookup, ◌==◌,
}
use Prim.Native.String
use function.Prelude.Int.{pos, eqb_ℤ}
use function.Prelude.Text.{decimal}
use function.Scheduler.Ring.{ConsistentHash, new_consistent_hash, hash, add, get, read, sort}
use function.Scheduler.Ring.Owner.{mem, IsOwner, IsSorted}
use function.Scheduler.Ring.Moves.{get-IsOwner, get-add, add-IsSorted}
use function.Scheduler.Ring.Removal.{Distinct, twice}
use function.Scheduler.Router.{
  VersionWeight, FunctionAlias, CachedAlias, Cache, weighted_select, validate_routing_config,
  get_alias, cache_key, invalidate_function_cache, has_prefix,
}
use function.Scheduler.Router.Weights.{
  weighted_select-share, IsRouting, count_range, weight_of, validate_routing_config_iff,
}
use function.Scheduler.Router.Cache.{IsStale, get_alias-invalidate_function_cache}

hash_foobar : hash "foobar" ≡ 0xbf9cf968
unfolding hash
hash_foobar = refl

-- A ring with one virtual node for each of two VMs.
abbrev empty_ring : ConsistentHash
empty_ring = new_consistent_hash 1

abbrev one_vm : ConsistentHash
one_vm = add "vm1" empty_ring

abbrev two_vms : ConsistentHash
two_vms = add "vm2" one_vm

empty-IsSorted : IsSorted empty_ring.ring
unfolding new_consistent_hash
empty-IsSorted = tt

two_vms-IsSorted : IsSorted two_vms.ring
two_vms-IsSorted = add-IsSorted "vm2" one_vm

two_vms-Distinct : Distinct two_vms.ring
unfolding add new_consistent_hash hash decimal mem sort
two_vms-Distinct = (refl, (refl, tt))

two_vms_size : 0 < length two_vms.ring
unfolding add new_consistent_hash hash decimal sort
two_vms_size = omega arith

get-IsOwner_example :
    (y : ℕ) × IsOwner (hash "session") two_vms.ring y
    × (get "session" two_vms ≡ read (two_vms.nodes y))
get-IsOwner_example = get-IsOwner "session" two_vms two_vms-IsSorted two_vms_size

get-add_example : (get "session" two_vms ≡ "vm2") ⊎ (get "session" two_vms ≡ get "session" one_vm)
get-add_example = get-add "session" "vm2" one_vm (add-IsSorted "vm1" empty_ring)

session_owner : (get "session" two_vms == "vm2" ≡ false) × (get "session" two_vms ≡ "vm1")
unfolding get add new_consistent_hash hash decimal sort
session_owner = (refl, refl)

abbrev vm1_twice : ConsistentHash
vm1_twice = add "vm1" one_vm

abbrev vm1_hash : ℕ
vm1_hash = hash "vm1:0"

vm1_twice_facts :
    (read (vm1_twice.nodes vm1_hash) == "vm1" ≡ true) × (twice vm1_hash vm1_twice.ring ≡ true)
unfolding add new_consistent_hash hash decimal sort twice mem
vm1_twice_facts = (refl, refl)

at_least_mono : (k l : ℕ) → k ≤ l → l < 5 → leb 3 k ≡ true → leb 3 l ≡ true
at_least_mono k l h b e = ground arith

abbrev canary : List VersionWeight
canary =
    record { version = pos 2; weight = pos 10 } ∷ record { version = pos 1; weight = pos 90 } ∷ []

canary-IsRouting : IsRouting canary
canary-IsRouting =
    ((λ e. cc), (refl, omega arith, omega arith, (refl, omega arith, omega arith, tt)), refl)

weighted_select-share_example :
    count_range (λ r. eqb_ℤ (weighted_select r canary) (pos 2)) 0 100 ≡ weight_of (pos 2) canary
weighted_select-share_example = weighted_select-share canary (pos 2) canary-IsRouting

validate_routing_config_iff_example : (validate_routing_config canary ≡ none) ↔ IsRouting canary
validate_routing_config_iff_example = validate_routing_config_iff canary

abbrev prod : FunctionAlias
prod = record { id = "a1"; function_id = "f"; name = "prod"; weights = canary }

prod_missing : IsStale (lookup {V = CachedAlias} (cache_key "f" "prod") []) 7
unfolding lookup
prod_missing = tt

abbrev filled_cache : Cache
filled_cache = (get_alias "f" "prod" (some prod) 7 []).1

get_alias-invalidate_function_cache_example :
    ((get_alias "f" "prod" none 8 (invalidate_function_cache "f" filled_cache)).0 ≡ none)
    × (lookup "g:prod" (invalidate_function_cache "f" filled_cache) ≡ (
        if has_prefix "g:prod" (String.◌++◌ "f" ":") then none else lookup "g:prod" filled_cache))
get_alias-invalidate_function_cache_example =
    get_alias-invalidate_function_cache "f" "prod" none 8 filled_cache "g:prod" (λ e. cc)

-- A Redis that only keeps the VM of each session.
abbrev sessions_only : Redis (Map String)
sessions_only = record {
  hget = λ m key name. lookup key m;
  touch = λ key m. m;
  del = λ key m. delete key m;
  bind = λ key vm f ttl m. (true, set key vm m);
  sadd = λ key member m. m;
  srem = λ key member m. m;
  smembers = λ m key. [];
  expire = λ key ttl m. m;
}

abbrev affine : StateConfig
affine = record { session_affinity = true; session_timeout = pos 60 }

abbrev session_router : SessionRouter (Map String)
session_router = record {
  redis_state = [];
  hash_ring = two_vms;
  session_cache = ("f:s", record { vm_id = "vm1"; expires_at = 50 }) ∷ [];
}

route_session-IsRouted_example :
    IsRouted sessions_only
      (λ vm. true)
      90
      (join_key "f" "s")
      (route_session sessions_only (some affine) (λ vm. true) 90 "f" "s" session_router)
route_session-IsRouted_example =
    route_session-IsRouted sessions_only (some affine) (λ vm. true) 90 "f" "s" session_router

session_found :
    ((route_session sessions_only (some affine) (λ vm. true) 20 "f" "s" session_router).0 == ""
      ≡ false)
    × (lookup
          (join_key "f" "s")
          (route_session sessions_only
            (some affine)
            (λ vm. true)
            20
            "f"
            "s"
            session_router).1.session_cache
        ≡ some (record { vm_id = "vm1"; expires_at = 50 }))
    × ((route_session sessions_only (some affine) (λ vm. true) 20 "f" "s" session_router).0 == "vm1"
        ≡ true)
unfolding lookup route_session
session_found = (refl, refl, refl)
