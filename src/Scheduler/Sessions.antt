-- ===== src/Scheduler/Sessions.antt =====
-- The affinity of sessions to VMs (internal/scheduler/session_router.go). Redis is a record of
-- operations on its state `R`; the locks are held for each read and write of the cache and the ring.
pub mod Affinity
use function.Prelude.{
  ℕ, ◌+◌, String, Bool, true, false, not, ◌&&◌, ◌||◌, Option, none, some, List, [], ◌∷◌, ◌++◌, ltb,
  if◌then◌else◌, Map, lookup, set, delete, ◌==◌,
}
use Prim.Native.String
use function.Prelude.Int.{ℤ, pos, eqb_ℤ}
use function.Scheduler.Ring.{ConsistentHash, new_consistent_hash, get, remove, update_hash_ring}

-- The commands of Redis that the router uses. `hget` has no value for a missing field and on an
-- error. `bind` is the pipeline of HSET and EXPIRE, and says whether `Exec` succeeded.
pub record Redis (R : Type 0) : Type 0 where
  pub hget : R → String → String → Option String
  pub touch : String → R → R
  pub del : String → R → R
  pub bind : String → String → String → ℤ → R → Bool × R
  pub sadd : String → String → R → R
  pub srem : String → String → R → R
  pub smembers : R → String → List String
  pub expire : String → ℤ → R → R

pub record StateConfig : Type 0 where
  pub session_affinity : Bool
  pub session_timeout : ℤ

pub record SessionEntry : Type 0 where
  pub vm_id : String
  pub expires_at : ℕ

pub record SessionRouter (R : Type 0) : Type 0 where
  pub redis_state : R
  pub hash_ring : ConsistentHash
  pub session_cache : Map SessionEntry

-- 30 seconds
abbrev pub session_ttl : ℕ
session_ttl = 30000000000

abbrev pub join_key : String → String → String
join_key a b = String.◌++◌ a (String.◌++◌ ":" b)

abbrev pub redis_key : String → String → String
redis_key f s = String.◌++◌ "session:" (join_key f s)

abbrev vm_key : String → String
vm_key vm = String.◌++◌ "vm_sessions:" vm

abbrev ttl_of : ℤ → ℤ
ttl_of seconds = if eqb_ℤ seconds (pos 0) then pos 3600 else seconds

module _ {R : Type 0} where
  unfoldable pub new_session_router : R → SessionRouter R
  unfolding new_consistent_hash
  new_session_router state = record {
    redis_state = state;
    hash_ring = new_consistent_hash 100;
    session_cache = [];
  }

  -- `updateCache`
  unfoldable pub update_cache : String → String → ℕ → SessionRouter R → SessionRouter R
  update_cache key vm now r = record r {
    session_cache = set key (record { vm_id = vm; expires_at = now + session_ttl }) r.session_cache;
  }

  module _ (redis : Redis R) where
    -- `bindSession`, which yields whether the pipeline succeeded; the sets of the VM follow only then.
    unfoldable pub bind_session :
        String → String → String → ℤ → SessionRouter R → Bool × SessionRouter R
    bind_session f session vm timeout r =
        let (done, state) = redis.bind (redis_key f session) vm f (ttl_of timeout) r.redis_state in
        if done
        then (
          true,
          record r {
            redis_state =
                redis.expire (vm_key vm) (ttl_of timeout)
                  (redis.sadd (vm_key vm) (join_key f session) state);
          },
        )
        else (false, record r { redis_state = state })

    -- The last part of `RouteSession`: the VM of the hash ring, if it is alive.
    unfoldable pub from_ring :
        (String → Bool) → ℕ → String → String → ℤ → SessionRouter R → String × SessionRouter R
    unfolding bind_session update_cache
    from_ring alive now f session timeout r =
        let vm = get (join_key f session) r.hash_ring in
        if not (vm == "") && alive vm
        then (vm, update_cache (join_key f session) vm now (bind_session f session vm timeout r).1)
        else ("", r)

    -- The binding that Redis holds: it is served if its VM is alive, and deleted if not.
    unfoldable pub from_redis :
        Option String
        → (String → Bool)
        → ℕ
        → String
        → String
        → ℤ
        → SessionRouter R
        → String × SessionRouter R
    unfolding from_ring update_cache
    from_redis none alive now f session timeout r = from_ring alive now f session timeout r
    from_redis (some vm) alive now f session timeout r =
        if vm == ""
        then from_ring alive now f session timeout r
        else if alive vm
        then (
          vm,
          update_cache (join_key f session) vm now
              (record r { redis_state = redis.touch (redis_key f session) r.redis_state }),
        )
        else from_ring alive now f session timeout
            (record r { redis_state = redis.del (redis_key f session) r.redis_state })

    look_up : (String → Bool) → ℕ → String → String → ℤ → SessionRouter R → String × SessionRouter R
    unfolding from_redis
    look_up alive now f session timeout r =
        from_redis (redis.hget r.redis_state (redis_key f session) "vm_id") alive now f session
          timeout r

    -- The entry of the cache is served if it has not expired and its VM is alive.
    unfoldable pub from_cache :
        Option SessionEntry
        → (String → Bool)
        → ℕ
        → String
        → String
        → ℤ
        → SessionRouter R
        → String × SessionRouter R
    unfolding look_up
    from_cache none alive now f session timeout r = look_up alive now f session timeout r
    from_cache (some e) alive now f session timeout r =
        if ltb now e.expires_at && alive e.vm_id
        then (e.vm_id, r)
        else look_up alive now f session timeout r

    with_config :
        Option StateConfig
        → (String → Bool)
        → ℕ
        → String
        → String
        → SessionRouter R
        → String × SessionRouter R
    unfolding from_cache
    with_config none alive now f session r = ("", r)
    with_config (some c) alive now f session r =
        if session == "" || not c.session_affinity
        then ("", r)
        else from_cache (lookup (join_key f session) r.session_cache) alive now f session
            c.session_timeout r

    -- `RouteSession`; the empty text asks for a new VM.
    unfoldable pub route_session :
        Option StateConfig
        → (String → Bool)
        → ℕ
        → String
        → String
        → SessionRouter R
        → String × SessionRouter R
    unfolding with_config
    route_session config alive now f session r = with_config config alive now f session r

    -- `UnbindSession`
    unfoldable pub unbind_session : String → String → SessionRouter R → SessionRouter R
    unbind_session f session r =
        let bound = redis.hget r.redis_state (redis_key f session) "vm_id" in
        let state = redis.del (redis_key f session) r.redis_state in
        record r {
          redis_state = elim bound [
            | none ↦ state
            | some vm ↦
                if vm == "" then state else redis.srem (vm_key vm) (join_key f session) state
          ];
          session_cache = delete (join_key f session) r.session_cache;
        }

    del_all : List String → R → R
    del_all [] state = state
    del_all (s ∷ ss) state = del_all ss (redis.del (String.◌++◌ "session:" s) state)

    -- `OnVMRemoved`
    unfoldable pub on_vm_removed : String → SessionRouter R → SessionRouter R
    unfolding del_all remove
    on_vm_removed vm r = record r {
      redis_state =
          redis.del (vm_key vm) (del_all (redis.smembers r.redis_state (vm_key vm)) r.redis_state);
      hash_ring = remove vm r.hash_ring;
    }

    -- `UpdateHashRing`
    unfoldable pub update_ring : List String → SessionRouter R → SessionRouter R
    unfolding update_hash_ring
    update_ring vms r = record r { hash_ring = update_hash_ring vms }
