-- ===== src/VmPool.antt =====
-- The Firecracker VM pool of one runtime (internal/vmpool/pool.go).
-- A `*PooledVM` is named by its VM id, which the machine manager draws fresh; `heap` says what it
-- points to. `all_vms` is the map of registered VMs, `warm_vms` the buffered channel, oldest first.
-- `stopped` records the calls of `machinesMgr.StopVM`. Times are nanoseconds of the monotonic clock.
pub mod Workers
pub mod Runtimes
pub mod Invariant
pub mod Calls
pub mod Queue
pub mod Steps
pub mod Outcomes
pub mod Health
pub mod Sizes
pub mod Races
mod Tests
use function.Prelude.{
  ℕ, ◌+◌, ◌-◌, String, Bool, true, false, ◌||◌, Option, none, some, List, [], ◌∷◌, ◌++◌, ltb, leb,
  if◌then◌else◌, length, Map, lookup, set, delete, ◌==◌,
}

-- `PooledVM.Status`; the code writes no other value.
pub data Status : Type 0 where
  warm busy : Status

pub record PooledVm : Type 0 where
  pub status : Status
  pub created_at : ℕ
  pub last_used : ℕ
  pub use_count : ℕ

-- The fields of `config.PoolConfig` and `config.RuntimeConfig` that the pool reads. A negative
-- `MinWarm` or `TargetWarm` acts as 0; a negative `MaxTotal` cannot be the size of a channel.
pub record PoolConfig : Type 0 where
  pub min_warm : ℕ
  pub target_warm : ℕ
  pub max_total : ℕ
  pub max_invocations : ℕ
  pub max_vm_age : ℕ

pub record RuntimePool : Type 0 where
  pub config : PoolConfig
  pub heap : String → PooledVm
  pub all_vms : Map String
  pub warm_vms : List String
  pub stopped : List String

pub data Error : Type 0 where
  unknown_runtime vm_not_found create_failed connect_failed ping_failed context_done stop_failed :
      Error

pub data Outcome {ℓ} (A : Type ℓ) : Type ℓ where
  ok : A → Outcome A
  err : Error → Outcome A
  -- the caller is blocked in a `select`
  waiting : Outcome A

unfoldable pub store : (String → PooledVm) → String → PooledVm → String → PooledVm
store heap id vm k = if id == k then vm else heap k

-- `NewPool`, for one of the configured runtimes.
unfoldable pub new_pool : PoolConfig → (String → PooledVm) → RuntimePool
new_pool cfg heap = record { config = cfg; heap = heap; all_vms = []; warm_vms = []; stopped = [] }

-- What the machine manager and the agent answer to `createVM`.
pub data Boot : Type 0 where
  no_machine : Boot
  no_connection no_ping booted : String → Boot

unfoldable pub create_vm : Boot → ℕ → RuntimePool → Outcome String × RuntimePool
unfolding store
create_vm no_machine now p = (err create_failed, p)
create_vm (no_connection id) now p =
    (err connect_failed, record p { stopped = p.stopped ++ id ∷ [] })
create_vm (no_ping id) now p = (err ping_failed, record p { stopped = p.stopped ++ id ∷ [] })
create_vm (booted id) now p =
    let vm : PooledVm = record {
      status = warm;
      created_at = now;
      last_used = now;
      use_count = 0;
    } in
    (ok id, record p { heap = store p.heap id vm })

unfoldable pub register : String → RuntimePool → RuntimePool
register id p = record p { all_vms = set id id p.all_vms }

-- A non-blocking send on the buffered channel: a full buffer refuses it.
unfoldable pub offer : String → RuntimePool → Bool × RuntimePool
offer id p =
    if ltb (length p.warm_vms) p.config.max_total
    then (true, record p { warm_vms = p.warm_vms ++ id ∷ [] })
    else (false, p)

continue_warm : Outcome String → RuntimePool → Outcome String × RuntimePool
unfolding offer register
continue_warm (ok id) p = (ok id, (offer id (register id p)).1)
continue_warm other p = (other, p)

-- `createWarmVM`: a VM that finds the queue full stays registered.
unfoldable pub create_warm_vm : Boot → ℕ → RuntimePool → Outcome String × RuntimePool
unfolding create_vm continue_warm
create_warm_vm boot now p = let (r, q) = create_vm boot now p in continue_warm r q

unfoldable pub take_warm : String → List String → ℕ → RuntimePool → RuntimePool
unfolding store
take_warm id rest now p =
    let vm = p.heap id in
    let used = record vm { status = busy; last_used = now; use_count = vm.use_count + 1 } in
    record p { heap = store p.heap id used; warm_vms = rest }

continue_cold : Outcome String → RuntimePool → Outcome (String × Bool) × RuntimePool
unfolding register store
continue_cold (ok id) p =
    let vm = p.heap id in
    (ok (id, true), register id (record p { heap = store p.heap id (record vm { status = busy }) }))
continue_cold (err e) p = (err e, p)
continue_cold waiting p = (waiting, p)

-- The part of `AcquireVM` after the test of `totalVMs`, during which the lock is not held.
unfoldable pub cold_start : Boot → ℕ → RuntimePool → Outcome (String × Bool) × RuntimePool
unfolding create_vm continue_cold
cold_start boot now p = let (r, q) = create_vm boot now p in continue_cold r q

pub acquire_from : List String → Boot → ℕ → RuntimePool → Outcome (String × Bool) × RuntimePool
unfolding take_warm cold_start
acquire_from (id ∷ rest) boot now p = (ok (id, false), take_warm id rest now p)
acquire_from [] boot now p =
    if leb p.config.max_total (length p.all_vms) then (waiting, p) else cold_start boot now p

-- `AcquireVM` of a known runtime. The flag says whether the start was cold.
unfoldable pub acquire_vm : Boot → ℕ → RuntimePool → Outcome (String × Bool) × RuntimePool
unfolding acquire_from
acquire_vm boot now p = acquire_from p.warm_vms boot now p

pub resume_from : List String → Bool → ℕ → RuntimePool → Outcome (String × Bool) × RuntimePool
unfolding take_warm
resume_from (id ∷ rest) ctx_done now p = (ok (id, false), take_warm id rest now p)
resume_from [] true now p = (err context_done, p)
resume_from [] false now p = (waiting, p)

-- The blocking `select` of `AcquireVM` on a full pool, each time that it can go on. Where both a VM
-- and the context are ready the VM is taken; the other choice is `resume_from [] true`.
unfoldable pub resume_acquire : Bool → ℕ → RuntimePool → Outcome (String × Bool) × RuntimePool
unfolding resume_from
resume_acquire ctx_done now p = resume_from p.warm_vms ctx_done now p

unfoldable pub destroy : String → RuntimePool → RuntimePool
destroy id p = record p { all_vms = delete id p.all_vms; stopped = p.stopped ++ id ∷ [] }

abbrev pub is_spent : PoolConfig → ℕ → PooledVm → Bool
is_spent cfg now vm =
    leb cfg.max_invocations vm.use_count || ltb cfg.max_vm_age (now - vm.created_at)

-- The error that `machinesMgr.StopVM` returns is the error of `ReleaseVM`.
abbrev stopping : Bool → Outcome (Unit {0})
stopping true = ok tt
stopping false = err stop_failed

pub release_found :
    Option String → String → Bool → ℕ → RuntimePool → Outcome (Unit {0}) × RuntimePool
unfolding destroy offer store
release_found none vm_id stops now p = (err vm_not_found, p)
release_found (some ptr) vm_id stops now p =
    let vm = p.heap ptr in
    let q = record p { heap = store p.heap ptr (record vm { status = warm }) } in
    let (sent, r) = offer ptr q in
    if is_spent p.config now vm
    then (stopping stops, destroy vm_id p)
    else if sent
    then (ok tt, r)
    else (stopping stops, destroy vm_id q)

-- `ReleaseVM` of a known runtime; `stops` says whether `StopVM` succeeds.
unfoldable pub release_vm : String → Bool → ℕ → RuntimePool → Outcome (Unit {0}) × RuntimePool
unfolding release_found
release_vm vm_id stops now p = release_found (lookup vm_id p.all_vms) vm_id stops now p
