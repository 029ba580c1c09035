-- ===== src/VmPool/Workers.antt =====
-- The background work of the pool: health checks, scaling and statistics
-- (internal/vmpool/pool.go, `runHealthChecks`, `checkScaling`, `GetStats`).
use function.Prelude.{
  ℕ, ◌+◌, ◌-◌, String, Bool, ◌&&◌, Option, none, some, List, [], ◌∷◌, ◌++◌, ltb, if◌then◌else◌,
  length, Map, lookup,
}
use function.VmPool.{PooledVm, warm, busy, RuntimePool, Boot, create_warm_vm, destroy}

-- What `runHealthChecks` collects of one VM: `pings` says which VMs answer. A warm VM that does not
-- answer and is too old is collected twice.
unfoldable pub collect : (String → Bool) → ℕ → RuntimePool → String → PooledVm → List String
collect pings now p id vm =
    let dead = if pings id then [] else id ∷ [] in
    let old = if ltb p.config.max_vm_age (now - vm.created_at) then id ∷ [] else [] in
    elim vm.status [ warm ↦ dead ++ old | busy ↦ [] ]

-- The loop of `runHealthChecks` over the registered VMs.
unfoldable pub to_remove : (String → Bool) → ℕ → RuntimePool → Map String → List String
to_remove pings now p [] = []
to_remove pings now p ((id, ptr) ∷ more) =
    collect pings now p id (p.heap ptr) ++ to_remove pings now p more

-- The loop that removes them. `none` is the panic on a key that is gone: the map then yields a nil
-- pointer, and `pvm.Client` reads through it.
unfoldable pub remove_all : List String → RuntimePool → Option RuntimePool
unfolding destroy
remove_all [] p = some p
remove_all (id ∷ ids) p =
    let rest = remove_all ids (destroy id p) in
    elim (lookup id p.all_vms) [ none ↦ none | some ptr ↦ rest ]

-- `runHealthChecks`, for one runtime.
unfoldable pub run_health_checks : (String → Bool) → ℕ → RuntimePool → Option RuntimePool
unfolding to_remove remove_all collect
run_health_checks pings now p = remove_all (to_remove pings now p p.all_vms) p

-- The number of VMs that `checkScaling` starts to create for one runtime.
unfoldable pub to_create : RuntimePool → ℕ
to_create p =
    let warm_count = length p.warm_vms in
    let total_count = length p.all_vms in
    let wanted = p.config.target_warm - warm_count in
    let room = p.config.max_total - total_count in
    if ltb warm_count p.config.min_warm && ltb total_count p.config.max_total
    then (if ltb room wanted then room else wanted)
    else 0

-- The goroutines that `checkScaling` starts, one after the other, each with its machine's answer.
unfoldable pub create_warm_vms : List (Boot × ℕ) → RuntimePool → RuntimePool
create_warm_vms [] p = p
create_warm_vms ((boot, now) ∷ more) p = create_warm_vms more (create_warm_vm boot now p).1

pub record PoolStats : Type 0 where
  pub warm_vms : ℕ
  pub busy_vms : ℕ
  pub total_vms : ℕ
  pub max_vms : ℕ

unfoldable pub count_status : RuntimePool → Map String → ℕ × ℕ
count_status p [] = (0, 0)
count_status p ((id, ptr) ∷ more) =
    let (w, b) = count_status p more in
    elim (p.heap ptr).status [ warm ↦ (w + 1, b) | busy ↦ (w, b + 1) ]

-- `GetStats`, for one runtime.
unfoldable pub get_stats : RuntimePool → PoolStats
unfolding count_status
get_stats p =
    let (w, b) = count_status p p.all_vms in
    record {
      warm_vms = w;
      busy_vms = b;
      total_vms = length p.all_vms;
      max_vms = p.config.max_total;
    }
