-- ===== src/VmPool/Runtimes.antt =====
-- The operations of the whole pool, which first look the runtime up (internal/vmpool/pool.go).
use function.Prelude.{
  ℕ, String, Bool, true, false, Option, none, some, List, [], ◌∷◌, Map, lookup, set, keys,
}
use function.VmPool.{RuntimePool, unknown_runtime, Outcome, err, Boot, acquire_vm, release_vm}

-- `Pool.pools`: the runtimes that the configuration names.
abbrev pub Pool : Type 0
Pool = Map RuntimePool

dispatch_acquire : Option RuntimePool → String → Boot → ℕ → Pool → Outcome (String × Bool) × Pool
unfolding acquire_vm
dispatch_acquire none runtime boot now pools = (err unknown_runtime, pools)
dispatch_acquire (some p) runtime boot now pools =
    let (r, q) = acquire_vm boot now p in (r, set runtime q pools)

unfoldable pub pool_acquire : String → Boot → ℕ → Pool → Outcome (String × Bool) × Pool
unfolding dispatch_acquire
pool_acquire runtime boot now pools = dispatch_acquire (lookup runtime pools) runtime boot now pools

dispatch_release :
    Option RuntimePool → String → String → Bool → ℕ → Pool → Outcome (Unit {0}) × Pool
unfolding release_vm
dispatch_release none runtime vm_id stops now pools = (err unknown_runtime, pools)
dispatch_release (some p) runtime vm_id stops now pools =
    let (r, q) = release_vm vm_id stops now p in (r, set runtime q pools)

unfoldable pub pool_release : String → String → Bool → ℕ → Pool → Outcome (Unit {0}) × Pool
unfolding dispatch_release
pool_release runtime vm_id stops now pools =
    dispatch_release (lookup runtime pools) runtime vm_id stops now pools

-- `IsVMAlive`
unfoldable pub is_vm_alive : String → Pool → Bool
is_vm_alive vm_id [] = false
is_vm_alive vm_id ((runtime, p) ∷ pools) = elim (lookup vm_id p.all_vms) [
  | some ptr ↦ true
  | none ↦ is_vm_alive vm_id pools
]

-- `GetVMByID`
unfoldable pub get_vm_by_id : String → Pool → Option (String × String)
get_vm_by_id vm_id [] = none
get_vm_by_id vm_id ((runtime, p) ∷ pools) = elim (lookup vm_id p.all_vms) [
  | some ptr ↦ some (ptr, runtime)
  | none ↦ get_vm_by_id vm_id pools
]

-- `GetAllVMIDs`
unfoldable pub get_all_vm_ids : String → Pool → List String
get_all_vm_ids runtime pools = elim (lookup runtime pools) [ none ↦ [] | some p ↦ keys p.all_vms ]
