-- ===== src/VmPool/Sizes.antt =====
-- The numbers that the pool reports and works with (internal/vmpool/pool.go, `checkScaling` and
-- `GetStats`).
use function.Prelude.{
  ℕ, ◌+◌, ◌≤◌, String, ◌≡◌, refl, ◌⊎◌, List, [], ◌∷◌, arith, length, Map, length-set-le,
}
use function.VmPool.{
  RuntimePool, Boot, booted, create_warm_vm, continue_warm, create_vm, offer, register,
}
use function.VmPool.Workers.{to_create, create_warm_vms, count_status, get_stats}

count_status_total :
    (p : RuntimePool) (m : Map String) → (count_status p m).0 + (count_status p m).1 ≡ length m
unfolding count_status
count_status_total p [] = omega arith
count_status_total p ((id, ptr) ∷ m) = ground (arith, count_status_total p m)

-- Every registered VM is counted once, as warm or as busy.
pub get_stats_total :
    (p : RuntimePool)
    → let s = get_stats p in
      (s.warm_vms + s.busy_vms ≡ s.total_vms) × (s.total_vms ≡ length p.all_vms)
unfolding get_stats
get_stats_total p = (count_status_total p p.all_vms, refl)

create_warm_vm-size :
    (boot : Boot) (now : ℕ) (p : RuntimePool)
    → length (create_warm_vm boot now p).1.all_vms ≤ length p.all_vms + 1
unfolding create_warm_vm create_vm continue_warm register offer
create_warm_vm-size (booted id) now p = ground (arith, length-set-le id id p.all_vms)
create_warm_vm-size _ now p = omega arith

create_warm_vms-size :
    (boots : List (Boot × ℕ)) (p : RuntimePool)
    → length (create_warm_vms boots p).all_vms ≤ length p.all_vms + length boots
unfolding create_warm_vms
create_warm_vms-size [] p = omega arith
create_warm_vms-size ((boot, now) ∷ more) p =
    omega (
      arith,
      create_warm_vm-size boot now p,
      create_warm_vms-size more (create_warm_vm boot now p).1,
    )

to_create_bound :
    (p : RuntimePool) → (length p.all_vms + to_create p ≤ p.config.max_total) ⊎ (to_create p ≡ 0)
unfolding to_create
to_create_bound p = ground arith

-- However the VMs that one round of scaling starts come up, it does not take the runtime over
-- `MaxTotal`, if it was within it.
pub create_warm_vms-within :
    (p : RuntimePool) (boots : List (Boot × ℕ))
    → length boots ≡ to_create p
    → length p.all_vms ≤ p.config.max_total
    → length (create_warm_vms boots p).all_vms ≤ p.config.max_total
create_warm_vms-within p boots e h = ground (arith, to_create_bound p, create_warm_vms-size boots p)
