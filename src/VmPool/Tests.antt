-- ===== src/VmPool/Tests.antt =====
-- Runs of the pool on small inputs, and the theorems at inputs that meet their hypotheses.
use function.Prelude.{
  ◌≡◌, refl, inr, true, false, none, some, [], ◌∷◌, ◌++◌, arith, if◌then◌else◌, elem, lookup, set,
}
use function.VmPool.{
  warm, busy, PooledVm, PoolConfig, RuntimePool, vm_not_found, ok, err, create_failed, no_machine,
  booted, cold_start, acquire_vm, release_vm, create_warm_vm, destroy, store, is_spent, stopping,
  new_pool,
}
use function.VmPool.Invariant.{Inv, new_pool-Inv}
use function.VmPool.Calls.{acquire_vm-Inv, create_warm_vm-Inv}
use function.VmPool.Steps
use function.VmPool.Steps.{System}
use function.VmPool.Outcomes.{HotStart, acquire_vm-HotStart, release_vm_held}
use function.VmPool.Workers.{run_health_checks}
use function.VmPool.Health.{
  IsDeadAndOld, run_health_checks_panics, HealthRound, run_health_checks-HealthRound,
}
use function.VmPool.Races.{acquire_stopped}

abbrev small : PoolConfig
small = record {
  min_warm = 1;
  target_warm = 2;
  max_total = 2;
  max_invocations = 3;
  max_vm_age = 100;
}

abbrev blank : PooledVm
blank = record { status = warm; created_at = 0; last_used = 0; use_count = 0 }

abbrev fresh : RuntimePool
fresh = new_pool small (λ id. blank)

-- One VM is warmed up, handed out, and given back.
abbrev one_warm : RuntimePool
one_warm = (create_warm_vm (booted "vm1") 5 fresh).1

abbrev one_busy : RuntimePool
one_busy = (acquire_vm no_machine 6 one_warm).1

abbrev one_back : RuntimePool
one_back = (release_vm "vm1" true 7 one_busy).1

hot_start_runs :
    ((acquire_vm no_machine 6 one_warm).0 ≡ ok ("vm1", false))
    × ((acquire_vm no_machine 7 one_busy).0 ≡ err create_failed)
unfolding acquire_vm create_warm_vm new_pool set
hot_start_runs = (refl, refl)

one_busy_status : (one_busy.heap "vm1").status ≡ busy
unfolding acquire_vm create_warm_vm new_pool set
one_busy_status = refl

-- The first VM, a round of health checks in which it does not answer, and an acquisition of it although
-- the round has stopped it; then a start from cold, in two steps, and a release.
abbrev after_round : RuntimePool
after_round = record one_warm { all_vms = []; stopped = "vm1" ∷ [] }

abbrev taken : RuntimePool
taken = (acquire_vm no_machine 9 after_round).1

abbrev both : RuntimePool
both = (cold_start (booted "vm2") 10 taken).1

abbrev last_system : System
last_system = record { pool = (release_vm "vm2" true 11 both).1; cold = 0; warming = 0 }

one_warm-Inv : Inv one_warm
unfolding new_pool lookup
one_warm-Inv =
    create_warm_vm-Inv (booted "vm1") 5 fresh (omega arith) refl (new_pool-Inv small (λ id. blank))

one_busy-Inv : Inv one_busy
one_busy-Inv = acquire_vm-Inv no_machine 6 one_warm tt one_warm-Inv

acquire_vm-HotStart_example : HotStart "vm1" 6 one_warm one_busy
unfolding acquire_vm create_warm_vm new_pool set
acquire_vm-HotStart_example =
    acquire_vm-HotStart no_machine 6 one_warm "vm1" one_warm-Inv hot_start_runs.0

one_busy_registered : lookup "vm1" one_busy.all_vms ≡ some "vm1"
unfolding acquire_vm create_warm_vm new_pool set lookup
one_busy_registered = refl

release_vm_held_example : release_vm "vm1" true 7 one_busy ≡ (
    if is_spent small 7 (one_busy.heap "vm1") then (stopping true, destroy "vm1" one_busy) else (
      ok tt,
      record one_busy {
        heap = store one_busy.heap "vm1" (record (one_busy.heap "vm1") { status = warm });
        warm_vms = one_busy.warm_vms ++ "vm1" ∷ [];
      },
    ))
unfolding acquire_vm create_warm_vm new_pool set
release_vm_held_example =
    release_vm_held "vm1" true 7 one_busy one_busy-Inv one_busy_status one_busy_registered

-- Nobody answers, and at time 200 the VM is too old.
silent_and_old : IsDeadAndOld (λ id. false) 200 one_warm "vm1"
unfolding create_warm_vm new_pool set lookup
silent_and_old = record {
  ptr = "vm1";
  at_key = refl;
  idle = refl;
  silent = refl;
  old = omega arith;
}

run_health_checks_panics_example : run_health_checks (λ id. false) 200 one_warm ≡ none
run_health_checks_panics_example =
    run_health_checks_panics (λ id. false) 200 one_warm "vm1" silent_and_old

run_health_checks-HealthRound_example :
    (q : RuntimePool) × (run_health_checks (λ id. false) 50 one_warm ≡ some q)
    × HealthRound (λ id. false) 50 one_warm q
unfolding create_warm_vm new_pool set elem
run_health_checks-HealthRound_example =
    run_health_checks-HealthRound (λ id. false) 50 one_warm (refl, tt) (inr (inr refl), tt)

acquire_stopped_example :
    (q : RuntimePool) × (run_health_checks (λ id. false) 50 one_warm ≡ some q)
    × ((acquire_vm no_machine 60 q).0 ≡ ok ("vm1", false))
    × (lookup "vm1" q.all_vms ≡ none)
unfolding create_warm_vm new_pool set lookup elem
acquire_stopped_example =
    acquire_stopped (λ id. false) 50 60 no_machine one_warm "vm1" [] (refl, tt) (inr (inr refl), tt)
      refl refl refl

one_back_runs :
    (one_back.warm_vms ≡ "vm1" ∷ []) × ((release_vm "vm2" true 7 one_busy).0 ≡ err vm_not_found)
unfolding acquire_vm create_warm_vm new_pool set release_vm lookup
one_back_runs = (refl, refl)
