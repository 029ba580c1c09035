-- ===== src/VmPool/Calls.antt =====
-- A call of the pool that nothing else comes in between keeps its invariant (internal/vmpool/pool.go).
use function.Prelude.{
  ℕ, ◌<◌, String, ◌≡◌, refl, inl, inr, false, List, [], ◌∷◌, arith, leb, Bool-cases, length, elem,
  eq_refl, lookup-set,
}
use function.VmPool.{
  cold_start, busy, PooledVm, RuntimePool, Boot, no_machine, no_connection, no_ping, booted,
  acquire_vm, acquire_from, create_warm_vm, continue_warm, create_vm, store, register,
}
use function.VmPool.Invariant.{
  Inv, Fresh, take_warm-Inv, store-Inv, register-Inv, offer-Inv, fresh_not_queued,
}

stopped-Inv : (ids : List String) (p : RuntimePool) → Inv p → Inv (record p { stopped = ids })
stopped-Inv ids p h = record {
  keyed = h.keyed;
  queued_registered = h.queued_registered;
  queued_warm = h.queued_warm;
  distinct = h.distinct;
  within = h.within;
  capacity = h.capacity;
}

-- A cold start registers the VM that it marks busy.
cold-Inv :
    (boot : Boot) (now : ℕ) (p : RuntimePool)
    → length p.all_vms < p.config.max_total
    → Fresh boot p
    → Inv p
    → Inv (cold_start boot now p).1
unfolding cold_start
cold-Inv no_machine now p room f h = h
cold-Inv (no_connection id) now p room f h = stopped-Inv _ p h
cold-Inv (no_ping id) now p room f h = stopped-Inv _ p h
cold-Inv (booted id) now p room f h = register-Inv id _ f room (
    store-Inv id _ _ (λ k m. fresh_not_queued id k p f h m)
      (store-Inv id _ p (λ k m. fresh_not_queued id k p f h m) h))

acquire_from-Inv :
    (ws : List String) (boot : Boot) (now : ℕ) (p : RuntimePool)
    → p.warm_vms ≡ ws
    → Fresh boot p
    → Inv p
    → Inv (acquire_from ws boot now p).1
unfolding acquire_from
acquire_from-Inv (id ∷ rest) boot now p e f h = take_warm-Inv id rest now p e h
acquire_from-Inv [] boot now p e f h =
    elim (Bool-cases (leb p.config.max_total (length p.all_vms))) [
      | inl full ↦ rw full h
      | inr room ↦ rw room (cold-Inv boot now p (ground arith) f h)
    ]

-- `AcquireVM` keeps the invariant, whether it finds a warm VM, starts one, fails or waits.
pub acquire_vm-Inv :
    (boot : Boot) (now : ℕ) (p : RuntimePool) → Fresh boot p → Inv p → Inv (acquire_vm boot now p).1
unfolding acquire_vm
acquire_vm-Inv boot now p f h = acquire_from-Inv p.warm_vms boot now p refl f h

-- A VM that is busy is not in the queue.
pub busy_not_queued :
    (id : String) (p : RuntimePool) → Inv p → (p.heap id).status ≡ busy → elem id p.warm_vms ≡ false
busy_not_queued id p h b = ground (arith, h.queued_warm id)

pub store_self_status :
    (heap : String → PooledVm) (id : String) (vm : PooledVm)
    → (store heap id vm id).status ≡ vm.status
unfolding store
store_self_status heap id vm = rw eq_refl

-- `createWarmVM` keeps the invariant where the pool has room.
pub create_warm_vm-Inv :
    (boot : Boot) (now : ℕ) (p : RuntimePool)
    → length p.all_vms < p.config.max_total
    → Fresh boot p
    → Inv p
    → Inv (create_warm_vm boot now p).1
unfolding create_warm_vm create_vm continue_warm register
create_warm_vm-Inv no_machine now p room f h = h
create_warm_vm-Inv (no_connection id) now p room f h = stopped-Inv _ p h
create_warm_vm-Inv (no_ping id) now p room f h = stopped-Inv _ p h
create_warm_vm-Inv (booted id) now p room f h =
    offer-Inv id _ (rw (lookup-set, eq_refl)) (store_self_status p.heap id _)
      (ground (arith, h.queued_registered id))
      (register-Inv id _ f room (store-Inv id _ p (λ k m. fresh_not_queued id k p f h m) h))
