-- ===== src/VmPool/Outcomes.antt =====
-- What `AcquireVM` and `ReleaseVM` return and change, branch by branch (internal/vmpool/pool.go).
use function.Prelude.{
  ℕ, ◌+◌, ◌≤◌, ◌<◌, String, ◌≡◌, ◌≢◌, refl, inl, inr, Bool, true, false, some, List, [], ◌∷◌, ◌++◌,
  arith, if◌then◌else◌, length, elem, Map, lookup, delete, eq_iff, eq_refl, lookup-delete,
  length-delete-lt,
}
use function.VmPool.{
  cold_start, warm, busy, RuntimePool, ok, Boot, no_machine, booted, acquire_vm, acquire_from,
  release_vm, release_found, destroy, take_warm, store, is_spent, stopping,
}
use function.VmPool.Invariant.{Inv, Distinct, elem-cons_inv}
use function.VmPool.Calls.{busy_not_queued}

-- A list of distinct keys of a map is no longer than the map.
pub Distinct-length-le {ℓ} :
    {V : Type ℓ} (xs : List String) (m : Map V)
    → Distinct xs
    → ((k : String) → elem k xs ≡ true → (v : V) × (lookup k m ≡ some v))
    → length xs ≤ length m
unfolding elem
Distinct-length-le [] m d h = omega arith
Distinct-length-le (x ∷ xs) m d h =
    let (v, e) = h x (ground (arith, eq_refl x)) in
    omega (
      arith,
      length-delete-lt x v m e,
      Distinct-length-le xs (delete x m) d.1 λ k m'.
          let (w, f) = h k (ground arith) in (w, rw lookup-delete (ground (arith, eq_iff x k))),
    )

-- What a hot start hands out, and in which state it leaves the pool.
pub record HotStart (id : String) (now : ℕ) (p q : RuntimePool) : Type 0 where
  pub was_idle : (p.heap id).status ≡ warm
  pub was_registered : lookup id p.all_vms ≡ some id
  pub is_busy : (q.heap id).status ≡ busy
  pub counted : (q.heap id).use_count ≡ (p.heap id).use_count + 1
  pub stamped : (q.heap id).last_used ≡ now
  pub oldest : p.warm_vms ≡ id ∷ q.warm_vms
  pub gone : elem id q.warm_vms ≡ false
  pub registered : q.all_vms ≡ p.all_vms

create_vm_is_cold :
    (boot : Boot) (now : ℕ) (p : RuntimePool) (id : String)
    → (cold_start boot now p).0 ≢ ok (id, false)
unfolding cold_start
create_vm_is_cold no_machine now p id e = cc
create_vm_is_cold (booted i) now p id e = ground arith
create_vm_is_cold _ now p id e = cc

acquire_from-HotStart :
    (ws : List String) (boot : Boot) (now : ℕ) (p : RuntimePool) (id : String)
    → p.warm_vms ≡ ws
    → Inv p
    → (acquire_from ws boot now p).0 ≡ ok (id, false)
    → HotStart id now p (acquire_from ws boot now p).1
unfolding acquire_from take_warm store elem
acquire_from-HotStart (w ∷ rest) boot now p id e h r =
    let same : w ≡ id = ground arith in
    let d : Distinct (w ∷ rest) = rw e at h.distinct in
    let m : elem w p.warm_vms ≡ true = rw e (ground (arith, eq_refl w)) in
    rw (← same) (record {
      was_idle = h.queued_warm w m;
      was_registered = h.queued_registered w m;
      is_busy = rw eq_refl;
      counted = rw eq_refl;
      stamped = rw eq_refl;
      oldest = e;
      gone = d.0;
      registered = refl;
    })
acquire_from-HotStart [] boot now p id e h r =
    absurd (ground (arith, create_vm_is_cold boot now p id))

-- Under the invariant a hot start hands out the oldest queued VM, which was registered and idle;
-- it is now busy, off the queue, and its use is counted and stamped.
pub acquire_vm-HotStart :
    (boot : Boot) (now : ℕ) (p : RuntimePool) (id : String)
    → Inv p
    → (acquire_vm boot now p).0 ≡ ok (id, false)
    → HotStart id now p (acquire_vm boot now p).1
unfolding acquire_vm
acquire_vm-HotStart boot now p id h r = acquire_from-HotStart p.warm_vms boot now p id refl h r

queue_has_room :
    (id ptr : String) (p : RuntimePool)
    → Inv p
    → (p.heap id).status ≡ busy
    → lookup id p.all_vms ≡ some ptr
    → length p.warm_vms < p.config.max_total
unfolding elem
queue_has_room id ptr p h b e = omega (
  arith,
  h.within,
  Distinct-length-le (id ∷ p.warm_vms) p.all_vms (busy_not_queued id p h b, h.distinct)
      λ k m. elim (elem-cons_inv id k p.warm_vms m) [
        | inl s ↦ (ptr, rw (← (eq_iff id k).0 s) e)
        | inr t ↦ (k, h.queued_registered k t)
      ],
)

-- The three ends of a release of a VM that is registered.
release_some :
    (id : String) (stops : Bool) (now : ℕ) (p : RuntimePool)
    → lookup id p.all_vms ≡ some id
    → length p.warm_vms < p.config.max_total
    → release_vm id stops now p ≡ (
        if is_spent p.config now (p.heap id) then (stopping stops, destroy id p) else (
          ok tt,
          record p {
            heap = store p.heap id (record (p.heap id) { status = warm });
            warm_vms = p.warm_vms ++ id ∷ [];
          },
        ))
unfolding release_vm release_found
release_some id stops now p e room = rw e (ground arith)

-- Under the invariant, the release of a VM that is held never meets a full queue: a VM that is used
-- up or too old is unregistered and stopped, and any other goes to the end of the queue as warm.
pub release_vm_held :
    (id : String) (stops : Bool) (now : ℕ) (p : RuntimePool)
    → Inv p
    → (p.heap id).status ≡ busy
    → lookup id p.all_vms ≡ some id
    → release_vm id stops now p ≡ (
        if is_spent p.config now (p.heap id) then (stopping stops, destroy id p) else (
          ok tt,
          record p {
            heap = store p.heap id (record (p.heap id) { status = warm });
            warm_vms = p.warm_vms ++ id ∷ [];
          },
        ))
release_vm_held id stops now p h b e = release_some id stops now p e (queue_has_room id id p h b e)
