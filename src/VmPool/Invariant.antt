-- ===== src/VmPool/Invariant.antt =====
-- What holds of a pool between two operations, while every caller releases a VM that it holds
-- (internal/vmpool/pool.go).
use function.Prelude.{
  ℕ, ◌≤◌, ◌<◌, String, ◌≡◌, refl, ap, ◌⊎◌, inl, inr, true, false, none, some, List, [], ◌∷◌, ◌++◌,
  arith, ltb, Bool-cases, length, length-append, elem, elem-append, lookup, ◌==◌, eq_iff, eq_refl,
  lookup-set, lookup-delete, length-delete-le, length-set-le,
}
use function.VmPool.{
  warm, PooledVm, PoolConfig, RuntimePool, Boot, booted, destroy, take_warm, offer, store, register,
  new_pool,
}

-- No text stands twice in the list.
abbrev pub Distinct : List String → Type 0
Distinct [] = Unit
Distinct (x ∷ xs) = (elem x xs ≡ false) × Distinct xs

pub record Inv (p : RuntimePool) : Type 0 where
  pub keyed : (k q : String) → lookup k p.all_vms ≡ some q → q ≡ k
  pub queued_registered : (k : String) → elem k p.warm_vms ≡ true → lookup k p.all_vms ≡ some k
  pub queued_warm : (k : String) → elem k p.warm_vms ≡ true → (p.heap k).status ≡ warm
  pub distinct : Distinct p.warm_vms
  pub within : length p.all_vms ≤ p.config.max_total
  pub capacity : length p.warm_vms ≤ p.config.max_total

-- The machine manager names no VM that is registered.
abbrev pub Fresh : Boot → RuntimePool → Type 0
Fresh (booted id) p = lookup id p.all_vms ≡ none
Fresh _ p = Unit

pub elem-Distinct_snoc :
    (xs : List String) (a : String) → Distinct xs → elem a xs ≡ false → Distinct (xs ++ a ∷ [])
unfolding elem
elem-Distinct_snoc [] a d h = (refl, tt)
elem-Distinct_snoc (x ∷ xs) a d h = (
  rw elem-append (ground (arith, d.0, h, eq_iff x a, eq_iff a x)),
  elem-Distinct_snoc xs a d.1 (ground arith),
)

pub elem-cons_tail : (x k : String) (xs : List String) → elem k xs ≡ true → elem k (x ∷ xs) ≡ true
unfolding elem
elem-cons_tail x k xs h = ground arith

pub elem-cons_self : (x : String) (xs : List String) → elem x (x ∷ xs) ≡ true
unfolding elem
elem-cons_self x xs = ground (arith, eq_refl x)

pub elem-cons_inv :
    (x k : String) (xs : List String)
    → elem k (x ∷ xs) ≡ true
    → (x == k ≡ true) ⊎ (elem k xs ≡ true)
unfolding elem
elem-cons_inv x k xs h = ground arith

pub elem_tail_ne :
    (x k : String) (xs : List String) → elem x xs ≡ false → elem k xs ≡ true → x == k ≡ false
elem_tail_ne x k xs h e = ground (arith, eq_iff x k)

pub elem-snoc_inv :
    (x k : String) (xs : List String)
    → elem k (xs ++ x ∷ []) ≡ true
    → (elem k xs ≡ true) ⊎ (x == k ≡ true)
unfolding elem
elem-snoc_inv x k xs = rw elem-append (λ h. ground arith)

-- A new pool satisfies the invariant.
pub new_pool-Inv : (cfg : PoolConfig) (heap : String → PooledVm) → Inv (new_pool cfg heap)
unfolding new_pool lookup elem
new_pool-Inv cfg heap = record {
  keyed = λ k q h. cc;
  queued_registered = λ k h. cc;
  queued_warm = λ k h. cc;
  distinct = tt;
  within = omega arith;
  capacity = omega arith;
}

pub take_warm-Inv :
    (id : String) (rest : List String) (now : ℕ) (p : RuntimePool)
    → p.warm_vms ≡ id ∷ rest
    → Inv p
    → Inv (take_warm id rest now p)
unfolding take_warm store
take_warm-Inv id rest now p e h =
    let d : Distinct (id ∷ rest) = rw e at h.distinct in
    record {
      keyed = h.keyed;
      queued_registered = λ k m. h.queued_registered k (rw e (elem-cons_tail id k rest m));
      queued_warm = λ k m.
          rw (elem_tail_ne id k rest d.0 m) (h.queued_warm k (rw e (elem-cons_tail id k rest m)));
      distinct = d.1;
      within = h.within;
      capacity = omega (arith, h.capacity, ap length e);
    }

-- A fresh id is not in the queue.
pub fresh_not_queued :
    (id k : String) (p : RuntimePool)
    → lookup id p.all_vms ≡ none
    → Inv p
    → elem k p.warm_vms ≡ true
    → id == k ≡ false
fresh_not_queued id k p f h m = ground (arith, h.queued_registered k m, eq_iff id k)

-- Writing to a VM that is not queued keeps the invariant.
pub store-Inv :
    (id : String) (vm : PooledVm) (p : RuntimePool)
    → ((k : String) → elem k p.warm_vms ≡ true → id == k ≡ false)
    → Inv p
    → Inv (record p { heap = store p.heap id vm })
unfolding store
store-Inv id vm p apart h = record {
  keyed = h.keyed;
  queued_registered = h.queued_registered;
  queued_warm = λ k m. rw (apart k m) (h.queued_warm k m);
  distinct = h.distinct;
  within = h.within;
  capacity = h.capacity;
}

pub register-Inv :
    (id : String) (p : RuntimePool)
    → lookup id p.all_vms ≡ none
    → length p.all_vms < p.config.max_total
    → Inv p
    → Inv (register id p)
unfolding register
register-Inv id p f room h = record {
  keyed = λ k q. rw lookup-set (λ m. ground (arith, h.keyed k q, eq_iff id k));
  queued_registered = λ k m. rw lookup-set (ground (arith, h.queued_registered k m, eq_iff id k));
  queued_warm = h.queued_warm;
  distinct = h.distinct;
  within = omega (arith, length-set-le id id p.all_vms);
  capacity = h.capacity;
}

pub offer-Inv :
    (id : String) (p : RuntimePool)
    → lookup id p.all_vms ≡ some id
    → (p.heap id).status ≡ warm
    → elem id p.warm_vms ≡ false
    → Inv p
    → Inv (offer id p).1
unfolding offer
offer-Inv id p known w out h = elim (Bool-cases (ltb (length p.warm_vms) p.config.max_total)) [
  | inr full ↦ rw full h
  | inl room ↦ rw room (record {
    keyed = h.keyed;
    queued_registered =
        λ k m. ground (arith, elem-snoc_inv id k p.warm_vms m, h.queued_registered k, eq_iff id k);
    queued_warm =
        λ k m. ground (arith, elem-snoc_inv id k p.warm_vms m, h.queued_warm k, eq_iff id k);
    distinct = elem-Distinct_snoc p.warm_vms id h.distinct out;
    within = h.within;
    capacity = ground (arith, length-append p.warm_vms (id ∷ []));
  })
]

pub destroy-Inv :
    (id : String) (p : RuntimePool) → elem id p.warm_vms ≡ false → Inv p → Inv (destroy id p)
unfolding destroy
destroy-Inv id p out h = record {
  keyed = λ k q. rw lookup-delete (λ m. ground (arith, h.keyed k q, eq_iff id k));
  queued_registered =
      λ k m. rw lookup-delete (ground (arith, h.queued_registered k m, eq_iff id k));
  queued_warm = h.queued_warm;
  distinct = h.distinct;
  within = omega (arith, length-delete-le id p.all_vms, h.within);
  capacity = h.capacity;
}
