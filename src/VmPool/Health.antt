-- ===== src/VmPool/Health.antt =====
-- What a round of health checks, of scaling and of statistics does (internal/vmpool/pool.go).
use function.Prelude.{
  ℕ, ◌-◌, ◌<◌, String, ◌≡◌, ◌≢◌, refl, sym, ap, ◌∙◌, ◌⊎◌, inl, inr, Bool, true, false, not, ◌&&◌,
  ◌||◌, Option, none, some, List, [], ◌∷◌, ◌++◌, arith, ltb, if◌then◌else◌, Bool-cases, elem,
  elem-append, Map, lookup, keys, ◌==◌, eq_iff, eq_refl, lookup-delete,
}
use mathlib.Core.List.{append_assoc}
use function.VmPool.{warm, busy, PooledVm, RuntimePool, destroy}
use function.VmPool.Invariant.{Distinct, elem-cons_self, elem_tail_ne, elem-cons_tail}
use function.VmPool.Workers.{collect, to_remove, remove_all, run_health_checks}

-- A registered VM that is warm, does not answer, and is too old.
pub record IsDeadAndOld (pings : String → Bool) (now : ℕ) (p : RuntimePool) (id : String)
    : Type 0 where
  pub ptr : String
  pub at_key : lookup id p.all_vms ≡ some ptr
  pub idle : (p.heap ptr).status ≡ warm
  pub silent : pings id ≡ false
  pub old : p.config.max_vm_age < now - (p.heap ptr).created_at

remove_all_twice :
    (id : String) (xs ys : List String) (p : RuntimePool) → remove_all (xs ++ id ∷ id ∷ ys) p ≡ none
unfolding remove_all
remove_all_twice id [] ys p = ground (arith, lookup-delete id id p.all_vms, eq_refl id)
remove_all_twice id (x ∷ xs) ys p = ground (arith, remove_all_twice id xs ys (destroy x p))

collect_twice :
    (pings : String → Bool) (now : ℕ) (p : RuntimePool) (id : String) (vm : PooledVm)
    → vm.status ≡ warm
    → pings id ≡ false
    → p.config.max_vm_age < now - vm.created_at
    → collect pings now p id vm ≡ id ∷ id ∷ []
unfolding collect
collect_twice pings now p id vm w s o = ground arith

-- A key that is collected twice stands twice in a row.
to_remove_twice :
    (pings : String → Bool) (now : ℕ) (p : RuntimePool) (id ptr : String) (m : Map String)
    → lookup id m ≡ some ptr
    → (p.heap ptr).status ≡ warm
    → pings id ≡ false
    → p.config.max_vm_age < now - (p.heap ptr).created_at
    → (xs : List String) × (ys : List String) × (to_remove pings now p m ≡ xs ++ id ∷ id ∷ ys)
unfolding to_remove lookup
to_remove_twice pings now p id ptr [] e w s o = cc
to_remove_twice pings now p id ptr ((j, q) ∷ m) e w s o = elim (Bool-cases (j == id)) [
  | inl same ↦
      (let same_ptr : q ≡ ptr = ground arith in
        (
          [],
          to_remove pings now p m,
          rw ((eq_iff j id).0 same) (
              ap (λ l. l ++ to_remove pings now p m)
                (collect_twice pings now p id (p.heap q) (rw same_ptr w) s (rw same_ptr o))),
        ))
  | inr other ↦
      (let (xs, ys, f) = to_remove_twice pings now p id ptr m (ground arith) w s o in
        (
          collect pings now p j (p.heap q) ++ xs,
          ys,
          rw f (sym (append_assoc (collect pings now p j (p.heap q)) xs (id ∷ id ∷ ys))),
        ))
]

-- A round that meets a warm VM which neither answers nor is young enough panics: the VM is collected
-- twice, and the second removal reads through a nil pointer.
pub run_health_checks_panics :
    (pings : String → Bool) (now : ℕ) (p : RuntimePool) (id : String)
    → IsDeadAndOld pings now p id
    → run_health_checks pings now p ≡ none
unfolding run_health_checks
run_health_checks_panics pings now p id h =
    let (xs, ys, e) =
      to_remove_twice pings now p id h.ptr p.all_vms h.at_key h.idle h.silent h.old in
    rw e (remove_all_twice id xs ys p)

-- Whether a round should remove a VM: it is warm, and it does not answer or is too old.
abbrev pub unfit : (String → Bool) → ℕ → RuntimePool → String → PooledVm → Bool
unfit pings now p id vm = elim vm.status [
  | warm ↦ not (pings id) || ltb p.config.max_vm_age (now - vm.created_at)
  | busy ↦ false
]

-- No VM is both silent and too old while it is warm.
abbrev pub NoneDeadAndOld : (String → Bool) → ℕ → RuntimePool → Map String → Type 0
NoneDeadAndOld pings now p [] = Unit
NoneDeadAndOld pings now p ((id, ptr) ∷ more) =
    ((p.heap ptr).status ≡ busy
      ⊎ (pings id ≡ true)
      ⊎ (ltb p.config.max_vm_age (now - (p.heap ptr).created_at) ≡ false))
    × NoneDeadAndOld pings now p more

-- The map that a round leaves, read at a key.
abbrev pub survivor : (String → Bool) → ℕ → RuntimePool → String → Option String → Option String
survivor pings now p id none = none
survivor pings now p id (some ptr) = if unfit pings now p id (p.heap ptr) then none else some ptr

elem-collect :
    (pings : String → Bool) (now : ℕ) (p : RuntimePool) (id k : String) (vm : PooledVm)
    → elem k (collect pings now p id vm) ≡ (id == k && unfit pings now p id vm)
unfolding collect elem
elem-collect pings now p id k vm = ground arith

elem-to_remove_none :
    (pings : String → Bool) (now : ℕ) (p : RuntimePool) (k : String) (m : Map String)
    → elem k (keys m) ≡ false
    → elem k (to_remove pings now p m) ≡ false
unfolding to_remove elem
elem-to_remove_none pings now p k [] h = refl
elem-to_remove_none pings now p k ((j, q) ∷ m) h =
    rw (elem-append, elem-collect) (ground (arith, elem-to_remove_none pings now p k m))

-- Of distinct keys, the collected ones are those of the unfit VMs.
elem-to_remove :
    (pings : String → Bool) (now : ℕ) (p : RuntimePool) (k : String) (m : Map String)
    → Distinct (keys m)
    → survivor pings now p k (lookup k m)
      ≡ (if elem k (to_remove pings now p m) then none else lookup k m)
unfolding to_remove elem lookup
elem-to_remove pings now p k [] d = refl
elem-to_remove pings now p k ((j, q) ∷ m) d =
    rw (elem-append, elem-collect)
      (ground (
        arith,
        eq_iff j k,
        elem-to_remove pings now p k m d.1,
        elem-to_remove_none pings now p j m d.0,
      ))

to_remove-Distinct :
    (pings : String → Bool) (now : ℕ) (p : RuntimePool) (m : Map String)
    → Distinct (keys m)
    → NoneDeadAndOld pings now p m
    → Distinct (to_remove pings now p m)
unfolding to_remove collect
to_remove-Distinct pings now p [] d n = tt
to_remove-Distinct pings now p ((j, q) ∷ m) d n =
    ground
      (arith, to_remove-Distinct pings now p m d.1 n.1, elem-to_remove_none pings now p j m d.0)

destroy_all : List String → RuntimePool → RuntimePool
destroy_all [] p = p
destroy_all (id ∷ ids) p = destroy_all ids (destroy id p)

lookup-destroy_all :
    (ids : List String) (k : String) (p : RuntimePool)
    → lookup k (destroy_all ids p).all_vms ≡ (if elem k ids then none else lookup k p.all_vms)
unfolding destroy_all destroy elem
lookup-destroy_all [] k p = refl
lookup-destroy_all (id ∷ ids) k p =
    rw (lookup-destroy_all ids k (destroy id p), lookup-delete) (ground (arith, eq_iff id k))

destroy_all-queue :
    (ids : List String) (p : RuntimePool) → (destroy_all ids p).warm_vms ≡ p.warm_vms
unfolding destroy_all destroy
destroy_all-queue [] p = refl
destroy_all-queue (id ∷ ids) p = destroy_all-queue ids (destroy id p)

remove_all-Distinct :
    (ids : List String) (p : RuntimePool)
    → Distinct ids
    → ((k : String) → elem k ids ≡ true → lookup k p.all_vms ≢ none)
    → remove_all ids p ≡ some (destroy_all ids p)
unfolding remove_all destroy_all destroy
remove_all-Distinct [] p d h = refl
remove_all-Distinct (id ∷ ids) p d h = ground (
  arith,
  h id (elem-cons_self id ids),
  remove_all-Distinct ids (destroy id p) d.1 λ k m.
      rw lookup-delete
        (ground (arith, elem_tail_ne id k ids d.0 m, h k (elem-cons_tail id k ids m))),
)

to_remove-known :
    (pings : String → Bool) (now : ℕ) (p : RuntimePool) (k : String) (m : Map String)
    → elem k (to_remove pings now p m) ≡ true
    → lookup k m ≢ none
unfolding to_remove lookup elem
to_remove-known pings now p k [] e = cc
to_remove-known pings now p k ((j, q) ∷ m) e =
    let f : (elem k (collect pings now p j (p.heap q)) || elem k (to_remove pings now p m)) ≡ true =
      rw elem-append at e in
    ground (arith, f, elem-collect pings now p j k (p.heap q), to_remove-known pings now p k m)

-- What a round that does not panic leaves.
pub record HealthRound (pings : String → Bool) (now : ℕ) (p q : RuntimePool) : Type 0 where
  pub survivors : (k : String) → lookup k q.all_vms ≡ survivor pings now p k (lookup k p.all_vms)
  pub same_queue : q.warm_vms ≡ p.warm_vms

-- Where no warm VM is both silent and too old, a round ends. It unregisters exactly the warm VMs
-- that do not answer or are too old, and it leaves the queue as it was.
pub run_health_checks-HealthRound :
    (pings : String → Bool) (now : ℕ) (p : RuntimePool)
    → Distinct (keys p.all_vms)
    → NoneDeadAndOld pings now p p.all_vms
    → (q : RuntimePool) × (run_health_checks pings now p ≡ some q) × HealthRound pings now p q
unfolding run_health_checks
run_health_checks-HealthRound pings now p d n =
    let ids = to_remove pings now p p.all_vms in
    (
      destroy_all ids p,
      remove_all-Distinct ids p (to_remove-Distinct pings now p p.all_vms d n)
          (λ k. to_remove-known pings now p k p.all_vms),
      record {
        survivors =
            λ k. lookup-destroy_all ids k p ∙ sym (elem-to_remove pings now p k p.all_vms d);
        same_queue = destroy_all-queue ids p;
      },
    )
