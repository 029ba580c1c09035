-- ===== src/VmPool/Queue.antt =====
-- What the queue of warm VMs keeps through the parts of the pool's operations (internal/vmpool/pool.go).
pub mod Operations
use function.Prelude.{
  ℕ, ◌+◌, ◌-◌, ◌≤◌, String, ◌≡◌, refl, ap, ◌∙◌, ◌⊎◌, inl, inr, true, false, some, List, [], ◌∷◌,
  ◌++◌, arith, ltb, Bool-cases, length, length-append, elem, elem-append, lookup, ◌==◌, eq_iff,
  lookup-set, lookup-delete, length-set-le, length-delete-le,
}
use function.VmPool.{warm, PooledVm, RuntimePool, offer, store, register, destroy, take_warm}
use function.VmPool.Invariant.{
  Distinct, elem-cons_tail, elem_tail_ne, elem-Distinct_snoc, elem-snoc_inv,
}

-- What holds of the queue: its VMs are warm, none stands in it twice, they are no more than it holds, and
-- one that is not registered any more was stopped by a round of health checks.
pub record IsQueued (p : RuntimePool) : Type 0 where
  pub keyed : (k q : String) → lookup k p.all_vms ≡ some q → q ≡ k
  pub known :
      (k : String)
      → elem k p.warm_vms ≡ true
      → (lookup k p.all_vms ≡ some k) ⊎ (elem k p.stopped ≡ true)
  pub idle : (k : String) → elem k p.warm_vms ≡ true → (p.heap k).status ≡ warm
  pub distinct : Distinct p.warm_vms
  pub capacity : length p.warm_vms ≤ p.config.max_total

-- What an operation does that may stop VMs and registers at most `n`.
pub record Keeps (n : ℕ) (p q : RuntimePool) : Type 0 where
  pub good : IsQueued p → IsQueued q
  pub grows : length q.all_vms ≤ length p.all_vms + n
  pub unchanged : q.config ≡ p.config

pub same-Keeps : (n : ℕ) (p : RuntimePool) → Keeps n p p
same-Keeps n p = record { good = λ g. g; grows = omega arith; unchanged = refl }

known_more : (k : String) (xs ys : List String) → elem k xs ≡ true → elem k (xs ++ ys) ≡ true
known_more k xs ys h = rw elem-append (ground arith)

pub stopped-Keeps :
    (n : ℕ) (id : String) (p : RuntimePool)
    → Keeps n p (record p { stopped = p.stopped ++ id ∷ [] })
stopped-Keeps n id p = record {
  good = λ g. record {
    keyed = g.keyed;
    known = λ k m. elim (g.known k m) [
      | inl there ↦ inl there
      | inr gone ↦ inr (known_more k p.stopped (id ∷ []) gone)
    ];
    idle = g.idle;
    distinct = g.distinct;
    capacity = g.capacity;
  };
  grows = omega arith;
  unchanged = refl;
}

snoc_self : (id k : String) (xs : List String) → id == k ≡ true → elem k (xs ++ id ∷ []) ≡ true
unfolding elem
snoc_self id k xs h = rw elem-append (ground arith)

pub destroy-Keeps : (id : String) (p : RuntimePool) → Keeps 0 p (destroy id p)
unfolding destroy
destroy-Keeps id p = record {
  good = λ g. record {
    keyed = λ k q. rw lookup-delete (λ m. ground (arith, g.keyed k q, eq_iff id k));
    known = λ k m. elim (Bool-cases (id == k)) [
      | inl self ↦ inr (snoc_self id k p.stopped self)
      | inr other ↦ elim (g.known k m) [
        | inl there ↦ inl (lookup-delete id k p.all_vms ∙ rw other there)
        | inr gone ↦ inr (known_more k p.stopped (id ∷ []) gone)
      ]
    ];
    idle = g.idle;
    distinct = g.distinct;
    capacity = g.capacity;
  };
  grows = omega (arith, length-delete-le id p.all_vms);
  unchanged = refl;
}

pub take_warm-Keeps :
    (id : String) (rest : List String) (now : ℕ) (p : RuntimePool)
    → p.warm_vms ≡ id ∷ rest
    → Keeps 0 p (take_warm id rest now p)
unfolding take_warm store
take_warm-Keeps id rest now p e = record {
  good = λ g.
      let d : Distinct (id ∷ rest) = rw e at g.distinct in
      record {
        keyed = g.keyed;
        known = λ k m. g.known k (rw e (elem-cons_tail id k rest m));
        idle =
            λ k m. rw (elem_tail_ne id k rest d.0 m) (g.idle k (rw e (elem-cons_tail id k rest m)));
        distinct = d.1;
        capacity = omega (arith, g.capacity, ap length e);
      };
  grows = omega arith;
  unchanged = refl;
}

pub then-Keeps : (m n : ℕ) (p q r : RuntimePool) → Keeps m p q → Keeps n q r → Keeps (m + n) p r
then-Keeps m n p q r a b = record {
  good = λ g. b.good (a.good g);
  grows = omega (arith, a.grows, b.grows);
  unchanged = b.unchanged ∙ a.unchanged;
}

-- A write to a VM that is not in the queue.
pub write-Keeps :
    (id : String) (vm : PooledVm) (p : RuntimePool)
    → (IsQueued p → elem id p.warm_vms ≡ false)
    → Keeps 0 p (record p { heap = store p.heap id vm })
unfolding store
write-Keeps id vm p out = record {
  good = λ g. record {
    keyed = g.keyed;
    known = g.known;
    idle = λ k m. rw (elem_tail_ne id k p.warm_vms (out g) m) (g.idle k m);
    distinct = g.distinct;
    capacity = g.capacity;
  };
  grows = omega arith;
  unchanged = refl;
}

pub register-Keeps : (id : String) (p : RuntimePool) → Keeps 1 p (register id p)
unfolding register
register-Keeps id p = record {
  good = λ g. record {
    keyed = λ k q. rw lookup-set (λ m. ground (arith, g.keyed k q, eq_iff id k));
    known = λ k m. elim (Bool-cases (id == k)) [
      | inl self ↦ inl (lookup-set id k id p.all_vms ∙ rw self (ap some ((eq_iff id k).0 self)))
      | inr other ↦ elim (g.known k m) [
        | inl there ↦ inl (lookup-set id k id p.all_vms ∙ rw other there)
        | inr gone ↦ inr gone
      ]
    ];
    idle = g.idle;
    distinct = g.distinct;
    capacity = g.capacity;
  };
  grows = omega (arith, length-set-le id id p.all_vms);
  unchanged = refl;
}

pub offer-Keeps :
    (id : String) (p : RuntimePool)
    → (IsQueued p → elem id p.warm_vms ≡ false)
    → (IsQueued p → lookup id p.all_vms ≡ some id)
    → (p.heap id).status ≡ warm
    → Keeps 0 p (offer id p).1
unfolding offer
offer-Keeps id p out there w = elim (Bool-cases (ltb (length p.warm_vms) p.config.max_total)) [
  | inr full ↦ rw full (same-Keeps 0 p)
  | inl room ↦ rw room (record {
    good = λ g. record {
      keyed = g.keyed;
      known = λ k m. elim (elem-snoc_inv id k p.warm_vms m) [
        | inl before ↦ g.known k before
        | inr self ↦ inl (ground (arith, there g, eq_iff id k))
      ];
      idle = λ k m. ground (arith, elem-snoc_inv id k p.warm_vms m, g.idle k, eq_iff id k);
      distinct = elem-Distinct_snoc p.warm_vms id g.distinct (out g);
      capacity = ground (arith, length-append p.warm_vms (id ∷ []));
    };
    grows = omega arith;
    unchanged = refl;
  })
]
