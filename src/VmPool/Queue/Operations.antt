-- ===== src/VmPool/Queue/Operations.antt =====
-- The queue through the operations of callers and workers (internal/vmpool/pool.go).
use function.Prelude.{
  ℕ, String, ◌≡◌, ap, ◌∙◌, inl, inr, Bool, true, false, Option, none, some, List, [], ◌∷◌, arith,
  Bool-cases, elem, lookup, eq_refl, lookup-set,
}
use mathlib.Core.Path.{subst}
use function.VmPool.{
  cold_start, warm, busy, RuntimePool, Boot, no_machine, no_connection, no_ping, booted,
  acquire_from, release_found, create_warm_vm, continue_warm, create_vm, offer, store, register,
  resume_from, is_spent, destroy,
}
use function.VmPool.Workers.{remove_all}
use function.VmPool.Calls.{store_self_status}
use function.VmPool.Queue.{
  IsQueued, Keeps, same-Keeps, stopped-Keeps, destroy-Keeps, take_warm-Keeps, then-Keeps,
  write-Keeps, register-Keeps, offer-Keeps,
}

-- The machine manager gives a new VM an id that is not in the queue.
abbrev pub IsNew : Boot → RuntimePool → Type 0
IsNew (booted id) p = elem id p.warm_vms ≡ false
IsNew _ p = Unit

pub cold_start-Keeps :
    (boot : Boot) (now : ℕ) (p : RuntimePool) → IsNew boot p → Keeps 1 p (cold_start boot now p).1
unfolding cold_start
cold_start-Keeps no_machine now p new = same-Keeps 1 p
cold_start-Keeps (no_connection id) now p new = stopped-Keeps 1 id p
cold_start-Keeps (no_ping id) now p new = stopped-Keeps 1 id p
cold_start-Keeps (booted id) now p new =
    then-Keeps 0 1 p _ _
      (then-Keeps 0 0 p _ _ (write-Keeps id _ p (λ g. new)) (write-Keeps id _ _ (λ g. new)))
      (register-Keeps id _)

pub create_warm_vm-Keeps :
    (boot : Boot) (now : ℕ) (p : RuntimePool)
    → IsNew boot p
    → Keeps 1 p (create_warm_vm boot now p).1
unfolding create_warm_vm create_vm continue_warm register
create_warm_vm-Keeps no_machine now p new = same-Keeps 1 p
create_warm_vm-Keeps (no_connection id) now p new = stopped-Keeps 1 id p
create_warm_vm-Keeps (no_ping id) now p new = stopped-Keeps 1 id p
create_warm_vm-Keeps (booted id) now p new =
    then-Keeps 1 0 p _ _
      (then-Keeps 0 1 p _ _ (write-Keeps id _ p (λ g. new)) (register-Keeps id _))
      (offer-Keeps id _ (λ g. new) (λ g. rw (lookup-set, eq_refl)) (store_self_status p.heap id _))

pub acquire_from-Keeps :
    (ws : List String) (boot : Boot) (now : ℕ) (id : String) (rest : List String) (p : RuntimePool)
    → p.warm_vms ≡ ws
    → ws ≡ id ∷ rest
    → Keeps 0 p (acquire_from ws boot now p).1
unfolding acquire_from
acquire_from-Keeps (w ∷ ws) boot now id rest p e f = take_warm-Keeps w ws now p e
acquire_from-Keeps [] boot now id rest p e f = cc f

pub resume_from-Keeps :
    (ws : List String) (c : Bool) (now : ℕ) (p : RuntimePool)
    → p.warm_vms ≡ ws
    → Keeps 0 p (resume_from ws c now p).1
unfolding resume_from
resume_from-Keeps (id ∷ rest) c now p e = take_warm-Keeps id rest now p e
resume_from-Keeps [] true now p e = same-Keeps 0 p
resume_from-Keeps [] false now p e = same-Keeps 0 p

busy_out :
    (id : String) (p : RuntimePool)
    → (p.heap id).status ≡ busy
    → IsQueued p
    → elem id p.warm_vms ≡ false
busy_out id p b g = ground (arith, g.idle id)

removed :
    (o : Option String) (x : Option RuntimePool) (q : RuntimePool)
    → (elim o [ none ↦ none | some ptr ↦ x ]) ≡ some q
    → x ≡ some q
removed none x q e = cc e
removed (some ptr) x q e = e

pub remove_all-Keeps :
    (ids : List String) (p q : RuntimePool) → remove_all ids p ≡ some q → Keeps 0 p q
unfolding remove_all
remove_all-Keeps [] p q e = subst (Keeps 0 p) (cc e) (same-Keeps 0 p)
remove_all-Keeps (id ∷ ids) p q e =
    then-Keeps 0 0 p (destroy id p) q (destroy-Keeps id p)
      (remove_all-Keeps ids (destroy id p) q (removed (lookup id p.all_vms) _ q e))

pub release_found-Keeps :
    (o : Option String) (id : String) (stops : Bool) (now : ℕ) (p : RuntimePool)
    → lookup id p.all_vms ≡ o
    → (p.heap id).status ≡ busy
    → IsQueued p
    → Keeps 0 p (release_found o id stops now p).1
unfolding release_found
release_found-Keeps none id stops now p e b g = same-Keeps 0 p
release_found-Keeps (some ptr) id stops now p e b g =
    rw (g.keyed id ptr e) (elim (Bool-cases (is_spent p.config now (p.heap id))) [
      | inl spent ↦ rw spent (destroy-Keeps id p)
      | inr fresh ↦ rw fresh (elim (Bool-cases (offer id q).0) [
        | inl sent ↦ rw sent (
            then-Keeps 0 0 p q _ idle
              (offer-Keeps id q out (λ k. known) (store_self_status p.heap id _)))
        | inr full ↦ rw full (then-Keeps 0 0 p q _ idle (destroy-Keeps id q))
      ])
    ])
  where
    q : RuntimePool
    q = record p { heap = store p.heap id (record (p.heap id) { status = warm }) }

    out : IsQueued q → elem id p.warm_vms ≡ false
    out k = busy_out id p b g

    known : lookup id p.all_vms ≡ some id
    known = e ∙ ap some (g.keyed id ptr e)

    idle : Keeps 0 p q
    idle = write-Keeps id _ p (busy_out id p b)
