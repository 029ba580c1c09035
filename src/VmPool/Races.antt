-- ===== src/VmPool/Races.antt =====
-- Two ways in which the pool leaves its bounds (internal/vmpool/pool.go).
use function.Prelude.{
  ℕ, ◌+◌, ◌<◌, String, ◌≡◌, ap, ◌∙◌, Bool, true, false, none, some, List, [], ◌∷◌, arith, length,
  lookup, set, keys, ◌==◌, lookup-set, length-set_new,
}
use function.VmPool.{RuntimePool, ok, Boot, booted, acquire_vm, acquire_from, cold_start, register}
use function.VmPool.Invariant.{Distinct}
use function.VmPool.Workers.{run_health_checks}
use function.VmPool.Health.{NoneDeadAndOld, unfit, run_health_checks-HealthRound}

acquire_from_empty :
    (boot : Boot) (now : ℕ) (p : RuntimePool)
    → length p.all_vms < p.config.max_total
    → acquire_from [] boot now p ≡ cold_start boot now p
unfolding acquire_from
acquire_from_empty boot now p h = ground arith

-- A caller that sees room for a VM goes on as `cold_start`. Two callers that both see the last free
-- place before either registers its VM take the runtime to one more than `MaxTotal`.
pub cold_start_race :
    (a b : String) (now : ℕ) (p : RuntimePool)
    → p.warm_vms ≡ []
    → length p.all_vms + 1 ≡ p.config.max_total
    → lookup a p.all_vms ≡ none
    → lookup b p.all_vms ≡ none
    → a == b ≡ false
    → (acquire_vm (booted a) now p ≡ cold_start (booted a) now p)
      × (acquire_vm (booted b) now p ≡ cold_start (booted b) now p)
      × (length (cold_start (booted b) now (cold_start (booted a) now p).1).1.all_vms
          ≡ p.config.max_total + 1)
unfolding acquire_vm
cold_start_race a b now p e l fa fb ne = (
  ap (λ ws. acquire_from ws (booted a) now p) e ∙ acquire_from_empty (booted a) now p (omega arith),
  ap (λ ws. acquire_from ws (booted b) now p) e ∙ acquire_from_empty (booted b) now p (omega arith),
  unfold cold_start register in
      omega (
        arith,
        length-set_new a a p.all_vms fa,
        length-set_new b b (set a a p.all_vms) (rw lookup-set (ground arith)),
      ),
)

-- A round of health checks, of registered VMs with distinct ids of which no warm one is both silent and
-- too old, ends; it leaves the VMs that it stops in the queue, so that the next `AcquireVM` hands out the
-- first of the queue although the round has unregistered it, if it did not answer or was too old.
pub acquire_stopped :
    (pings : String → Bool) (now later : ℕ) (boot : Boot) (p : RuntimePool) (id : String)
    (rest : List String)
    → Distinct (keys p.all_vms)
    → NoneDeadAndOld pings now p p.all_vms
    → p.warm_vms ≡ id ∷ rest
    → lookup id p.all_vms ≡ some id
    → unfit pings now p id (p.heap id) ≡ true
    → (q : RuntimePool) × (run_health_checks pings now p ≡ some q)
      × ((acquire_vm boot later q).0 ≡ ok (id, false))
      × (lookup id q.all_vms ≡ none)
unfolding acquire_vm acquire_from
acquire_stopped pings now later boot p id rest d n e k u =
    let (q, ran, r) = run_health_checks-HealthRound pings now p d n in
    (q, ran, rw (r.same_queue, e), r.survivors id ∙ rw (k, u))
