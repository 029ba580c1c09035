-- ===== src/VmPool/Steps.antt =====
-- The callers and the workers of the pool at the same time (internal/vmpool/pool.go). A start of a VM is
-- in two steps, its test and its registration, since the pool is not locked while the VM boots; the other
-- operations are a step each.
use function.Prelude.{ℕ, ◌+◌, ◌-◌, ◌≤◌, ◌<◌, String, ◌≡◌, Bool, some, List, ◌∷◌, length}
use function.VmPool.{
  cold_start, busy, PooledVm, PoolConfig, RuntimePool, Boot, acquire_vm, release_vm, create_warm_vm,
  resume_acquire, new_pool,
}
use function.VmPool.Workers.{run_health_checks, to_create}
use function.VmPool.Queue.{IsQueued}
use function.VmPool.Queue.Operations.{IsNew}

-- A pool and the numbers of the VMs that callers and that the scaling worker are starting.
pub record System : Type 0 where
  pub pool : RuntimePool
  pub cold : ℕ
  pub warming : ℕ

-- A step, while at most `limit` starts are under way.
pub data Step (limit : ℕ) (s : System) : System → Type 0 where
  acquires :
      (boot : Boot) (now : ℕ) (id : String) (rest : List String)
      → s.pool.warm_vms ≡ id ∷ rest
      → Step limit s (record s { pool = (acquire_vm boot now s.pool).1 })
  resumes :
      (ctx_done : Bool) (now : ℕ)
      → Step limit s (record s { pool = (resume_acquire ctx_done now s.pool).1 })
  admits :
      length s.pool.all_vms < s.pool.config.max_total
      → s.cold + s.warming < limit
      → Step limit s (record s { cold = s.cold + 1 })
  starts :
      (boot : Boot) (now : ℕ)
      → 0 < s.cold
      → IsNew boot s.pool
      → Step limit s (record s { pool = (cold_start boot now s.pool).1; cold = s.cold - 1 })
  releases :
      (id : String) (stops : Bool) (now : ℕ)
      → (s.pool.heap id).status ≡ busy
      → Step limit s (record s { pool = (release_vm id stops now s.pool).1 })
  scales :
      s.cold + s.warming + to_create s.pool ≤ limit
      → Step limit s (record s { warming = s.warming + to_create s.pool })
  warms_up :
      (boot : Boot) (now : ℕ)
      → 0 < s.warming
      → IsNew boot s.pool
      → Step limit s
          (record s { pool = (create_warm_vm boot now s.pool).1; warming = s.warming - 1 })
  checks :
      (pings : String → Bool) (now : ℕ) (q : RuntimePool)
      → run_health_checks pings now s.pool ≡ some q
      → Step limit s (record s { pool = q })

pub data Reach (limit : ℕ) (s : System) : System → Type 0 where
  here : Reach limit s s
  next : {t u : System} → Reach limit s t → Step limit t u → Reach limit s u

pub record Inv (limit : ℕ) (s : System) : Type 0 where
  pub queue : IsQueued s.pool
  pub within : length s.pool.all_vms + s.cold + s.warming ≤ s.pool.config.max_total + (limit - 1)

-- `Start` of a new pool, which begins to warm up `MinWarm` VMs.
abbrev pub start : PoolConfig → (String → PooledVm) → System
start cfg heap = record { pool = new_pool cfg heap; cold = 0; warming = cfg.min_warm }
