-- ===== src/Scheduler/Work/Writes.antt =====
-- Which invocation a worker writes (internal/scheduler/scheduler.go `process`).
use function.Prelude.{
  ℕ, ◌≡◌, refl, ◌∙◌, Bool, true, false, String, Option, none, some, [], ◌∷◌, inl, inr, All, eqb,
  if◌then◌else◌, Bool-cases,
}
use function.Prelude.Int.{ℤ}
use function.Domain.Invocation.{Invocation, start, complete, fail, time_out}
use function.Domain.Invocation.Ends.{start-id, fail-id, complete-id, time_out-id}
use function.Scheduler.Work.{
  Services, WorkItem, Run, taken, Acquired, acquired, no_vm, Executed, responded, expired, broken,
  Execution, update, reply, fail_item, release, finish, after_execute, after_init, after_acquire,
  process,
}

module _ {J W : Type 0} (id : String) where
  -- The item's invocation and all that is written have the id.
  abbrev IsOf : Run J W → Type 0
  IsOf r =
      (r.item.invocation.invocation_id ≡ id)
      × All (λ (i : Invocation J). i.invocation_id ≡ id) r.writes

  update-IsOf :
      (change : Invocation J → Invocation J) (r : Run J W)
      → (change r.item.invocation).invocation_id ≡ r.item.invocation.invocation_id
      → IsOf r
      → IsOf (update change r)
  unfolding update
  update-IsOf change r keeps h = (keeps ∙ h.0, (keeps ∙ h.0, h.1))

  reply-IsOf :
      (code : ℕ) (out : Option J) (message : String) (r : Run J W)
      → IsOf r
      → IsOf (reply code out message r)
  unfolding reply
  reply-IsOf code out message r h = elim (Bool-cases r.item.wants_reply) [
    | inl wants ↦ rw wants h
    | inr unwanted ↦ rw unwanted h
  ]

  module _ (services : Services J W) where
    ends-id :
        (b : Bool) (now : ℤ) (message : String) (i : Invocation J)
        → ((if b then time_out now else fail now message) i).invocation_id ≡ i.invocation_id
    ends-id true now message i = time_out-id now i
    ends-id false now message i = fail-id now i message

    fail_item-IsOf :
        (message : String) (code : ℕ) (r : Run J W)
        → IsOf r
        → IsOf (fail_item services message code r)
    unfolding fail_item
    fail_item-IsOf message code r h = reply-IsOf code none message _ (
        update-IsOf
          (if eqb code 504
            then time_out (services.clock r.world)
            else fail (services.clock r.world) message)
          r (ends-id (eqb code 504) (services.clock r.world) message r.item.invocation) h)

    if_IsOf : (b : Bool) (x y : Run J W) → IsOf x → IsOf y → IsOf (if b then x else y)
    if_IsOf true x y h k = h
    if_IsOf false x y h k = k

    finish-IsOf : (x : Execution J) (r : Run J W) → IsOf r → IsOf (finish services x r)
    unfolding finish
    finish-IsOf x r h =
        let now = services.clock r.world in
        if_IsOf x.success _ _
          (reply-IsOf 200 (some x.output) x.execution_error _ (
            update-IsOf (complete now x.output x.memory_used) r
              (complete-id now r.item.invocation x.output x.memory_used) h))
          (reply-IsOf 500 (some x.output) x.execution_error _ (
            update-IsOf (fail now x.execution_error) r
              (fail-id now r.item.invocation x.execution_error) h))

    after_execute-IsOf :
        (vm : String) (x : Executed J) (r : Run J W) → IsOf r → IsOf (after_execute services vm x r)
    unfolding after_execute release
    after_execute-IsOf vm (responded x) r h = finish-IsOf x (release services vm r) h
    after_execute-IsOf vm (expired e) r h = fail_item-IsOf _ 504 (release services vm r) h
    after_execute-IsOf vm (broken e) r h = fail_item-IsOf _ 500 (release services vm r) h

    after_init-IsOf :
        (vm : String) (e : Option String) (r : Run J W) → IsOf r → IsOf (after_init services vm e r)
    unfolding after_init release
    after_init-IsOf vm (some e) r h = fail_item-IsOf _ 500 (release services vm r) h
    after_init-IsOf vm none r h =
        let i = r.item.invocation in
        let out =
          services.execute r.world vm i.invocation_id i.input r.item.item_function.timeout_sec in
        after_execute-IsOf vm (out.1) (record r { world = out.0 }) h

    after_acquire-IsOf : (a : Acquired) (r : Run J W) → IsOf r → IsOf (after_acquire services a r)
    unfolding after_acquire
    after_acquire-IsOf (no_vm e) r h = fail_item-IsOf _ 500 r h
    after_acquire-IsOf (acquired vm cold) r h = after_init-IsOf vm _ _ (
        update-IsOf (start (services.clock r.world) vm cold) (record r { pool = taken vm ∷ r.pool })
          (start-id (services.clock r.world) r.item.invocation vm cold) h)

pub process_writes :
    {J W : Type 0} (services : Services J W) (it : WorkItem J) (w : W)
    → All
        (λ (i : Invocation J). i.invocation_id ≡ it.invocation.invocation_id)
        (process services it w).writes
unfolding process
process_writes services it w =
    let out = services.acquire_vm w it.item_function.runtime in
    (after_acquire-IsOf it.invocation.invocation_id services (out.1)
      (record { world = out.0; item = it; writes = []; pool = []; replies = [] }) (refl, tt)).1
