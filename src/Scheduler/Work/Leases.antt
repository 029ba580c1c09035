-- ===== src/Scheduler/Work/Leases.antt =====
-- What a worker does with an item, whatever happens (internal/scheduler/scheduler.go `process`).
use function.Prelude.{
  ℕ, ◌≡◌, refl, ◌⊎◌, inl, inr, Bool, true, false, List, [], ◌∷◌, String, Option, none, some, ap,
  ◌∙◌, eqb, if◌then◌else◌, Bool-cases, length,
}
use function.Domain.Invocation.{Invocation, complete, fail, time_out}
use function.Prelude.Int.{ℤ}
use function.Domain.Invocation.Ends.{is_final, fail-status, complete-status, time_out-status}
use function.Scheduler.Work.{
  Services, WorkItem, PoolEvent, taken, given_back, Run, Acquired, acquired, no_vm, Executed,
  responded, expired, broken, Execution, update, reply, fail_item, release, finish, after_execute,
  after_init, after_acquire, process,
}

-- The item is answered once, if an answer is wanted, and its invocation has ended and is stored so.
pub record IsSettled {J W : Type 0} (r : Run J W) : Type 0 where
  pub answered : length r.replies ≡ (if r.item.wants_reply then 1 else 0)
  pub ended : is_final r.item.invocation.status ≡ true
  pub stored : (rest : List (Invocation J)) × (r.writes ≡ r.item.invocation ∷ rest)

-- No VM was taken, or one was taken and given back.
abbrev pub IsReturned : List PoolEvent → Type 0
IsReturned es = (es ≡ []) ⊎ ((vm : String) × (es ≡ given_back vm ∷ taken vm ∷ []))

ended_by :
    {J : Type 0} (b : Bool) (now : ℤ) (message : String) (i : Invocation J)
    → is_final ((if b then time_out now else fail now message) i).status ≡ true
ended_by true now message i = ap is_final (time_out-status now i)
ended_by false now message i = ap is_final (fail-status now i message)

module _ {J W : Type 0} where
  -- A run that has not answered, whose invocation is ended and then answered.
  Settles : Run J W → Run J W → Type 0
  Settles r out = IsSettled out × (out.pool ≡ r.pool) × (out.item.wants_reply ≡ r.item.wants_reply)

  reply-Settles :
      (change : Invocation J → Invocation J) (code : ℕ) (out : Option J) (message : String)
      (r : Run J W)
      → r.replies ≡ []
      → is_final (change r.item.invocation).status ≡ true
      → Settles r (reply code out message (update change r))
  unfolding update reply Settles
  reply-Settles change code out message r none_yet ends = elim (Bool-cases r.item.wants_reply) [
    | inl wanted ↦ rw wanted (
      record { answered = rw none_yet refl; ended = ends; stored = (r.writes, refl) },
      refl,
      refl,
    )
    | inr unwanted ↦ rw unwanted (
      record { answered = rw none_yet refl; ended = ends; stored = (r.writes, refl) },
      refl,
      refl,
    )
  ]

module _ {J W : Type 0} (services : Services J W) where
  fail_item-Settles :
      (message : String) (code : ℕ) (r : Run J W)
      → r.replies ≡ []
      → Settles r (fail_item services message code r)
  unfolding fail_item
  fail_item-Settles message code r h =
      reply-Settles
        (if eqb code 504
          then time_out (services.clock r.world)
          else fail (services.clock r.world) message)
        code none message r h
        (ended_by (eqb code 504) (services.clock r.world) message r.item.invocation)

  if_Settles :
      (b : Bool) (r x y : Run J W) → Settles r x → Settles r y → Settles r (if b then x else y)
  if_Settles true r x y h k = h
  if_Settles false r x y h k = k

  finish-Settles :
      (x : Execution J) (r : Run J W) → r.replies ≡ [] → Settles r (finish services x r)
  unfolding finish
  finish-Settles x r h =
      let now = services.clock r.world in
      if_Settles x.success r _ _
        (reply-Settles (complete now x.output x.memory_used) 200 (some x.output) x.execution_error r
          h (ap is_final (complete-status now r.item.invocation x.output x.memory_used)))
        (reply-Settles (fail now x.execution_error) 500 (some x.output) x.execution_error r h
          (ap is_final (fail-status now r.item.invocation x.execution_error)))

  -- The pool after a step that settles what follows a release.
  Returns : String → Run J W → Run J W → Type 0
  Returns vm r out =
      IsSettled out
      × (out.pool ≡ given_back vm ∷ r.pool)
      × (out.item.wants_reply ≡ r.item.wants_reply)

  released :
      (vm : String) (r out : Run J W) → Settles (release services vm r) out → Returns vm r out
  unfolding Settles release Returns
  released vm r out h = h

  after_execute-Returns :
      (vm : String) (x : Executed J) (r : Run J W)
      → r.replies ≡ []
      → Returns vm r (after_execute services vm x r)
  unfolding after_execute release
  after_execute-Returns vm (responded x) r h =
      released vm r _ (finish-Settles x (release services vm r) h)
  after_execute-Returns vm (expired e) r h =
      released vm r _ (fail_item-Settles _ 504 (release services vm r) h)
  after_execute-Returns vm (broken e) r h =
      released vm r _ (fail_item-Settles _ 500 (release services vm r) h)

  after_init-Returns :
      (vm : String) (e : Option String) (r : Run J W)
      → r.replies ≡ []
      → Returns vm r (after_init services vm e r)
  unfolding after_init Returns release
  after_init-Returns vm (some e) r h =
      released vm r _ (fail_item-Settles _ 500 (release services vm r) h)
  after_init-Returns vm none r h =
      let i = r.item.invocation in
      let out =
        services.execute r.world vm i.invocation_id i.input r.item.item_function.timeout_sec in
      after_execute-Returns vm (out.1) (record r { world = out.0 }) h

  abbrev pub IsDone : WorkItem J → Run J W → Type 0
  IsDone it r = IsSettled r × IsReturned r.pool × (r.item.wants_reply ≡ it.wants_reply)

  after_acquire-IsDone :
      (a : Acquired) (r : Run J W)
      → r.replies ≡ []
      → r.pool ≡ []
      → IsDone r.item (after_acquire services a r)
  unfolding after_acquire Returns Settles update
  after_acquire-IsDone (no_vm e) r h p =
      let (settled, pool, wants) = fail_item-Settles _ 500 r h in (settled, inl (pool ∙ p), wants)
  after_acquire-IsDone (acquired vm cold) r h p =
      let (settled, pool, wants) = after_init-Returns vm _ _ h in
      (settled, inr (vm, pool ∙ ap (λ es. given_back vm ∷ taken vm ∷ es) p), wants)

  -- Whatever the pool, the VM and the store answer, a worker gives back each VM that it takes, once; it
  -- ends the invocation, stores it so as its last write, and answers once if an answer is wanted.
  pub process-IsDone : (it : WorkItem J) (w : W) → IsDone it (process services it w)
  unfolding process
  process-IsDone it w =
      let out = services.acquire_vm w it.item_function.runtime in
      after_acquire-IsDone (out.1)
        (record { world = out.0; item = it; writes = []; pool = []; replies = [] }) refl refl
