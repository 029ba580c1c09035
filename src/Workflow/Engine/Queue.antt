-- ===== src/Workflow/Engine/Queue.antt =====
-- The queue of the engine (internal/workflow/engine.go): its bound, and what the recovery puts in it.
use function.Prelude.{
  ◌≤◌, String, ◌≡◌, refl, sym, ap, ◌∙◌, Bool, true, false, not, Option, none, some, List, [], ◌∷◌,
  ◌++◌, arith, ltb, if◌then◌else◌, length, length-append, lookup, ◌==◌,
}
use function.Workflow.Types.{Workflow, Execution, is_terminal}
use mathlib.Core.List.{append-nil, append_assoc}
use function.Prelude.Int.{ℤ}
use function.Workflow.Json.{Raw, absent}
use function.Workflow.Engine.{
  Config, Task, Engine, is_active, is_paused, is_late, store, offer, list_pending_executions,
}
use function.Workflow.Engine.Api.{
  queued, resumed, start_execution, stop_execution, resume_execution, recover_one, recover_all,
  recover_pending_executions,
}

-- A property of both branches of a test, or of both cases of a lookup, holds of the choice.
if_both :
    {A : Type 0} (P : A → Type 0) (b : Bool) (x y : A)
    → (b ≡ true → P x)
    → P y
    → P (if b then x else y)
if_both P true x y h k = h refl
if_both P false x y h k = k

elim_both :
    {A B : Type 0} (P : B → Type 0) (o : Option A) (n : B) (f : A → B)
    → P n
    → ((a : A) → o ≡ some a → P (f a))
    → P (elim o [ none ↦ n | some a ↦ f a ])
elim_both P none n f h k = h
elim_both P (some a) n f h k = k a refl

-- The task that runs an execution from the start of its workflow.
abbrev pub restart : {F : Type 0} → Execution F → Workflow F → Task F
restart exec w = record { execution = exec; workflow = w; resume_state = ""; resume_input = absent }

module _ {F W : Type 0} (config : Config) where
  abbrev pub Bounded : Engine F W → Type 0
  Bounded g = length g.queue ≤ config.queue_size

  abbrev Out : {X : Type 0} → Engine F W × X → Type 0
  Out out = Bounded (out.0)

  -- The commands of the engine, as steps.
  pub data Command : Engine F W → Engine F W → Type 0 where
    starts :
        (id : String) (now : ℤ) (workflow_id : String) (given : Raw F) (g : Engine F W)
        → Command g (start_execution config id now workflow_id given g).0
    stops : (now : ℤ) (id : String) (g : Engine F W) → Command g (stop_execution now id g).0
    resumes :
        (id : String) (modified : Raw F) (g : Engine F W)
        → Command g (resume_execution config id modified g).0
    recovers : (now : ℤ) (g : Engine F W) → Command g (recover_pending_executions config now g)

  offer_bound : (t : Task F) (g g' : Engine F W) → offer config t g ≡ some g' → Bounded g'
  unfolding offer
  offer_bound t g g' h = ground (arith, length-append g.queue (t ∷ []))

  queued_bound :
      (now : ℤ) (exec : Execution F) (w : Workflow F) (g : Engine F W)
      → Bounded g
      → Bounded (queued config now exec w g).0
  unfolding queued
  queued_bound now exec w g h =
      elim_both Out (offer config _ g) _ _ h (λ g' offered. offer_bound _ g g' offered)

  start_bound :
      (id : String) (now : ℤ) (workflow_id : String) (given : Raw F) (g : Engine F W)
      → Bounded g
      → Bounded (start_execution config id now workflow_id given g).0
  unfolding start_execution
  start_bound id now workflow_id given g h =
      elim_both Out (lookup workflow_id g.workflows) _ _ h (λ w found.
        if_both Out (is_active w.workflow_status) _ _ (λ active. queued_bound now _ w _ h) h)

  recover_one_bound :
      (now : ℤ) (exec : Execution F) (g : Engine F W)
      → Bounded g
      → Bounded (recover_one config now exec g)
  unfolding recover_one
  recover_one_bound now exec g h =
      if_both Bounded (is_late exec now) _ _ (λ late. h)
        (elim_both Bounded (lookup exec.workflow_id g.workflows) _ _ h (λ w found.
          elim_both Bounded (offer config _ g) _ _ h (λ g' offered. offer_bound _ g g' offered)))

  recover_all_bound :
      (now : ℤ) (execs : List (Execution F)) (g : Engine F W)
      → Bounded g
      → Bounded (recover_all config now execs g)
  unfolding recover_all
  recover_all_bound now [] g h = h
  recover_all_bound now (exec ∷ execs) g h =
      recover_all_bound now execs (recover_one config now exec g) (recover_one_bound now exec g h)

  resume_bound :
      (id : String) (modified : Raw F) (g : Engine F W)
      → Bounded g
      → Bounded (resume_execution config id modified g).0
  unfolding resume_execution resumed
  resume_bound id modified g h = elim_both Out (lookup id g.executions) _ _ h (λ exec found.
      if_both Out (not (is_paused exec.status)) _ _ (λ other. h)
        (if_both Out (exec.paused_at_state == "") _ _ (λ nowhere. h)
          (elim_both Out (lookup exec.workflow_id g.workflows) _ _ h (λ w known.
            elim_both Out (offer config _ g) _ _ h (λ g' offered. offer_bound _ g g' offered)))))

  stop_bound :
      (now : ℤ) (id : String) (g : Engine F W) → Bounded g → Bounded (stop_execution now id g).0
  unfolding stop_execution store
  stop_bound now id g h =
      elim_both Out (lookup id g.executions) _ _ h
        (λ exec found. if_both Out (is_terminal exec.status) _ _ (λ over. h) h)

  -- No command of the engine puts more tasks in the queue than it holds.
  pub commands_bound : (g g' : Engine F W) → Command g g' → Bounded g → Bounded g'
  commands_bound _ _ (starts id now workflow_id given g) h =
      start_bound id now workflow_id given g h
  commands_bound _ _ (stops now id g) h = stop_bound now id g h
  commands_bound _ _ (resumes id modified g) h = resume_bound id modified g h
  commands_bound _ _ (recovers now g) h =
      unfold recover_pending_executions in
      recover_all_bound now (list_pending_executions 100 g.executions) g h

  offer_queue :
      (t : Task F) (g g' : Engine F W) → offer config t g ≡ some g' → g'.queue ≡ g.queue ++ (t ∷ [])
  unfolding offer
  offer_queue t g g' h = ground arith

  -- What the recovery adds to the queue.
  abbrev Grows : Engine F W → Engine F W → Type 0
  Grows g g' = (ts : List (Task F)) × (g'.queue ≡ g.queue ++ ts)

  recover_one-Grows :
      (now : ℤ) (exec : Execution F) (g : Engine F W) → Grows g (recover_one config now exec g)
  unfolding recover_one offer
  recover_one-Grows now exec g =
      if_both (Grows g) (is_late exec now) _ _ (λ late. ([], sym (append-nil g.queue)))
        (elim_both (Grows g) (lookup exec.workflow_id g.workflows) _ _
          ([], sym (append-nil g.queue))
          (λ w found.
            elim_both (Grows g) (offer config (restart exec w) g) _ _ ([], sym (append-nil g.queue))
              (λ g' offered. (restart exec w ∷ [], offer_queue (restart exec w) g g' offered))))

  recover_all-Grows :
      (now : ℤ) (execs : List (Execution F)) (g : Engine F W)
      → Grows g (recover_all config now execs g)
  unfolding recover_all
  recover_all-Grows now [] g = ([], sym (append-nil g.queue))
  recover_all-Grows now (exec ∷ execs) g =
      let (ts, first) = recover_one-Grows now exec g in
      let (us, more) = recover_all-Grows now execs (recover_one config now exec g) in
      (ts ++ us, more ∙ ap (λ q. q ++ us) first ∙ append_assoc g.queue ts us)

  -- The recovery queues the oldest pending or running execution from its start again, if it is not late,
  -- its workflow is known and the queue has room: it does not ask whether a worker has it already.
  pub recover_requeues :
      (now : ℤ) (exec : Execution F) (execs : List (Execution F)) (w : Workflow F) (g : Engine F W)
      → list_pending_executions 100 g.executions ≡ exec ∷ execs
      → is_late exec now ≡ false
      → lookup exec.workflow_id g.workflows ≡ some w
      → ltb (length g.queue) config.queue_size ≡ true
      → (ts : List (Task F)) × ((recover_pending_executions config now g).queue
          ≡ g.queue ++ (restart exec w ∷ ts))
  unfolding recover_pending_executions recover_all recover_one offer
  recover_requeues now exec execs w g listed early known room =
      let g1 : Engine F W = record g { queue = g.queue ++ (restart exec w ∷ []) } in
      let (ts, more) = recover_all-Grows now execs g1 in
      let one : recover_one config now exec g ≡ g1 =
        rw (early, known, recover_one, room, offer) refl in
      (
        ts,
        ap (λ es. (recover_all config now es g).queue) listed
            ∙ ap (λ x. (recover_all config now execs x).queue) one
            ∙ more
            ∙ append_assoc g.queue (restart exec w ∷ []) ts,
      )
