-- ===== src/Workflow/Engine/Outcome.antt =====
-- What the store keeps of an execution when a worker leaves it
-- (internal/workflow/engine.go `executeWorkflowTask`, `completeExecution`, `pauseExecution`).
use function.Prelude.{
  ℕ, String, ◌≡◌, refl, ap, ◌∙◌, Bool, true, false, Option, none, some, List, [], ◌∷◌,
  if◌then◌else◌, All, Map, lookup, set, ◌==◌, eq_refl, lookup-set,
}
use function.Workflow.Types.{
  State, States, ExecutionStatus, Cause, Execution, StateResult, find_state, succeeded, failed,
  timeout, paused, timed_out, state_not_found,
}
use mathlib.Core.Path.{subst}
use function.Workflow.Json.{Raw, absent}
use function.Workflow.Executor.{Services, Step, done, panicked, out_of_fuel}
use function.Workflow.States.{execute_state}
use function.Workflow.Engine.{
  Engine, update_execution, write_row, is_cancelled, is_late, finished, paused_at_breakpoint,
}
use function.Workflow.Engine.Worker.{
  Round, write, Exit, shut_down, lost_execution, was_cancelled, over_time, at_breakpoint,
  no_such_state, failed_state, succeeded_state, crashed, still_running, no_fuel, Loop, after_result,
  after_step, run_state, checked, main_loop,
}

-- The status that a worker writes on its way out, where it writes one.
unfoldable pub status_of : Exit → Option ExecutionStatus
status_of over_time = some timeout
status_of at_breakpoint = some paused
status_of no_such_state = some failed
status_of failed_state = some failed
status_of succeeded_state = some succeeded
status_of _ = none

module _ {F : Type 0} where
  abbrev pub Present : String → Map (Execution F) → Type 0
  Present id m = (e : Execution F) × (lookup id m ≡ some e)

  abbrev pub HasStatus : String → ExecutionStatus → Map (Execution F) → Type 0
  HasStatus id st m = (e : Execution F) × (lookup id m ≡ some e) × (e.status ≡ st)

  set_same :
      (exec : Execution F) (m : Map (Execution F))
      → lookup exec.execution_id (set exec.execution_id exec m) ≡ some exec
  set_same exec m = rw (lookup-set, eq_refl)

  pub lookup-update_execution :
      (exec : Execution F) (m : Map (Execution F))
      → Present exec.execution_id m
      → lookup exec.execution_id (update_execution exec m) ≡ some exec
  unfolding update_execution write_row
  lookup-update_execution exec m (old, h) =
      ap (λ o. lookup exec.execution_id (write_row o exec m)) h ∙ set_same exec m

  -- The others never drop the row of the execution, and the store takes the write with which the worker
  -- leaves.
  abbrev pub Keeps : String → Round F → Type 0
  Keeps id round =
      ((m : Map (Execution F)) → Present id m → Present id (round.before m))
      × ((m : Map (Execution F)) → Present id m → Present id (round.during m))
      × (round.ends ≡ true)

module _ {F W : Type 0} where
  abbrev Recorded : String → Engine F W × Exit → Type 0
  Recorded id out =
      (st : ExecutionStatus) → status_of (out.1) ≡ some st → HasStatus id st out.0.executions

  not-Recorded : (id : String) (x : Exit) (g : Engine F W) → status_of x ≡ none → Recorded id (g, x)
  not-Recorded id x g h st k = cc (h, k)

  if_Recorded :
      (id : String) (b : Bool) (x y : Engine F W × Exit)
      → Recorded id x
      → Recorded id y
      → Recorded id (if b then x else y)
  if_Recorded id true x y h k = h
  if_Recorded id false x y h k = k

module _ {F W : Type 0} (services : Services F W) (print : Cause → String) where
  write-Recorded :
      (round : Round F) (exec : Execution F) (st : ExecutionStatus) (x : Exit) (g : Engine F W)
      → round.ends ≡ true
      → status_of x ≡ some st
      → exec.status ≡ st
      → Present exec.execution_id g.executions
      → Recorded exec.execution_id (write services print round.ends exec g, x)
  unfolding write update_execution
  write-Recorded round exec st x g ends h k here st' h' =
      rw ends (exec, lookup-update_execution exec g.executions here, cc (h, k, h'))

  -- The rest of the loop records what it ends in, for any execution of this id that is still there.
  abbrev Next : String → Loop services print → Type 0
  Next id next =
      (exec : Execution F) (current : String) (given : Raw F) (g : Engine F W)
      → exec.execution_id ≡ id
      → Present id g.executions
      → Recorded id (next exec current given g)

  after_result-Recorded :
      (error : Option Cause) (next : Loop services print) (round : Round F) (exec : Execution F)
      (res : StateResult F) (g : Engine F W)
      → Next exec.execution_id next
      → round.ends ≡ true
      → Present exec.execution_id g.executions
      → Recorded exec.execution_id (after_result services print error next round exec res g)
  unfolding after_result finished status_of
  after_result-Recorded (some cause) next round exec res g rest ends here =
      if_Recorded exec.execution_id (res.caught_by_state == "") _ _
        (write-Recorded round (finished round.now absent res.result_code (some cause) failed exec)
          failed failed_state g ends refl refl here)
        (rest exec _ _ g refl here)
  after_result-Recorded none next round exec res g rest ends here =
      if_Recorded exec.execution_id (res.next_state == "") _ _
        (write-Recorded round (finished round.now res.result_output "" none succeeded exec)
          succeeded succeeded_state g ends refl refl here)
        (rest exec _ _ g refl here)

  after_step-Recorded :
      (next : Loop services print) (round : Round F) (exec : Execution F) (g : Engine F W)
      (out : Step F W (StateResult F))
      → Next exec.execution_id next
      → Keeps exec.execution_id round
      → Present exec.execution_id g.executions
      → Recorded exec.execution_id (after_step services print next round exec g out)
  unfolding after_step status_of
  after_step-Recorded next round exec g (done res r) rest keeps here =
      after_result-Recorded res.result_error next round exec res
        (record g { executions = round.during g.executions; run = r }) rest keeps.2
        (keeps.1 g.executions here)
  after_step-Recorded next round exec g panicked rest keeps here =
      not-Recorded exec.execution_id crashed g refl
  after_step-Recorded next round exec g out_of_fuel rest keeps here =
      not-Recorded exec.execution_id no_fuel g refl

  write-Present :
      (saved : Bool) (exec : Execution F) (g : Engine F W)
      → Present exec.execution_id g.executions
      → Present exec.execution_id (write services print saved exec g).executions
  unfolding write update_execution
  write-Present true exec g here = (exec, lookup-update_execution exec g.executions here)
  write-Present false exec g here = here

  run_state-Recorded :
      (fuel : ℕ) (next : Loop services print) (round : Round F) (exec : Execution F)
      (current : String) (given : Raw F) (s : Option (State F)) (g : Engine F W)
      → Next exec.execution_id next
      → Keeps exec.execution_id round
      → Present exec.execution_id g.executions
      → Recorded exec.execution_id (run_state services print fuel next round exec current given s g)
  unfolding run_state finished status_of
  run_state-Recorded fuel next round exec current given none g rest keeps here =
      write-Recorded round
        (finished round.now absent "States.InvalidState" (some (state_not_found current)) failed
          exec)
        failed no_such_state g keeps.2 refl refl here
  run_state-Recorded fuel next round exec current given (some s) g rest keeps here =
      let exec' : Execution F = record exec { current_state = current } in
      after_step-Recorded next round exec' (write services print round.saves exec' g)
        (execute_state services fuel current s given (write services print round.saves exec' g).run)
        rest keeps (write-Present round.saves exec' g here)

  checked-Recorded :
      (fuel : ℕ) (body : States F) (next : Loop services print) (round : Round F)
      (exec : Execution F) (current : String) (given : Raw F) (g : Engine F W)
      (latest : Option (Execution F))
      → Next exec.execution_id next
      → Keeps exec.execution_id round
      → lookup exec.execution_id g.executions ≡ latest
      → Recorded exec.execution_id
          (checked services print fuel body next round exec current given g latest)
  unfolding checked finished paused_at_breakpoint status_of
  checked-Recorded fuel body next round exec current given g none rest keeps h =
      not-Recorded exec.execution_id lost_execution g refl
  checked-Recorded fuel body next round exec current given g (some latest) rest keeps h =
      if_Recorded exec.execution_id (is_cancelled latest.status) _ _
        (not-Recorded exec.execution_id was_cancelled g refl)
        (if_Recorded exec.execution_id (is_late exec round.now) _ _
          (write-Recorded round
            (finished round.now absent "States.Timeout" (some timed_out) timeout exec) timeout
            over_time g keeps.2 refl refl (latest, h))
          (if_Recorded exec.execution_id round.breakpoint _ _
            (write-Recorded round (paused_at_breakpoint round.now current given exec) paused
              at_breakpoint g keeps.2 refl refl (latest, h))
            (run_state-Recorded fuel next round exec current given (find_state current body) g rest
              keeps (latest, h))))

  main_loop_recorded :
      (fuel : ℕ) (body : States F) (rounds : List (Round F)) (id : String)
      → All (Keeps id) rounds
      → Next id (main_loop services print fuel body rounds)
  unfolding main_loop status_of
  main_loop_recorded fuel body [] id keeps exec current given g h here =
      not-Recorded id still_running g refl
  main_loop_recorded fuel body (round ∷ rounds) id keeps exec current given g h here =
      let g' : Engine F W = record g { executions = round.before g.executions } in
      let loop : Engine F W × Exit =
        main_loop services print fuel body (round ∷ rounds) exec current given g in
      subst (λ i. All (Keeps i) (round ∷ rounds) → Present i g.executions → Recorded i loop) h
        (λ ks there.
          let (latest, found) = ks.0.0 g.executions there in
          if_Recorded exec.execution_id round.shutdown _ _
            (not-Recorded exec.execution_id shut_down g' refl)
            (checked-Recorded fuel body (main_loop services print fuel body rounds) round exec
              current given g' (lookup exec.execution_id g'.executions)
              (main_loop_recorded fuel body rounds exec.execution_id ks.1) ks.0 refl))
        keeps here

  -- A worker that leaves an execution over time, at a breakpoint, at a state that fails or is not
  -- there, or at its end, leaves it in the store with the status that says so, whatever the others
  -- write meanwhile, a cancellation too, as long as they keep its row and the store takes that write.
  pub main_loop_status :
      (fuel : ℕ) (body : States F) (rounds : List (Round F)) (exec : Execution F) (current : String)
      (given : Raw F) (g : Engine F W) (st : ExecutionStatus)
      → All (Keeps exec.execution_id) rounds
      → Present exec.execution_id g.executions
      → status_of (main_loop services print fuel body rounds exec current given g).1 ≡ some st
      → HasStatus exec.execution_id st
          (main_loop services print fuel body rounds exec current given g).0.executions
  main_loop_status fuel body rounds exec current given g st keeps here h =
      main_loop_recorded fuel body rounds exec.execution_id keeps exec current given g refl here st
        h
