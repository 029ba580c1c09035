-- ===== src/Workflow/Engine/Worker.antt =====
-- A worker of the engine (internal/workflow/engine.go `worker`, `executeWorkflowTask`). Its run is a
-- list of rounds, one for each turn of its loop, so that the others' writes can come in between.
use function.Prelude.{
  ℕ, String, Bool, true, false, Option, none, some, List, [], ◌∷◌, if◌then◌else◌, Map, lookup, ◌==◌,
}
use function.Workflow.Types.{
  State, States, Cause, Execution, StateResult, find_state, running, succeeded, failed, timeout,
  timed_out, state_not_found,
}
use function.Prelude.Int.{ℤ}
use function.Workflow.Json.{str, obj, end, field, Raw, absent, doc}
use function.Workflow.Executor.{Services, Step, done, panicked, out_of_fuel}
use function.Workflow.States.{execute_state}
use function.Workflow.Engine.{
  Task, Engine, update_execution, is_late, finished, paused_at_breakpoint, is_cancelled, store,
}

-- One turn of the worker's loop: what others write to the store before the worker reloads the
-- execution and while the state runs, whether the store takes the write before the state and the one
-- with which the worker leaves, the time, a breakpoint, and whether the engine stops.
pub record Round (F : Type 0) : Type 0 where
  pub before : Map (Execution F) → Map (Execution F)
  pub during : Map (Execution F) → Map (Execution F)
  pub saves : Bool
  pub ends : Bool
  pub now : ℤ
  pub breakpoint : Bool
  pub shutdown : Bool

-- How a worker leaves a task; `still_running` where the rounds are used up.
pub data Exit : Type 0 where
  shut_down lost_execution was_cancelled over_time at_breakpoint no_such_state : Exit
  failed_state succeeded_state update_failed crashed still_running no_fuel : Exit

module _ {F W : Type 0} (services : Services F W) (print : Cause → String) where
  error_data : String → Cause → Raw F
  error_data code cause =
      doc (obj (field "Cause" (str (print cause)) (field "Error" (str code) end)))

  -- A write whose error is only logged.
  unfoldable pub write : Bool → Execution F → Engine F W → Engine F W
  unfolding update_execution
  write true exec g = store exec g
  write false exec g = g

  abbrev pub Loop : Type 0
  Loop = Execution F → String → Raw F → Engine F W → Engine F W × Exit

  -- What the result of a state leads to: its error, if any; `next` is the rest of the loop.
  unfoldable pub after_result :
      Option Cause → Loop → Round F → Execution F → StateResult F → Engine F W → Engine F W × Exit
  unfolding error_data finished write
  after_result (some cause) next round exec res g =
      if res.caught_by_state == ""
      then (
        write round.ends (finished round.now absent res.result_code (some cause) failed exec) g,
        failed_state,
      )
      else next exec res.caught_by_state (error_data res.result_code cause) g
  after_result none next round exec res g =
      if res.next_state == ""
      then (
        write round.ends (finished round.now res.result_output "" none succeeded exec) g,
        succeeded_state,
      )
      else next exec res.next_state res.result_output g

  unfoldable pub after_step :
      Loop → Round F → Execution F → Engine F W → Step F W (StateResult F) → Engine F W × Exit
  unfolding after_result
  after_step next round exec g (done res r) =
      after_result res.result_error next round exec res
        (record g { executions = round.during g.executions; run = r })
  after_step next round exec g panicked = (g, crashed)
  after_step next round exec g out_of_fuel = (g, no_fuel)

  unfoldable pub run_state :
      ℕ
      → Loop
      → Round F
      → Execution F
      → String
      → Raw F
      → Option (State F)
      → Engine F W
      → Engine F W × Exit
  unfolding after_step finished write execute_state
  run_state fuel next round exec current given none g = (
    write round.ends
        (finished round.now absent "States.InvalidState" (some (state_not_found current)) failed
          exec)
        g,
    no_such_state,
  )
  run_state fuel next round exec current given (some s) g =
      let exec' = record exec { current_state = current } in
      let g' = write round.saves exec' g in
      after_step next round exec' g' (execute_state services fuel current s given g'.run)

  -- The checks before a state: shut down, cancelled, over time, at a breakpoint, in this order.
  unfoldable pub checked :
      ℕ
      → States F
      → Loop
      → Round F
      → Execution F
      → String
      → Raw F
      → Engine F W
      → Option (Execution F)
      → Engine F W × Exit
  unfolding is_cancelled is_late finished paused_at_breakpoint run_state find_state write
  checked fuel body next round exec current given g none = (g, lost_execution)
  checked fuel body next round exec current given g (some latest) =
      if is_cancelled latest.status
      then (g, was_cancelled)
      else if is_late exec round.now
      then (
        write round.ends (finished round.now absent "States.Timeout" (some timed_out) timeout exec)
            g,
        over_time,
      )
      else if round.breakpoint
      then (write round.ends (paused_at_breakpoint round.now current given exec) g, at_breakpoint)
      else run_state fuel next round exec current given (find_state current body) g

  -- The loop of `executeWorkflowTask`, with the fuel of a state's branches.
  unfoldable pub main_loop :
      ℕ → States F → List (Round F) → Execution F → String → Raw F → Engine F W → Engine F W × Exit
  unfolding checked
  main_loop fuel body [] exec current given g = (g, still_running)
  main_loop fuel body (round ∷ rounds) exec current given g =
      let g' = record g { executions = round.before g.executions } in
      if round.shutdown
      then (g', shut_down)
      else checked fuel body (main_loop fuel body rounds) round exec current given g'
          (lookup exec.execution_id g'.executions)

  -- The fields that a task sets before its loop: it starts, or it resumes at its state.
  unfoldable pub begin : ℤ → Task F → Execution F
  begin now t =
      if t.resume_state == ""
      then record t.execution {
        status = running;
        started_at = some now;
        current_state = t.workflow.definition.start_at;
      }
      else record t.execution {
        status = running;
        paused_at_state = "";
        paused_input = absent;
        paused_at = none;
        current_state = t.resume_state;
      }

  -- `executeWorkflowTask`; the task ends at once where its first write fails.
  unfoldable pub execute_workflow_task :
      ℕ → ℤ → Bool → List (Round F) → Task F → Engine F W → Engine F W × Exit
  unfolding main_loop begin update_execution
  execute_workflow_task fuel now write_fails rounds t g =
      let exec = begin now t in
      let body = t.workflow.definition.states in
      if write_fails then (g, update_failed) else elim (lookup exec.execution_id g.executions) [
        | none ↦ (g, update_failed)
        | some old ↦
            if t.resume_state == ""
            then main_loop fuel body rounds exec t.workflow.definition.start_at t.execution.input
                (store exec g)
            else main_loop fuel body rounds exec t.resume_state t.resume_input (store exec g)
      ]

  -- `worker`: the first task of the queue.
  unfoldable pub work : ℕ → ℤ → List (Round F) → Engine F W → Engine F W × Option Exit
  unfolding execute_workflow_task
  work fuel now rounds g = elim (g.queue) [
    | [] ↦ (g, none)
    | t ∷ ts ↦
        let out = execute_workflow_task fuel now false rounds t (record g { queue = ts }) in
        (out.0, some (out.1))
  ]
