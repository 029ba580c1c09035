-- ===== src/Workflow/States/Targets/Whole.antt =====
-- Where the result of a state leads (internal/workflow/executor.go `ExecuteState`).
use function.Prelude.{ℕ, String, Option, none, some}
use function.Workflow.Types.{
  StateType, wait, Spec, State, Branches, Cause, StateExecution, StateResult, task, choice,
  parallel, pass, fail, succeed, unknown, state, path_failure, unknown_type,
}
use function.Workflow.Merge.{process_input, process_output}
use function.Workflow.Json.{Value, Raw, absent, invalid, doc}
use function.Workflow.Path.{Result, ok, err, panic}
use function.Workflow.Executor.{Services, Run, Step, return, failure, execute_choice_state, save}
use function.Workflow.Executor.Task.{execute_wait_state}
use function.Workflow.Executor.Ensures.{Post, Ensures-bind}
use function.Workflow.Branches.{execute_parallel_state}
use function.Workflow.States.{
  from_result, keep, Runner, execute_by_type, with_output, process_result, completed, finish,
  complete, new_execution, execute_branch, execute_state_with, with_input, execute_state,
}
use function.Workflow.States.Targets.{
  spec_of, IsTarget, Goes, success-Goes, failure-Goes, GoesResult, choose-GoesResult,
  execute_pass_state-Goes, execute_fail_state-Goes, Leads, bind-Leads, from_result-Leads, LeadsPair,
}
use function.Workflow.States.Targets.Wait.{execute_wait_state-Leads, execute_parallel_state-Leads}
use function.Workflow.States.Targets.Task.{execute_task_state-LeadsPair}

module _ {F W : Type 0} (P : String → Type 0) (services : Services F W) where
  keep-LeadsPair :
      (e : StateExecution F) (m : Run F W → Step F W (StateResult F))
      → Leads P services m
      → LeadsPair P services (keep services e m)
  unfolding keep
  keep-LeadsPair e m h =
      Ensures-bind (Goes P {F = F}) (λ out. Goes P (out.0)) m (λ res. return (res, e)) h
        (λ res g r. g)

  execute_choice_state-GoesResult :
      (s : Spec F) (input : Raw F)
      → IsTarget P s
      → GoesResult P (execute_choice_state services.primitives s input)
  unfolding execute_choice_state
  execute_choice_state-GoesResult s input h =
      choose-GoesResult P services.primitives s s.choices input h.0 h.2 h.3

  execute_by_type-LeadsPair :
      (t : StateType) (run : Runner services) (s : Spec F) (bs : Branches F) (input : Raw F)
      (e : StateExecution F)
      → IsTarget P s
      → LeadsPair P services (execute_by_type services t run s bs input e)
  unfolding execute_by_type
  execute_by_type-LeadsPair task run s bs input e h =
      execute_task_state-LeadsPair P services s input e h
  execute_by_type-LeadsPair choice run s bs input e h =
      keep-LeadsPair e (from_result services (execute_choice_state services.primitives s input)) (
        from_result-Leads P services (execute_choice_state services.primitives s input)
          (execute_choice_state-GoesResult s input h))
  execute_by_type-LeadsPair wait run s bs input e h =
      keep-LeadsPair e (execute_wait_state services s input)
        (execute_wait_state-Leads P services s input h)
  execute_by_type-LeadsPair parallel run s bs input e h =
      keep-LeadsPair e (execute_parallel_state services run s bs)
        (execute_parallel_state-Leads P services run s bs h)
  execute_by_type-LeadsPair pass run s bs input e h = λ r. execute_pass_state-Goes P s input h
  execute_by_type-LeadsPair fail run s bs input e h = λ r. execute_fail_state-Goes P s h.0
  execute_by_type-LeadsPair succeed run s bs input e h = λ r. success-Goes P input "" h.0 h.0
  execute_by_type-LeadsPair (unknown t) run s bs input e h =
      λ r. failure-Goes P F (unknown_type t) "States.InvalidStateType" "" h.0 h.0

  with_output-Leads :
      (res : StateResult F) (v : Result (Value F))
      → Goes P res
      → Leads P services (with_output services res v)
  unfolding with_output
  with_output-Leads res (ok v) g = λ r. g
  with_output-Leads res (err e) g = λ r. g
  with_output-Leads res panic g = λ r. tt

  process_result-Leads :
      (o : Option Cause) (output : Raw F) (s : Spec F) (input : Raw F) (res : StateResult F)
      → Goes P res
      → Leads P services (process_result services o output s input res)
  unfolding process_result
  process_result-Leads (some e) output s input res g = λ r. g
  process_result-Leads none absent s input res g = λ r. g
  process_result-Leads none invalid s input res g =
      with_output-Leads res
        (process_output input invalid s.output_path s.result_path s.result_selector) g
  process_result-Leads none (doc v) s input res g =
      with_output-Leads res
        (process_output input (doc v) s.output_path s.result_path s.result_selector) g

  complete-Leads :
      (e : StateExecution F) (res : StateResult F)
      → Goes P res
      → Leads P services (complete services e res)
  unfolding complete
  complete-Leads e res g =
      bind-Leads P services (save services (completed services e res)) (λ _. return res) (λ _ r. g)

  finish-Leads :
      (s : Spec F) (input : Raw F) (res : StateResult F) (e : StateExecution F)
      → Goes P res
      → Leads P services (finish services s input res e)
  unfolding finish
  finish-Leads s input res e g =
      Ensures-bind (Goes P {F = F}) (Goes P {F = F})
        (process_result services res.result_error res.result_output s input res)
        (complete services e)
        (process_result-Leads res.result_error res.result_output s input res g)
        (λ res' g'. complete-Leads e res' g')

  with_input-Leads :
      (run : Raw F → Runner services) (s : Spec F) (bs : Branches F) (input : Raw F)
      (e : StateExecution F) (v : Result (Value F))
      → IsTarget P s
      → Leads P services (with_input services run s bs input e v)
  unfolding with_input
  with_input-Leads run s bs input e panic h = λ r. tt
  with_input-Leads run s bs input e (err f) h =
      complete-Leads e (failure (path_failure f) "States.ParameterPathFailure" "")
        (failure-Goes P F (path_failure f) "States.ParameterPathFailure" "" h.0 h.0)
  with_input-Leads run s bs input e (ok v) h =
      Ensures-bind (λ out. Goes P (out.0)) (Goes P {F = F})
        (execute_by_type services s.type (run (doc v)) s bs (doc v) e)
        (λ b. finish services s input (b.0) (b.1))
        (execute_by_type-LeadsPair s.type (run (doc v)) s bs (doc v) e h)
        (λ b g. finish-Leads s input (b.0) (b.1) g)

  execute_state_with-IsTarget :
      (run : Raw F → Runner services) (name : String) (s : State F) (input : Raw F)
      → IsTarget P (spec_of s)
      → Leads P services (execute_state_with services run name s input)
  unfolding execute_state_with spec_of
  execute_state_with-IsTarget run name (state s bs) input h =
      bind-Leads P services (save services (new_execution services name s input))
        (λ e. with_input services run s bs input e (process_input input s.input_path s.parameters))
        (λ e. with_input-Leads run s bs input e (process_input input s.input_path s.parameters) h)

  -- Whatever a state of the workflow does, and whatever the scheduler, the clock and its branches
  -- answer, the state that its result names next and the state that catches its error are the end or
  -- among those that the definition of the state names: every property of these holds of them.
  pub execute_state-IsTarget :
      (fuel : ℕ) (name : String) (s : State F) (input : Raw F)
      → IsTarget P (spec_of s)
      → (r : Run F W) → Post (Goes P {F = F}) (execute_state services fuel name s input r)
  unfolding execute_state
  execute_state-IsTarget fuel name s input h =
      execute_state_with-IsTarget
        (λ v j start body. execute_branch services fuel name j body start v) name s input h
