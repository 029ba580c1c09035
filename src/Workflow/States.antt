-- ===== src/Workflow/States.antt =====
-- The execution of a state and of a branch (internal/workflow/executor.go `ExecuteState`,
-- `executeBranch`). A branch may loop, so its rounds are bounded by fuel.
pub mod Targets
use function.Prelude.{Option, ℕ, zero, suc, String, none, some, if◌then◌else◌, ◌==◌}
use function.Workflow.Json.{Value, Raw, absent, doc}
use function.Workflow.Path.{Result, ok, err, panic}
use function.Workflow.Merge.{process_input, process_output}
use function.Workflow.Types.{
  StateType, Cause, wait, Spec, State, Branches, States, StateExecution, StateResult, BranchResult,
  task, choice, parallel, pass, fail, succeed, unknown, state, find_state, context_done,
  path_failure, unknown_type, state_not_found, state_running, state_succeeded, state_failed,
  state_caught,
}
use Prim.Native.String
use function.Prelude.Text.{decimal}
use function.Workflow.Executor.{
  Services, Run, Step, done, panicked, out_of_fuel, ◌>>=◌, return, failure, save,
  execute_pass_state, execute_fail_state, execute_succeed_state, execute_choice_state,
}
use function.Workflow.Executor.Task.{execute_task_state, execute_wait_state}
use function.Workflow.Branches.{branch_failed, branch_done, execute_parallel_state}

module _ {F W : Type 0} (services : Services F W) where
  -- A result, or the panic of the Go code.
  unfoldable pub from_result : Result (StateResult F) → Run F W → Step F W (StateResult F)
  from_result (ok res) = return res
  from_result (err e) = return (failure (path_failure e) "" "")
  from_result panic = λ r. panicked

  unfoldable pub keep :
      StateExecution F
      → (Run F W → Step F W (StateResult F))
      → Run F W
      → Step F W (StateResult F × StateExecution F)
  keep e m = do res ← m; return (res, e)

  abbrev pub Runner : Type 0
  Runner = ℕ → String → States F → Run F W → Step F W (BranchResult F)

  -- The switch on the type of the state.
  unfoldable pub execute_by_type :
      StateType
      → Runner
      → Spec F
      → Branches F
      → Raw F
      → StateExecution F
      → Run F W
      → Step F W (StateResult F × StateExecution F)
  unfolding keep from_result execute_task_state execute_choice_state execute_wait_state
      execute_parallel_state execute_pass_state execute_fail_state execute_succeed_state failure
  execute_by_type task run s bs input e = execute_task_state services s input e
  execute_by_type choice run s bs input e =
      keep e (from_result (execute_choice_state services.primitives s input))
  execute_by_type wait run s bs input e = keep e (execute_wait_state services s input)
  execute_by_type parallel run s bs input e = keep e (execute_parallel_state services run s bs)
  execute_by_type pass run s bs input e = return (execute_pass_state s input, e)
  execute_by_type fail run s bs input e = return (execute_fail_state s, e)
  execute_by_type succeed run s bs input e = return (execute_succeed_state input, e)
  execute_by_type (unknown t) run s bs input e =
      return (failure (unknown_type t) "States.InvalidStateType" "", e)

  unfoldable pub with_output : StateResult F → Result (Value F) → Run F W → Step F W (StateResult F)
  with_output res (ok v) = return (record res { result_output = doc v })
  with_output res (err e) = return (record res {
    result_error = some (path_failure e);
    result_code = "States.ResultPathMatchFailure";
  })
  with_output res panic = λ r. panicked

  -- The output of a state that succeeded with one goes through its paths.
  unfoldable pub process_result :
      Option Cause → Raw F → Spec F → Raw F → StateResult F → Run F W → Step F W (StateResult F)
  unfolding with_output process_output
  process_result (some e) output s input res = return res
  process_result none absent s input res = return res
  process_result none output s input res =
      with_output res (process_output input output s.output_path s.result_path s.result_selector)

  -- `completeStateExecution` and `completeStateExecutionSuccess`
  unfoldable pub completed : StateExecution F → StateResult F → StateExecution F
  completed e res = elim (res.result_error) [
    | none ↦ record e { state_status = state_succeeded; state_output = res.result_output }
    | some cause ↦ record e {
      state_status = if res.caught_by_state == "" then state_failed else state_caught;
      state_output = res.result_output;
      state_error = some cause;
      state_error_code = res.result_code;
    }
  ]

  unfoldable pub complete : StateExecution F → StateResult F → Run F W → Step F W (StateResult F)
  unfolding save completed
  complete e res = do saved ← save services (completed e res); return res

  -- The result goes through the paths, and the record is completed.
  unfoldable pub finish :
      Spec F → Raw F → StateResult F → StateExecution F → Run F W → Step F W (StateResult F)
  unfolding process_result complete
  finish s input res e = do
    res' ← process_result res.result_error res.result_output s input res
    complete e res'

  unfoldable pub new_execution : String → Spec F → Raw F → StateExecution F
  new_execution name s input = record {
    state_name = name;
    state_type = s.type;
    state_status = state_running;
    state_input = input;
    state_output = absent;
    state_error = none;
    state_error_code = "";
    retry_count = 0;
    invocation_id = "";
  }

  -- The rest of `ExecuteState`, on the input that the paths yield.
  unfoldable pub with_input :
      (Raw F → Runner)
      → Spec F
      → Branches F
      → Raw F
      → StateExecution F
      → Result (Value F)
      → Run F W
      → Step F W (StateResult F)
  unfolding execute_by_type finish complete failure
  with_input run s bs input e panic = λ r. panicked
  with_input run s bs input e (err f) =
      complete e (failure (path_failure f) "States.ParameterPathFailure" "")
  with_input run s bs input e (ok v) = do
    (res, e') ← execute_by_type s.type (run (doc v)) s bs (doc v) e
    finish s input res e'

  -- `ExecuteState` with the runner of its branches, which takes the branch's input too.
  unfoldable pub execute_state_with :
      (Raw F → Runner) → String → State F → Raw F → Run F W → Step F W (StateResult F)
  unfolding save new_execution with_input process_input
  execute_state_with run name (state s bs) input = do
    e ← save services (new_execution name s input)
    with_input run s bs input e (process_input input s.input_path s.parameters)

  branch_name : String → ℕ → String → String
  branch_name parent i current =
      String.◌++◌ parent
        (String.◌++◌ ".Branch[" (String.◌++◌ (decimal i) (String.◌++◌ "]." current)))

  -- `executeBranch`: the rounds left, the parent's name, the index, its states, the current one.
  unfoldable pub execute_branch :
      ℕ → String → ℕ → States F → String → Raw F → Run F W → Step F W (BranchResult F)
  unfolding branch_failed branch_done find_state branch_name execute_state_with
  execute_branch zero parent i body current input r = out_of_fuel
  execute_branch (suc n) parent i body current input r =
      let inner : Raw F → Runner = λ v j start inside r'.
        execute_branch n (branch_name parent i current) j inside start v r' in
      let again : String → Raw F → Run F W → Step F W (BranchResult F) =
        λ next output r'. execute_branch n parent i body next output r' in
      let after : StateResult F → Run F W → Step F W (BranchResult F) = λ res.
        elim (res.result_error) [
          | some e ↦ return (branch_done i (record res { result_output = absent }))
          | none ↦
              if res.next_state == ""
              then return (branch_done i res)
              else again res.next_state res.result_output
        ] in
      if services.is_done r.world
      then done (branch_failed i context_done "States.Timeout") r
      else elim (find_state current body) [
        | none ↦ done (branch_failed i (state_not_found current) "States.InvalidState") r
        | some s ↦ (execute_state_with inner (branch_name parent i current) s input >>= after) r
      ]

  -- `ExecuteState`, with the rounds that a branch in it may take.
  unfoldable pub execute_state : ℕ → String → State F → Raw F → Run F W → Step F W (StateResult F)
  unfolding execute_state_with execute_branch
  execute_state fuel name s input =
      execute_state_with (λ v j start body. execute_branch fuel name j body start v) name s input
