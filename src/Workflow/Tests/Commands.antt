-- ===== src/Workflow/Tests/Commands.antt =====
-- Runs of the engine's commands and worker, and the theorems at inputs that meet their hypotheses.
use function.Prelude.{
  true, ℕ, String, ◌≡◌, refl, false, none, some, [], ◌∷◌, length, lookup, set, lookup-set,
}
use function.Workflow.Types.{
  Spec, States, Workflow, Cause, Execution, succeed, active, state, no_branches, no_states, named,
  running, succeeded, cancelled,
}
use function.Prelude.Int.{pos}
use function.Workflow.Json.{obj, end, absent, doc}
use function.Workflow.Engine.{Config, Engine, list_pending_executions, is_late}
use function.Workflow.Engine.Api.{start_execution, stop_execution}
use function.Workflow.Engine.Worker.{Round, main_loop, was_cancelled}
use function.Workflow.Engine.Outcome.{Present, HasStatus, Keeps, status_of, main_loop_status}
use function.Workflow.Engine.Stop.{main_loop-stop_execution}
use function.Workflow.Tests.Steps.{failing, idle, task_spec}

abbrev pub succeed_spec : Spec ℕ
succeed_spec = record (task_spec (pos 0)) { type = succeed; retry = none }

abbrev body : States ℕ
body = named "A" (state succeed_spec no_branches) no_states

abbrev flow : Workflow ℕ
flow = record {
  id = "w";
  workflow_status = active;
  definition = record { start_at = "A"; states = body };
  timeout_sec = pos 60;
}

abbrev config : Config
config = record { queue_size = 2; default_timeout = pos 3600 }

abbrev no_executions : Engine ℕ ℕ
no_executions = record { executions = []; workflows = ("w", flow) ∷ []; queue = []; run = idle }

abbrev pub begun : Execution ℕ
begun = record {
  execution_id = "e";
  workflow_id = "w";
  status = running;
  input = doc (obj end);
  output = absent;
  execution_error = none;
  error_code = "";
  current_state = "A";
  started_at = some (pos 1);
  completed_at = none;
  timeout_at = none;
  paused_at_state = "";
  paused_input = absent;
  paused_at = none;
}

abbrev pub holding : Execution ℕ → Engine ℕ ℕ
holding exec = record no_executions { executions = ("e", exec) ∷ [] }

start_runs : length (start_execution config "e" (pos 5) "w" absent no_executions).0.queue ≡ 1
unfolding start_execution lookup
start_runs = refl

abbrev pub print : Cause → String
print cause = ""

abbrev pub quiet : Round ℕ
quiet = record {
  before = λ m. m;
  during = λ m. m;
  saves = true;
  ends = true;
  now = pos 9;
  breakpoint = false;
  shutdown = false;
}

abbrev halting : Round ℕ
halting = record quiet { breakpoint = true }

abbrev stopped : Engine ℕ ℕ
stopped = (stop_execution (pos 8) "e" (holding begun)).0

stopped_runs :
    (stop_execution (pos 8) "e" (holding begun) ≡ (stopped, none))
    × (lookup "e" (holding begun).executions ≡ some begun)
unfolding stop_execution lookup
stopped_runs = (refl, refl)

main_loop-stop_execution_example :
    main_loop failing print 5 body (quiet ∷ []) begun "A" absent stopped ≡ (stopped, was_cancelled)
main_loop-stop_execution_example =
    main_loop-stop_execution failing print 5 body quiet [] (pos 8) begun begun "A" absent
      (holding begun) stopped (stopped_runs.0) (stopped_runs.1) refl refl refl

begun_listed :
    (list_pending_executions 100 (holding begun).executions ≡ begun ∷ [])
    × (is_late begun (pos 9) ≡ false)
    × (lookup "w" no_executions.workflows ≡ some flow)
unfolding list_pending_executions is_late lookup
begun_listed = (refl, refl, refl)

-- A user cancels the execution while its last state runs.
abbrev cancelling : Round ℕ
cancelling = record {
  before = λ m. m;
  during = λ m. set "e" (record begun { status = cancelled; completed_at = some (pos 7) }) m;
  saves = true;
  ends = true;
  now = pos 6;
  breakpoint = false;
  shutdown = false;
}

begun-Present : Present "e" (holding begun).executions
unfolding lookup
begun-Present = (begun, refl)

cancelling-Keeps : Keeps "e" cancelling
cancelling-Keeps = (
  (λ m h. h),
  (λ m h. (record begun { status = cancelled; completed_at = some (pos 7) }, rw lookup-set)),
  refl,
)

cancelled_run :
    status_of
      (main_loop failing print 5 body (cancelling ∷ []) begun "A" (doc (obj end)) (holding begun)).1
    ≡ some succeeded
unfolding status_of main_loop lookup set
cancelled_run = refl

main_loop_status_example :
    HasStatus "e" succeeded
      (main_loop failing print 5 body
        (cancelling ∷ [])
        begun
        "A"
        (doc (obj end))
        (holding begun)).0.executions
main_loop_status_example =
    main_loop_status failing print 5 body (cancelling ∷ []) begun "A" (doc (obj end))
      (holding begun) succeeded (cancelling-Keeps, tt) begun-Present cancelled_run
