-- ===== src/Workflow/Tests/Steps.antt =====
-- Runs of the executor on small inputs. The scheduler always fails, and numbers stand for float64.
use function.Prelude.{ℕ, ◌+◌, ◌*◌, ◌≡◌, refl, false, none, some, [], ◌∷◌}
use function.Workflow.Types.{
  RetryPolicy, Spec, StateExecution, BranchResult, task, no_rules, bad_output, state_running,
}
use function.Prelude.Int.{ℤ, pos}
use function.Workflow.Json.{num, absent, doc}
use function.Workflow.Executor.{Services, Run, refused}
use function.Workflow.Executor.Task.{execute_task_state, max_attempts_of}
use function.Workflow.Executor.Retry.{EndsWithin, execute_task_state_ends}
use function.Workflow.Branches.{join}
use function.Workflow.Branches.Join.{join_any_order, swap}
use function.Workflow.Tests.{plain}

-- A scheduler that always fails, and a context that is never done.
abbrev pub failing : Services ℕ ℕ
failing = record {
  invoke = λ w f payload. (w + 1, refused "boom");
  sleep = λ w delay. (w, false);
  is_done = λ w. false;
  arrival = λ w results. results;
  primitives = plain;
  float = λ z. 1;
  scale = λ x y. x * y;
  truncate = λ x. pos x;
}

abbrev retrying : ℤ → RetryPolicy ℕ
retrying n = record {
  error_equals = "States.ALL" ∷ [];
  max_attempts = n;
  interval_seconds = pos 1;
  backoff_rate = 2;
  max_interval_seconds = pos 0;
}

abbrev pub task_spec : ℤ → Spec ℕ
task_spec n = record {
  type = task;
  next = "Done";
  end_state = false;
  function_id = "f";
  retry = some (retrying n);
  catch = [];
  choices = no_rules;
  default = "";
  seconds = pos 0;
  timestamp = "";
  result = absent;
  error = "";
  cause = "";
  input_path = "";
  output_path = "";
  result_path = "";
  parameters = absent;
  result_selector = absent;
}

abbrev blank_record : StateExecution ℕ
blank_record = record {
  state_name = "A";
  state_type = task;
  state_status = state_running;
  state_input = absent;
  state_output = absent;
  state_error = none;
  state_error_code = "";
  retry_count = 0;
  invocation_id = "";
}

abbrev pub idle : Run ℕ ℕ
idle = record { world = 0; writes = []; calls = [] }

execute_task_state_ends_example :
    EndsWithin failing
      (max_attempts_of failing (some (retrying (pos 2))))
      (task_spec (pos 2))
      absent
      idle
      (execute_task_state failing (task_spec (pos 2)) absent blank_record idle)
execute_task_state_ends_example =
    execute_task_state_ends failing (task_spec (pos 2)) absent blank_record idle

abbrev good_branch : ℕ → ℕ → BranchResult ℕ
good_branch i x = record {
  branch_index = i;
  branch_output = doc (num x);
  branch_error = none;
  branch_code = "";
}

abbrev bad_branch : BranchResult ℕ
bad_branch = record {
  branch_index = 1;
  branch_output = absent;
  branch_error = some bad_output;
  branch_code = "States.TaskFailed";
}

join_any_order_example :
    join (task_spec (pos 0)) (absent ∷ absent ∷ []) (good_branch 0 4 ∷ good_branch 1 5 ∷ [])
    ≡ join (task_spec (pos 0)) (absent ∷ absent ∷ []) (good_branch 1 5 ∷ good_branch 0 4 ∷ [])
join_any_order_example =
    join_any_order (task_spec (pos 0)) (absent ∷ absent ∷ [])
      (good_branch 0 4 ∷ good_branch 1 5 ∷ []) (good_branch 1 5 ∷ good_branch 0 4 ∷ [])
      (swap (good_branch 0 4) (good_branch 1 5) [] refl) refl
