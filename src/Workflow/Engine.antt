-- ===== src/Workflow/Engine.antt =====
-- The workflow engine (internal/workflow/engine.go): the executions it starts, runs, pauses, resumes,
-- stops and recovers. The store keeps the executions and the workflows; the queue is the bounded
-- channel. An operation whose store fails returns before it changes anything, and is left out.
pub mod Worker
pub mod Queue
pub mod Commands
pub mod Outcome
pub mod Turns
pub mod Termination
pub mod Closed
pub mod Stop
pub mod Api
pub mod Resume
use function.Prelude.{
  ℕ, zero, suc, ◌+◌, String, Bool, true, false, Option, none, some, List, [], ◌∷◌, ◌++◌, ltb,
  if◌then◌else◌, length, take, Map, lookup, set,
}
use function.Workflow.Types.{
  WorkflowStatus, States, Workflow, ExecutionStatus, Cause, Execution, active, inactive, pending,
  running, timeout, paused, cancelled, timed_out,
}
use function.Prelude.Int.{ℤ, pos, negsuc, ltb_ℤ}
use function.Workflow.Json.{obj, end, Raw, absent, doc}
use function.Workflow.Executor.{Run}

pub record Config : Type 0 where
  pub queue_size : ℕ
  pub default_timeout : ℤ

-- `NewEngine`: what is not positive takes its default. The number of workers bounds only how many
-- tasks run at once.
unfoldable pub new_config : ℤ → ℤ → Config
new_config queue_size default_timeout = record {
  queue_size = elim queue_size [ pos zero ↦ 1000 | pos (suc n) ↦ suc n | negsuc n ↦ 1000 ];
  default_timeout = if ltb_ℤ (pos 0) default_timeout then default_timeout else pos 3600;
}

-- `executionTask`; the resume state is empty for a task that starts.
pub record Task (F : Type 0) : Type 0 where
  pub execution : Execution F
  pub workflow : Workflow F
  pub resume_state : String
  pub resume_input : Raw F

pub record Engine (F W : Type 0) : Type 0 where
  pub executions : Map (Execution F)
  pub workflows : Map (Workflow F)
  pub queue : List (Task F)
  pub run : Run F W

pub data EngineError : Type 0 where
  workflow_not_found workflow_inactive execution_not_found already_complete : EngineError
  queue_is_full not_paused no_paused_state store_failure : EngineError

unfoldable pub is_cancelled : ExecutionStatus → Bool
is_cancelled cancelled = true
is_cancelled _ = false

unfoldable pub is_paused : ExecutionStatus → Bool
is_paused paused = true
is_paused _ = false

unfoldable pub is_active : WorkflowStatus → Bool
is_active active = true
is_active inactive = false

-- The statuses that `ListPendingExecutions` selects.
unfoldable pub is_pending : ExecutionStatus → Bool
is_pending pending = true
is_pending running = true
is_pending _ = false

module _ {F : Type 0} where
  new_execution : String → ℤ → Workflow F → Raw F → Execution F
  new_execution id timeout_at w given = record {
    execution_id = id;
    workflow_id = w.id;
    status = pending;
    input = given;
    output = absent;
    execution_error = none;
    error_code = "";
    current_state = "";
    started_at = none;
    completed_at = none;
    timeout_at = some timeout_at;
    paused_at_state = "";
    paused_input = absent;
    paused_at = none;
  }

  or_empty : Raw F → Raw F
  or_empty absent = doc (obj end)
  or_empty r = r

  unfoldable pub resume_task : Execution F → Workflow F → Raw F → Task F
  resume_task exec w modified = record {
    execution = exec;
    workflow = w;
    resume_state = exec.paused_at_state;
    resume_input = elim modified [ absent ↦ exec.paused_input | r ↦ r ];
  }

  pending_in : Map (Execution F) → List (Execution F)
  unfolding is_pending
  pending_in [] = []
  pending_in ((id, exec) ∷ m) =
      let rest = pending_in m in if is_pending exec.status then exec ∷ rest else rest

  -- `ListPendingExecutions`, oldest first; the store keeps the executions in the order they were made.
  unfoldable pub list_pending_executions : ℕ → Map (Execution F) → List (Execution F)
  unfolding pending_in
  list_pending_executions limit m = take limit (pending_in m)

  unfoldable pub write_row :
      Option (Execution F) → Execution F → Map (Execution F) → Map (Execution F)
  write_row none exec m = m
  write_row (some old) exec m = set exec.execution_id exec m

  -- `UpdateExecution`: a row that is not there is not made.
  unfoldable pub update_execution : Execution F → Map (Execution F) → Map (Execution F)
  unfolding write_row
  update_execution exec m = write_row (lookup exec.execution_id m) exec m

  unfoldable pub is_late : Execution F → ℤ → Bool
  is_late exec now = elim (exec.timeout_at) [ none ↦ false | some t ↦ ltb_ℤ t now ]

  -- The fields that `completeExecution` and `pauseExecution` write.
  unfoldable pub finished :
      ℤ → Raw F → String → Option Cause → ExecutionStatus → Execution F → Execution F
  finished now result code cause st exec = record exec {
    status = st;
    output = result;
    execution_error = cause;
    error_code = code;
    completed_at = some now;
  }

  unfoldable pub paused_at_breakpoint : ℤ → String → Raw F → Execution F → Execution F
  paused_at_breakpoint now at given exec = record exec {
    status = paused;
    paused_at_state = at;
    paused_input = given;
    paused_at = some now;
    current_state = at;
  }

  -- `markExecutionTimeout`
  unfoldable pub mark_execution_timeout : ℤ → Execution F → Map (Execution F) → Map (Execution F)
  unfolding update_execution
  mark_execution_timeout now exec m =
      update_execution
        (record exec {
          status = timeout;
          execution_error = some timed_out;
          error_code = "States.Timeout";
          completed_at = some now;
        })
        m

  module _ {W : Type 0} where
    abbrev pub store : Execution F → Engine F W → Engine F W
    unfolding update_execution
    store exec g = record g { executions = update_execution exec g.executions }

    -- The non-blocking send to the queue.
    unfoldable pub offer : Config → Task F → Engine F W → Option (Engine F W)
    offer config t g =
        if ltb (length g.queue) config.queue_size
        then some (record g { queue = g.queue ++ (t ∷ []) })
        else none
