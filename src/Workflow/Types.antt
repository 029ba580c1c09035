-- ===== src/Workflow/Types.antt =====
-- The parts of a workflow and the records of its runs (internal/domain/workflow.go,
-- internal/domain/workflow_execution.go). A comparison collects the tests of a choice rule; a string
-- is unset when empty, the other tests are pointers. `F` stands for float64.
use function.Prelude.{ℕ, String, Bool, true, false, Option, none, some, List, if◌then◌else◌, ◌==◌}
use function.Prelude.Int.{ℤ}
use function.Workflow.Json.{Raw}
use function.Workflow.Path.{Failure}

pub data StateType : Type 0 where
  task choice wait parallel pass fail succeed : StateType
  unknown : String → StateType

pub data WorkflowStatus : Type 0 where
  active inactive : WorkflowStatus

pub record RetryPolicy (F : Type 0) : Type 0 where
  pub error_equals : List String
  pub max_attempts : ℤ
  pub interval_seconds : ℤ
  pub backoff_rate : F
  pub max_interval_seconds : ℤ

pub record CatchConfig : Type 0 where
  pub catch_errors : List String
  pub catch_next : String

pub record Comparison (F : Type 0) : Type 0 where
  pub variable : String
  pub string_equals : String
  pub string_not_equals : String
  pub string_less_than : String
  pub string_greater_than : String
  pub string_less_than_equals : String
  pub string_greater_than_equals : String
  pub string_matches : String
  pub numeric_equals : Option F
  pub numeric_not_equals : Option F
  pub numeric_less_than : Option F
  pub numeric_greater_than : Option F
  pub numeric_less_than_equals : Option F
  pub numeric_greater_than_equals : Option F
  pub boolean_equals : Option Bool
  pub timestamp_equals : String
  pub timestamp_not_equals : String
  pub timestamp_less_than : String
  pub timestamp_greater_than : String
  pub timestamp_less_than_equals : String
  pub timestamp_greater_than_equals : String
  pub is_null : Option Bool
  pub is_present : Option Bool
  pub is_numeric : Option Bool
  pub is_string : Option Bool
  pub is_boolean : Option Bool
  pub is_timestamp : Option Bool

-- A choice rule: its next state, its comparison, and its operators `And`, `Or` and `Not`.
mutual
  pub data ChoiceRule (F : Type 0) : Type 0 where
    rule : String → Comparison F → Rules F → Rules F → Negated F → ChoiceRule F

  pub data Rules (F : Type 0) : Type 0 where
    no_rules : Rules F
    more_rules : ChoiceRule F → Rules F → Rules F

  pub data Negated (F : Type 0) : Type 0 where
    not_negated : Negated F
    negated : ChoiceRule F → Negated F

-- The fields of a state but its branches.
pub record Spec (F : Type 0) : Type 0 where
  pub type : StateType
  pub next : String
  pub end_state : Bool
  pub function_id : String
  pub retry : Option (RetryPolicy F)
  pub catch : List CatchConfig
  pub choices : Rules F
  pub default : String
  pub seconds : ℤ
  pub timestamp : String
  pub result : Raw F
  pub error : String
  pub cause : String
  pub input_path : String
  pub output_path : String
  pub result_path : String
  pub parameters : Raw F
  pub result_selector : Raw F

mutual
  pub data State (F : Type 0) : Type 0 where
    state : Spec F → Branches F → State F

  pub data Branches (F : Type 0) : Type 0 where
    no_branches : Branches F
    branch : String → States F → Branches F → Branches F

  pub data States (F : Type 0) : Type 0 where
    no_states : States F
    named : String → State F → States F → States F

unfoldable pub find_state : {F : Type 0} → String → States F → Option (State F)
find_state name no_states = none
find_state name (named n s states) = if n == name then some s else find_state name states

pub record WorkflowDefinition (F : Type 0) : Type 0 where
  pub start_at : String
  pub states : States F

pub record Workflow (F : Type 0) : Type 0 where
  pub id : String
  pub workflow_status : WorkflowStatus
  pub definition : WorkflowDefinition F
  pub timeout_sec : ℤ

pub data ExecutionStatus : Type 0 where
  pending running succeeded failed timeout paused cancelled : ExecutionStatus

-- The Go errors that the states and the engine make.
pub data Cause : Type 0 where
  context_done no_choice_matched invalid_timestamp bad_output : Cause
  timed_out cancelled_by_user queue_full : Cause
  path_failure : Failure → Cause
  invocation_error execution_failed unknown_type state_not_found message : String → Cause

pub record Execution (F : Type 0) : Type 0 where
  pub execution_id : String
  pub workflow_id : String
  pub status : ExecutionStatus
  pub input : Raw F
  pub output : Raw F
  pub execution_error : Option Cause
  pub error_code : String
  pub current_state : String
  pub started_at : Option ℤ
  pub completed_at : Option ℤ
  pub timeout_at : Option ℤ
  pub paused_at_state : String
  pub paused_input : Raw F
  pub paused_at : Option ℤ

-- `WorkflowExecution.IsTerminal`
unfoldable pub is_terminal : ExecutionStatus → Bool
is_terminal succeeded = true
is_terminal failed = true
is_terminal timeout = true
is_terminal cancelled = true
is_terminal _ = false

pub data StateExecutionStatus : Type 0 where
  state_running state_succeeded state_failed state_retrying state_caught : StateExecutionStatus

pub record StateExecution (F : Type 0) : Type 0 where
  pub state_name : String
  pub state_type : StateType
  pub state_status : StateExecutionStatus
  pub state_input : Raw F
  pub state_output : Raw F
  pub state_error : Option Cause
  pub state_error_code : String
  pub retry_count : ℕ
  pub invocation_id : String

pub record StateResult (F : Type 0) : Type 0 where
  pub result_output : Raw F
  pub next_state : String
  pub result_error : Option Cause
  pub result_code : String
  pub caught_by_state : String

pub record BranchResult (F : Type 0) : Type 0 where
  pub branch_index : ℕ
  pub branch_output : Raw F
  pub branch_error : Option Cause
  pub branch_code : String
