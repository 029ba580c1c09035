-- ===== src/Workflow/Requests.antt =====
-- The request that makes a workflow (internal/domain/workflow.go `CreateWorkflowRequest`).
use function.Prelude.{
  zero, suc, String, ◌≡◌, ◌≢◌, Bool, true, false, not, ◌||◌, Option, none, some, if◌then◌else◌,
  ◌==◌, arith,
}
use function.Prelude.Int.{ℤ, pos, negsuc, ltb_ℤ}
use function.Workflow.Types.{WorkflowDefinition, State, States, no_states, named, find_state}

pub data RequestError : Type 0 where
  invalid_workflow_name invalid_workflow_definition invalid_workflow_timeout : RequestError

pub record CreateWorkflowRequest (F : Type 0) : Type 0 where
  pub workflow_name : String
  pub request_definition : WorkflowDefinition F
  pub request_timeout : ℤ

-- The timeout that stands for an unset one.
default_timeout : ℤ → ℤ
default_timeout (pos zero) = pos 3600
default_timeout (pos (suc n)) = pos (suc n)
default_timeout (negsuc n) = negsuc n

module _ {F : Type 0} where
  has_any : States F → Bool
  has_any no_states = false
  has_any (named n s body) = true

  is_there : Option (State F) → Bool
  is_there none = false
  is_there (some s) = true

  check_timeout : CreateWorkflowRequest F → CreateWorkflowRequest F × Option RequestError
  check_timeout r =
      if ltb_ℤ r.request_timeout (pos 1) || ltb_ℤ (pos 86400) r.request_timeout
      then (r, some invalid_workflow_timeout)
      else (r, none)

  -- `Validate`: the request, in which an unset timeout may be set, and its error.
  unfoldable pub validate : CreateWorkflowRequest F → CreateWorkflowRequest F × Option RequestError
  unfolding has_any is_there default_timeout check_timeout find_state
  validate r =
      if r.workflow_name == ""
      then (r, some invalid_workflow_name)
      else if r.request_definition.start_at == ""
      then (r, some invalid_workflow_definition)
      else if not (has_any r.request_definition.states)
      then (r, some invalid_workflow_definition)
      else if not (is_there (find_state r.request_definition.start_at r.request_definition.states))
      then (r, some invalid_workflow_definition)
      else check_timeout (record r { request_timeout = default_timeout r.request_timeout })

  accepted_start :
      (r : CreateWorkflowRequest F)
      → (validate r).1 ≡ none
      → is_there (find_state r.request_definition.start_at r.request_definition.states) ≡ true
  unfolding validate
  accepted_start r h = ground arith

  there : (o : Option (State F)) → is_there o ≡ true → o ≢ none
  unfolding is_there
  there none h eq = absurd (cc h)
  there (some s) h eq = cc eq

  -- A request that is accepted names a state to start at that its definition has.
  pub validate-start :
      (r : CreateWorkflowRequest F)
      → (validate r).1 ≡ none
      → find_state r.request_definition.start_at r.request_definition.states ≢ none
  validate-start r h =
      there (find_state r.request_definition.start_at r.request_definition.states)
        (accepted_start r h)
