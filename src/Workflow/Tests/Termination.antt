-- ===== src/Workflow/Tests/Termination.antt =====
-- The theorems on where a workflow leads, at a workflow of two states.
use function.Prelude.{
  some, ◌≡◌, none, ◌<◌, ℕ, String, ◌≢◌, refl, inl, inr, [], ◌∷◌, arith, if◌then◌else◌, ◌==◌,
}
use function.Workflow.Types.{State, States, pass, state, no_branches, find_state, no_states, named}
use function.Prelude.Int.{pos}
use function.Workflow.Json.{absent}
use function.Workflow.Executor.Ensures.{Post}
use function.Workflow.States.{execute_state}
use function.Workflow.States.Targets.{Goes, IsTarget, spec_of}
use function.Workflow.States.Targets.Whole.{execute_state-IsTarget}
use function.Workflow.Engine.Worker.{still_running, no_such_state, main_loop}
use function.Workflow.Engine.Termination.{Falls, main_loop_ends}
use function.Workflow.Engine.Closed.{IsClosed, main_loop-validate}
use function.Workflow.Requests.{CreateWorkflowRequest, validate, invalid_workflow_timeout}
use function.Workflow.Engine.Turns.{OrEnd}
use function.Workflow.Tests.Steps.{failing, idle}
use function.Workflow.Tests.Commands.{begun, holding, print, quiet, succeed_spec}

abbrev pass_state : State ℕ
pass_state = state (record succeed_spec { type = pass; next = "B" }) no_branches

abbrev chain : States ℕ
chain =
    named "A" pass_state
      (named "B" (state (record succeed_spec { next = "" }) no_branches) no_states)

abbrev rank : String → ℕ
rank name = if name == "A" then 1 else 0

pass_state-IsTarget : IsTarget (OrEnd (λ t. rank t < rank "A")) (spec_of pass_state)
unfolding spec_of
pass_state-IsTarget = (inl refl, inr (omega arith), inl refl, tt, tt)

chain-Falls : Falls rank chain
unfolding spec_of
chain-Falls = (pass_state-IsTarget, ((inl refl, inl refl, inl refl, tt, tt), tt))

main_loop_ends_example :
    (main_loop failing print 5 chain (quiet ∷ quiet ∷ []) begun "A" absent (holding begun)).1
    ≢ still_running
main_loop_ends_example =
    main_loop_ends failing print 5 rank chain (quiet ∷ quiet ∷ []) begun "A" absent (holding begun)
      chain-Falls (omega arith)

execute_state-IsTarget_example :
    Post
      (Goes (OrEnd (λ t. rank t < rank "A")))
      (execute_state failing 5 "A" pass_state absent idle)
execute_state-IsTarget_example =
    execute_state-IsTarget (OrEnd (λ t. rank t < rank "A")) failing 5 "A" pass_state absent
      pass_state-IsTarget idle

b_is_there : find_state "B" chain ≢ none
unfolding find_state
b_is_there h = cc h

a_is_there : find_state "A" chain ≢ none
unfolding find_state
a_is_there h = cc h

chain-IsClosed : IsClosed chain
unfolding spec_of
chain-IsClosed =
    ((inl refl, inr b_is_there, inl refl, tt, tt), ((inl refl, inl refl, inl refl, tt, tt), tt))

abbrev chain_request : CreateWorkflowRequest ℕ
chain_request = record {
  workflow_name = "chain";
  request_definition = record { start_at = "A"; states = chain };
  request_timeout = pos 0;
}

chain_request_accepted : (validate chain_request).1 ≡ none
unfolding validate
chain_request_accepted = refl

long_request_rejected :
    (validate (record chain_request { request_timeout = pos 86401 })).1
    ≡ some invalid_workflow_timeout
unfolding validate
long_request_rejected = refl

main_loop-validate_example :
    (main_loop failing print 5 chain (quiet ∷ []) begun "A" absent (holding begun)).1
    ≢ no_such_state
main_loop-validate_example =
    main_loop-validate failing print 5 chain_request (quiet ∷ []) begun absent (holding begun)
      chain_request_accepted chain-IsClosed
