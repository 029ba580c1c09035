-- ===== src/Workflow/Engine/Closed.antt =====
-- A workflow whose states name one another (internal/workflow/engine.go `executeWorkflowTask`).
use function.Prelude.{ℕ, String, ◌≡◌, ◌≢◌, refl, ap, Bool, true, false, none, List, [], ◌∷◌, lookup}
use function.Workflow.Types.{States, Cause, Execution, find_state}
use function.Workflow.Json.{Raw}
use function.Workflow.Executor.{Services}
use function.Workflow.States.Targets.{IsTarget}
use function.Workflow.Requests.{CreateWorkflowRequest, validate, validate-start}
use function.Workflow.Engine.{Engine}
use function.Workflow.Engine.Worker.{Exit, Round, no_such_state, main_loop}
use function.Workflow.Engine.Turns.{
  is_usual, OrEnd, AllStates, find_state-AllStates, if_Leaves, checked-Leaves, Leaves,
}

-- Each state of the workflow names only the end, or states that the workflow has.
abbrev pub IsClosed : {F : Type 0} → States F → Type 0
IsClosed body = AllStates (λ n. IsTarget (OrEnd (λ t. find_state t body ≢ none))) body

abbrev is_found : Exit → Bool
is_found no_such_state = false
is_found _ = true

usual_is_found : (e : Exit) → is_usual e ≡ true → is_found e ≡ true
usual_is_found no_such_state h = h
usual_is_found _ h = refl

module _ {F W : Type 0} (services : Services F W) (print : Cause → String) (fuel : ℕ)
    (body : States F) where
  main_loop_found :
      (rounds : List (Round F)) (exec : Execution F) (current : String) (given : Raw F)
      (g : Engine F W)
      → IsClosed body
      → find_state current body ≢ none
      → Leaves is_found (main_loop services print fuel body rounds exec current given g)
  unfolding main_loop
  main_loop_found [] exec current given g closed there = refl
  main_loop_found (round ∷ rounds) exec current given g closed there =
      if_Leaves is_found round.shutdown _ _ refl (
        checked-Leaves services print fuel is_found usual_is_found current
          (λ t. find_state t body ≢ none) (main_loop services print fuel body rounds)
          (λ t there' exec' given' g'. main_loop_found rounds exec' t given' g' closed there') body
          round exec given (record g { executions = round.before g.executions })
          (lookup exec.execution_id (round.before g.executions))
          (λ s found.
            find_state-AllStates (λ n. IsTarget (OrEnd (λ t. find_state t body ≢ none))) body
              current s closed found)
          (λ gone. absurd (there gone)))

  -- If each state of the definition names only states that the definition has, or the end, then the
  -- loop, started at a state that it has, never looks for a state that is not there, whatever the
  -- functions answer, whatever others write in between, and however many turns it takes.
  pub main_loop-IsClosed :
      (rounds : List (Round F)) (exec : Execution F) (current : String) (given : Raw F)
      (g : Engine F W)
      → IsClosed body
      → find_state current body ≢ none
      → (main_loop services print fuel body rounds exec current given g).1 ≢ no_such_state
  main_loop-IsClosed rounds exec current given g closed there lost =
      absurd (cc (main_loop_found rounds exec current given g closed there, ap is_found lost))

-- A worker that runs the workflow of an accepted request from its start never looks for a state that
-- is not there, if the states of its definition name only one another, or the end.
pub main_loop-validate :
    {F W : Type 0} (services : Services F W) (print : Cause → String) (fuel : ℕ)
    (r : CreateWorkflowRequest F) (rounds : List (Round F)) (exec : Execution F) (given : Raw F)
    (g : Engine F W)
    → (validate r).1 ≡ none
    → IsClosed r.request_definition.states
    → (main_loop services print fuel r.request_definition.states rounds exec
        r.request_definition.start_at given g).1
      ≢ no_such_state
main_loop-validate services print fuel r rounds exec given g accepted closed =
    main_loop-IsClosed services print fuel r.request_definition.states rounds exec
      r.request_definition.start_at given g closed (validate-start r accepted)
