-- ===== src/Workflow/Engine/Termination.antt =====
-- How long a worker runs (internal/workflow/engine.go `executeWorkflowTask`).
use function.Prelude.{
  ℕ, ◌<◌, String, ◌≡◌, ◌≢◌, refl, ap, Bool, true, false, List, [], ◌∷◌, arith, length, lookup,
}
use function.Workflow.Types.{States, Cause, Execution}
use function.Workflow.Json.{Raw}
use function.Workflow.Executor.{Services}
use function.Workflow.States.Targets.{IsTarget}
use function.Workflow.Engine.{Engine}
use function.Workflow.Engine.Worker.{Exit, Round, still_running, main_loop}
use function.Workflow.Engine.Turns.{
  is_usual, OrEnd, AllStates, find_state-AllStates, if_Leaves, checked-Leaves, Leaves,
}

-- Each state of the workflow names only the end, or states of a lower rank.
abbrev pub Falls : {F : Type 0} → (String → ℕ) → States F → Type 0
Falls rank = AllStates (λ n. IsTarget (OrEnd (λ t. rank t < rank n)))

abbrev is_left : Exit → Bool
is_left still_running = false
is_left _ = true

usual_is_left : (e : Exit) → is_usual e ≡ true → is_left e ≡ true
usual_is_left still_running h = h
usual_is_left _ h = refl

module _ {F W : Type 0} (services : Services F W) (print : Cause → String) (fuel : ℕ)
    (rank : String → ℕ) where
  main_loop-Leaves :
      (body : States F) (rounds : List (Round F)) (exec : Execution F) (current : String)
      (given : Raw F) (g : Engine F W)
      → Falls rank body
      → rank current < length rounds
      → Leaves is_left (main_loop services print fuel body rounds exec current given g)
  unfolding main_loop
  main_loop-Leaves body [] exec current given g falls less = absurd (omega arith)
  main_loop-Leaves body (round ∷ rounds) exec current given g falls less =
      if_Leaves is_left round.shutdown _ _ refl (
        checked-Leaves services print fuel is_left usual_is_left current
          (λ t. rank t < rank current) (main_loop services print fuel body rounds)
          (λ t low exec' given' g'.
            main_loop-Leaves body rounds exec' t given' g' falls (omega arith))
          body round exec given (record g { executions = round.before g.executions })
          (lookup exec.execution_id (round.before g.executions))
          (λ s found.
            find_state-AllStates (λ n. IsTarget (OrEnd (λ t. rank t < rank n))) body current s falls
              found)
          (λ _. refl))

  -- If each state of the definition names only states of a lower rank than its own, or the end, then
  -- the loop, started at any state and given more turns than that state's rank, leaves the task,
  -- whatever the functions answer, whatever others write in between, and whatever the time is; it may leave it for want of fuel in a branch.
  pub main_loop_ends :
      (body : States F) (rounds : List (Round F)) (exec : Execution F) (current : String)
      (given : Raw F) (g : Engine F W)
      → Falls rank body
      → rank current < length rounds
      → (main_loop services print fuel body rounds exec current given g).1 ≢ still_running
  main_loop_ends body rounds exec current given g falls less stuck =
      absurd (cc (main_loop-Leaves body rounds exec current given g falls less, ap is_left stuck))
