-- ===== src/Workflow/Engine/Turns.antt =====
-- One turn of a worker (internal/workflow/engine.go `executeWorkflowTask`): what holds of its exit.
use function.Prelude.{
  ℕ, String, ◌≡◌, refl, ◌⊎◌, inl, inr, Bool, true, false, Option, none, some, if◌then◌else◌, ◌==◌,
  eq_iff,
}
use mathlib.Core.Path.{subst}
use function.Workflow.Types.{
  State, States, Cause, Execution, StateResult, Spec, find_state, no_states, named,
}
use function.Workflow.Json.{Raw}
use function.Workflow.Executor.{Services, Step, done, panicked, out_of_fuel}
use function.Workflow.Executor.Ensures.{Post}
use function.Workflow.States.{execute_state}
use function.Workflow.States.Targets.{Goes, IsTarget, spec_of}
use function.Workflow.States.Targets.Whole.{execute_state-IsTarget}
use function.Workflow.Engine.{Engine, is_cancelled, is_late}
use function.Workflow.Engine.Worker.{
  Exit, lost_execution, was_cancelled, over_time, at_breakpoint, no_such_state, failed_state,
  succeeded_state, crashed, no_fuel, Round, write, Loop, still_running, after_result, after_step,
  run_state, checked,
}

abbrev pub is_usual : Exit → Bool
is_usual still_running = false
is_usual no_such_state = false
is_usual _ = true

abbrev pub OrEnd : (String → Type 0) → String → Type 0
OrEnd P t = (t ≡ "") ⊎ P t

-- Every state of a definition has the property.
abbrev pub AllStates : {F : Type 0} → (String → Spec F → Type 0) → States F → Type 0
AllStates Q no_states = Unit
AllStates Q (named n s body) = Q n (spec_of s) × AllStates Q body

module _ {F : Type 0} (Q : String → Spec F → Type 0) where
  named_state :
      (b : Bool) (n current : String) (s s' : State F) (rest : Option (State F))
      → Q n (spec_of s')
      → (b ≡ true → n ≡ current)
      → (rest ≡ some s → Q current (spec_of s))
      → (if b then some s' else rest) ≡ some s
      → Q current (spec_of s)
  named_state true n current s s' rest h same k found =
      let one : s' ≡ s = cc found in
      let here : n ≡ current = same refl in
      subst (λ x. Q current (spec_of x)) one (subst (λ x. Q x (spec_of s')) here h)
  named_state false n current s s' rest h same k found = k found

  pub find_state-AllStates :
      (body : States F) (current : String) (s : State F)
      → AllStates Q body
      → find_state current body ≡ some s
      → Q current (spec_of s)
  unfolding find_state
  find_state-AllStates no_states current s h found = absurd (cc found)
  find_state-AllStates (named n s' body) current s h found =
      named_state (n == current) n current s s' (find_state current body) h.0 (eq_iff n current).0
        (find_state-AllStates body current s h.1) found

module _ {F W : Type 0} where
  abbrev pub Leaves : (Exit → Bool) → Engine F W × Exit → Type 0
  Leaves good out = good (out.1) ≡ true

  pub if_Leaves :
      (good : Exit → Bool) (b : Bool) (x y : Engine F W × Exit)
      → Leaves good x
      → Leaves good y
      → Leaves good (if b then x else y)
  if_Leaves good true x y h k = h
  if_Leaves good false x y h k = k

  module _ (services : Services F W) (print : Cause → String) (fuel : ℕ) (good : Exit → Bool)
      (usual : (e : Exit) → is_usual e ≡ true → good e ≡ true) where
    module _ (current : String) (P : String → Type 0) (next : Loop services print)
        (lower : (t : String)
          → P t
          → (exec : Execution F) (given : Raw F) (g : Engine F W)
          → Leaves good (next exec t given g)) where
      step_Leaves :
          (t : String) (x : Engine F W × Exit) (exec : Execution F) (given : Raw F) (g : Engine F W)
          → OrEnd P t
          → Leaves good x
          → Leaves good (if t == "" then x else next exec t given g)
      step_Leaves t x exec given g (inl eq) h = rw (eq) h
      step_Leaves t x exec given g (inr less) h =
          if_Leaves good (t == "") x (next exec t given g) h (lower t less exec given g)

      after_result-Leaves :
          (e : Option Cause) (round : Round F) (exec : Execution F) (res : StateResult F)
          (g : Engine F W)
          → Goes (OrEnd P) res
          → Leaves good (after_result services print e next round exec res g)
      unfolding after_result
      after_result-Leaves (some cause) round exec res g (goes, caught) =
          step_Leaves res.caught_by_state _ exec _ g caught (usual failed_state refl)
      after_result-Leaves none round exec res g (goes, caught) =
          step_Leaves res.next_state _ exec res.result_output g goes (usual succeeded_state refl)

      after_step-Leaves :
          (round : Round F) (exec : Execution F) (g : Engine F W) (out : Step F W (StateResult F))
          → Post (Goes (OrEnd P)) out
          → Leaves good (after_step services print next round exec g out)
      unfolding after_step
      after_step-Leaves round exec g (done res r) h =
          after_result-Leaves res.result_error round exec res
            (record g { executions = round.during g.executions; run = r }) h
      after_step-Leaves round exec g panicked h = usual crashed refl
      after_step-Leaves round exec g out_of_fuel h = usual no_fuel refl

      run_state-Leaves :
          (round : Round F) (exec : Execution F) (given : Raw F) (o : Option (State F))
          (g : Engine F W)
          → ((s : State F) → o ≡ some s → IsTarget (OrEnd P) (spec_of s))
          → (o ≡ none → good no_such_state ≡ true)
          → Leaves good (run_state services print fuel next round exec current given o g)
      unfolding run_state
      run_state-Leaves round exec given none g h missing = missing refl
      run_state-Leaves round exec given (some s) g h missing =
          let exec' : Execution F = record exec { current_state = current } in
          after_step-Leaves round exec' (write services print round.saves exec' g)
            (execute_state services fuel current s given
              (write services print round.saves exec' g).run)
            (execute_state-IsTarget (OrEnd P) services fuel current s given (h s refl)
              (write services print round.saves exec' g).run)

      pub checked-Leaves :
          (body : States F) (round : Round F) (exec : Execution F) (given : Raw F) (g : Engine F W)
          (o : Option (Execution F))
          → ((s : State F) → find_state current body ≡ some s → IsTarget (OrEnd P) (spec_of s))
          → (find_state current body ≡ none → good no_such_state ≡ true)
          → Leaves good (checked services print fuel body next round exec current given g o)
      unfolding checked
      checked-Leaves body round exec given g none h missing = usual lost_execution refl
      checked-Leaves body round exec given g (some latest) h missing =
          if_Leaves good (is_cancelled latest.status) _ _ (usual was_cancelled refl) (
            if_Leaves good (is_late exec round.now) _ _ (usual over_time refl) (
              if_Leaves good round.breakpoint _ _ (usual at_breakpoint refl)
                (run_state-Leaves round exec given (find_state current body) g h missing)))
