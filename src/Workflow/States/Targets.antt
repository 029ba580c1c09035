-- ===== src/Workflow/States/Targets.antt =====
-- Where a state can lead: only to the states that its definition names
-- (internal/workflow/executor.go `ExecuteState`).
pub mod Wait
pub mod Task
pub mod Whole
use function.Prelude.{String, Bool, true, false, List, [], ◌∷◌, if◌then◌else◌, All, ◌==◌}
use function.Workflow.Types.{
  CatchConfig, ChoiceRule, Rules, Spec, State, States, Cause, StateExecution, StateResult, no_rules,
  more_rules, state, no_choice_matched, path_failure,
}
use function.Workflow.Json.{Raw, absent}
use function.Workflow.Path.{Result, ok, err, panic}
use function.Workflow.Evaluator.{Primitives, evaluate_choice}
use function.Workflow.Executor.{
  Services, Run, Step, ◌>>=◌, success, failure, find_catch, matches_error, get_next_state,
  execute_pass_state, execute_fail_state, no_choice, next_of, choose_by, choose,
}
use function.Workflow.Executor.Ensures.{Ensures, Any, Ensures-bind, Ensures-Any}
use function.Workflow.States.{from_result}

abbrev pub AllRules : {F : Type 0} → (String → Type 0) → Rules F → Type 0
AllRules P no_rules = Unit
AllRules P (more_rules r rs) = P (next_of r) × AllRules P rs

-- The end, and every state that the definition of the state names, have the property.
abbrev pub IsTarget : {F : Type 0} → (String → Type 0) → Spec F → Type 0
IsTarget P s =
    P "" × P s.next × P s.default × AllRules P s.choices × All (λ c. P c.catch_next) s.catch

unfoldable pub spec_of : {F : Type 0} → State F → Spec F
spec_of (state s bs) = s

module _ (P : String → Type 0) where
  if_holds : (b : Bool) (x y : String) → P x → P y → P (if b then x else y)
  if_holds true x y h k = h
  if_holds false x y h k = k

  pub catch_goes :
      (cs : List CatchConfig) (code : String)
      → P ""
      → All (λ c. P c.catch_next) cs
      → P (find_catch cs code)
  unfolding find_catch
  catch_goes [] code e h = e
  catch_goes (c ∷ cs) code e h =
      if_holds (matches_error code c.catch_errors) _ _ h.0 (catch_goes cs code e h.1)

  abbrev pub Goes : {F : Type 0} → StateResult F → Type 0
  Goes res = P res.next_state × P res.caught_by_state

  pub success-Goes : {F : Type 0} (o : Raw F) (n : String) → P n → P "" → Goes (success o n)
  unfolding success
  success-Goes o n h e = (h, e)

  pub failure-Goes :
      (F : Type 0) (c : Cause) (code n : String) → P n → P "" → Goes (failure {F = F} c code n)
  unfolding failure
  failure-Goes F c code n h e = (e, h)

module _ {F : Type 0} (P : String → Type 0) where
  pub next_goes : (s : Spec F) → IsTarget P s → P (get_next_state s)
  unfolding get_next_state
  next_goes s h = if_holds P s.end_state _ _ h.0 h.1

  -- The result of a choice, if it is one.
  abbrev pub GoesResult : Result (StateResult F) → Type 0
  GoesResult (ok res) = Goes P res
  GoesResult (err e) = P ""
  GoesResult panic = Unit

  if_GoesResult :
      (b : Bool) (x y : Result (StateResult F))
      → GoesResult x
      → GoesResult y
      → GoesResult (if b then x else y)
  if_GoesResult true x y h k = h
  if_GoesResult false x y h k = k

  choose_by-GoesResult :
      (b : Result Bool) (r : ChoiceRule F) (input : Raw F) (rest : Result (StateResult F))
      → P ""
      → P (next_of r)
      → GoesResult rest
      → GoesResult (choose_by b r input rest)
  unfolding choose_by
  choose_by-GoesResult (ok b) r input rest e h k =
      if_GoesResult b _ _ (success-Goes P input (next_of r) h e) k
  choose_by-GoesResult (err x) r input rest e h k =
      failure-Goes P F (path_failure x) "States.ChoiceEvaluationError" "" e e
  choose_by-GoesResult panic r input rest e h k = tt

  pub if_Goes : (b : Bool) (x y : StateResult F) → Goes P x → Goes P y → Goes P (if b then x else y)
  if_Goes true x y h k = h
  if_Goes false x y h k = k

  pub choose-GoesResult :
      (p : Primitives F) (s : Spec F) (rs : Rules F) (input : Raw F)
      → P ""
      → P s.default
      → AllRules P rs
      → GoesResult (choose p s rs input)
  unfolding choose no_choice
  choose-GoesResult p s no_rules input e d h =
      if_Goes (s.default == "") _ _
        (failure-Goes P F no_choice_matched "States.NoChoiceMatched" "" e e)
        (success-Goes P input s.default d e)
  choose-GoesResult p s (more_rules r rs) input e d h =
      choose_by-GoesResult (evaluate_choice p r input) r input (choose p s rs input) e h.0
        (choose-GoesResult p s rs input e d h.1)

  pub execute_pass_state-Goes :
      (s : Spec F) (input : Raw F) → IsTarget P s → Goes P (execute_pass_state s input)
  unfolding execute_pass_state
  execute_pass_state-Goes s input h =
      success-Goes P (elim (s.result) [ absent ↦ input | r ↦ r ]) (get_next_state s) (next_goes s h)
        h.0

  pub execute_fail_state-Goes : (s : Spec F) → P "" → Goes P (execute_fail_state s)
  unfolding execute_fail_state failure
  execute_fail_state-Goes s e = (e, e)

  module _ {W : Type 0} (services : Services F W) where
    abbrev pub Leads : (Run F W → Step F W (StateResult F)) → Type 0
    Leads m = Ensures (Goes P {F = F}) m

    -- A step whose value may be anything, then one that leads to named states.
    pub bind-Leads :
        {A : Type 0} (m : Run F W → Step F W A) (f : A → Run F W → Step F W (StateResult F))
        → ((a : A) → Leads (f a))
        → Leads (m >>= f)
    bind-Leads m f h = Ensures-bind Any (Goes P {F = F}) m f (Ensures-Any m) (λ a _. h a)

    pub from_result-Leads :
        (r : Result (StateResult F)) → GoesResult r → Leads (from_result services r)
    unfolding from_result failure
    from_result-Leads (ok res) h r = h
    from_result-Leads (err e) h r = (h, h)
    from_result-Leads panic h r = tt

    abbrev pub LeadsPair : (Run F W → Step F W (StateResult F × StateExecution F)) → Type 0
    LeadsPair m = Ensures (λ out. Goes P (out.0)) m
