-- ===== src/Workflow/Executor.antt =====
-- The execution of one state (internal/workflow/executor.go). The scheduler, the clock and the
-- context are a record of services on a world `W`; the writes of the state's record and the calls of
-- the scheduler are kept in the run, newest first. The goroutines of a Parallel state run one after
-- another, and the services say in which order their results arrive. A branch is bounded by fuel.
pub mod Retry
pub mod Ensures
pub mod Task
use function.Prelude.{
  ℕ, String, Bool, false, not, ◌&&◌, ◌||◌, none, some, List, [], ◌∷◌, leb, if◌then◌else◌, ◌==◌,
}
use function.Prelude.Int.{ℤ, pos_part}
use function.Workflow.Json.{Raw, absent}
use function.Workflow.Path.{Result, ok, err, panic}
use function.Workflow.Evaluator.{Primitives, evaluate_choice}
use function.Workflow.Types.{
  RetryPolicy, CatchConfig, ChoiceRule, Rules, Spec, States, Cause, Execution, StateExecution,
  StateResult, BranchResult, rule, no_rules, more_rules, failed, no_choice_matched, path_failure,
  message,
}

-- `InvokeResponse`, and the two ends of `Scheduler.Invoke`.
pub record Response (F : Type 0) : Type 0 where
  pub request_id : String
  pub status_code : ℤ
  pub body : Raw F
  pub response_error : String

pub data Reply (F : Type 0) : Type 0 where
  refused : String → Reply F
  replied : Response F → Reply F

-- What a state waits for: a number of seconds, an instant, or its branches.
pub data Delay : Type 0 where
  for_seconds : ℤ → Delay
  until : ℤ → Delay
  all_branches : Delay

-- What the executor uses of the rest. `sleep` says whether the context was done first. `scale` and
-- `truncate` are the float64 product and `int(x)`.
pub record Services (F W : Type 0) : Type 0 where
  pub invoke : W → String → Raw F → W × Reply F
  pub sleep : W → Delay → W × Bool
  pub is_done : W → Bool
  pub arrival : W → List (BranchResult F) → List (BranchResult F)
  pub primitives : Primitives F
  pub float : ℤ → F
  pub scale : F → F → F
  pub truncate : F → ℤ

pub record Run (F W : Type 0) : Type 0 where
  pub world : W
  pub writes : List (StateExecution F)
  pub calls : List (String × Raw F)

-- A step of the executor: its value and run, a panic, or more fuel wanted.
pub data Step (F W A : Type 0) : Type 0 where
  done : A → Run F W → Step F W A
  panicked : Step F W A
  out_of_fuel : Step F W A

-- How an attempt of a Task state ends: with a result, or with an error that may be retried.
pub data Attempt (F : Type 0) : Type 0 where
  ended : StateResult F → Attempt F
  errored : Cause → Attempt F

infixl 5 ◌>>=◌
abbrev pub ◌>>=◌ :
    {F W A B : Type 0} → (Run F W → Step F W A) → (A → Run F W → Step F W B) → Run F W → Step F W B
(m >>= f) r = elim (m r) [ done a r' ↦ f a r' | panicked ↦ panicked | out_of_fuel ↦ out_of_fuel ]

abbrev pub return : {F W A : Type 0} → A → Run F W → Step F W A
return a r = done a r

abbrev pub matches_error : String → List String → Bool
matches_error code [] = false
matches_error code (e ∷ es) = e == "States.ALL" || e == code || matches_error code es

-- `findCatch`
unfoldable pub find_catch : List CatchConfig → String → String
find_catch [] code = ""
find_catch (c ∷ cs) code =
    let rest = find_catch cs code in
    if matches_error code c.catch_errors then c.catch_next else rest

abbrev or_else : String → String → String
or_else s default = if s == "" then default else s

module _ {F : Type 0} where
  -- `shouldRetry`
  unfoldable pub should_retry : RetryPolicy F → String → ℕ → Bool
  should_retry policy code attempt =
      not (leb (pos_part policy.max_attempts) attempt) && matches_error code policy.error_equals

  -- `getNextState`
  unfoldable pub get_next_state : Spec F → String
  get_next_state s = if s.end_state then "" else s.next

  unfoldable pub success : Raw F → String → StateResult F
  success output next = record {
    result_output = output;
    next_state = next;
    result_error = none;
    result_code = "";
    caught_by_state = "";
  }

  unfoldable pub failure : Cause → String → String → StateResult F
  failure e code caught = record {
    result_output = absent;
    next_state = "";
    result_error = some e;
    result_code = code;
    caught_by_state = caught;
  }

  -- `executePassState`
  unfoldable pub execute_pass_state : Spec F → Raw F → StateResult F
  unfolding success get_next_state
  execute_pass_state s input =
      success (elim (s.result) [ absent ↦ input | r ↦ r ]) (get_next_state s)

  -- `executeFailState`
  unfoldable pub execute_fail_state : Spec F → StateResult F
  unfolding failure
  execute_fail_state s =
      failure (message (or_else s.cause "Execution failed")) (or_else s.error "States.Fail") ""

  -- `executeSucceedState`
  unfoldable pub execute_succeed_state : Raw F → StateResult F
  unfolding success
  execute_succeed_state input = success input ""

  unfoldable pub no_choice : Spec F → Raw F → StateResult F
  unfolding success failure
  no_choice s input =
      if s.default == ""
      then failure no_choice_matched "States.NoChoiceMatched" ""
      else success input s.default

  unfoldable pub next_of : ChoiceRule F → String
  next_of (rule next c ands ors n) = next

  unfoldable pub choose_by :
      Result Bool → ChoiceRule F → Raw F → Result (StateResult F) → Result (StateResult F)
  unfolding success failure next_of
  choose_by (ok b) r input rest = if b then ok (success input (next_of r)) else rest
  choose_by (err e) r input rest = ok (failure (path_failure e) "States.ChoiceEvaluationError" "")
  choose_by panic r input rest = panic

  -- The loop of `executeChoiceState` over the rules.
  unfoldable pub choose : Primitives F → Spec F → Rules F → Raw F → Result (StateResult F)
  unfolding no_choice evaluate_choice choose_by
  choose p s no_rules input = ok (no_choice s input)
  choose p s (more_rules r rs) input =
      let rest = choose p s rs input in choose_by (evaluate_choice p r input) r input rest

  -- `executeChoiceState`
  unfoldable pub execute_choice_state : Primitives F → Spec F → Raw F → Result (StateResult F)
  unfolding choose
  execute_choice_state p s input = choose p s s.choices input

  module _ {W : Type 0} (services : Services F W) where
    unfoldable pub call : String → Raw F → Run F W → Step F W (Reply F)
    call f payload r =
        let out = services.invoke r.world f payload in
        done (out.1) (record { world = out.0; writes = r.writes; calls = (f, payload) ∷ r.calls })

    unfoldable pub pause : Delay → Run F W → Step F W Bool
    pause d r =
        let out = services.sleep r.world d in
        done (out.1) (record { world = out.0; writes = r.writes; calls = r.calls })

    -- `UpdateStateExecution` and `CreateStateExecution`, whose errors are ignored or logged.
    unfoldable pub save : StateExecution F → Run F W → Step F W (StateExecution F)
    save e r = done e (record { world = r.world; writes = e ∷ r.writes; calls = r.calls })
