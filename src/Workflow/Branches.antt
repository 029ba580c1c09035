-- ===== src/Workflow/Branches.antt =====
-- Parallel states (internal/workflow/executor.go). The branches run one after
-- another in the model; `arrival` is the order in which their results are received, and the context
-- may be done before all are there.
pub mod Join
use function.Prelude.{ℕ, zero, suc, String, Bool, true, false, Option, none, some, List, [], ◌∷◌}
use function.Workflow.Json.{null, arr, Items, nil, cons, Raw, absent, invalid, doc}
use function.Workflow.Types.{
  Spec, Branches, States, Cause, StateResult, BranchResult, no_branches, branch, context_done,
  bad_output,
}
use function.Workflow.Executor.{
  all_branches, Services, Run, Step, done, ◌>>=◌, return, success, failure, find_catch, pause,
  get_next_state,
}

-- The results as they arrive: the first error and its code, and the outputs by index.
pub record Collected (F : Type 0) : Type 0 where
  pub first_error : Option Cause
  pub first_code : String
  pub outputs : List (Raw F)

abbrev pub first_of : Option Cause → Cause → Cause
first_of none e = e
first_of (some e') e = e'

abbrev pub code_of : Option Cause → String → String → String
code_of none old new = new
code_of (some e) old new = old

module _ {F : Type 0} where
  unfoldable pub put : ℕ → Raw F → List (Raw F) → List (Raw F)
  put i r [] = []
  put zero r (o ∷ os) = r ∷ os
  put (suc i) r (o ∷ os) = o ∷ put i r os

  unfoldable pub add_result : Option Cause → BranchResult F → Collected F → Collected F
  unfolding put
  add_result none b c = record c { outputs = put b.branch_index b.branch_output c.outputs }
  add_result (some e) b c = record c {
    first_error = some (first_of c.first_error e);
    first_code = code_of c.first_error c.first_code b.branch_code;
  }

  -- One turn of the loop over the results. An error after the first one changes nothing.
  unfoldable pub receive : BranchResult F → Collected F → Collected F
  unfolding add_result
  receive b c = add_result b.branch_error b c

  unfoldable pub collect : List (BranchResult F) → Collected F → Collected F
  unfolding receive
  collect [] c = c
  collect (b ∷ bs) c = collect bs (receive b c)

  -- `json.Marshal` of the outputs: a nil message is `null`.
  unfoldable pub marshal : List (Raw F) → Option (Items F)
  marshal [] = some nil
  marshal (o ∷ os) =
      let rest = marshal os in
      elim rest [
        | none ↦ none
        | some vs ↦ elim o [
          | absent ↦ some (cons null vs)
          | invalid ↦ none
          | doc v ↦ some (cons v vs)
        ]
      ]

  unfoldable pub empty_outputs : Branches F → List (Raw F)
  empty_outputs no_branches = []
  empty_outputs (branch start body bs) = absent ∷ empty_outputs bs

  unfoldable pub merge_outputs : Spec F → Option (Items F) → StateResult F
  unfolding success failure get_next_state
  merge_outputs s none = failure bad_output "States.BranchFailed" ""
  merge_outputs s (some vs) = success (doc (arr vs)) (get_next_state s)

  unfoldable pub join_collected : Option Cause → Spec F → Collected F → StateResult F
  unfolding merge_outputs marshal failure find_catch
  join_collected none s c = merge_outputs s (marshal c.outputs)
  join_collected (some e) s c = failure e c.first_code (find_catch s.catch c.first_code)

  -- The end of `executeParallelState`, once all results are there.
  unfoldable pub join : Spec F → List (Raw F) → List (BranchResult F) → StateResult F
  unfolding join_collected collect
  join s outputs results =
      let c = collect results (record { first_error = none; first_code = ""; outputs = outputs }) in
      join_collected c.first_error s c

  unfoldable pub branch_failed : ℕ → Cause → String → BranchResult F
  branch_failed i e code = record {
    branch_index = i;
    branch_output = absent;
    branch_error = some e;
    branch_code = code;
  }

  unfoldable pub branch_done : ℕ → StateResult F → BranchResult F
  branch_done i r = record {
    branch_index = i;
    branch_output = r.result_output;
    branch_error = r.result_error;
    branch_code = r.result_code;
  }

  module _ {W : Type 0} (services : Services F W) where
    -- The goroutines of the branches; `run` is `executeBranch` of an index.
    unfoldable pub run_branches :
        (ℕ → String → States F → Run F W → Step F W (BranchResult F))
        → ℕ
        → Branches F
        → Run F W
        → Step F W (List (BranchResult F))
    run_branches run i no_branches = return []
    run_branches run i (branch start body bs) = do
      b ← run i start body
      rest ← run_branches run (suc i) bs
      return (b ∷ rest)

    -- The context may be done before all results are there.
    unfoldable pub after_branches :
        Spec F → Branches F → List (BranchResult F) → Bool → Run F W → Step F W (StateResult F)
    unfolding failure join empty_outputs
    after_branches s bs results true r = done (failure context_done "States.Timeout" "") r
    after_branches s bs results false r =
        done (join s (empty_outputs bs) (services.arrival r.world results)) r

    unfoldable pub await :
        Spec F → Branches F → List (BranchResult F) → Run F W → Step F W (StateResult F)
    unfolding pause after_branches
    await s bs results = do over ← pause services all_branches; after_branches s bs results over

    -- `executeParallelState`
    unfoldable pub execute_parallel_state :
        (ℕ → String → States F → Run F W → Step F W (BranchResult F))
        → Spec F
        → Branches F
        → Run F W
        → Step F W (StateResult F)
    unfolding run_branches success get_next_state await
    execute_parallel_state run s no_branches = return (success (doc (arr nil)) (get_next_state s))
    execute_parallel_state run s (branch start body bs) = do
      results ← run_branches run 0 (branch start body bs)
      await s (branch start body bs) results
