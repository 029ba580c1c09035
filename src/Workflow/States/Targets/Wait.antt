-- ===== src/Workflow/States/Targets/Wait.antt =====
-- Where Wait and Parallel states lead (internal/workflow/executor.go `executeWaitState`,
-- `executeParallelState`).
use function.Prelude.{ℕ, String, Bool, true, false, Option, none, some, List, if◌then◌else◌, ◌==◌}
use function.Prelude.Int.{ℤ, pos, ltb_ℤ}
use function.Workflow.Types.{
  Spec, Branches, States, Cause, BranchResult, no_branches, branch, context_done, invalid_timestamp,
  bad_output,
}
use function.Workflow.Json.{Items, nil, arr, Raw, doc}
use function.Workflow.Executor.{
  Services, Run, Step, Delay, for_seconds, until, all_branches, find_catch, get_next_state, pause,
}
use function.Workflow.Executor.Task.{after_wait, wait_for, wait_until, execute_wait_state}
use function.Workflow.Executor.Ensures.{Ensures-if}
use function.Workflow.Branches.{
  Collected, join, join_collected, merge_outputs, collect, marshal, empty_outputs, after_branches,
  await, run_branches, execute_parallel_state,
}
use function.Workflow.States.Targets.{
  IsTarget, Goes, catch_goes, success-Goes, failure-Goes, next_goes, Leads, bind-Leads,
}

module _ {F W : Type 0} (P : String → Type 0) (services : Services F W) where
  after_wait-Leads :
      (s : Spec F) (input : Raw F) (over : Bool)
      → IsTarget P s
      → Leads P services (after_wait services s input over)
  unfolding after_wait
  after_wait-Leads s input true h r = failure-Goes P F context_done "States.Timeout" "" h.0 h.0
  after_wait-Leads s input false h r = success-Goes P input (get_next_state s) (next_goes P s h) h.0

  wait_for-Leads :
      (s : Spec F) (input : Raw F) (d : Delay)
      → IsTarget P s
      → Leads P services (wait_for services s input d)
  unfolding wait_for
  wait_for-Leads s input d h =
      bind-Leads P services (pause services d) (after_wait services s input)
        (λ over. after_wait-Leads s input over h)

  wait_until-Leads :
      (s : Spec F) (input : Raw F) (o : Option ℤ)
      → IsTarget P s
      → Leads P services (wait_until services s input o)
  unfolding wait_until
  wait_until-Leads s input none h =
      λ r. failure-Goes P F invalid_timestamp "States.InvalidTimestamp" "" h.0 h.0
  wait_until-Leads s input (some t) h = wait_for-Leads s input (until t) h

  pub execute_wait_state-Leads :
      (s : Spec F) (input : Raw F)
      → IsTarget P s
      → Leads P services (execute_wait_state services s input)
  unfolding execute_wait_state
  execute_wait_state-Leads s input h =
      Ensures-if (Goes P {F = F}) (ltb_ℤ (pos 0) s.seconds)
        (wait_for services s input (for_seconds s.seconds))
        (if s.timestamp == ""
          then wait_for services s input (for_seconds (pos 0))
          else wait_until services s input (services.primitives.parse_time s.timestamp))
        (wait_for-Leads s input (for_seconds s.seconds) h)
        (Ensures-if (Goes P {F = F}) (s.timestamp == "")
          (wait_for services s input (for_seconds (pos 0)))
          (wait_until services s input (services.primitives.parse_time s.timestamp))
          (wait_for-Leads s input (for_seconds (pos 0)) h)
          (wait_until-Leads s input (services.primitives.parse_time s.timestamp) h))

  merge_outputs-Goes :
      (s : Spec F) (o : Option (Items F)) → IsTarget P s → Goes P (merge_outputs s o)
  unfolding merge_outputs
  merge_outputs-Goes s none h = failure-Goes P F bad_output "States.BranchFailed" "" h.0 h.0
  merge_outputs-Goes s (some vs) h =
      success-Goes P (doc (arr vs)) (get_next_state s) (next_goes P s h) h.0

  join_collected-Goes :
      (e : Option Cause) (s : Spec F) (c : Collected F)
      → IsTarget P s
      → Goes P (join_collected e s c)
  unfolding join_collected
  join_collected-Goes none s c h = merge_outputs-Goes s (marshal c.outputs) h
  join_collected-Goes (some e) s c h =
      failure-Goes P F e c.first_code (find_catch s.catch c.first_code)
        (catch_goes P s.catch c.first_code h.0 h.4) h.0

  join-Goes :
      (s : Spec F) (outputs : List (Raw F)) (results : List (BranchResult F))
      → IsTarget P s
      → Goes P (join s outputs results)
  unfolding join
  join-Goes s outputs results h =
      let c : Collected F =
        collect results (record { first_error = none; first_code = ""; outputs = outputs }) in
      join_collected-Goes c.first_error s c h

  after_branches-Leads :
      (s : Spec F) (bs : Branches F) (results : List (BranchResult F)) (over : Bool)
      → IsTarget P s
      → Leads P services (after_branches services s bs results over)
  unfolding after_branches
  after_branches-Leads s bs results true h r =
      failure-Goes P F context_done "States.Timeout" "" h.0 h.0
  after_branches-Leads s bs results false h r =
      join-Goes s (empty_outputs bs) (services.arrival r.world results) h

  await-Leads :
      (s : Spec F) (bs : Branches F) (results : List (BranchResult F))
      → IsTarget P s
      → Leads P services (await services s bs results)
  unfolding await
  await-Leads s bs results h =
      bind-Leads P services (pause services all_branches) (after_branches services s bs results)
        (λ over. after_branches-Leads s bs results over h)

  pub execute_parallel_state-Leads :
      (run : ℕ → String → States F → Run F W → Step F W (BranchResult F)) (s : Spec F)
      (bs : Branches F)
      → IsTarget P s
      → Leads P services (execute_parallel_state services run s bs)
  unfolding execute_parallel_state
  execute_parallel_state-Leads run s no_branches h =
      λ r. success-Goes P {F = F} (doc (arr nil)) (get_next_state s) (next_goes P s h) h.0
  execute_parallel_state-Leads run s (branch start body bs) h =
      bind-Leads P services (run_branches services run 0 (branch start body bs))
        (await services s (branch start body bs))
        (λ results. await-Leads s (branch start body bs) results h)
