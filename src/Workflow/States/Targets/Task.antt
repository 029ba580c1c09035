-- ===== src/Workflow/States/Targets/Task.antt =====
-- Where Task states lead (internal/workflow/executor.go `executeTaskState`).
use function.Prelude.{
  ℕ, zero, suc, String, Bool, true, false, not, ◌||◌, Option, none, some, leb, if◌then◌else◌, ◌==◌,
}
use function.Prelude.Int.{pos_part}
use function.Workflow.Types.{
  Spec, Cause, StateExecution, StateResult, context_done, execution_failed,
}
use function.Workflow.Json.{Raw}
use function.Workflow.Executor.{
  Services, Run, Step, Attempt, ended, errored, Reply, refused, replied, Response, return, success,
  get_next_state, save, call,
}
use function.Workflow.Executor.Task.{
  give_up, before_attempt, verdict, unless_over, after_attempt, judge, call_function, attempt_once,
  retries, attempts, max_attempts_of, execute_task_state,
}
use function.Workflow.Executor.Ensures.{Ensures, Any, Ensures-bind, Ensures-Any, Ensures-if}
use function.Workflow.States.Targets.{
  IsTarget, Goes, catch_goes, success-Goes, failure-Goes, next_goes, LeadsPair,
}

module _ {F W : Type 0} (P : String → Type 0) (services : Services F W) where
  AttemptGoes : Attempt F → Type 0
  AttemptGoes (ended res) = Goes P res
  AttemptGoes (errored cause) = Unit

  abbrev LeadsAttempt : (Run F W → Step F W (Attempt F × StateExecution F)) → Type 0
  LeadsAttempt m = Ensures (λ out. AttemptGoes (out.0)) m

  if_AttemptGoes :
      (b : Bool) (x y : Attempt F)
      → AttemptGoes x
      → AttemptGoes y
      → AttemptGoes (if b then x else y)
  if_AttemptGoes true x y h k = h
  if_AttemptGoes false x y h k = k

  verdict-AttemptGoes :
      (s : Spec F) (resp : Response F) → IsTarget P s → AttemptGoes (verdict services s resp)
  unfolding verdict AttemptGoes
  verdict-AttemptGoes s resp h =
      if_AttemptGoes (leb 400 (pos_part resp.status_code) || not (resp.response_error == ""))
        (errored (execution_failed resp.response_error))
        (ended (success resp.body (get_next_state s))) tt
        (success-Goes P resp.body (get_next_state s) (next_goes P s h) h.0)

  judge-LeadsAttempt :
      (s : Spec F) (input : Raw F) (e : StateExecution F) (reply : Reply F)
      → IsTarget P s
      → LeadsAttempt (judge services s input e reply)
  unfolding judge AttemptGoes
  judge-LeadsAttempt s input e (refused text) h = λ r. tt
  judge-LeadsAttempt s input e (replied resp) h =
      Ensures-bind {B = Attempt F × StateExecution F} Any (λ out. AttemptGoes (out.0))
        (save services (record e { invocation_id = resp.request_id }))
        (λ e'. return (verdict services s resp, e'))
        (Ensures-Any (save services (record e { invocation_id = resp.request_id })))
        (λ e' _ r. verdict-AttemptGoes s resp h)

  call_function-LeadsAttempt :
      (s : Spec F) (input : Raw F) (e : StateExecution F)
      → IsTarget P s
      → LeadsAttempt (call_function services s input e)
  unfolding call_function
  call_function-LeadsAttempt s input e h =
      Ensures-bind Any (λ out. AttemptGoes (out.0)) (call services s.function_id input)
        (judge services s input e) (Ensures-Any (call services s.function_id input))
        (λ reply _. judge-LeadsAttempt s input e reply h)

  unless_over-LeadsAttempt :
      (s : Spec F) (input : Raw F) (over : Bool) (e : StateExecution F)
      → IsTarget P s
      → LeadsAttempt (unless_over services s input over e)
  unfolding unless_over AttemptGoes
  unless_over-LeadsAttempt s input true e h =
      λ r. failure-Goes P F context_done "States.Timeout" "" h.0 h.0
  unless_over-LeadsAttempt s input false e h = call_function-LeadsAttempt s input e h

  attempt_once-LeadsAttempt :
      (n : ℕ) (s : Spec F) (input : Raw F) (e : StateExecution F)
      → IsTarget P s
      → LeadsAttempt (attempt_once services n s input e)
  unfolding attempt_once
  attempt_once-LeadsAttempt n s input e h =
      Ensures-bind Any (λ out. AttemptGoes (out.0)) (before_attempt services s.retry n e)
        (λ b. unless_over services s input (b.0) (b.1))
        (Ensures-Any (before_attempt services s.retry n e))
        (λ b _. unless_over-LeadsAttempt s input (b.0) (b.1) h)

  give_up-Goes :
      (s : Spec F) (o : Option Cause) (code : String)
      → IsTarget P s
      → Goes P (give_up services s o code)
  unfolding give_up
  give_up-Goes s o code h = (h.0, catch_goes P s.catch code h.0 h.4)

  after_attempt-LeadsPair :
      (n : ℕ) (s : Spec F)
      (again : Cause → StateExecution F → Run F W → Step F W (StateResult F × StateExecution F))
      (outcome : Attempt F) (e : StateExecution F)
      → IsTarget P s
      → ((c : Cause) (e' : StateExecution F) → LeadsPair P services (again c e'))
      → AttemptGoes outcome
      → LeadsPair P services (after_attempt services n s again outcome e)
  unfolding after_attempt AttemptGoes
  after_attempt-LeadsPair n s again (ended res) e h k g = λ r. g
  after_attempt-LeadsPair n s again (errored cause) e h k g =
      Ensures-if (λ out. Goes P (out.0)) (retries services s.retry n) (again cause e)
        (return (give_up services s (some cause) "States.TaskFailed", e)) (k cause e)
        (λ r. give_up-Goes s (some cause) "States.TaskFailed" h)

  attempts-LeadsPair :
      (n k : ℕ) (s : Spec F) (input : Raw F) (e : StateExecution F) (o : Option Cause)
      (code : String)
      → IsTarget P s
      → LeadsPair P services (attempts services n k s input e o code)
  unfolding attempts
  attempts-LeadsPair zero k s input e o code h = λ r. give_up-Goes s o code h
  attempts-LeadsPair (suc n) k s input e o code h =
      let again : Cause → StateExecution F → Run F W → Step F W (StateResult F × StateExecution F) =
        λ cause e'. attempts services n (suc k) s input e' (some cause) "States.TaskFailed" in
      Ensures-bind (λ out. AttemptGoes (out.0)) (λ out. Goes P (out.0))
        (attempt_once services k s input e) (λ b. after_attempt services k s again (b.0) (b.1))
        (attempt_once-LeadsAttempt k s input e h)
        (λ b g.
          after_attempt-LeadsPair k s again (b.0) (b.1) h
            (λ cause e'. attempts-LeadsPair n (suc k) s input e' (some cause) "States.TaskFailed" h)
            g)

  pub execute_task_state-LeadsPair :
      (s : Spec F) (input : Raw F) (e : StateExecution F)
      → IsTarget P s
      → LeadsPair P services (execute_task_state services s input e)
  unfolding execute_task_state
  execute_task_state-LeadsPair s input e h =
      attempts-LeadsPair (max_attempts_of services s.retry) 0 s input e none "" h
