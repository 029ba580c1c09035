-- ===== src/Workflow/Executor/Task.antt =====
-- Task and Wait states (internal/workflow/executor.go `executeTaskState`, `executeWaitState`).
use function.Prelude.{
  ℕ, zero, suc, String, Bool, true, false, not, ◌&&◌, ◌||◌, Option, none, some, leb, if◌then◌else◌,
  ◌==◌,
}
use function.Prelude.Int.{ℤ, pos, pos_part, ◌+ℤ◌, ltb_ℤ}
use function.Workflow.Json.{Raw, absent}
use function.Workflow.Types.{
  RetryPolicy, Spec, Cause, StateExecution, StateResult, context_done, invalid_timestamp,
  invocation_error, execution_failed, state_retrying,
}
use function.Workflow.Executor.{
  Response, Reply, Services, Run, Step, ◌>>=◌, Attempt, Delay, call, ended, errored, failure,
  find_catch, for_seconds, get_next_state, pause, refused, replied, return, save, should_retry,
  success, until,
}

module _ {F : Type 0} where
  module _ {W : Type 0} (services : Services F W) where
    grow : F → F → ℕ → F
    grow rate interval zero = interval
    grow rate interval (suc n) = grow rate (services.scale interval rate) n

    -- `calculateRetryInterval`, in seconds.
    unfoldable pub calculate_retry_interval : RetryPolicy F → ℕ → ℤ
    unfolding grow
    calculate_retry_interval policy attempt =
        let start = services.float policy.interval_seconds in
        let grown =
          if services.primitives.less (services.float (pos 1)) policy.backoff_rate
          then grow policy.backoff_rate start attempt
          else start in
        if ltb_ℤ (pos 0) policy.max_interval_seconds
          && ltb_ℤ policy.max_interval_seconds (services.truncate grown)
        then services.truncate (services.float policy.max_interval_seconds)
        else services.truncate grown

    -- What a failed attempt ends in: the state that catches its error, if any.
    unfoldable pub give_up : Spec F → Option Cause → String → StateResult F
    unfolding find_catch
    give_up s e code = record {
      result_output = absent;
      next_state = "";
      result_error = e;
      result_code = code;
      caught_by_state = find_catch s.catch code;
    }

    -- The wait before a retry, which is the context's end where it yields true.
    unfoldable pub before_attempt :
        Option (RetryPolicy F) → ℕ → StateExecution F → Run F W → Step F W (Bool × StateExecution F)
    unfolding save pause calculate_retry_interval
    before_attempt policy zero e = return (false, e)
    before_attempt policy (suc k) e = do
      e' ← save services (record e { retry_count = suc k; state_status = state_retrying })
      over ←
          pause services (
            for_seconds
              (elim policy [ none ↦ pos 1 | some p ↦ calculate_retry_interval p (suc k) ]))
      return (over, e')

    unfoldable pub retries : Option (RetryPolicy F) → ℕ → Bool
    unfolding should_retry
    retries none attempt = false
    retries (some policy) attempt = should_retry policy "States.TaskFailed" attempt

    -- What the answer of the function means.
    unfoldable pub verdict : Spec F → Response F → Attempt F
    unfolding success get_next_state
    verdict s resp =
        if leb 400 (pos_part resp.status_code) || not (resp.response_error == "")
        then errored (execution_failed resp.response_error)
        else ended (success resp.body (get_next_state s))

    unfoldable pub judge :
        Spec F
        → Raw F
        → StateExecution F
        → Reply F
        → Run F W
        → Step F W (Attempt F × StateExecution F)
    unfolding save verdict
    judge s input e (refused text) = return (errored (invocation_error text), e)
    judge s input e (replied resp) = do
      e' ← save services (record e { invocation_id = resp.request_id })
      return (verdict s resp, e')

    unfoldable pub call_function :
        Spec F → Raw F → StateExecution F → Run F W → Step F W (Attempt F × StateExecution F)
    unfolding call judge
    call_function s input e = do reply ← call services s.function_id input; judge s input e reply

    unfoldable pub unless_over :
        Spec F → Raw F → Bool → StateExecution F → Run F W → Step F W (Attempt F × StateExecution F)
    unfolding failure call_function
    unless_over s input true e = return (ended (failure context_done "States.Timeout" ""), e)
    unless_over s input false e = call_function s input e

    -- The body of the loop of `executeTaskState`: the wait, the call, and what its answer means.
    unfoldable pub attempt_once :
        ℕ → Spec F → Raw F → StateExecution F → Run F W → Step F W (Attempt F × StateExecution F)
    unfolding before_attempt unless_over
    attempt_once attempt s input e = do
      (over, e') ← before_attempt s.retry attempt e
      unless_over s input over e'

    -- After an attempt: its result, or a new attempt where the error may be retried.
    unfoldable pub after_attempt :
        ℕ
        → Spec F
        → (Cause → StateExecution F → Run F W → Step F W (StateResult F × StateExecution F))
        → Attempt F
        → StateExecution F
        → Run F W
        → Step F W (StateResult F × StateExecution F)
    unfolding give_up retries
    after_attempt attempt s again (ended res) e = return (res, e)
    after_attempt attempt s again (errored cause) e =
        if retries s.retry attempt
        then again cause e
        else return (give_up s (some cause) "States.TaskFailed", e)

    -- The loop: the attempts left, the next one, and the last error.
    unfoldable pub attempts :
        ℕ
        → ℕ
        → Spec F
        → Raw F
        → StateExecution F
        → Option Cause
        → String
        → Run F W
        → Step F W (StateResult F × StateExecution F)
    unfolding give_up attempt_once after_attempt
    attempts zero attempt s input e last_error last_code =
        return (give_up s last_error last_code, e)
    attempts (suc n) attempt s input e last_error last_code = do
      (outcome, e') ← attempt_once attempt s input e
      after_attempt attempt s
          (λ cause e''. attempts n (suc attempt) s input e'' (some cause) "States.TaskFailed")
          outcome e'

    unfoldable pub max_attempts_of : Option (RetryPolicy F) → ℕ
    max_attempts_of none = 1
    max_attempts_of (some policy) = pos_part (policy.max_attempts +ℤ pos 1)

    -- `executeTaskState`
    unfoldable pub execute_task_state :
        Spec F → Raw F → StateExecution F → Run F W → Step F W (StateResult F × StateExecution F)
    unfolding attempts max_attempts_of
    execute_task_state s input e = attempts (max_attempts_of s.retry) 0 s input e none ""

    unfoldable pub after_wait : Spec F → Raw F → Bool → Run F W → Step F W (StateResult F)
    unfolding failure success get_next_state
    after_wait s input true = return (failure context_done "States.Timeout" "")
    after_wait s input false = return (success input (get_next_state s))

    unfoldable pub wait_for : Spec F → Raw F → Delay → Run F W → Step F W (StateResult F)
    unfolding pause after_wait
    wait_for s input delay = do over ← pause services delay; after_wait s input over

    unfoldable pub wait_until : Spec F → Raw F → Option ℤ → Run F W → Step F W (StateResult F)
    unfolding wait_for failure
    wait_until s input none = return (failure invalid_timestamp "States.InvalidTimestamp" "")
    wait_until s input (some t) = wait_for s input (until t)

    -- `executeWaitState`; a timestamp that is past is no wait.
    unfoldable pub execute_wait_state : Spec F → Raw F → Run F W → Step F W (StateResult F)
    unfolding wait_until
    execute_wait_state s input =
        if ltb_ℤ (pos 0) s.seconds
        then wait_for s input (for_seconds s.seconds)
        else if s.timestamp == ""
        then wait_for s input (for_seconds (pos 0))
        else wait_until s input (services.primitives.parse_time s.timestamp)
