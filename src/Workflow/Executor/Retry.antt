-- ===== src/Workflow/Executor/Retry.antt =====
-- The retries of a Task state (internal/workflow/executor.go `executeTaskState`).
use function.Prelude.{
  ℕ, zero, suc, ◌+◌, ◌≤◌, String, ◌≡◌, refl, sym, ap, ◌∙◌, Bool, true, false, Option, none, some,
  List, ◌∷◌, arith, if◌then◌else◌,
}
use function.Workflow.Types.{RetryPolicy, Spec, Cause, StateExecution, StateResult, context_done}
use mathlib.Core.Path.{subst}
use function.Prelude.Int.{pos, negsuc, pos_part, ◌+ℤ◌}
use function.Workflow.Json.{Raw}
use function.Workflow.Executor.{
  Reply, Attempt, ended, errored, refused, replied, Services, Run, Step, done, panicked,
  out_of_fuel, ◌>>=◌, return, save, pause, call, failure,
}
use function.Workflow.Executor.Task.{
  attempt_once, unless_over, after_attempt, judge, call_function, give_up, before_attempt, retries,
  attempts, max_attempts_of, execute_task_state,
}

abbrev pub repeat {ℓ} : {A : Type ℓ} → ℕ → A → List A → List A
repeat zero a xs = xs
repeat (suc n) a xs = a ∷ repeat n a xs

repeat_add :
    {A : Type 0} (j k : ℕ) (a : A) (xs : List A) → repeat j a (repeat k a xs) ≡ repeat (j + k) a xs
repeat_add zero k a xs = let eq : k ≡ 0 + k = omega arith in ap (λ n. repeat n a xs) eq
repeat_add (suc j) k a xs =
    let eq : suc (j + k) ≡ suc j + k = omega arith in
    ap (λ ys. a ∷ ys) (repeat_add j k a xs) ∙ ap (λ n. repeat n a xs) eq

no_attempts : (n : ℕ) → pos_part (negsuc n +ℤ pos 1) ≡ 0
unfolding ◌+ℤ◌
no_attempts n = ground arith

module _ {F W : Type 0} (services : Services F W) where
  -- The run ends, with at most `n` more calls, all with the function and the input of the state.
  abbrev pub EndsWithin :
      ℕ → Spec F → Raw F → Run F W → Step F W (StateResult F × StateExecution F) → Type 0
  EndsWithin n s input r out =
      (res : StateResult F) × (e : StateExecution F) × (r' : Run F W) × (k : ℕ) × (out
        ≡ done (res, e) r')
      × (k ≤ n)
      × (r'.calls ≡ repeat k (s.function_id, input) r.calls)

  -- A step that ends, with the calls that it makes.
  abbrev Ends : {A : Type 0} → List (String × Raw F) → Step F W A → Type 0
  Ends {A} calls out = (a : A) × (r' : Run F W) × (out ≡ done a r') × (r'.calls ≡ calls)

  bind_done :
      {A B : Type 0} (m : Run F W → Step F W A) (f : A → Run F W → Step F W B)
      (P : Step F W B → Type 0) (r r' : Run F W) (a : A)
      → m r ≡ done a r'
      → P (f a r')
      → P ((m >>= f) r)
  bind_done m f P r r' a eq p =
      subst
        (λ x. P (elim x [ done b r'' ↦ f b r'' | panicked ↦ panicked | out_of_fuel ↦ out_of_fuel ]))
        (sym eq) p

  before_attempt-Ends :
      (policy : Option (RetryPolicy F)) (attempt : ℕ) (e : StateExecution F) (r : Run F W)
      → Ends r.calls (before_attempt services policy attempt e r)
  unfolding before_attempt save pause
  before_attempt-Ends policy zero e r = (_, _, refl, refl)
  before_attempt-Ends policy (suc k) e r = (_, _, refl, refl)

  judge-Ends :
      (s : Spec F) (input : Raw F) (e : StateExecution F) (reply : Reply F) (r : Run F W)
      → Ends r.calls (judge services s input e reply r)
  unfolding judge save
  judge-Ends s input e (refused text) r = (_, _, refl, refl)
  judge-Ends s input e (replied resp) r = (_, _, refl, refl)

  call_function-Ends :
      (s : Spec F) (input : Raw F) (e : StateExecution F) (r : Run F W)
      → Ends ((s.function_id, input) ∷ r.calls) (call_function services s input e r)
  unfolding call_function call
  call_function-Ends s input e r =
      let out = services.invoke r.world s.function_id input in
      judge-Ends s input e (out.1)
        (record { world = out.0; writes = r.writes; calls = (s.function_id, input) ∷ r.calls })

  -- One attempt: it ends, with at most one more call.
  abbrev Attempted : Spec F → Raw F → Run F W → Step F W (Attempt F × StateExecution F) → Type 0
  Attempted s input r out =
      (a : Attempt F) × (e : StateExecution F) × (r' : Run F W) × (k : ℕ) × (out ≡ done (a, e) r')
      × (k ≤ 1)
      × (r'.calls ≡ repeat k (s.function_id, input) r.calls)

  unless_over-Attempted :
      (over : Bool) (s : Spec F) (input : Raw F) (e : StateExecution F) (r r' : Run F W)
      → r'.calls ≡ r.calls
      → Attempted s input r (unless_over services s input over e r')
  unfolding unless_over
  unless_over-Attempted true s input e r r' same =
      (ended (failure context_done "States.Timeout" ""), e, r', 0, refl, omega arith, same)
  unless_over-Attempted false s input e r r' same =
      let ((a, e'), r'', eq, calls) = call_function-Ends s input e r' in
      (a, e', r'', 1, eq, omega arith, calls ∙ ap (λ xs. (s.function_id, input) ∷ xs) same)

  attempt_once_end :
      (attempt : ℕ) (s : Spec F) (input : Raw F) (e : StateExecution F) (r : Run F W)
      → Attempted s input r (attempt_once services attempt s input e r)
  unfolding attempt_once
  attempt_once_end attempt s input e r =
      let ((over, e'), r', eq, same) = before_attempt-Ends s.retry attempt e r in
      bind_done (before_attempt services s.retry attempt e)
        (λ b. unless_over services s input (b.0) (b.1)) (Attempted s input r) r r' (over, e') eq
        (unless_over-Attempted over s input e' r r' same)

  retry_or_stop :
      (again : Bool) (n k : ℕ) (s : Spec F) (input : Raw F) (r r' : Run F W)
      (more : Run F W → Step F W (StateResult F × StateExecution F))
      (over : StateResult F × StateExecution F)
      → k ≤ 1
      → r'.calls ≡ repeat k (s.function_id, input) r.calls
      → EndsWithin n s input r' (more r')
      → EndsWithin (suc n) s input r ((if again then more else return over) r')
  retry_or_stop false n k s input r r' more over le calls ends =
      (over.0, over.1, r', k, refl, omega arith, calls)
  retry_or_stop true n k s input r r' more over le calls (res, e, r'', j, eq, le', calls') = (
    res,
    e,
    r'',
    j + k,
    eq,
    omega arith,
    calls'
        ∙ ap (repeat j (s.function_id, input)) calls
        ∙ repeat_add j k (s.function_id, input) r.calls,
  )

  attempts_step :
      (n attempt : ℕ) (s : Spec F) (input : Raw F) (e : StateExecution F) (last : Option Cause)
      (code : String) (r : Run F W)
      → Attempted s input r (attempt_once services attempt s input e r)
      → ((e' : StateExecution F) (cause : Cause) (r' : Run F W)
          → EndsWithin n s input r'
              (attempts services n (suc attempt) s input e' (some cause) "States.TaskFailed" r'))
      → EndsWithin (suc n) s input r (attempts services (suc n) attempt s input e last code r)
  unfolding attempts after_attempt
  attempts_step n attempt s input e last code r (ended res, e', r', k, eq, le, calls) rest =
      bind_done (attempt_once services attempt s input e) _ (EndsWithin (suc n) s input r) r r'
        (ended res, e') eq (res, e', r', k, refl, omega arith, calls)
  attempts_step n attempt s input e last code r (errored cause, e', r', k, eq, le, calls) rest =
      bind_done (attempt_once services attempt s input e) _ (EndsWithin (suc n) s input r) r r'
        (errored cause, e') eq
        (retry_or_stop (retries services s.retry attempt) n k s input r r'
          (attempts services n (suc attempt) s input e' (some cause) "States.TaskFailed")
          (give_up services s (some cause) "States.TaskFailed", e') le calls (rest e' cause r'))

  attempts_end :
      (n attempt : ℕ) (s : Spec F) (input : Raw F) (e : StateExecution F) (last : Option Cause)
      (code : String) (r : Run F W)
      → EndsWithin n s input r (attempts services n attempt s input e last code r)
  attempts_end zero attempt s input e last code r =
      (give_up services s last code, e, r, 0, unfold attempts in refl, omega arith, refl)
  attempts_end (suc n) attempt s input e last code r =
      attempts_step n attempt s input e last code r (attempt_once_end attempt s input e r)
        (λ e' cause r'. attempts_end n (suc attempt) s input e' (some cause) "States.TaskFailed" r')

  -- A Task state always ends, whatever the scheduler answers, after at most one call and one more for
  -- each retry that its policy allows; each call is of its function with its input.
  pub execute_task_state_ends :
      (s : Spec F) (input : Raw F) (e : StateExecution F) (r : Run F W)
      → EndsWithin
          (max_attempts_of services s.retry)
          s
          input
          r
          (execute_task_state services s input e r)
  unfolding execute_task_state
  execute_task_state_ends s input e r =
      attempts_end (max_attempts_of services s.retry) 0 s input e none "" r

  -- With a negative number of retries the function is never called, and the state ends with no error,
  -- no output and no next state, even where a next state is named.
  pub negative_retries :
      (s : Spec F) (policy : RetryPolicy F) (n : ℕ) (input : Raw F) (e : StateExecution F)
      (r : Run F W)
      → s.retry ≡ some policy
      → policy.max_attempts ≡ negsuc n
      → execute_task_state services s input e r ≡ done (give_up services s none "", e) r
  unfolding execute_task_state max_attempts_of attempts
  negative_retries s policy n input e r h k = rw (h, k, no_attempts n) refl
