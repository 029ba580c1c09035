-- ===== src/Workflow/Engine/Stop.antt =====
-- A worker on an execution that was stopped (internal/workflow/engine.go `StopExecution`,
-- `executeWorkflowTask`).
use function.Prelude.{
  ℕ, String, ◌≡◌, refl, sym, ap, ◌∙◌, inl, inr, false, none, some, List, ◌∷◌, lookup,
}
use function.Workflow.Types.{States, Cause, Execution, cancelled, cancelled_by_user}
use mathlib.Core.Path.{subst}
use function.Prelude.Int.{ℤ}
use function.Workflow.Json.{Raw}
use function.Workflow.Executor.{Services}
use function.Workflow.Engine.{Engine, is_cancelled, store, update_execution}
use function.Workflow.Engine.Api.{stop_execution}
use function.Workflow.Engine.Commands.{Stopped, stop_execution_outcome}
use function.Workflow.Engine.Outcome.{lookup-update_execution}
use function.Workflow.Engine.Worker.{Round, was_cancelled, checked, main_loop}

module _ {F W : Type 0} where
  cancelled_row :
      (now : ℤ) (id : String) (old : Execution F) (g : Engine F W)
      → lookup id g.executions ≡ some old
      → old.execution_id ≡ id
      → let gone : Execution F = record old {
        status = cancelled;
        execution_error = some cancelled_by_user;
        completed_at = some now;
      } in
        lookup id (store gone g).executions ≡ some gone
  unfolding store update_execution
  cancelled_row now id old g found keyed =
      let gone : Execution F = record old {
        status = cancelled;
        execution_error = some cancelled_by_user;
        completed_at = some now;
      } in
      subst (λ i. lookup i g.executions ≡ some old → lookup i (store gone g).executions ≡ some gone)
        keyed (λ there. lookup-update_execution gone g.executions (old, there)) found

  row_after_stop :
      (now : ℤ) (id : String) (old : Execution F) (g g' : Engine F W)
      → stop_execution now id g ≡ (g', none)
      → lookup id g.executions ≡ some old
      → old.execution_id ≡ id
      → Stopped now id g
      → (e : Execution F) × (lookup id g'.executions ≡ some e) × (e.status ≡ cancelled)
  row_after_stop now id old g g' h found keyed (inl (exec, there, alive, done, eq)) =
      let gone : Execution F = record exec {
        status = cancelled;
        execution_error = some cancelled_by_user;
        completed_at = some now;
      } in
      let same : g' ≡ store gone g = sym (ap (λ x. x.0) h) ∙ eq in
      let one : exec ≡ old = cc (found, there) in
      let key : exec.execution_id ≡ id = ap {A = Execution F} (λ e. e.execution_id) one ∙ keyed in
      (gone, ap (λ x. lookup id x.executions) same ∙ cancelled_row now id exec g there key, refl)
  row_after_stop now id old g g' h found keyed (inr (same, refused)) =
      absurd (refused (ap (λ x. x.1) h))

  -- A worker that looks at an execution after it was stopped leaves it without running its state or
  -- writing anything, if the engine is not shutting down and nothing was written in between.
  pub main_loop-stop_execution :
      (services : Services F W) (print : Cause → String) (fuel : ℕ) (body : States F)
      (round : Round F) (rounds : List (Round F)) (now : ℤ) (old exec : Execution F)
      (current : String) (given : Raw F) (g g' : Engine F W)
      → stop_execution now exec.execution_id g ≡ (g', none)
      → lookup exec.execution_id g.executions ≡ some old
      → old.execution_id ≡ exec.execution_id
      → round.before g'.executions ≡ g'.executions
      → round.shutdown ≡ false
      → main_loop services print fuel body (round ∷ rounds) exec current given g'
        ≡ (g', was_cancelled)
  unfolding main_loop checked is_cancelled
  main_loop-stop_execution services print fuel body round rounds now old exec current given g g' h
        found keyed quiet going =
      let (e, row, gone) =
        row_after_stop now exec.execution_id old g g' h found keyed
          (stop_execution_outcome now exec.execution_id g) in
      rw (quiet, going, row, gone) refl
