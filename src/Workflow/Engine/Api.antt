-- ===== src/Workflow/Engine/Api.antt =====
-- The operations of the engine (internal/workflow/engine.go).
use function.Prelude.{
  String, ◌⊎◌, inl, inr, not, Option, none, some, List, [], ◌∷◌, if◌then◌else◌, lookup, set, ◌==◌,
}
use function.Workflow.Types.{
  Workflow, Execution, is_terminal, failed, cancelled, cancelled_by_user, queue_full,
}
use function.Prelude.Int.{ℤ, pos, ◌+ℤ◌, ◌*ℤ◌, ltb_ℤ}
use function.Workflow.Json.{Raw, absent}
use function.Workflow.Engine.{
  Config, Engine, EngineError, workflow_not_found, workflow_inactive, execution_not_found,
  already_complete, queue_is_full, not_paused, no_paused_state, is_active, is_late, is_paused,
  list_pending_executions, mark_execution_timeout, new_execution, offer, or_empty, resume_task,
  store, update_execution,
}

module _ {F : Type 0} where
  module _ {W : Type 0} where
    unfoldable pub queued :
        Config
        → ℤ
        → Execution F
        → Workflow F
        → Engine F W
        → Engine F W × (Execution F ⊎ EngineError)
    unfolding offer update_execution
    queued config now exec w g =
        elim (offer config
          (record { execution = exec; workflow = w; resume_state = ""; resume_input = absent }) g) [
            | some g' ↦ (g', inl exec)
            | none ↦ (
              store
                  (record exec {
                    status = failed;
                    execution_error = some queue_full;
                    completed_at = some now;
                  })
                  g,
              inr queue_is_full,
            )
          ]

    -- `StartExecution`, with the id that `uuid.New` makes; times are nanoseconds.
    unfoldable pub start_execution :
        Config → String → ℤ → String → Raw F → Engine F W → Engine F W × (Execution F ⊎ EngineError)
    unfolding new_execution queued is_active or_empty
    start_execution config id now workflow_id given g = elim (lookup workflow_id g.workflows) [
      | none ↦ (g, inr workflow_not_found)
      | some w ↦
          if is_active w.workflow_status
          then (let seconds =
                if ltb_ℤ (pos 0) w.timeout_sec then w.timeout_sec else config.default_timeout in
              let exec = new_execution id (now +ℤ seconds *ℤ pos 1000000000) w (or_empty given) in
              queued config now exec w (record g { executions = set id exec g.executions }))
          else (g, inr workflow_inactive)
    ]

    -- `StopExecution`
    unfoldable pub stop_execution : ℤ → String → Engine F W → Engine F W × Option EngineError
    unfolding is_terminal update_execution
    stop_execution now id g = elim (lookup id g.executions) [
      | none ↦ (g, some execution_not_found)
      | some exec ↦ if is_terminal exec.status then (g, some already_complete) else (
        store
            (record exec {
              status = cancelled;
              execution_error = some cancelled_by_user;
              completed_at = some now;
            })
            g,
        none,
      )
    ]

    unfoldable pub resumed :
        Config → Execution F → Raw F → Engine F W → Engine F W × Option EngineError
    unfolding offer resume_task
    resumed config exec modified g = elim (lookup exec.workflow_id g.workflows) [
      | none ↦ (g, some workflow_not_found)
      | some w ↦ elim (offer config (resume_task exec w modified) g) [
        | none ↦ (g, some queue_is_full)
        | some g' ↦ (g', none)
      ]
    ]

    -- `ResumeExecution`; the execution stays paused until a worker takes the task.
    unfoldable pub resume_execution :
        Config → String → Raw F → Engine F W → Engine F W × Option EngineError
    unfolding is_paused resumed
    resume_execution config id modified g = elim (lookup id g.executions) [
      | none ↦ (g, some execution_not_found)
      | some exec ↦
          if not (is_paused exec.status)
          then (g, some not_paused)
          else if exec.paused_at_state == ""
          then (g, some no_paused_state)
          else resumed config exec modified g
    ]

    unfoldable pub recover_one : Config → ℤ → Execution F → Engine F W → Engine F W
    unfolding mark_execution_timeout is_late offer
    recover_one config now exec g =
        if is_late exec now
        then record g { executions = mark_execution_timeout now exec g.executions }
        else elim (lookup exec.workflow_id g.workflows) [
          | none ↦ g
          | some w ↦
              elim (offer config
                (record {
                  execution = exec;
                  workflow = w;
                  resume_state = "";
                  resume_input = absent;
                })
                g) [ none ↦ g | some g' ↦ g' ]
        ]

    unfoldable pub recover_all : Config → ℤ → List (Execution F) → Engine F W → Engine F W
    unfolding recover_one
    recover_all config now [] g = g
    recover_all config now (exec ∷ execs) g =
        recover_all config now execs (recover_one config now exec g)

    -- `recoverPendingExecutions`
    unfoldable pub recover_pending_executions : Config → ℤ → Engine F W → Engine F W
    unfolding list_pending_executions recover_all
    recover_pending_executions config now g =
        recover_all config now (list_pending_executions 100 g.executions) g
