-- ===== src/Workflow/Engine/Commands.antt =====
-- What the commands of the engine leave behind (internal/workflow/engine.go `StopExecution`).
use function.Prelude.{
  String, ◌≡◌, ◌≢◌, refl, ◌⊎◌, inl, inr, false, Option, none, some, Bool-cases, lookup,
}
use function.Workflow.Types.{Execution, is_terminal, cancelled, cancelled_by_user}
use function.Prelude.Int.{ℤ}
use function.Workflow.Engine.{Engine, update_execution, write_row, store}
use function.Workflow.Engine.Api.{stop_execution}

module _ {F W : Type 0} where
  abbrev pub Stopped : ℤ → String → Engine F W → Type 0
  Stopped now id g =
      ((exec : Execution F) × (lookup id g.executions ≡ some exec)
        × (is_terminal exec.status ≡ false)
        × ((stop_execution now id g).1 ≡ none)
        × ((stop_execution now id g).0
            ≡ store
                (record exec {
                  status = cancelled;
                  execution_error = some cancelled_by_user;
                  completed_at = some now;
                })
                g))
      ⊎ (((stop_execution now id g).0 ≡ g) × ((stop_execution now id g).1 ≢ none))

  stop_cases :
      (now : ℤ) (id : String) (g : Engine F W) (found : Option (Execution F))
      → lookup id g.executions ≡ found
      → Stopped now id g
  unfolding stop_execution update_execution write_row
  stop_cases now id g none h = inr (rw (h, stop_execution) refl, rw (h, stop_execution) (λ e. cc))
  stop_cases now id g (some exec) h = elim (Bool-cases (is_terminal exec.status)) [
    | inl over ↦ inr (rw (h, stop_execution, over) refl, rw (h, stop_execution, over) (λ e. cc))
    | inr alive ↦
        inl (exec, h, alive, rw (h, stop_execution, alive) refl, rw (h, stop_execution, alive) refl)
  ]

  -- A stop cancels an execution that is there and not over; else it changes nothing and is an error.
  pub stop_execution_outcome : (now : ℤ) (id : String) (g : Engine F W) → Stopped now id g
  stop_execution_outcome now id g = stop_cases now id g (lookup id g.executions) refl
