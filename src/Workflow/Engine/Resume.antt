-- ===== src/Workflow/Engine/Resume.antt =====
-- A pause at a breakpoint, a resume, and the worker that goes on (internal/workflow/engine.go
-- `pauseExecution`, `ResumeExecution`, `executeWorkflowTask`).
use function.Prelude.{String, ◌≡◌, refl, Bool, true, none}
use function.Workflow.Types.{Workflow, Cause, Execution, running}
use function.Workflow.Json.{absent}
use function.Workflow.Executor.{Services}
use function.Workflow.Engine.{Engine, store}
use function.Workflow.Engine.Worker.{write}

module _ {F : Type 0} where
  -- The execution that a worker takes up again at a state.
  abbrev pub taken_up : String → Execution F → Execution F
  taken_up at exec = record exec {
    status = running;
    paused_at_state = "";
    paused_input = absent;
    paused_at = none;
    current_state = at;
  }

module _ {F W : Type 0} (services : Services F W) (print : Cause → String) where
  written :
      (b : Bool) (exec : Execution F) (g : Engine F W)
      → b ≡ true
      → write services print b exec g ≡ store exec g
  unfolding write
  written b exec g h = rw h refl
