-- ===== src/Debug/Tests.antt =====
-- Runs of the debugger's sessions, and the theorems at inputs that meet their hypotheses. Events are
-- numbers.
use function.Prelude.{ℕ, ◌≡◌, refl, some, List, [], ◌∷◌, lookup, set, delete}
use mathlib.Core.Path.{subst}
use function.Prelude.Int.{pos}
use function.Debug.{
  Manager, Outcome, returned, panicked, new_manager, at, push_event, stop, create_session,
  remove_session, list_sessions, set_at, and_then,
}
use function.Debug.Open.{IsOpen, IsSafe}
use function.Debug.Safe.{
  Operation, creates, removes, pushes, run_all, new_manager-IsSafe, removed_panics,
}

abbrev script : List (Operation ℕ)
script =
    creates "s1" "f" (pos 0)
    ∷ creates "s2" "f" (pos 1)
    ∷ creates "s3" "g" (pos 1)
    ∷ pushes "s1" 7 (pos 2)
    ∷ removes "s3"
    ∷ []

abbrev sessions_of : Outcome (Manager ℕ) → List ℕ
sessions_of (returned m) = list_sessions m.heap m.sessions
sessions_of panicked = []

-- A second session of a function is the first one; one that is removed is listed no more.
script_runs : sessions_of (run_all script (new_manager (pos 0))) ≡ 0 ∷ []
unfolding create_session remove_session list_sessions new_manager lookup set push_event set_at
    delete
script_runs = refl

abbrev one : Manager ℕ
one = (create_session "s1" "f" (pos 0) (new_manager (pos 60))).0

outcome_of : {out : Outcome (Manager ℕ)} (m : Manager ℕ) → out ≡ returned m → IsSafe out → IsOpen m
outcome_of m e (n, e', o) = subst IsOpen (cc (e, e')) o

one-IsOpen : IsOpen one
unfolding and_then
one-IsOpen = outcome_of one refl (new_manager-IsSafe (creates "s1" "f" (pos 0) ∷ []) (pos 60))

one_registered : lookup "s1" one.sessions ≡ some 0
unfolding create_session new_manager lookup set
one_registered = refl

removed_panics_example :
    (n : Manager ℕ) × (remove_session "s1" one ≡ returned n)
    × (at 0 (push_event 7 (pos 1)) n ≡ panicked)
    × (at 0 stop n ≡ panicked)
removed_panics_example = removed_panics "s1" 0 7 (pos 1) one one-IsOpen one_registered
