-- ===== src/Workflow/Executor/Ensures.antt =====
-- Postconditions of the executor's steps, and the rules for them.
use function.Prelude.{Bool, true, false, if◌then◌else◌}
use function.Workflow.Executor.{Run, Step, done, panicked, out_of_fuel, ◌>>=◌}

abbrev pub Post : {F W A : Type 0} → (A → Type 0) → Step F W A → Type 0
Post Q (done a r) = Q a
Post Q panicked = Unit
Post Q out_of_fuel = Unit

-- Whatever value the step ends with has the property.
abbrev pub Ensures : {F W A : Type 0} → (A → Type 0) → (Run F W → Step F W A) → Type 0
Ensures {F} {W} Q m = (r : Run F W) → Post Q (m r)

abbrev pub Any : {A : Type 0} → A → Type 0
Any a = Unit

Post-bind :
    {F W A B : Type 0} (Q : A → Type 0) (P : B → Type 0) (out : Step F W A)
    (f : A → Run F W → Step F W B)
    → Post Q out
    → ((a : A) → Q a → Ensures P (f a))
    → Post P (elim out [ done a r' ↦ f a r' | panicked ↦ panicked | out_of_fuel ↦ out_of_fuel ])
Post-bind Q P (done a r) f h k = k a h r
Post-bind Q P panicked f h k = tt
Post-bind Q P out_of_fuel f h k = tt

pub Ensures-bind :
    {F W A B : Type 0} (Q : A → Type 0) (P : B → Type 0) (m : Run F W → Step F W A)
    (f : A → Run F W → Step F W B)
    → Ensures Q m
    → ((a : A) → Q a → Ensures P (f a))
    → Ensures P (m >>= f)
Ensures-bind Q P m f h k r = Post-bind Q P (m r) f (h r) k

Post-Any : {F W A : Type 0} (out : Step F W A) → Post Any out
Post-Any (done a r) = tt
Post-Any panicked = tt
Post-Any out_of_fuel = tt

pub Ensures-Any : {F W A : Type 0} (m : Run F W → Step F W A) → Ensures Any m
Ensures-Any m r = Post-Any (m r)

pub Ensures-if :
    {F W A : Type 0} (Q : A → Type 0) (b : Bool) (x y : Run F W → Step F W A)
    → Ensures Q x
    → Ensures Q y
    → Ensures Q (if b then x else y)
Ensures-if Q true x y h k = h
Ensures-if Q false x y h k = k
