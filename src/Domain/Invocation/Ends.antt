-- ===== src/Domain/Invocation/Ends.antt =====
-- The status that an invocation ends with (internal/domain/invocation.go).
use function.Prelude.{◌≡◌, refl, String, Bool, true, false}
use function.Prelude.Int.{ℤ}
use function.Domain.Invocation.{
  Invocation, InvocationStatus, pending, running, success, failed, timeout, start, complete, fail,
  time_out,
}

abbrev pub is_final : InvocationStatus → Bool
is_final pending = false
is_final running = false
is_final _ = true

module _ {J : Type 0} (now : ℤ) (i : Invocation J) where
  pub fail-status : (message : String) → (fail now message i).status ≡ failed
  unfolding fail
  fail-status message = refl

  pub complete-status : (out : J) (memory : ℤ) → (complete now out memory i).status ≡ success
  unfolding complete
  complete-status out memory = refl

  pub time_out-status : (time_out now i).status ≡ timeout
  unfolding time_out
  time_out-status = refl

  pub start-id : (vm : String) (cold : Bool) → (start now vm cold i).invocation_id ≡ i.invocation_id
  unfolding start
  start-id vm cold = refl

  pub fail-id : (message : String) → (fail now message i).invocation_id ≡ i.invocation_id
  unfolding fail
  fail-id message = refl

  pub complete-id :
      (out : J) (memory : ℤ) → (complete now out memory i).invocation_id ≡ i.invocation_id
  unfolding complete
  complete-id out memory = refl

  pub time_out-id : (time_out now i).invocation_id ≡ i.invocation_id
  unfolding time_out
  time_out-id = refl
