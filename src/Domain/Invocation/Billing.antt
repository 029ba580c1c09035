-- ===== src/Domain/Invocation/Billing.antt =====
-- What an invocation is billed (internal/domain/invocation.go `calculateBilledTime`).
use function.Prelude.{ℕ, ◌+◌, ◌*◌, ◌/◌, ◌≤◌, ◌<◌, ◌≡◌, ◌∙◌, arith, ltb, if◌then◌else◌}
use function.Prelude.Int.{pos, ◌+ℤ◌}
use function.Domain.Invocation.{hundreds, billed}

billed_pos :
    (d : ℕ) → billed (pos d) ≡ pos (if ltb ((d + 99) / 100) 1 then 100 else (d + 99) / 100 * 100)
unfolding billed hundreds ◌+ℤ◌
billed_pos d = ground arith

-- The time billed is the least positive multiple of 100 ms that is not below the duration.
pub billed_least :
    (d : ℕ)
    → (k : ℕ) × (billed (pos d) ≡ pos (k * 100))
      × (0 < k)
      × (d ≤ k * 100)
      × ((j : ℕ) → (0 < j) × (d ≤ j * 100) → k ≤ j)
billed_least d =
    let k : ℕ = if ltb ((d + 99) / 100) 1 then 1 else (d + 99) / 100 in
    (k, billed_pos d ∙ ground arith, ground arith, ground arith, λ j h. ground arith)
