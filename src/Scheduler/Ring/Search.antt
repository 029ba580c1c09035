-- ===== src/Scheduler/Ring/Search.antt =====
-- `sort.Search` finds the first index at which a monotone test holds, and the fuel it is given is
-- enough (internal/scheduler/session_router.go, `Get`).
use function.Prelude.{
  ℕ, zero, suc, ◌+◌, ◌/◌, ◌≤◌, ◌<◌, ◌≡◌, inl, inr, Bool, true, false, arith, ltb, Bool-cases,
}
use function.Scheduler.Ring.{search_from, sort_search}

-- What a search over `[i, j)` returns.
pub record Found (f : ℕ → Bool) (n r : ℕ) : Type 0 where
  pub within : r ≤ n
  pub before : (k : ℕ) → k < r → f k ≡ false
  pub at_end : (k : ℕ) → r ≤ k → k < n → f k ≡ true

module _ (f : ℕ → Bool) (n : ℕ) (mono : (k l : ℕ) → k ≤ l → l < n → f k ≡ true → f l ≡ true) where
  false_below : (k h : ℕ) → k ≤ h → h < n → f h ≡ false → f k ≡ false
  false_below k h le lt e = ground (arith, mono k h le lt)

  search_from_lem :
      (fuel i j : ℕ)
      → i ≤ j
      → j ≤ n
      → j < i + fuel + 1
      → ((k : ℕ) → k < i → f k ≡ false)
      → ((k : ℕ) → j ≤ k → k < n → f k ≡ true)
      → Found f n (search_from fuel f i j)
  unfolding search_from
  search_from_lem zero i j ij jn enough lo hi = record {
    within = omega arith;
    before = lo;
    at_end = λ k a b. hi k (omega arith) b;
  }
  search_from_lem (suc fuel) i j ij jn enough lo hi = elim (Bool-cases (ltb i j)) [
    | inr done ↦
        rw done
          (record { within = omega arith; before = lo; at_end = λ k a b. hi k (ground arith) b })
    | inl more ↦
        (let h : ℕ = (i + j) / 2 in
          elim (Bool-cases (f h)) [
            | inl at ↦
                rw (more, at)
                  (search_from_lem fuel i h (ground arith) (ground arith) (ground arith) lo
                    (λ k a b. mono h k a b at))
            | inr below ↦
                rw (more, below)
                  (search_from_lem fuel (h + 1) j (ground arith) jn (ground arith)
                    (λ k a. false_below k h (omega arith) (ground arith) below) hi)
          ])
  ]

  -- For a test that is monotone below `n`, the search ends with the first index at which it holds,
  -- or with `n`.
  pub sort_search-Found : Found f n (sort_search n f)
  unfolding sort_search
  sort_search-Found =
      search_from_lem n 0 n (omega arith) (omega arith) (omega arith) (λ k a. absurd (omega arith))
        (λ k a b. absurd (omega arith))
