-- ===== src/Workflow/Evaluator/Glob.antt =====
-- The pattern of `StringMatches` against its meaning (internal/workflow/evaluator.go `wildcardToRegex`).
use function.Prelude.{not, ◌++◌, if◌then◌else◌, ℕ, ◌≡◌, Bool, true, false, List, [], ◌∷◌, eqb}
use function.Workflow.Evaluator.{star, one_char, is_end, quote_meta, replace_all}

-- What a pattern means: a "*" stands for any characters but a newline, another one for itself.
pub data Matches : List ℕ → List ℕ → Type 0 where
  match_end : Matches [] []
  match_same :
      (c : ℕ) (cs ds : List ℕ) → eqb c b'*' ≡ false → Matches cs ds → Matches (c ∷ cs) (c ∷ ds)
  match_none : (c : ℕ) (cs ds : List ℕ) → eqb c b'*' ≡ true → Matches cs ds → Matches (c ∷ cs) ds
  match_more :
      (c d : ℕ) (cs ds : List ℕ)
      → eqb c b'*' ≡ true
      → eqb d 10 ≡ false
      → Matches (c ∷ cs) ds
      → Matches (c ∷ cs) (d ∷ ds)

-- The same as a function.
glob : List ℕ → List ℕ → Bool
unfolding star one_char
glob [] ds = is_end ds
glob (c ∷ cs) ds = if eqb c b'*' then star (glob cs) ds else one_char c (glob cs) ds

-- A list that does not begin with a "*".
abbrev no_star : List ℕ → Bool
no_star [] = true
no_star (c ∷ cs) = not (eqb c b'*')

translated : List ℕ → List ℕ
translated cs = replace_all (quote_meta cs)

closed : List ℕ → List ℕ
closed xs = xs ++ 36 ∷ []
