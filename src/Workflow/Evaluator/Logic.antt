-- ===== src/Workflow/Evaluator/Logic.antt =====
-- The logical operators of a choice rule (internal/workflow/evaluator.go `EvaluateChoice`).
use function.Prelude.{String, ◌≡◌, refl, sym, ap, ◌∙◌, Bool, true, false, not, if◌then◌else◌}
use function.Workflow.Json.{Raw}
use function.Workflow.Path.{Result, ok, err, panic, ◌>>=◌}
use function.Workflow.Types.{
  Comparison, ChoiceRule, rule, Rules, no_rules, more_rules, Negated, not_negated, negated,
}
use function.Workflow.Evaluator.{Primitives, evaluate_choice, evaluate_and, evaluate_or}

abbrev flip : Result Bool → Result Bool
flip r = r >>= (λ b. ok (not b))

abbrev and_then : Result Bool → Result Bool → Result Bool
and_then a b = a >>= (λ x. if x then b else ok false)

abbrev or_then : Result Bool → Result Bool → Result Bool
or_then a b = a >>= (λ x. if x then ok true else b)

or_then-flip : (a b : Result Bool) → or_then (flip a) (flip b) ≡ flip (and_then a b)
or_then-flip (ok true) b = refl
or_then-flip (ok false) b = refl
or_then-flip (err e) b = refl
or_then-flip panic b = refl

module _ {F : Type 0} (p : Primitives F) (input : Raw F) where
  evaluate_and_step :
      (r : ChoiceRule F) (rs : Rules F)
      → evaluate_and p (more_rules r rs) input
        ≡ and_then (evaluate_choice p r input) (evaluate_and p rs input)
  unfolding evaluate_and
  evaluate_and_step r rs = refl

  evaluate_or_step :
      (r : ChoiceRule F) (rs : Rules F)
      → evaluate_or p (more_rules r rs) input
        ≡ or_then (evaluate_choice p r input) (evaluate_or p rs input)
  unfolding evaluate_or
  evaluate_or_step r rs = refl

  evaluate_not :
      (next : String) (c : Comparison F) (r : ChoiceRule F)
      → evaluate_choice p (rule next c no_rules no_rules (negated r)) input
        ≡ flip (evaluate_choice p r input)
  unfolding evaluate_choice
  evaluate_not next c r = refl

  evaluate_choice_and :
      (next : String) (c : Comparison F) (r : ChoiceRule F) (rs ors : Rules F) (n : Negated F)
      → evaluate_choice p (rule next c (more_rules r rs) ors n) input
        ≡ evaluate_and p (more_rules r rs) input
  unfolding evaluate_choice evaluate_and
  evaluate_choice_and next c r rs ors n = refl

  evaluate_choice_or :
      (next : String) (c : Comparison F) (r : ChoiceRule F) (rs : Rules F) (n : Negated F)
      → evaluate_choice p (rule next c no_rules (more_rules r rs) n) input
        ≡ evaluate_or p (more_rules r rs) input
  unfolding evaluate_choice evaluate_or
  evaluate_choice_or next c r rs n = refl

module _ {F : Type 0} (next : String) (c : Comparison F) where
  abbrev pub negation : ChoiceRule F → ChoiceRule F
  negation r = rule next c no_rules no_rules (negated r)

  abbrev pub negations : Rules F → Rules F
  negations no_rules = no_rules
  negations (more_rules r rs) = more_rules (negation r) (negations rs)

  evaluate_or-negations :
      (p : Primitives F) (rs : Rules F) (input : Raw F)
      → evaluate_or p (negations rs) input ≡ flip (evaluate_and p rs input)
  evaluate_or-negations p no_rules input = unfold evaluate_or in unfold evaluate_and in refl
  evaluate_or-negations p (more_rules r rs) input =
      evaluate_or_step p input (negation r) (negations rs)
      ∙ ap (λ x. or_then x (evaluate_or p (negations rs) input)) (evaluate_not p input next c r)
      ∙ ap (or_then (flip (evaluate_choice p r input))) (evaluate_or-negations p rs input)
      ∙ or_then-flip (evaluate_choice p r input) (evaluate_and p rs input)
      ∙ ap flip (sym (evaluate_and_step p input r rs))

  -- A negated conjunction gives what the disjunction of the negations gives, errors and panics too.
  pub not-and :
      (p : Primitives F) (r : ChoiceRule F) (rs ors : Rules F) (n : Negated F) (input : Raw F)
      → evaluate_choice p (negation (rule next c (more_rules r rs) ors n)) input
        ≡ evaluate_choice p (rule next c no_rules (negations (more_rules r rs)) not_negated) input
  not-and p r rs ors n input =
      evaluate_not p input next c (rule next c (more_rules r rs) ors n)
      ∙ ap flip (evaluate_choice_and p input next c r rs ors n)
      ∙ sym (evaluate_or-negations p (more_rules r rs) input)
      ∙ sym (evaluate_choice_or p input next c (negation r) (negations rs) not_negated)
