-- ===== src/Workflow/Tests.antt =====
-- Runs of the workflow engine on small inputs, and the theorems at inputs that meet their hypotheses.
-- Numbers stand for float64, and a text is no time.
mod Steps
mod Commands
mod Termination
use function.Prelude.{ℕ, ◌-◌, ◌*◌, String, ◌≡◌, refl, inr, true, false, none, some, ltb, leb, eqb}
use function.Workflow.Types.{Comparison, ChoiceRule, rule, no_rules, not_negated}
use Prim.Native.String
use function.Workflow.Json.{Value, num, arr, obj, nil, cons, end, field, doc, get_field, get_item}
use function.Workflow.Path.{
  ok, err, panic, out_of_bounds, get_json_path_value, split_dots, strip_root, cut_bracket,
}
use function.Workflow.Merge.{merge_at_path}
use function.Workflow.Merge.RoundTrip.{get_json_path_value-merge_at_path, AllPlain}
use function.Workflow.Evaluator.{Primitives, evaluate_choice}

abbrev document : Value ℕ
document = obj (
    field "a" (obj (field "b" (num 7) end))
      (field "xs" (arr (cons (num 1) (cons (num 2) nil))) end))

path_runs :
    (get_json_path_value document "$.a.b" ≡ ok (num 7))
    × (get_json_path_value document "$.xs[1]" ≡ ok (num 2))
    × (get_json_path_value document "$.xs[2]" ≡ err out_of_bounds)
    × (get_json_path_value document "$.xs[x]" ≡ ok (num 1))
    × (get_json_path_value document "$.xs[" ≡ panic)
unfolding get_json_path_value get_field get_item
path_runs = (refl, refl, refl, refl, refl)

deep_plain : AllPlain (split_dots (strip_root "$.a.c"))
unfolding split_dots strip_root cut_bracket
deep_plain = ((λ e. cc), ((refl, refl), ((refl, refl), tt)))

get_json_path_value-merge_at_path_example :
    get_json_path_value (merge_at_path document (num 3) "$.a.c") "$.a.c" ≡ ok (num 3)
get_json_path_value-merge_at_path_example =
    get_json_path_value-merge_at_path document (num 3) "$.a.c" (inr deep_plain)

abbrev pub plain : Primitives ℕ
plain = record { equal = eqb; less = ltb; at_most = leb; parse_time = λ s. none }

-- A comparison with no test but the one for the variable's presence.
abbrev present_at : String → Comparison ℕ
present_at path = record {
  variable = path;
  string_equals = "";
  string_not_equals = "";
  string_less_than = "";
  string_greater_than = "";
  string_less_than_equals = "";
  string_greater_than_equals = "";
  string_matches = "";
  numeric_equals = none;
  numeric_not_equals = none;
  numeric_less_than = none;
  numeric_greater_than = none;
  numeric_less_than_equals = none;
  numeric_greater_than_equals = none;
  boolean_equals = none;
  timestamp_equals = "";
  timestamp_not_equals = "";
  timestamp_less_than = "";
  timestamp_greater_than = "";
  timestamp_less_than_equals = "";
  timestamp_greater_than_equals = "";
  is_null = none;
  is_present = some true;
  is_numeric = none;
  is_string = none;
  is_boolean = none;
  is_timestamp = none;
}

abbrev has_field : String → ChoiceRule ℕ
has_field path = rule "Next" (present_at path) no_rules no_rules not_negated

choice_runs :
    (evaluate_choice plain (has_field "$.a") (doc document) ≡ ok true)
    × (evaluate_choice plain (has_field "$.z") (doc document) ≡ ok false)
unfolding evaluate_choice get_field
choice_runs = (refl, refl)
