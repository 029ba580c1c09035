-- ===== src/Workflow/Evaluator.antt =====
-- The conditions of a Choice state (internal/workflow/evaluator.go). The comparisons of float64 and
-- `time.Parse` are parameters; a string compares byte by byte, as Go does.
pub mod Glob
pub mod Logic
use function.Prelude.{
  ℕ, String, Bool, true, false, not, ◌&&◌, ◌||◌, Option, none, some, List, [], ◌∷◌, ◌++◌, ltb, eqb,
  if◌then◌else◌, ◌==◌,
}
use Prim.Native.String
use function.Prelude.Int.{ℤ, ltb_ℤ, eqb_ℤ}
use function.Prelude.Text.{bytes, codes}
use function.Workflow.Json.{Value, null, bool, num, str, Raw, doc}
use function.Workflow.Path.{
  bad_json, bad_time, empty_variable, Result, ok, err, panic, ◌>>=◌, get_json_path_value,
}
use function.Workflow.Types.{
  Comparison, ChoiceRule, rule, Rules, no_rules, more_rules, not_negated, negated,
}

-- What the conditions use of float64 and of package time: `==`, `<` and `<=` (a NaN is in no
-- relation), and the instant that an RFC 3339 text names.
pub record Primitives (F : Type 0) : Type 0 where
  pub equal : F → F → Bool
  pub less : F → F → Bool
  pub at_most : F → F → Bool
  pub parse_time : String → Option ℤ

same : Bool → Bool → Bool
same true b = b
same false b = not b

-- The order of Go's strings: bytes first to last, a prefix first.
unfoldable pub less_bytes : List ℕ → List ℕ → Bool
less_bytes bs [] = false
less_bytes [] (c ∷ cs) = true
less_bytes (b ∷ bs) (c ∷ cs) =
    let rest = less_bytes bs cs in if ltb b c then true else if eqb b c then rest else false

abbrev less_string : String → String → Bool
unfolding less_bytes
less_string s t = less_bytes (bytes s) (bytes t)

abbrev is_one_of : ℕ → List ℕ → Bool
is_one_of c [] = false
is_one_of c (d ∷ ds) = eqb c d || is_one_of c ds

-- `regexp.QuoteMeta`: a backslash before each of \.+*?()|[]{}^$
abbrev pub is_special : ℕ → Bool
is_special c =
    is_one_of c (92 ∷ 46 ∷ 43 ∷ 42 ∷ 63 ∷ 40 ∷ 41 ∷ 124 ∷ 91 ∷ 93 ∷ 123 ∷ 125 ∷ 94 ∷ 36 ∷ [])

unfoldable pub quote_meta : List ℕ → List ℕ
quote_meta [] = []
quote_meta (c ∷ cs) = let rest = quote_meta cs in if is_special c then 92 ∷ c ∷ rest else c ∷ rest

-- `strings.ReplaceAll(result, "\*", ".*")`
unfoldable pub replace_all : List ℕ → List ℕ
replace_all [] = []
replace_all (c ∷ []) = c ∷ []
replace_all (c ∷ d ∷ cs) =
    let after = replace_all cs in
    let rest = replace_all (d ∷ cs) in if eqb c 92 && eqb d 42 then 46 ∷ 42 ∷ after else c ∷ rest

-- `wildcardToRegex`
unfoldable pub wildcard_to_regex : List ℕ → List ℕ
unfolding quote_meta replace_all
wildcard_to_regex pattern = 94 ∷ (replace_all (quote_meta pattern) ++ 36 ∷ [])

-- The regular expression `.*` before a rest: a newline is not skipped.
unfoldable pub star : (List ℕ → Bool) → List ℕ → Bool
star rest [] = rest []
star rest (c ∷ cs) = let more = star rest cs in rest (c ∷ cs) || (not (eqb c 10) && more)

-- A regular expression that is one character, before a rest.
unfoldable pub one_char : ℕ → (List ℕ → Bool) → List ℕ → Bool
one_char c rest [] = false
one_char c rest (d ∷ ds) = eqb c d && rest ds

abbrev pub is_end : List ℕ → Bool
is_end [] = true
is_end (d ∷ ds) = false

-- What package regexp does with the expressions that the code makes, from a place of the text: `$` at the
-- end, a backslash before a character, `.*`, and characters that stand for themselves.
unfoldable pub match_here : List ℕ → List ℕ → Bool
unfolding star one_char
match_here [] ds = true
match_here (c ∷ []) ds = if eqb c 36 then is_end ds else one_char c (λ es. true) ds
match_here (c ∷ d ∷ cs) ds =
    if eqb c 92
    then one_char d (match_here cs) ds
    else if eqb c 46 && eqb d 42
    then star (match_here cs) ds
    else one_char c (match_here (d ∷ cs)) ds

-- Without `^` the match may begin anywhere.
unfoldable pub search : (List ℕ → Bool) → List ℕ → Bool
search from [] = from []
search from (d ∷ ds) = let later = search from ds in from (d ∷ ds) || later

-- `regexp.MatchString`
unfoldable pub match_string : List ℕ → List ℕ → Bool
unfolding match_here search
match_string [] ds = true
match_string (c ∷ cs) ds = if eqb c 94 then match_here cs ds else search (match_here (c ∷ cs)) ds

-- `regexp.MatchString(wildcardToRegex(pattern), text)`
unfoldable pub matches : List ℕ → List ℕ → Bool
unfolding wildcard_to_regex match_string
matches pattern ds = match_string (wildcard_to_regex pattern) ds

abbrev holds : {A : Type 0} → (A → Bool) → Option A → Bool
holds test none = false
holds test (some a) = test a

abbrev is_some : {A : Type 0} → Option A → Bool
is_some none = false
is_some (some a) = true

abbrev compare_instants : (ℤ → ℤ → Bool) → ℤ → Option ℤ → Result Bool
compare_instants compare a none = err bad_time
compare_instants compare a (some b) = ok (compare a b)

-- A test that is set answers, else the next ones do.
abbrev Test : Type 0
Test = Option (Result Bool)

abbrev if_set : {A : Type 0} → Option A → (A → Result Bool) → Test
if_set none test = none
if_set (some a) test = some (test a)

abbrev if_text : String → (String → Result Bool) → Test
if_text s test = if s == "" then none else some (test s)

abbrev first_set : List Test → Result Bool
first_set [] = ok false
first_set (none ∷ tests) = first_set tests
first_set (some answer ∷ tests) = answer

module _ {F : Type 0} where
  is_null_value : Value F → Bool
  is_null_value null = true
  is_null_value _ = false

  -- `value.(float64)`, `value.(string)` and `value.(bool)`
  as_number : Value F → Option F
  as_number (num x) = some x
  as_number _ = none

  as_string : Value F → Option String
  as_string (str s) = some s
  as_string _ = none

  as_bool : Value F → Option Bool
  as_bool (bool b) = some b
  as_bool _ = none

  is_timestamp_text : Primitives F → Option String → Bool
  is_timestamp_text p none = false
  is_timestamp_text p (some s) = is_some (p.parse_time s)

  -- `compareTimestamps`
  unfoldable pub compare_timestamps : Primitives F → Value F → String → (ℤ → ℤ → Bool) → Result Bool
  unfolding as_string
  compare_timestamps p v with_text compare = elim (as_string v) [
    | none ↦ ok false
    | some s ↦ elim (p.parse_time s) [
      | none ↦ ok false
      | some a ↦ compare_instants compare a (p.parse_time with_text)
    ]
  ]

  timestamp_tests : Primitives F → Comparison F → Value F → List Test
  unfolding compare_timestamps
  timestamp_tests p c v =
      if_text c.timestamp_equals (λ t. compare_timestamps p v t eqb_ℤ)
      ∷ if_text c.timestamp_not_equals (λ t. compare_timestamps p v t (λ a b. not (eqb_ℤ a b)))
      ∷ if_text c.timestamp_less_than (λ t. compare_timestamps p v t ltb_ℤ)
      ∷ if_text c.timestamp_greater_than (λ t. compare_timestamps p v t (λ a b. ltb_ℤ b a))
      ∷ if_text c.timestamp_less_than_equals
          (λ t. compare_timestamps p v t (λ a b. ltb_ℤ a b || eqb_ℤ a b))
      ∷ if_text c.timestamp_greater_than_equals
          (λ t. compare_timestamps p v t (λ a b. ltb_ℤ b a || eqb_ℤ a b))
      ∷ []

  number_tests : Primitives F → Comparison F → Value F → List Test
  unfolding as_number as_bool timestamp_tests same
  number_tests p c v =
      let test : (F → F → Bool) → F → Result Bool =
        λ compare x. ok (holds (λ n. compare n x) (as_number v)) in
      if_set c.numeric_equals (test p.equal)
      ∷ if_set c.numeric_not_equals (test (λ n x. not (p.equal n x)))
      ∷ if_set c.numeric_less_than (test p.less)
      ∷ if_set c.numeric_greater_than (test (λ n x. p.less x n))
      ∷ if_set c.numeric_less_than_equals (test p.at_most)
      ∷ if_set c.numeric_greater_than_equals (test (λ n x. p.at_most x n))
      ∷ if_set c.boolean_equals (λ b. ok (holds (same b) (as_bool v)))
      ∷ timestamp_tests p c v

  string_tests : Primitives F → Comparison F → Value F → List Test
  unfolding as_string matches number_tests less_string
  string_tests p c v =
      let test : (String → String → Bool) → String → Result Bool =
        λ compare x. ok (holds (λ s. compare s x) (as_string v)) in
      if_text c.string_equals (test (λ s x. s == x))
      ∷ if_text c.string_not_equals (test (λ s x. not (s == x)))
      ∷ if_text c.string_less_than (test less_string)
      ∷ if_text c.string_greater_than (test (λ s x. less_string x s))
      ∷ if_text c.string_less_than_equals (test (λ s x. not (less_string x s)))
      ∷ if_text c.string_greater_than_equals (test (λ s x. not (less_string s x)))
      ∷ if_text c.string_matches (test (λ s x. matches (codes x) (codes s)))
      ∷ number_tests p c v

  -- The tests of `evaluateCondition` on the value of the variable, in their order.
  unfoldable pub tests_of : Primitives F → Comparison F → Value F → Result Bool
  unfolding same is_null_value as_number as_string as_bool is_timestamp_text string_tests
  tests_of p c v = first_set (
      if_set c.is_present (λ b. ok b)
      ∷ if_set c.is_null (λ b. ok (same (is_null_value v) b))
      ∷ if_set c.is_numeric (λ b. ok (same (is_some (as_number v)) b))
      ∷ if_set c.is_string (λ b. ok (same (is_some (as_string v)) b))
      ∷ if_set c.is_boolean (λ b. ok (same (is_some (as_bool v)) b))
      ∷ if_set c.is_timestamp (λ b. ok (same (is_timestamp_text p (as_string v)) b))
      ∷ string_tests p c v)

  -- `getVariableValue`
  unfoldable pub get_variable_value : String → Raw F → Result (Value F)
  unfolding get_json_path_value
  get_variable_value variable (doc v) =
      if variable == "" then err empty_variable else get_json_path_value v variable
  get_variable_value variable _ = if variable == "" then err empty_variable else err bad_json

  -- `evaluateCondition`; a variable that is not there is an answer, not an error.
  condition_of : Primitives F → Comparison F → Result (Value F) → Result Bool
  unfolding tests_of
  condition_of p c (ok v) = tests_of p c v
  condition_of p c (err e) =
      first_set (if_set c.is_present (λ b. ok (not b)) ∷ if_set c.is_null (λ b. ok b) ∷ [])
  condition_of p c panic = panic

  unfoldable pub evaluate_condition : Primitives F → Comparison F → Raw F → Result Bool
  unfolding condition_of get_variable_value
  evaluate_condition p c input = condition_of p c (get_variable_value c.variable input)

unfoldable mutual
  unfolding evaluate_condition

  -- `EvaluateChoice`; `And` comes before `Or`, and `Or` before `Not`.
  pub evaluate_choice : {F : Type 0} → Primitives F → ChoiceRule F → Raw F → Result Bool
  evaluate_choice p (rule next c (more_rules r rs) ors n) input =
      evaluate_and p (more_rules r rs) input
  evaluate_choice p (rule next c no_rules (more_rules r rs) n) input =
      evaluate_or p (more_rules r rs) input
  evaluate_choice p (rule next c no_rules no_rules (negated r)) input = do
    b ← evaluate_choice p r input
    ok (not b)
  evaluate_choice p (rule next c no_rules no_rules not_negated) input = evaluate_condition p c input

  -- `evaluateAnd`
  pub evaluate_and : {F : Type 0} → Primitives F → Rules F → Raw F → Result Bool
  evaluate_and p no_rules input = ok true
  evaluate_and p (more_rules r rs) input = do
    b ← evaluate_choice p r input
    if b then evaluate_and p rs input else ok false

  -- `evaluateOr`
  pub evaluate_or : {F : Type 0} → Primitives F → Rules F → Raw F → Result Bool
  evaluate_or p no_rules input = ok false
  evaluate_or p (more_rules r rs) input = do
    b ← evaluate_choice p r input
    if b then ok true else evaluate_or p rs input
