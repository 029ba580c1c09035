-- ===== src/Workflow/Path/Panics.antt =====
-- Paths that end the process (internal/workflow/evaluator.go `getJSONPathValue`).
use function.Prelude.{
  String, ◌≡◌, refl, sym, ap, ◌∙◌, inl, inr, false, ◌||◌, Option, some, List, ◌∷◌, Bool-cases, ◌==◌,
  eq_iff,
}
use function.Workflow.Json.{Value}
use function.Workflow.Path.{
  panic, strip_root, split_dots, cut_bracket, indexed, step, step_cut, walk, get_json_path_value,
}

empty_uncut : (part name : String) → cut_bracket part ≡ some (name, "") → part == "" ≡ false
unfolding cut_bracket
empty_uncut part name h = elim (Bool-cases (part == "")) [
  | inl empty ↦
      let e : part ≡ "" = (eq_iff part "").0 empty in
      let bad : cut_bracket "" ≡ some (name, "") = ap cut_bracket (sym e) ∙ h in absurd (cc bad)
  | inr full ↦ full
]

module _ {F : Type 0} where
  step_cut_panics :
      (cut : Option (String × String)) (part name : String) (v : Value F)
      → cut ≡ some (name, "")
      → step_cut cut part v ≡ panic
  unfolding step_cut indexed
  step_cut_panics cut part name v h = rw h refl

  step_panics :
      (part name : String) (v : Value F) → cut_bracket part ≡ some (name, "") → step part v ≡ panic
  unfolding step
  step_panics part name v h =
      rw (empty_uncut part name h) (step_cut_panics (cut_bracket part) part name v h)

  -- A path whose first part ends in its first "[" makes the code panic, whatever the document is.
  pub get_json_path_value_panics :
      (v : Value F) (path part name : String) (parts : List String)
      → (path == "" || path == "$") ≡ false
      → split_dots (strip_root path) ≡ part ∷ parts
      → cut_bracket part ≡ some (name, "")
      → get_json_path_value v path ≡ panic
  unfolding get_json_path_value walk
  get_json_path_value_panics v path part name parts h k cut =
      rw (h, k, step_panics part name v cut) refl
