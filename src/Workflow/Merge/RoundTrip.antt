-- ===== src/Workflow/Merge/RoundTrip.antt =====
-- A value that is merged at a path is read back there, and the other keys read as before
-- (internal/workflow/jsonpath.go `mergeAtPath`, internal/workflow/evaluator.go `getJSONPathValue`).
use function.Prelude.{
  String, ◌≡◌, ◌≢◌, refl, ap, ◌∙◌, ◌⊎◌, inl, inr, true, false, ◌||◌, none, some, List, [], ◌∷◌,
  Bool-cases, All, ◌==◌, eq_refl,
}
use function.Workflow.Json.{
  Value, null, bool, num, str, arr, obj, Items, nil, cons, Fields, end, field, get_field, set_field,
  get_field-set_field,
}
use function.Workflow.Path.{
  ok, strip_root, split_dots, cut_bracket, field_of, step, step_cut, walk, get_json_path_value,
}
use function.Workflow.Merge.{
  copy_value, copy_slice, copy_map, set_path, sub_map, target_map, merge_at_path,
}

mutual
  unfolding copy_map copy_value copy_slice

  copy_value_id : {F : Type 0} (v : Value F) → copy_value v ≡ v
  copy_value_id null = refl
  copy_value_id (bool b) = refl
  copy_value_id (num x) = refl
  copy_value_id (str s) = refl
  copy_value_id (arr vs) = ap arr (copy_slice_id vs)
  copy_value_id (obj fs) = ap obj (copy_map_id fs)

  copy_slice_id : {F : Type 0} (vs : Items F) → copy_slice vs ≡ vs
  copy_slice_id nil = refl
  copy_slice_id (cons v vs) = cc (copy_value_id v, copy_slice_id vs)

  copy_map_id : {F : Type 0} (fs : Fields F) → copy_map fs ≡ fs
  copy_map_id end = refl
  copy_map_id (field k v fs) = cc (copy_value_id v, copy_map_id fs)

-- A part of a path that names one key: not empty, and with no bracket.
abbrev pub IsPlain : String → Type 0
IsPlain part = (part == "" ≡ false) × (cut_bracket part ≡ none)

abbrev pub AllPlain : List String → Type 0
AllPlain parts = (parts ≢ []) × All IsPlain parts

module _ {F : Type 0} where
  step_plain : (p : String) (v : Value F) → IsPlain p → step p v ≡ field_of p v
  unfolding step step_cut
  step_plain p v h = rw (h.0, h.1)

  field_of_found :
      (p : String) (v : Value F) (fs : Fields F)
      → get_field p fs ≡ some v
      → field_of p (obj fs) ≡ ok v
  unfolding field_of
  field_of_found p v fs h = rw (h, field_of)

  get_field-set_field_same :
      (p : String) (v : Value F) (fs : Fields F) → get_field p (set_field p v fs) ≡ some v
  get_field-set_field_same p v fs = rw (get_field-set_field, eq_refl)

  step-set_field :
      (p : String) (v : Value F) (fs : Fields F)
      → IsPlain p
      → step p (obj (set_field p v fs)) ≡ ok v
  step-set_field p v fs h =
      step_plain p (obj (set_field p v fs)) h
      ∙ field_of_found p v (set_field p v fs) (get_field-set_field_same p v fs)

  walk-set_path :
      (parts : List String) (v : Value F) (fs : Fields F)
      → AllPlain parts
      → walk parts (obj (set_path parts v fs)) ≡ ok v
  unfolding walk set_path
  walk-set_path [] v fs h = absurd (h.0 refl)
  walk-set_path (p ∷ []) v fs h = rw (step-set_field p v fs h.1.0)
  walk-set_path (p ∷ q ∷ ps) v fs h =
      let inner : Fields F = set_path (q ∷ ps) v (sub_map (get_field p fs)) in
      rw (step-set_field p (obj inner) fs h.1.0)
        (walk-set_path (q ∷ ps) v (sub_map (get_field p fs)) ((λ e. cc), h.1.1))

  -- A value that is merged at a path of plain parts, or at the root, is what the path reads.
  pub get_json_path_value-merge_at_path :
      (target value : Value F) (path : String)
      → ((path == "" || path == "$") ≡ true) ⊎ AllPlain (split_dots (strip_root path))
      → get_json_path_value (merge_at_path target value path) path ≡ ok value
  unfolding get_json_path_value merge_at_path
  get_json_path_value-merge_at_path target value path (inl root) = rw root
  get_json_path_value-merge_at_path target value path (inr plain) =
      elim (Bool-cases (path == "" || path == "$")) [
        | inl root ↦ rw root
        | inr deep ↦
            rw deep (walk-set_path (split_dots (strip_root path)) value (target_map target) plain)
      ]
