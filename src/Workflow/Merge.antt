-- ===== src/Workflow/Merge.antt =====
-- The input and output processing of a state (internal/workflow/jsonpath.go). The keys of a Go map
-- come in no fixed order: the model takes them in the order of the association list. Decoding what
-- `json.Marshal` made of a decoded value gives that value, so nested parameters are passed on whole.
pub mod RoundTrip
-- pub mod Template
use function.Prelude.{String, ◌||◌, Option, none, some, List, [], ◌∷◌, if◌then◌else◌, ◌==◌}
use Prim.Native.String
use function.Workflow.Json.{
  Value, null, bool, num, str, arr, obj, Items, nil, cons, Fields, end, field, get_field, set_field,
  Raw, absent, invalid, doc,
}
use function.Workflow.Path.{
  bad_parameter, bad_json, Result, ok, err, ◌>>=◌, strip_root, split_dots, get_json_path_value,
}

-- The key without its suffix ".$", if it has it.
unfoldable pub reference : String → Option String
reference String.[] = none
reference (String.◌∷◌ c s) =
    let rest = elim (reference s) as (λ o. Option String) [
      | none ↦ none
      | some t ↦ some (String.◌∷◌ c t)
    ] in
    if String.◌∷◌ c s == ".$" then some "" else rest

module _ {F : Type 0} where
  -- The value that a reference names.
  unfoldable pub resolve : Value F → Value F → Result (Value F)
  resolve input (str path) = get_json_path_value input path
  resolve input _ = err bad_parameter

  assign :
      Option String → String → Result (Value F) → Result (Value F) → Fields F → Result (Fields F)
  assign (some actual) key resolved nested result = do v ← resolved; ok (set_field actual v result)
  assign none key resolved nested result = do v ← nested; ok (set_field key v result)

-- `processParameters` on a decoded value and the loop over its keys.
unfoldable mutual
  unfolding resolve assign reference

  pub process_value : {F : Type 0} → Value F → Value F → Result (Value F)
  process_value input null = ok null
  process_value input (bool b) = ok (bool b)
  process_value input (num x) = ok (num x)
  process_value input (str s) = ok (str s)
  process_value input (arr vs) = ok (arr vs)
  process_value input (obj fs) = do gs ← process_fields input fs end; ok (obj gs)

  pub process_fields : {F : Type 0} → Value F → Fields F → Fields F → Result (Fields F)
  process_fields input end result = ok result
  process_fields input (field key v fs) result = do
    result' ← assign (reference key) key (resolve input v) (process_value input v) result
    process_fields input fs result'

-- `copyMap` and `copySlice`.
unfoldable mutual
  pub copy_value : {F : Type 0} → Value F → Value F
  copy_value null = null
  copy_value (bool b) = bool b
  copy_value (num x) = num x
  copy_value (str s) = str s
  copy_value (arr vs) = arr (copy_slice vs)
  copy_value (obj fs) = obj (copy_map fs)

  pub copy_slice : {F : Type 0} → Items F → Items F
  copy_slice nil = nil
  copy_slice (cons v vs) = cons (copy_value v) (copy_slice vs)

  pub copy_map : {F : Type 0} → Fields F → Fields F
  copy_map end = end
  copy_map (field k v fs) = field k (copy_value v) (copy_map fs)

module _ {F : Type 0} where
  -- `processParameters`. The document `null` decodes to a nil map, which yields an empty object.
  unfoldable pub process_parameters : Value F → Raw F → Result (Value F)
  unfolding process_value
  process_parameters input absent = err bad_json
  process_parameters input invalid = err bad_json
  process_parameters input (doc null) = ok (obj end)
  process_parameters input (doc v) = process_value input v

  apply_path : String → Value F → Result (Value F)
  unfolding get_json_path_value
  apply_path path v = if path == "" then ok v else get_json_path_value v path

  apply_template : Raw F → Value F → Result (Value F)
  unfolding process_parameters
  apply_template absent v = ok v
  apply_template raw v = process_parameters v raw

  unmarshal : Raw F → Result (Value F)
  unmarshal (doc v) = ok v
  unmarshal _ = err bad_json

  -- `ProcessInput`
  unfoldable pub process_input : Raw F → String → Raw F → Result (Value F)
  unfolding unmarshal apply_path apply_template
  process_input input input_path parameters = do
    v ← unmarshal input
    w ← apply_path input_path v
    apply_template parameters w

  sub_map : Option (Value F) → Fields F
  sub_map (some (obj gs)) = gs
  sub_map _ = end

  -- The loop of `mergeAtPath` over the parts of the path.
  unfoldable pub set_path : List String → Value F → Fields F → Fields F
  unfolding sub_map
  set_path [] v fs = fs
  set_path (p ∷ []) v fs = set_field p v fs
  set_path (p ∷ q ∷ ps) v fs = set_field p (obj (set_path (q ∷ ps) v (sub_map (get_field p fs)))) fs

  target_map : Value F → Fields F
  target_map (obj fs) = copy_map fs
  target_map _ = end

  -- `mergeAtPath`; the target is copied first, so it is not changed itself.
  unfoldable pub merge_at_path : Value F → Value F → String → Value F
  unfolding copy_map set_path target_map split_dots strip_root
  merge_at_path target value path =
      if path == "" || path == "$"
      then value
      else obj (set_path (split_dots (strip_root path)) value (target_map target))

  merge_result : String → Raw F → Value F → Result (Value F)
  unfolding merge_at_path unmarshal
  merge_result path original v =
      if path == "" then ok v else do t ← unmarshal original; ok (merge_at_path t v path)

  -- `ProcessOutput`
  unfoldable pub process_output : Raw F → Raw F → String → String → Raw F → Result (Value F)
  unfolding unmarshal apply_path apply_template merge_result
  process_output original output output_path result_path result_selector = do
    v ← unmarshal output
    w ← apply_template result_selector v
    u ← apply_path output_path w
    merge_result result_path original u
