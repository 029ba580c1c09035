-- ===== src/Workflow/Json.antt =====
-- What `json.Unmarshal` yields for an `interface{}` (internal/workflow/jsonpath.go). A number is a
-- float64, of which only comparisons are used, so its type is a parameter. The order of a Go map is
-- not observed: an object is an association list whose keys are read first to last.
use function.Prelude.{
  ℕ, zero, suc, String, ◌≡◌, refl, Bool, Option, none, some, arith, if◌then◌else◌, ◌==◌, eq_iff,
}

mutual
  pub data Value (F : Type 0) : Type 0 where
    null : Value F
    bool : Bool → Value F
    num : F → Value F
    str : String → Value F
    arr : Items F → Value F
    obj : Fields F → Value F

  pub data Items (F : Type 0) : Type 0 where
    nil : Items F
    cons : Value F → Items F → Items F

  pub data Fields (F : Type 0) : Type 0 where
    end : Fields F
    field : String → Value F → Fields F → Fields F

module _ {F : Type 0} where
  unfoldable pub get_field : String → Fields F → Option (Value F)
  get_field k end = none
  get_field k (field j v fs) = if j == k then some v else get_field k fs

  -- An assignment to a key of a map.
  unfoldable pub set_field : String → Value F → Fields F → Fields F
  set_field k v end = field k v end
  set_field k v (field j w fs) = if j == k then field k v fs else field j w (set_field k v fs)

  unfoldable pub get_item : ℕ → Items F → Option (Value F)
  get_item i nil = none
  get_item zero (cons v vs) = some v
  get_item (suc i) (cons v vs) = get_item i vs

  pub get_field-set_field :
      (k j : String) (v : Value F) (fs : Fields F)
      → get_field j (set_field k v fs) ≡ (if k == j then some v else get_field j fs)
  unfolding get_field set_field
  get_field-set_field k j v end = refl
  get_field-set_field k j v (field i w fs) =
      ground (arith, eq_iff k j, eq_iff i k, eq_iff i j, get_field-set_field k j v fs)

-- A `json.RawMessage`: nil, text that does not parse, or the text of a value.
pub data Raw (F : Type 0) : Type 0 where
  absent : Raw F
  invalid : Raw F
  doc : Value F → Raw F
