-- ===== src/Workflow/Path.antt =====
-- Reading a path out of a document (internal/workflow/evaluator.go, `getJSONPathValue`).
pub mod Panics
use function.Prelude.{
  ℕ, ◌+◌, ◌-◌, ◌*◌, ◌^◌, String, Bool, true, false, ◌&&◌, ◌||◌, Option, none, some, List, [], ◌∷◌,
  ltb, leb, eqb, if◌then◌else◌, ◌==◌,
}
use Prim.Native.Char.{Char, code}
use Prim.Native.String
use function.Prelude.Text.{codes}
use function.Workflow.Json.{Value, arr, obj, get_field, get_item}

pub data Failure : Type 0 where
  non_object field_not_found non_array out_of_bounds bad_parameter bad_json empty_variable
        bad_time :
      Failure

-- A result, an error, or a panic of the Go code.
pub data Result {ℓ} (A : Type ℓ) : Type ℓ where
  ok : A → Result A
  err : Failure → Result A
  panic : Result A

infixl 5 ◌>>=◌
abbrev pub ◌>>=◌ {ℓ κ} : {A : Type ℓ} {B : Type κ} → Result A → (A → Result B) → Result B
ok a >>= f = f a
err e >>= f = err e
panic >>= f = panic

-- `strings.TrimPrefix` of "$.", and else of "$", as both path functions spell it out.
unfoldable pub strip_root : String → String
strip_root String.[] = ""
strip_root (String.◌∷◌ c String.[]) = if eqb (code c) b'$' then "" else String.◌∷◌ c ""
strip_root (String.◌∷◌ c (String.◌∷◌ d s)) =
    if eqb (code c) b'$'
    then (if eqb (code d) b'.' then s else String.◌∷◌ d s)
    else String.◌∷◌ c (String.◌∷◌ d s)

push : Char → List String → List String
push c [] = String.◌∷◌ c "" ∷ []
push c (p ∷ ps) = String.◌∷◌ c p ∷ ps

-- `strings.Split(path, ".")`
unfoldable pub split_dots : String → List String
unfolding push
split_dots String.[] = "" ∷ []
split_dots (String.◌∷◌ c s) = if eqb (code c) b'.' then "" ∷ split_dots s else push c (split_dots s)

-- The text before the first "[" and the text after it.
unfoldable pub cut_bracket : String → Option (String × String)
cut_bracket String.[] = none
cut_bracket (String.◌∷◌ c s) =
    let rest = elim (cut_bracket s) as (λ o. Option (String × String)) [
      | none ↦ none
      | some (a, b) ↦ some (String.◌∷◌ c a, b)
    ] in
    if eqb (code c) b'[' then some ("", s) else rest

abbrev drop_last : List ℕ → List ℕ
drop_last [] = []
drop_last (c ∷ []) = []
drop_last (c ∷ d ∷ cs) = c ∷ drop_last (d ∷ cs)

-- The spaces that `fmt` skips, but for the newline, which makes `Sscanf` fail.
is_space : ℕ → Bool
is_space c =
    eqb c 32
    || eqb c 9
    || eqb c 11
    || eqb c 12
    || eqb c 13
    || eqb c 0x85
    || eqb c 0xa0
    || eqb c 0x1680
    || (leb 0x2000 c && leb c 0x200a)
    || eqb c 0x2028
    || eqb c 0x2029
    || eqb c 0x202f
    || eqb c 0x205f
    || eqb c 0x3000

skip_space : List ℕ → List ℕ
unfolding is_space
skip_space [] = []
skip_space (c ∷ cs) = let rest = skip_space cs in if is_space c then rest else c ∷ cs

abbrev is_digit : ℕ → Bool
is_digit c = leb b'0' c && leb c b'9'

digits_value : ℕ → List ℕ → ℕ
digits_value n [] = n
digits_value n (c ∷ cs) =
    let more = digits_value (n * 10 + (c - b'0')) cs in if is_digit c then more else n

-- The index that `Sscanf` leaves: 0 where the text has no number or one that is no int64, and none
-- for a negative number.
signed : Bool → ℕ → Option ℕ
signed false n = if ltb n (2 ^ 63) then some n else some 0
signed true n = if leb n (2 ^ 63) && ltb 0 n then none else some 0

scan_sign : List ℕ → Option ℕ
unfolding signed digits_value
scan_sign [] = some 0
scan_sign (c ∷ cs) =
    if eqb c b'-'
    then signed true (digits_value 0 cs)
    else if eqb c b'+'
    then signed false (digits_value 0 cs)
    else signed false (digits_value 0 (c ∷ cs))

-- `fmt.Sscanf(indexStr, "%d", &index)` with `index` 0 before.
unfoldable pub scan_index : List ℕ → Option ℕ
unfolding scan_sign skip_space
scan_index cs = scan_sign (skip_space cs)

module _ {F : Type 0} where
  -- An access to a field of an object.
  unfoldable pub field_of : String → Value F → Result (Value F)
  field_of name (obj fs) = elim (get_field name fs) [ none ↦ err field_not_found | some v ↦ ok v ]
  field_of name _ = err non_object

  item_at : Option ℕ → Value F → Result (Value F)
  item_at none (arr vs) = err out_of_bounds
  item_at (some i) (arr vs) = elim (get_item i vs) [ none ↦ err out_of_bounds | some v ↦ ok v ]
  item_at i _ = err non_array

  -- A part with a bracket. `part[idx+1 : len(part)-1]` panics where the bracket ends the part.
  unfoldable pub indexed : String → String → Value F → Result (Value F)
  unfolding field_of item_at scan_index
  indexed name String.[] v = panic
  indexed name (String.◌∷◌ c s) v = do
    w ← if name == "" then ok v else field_of name v
    item_at (scan_index (drop_last (codes (String.◌∷◌ c s)))) w

  unfoldable pub step_cut : Option (String × String) → String → Value F → Result (Value F)
  unfolding indexed field_of
  step_cut none part v = field_of part v
  step_cut (some (name, rest)) part v = indexed name rest v

  -- One part of the path.
  unfoldable pub step : String → Value F → Result (Value F)
  unfolding step_cut cut_bracket
  step part v = if part == "" then ok v else step_cut (cut_bracket part) part v

  unfoldable pub walk : List String → Value F → Result (Value F)
  walk [] v = ok v
  walk (part ∷ parts) v = do w ← step part v; walk parts w

  -- `getJSONPathValue`
  unfoldable pub get_json_path_value : Value F → String → Result (Value F)
  unfolding walk step strip_root split_dots
  get_json_path_value v path =
      if path == "" || path == "$" then ok v else walk (split_dots (strip_root path)) v
