-- ===== src/Domain/Function/Requests.antt =====
-- The request that makes a function and its validation (internal/domain/function.go
-- `CreateFunctionRequest.Validate`).
use function.Prelude.{
  ℕ, zero, suc, ◌*◌, ◌≤◌, String, ◌≡◌, Bool, true, not, ◌||◌, Option, none, some, arith, ltb,
  if◌then◌else◌, length, ◌==◌,
}
use function.Prelude.Int.{ℤ, pos, negsuc, ltb_ℤ, ◌≤ℤ◌}
use function.Prelude.Text.{bytes}
use function.Domain.Function.{Runtime, is_valid_runtime}

pub data RequestError : Type 0 where
  invalid_function_name invalid_runtime invalid_handler invalid_code : RequestError
  code_size_exceeded binary_size_exceeded invalid_cron_expression : RequestError
  invalid_memory invalid_timeout : RequestError

-- The fields that the validation reads or sets.
pub record CreateFunctionRequest : Type 0 where
  pub name : String
  pub request_runtime : Runtime
  pub request_handler : String
  pub request_code : String
  pub request_binary : String
  pub request_memory : ℤ
  pub request_timeout : ℤ
  pub request_cron : String

abbrev pub max_code_size : ℕ
max_code_size = 512 * 1024

abbrev pub max_binary_size : ℕ
max_binary_size = 50 * 1024 * 1024

-- The length of a text in bytes, which Go's `len` is.
unfoldable pub byte_length : String → ℕ
unfolding bytes
byte_length s = length (bytes s)

unfoldable pub code_fits : String → Bool
unfolding byte_length
code_fits s = not (ltb max_code_size (byte_length s))

unfoldable pub binary_fits : String → Bool
unfolding byte_length
binary_fits s = not (ltb max_binary_size (byte_length s))

-- A default for a number that is zero.
unfoldable pub or_default : ℕ → ℤ → ℤ
or_default d (pos zero) = pos d
or_default d (pos (suc n)) = pos (suc n)
or_default d (negsuc n) = negsuc n

unfoldable pub check_timeout : CreateFunctionRequest → CreateFunctionRequest × Option RequestError
unfolding or_default
check_timeout r =
    let r' : CreateFunctionRequest = record r {
      request_timeout = or_default 30 r.request_timeout;
    } in
    if ltb_ℤ r'.request_timeout (pos 1) || ltb_ℤ (pos 300) r'.request_timeout
    then (r', some invalid_timeout)
    else (r', none)

unfoldable pub check_limits : CreateFunctionRequest → CreateFunctionRequest × Option RequestError
unfolding or_default check_timeout
check_limits r =
    let r' : CreateFunctionRequest = record r {
      request_memory = or_default 256 r.request_memory;
    } in
    if ltb_ℤ r'.request_memory (pos 128) || ltb_ℤ (pos 3072) r'.request_memory
    then (r', some invalid_memory)
    else check_timeout r'

module _ (is_cron : String → Bool) where
  -- `ValidateCronExpression`
  unfoldable pub is_cron_expression : String → Bool
  is_cron_expression s = s == "" || is_cron s

  -- `Validate`: the request, in which defaults may be set, and its error.
  unfoldable pub validate : CreateFunctionRequest → CreateFunctionRequest × Option RequestError
  unfolding is_valid_runtime code_fits binary_fits is_cron_expression check_limits
  validate r =
      if r.name == ""
      then (r, some invalid_function_name)
      else if not (is_valid_runtime r.request_runtime)
      then (r, some invalid_runtime)
      else if r.request_handler == ""
      then (r, some invalid_handler)
      else if r.request_code == ""
      then (r, some invalid_code)
      else if not (code_fits r.request_code)
      then (r, some code_size_exceeded)
      else if not (r.request_binary == "" || binary_fits r.request_binary)
      then (r, some binary_size_exceeded)
      else if not (is_cron_expression r.request_cron)
      then (r, some invalid_cron_expression)
      else check_limits r

  -- The limits of an accepted request.
  pub record IsWithin (r : CreateFunctionRequest) : Type 0 where
    pub memory_low : pos 128 ≤ℤ r.request_memory
    pub memory_high : r.request_memory ≤ℤ pos 3072
    pub timeout_low : pos 1 ≤ℤ r.request_timeout
    pub timeout_high : r.request_timeout ≤ℤ pos 300
    pub code_bound : byte_length r.request_code ≤ max_code_size

  check_limits-IsWithin :
      (r : CreateFunctionRequest)
      → code_fits r.request_code ≡ true
      → (check_limits r).1 ≡ none
      → IsWithin (check_limits r).0
  unfolding check_limits check_timeout or_default code_fits
  check_limits-IsWithin r c h = ground arith

  validate-IsWithin : (r : CreateFunctionRequest) → (validate r).1 ≡ none → IsWithin (validate r).0
  unfolding validate
  validate-IsWithin r h = ground (arith, check_limits-IsWithin r)

  or_default_twice : (d : ℕ) (z : ℤ) → or_default d (or_default d z) ≡ or_default d z
  unfolding or_default
  or_default_twice d z = ground arith

  check_limits_twice :
      (r : CreateFunctionRequest)
      → (check_limits r).1 ≡ none
      → check_limits (check_limits r).0 ≡ ((check_limits r).0, none)
  unfolding check_limits check_timeout or_default
  check_limits_twice r h = ground arith

  -- Setting the limits leaves what the other checks read.
  check_limits_keeps :
      (r : CreateFunctionRequest)
      → ((check_limits r).0.name ≡ r.name)
        × ((check_limits r).0.request_runtime ≡ r.request_runtime)
        × ((check_limits r).0.request_handler ≡ r.request_handler)
        × ((check_limits r).0.request_code ≡ r.request_code)
        × ((check_limits r).0.request_binary ≡ r.request_binary)
        × ((check_limits r).0.request_cron ≡ r.request_cron)
  unfolding check_limits check_timeout
  check_limits_keeps r = ground arith

  validate_twice :
      (r : CreateFunctionRequest)
      → (validate r).1 ≡ none
      → validate (validate r).0 ≡ ((validate r).0, none)
  unfolding validate
  validate_twice r h = ground (arith, check_limits_twice r, check_limits_keeps r)

  -- A request that is accepted is within the limits of memory, time and code, its defaults set, and it
  -- is accepted again as it then is.
  pub validate_accepted :
      (r : CreateFunctionRequest)
      → (validate r).1 ≡ none
      → IsWithin (validate r).0 × (validate (validate r).0 ≡ ((validate r).0, none))
  validate_accepted r h = (validate-IsWithin r h, validate_twice r h)
