-- ===== src/Domain/Tests.antt =====
-- Runs of the records on small inputs, and the theorems at inputs that meet their hypotheses.
use function.Prelude.{ℕ, ◌≡◌, refl, Bool, false, String, none, some, ◌==◌}
use function.Domain.Function.{python311}
use function.Domain.Function.Requests.{
  CreateFunctionRequest, validate, IsWithin, validate_accepted, invalid_cron_expression,
}
use function.Prelude.Int.{pos, negsuc}
use function.Domain.Invocation.{billed, http, start, complete, new_invocation}

billed_runs :
    (billed (pos 0) ≡ pos 100)
    × (billed (pos 100) ≡ pos 100)
    × (billed (pos 150) ≡ pos 200)
    × (billed (negsuc 4) ≡ pos 100)
unfolding billed
billed_runs = (refl, refl, refl, refl)

complete_runs :
    (complete {J = ℕ}
      (pos 1150)
      7
      (pos 64)
      (start (pos 1000) "vm1" false (new_invocation (pos 990) "f" "hello" http 3))).billed_time_ms
    ≡ pos 200
unfolding complete start new_invocation
complete_runs = refl

-- The request of the tests, with a time trigger; the only cron expression is "@daily".
abbrev request : String → CreateFunctionRequest
request spec = record {
  name = "hello";
  request_runtime = python311;
  request_handler = "main.run";
  request_code = "pass";
  request_binary = "";
  request_memory = pos 0;
  request_timeout = pos 0;
  request_cron = spec;
}

abbrev is_daily : String → Bool
is_daily s = s == "@daily"

validate_runs :
    ((validate is_daily (request "never")).1 ≡ some invalid_cron_expression)
    × ((validate is_daily (request "@daily")).0.request_memory ≡ pos 256)
unfolding validate
validate_runs = (refl, refl)

accepted_request : (validate is_daily (request "@daily")).1 ≡ none
unfolding validate
accepted_request = refl

validate_accepted_example :
    IsWithin is_daily (validate is_daily (request "@daily")).0
    × (validate is_daily (validate is_daily (request "@daily")).0
        ≡ ((validate is_daily (request "@daily")).0, none))
validate_accepted_example = validate_accepted is_daily (request "@daily") accepted_request
