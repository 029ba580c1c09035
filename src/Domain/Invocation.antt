-- ===== src/Domain/Invocation.antt =====
-- An invocation and what it is billed (internal/domain/invocation.go). Times are milliseconds, within
-- the range of int64; `Milliseconds` rounds down what `time.Since` measures.
pub mod Billing
pub mod Ends
use function.Prelude.{
  ℕ, ◌+◌, ◌-◌, ◌*◌, ◌/◌, String, Bool, false, Option, none, some, leb, if◌then◌else◌,
}
use function.Prelude.Int.{ℤ, pos, negsuc, ◌+ℤ◌, ◌-ℤ◌, ltb_ℤ}

pub data InvocationStatus : Type 0 where
  pending running success failed timeout cancelled : InvocationStatus

pub data TriggerType : Type 0 where
  http event cron : TriggerType

pub record Invocation (J : Type 0) : Type 0 where
  pub invocation_id : String
  pub function_id : String
  pub function_name : String
  pub trigger_type : TriggerType
  pub status : InvocationStatus
  pub input : J
  pub output : Option J
  pub error : String
  pub cold_start : Bool
  pub vm_id : String
  pub version : ℤ
  pub alias_used : String
  pub session_key : String
  pub started_at : Option ℤ
  pub completed_at : Option ℤ
  pub duration_ms : ℤ
  pub billed_time_ms : ℤ
  pub memory_used_mb : ℤ
  pub retry_count : ℕ
  pub created_at : ℤ

-- Go's integer division by 100, which rounds towards zero, times 100.
unfoldable pub hundreds : ℤ → ℤ
hundreds (pos n) = pos (n / 100 * 100)
hundreds (negsuc n) = if leb 99 n then negsuc ((n + 1) / 100 * 100 - 1) else pos 0

-- The formula of `calculateBilledTime`.
unfoldable pub billed : ℤ → ℤ
unfolding hundreds ◌+ℤ◌
billed duration =
    let rounded = hundreds (duration +ℤ pos 99) in
    if ltb_ℤ rounded (pos 100) then pos 100 else rounded

module _ {J : Type 0} where
  -- `NewInvocation`
  unfoldable pub new_invocation : ℤ → String → String → TriggerType → J → Invocation J
  new_invocation now function_id function_name trigger_type input = record {
    invocation_id = "";
    function_id = function_id;
    function_name = function_name;
    trigger_type = trigger_type;
    status = pending;
    input = input;
    output = none;
    error = "";
    cold_start = false;
    vm_id = "";
    version = pos 0;
    alias_used = "";
    session_key = "";
    started_at = none;
    completed_at = none;
    duration_ms = pos 0;
    billed_time_ms = pos 0;
    memory_used_mb = pos 0;
    retry_count = 0;
    created_at = now;
  }

  -- `calculateBilledTime`
  unfoldable pub calculate_billed_time : Invocation J → Invocation J
  unfolding billed
  calculate_billed_time i = record i { billed_time_ms = billed i.duration_ms }

  -- `Start`
  unfoldable pub start : ℤ → String → Bool → Invocation J → Invocation J
  start now vm_id cold_start i = record i {
    status = running;
    vm_id = vm_id;
    cold_start = cold_start;
    started_at = some now;
  }

  -- The end that `Complete`, `Fail` and `Timeout` share: the duration, if the invocation was started.
  measured : ℤ → Invocation J → ℤ
  unfolding ◌-ℤ◌
  measured now i = elim (i.started_at) [ none ↦ i.duration_ms | some t ↦ now -ℤ t ]

  -- `Complete`
  unfoldable pub complete : ℤ → J → ℤ → Invocation J → Invocation J
  unfolding calculate_billed_time measured
  complete now result memory_used_mb i = calculate_billed_time (record i {
    status = success;
    output = some result;
    completed_at = some now;
    memory_used_mb = memory_used_mb;
    duration_ms = measured now i;
  })

  -- `Fail`
  unfoldable pub fail : ℤ → String → Invocation J → Invocation J
  unfolding calculate_billed_time measured
  fail now message i = calculate_billed_time (record i {
    status = failed;
    error = message;
    completed_at = some now;
    duration_ms = measured now i;
  })

  -- `Timeout`
  unfoldable pub time_out : ℤ → Invocation J → Invocation J
  unfolding calculate_billed_time measured
  time_out now i = calculate_billed_time (record i {
    status = timeout;
    error = "function execution timed out";
    completed_at = some now;
    duration_ms = measured now i;
  })
