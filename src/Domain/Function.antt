-- ===== src/Domain/Function.antt =====
-- Functions, the requests that make and invoke them, and the states of their life
-- (internal/domain/function.go). Whether a text is a cron expression is a parameter.
pub mod Requests
use function.Prelude.{ℕ, String, Bool, true, false, Option, List}
use function.Prelude.Int.{ℤ}

pub data Runtime : Type 0 where
  python311 node_js20 go124 wasm : Runtime
  other_runtime : String → Runtime

-- `Runtime.IsValid`
unfoldable pub is_valid_runtime : Runtime → Bool
is_valid_runtime python311 = true
is_valid_runtime node_js20 = true
is_valid_runtime go124 = true
is_valid_runtime wasm = true
is_valid_runtime (other_runtime s) = false

pub data FunctionStatus : Type 0 where
  creating active updating offline inactive building failed : FunctionStatus

unfoldable pub can_invoke : FunctionStatus → Bool
can_invoke active = true
can_invoke _ = false

unfoldable pub can_update : FunctionStatus → Bool
can_update active = true
can_update failed = true
can_update offline = true
can_update _ = false

unfoldable pub can_offline : FunctionStatus → Bool
can_offline active = true
can_offline _ = false

unfoldable pub can_online : FunctionStatus → Bool
can_online offline = true
can_online _ = false

pub record Function : Type 0 where
  pub function_id : String
  pub function_name : String
  pub description : String
  pub tags : List String
  pub pinned : Bool
  pub runtime : Runtime
  pub handler : String
  pub code : String
  pub binary : String
  pub code_hash : String
  pub memory_mb : ℤ
  pub timeout_sec : ℤ
  pub max_concurrency : ℤ
  pub env_vars : List (String × String)
  pub function_status : FunctionStatus
  pub status_message : String
  pub task_id : String
  pub function_version : ℤ
  pub cron_expression : String
  pub http_path : String
  pub http_methods : List String
  pub webhook_enabled : Bool
  pub webhook_key : String

-- A stored version of a function's code.
pub record FunctionVersion : Type 0 where
  pub version_number : ℤ
  pub version_handler : String
  pub version_code : String
  pub version_binary : String
  pub version_hash : String
  pub version_description : String

pub record FunctionLayer : Type 0 where
  pub layer_id : String
  pub layer_version : ℤ
  pub order : ℤ

pub record InvokeRequest (J : Type 0) : Type 0 where
  pub request_function : String
  pub payload : J
  pub request_alias : String
  pub request_version : ℤ
  pub request_session : String

pub record InvokeResponse (J : Type 0) : Type 0 where
  pub request_id : String
  pub status_code : ℕ
  pub body : Option J
  pub response_error : String
  pub response_duration : ℤ
  pub response_cold_start : Bool
  pub response_billed : ℤ
  pub response_version : ℤ
  pub response_alias : String
  pub response_session : String
