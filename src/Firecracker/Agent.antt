-- ===== src/Firecracker/Agent.antt =====
-- The agent that runs in a VM (cmd/agent/main.go). Its files, its runtimes and the debugger are a record
-- of services on a world `W`, with runtimes of a type `R`.
pub mod Late
pub mod Echoes
pub mod Serving
use function.Prelude.{
  ℕ, zero, suc, String, Bool, true, false, not, Option, none, some, List, [], ◌∷◌, ◌++◌, eqb,
  if◌then◌else◌, elem,
}
use function.Prelude.Int.{ℤ, pos}
use Prim.Native.String
use function.Prelude.Text.{decimal}
use function.Scheduler.Work.{InitPayload}
use function.Firecracker.Vsock.{
  Message, ResponsePayload, Codec, init_type, exec_type, resp_type, ping_type, pong_type,
  debug_type, state_type, frame, Received, received, cut_off, malformed, read_message,
}

-- The agent's `InitPayload`: the host's, and what is absent in it.
pub record AgentConfig : Type 0 where
  pub init : InitPayload
  pub state_enabled : Bool

-- `Agent`: the runtime and the configuration are set together, with `initialized`.
pub record Agent (R : Type 0) : Type 0 where
  pub loaded : Option (R × AgentConfig)

pub data Ran (J : Type 0) : Type 0 where
  result : J → Ran J
  failure : String → Ran J

-- The decoding and encoding of payloads.
pub record Payloads (J : Type 0) : Type 0 where
  pub decode_init : Option J → Option AgentConfig
  pub decode_exec : Option J → Option J
  pub encode_response : ResponsePayload J → J
  -- The operation of a payload of the state, and the payload of its answer.
  pub decode_operation : Option J → Option String
  pub encode_state : Bool → String → J

pub record AgentServices (R J W : Type 0) : Type 0 where
  pub set_up_layers : W → AgentConfig → W × Option String
  pub write_code : W → AgentConfig → W × Option String
  pub new_runtime : AgentConfig → Option R
  pub init_runtime : W → R → AgentConfig → W × R × Option String
  pub run_function : W → R → ℤ → J → W × R × Ran J
  pub duration_of : W → W → ℤ
  pub memory_usage : W → ℤ
  pub handle_debug : W → Message J → W × Message J
  -- Whether `conn.Write` fails for a response, and then the bytes of it that were written.
  pub write_error : W → Option (List ℕ)

-- How a connection ends, by fuel.
pub data Served : Type 0 where
  read_ended write_failed out_of_fuel : Served

-- What is written first, before what is written later.
unfoldable pub written :
    {R W : Type 0} → List ℕ → W × Agent R × List ℕ × Served → W × Agent R × List ℕ × Served
unfolding frame
written body (w, a, out, end) = (w, a, frame body ++ out, end)

unfoldable pub operations : List String
operations =
    "get" ∷ "get_with_version" ∷ "set" ∷ "set_with_version" ∷ "delete" ∷ "incr" ∷ "exists" ∷ "keys"
    ∷ "expire" ∷ []

module _ {R J W : Type 0} (services : AgentServices R J W) (payloads : Payloads J) where
  unfoldable pub respond : String → ResponsePayload J → Message J
  respond id p = record {
    message_type = resp_type;
    request_id = id;
    payload = some (payloads.encode_response p);
  }

  -- `successResponse` without data and `errorResponse`
  unfoldable pub success_response : String → Message J
  unfolding respond
  success_response id = respond id (record {
    success = true;
    output = none;
    error = "";
    duration_ms = pos 0;
    memory_used_mb = pos 0;
  })

  unfoldable pub error_response : String → String → Message J
  unfolding respond
  error_response id e = respond id (record {
    success = false;
    output = none;
    error = e;
    duration_ms = pos 0;
    memory_used_mb = pos 0;
  })

  unfoldable pub runtime_made :
      String → AgentConfig → Agent R → W × R × Option String → W × Agent R × Message J
  unfolding error_response success_response
  runtime_made id c a (w, rt, some e) =
      (w, a, error_response id (String.◌++◌ "runtime init failed: " e))
  runtime_made id c a (w, rt, none) = (w, record { loaded = some (rt, c) }, success_response id)

  unfoldable pub code_written :
      String → AgentConfig → Agent R → W × Option String → W × Agent R × Message J
  unfolding runtime_made error_response
  code_written id c a (w, some e) =
      (w, a, error_response id (String.◌++◌ "failed to write code: " e))
  code_written id c a (w, none) = elim (services.new_runtime c) [
    | none ↦ (w, a, error_response id "failed to create runtime")
    | some rt ↦ runtime_made id c a (services.init_runtime w rt c)
  ]

  unfoldable pub layers_set :
      String → AgentConfig → Agent R → W × Option String → W × Agent R × Message J
  unfolding code_written error_response
  layers_set id c a (w, some e) =
      (w, a, error_response id (String.◌++◌ "failed to setup layers: " e))
  layers_set id c a (w, none) = code_written id c a (services.write_code w c)

  unfoldable pub init_decoded : String → Option AgentConfig → W → Agent R → W × Agent R × Message J
  unfolding layers_set error_response
  init_decoded id none w a = (w, a, error_response id "invalid init payload")
  init_decoded id (some c) w a = layers_set id c a (services.set_up_layers w c)

  -- `handleInit`
  unfoldable pub handle_init : Message J → W → Agent R → W × Agent R × Message J
  unfolding init_decoded
  handle_init m w a = init_decoded m.request_id (payloads.decode_init m.payload) w a

  unfoldable pub ran_payload : W → W → Ran J → ResponsePayload J
  ran_payload before after (result x) = record {
    success = true;
    output = some x;
    error = "";
    duration_ms = services.duration_of before after;
    memory_used_mb = services.memory_usage after;
  }
  ran_payload before after (failure e) = record {
    success = false;
    output = none;
    error = e;
    duration_ms = services.duration_of before after;
    memory_used_mb = services.memory_usage after;
  }

  unfoldable pub exec_decoded :
      String → R → AgentConfig → Option J → W → Agent R → W × Agent R × Message J
  unfolding error_response respond ran_payload
  exec_decoded id rt c none w a = (w, a, error_response id "invalid exec payload")
  exec_decoded id rt c (some input) w a =
      let out = services.run_function w rt c.init.init_timeout input in
      (out.0, record { loaded = some (out.1, c) }, respond id (ran_payload w (out.0) (out.2)))

  unfoldable pub exec_loaded :
      Message J → Option (R × AgentConfig) → W → Agent R → W × Agent R × Message J
  unfolding exec_decoded error_response
  exec_loaded m none w a = (w, a, error_response m.request_id "agent not initialized")
  exec_loaded m (some (rt, c)) w a =
      exec_decoded m.request_id rt c (payloads.decode_exec m.payload) w a

  -- `handleExec`
  unfoldable pub handle_exec : Message J → W → Agent R → W × Agent R × Message J
  unfolding exec_loaded
  handle_exec m w a = exec_loaded m a.loaded w a

  unfoldable pub state_response : String → Bool → String → Message J
  state_response id ok e = record {
    message_type = resp_type;
    request_id = id;
    payload = some (payloads.encode_state ok e);
  }

  unfoldable pub state_decoded : String → Option String → Message J
  unfolding state_response operations
  state_decoded id none = state_response id false "invalid state payload"
  state_decoded id (some op) =
      if elem op operations
      then state_response id true ""
      else state_response id false (String.◌++◌ "unknown operation: " op)

  unfoldable pub state_loaded : Message J → Option (R × AgentConfig) → Message J
  unfolding state_decoded state_response
  state_loaded m none = state_response m.request_id false "agent not initialized"
  state_loaded m (some (rt, c)) =
      if c.state_enabled
      then state_decoded m.request_id (payloads.decode_operation m.payload)
      else state_response m.request_id false "state feature not enabled for this function"

  -- `handleState`, which carries nothing out.
  unfoldable pub handle_state : Message J → W → Agent R → W × Agent R × Message J
  unfolding state_loaded
  handle_state m w a = (w, a, state_loaded m a.loaded)

  unfoldable pub debugged : Agent R → W × Message J → W × Agent R × Message J
  debugged a (w, m) = (w, a, m)

  -- `handleMessage`
  unfoldable pub handle_message : Message J → W → Agent R → W × Agent R × Message J
  unfolding handle_init handle_exec handle_state debugged error_response
  handle_message m w a =
      if eqb m.message_type ping_type
      then (w, a, record { message_type = pong_type; request_id = m.request_id; payload = none })
      else if eqb m.message_type init_type
      then handle_init m w a
      else if eqb m.message_type exec_type
      then handle_exec m w a
      else if eqb m.message_type debug_type
      then debugged a (services.handle_debug w m)
      else if eqb m.message_type state_type
      then handle_state m w a
      else (
        w,
        a,
        error_response m.request_id (String.◌++◌ "unknown message type: " (decimal m.message_type)),
      )

  module _ (codec : Codec J) where
    -- A response is written, and what comes next is done by `next`.
    unfoldable pub answer :
        (List ℕ → W → Agent R → W × Agent R × List ℕ × Served)
        → List ℕ
        → W × Agent R × Message J
        → W × Agent R × List ℕ × Served
    unfolding written
    answer next inbound (w, a, response) = elim (codec.marshal response) [
      | none ↦ (w, a, [], write_failed)
      | some body ↦ elim (services.write_error w) [
        | none ↦ written body (next inbound w a)
        | some part ↦ (w, a, part, write_failed)
      ]
    ]

    unfoldable pub serve :
        (List ℕ → W → Agent R → W × Agent R × List ℕ × Served)
        → List ℕ × Received J
        → W
        → Agent R
        → W × Agent R × List ℕ × Served
    unfolding answer handle_message
    serve next (inbound, received m) w a = answer next inbound (handle_message m w a)
    serve next (inbound, cut_off) w a = (w, a, [], read_ended)
    serve next (inbound, malformed) w a = (w, a, [], read_ended)

    -- `handleConnection`: the bytes that come are read to the end, and what is written is collected.
    unfoldable pub handle_connection : ℕ → List ℕ → W → Agent R → W × Agent R × List ℕ × Served
    unfolding serve
    handle_connection zero inbound w a = (w, a, [], out_of_fuel)
    handle_connection (suc fuel) inbound w a =
        serve (handle_connection fuel) (read_message codec inbound) w a
