-- ===== src/Firecracker/Agent/Echoes.antt =====
-- The id of what the agent answers (cmd/agent/main.go `handleMessage`).
use function.Prelude.{
  String, ◌≡◌, refl, Bool, true, false, Option, none, some, if◌then◌else◌, Bool-cases, Option-cases,
  elem, inl, inr,
}
use function.Firecracker.Vsock.{pong_type, Message}
use function.Firecracker.Agent.{
  Agent, AgentConfig, AgentServices, Payloads, respond, success_response, error_response,
  runtime_made, code_written, layers_set, init_decoded, handle_init, exec_decoded, exec_loaded,
  handle_exec, state_response, state_decoded, state_loaded, handle_state, operations, debugged,
  handle_message,
}

module _ {R J W : Type 0} (services : AgentServices R J W) (payloads : Payloads J) where
  -- The response has the id.
  Echoes : String → W × Agent R × Message J → Type 0
  Echoes id out = out.2.request_id ≡ id

  runtime_made-Echoes :
      (id : String) (c : AgentConfig) (a : Agent R) (x : W × R × Option String)
      → Echoes id (runtime_made services payloads id c a x)
  unfolding Echoes runtime_made error_response success_response respond
  runtime_made-Echoes id c a (w, rt, none) = refl
  runtime_made-Echoes id c a (w, rt, some e) = refl

  code_written-Echoes :
      (id : String) (c : AgentConfig) (a : Agent R) (x : W × Option String)
      → Echoes id (code_written services payloads id c a x)
  unfolding Echoes code_written error_response respond
  code_written-Echoes id c a (w, some e) = refl
  code_written-Echoes id c a (w, none) = elim (Option-cases (services.new_runtime c)) [
    | inl missing ↦ rw (code_written, missing) refl
    | inr (rt, made) ↦
        rw (code_written, made) (runtime_made-Echoes id c a (services.init_runtime w rt c))
  ]

  layers_set-Echoes :
      (id : String) (c : AgentConfig) (a : Agent R) (x : W × Option String)
      → Echoes id (layers_set services payloads id c a x)
  unfolding Echoes layers_set error_response respond
  layers_set-Echoes id c a (w, some e) = refl
  layers_set-Echoes id c a (w, none) = code_written-Echoes id c a (services.write_code w c)

  init_decoded-Echoes :
      (id : String) (o : Option AgentConfig) (w : W) (a : Agent R)
      → Echoes id (init_decoded services payloads id o w a)
  unfolding Echoes init_decoded error_response respond
  init_decoded-Echoes id none w a = refl
  init_decoded-Echoes id (some c) w a = layers_set-Echoes id c a (services.set_up_layers w c)

  exec_decoded-Echoes :
      (id : String) (rt : R) (c : AgentConfig) (o : Option J) (w : W) (a : Agent R)
      → Echoes id (exec_decoded services payloads id rt c o w a)
  unfolding Echoes exec_decoded error_response respond
  exec_decoded-Echoes id rt c none w a = refl
  exec_decoded-Echoes id rt c (some input) w a = refl

  exec_loaded-Echoes :
      (m : Message J) (o : Option (R × AgentConfig)) (w : W) (a : Agent R)
      → Echoes m.request_id (exec_loaded services payloads m o w a)
  unfolding Echoes exec_loaded error_response respond
  exec_loaded-Echoes m none w a = refl
  exec_loaded-Echoes m (some (rt, c)) w a =
      exec_decoded-Echoes m.request_id rt c (payloads.decode_exec m.payload) w a

  state_id :
      (id : String) (ok : Bool) (e : String)
      → (state_response services payloads id ok e).request_id ≡ id
  unfolding state_response
  state_id id ok e = refl

  state_decoded-id :
      (id : String) (o : Option String) → (state_decoded services payloads id o).request_id ≡ id
  unfolding state_decoded state_response
  state_decoded-id id none = refl
  state_decoded-id id (some op) = elim (Bool-cases (elem op operations)) [
    | inl known ↦ rw known refl
    | inr unknown ↦ rw unknown refl
  ]

  state_loaded-id :
      (m : Message J) (o : Option (R × AgentConfig))
      → (state_loaded services payloads m o).request_id ≡ m.request_id
  unfolding state_loaded state_response
  state_loaded-id m none = refl
  state_loaded-id m (some (rt, c)) = elim (Bool-cases c.state_enabled) [
    | inl enabled ↦ rw enabled (state_decoded-id m.request_id (payloads.decode_operation m.payload))
    | inr disabled ↦ rw disabled refl
  ]

  if_Echoes :
      (id : String) (b : Bool) (x y : W × Agent R × Message J)
      → Echoes id x
      → Echoes id y
      → Echoes id (if b then x else y)
  if_Echoes id true x y h k = h
  if_Echoes id false x y h k = k

  pong-Echoes :
      (m : Message J) (w : W) (a : Agent R)
      → Echoes m.request_id
          (w, a, record { message_type = pong_type; request_id = m.request_id; payload = none })
  unfolding Echoes
  pong-Echoes m w a = refl

  debugged-Echoes :
      (id : String) (a : Agent R) (x : W × Message J)
      → x.1.request_id ≡ id
      → Echoes id (debugged services payloads a x)
  unfolding Echoes debugged
  debugged-Echoes id a (w, m) h = h

  handle_state-Echoes :
      (m : Message J) (w : W) (a : Agent R)
      → Echoes m.request_id (handle_state services payloads m w a)
  unfolding Echoes handle_state
  handle_state-Echoes m w a = state_loaded-id m a.loaded

  error_response-Echoes :
      (id e : String) (w : W) (a : Agent R)
      → Echoes id (w, a, error_response services payloads id e)
  unfolding Echoes error_response respond
  error_response-Echoes id e w a = refl

  handle_message-Echoes :
      (m : Message J) (w : W) (a : Agent R)
      → (services.handle_debug w m).1.request_id ≡ m.request_id
      → Echoes m.request_id (handle_message services payloads m w a)
  unfolding handle_message handle_init handle_exec
  handle_message-Echoes m w a debug = if_Echoes m.request_id _ _ _ (pong-Echoes m w a) (
      if_Echoes m.request_id _ _ _
        (init_decoded-Echoes m.request_id (payloads.decode_init m.payload) w a)
        (if_Echoes m.request_id _ _ _ (exec_loaded-Echoes m a.loaded w a) (
          if_Echoes m.request_id _ _ _
            (debugged-Echoes m.request_id a (services.handle_debug w m) debug)
            (if_Echoes m.request_id _ _ _ (handle_state-Echoes m w a)
              (error_response-Echoes m.request_id _ w a)))))

  -- Each message is answered with its id, whatever its type, its payload and the agent's state, if the
  -- debugger's answers are.
  handle_message-request_id :
      (m : Message J) (w : W) (a : Agent R)
      → (services.handle_debug w m).1.request_id ≡ m.request_id
      → (handle_message services payloads m w a).2.request_id ≡ m.request_id
  handle_message-request_id m w a debug = unfold Echoes in handle_message-Echoes m w a debug
