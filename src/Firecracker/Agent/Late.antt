-- ===== src/Firecracker/Agent/Late.antt =====
-- An answer that comes after its call has given up (internal/firecracker/vsock.go `sendAndReceive`,
-- `Execute`).
use function.Prelude.{ℕ, ◌^◌, ◌<◌, String, ◌≡◌, refl, ap, ◌∙◌, true, some, List, [], ◌++◌, length}
use function.Firecracker.Vsock.{
  Message, ResponsePayload, Codec, exec_type, frame, read_full, read_body, read_message, Client,
  Exchange, Reply, replied, receive_failed, reply_of, send_data, send_and_receive, response_in,
  execute_encoded, execute,
}
use function.Firecracker.Vsock.Framing.{read_message-frame}
use function.Firecracker.Agent.{Agent, AgentServices, Payloads, handle_message}

-- An exchange in which no bytes come before the deadline, and one in which they do.
abbrev pub silent : Exchange
silent = record { arriving = []; writes = true }

abbrev pub arrives : List ℕ → Exchange
arrives bytes = record { arriving = bytes; writes = true }

-- A client that is connected and has read all that came.
abbrev pub in_step : List ℕ → Client
in_step outbound = record { connected = true; inbound = []; outbound = outbound }

module _ {J : Type 0} (codec : Codec J) where
  send_silent :
      (m : Message J) (b o : List ℕ)
      → codec.marshal m ≡ some b
      → send_and_receive codec m silent (in_step o) ≡ (in_step (o ++ frame b), receive_failed)
  unfolding send_and_receive send_data reply_of read_message read_full read_body
  send_silent m b o h = rw (h, send_data) refl

  send_answered :
      (m r : Message J) (b d rest o : List ℕ)
      → codec.marshal m ≡ some b
      → codec.marshal r ≡ some d
      → length d < 2 ^ 32
      → (send_and_receive codec m (arrives (frame d ++ rest)) (in_step o)).1 ≡ replied r
  unfolding send_and_receive send_data reply_of
  send_answered m r b d rest o h k short =
      rw (h, send_data)
        (ap (λ x. (reply_of codec (in_step (o ++ frame b)) x).1)
          (read_message-frame codec r d rest k short))

  unfoldable pub exec_message : String → J → Message J
  exec_message id j = record { message_type = exec_type; request_id = id; payload = some j }

  execute_silent :
      (id : String) (input j : J) (b o : List ℕ)
      → codec.encode_exec input ≡ some j
      → codec.marshal (exec_message id j) ≡ some b
      → execute codec id input silent (in_step o) ≡ (in_step (o ++ frame b), receive_failed)
  unfolding execute execute_encoded response_in exec_message
  execute_silent id input j b o e h =
      rw (e, execute_encoded) (ap (response_in codec) (send_silent (exec_message id j) b o h))

  response_in-replied :
      (x : Client × Reply (Message J)) (r : Message J) (p : ResponsePayload J)
      → x.1 ≡ replied r
      → codec.decode_response r.payload ≡ some p
      → (response_in codec x).1 ≡ replied p
  unfolding response_in
  response_in-replied (c, reply) r p e h =
      ap (λ y. (response_in codec (c, y)).1) e ∙ rw (response_in, h) refl

  execute_answered :
      (id : String) (input j : J) (r : Message J) (p : ResponsePayload J) (b d rest o : List ℕ)
      → codec.encode_exec input ≡ some j
      → codec.marshal (exec_message id j) ≡ some b
      → codec.marshal r ≡ some d
      → length d < 2 ^ 32
      → codec.decode_response r.payload ≡ some p
      → (execute codec id input (arrives (frame d ++ rest)) (in_step o)).1 ≡ replied p
  unfolding execute execute_encoded exec_message
  execute_answered id input j r p b d rest o e h k short decodes =
      rw (e, execute_encoded)
        (response_in-replied _ r p (send_answered (exec_message id j) r b d rest o h k short)
          decodes)

  -- If an execution gives up before any byte of its answer has come, the next one on the same connection
  -- succeeds with the agent's answer to the first, whatever its own id and input are.
  pub late_answer :
      {R W : Type 0} (services : AgentServices R J W) (payloads : Payloads J) (w : W) (a : Agent R)
      (id id' : String) (input input' j j' : J) (p : ResponsePayload J) (b b' d rest o : List ℕ)
      → codec.encode_exec input ≡ some j
      → codec.encode_exec input' ≡ some j'
      → codec.marshal (exec_message id j) ≡ some b
      → codec.marshal (exec_message id' j') ≡ some b'
      → codec.marshal (handle_message services payloads (exec_message id j) w a).2 ≡ some d
      → length d < 2 ^ 32
      → codec.decode_response (handle_message services payloads (exec_message id j) w a).2.payload
        ≡ some p
      → ((execute codec id input silent (in_step o)).1 ≡ receive_failed)
        × ((execute codec id' input'
              (arrives (frame d ++ rest))
              (execute codec id input silent (in_step o)).0).1
            ≡ replied p)
  late_answer services payloads w a id id' input input' j j' p b b' d rest o e e' h h' k short
        decodes =
      let answered = (handle_message services payloads (exec_message id j) w a).2 in
      let first = execute_silent id input j b o e h in
      (
        ap (λ x. x.1) first,
        ap (λ x. (execute codec id' input' (arrives (frame d ++ rest)) (x.0)).1) first
            ∙ execute_answered id' input' j' answered p b' d rest (o ++ frame b) e' h' k short
                decodes,
      )
