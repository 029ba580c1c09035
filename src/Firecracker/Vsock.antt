-- ===== src/Firecracker/Vsock.antt =====
-- The messages between the host and the agent of a VM (internal/firecracker/vsock.go; `readMessage` and
-- `writeMessage` of cmd/agent/main.go are the same code). JSON is a parameter, with payloads of a type `J`;
-- a connection is the bytes that have come and were not read, and those that were written.
pub mod Framing
use function.Prelude.{
  ℕ, zero, suc, ◌+◌, ◌*◌, ◌/◌, ◌%◌, ◌^◌, String, ◌≡◌, Bool, true, false, Option, none, some, List,
  [], ◌∷◌, ◌++◌, ltb, eqb, if◌then◌else◌, length, take, drop,
}
use function.Prelude.Int.{ℤ}
use function.Scheduler.Work.{InitPayload}

-- `VsockMessage`
pub record Message (J : Type 0) : Type 0 where
  pub message_type : ℕ
  pub request_id : String
  pub payload : Option J

abbrev pub init_type : ℕ
init_type = 1

abbrev pub exec_type : ℕ
exec_type = 2

abbrev pub resp_type : ℕ
resp_type = 3

abbrev pub ping_type : ℕ
ping_type = 4

abbrev pub pong_type : ℕ
pong_type = 5

abbrev pub debug_type : ℕ
debug_type = 6

abbrev pub state_type : ℕ
state_type = 7

-- `ResponsePayload`
pub record ResponsePayload (J : Type 0) : Type 0 where
  pub success : Bool
  pub output : Option J
  pub error : String
  pub duration_ms : ℤ
  pub memory_used_mb : ℤ

-- `json.Marshal` and `json.Unmarshal`: what is encoded is decoded as it was.
pub record Codec (J : Type 0) : Type 0 where
  pub marshal : Message J → Option (List ℕ)
  pub unmarshal : List ℕ → Option (Message J)
  pub unmarshal-marshal : (m : Message J) (d : List ℕ) → marshal m ≡ some d → unmarshal d ≡ some m
  pub encode_init : InitPayload → Option J
  pub encode_exec : J → Option J
  pub decode_response : Option J → Option (ResponsePayload J)

-- `PutUint32` of a length as uint32, and `Uint32` of four bytes.
unfoldable pub put_uint32 : ℕ → List ℕ
put_uint32 n = n / 2 ^ 24 % 256 ∷ n / 2 ^ 16 % 256 ∷ n / 2 ^ 8 % 256 ∷ n % 256 ∷ []

unfoldable pub uint32 : List ℕ → ℕ
uint32 (a ∷ b ∷ c ∷ d ∷ []) = a * 2 ^ 24 + b * 2 ^ 16 + c * 2 ^ 8 + d
uint32 _ = 0

-- What `writeMessage` writes for encoded data.
unfoldable pub frame : List ℕ → List ℕ
unfolding put_uint32
frame body = put_uint32 (length body % 2 ^ 32) ++ body

-- `io.ReadFull`: what has come is lost if it is not enough.
unfoldable pub read_full : ℕ → List ℕ → List ℕ × Option (List ℕ)
read_full n inbound =
    if ltb (length inbound) n then ([], none) else (drop n inbound, some (take n inbound))

pub data Received (J : Type 0) : Type 0 where
  received : Message J → Received J
  cut_off malformed : Received J

module _ {J : Type 0} (codec : Codec J) where
  unfoldable pub decoded : List ℕ × Option (List ℕ) → List ℕ × Received J
  decoded (inbound, none) = (inbound, cut_off)
  decoded (inbound, some body) = elim (codec.unmarshal body) [
    | none ↦ (inbound, malformed)
    | some m ↦ (inbound, received m)
  ]

  unfoldable pub read_body : List ℕ × Option (List ℕ) → List ℕ × Received J
  unfolding decoded uint32 read_full
  read_body (inbound, none) = (inbound, cut_off)
  read_body (inbound, some lead) = decoded (read_full (uint32 lead) inbound)

  -- `readMessage`
  unfoldable pub read_message : List ℕ → List ℕ × Received J
  unfolding read_body read_full
  read_message inbound = read_body (read_full 4 inbound)

-- `VsockClient`
pub record Client : Type 0 where
  pub connected : Bool
  pub inbound : List ℕ
  pub outbound : List ℕ

-- What the world does in an exchange: the bytes that come until its deadline, and whether it can write.
pub record Exchange : Type 0 where
  pub arriving : List ℕ
  pub writes : Bool

pub data Reply (A : Type 0) : Type 0 where
  replied : A → Reply A
  not_connected send_failed receive_failed bad_response : Reply A
  init_failed : String → Reply A

module _ {J : Type 0} (codec : Codec J) where
  unfoldable pub reply_of : Client → List ℕ × Received J → Client × Reply (Message J)
  reply_of c (inbound, received m) = (record c { inbound = inbound }, replied m)
  reply_of c (inbound, cut_off) = (record c { inbound = inbound }, receive_failed)
  reply_of c (inbound, malformed) = (record c { inbound = inbound }, receive_failed)

  unfoldable pub send_data : Exchange → Client → Option (List ℕ) → Client × Reply (Message J)
  unfolding reply_of read_message frame
  send_data x c none = (c, send_failed)
  send_data x c (some body) =
      if x.writes
      then reply_of (record c { outbound = c.outbound ++ frame body })
          (read_message codec (c.inbound ++ x.arriving))
      else (c, send_failed)

  -- `sendAndReceive`
  unfoldable pub send_and_receive : Message J → Exchange → Client → Client × Reply (Message J)
  unfolding send_data
  send_and_receive m x c =
      if c.connected then send_data x c (codec.marshal m) else (c, not_connected)

  unfoldable pub response_in : Client × Reply (Message J) → Client × Reply (ResponsePayload J)
  response_in (c, replied m) = elim (codec.decode_response m.payload) [
    | none ↦ (c, bad_response)
    | some p ↦ (c, replied p)
  ]
  response_in (c, not_connected) = (c, not_connected)
  response_in (c, send_failed) = (c, send_failed)
  response_in (c, receive_failed) = (c, receive_failed)
  response_in (c, bad_response) = (c, bad_response)
  response_in (c, init_failed e) = (c, init_failed e)

  unfoldable pub execute_encoded :
      String → Option J → Exchange → Client → Client × Reply (ResponsePayload J)
  unfolding response_in send_and_receive
  execute_encoded id none x c = (c, send_failed)
  execute_encoded id (some body) x c = response_in (
      send_and_receive (record { message_type = exec_type; request_id = id; payload = some body }) x
        c)

  -- `Execute`
  unfoldable pub execute : String → J → Exchange → Client → Client × Reply (ResponsePayload J)
  unfolding execute_encoded
  execute id input x c = execute_encoded id (codec.encode_exec input) x c

  unfoldable pub init_result :
      Client × Reply (ResponsePayload J) → Client × Reply (ResponsePayload J)
  init_result (c, replied p) = if p.success then (c, replied p) else (c, init_failed p.error)
  init_result out = out

  unfoldable pub init_encoded :
      String → Option J → Exchange → Client → Client × Reply (ResponsePayload J)
  unfolding init_result response_in send_and_receive
  init_encoded id none x c = (c, send_failed)
  init_encoded id (some body) x c = init_result (
      response_in (
        send_and_receive (record { message_type = init_type; request_id = id; payload = some body })
          x c))

  -- `InitFunction`; the id is made from the clock.
  unfoldable pub init_function :
      String → InitPayload → Exchange → Client → Client × Reply (ResponsePayload J)
  unfolding init_encoded
  init_function id p x c = init_encoded id (codec.encode_init p) x c

  unfoldable pub pong_of : Client × Reply (Message J) → Client × Bool
  pong_of (c, replied m) = (c, eqb m.message_type pong_type)
  pong_of (c, r) = (c, false)

  -- `Ping`, which succeeds or not.
  unfoldable pub ping : String → Exchange → Client → Client × Bool
  unfolding pong_of send_and_receive
  ping id x c =
      pong_of (
        send_and_receive (record { message_type = ping_type; request_id = id; payload = none }) x c)

-- `Close`
unfoldable pub close : Client → Client
close c = if c.connected then record { connected = false; inbound = []; outbound = [] } else c

-- `Connect`, which tries ten times; each attempt of `Dial` succeeds or not.
unfoldable pub dial : ℕ → (ℕ → Bool) → Client → Client × Bool
dial zero attempts c = (c, false)
dial (suc n) attempts c =
    let rest = dial n attempts c in
    if attempts (suc n)
    then (record { connected = true; inbound = []; outbound = [] }, true)
    else rest

unfoldable pub connect : (ℕ → Bool) → Client → Client × Bool
unfolding dial
connect attempts c = if c.connected then (c, true) else dial 10 attempts c
