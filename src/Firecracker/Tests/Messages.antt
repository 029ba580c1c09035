-- ===== src/Firecracker/Tests/Messages.antt =====
-- Messages between a client and an agent on small inputs. The codec of the tests knows the ids "1" and
-- "2", payloads are numbers, and functions double their input.
use function.Prelude.{
  ℕ, ◌+◌, String, ◌≡◌, refl, sym, ap, ◌∙◌, Bool, true, false, Option, none, some, List, [], ◌∷◌,
  ◌++◌, arith, if◌then◌else◌, eqb, ◌==◌, eq_iff,
}
use function.Prelude.Int.{pos}
use function.Domain.Function.{python311}
use function.Firecracker.Vsock.{
  Message, ResponsePayload, Codec, exec_type, frame, received, read_message, replied,
  receive_failed, execute,
}
use function.Firecracker.Vsock.Framing.{read_message-frame}
use function.Firecracker.Agent.{
  Agent, AgentServices, Payloads, result, read_ended, handle_message, handle_connection,
}
use function.Firecracker.Agent.Serving.{
  frames, no_more, one_more, Handles, idle, handles, handle_connection_lem,
}
use function.Firecracker.Agent.Late.{silent, arrives, in_step, exec_message, late_answer}

abbrev body_of : ℕ → ℕ → Option ℕ → List ℕ
body_of i t none = i ∷ t ∷ []
body_of i t (some p) = i ∷ t ∷ p ∷ []

abbrev id_text : ℕ → String
id_text i = if eqb i 1 then "1" else "2"

abbrev encode : Message ℕ → Option (List ℕ)
encode m =
    if m.request_id == "1"
    then some (body_of 1 m.message_type m.payload)
    else if m.request_id == "2"
    then some (body_of 2 m.message_type m.payload)
    else none

abbrev decode : List ℕ → Option (Message ℕ)
decode (i ∷ t ∷ []) = some (record { message_type = t; request_id = id_text i; payload = none })
decode (i ∷ t ∷ p ∷ []) =
    some (record { message_type = t; request_id = id_text i; payload = some p })
decode _ = none

decode-body_of :
    (i t : ℕ) (p : Option ℕ)
    → decode (body_of i t p)
      ≡ some (record { message_type = t; request_id = id_text i; payload = p })
decode-body_of i t none = refl
decode-body_of i t (some p) = refl

decoded_as :
    (i : ℕ) (m : Message ℕ) (d : List ℕ)
    → m.request_id ≡ id_text i
    → body_of i m.message_type m.payload ≡ d
    → decode d ≡ some m
decoded_as i m d e h =
    ap decode (sym h)
    ∙ decode-body_of i m.message_type m.payload
    ∙ ap (λ s. some (record { message_type = m.message_type; request_id = s; payload = m.payload }))
        (sym e)

decode_by :
    (b c : Bool) (m : Message ℕ) (d : List ℕ)
    → (m.request_id == "1") ≡ b
    → (m.request_id == "2") ≡ c
    → if◌then◌else◌ {A = Option (List ℕ)} b
        (some (body_of 1 m.message_type m.payload))
        (if c then some (body_of 2 m.message_type m.payload) else none)
      ≡ some d
    → decode d ≡ some m
decode_by true c m d e f h = decoded_as 1 m d ((eq_iff m.request_id "1").0 e) (cc h)
decode_by false true m d e f h = decoded_as 2 m d ((eq_iff m.request_id "2").0 f) (cc h)
decode_by false false m d e f h = cc h

abbrev test_codec : Codec ℕ
test_codec = record {
  marshal = encode;
  unmarshal = decode;
  unmarshal-marshal =
      λ m d h. decode_by (m.request_id == "1") (m.request_id == "2") m d refl refl h;
  encode_init = λ p. none;
  encode_exec = λ x. some x;
  decode_response = λ p. some (record {
    success = true;
    output = p;
    error = "";
    duration_ms = pos 0;
    memory_used_mb = pos 0;
  });
}

abbrev value : Option ℕ → ℕ
value none = 0
value (some x) = x

abbrev test_payloads : Payloads ℕ
test_payloads = record {
  decode_init = λ p. none;
  decode_exec = λ p. p;
  encode_response = λ r. value r.output;
  decode_operation = λ p. none;
  encode_state = λ ok e. 0;
}

abbrev test_services : AgentServices ℕ ℕ ℕ
test_services = record {
  set_up_layers = λ w c. (w, none);
  write_code = λ w c. (w, none);
  new_runtime = λ c. some 0;
  init_runtime = λ w r c. (w, r, none);
  run_function = λ w r t x. (w, r, result (x + x));
  duration_of = λ w w'. pos 1;
  memory_usage = λ w. pos 64;
  handle_debug = λ w m. (w, m);
  write_error = λ w. none;
}

abbrev call : Message ℕ
call = record { message_type = exec_type; request_id = "1"; payload = some 3 }

abbrev ping_call : Message ℕ
ping_call = record { message_type = 4; request_id = "2"; payload = none }

abbrev unloaded : Agent ℕ
unloaded = record { loaded = none }

read_message-frame_example :
    read_message test_codec (frame (1 ∷ 2 ∷ 3 ∷ []) ++ (7 ∷ [])) ≡ (7 ∷ [], received call)
read_message-frame_example =
    read_message-frame test_codec call (1 ∷ 2 ∷ 3 ∷ []) (7 ∷ []) refl (omega arith)

pinged :
    Handles test_services test_payloads test_codec 0 unloaded
      (ping_call ∷ [])
      ((2 ∷ 5 ∷ []) ∷ [])
      []
      read_ended
      0
      unloaded
unfolding handle_message
pinged = handles refl refl idle

handle_connection_lem_example :
    handle_connection test_services test_payloads test_codec 2
      (frames ((2 ∷ 4 ∷ []) ∷ []))
      0
      unloaded
    ≡ (0, unloaded, frames ((2 ∷ 5 ∷ []) ∷ []) ++ [], read_ended)
handle_connection_lem_example =
    handle_connection_lem test_services test_payloads test_codec 2 0 0 unloaded unloaded
      (ping_call ∷ []) ((2 ∷ 4 ∷ []) ∷ []) ((2 ∷ 5 ∷ []) ∷ []) [] read_ended
      (one_more refl (omega arith) no_more) pinged (omega arith)

-- An agent with a function.
abbrev ready : Agent ℕ
ready = record {
  loaded = some (
    0,
    record {
      init = record {
        init_function = "f";
        init_handler = "main.run";
        init_code = "code";
        init_runtime = python311;
        init_env = [];
        init_memory = pos 256;
        init_timeout = pos 30;
        init_layers = [];
      };
      state_enabled = false;
    },
  );
}

abbrev doubled : ResponsePayload ℕ
doubled = record {
  success = true;
  output = some 6;
  error = "";
  duration_ms = pos 0;
  memory_used_mb = pos 0;
}

late_answer_example :
    ((execute test_codec "1" 3 silent (in_step [])).1 ≡ receive_failed)
    × ((execute test_codec "2" 8
          (arrives (frame (1 ∷ 3 ∷ 6 ∷ []) ++ []))
          (execute test_codec "1" 3 silent (in_step [])).0).1
        ≡ replied doubled)
unfolding handle_message exec_message
late_answer_example =
    late_answer test_codec test_services test_payloads 0 ready "1" "2" 3 8 3 8 doubled
      (1 ∷ 2 ∷ 3 ∷ []) (2 ∷ 2 ∷ 8 ∷ []) (1 ∷ 3 ∷ 6 ∷ []) [] [] refl refl refl refl refl
      (omega arith) refl
