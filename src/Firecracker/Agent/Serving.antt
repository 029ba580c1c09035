-- ===== src/Firecracker/Agent/Serving.antt =====
-- What the agent answers, and what the client makes of it (cmd/agent/main.go `handleConnection`,
-- internal/firecracker/vsock.go `Execute`).
use function.Prelude.{
  ℕ, zero, suc, ◌^◌, ◌<◌, ◌≡◌, refl, sym, ap, ◌∙◌, none, some, List, [], ◌∷◌, ◌++◌, arith, length,
}
use mathlib.Core.List.{append_assoc}
use function.Firecracker.Vsock.{Message, Codec, frame, cut_off, read_full, read_body, read_message}
use function.Firecracker.Vsock.Framing.{read_message-frame}
use function.Firecracker.Agent.{
  Agent, AgentServices, Payloads, Served, read_ended, write_failed, written, handle_message, answer,
  serve, handle_connection,
}

-- The bytes of messages one after another.
abbrev pub frames : List (List ℕ) → List ℕ
frames [] = []
frames (b ∷ bs) = frame b ++ frames bs

module _ {R J W : Type 0} (services : AgentServices R J W) (payloads : Payloads J)
    (codec : Codec J) where
  -- The messages are encoded as the bodies, none of which is too long for its length.
  pub data AreEncoded : List (Message J) → List (List ℕ) → Type 0 where
    no_more : AreEncoded [] []
    one_more :
        {m : Message J} {b : List ℕ} {ms : List (Message J)} {bs : List (List ℕ)}
        → codec.marshal m ≡ some b
        → length b < 2 ^ 32
        → AreEncoded ms bs
        → AreEncoded (m ∷ ms) (b ∷ bs)

  -- The agent handles the messages one after another; its responses are encoded and written, to the last
  -- message or to the first response with which that fails. Of that one a part may be written.
  pub data Handles
      : W
        → Agent R
        → List (Message J)
        → List (List ℕ)
        → List ℕ
        → Served
        → W
        → Agent R
        → Type 0 where
    idle : {w : W} {a : Agent R} → Handles w a [] [] [] read_ended w a
    handles :
        {w w' : W} {a a' : Agent R} {m : Message J} {b part : List ℕ} {ms : List (Message J)}
        {bs : List (List ℕ)} {end : Served}
        → codec.marshal (handle_message services payloads m w a).2 ≡ some b
        → services.write_error (handle_message services payloads m w a).0 ≡ none
        → Handles
            (handle_message services payloads m w a).0
            (handle_message services payloads m w a).1
            ms
            bs
            part
            end
            w'
            a'
        → Handles w a (m ∷ ms) (b ∷ bs) part end w' a'
    breaks :
        {w w' : W} {a a' : Agent R} {m r : Message J} {b part : List ℕ} {ms : List (Message J)}
        → handle_message services payloads m w a ≡ (w', a', r)
        → codec.marshal r ≡ some b
        → services.write_error w' ≡ some part
        → Handles w a (m ∷ ms) [] part write_failed w' a'
    unencoded :
        {w w' : W} {a a' : Agent R} {m r : Message J} {ms : List (Message J)}
        → handle_message services payloads m w a ≡ (w', a', r)
        → codec.marshal r ≡ none
        → Handles w a (m ∷ ms) [] [] write_failed w' a'

  read_nothing : read_message codec [] ≡ ([], cut_off)
  unfolding read_message read_full read_body
  read_nothing = refl

  answer_encoded :
      (next : List ℕ → W → Agent R → W × Agent R × List ℕ × Served) (inbound : List ℕ)
      (x : W × Agent R × Message J) (b : List ℕ)
      → codec.marshal (x.2) ≡ some b
      → services.write_error (x.0) ≡ none
      → answer services payloads codec next inbound x ≡ written b (next inbound (x.0) (x.1))
  unfolding answer
  answer_encoded next inbound (w, a, response) b h writes = rw (answer, h, writes) refl

  answer_broken :
      (next : List ℕ → W → Agent R → W × Agent R × List ℕ × Served) (inbound : List ℕ)
      (x : W × Agent R × Message J) (b part : List ℕ)
      → codec.marshal (x.2) ≡ some b
      → services.write_error (x.0) ≡ some part
      → answer services payloads codec next inbound x ≡ (x.0, x.1, part, write_failed)
  unfolding answer
  answer_broken next inbound (w, a, response) b part h fails = rw (answer, h, fails) refl

  answer_unencoded :
      (next : List ℕ → W → Agent R → W × Agent R × List ℕ × Served) (inbound : List ℕ)
      (x : W × Agent R × Message J)
      → codec.marshal (x.2) ≡ none
      → answer services payloads codec next inbound x ≡ (x.0, x.1, [], write_failed)
  unfolding answer
  answer_unencoded next inbound (w, a, response) h = rw (answer, h) refl

  -- The first of the messages is read and handled, whatever is done with the rest.
  serves_first :
      (fuel : ℕ) (w : W) (a : Agent R) (m : Message J) (b : List ℕ) (bodies : List (List ℕ))
      → codec.marshal m ≡ some b
      → length b < 2 ^ 32
      → handle_connection services payloads codec (suc fuel) (frames (b ∷ bodies)) w a
        ≡ answer services payloads codec
            (handle_connection services payloads codec fuel)
            (frames bodies)
            (handle_message services payloads m w a)
  unfolding handle_connection serve
  serves_first fuel w a m b bodies enc short =
      ap (λ x. serve services payloads codec (handle_connection services payloads codec fuel) x w a)
        (read_message-frame codec m b (frames bodies) enc short)

  written_more :
      (r : List ℕ) (replies : List (List ℕ)) (part : List ℕ) (w : W) (a : Agent R) (end : Served)
      → written r (w, a, frames replies ++ part, end) ≡ (w, a, frames (r ∷ replies) ++ part, end)
  unfolding written
  written_more r replies part w a end =
      ap (λ out. (w, a, out, end)) (sym (append_assoc (frame r) (frames replies) part))

  -- A connection on which messages come is served to its end, with one round for each message and one
  -- for the end, or to the first response that cannot be encoded or written: the responses before are
  -- written in the order of the messages, and then nothing but what was written of that one.
  pub handle_connection_lem :
      (fuel : ℕ) (w w' : W) (a a' : Agent R) (ms : List (Message J))
      (bodies replies : List (List ℕ)) (part : List ℕ) (end : Served)
      → AreEncoded ms bodies
      → Handles w a ms replies part end w' a'
      → length ms < fuel
      → handle_connection services payloads codec fuel (frames bodies) w a
        ≡ (w', a', frames replies ++ part, end)
  unfolding handle_connection serve
  handle_connection_lem zero w w' a a' ms bodies replies part end e h enough =
      absurd (omega (arith, enough))
  handle_connection_lem (suc fuel) w _ a _ _ _ _ _ _ no_more idle enough = rw read_nothing refl
  handle_connection_lem (suc fuel) w w' a a' _ _ _ _ end
        (one_more {m = m} {b = b} {ms = ms} {bs = bodies} enc short e)
        (handles {b = r} {part = part} {bs = replies} marshals writes h) enough =
      serves_first fuel w a m b bodies enc short
      ∙ answer_encoded (handle_connection services payloads codec fuel) (frames bodies)
          (handle_message services payloads m w a) r marshals writes
      ∙ ap (written r) (
          handle_connection_lem fuel _ w' _ a' ms bodies replies part end e h
            (omega (arith, enough)))
      ∙ written_more r replies part w' a' end
  handle_connection_lem (suc fuel) w w' a a' _ _ _ _ _
        (one_more {m = m} {b = b} {ms = ms} {bs = bodies} enc short e)
        (breaks {r = r} {b = d} {part = part} handled marshals fails) enough =
      serves_first fuel w a m b bodies enc short
      ∙ ap
          (answer services payloads codec (handle_connection services payloads codec fuel)
            (frames bodies))
          handled
      ∙ answer_broken (handle_connection services payloads codec fuel) (frames bodies) (w', a', r) d
          part marshals fails
  handle_connection_lem (suc fuel) w w' a a' _ _ _ _ _
        (one_more {m = m} {b = b} {ms = ms} {bs = bodies} enc short e)
        (unencoded {r = r} handled fails) enough =
      serves_first fuel w a m b bodies enc short
      ∙ ap
          (answer services payloads codec (handle_connection services payloads codec fuel)
            (frames bodies))
          handled
      ∙ answer_unencoded (handle_connection services payloads codec fuel) (frames bodies)
          (w', a', r) fails
