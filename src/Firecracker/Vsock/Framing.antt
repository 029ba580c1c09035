-- ===== src/Firecracker/Vsock/Framing.antt =====
-- A message that is written is read as it was (internal/firecracker/vsock.go `writeMessage`,
-- `readMessage`).
use function.Prelude.{
  ℕ, ◌%◌, ◌^◌, ◌<◌, ◌≡◌, refl, false, ap, ◌∙◌, some, List, ◌++◌, arith, length, length-append,
  take-append, drop-append, ltb,
}
use function.Firecracker.Vsock.{
  Message, Codec, put_uint32, uint32, frame, read_full, received, decoded, read_body, read_message,
}

uint32-put_uint32 : (n : ℕ) → n < 2 ^ 32 → uint32 (put_uint32 n) ≡ n
unfolding uint32 put_uint32
uint32-put_uint32 n h = omega arith

read_full-append : (xs ys : List ℕ) → read_full (length xs) (xs ++ ys) ≡ (ys, some xs)
unfolding read_full
read_full-append xs ys =
    let enough : ltb (length (xs ++ ys)) (length xs) ≡ false =
      ground (arith, length-append xs ys) in
    rw (enough, take-append, drop-append) refl

read_lead :
    (n : ℕ) (rest : List ℕ) → read_full 4 (put_uint32 n ++ rest) ≡ (rest, some (put_uint32 n))
unfolding put_uint32
read_lead n rest = read_full-append (put_uint32 n) rest

module _ {J : Type 0} (codec : Codec J) where
  decoded_body :
      (m : Message J) (body rest : List ℕ)
      → codec.marshal m ≡ some body
      → decoded codec (rest, some body) ≡ (rest, received m)
  unfolding decoded
  decoded_body m body rest h = rw (decoded, codec.unmarshal-marshal m body h) refl

  read_framed :
      (n : ℕ) (m : Message J) (body rest : List ℕ)
      → n ≡ length body
      → n < 2 ^ 32
      → codec.marshal m ≡ some body
      → read_message codec (put_uint32 n ++ (body ++ rest)) ≡ (rest, received m)
  unfolding read_message read_body
  read_framed n m body rest e h k =
      ap (read_body codec) (read_lead n (body ++ rest))
      ∙ ap (λ l. decoded codec (read_full l (body ++ rest))) (uint32-put_uint32 n h ∙ e)
      ∙ ap (decoded codec) (read_full-append body rest)
      ∙ decoded_body m body rest k

  -- A written message, of fewer than 2^32 bytes, is read whatever follows it, and nothing else is.
  pub read_message-frame :
      (m : Message J) (body rest : List ℕ)
      → codec.marshal m ≡ some body
      → length body < 2 ^ 32
      → read_message codec (frame body ++ rest) ≡ (rest, received m)
  unfolding frame put_uint32
  read_message-frame m body rest h k =
      read_framed (length body % 2 ^ 32) m body rest (omega (arith, k)) (omega arith) h
