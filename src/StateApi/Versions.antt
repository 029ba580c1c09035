-- ===== src/StateApi/Versions.antt =====
-- What is read after a write, and the optimistic lock (internal/state/handler.go `handleSet`,
-- `handleGet`, `handleSetWithVersion`).
use function.Prelude.{
  ℕ, String, ◌≡◌, refl, ap, ◌∙◌, true, false, ◌&&◌, none, some, List, arith, ltb, if◌then◌else◌,
  length, Bool-cases, inl, inr, ◌==◌, eq_refl,
}
use function.Prelude.Int.{ℤ, pos, negsuc, ltb_ℤ, eqb_ℤ, ◌+ℤ◌}
use function.StateApi.{
  Redis, is_exact, StateRequest, answered, Env, has_magic, compress, decompress, version_key,
  version_in, store_version, run_script, succeeded, failed, ask, unpacked, handle_get, versioned,
  number_in, handle_get_with_version, ttl_of, set_for, handle_set, handle_set_with_version,
}
use function.StateApi.Stored.{
  apart, decompress-compress, written, get-written, version_there, version_in-written,
}

no_fixpoint : (n : ℤ) → eqb_ℤ (n +ℤ pos 1) n ≡ false
unfolding ◌+ℤ◌
no_fixpoint (pos n) = ground arith
no_fixpoint (negsuc n) = ground arith

eqb_ℤ_refl : (n : ℤ) → eqb_ℤ n n ≡ true
eqb_ℤ_refl (pos n) = ground arith
eqb_ℤ_refl (negsuc n) = ground arith

module _ {S : Type 0} (redis : Redis S) where
  module _ (env : Env) where
    body_of : StateRequest → List ℕ
    body_of req = compress env.gzip env.compresses req.value

    read_back :
        (req : StateRequest)
        → has_magic req.value ≡ false
        → decompress env.gzip (body_of req) ≡ req.value
    unfolding body_of
    read_back req plain = decompress-compress env.gzip env.compresses req.value plain

    accepted :
        (key : String) (req : StateRequest) (s : S) (v : ℤ)
        → env.down ≡ false
        → version_in redis s key ≡ some v
        → ltb_ℤ (pos 0) v ≡ true
        → is_exact (v +ℤ pos 1) ≡ true
        → req.request_version ≡ v
        → handle_set_with_version redis env key req s ≡ (
          written redis key (body_of req) req.request_ttl (v +ℤ pos 1) s,
          answered (succeeded none (v +ℤ pos 1)),
        )
    unfolding handle_set_with_version body_of written store_version ask
    accepted key req s v up current asked exact same =
        rw (up, current, run_script, same, asked, eqb_ℤ_refl v, redis.next_number_lem v exact) refl

    refused :
        (key : String) (req : StateRequest) (s : S) (v : ℤ)
        → env.down ≡ false
        → version_in redis s key ≡ some v
        → ltb_ℤ (pos 0) req.request_version ≡ true
        → eqb_ℤ v req.request_version ≡ false
        → handle_set_with_version redis env key req s
          ≡ (s, answered (record (failed "version conflict") { result_version = v }))
    unfolding handle_set_with_version ask
    refused key req s v up current asked other = rw (up, current, run_script, asked, other) refl

    read_written :
        (key : String) (body : List ℕ) (t new : ℤ) (s : S)
        → env.down ≡ false
        → is_exact new ≡ true
        → (handle_get_with_version redis env key (written redis key body t new s)).1
          ≡ answered (succeeded (some (decompress env.gzip body)) new)
    unfolding handle_get_with_version ask
    read_written key body t new s up exact =
        rw
          (
            up,
            get-written redis key body t new s,
            versioned,
            version_there redis key body t new s,
            number_in,
            redis.tonumber-number_text new exact,
          )
          refl

    -- If a version has been written, below 2^53 - 1, of two writers that have read it the second is refused:
    -- the value and the version that are read afterwards are the first one's, and the refusal tells the new
    -- version. Redis answers, and the first one's value does not itself start like compressed bytes.
    pub one_writer :
        (key : String) (req req' : StateRequest) (s : S) (v : ℤ)
        → env.down ≡ false
        → version_in redis s key ≡ some v
        → ltb_ℤ (pos 0) v ≡ true
        → is_exact (v +ℤ pos 1) ≡ true
        → req.request_version ≡ v
        → req'.request_version ≡ v
        → has_magic req.value ≡ false
        → let first = handle_set_with_version redis env key req s in
          let second = handle_set_with_version redis env key req' (first.0) in
          (first.1 ≡ answered (succeeded none (v +ℤ pos 1)))
          × (second.1
              ≡ answered (record (failed "version conflict") { result_version = v +ℤ pos 1 }))
          × ((handle_get_with_version redis env key (second.0)).1
              ≡ answered (succeeded (some req.value) (v +ℤ pos 1)))
    one_writer key req req' s v up current asked exact same same' plain =
        let stored_body = body_of req in
        let w = written redis key stored_body req.request_ttl (v +ℤ pos 1) s in
        let first = accepted key req s v up current asked exact same in
        let second =
          refused key req' w (v +ℤ pos 1) up
            (version_in-written redis key stored_body req.request_ttl (v +ℤ pos 1) s exact)
            (rw same' asked) (rw same' (no_fixpoint v)) in
        (
          ap (λ x. x.1) first,
          ap (λ x. (handle_set_with_version redis env key req' (x.0)).1) first
              ∙ ap (λ x. x.1) second,
          ap
                (λ x.
                  (handle_get_with_version redis env key
                    (handle_set_with_version redis env key req' (x.0)).0).1)
                first
              ∙ ap (λ x. (handle_get_with_version redis env key (x.0)).1) second
              ∙ read_written key stored_body req.request_ttl (v +ℤ pos 1) s up exact
              ∙ ap (λ b. answered (succeeded (some b) (v +ℤ pos 1))) (read_back req plain),
        )

    get-set_for :
        (key j : String) (b : List ℕ) (t : ℤ) (s : S)
        → redis.get (set_for redis env key b t s) j ≡ (if key == j then some b else redis.get s j)
    unfolding set_for
    get-set_for key j b t s = elim (Bool-cases (ltb_ℤ (pos 0) t)) [
      | inl kept ↦
          rw kept (
            redis.get-expire (redis.set_value s key b) key j t kept ∙ redis.get-set_value s key j b)
      | inr ever ↦ rw ever (redis.get-set_value s key j b)
    ]

    set_state : (key : String) (req : StateRequest) (s : S) → S
    set_state key req s = set_for redis env key (body_of req) (ttl_of redis env req.request_ttl) s

    set_accepted :
        (key : String) (req : StateRequest) (s : S)
        → env.down ≡ false
        → (ltb 0 env.config.max_state_size && ltb env.config.max_state_size (length req.value))
          ≡ false
        → handle_set redis env key req s ≡ (set_state key req s, answered (succeeded none (pos 0)))
    unfolding handle_set ask set_state body_of
    set_accepted key req s up fits = rw (fits, up) refl

    get-set_state :
        (key j : String) (req : StateRequest) (s : S)
        → redis.get (set_state key req s) j
          ≡ (if key == j then some (body_of req) else redis.get s j)
    unfolding set_state
    get-set_state key j req s = get-set_for key j (body_of req) (ttl_of redis env req.request_ttl) s

    read_plain :
        (key : String) (b : List ℕ) (s : S)
        → env.down ≡ false
        → redis.get s key ≡ some b
        → (handle_get redis env key s).1
          ≡ answered (succeeded (some (decompress env.gzip b)) (pos 0))
    unfolding handle_get ask
    read_plain key b s up h = rw (up, h, unpacked) refl

    version_same :
        (key : String) (w s : S)
        → redis.get w (version_key key) ≡ redis.get s (version_key key)
        → version_in redis w key ≡ version_in redis s key
    unfolding version_in
    version_same key w s h = rw (version_in, h) refl

    -- A plain write, of a value within the limit that does not start like compressed bytes, is read back
    -- while Redis answers; and a versioned write that was prepared before it, of a version from 1 and below
    -- 2^53 - 1, is still accepted, as if there had been no write between.
    pub plain_write_unseen :
        (key : String) (req req' : StateRequest) (s : S) (v : ℤ)
        → env.down ≡ false
        → (ltb 0 env.config.max_state_size && ltb env.config.max_state_size (length req.value))
          ≡ false
        → has_magic req.value ≡ false
        → version_in redis s key ≡ some v
        → ltb_ℤ (pos 0) v ≡ true
        → is_exact (v +ℤ pos 1) ≡ true
        → req'.request_version ≡ v
        → let first = handle_set redis env key req s in
          ((handle_get redis env key (first.0)).1 ≡ answered (succeeded (some req.value) (pos 0)))
          × ((handle_set_with_version redis env key req' (first.0)).1
              ≡ answered (succeeded none (v +ℤ pos 1)))
    plain_write_unseen key req req' s v up fits plain current asked exact same =
        let w = set_state key req s in
        let first = set_accepted key req s up fits in
        (
          ap (λ x. (handle_get redis env key (x.0)).1) first
              ∙ read_plain key (body_of req) w up
                  (get-set_state key key req s ∙ rw (eq_refl key) refl)
              ∙ ap (λ b. answered (succeeded (some b) (pos 0))) (read_back req plain),
          ap (λ x. (handle_set_with_version redis env key req' (x.0)).1) first
              ∙ ap (λ x. x.1)
                  (accepted key req' w v up
                    (version_same key w s
                        (get-set_state key (version_key key) req s ∙ rw (apart key) refl)
                      ∙ current)
                    asked exact same),
        )
