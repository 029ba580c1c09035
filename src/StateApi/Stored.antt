-- ===== src/StateApi/Stored.antt =====
-- Keys, compressed values, and what is in Redis after a write (internal/state/handler.go).
use function.Prelude.{
  ℕ, ◌+◌, String, ◌≡◌, refl, ap, ◌∙◌, Bool, true, false, not, ◌||◌, some, List, arith, ltb,
  if◌then◌else◌, length, Bool-cases, Option-cases, inl, inr, ◌==◌, eq_iff, eq_refl,
}
use function.Prelude.Int.{ℤ, pos, ltb_ℤ}
use Prim.Native.String.{count}
use text.Mathlib.TextLemmas.{length-append}
use function.StateApi.{
  Redis, is_exact, Gzip, has_magic, compress, decompress, compression_threshold, version_key,
  version_in, expire_both, store_version,
}

differ : (key : String) (b : Bool) → (key == version_key key) ≡ b → b ≡ false
unfolding version_key
differ key true e =
    let same : count key ≡ count key + 8 =
      ap count ((eq_iff key (version_key key)).0 e) ∙ length-append key ":version" in
    absurd (omega (arith, same))
differ key false e = refl

-- A key is not the key of its version.
pub apart : (key : String) → (key == version_key key) ≡ false
apart key = differ key (key == version_key key) refl

swapped : (key : String) (b : Bool) → (version_key key == key) ≡ b → b ≡ false
swapped key true e =
    ground (arith, apart key, eq_iff (version_key key) key, eq_iff key (version_key key))
swapped key false e = refl

unpacked_plain : (gzip : Gzip) (v : List ℕ) → has_magic v ≡ false → decompress gzip v ≡ v
unfolding decompress
unpacked_plain gzip v h = rw h refl

unpacked_packed : (gzip : Gzip) (v z : List ℕ) → gzip.pack v ≡ some z → decompress gzip z ≡ v
unfolding decompress
unpacked_packed gzip v z h = rw (gzip.pack_magic v z h, gzip.unpack-pack v z h) refl

chosen :
    (gzip : Gzip) (v z : List ℕ) (b : Bool)
    → gzip.pack v ≡ some z
    → has_magic v ≡ false
    → decompress gzip (if b then z else v) ≡ v
chosen gzip v z true h plain = unpacked_packed gzip v z h
chosen gzip v z false h plain = unpacked_plain gzip v plain

-- What is compressed is read as it was, if it does not itself start like compressed bytes.
pub decompress-compress :
    (gzip : Gzip) (enabled : Bool) (v : List ℕ)
    → has_magic v ≡ false
    → decompress gzip (compress gzip enabled v) ≡ v
unfolding compress
decompress-compress gzip enabled v plain =
    elim (Bool-cases (not enabled || ltb (length v) compression_threshold)) [
      | inl short ↦ rw short (unpacked_plain gzip v plain)
      | inr long ↦ rw long (elim (Option-cases (gzip.pack v)) [
        | inl refused ↦ rw refused (unpacked_plain gzip v plain)
        | inr (z, packed) ↦ rw packed (chosen gzip v z (ltb (length z) (length v)) packed plain)
      ])
    ]

module _ {S : Type 0} (redis : Redis S) where
  get-expire_both :
      (t : ℤ) (key j : String) (s : S) → redis.get (expire_both redis t key s) j ≡ redis.get s j
  unfolding expire_both
  get-expire_both t key j s = elim (Bool-cases (ltb_ℤ (pos 0) t)) [
    | inl kept ↦ rw kept (
        redis.get-expire (redis.expire s key t) (version_key key) j t kept
        ∙ redis.get-expire s key j t kept)
    | inr ever ↦ rw ever refl
  ]

  -- The store after a versioned write.
  unfoldable pub written : String → List ℕ → ℤ → ℤ → S → S
  written key body t new s = (store_version redis key body t new s).0

  pub get-written :
      (key : String) (body : List ℕ) (t new : ℤ) (s : S)
      → redis.get (written key body t new s) key ≡ some body
  unfolding written store_version
  get-written key body t new s =
      get-expire_both t key key _
      ∙ redis.get-set_value _ (version_key key) key _
      ∙ rw (swapped key (version_key key == key) refl)
          (redis.get-set_value s key key body ∙ rw (eq_refl key) refl)

  version_at :
      (key : String) (b : List ℕ) (s : S)
      → redis.get s (version_key key) ≡ some b
      → version_in redis s key ≡ redis.tonumber b
  unfolding version_in
  version_at key b s h = rw (version_in, h) refl

  pub version_there :
      (key : String) (body : List ℕ) (t new : ℤ) (s : S)
      → redis.get (written key body t new s) (version_key key) ≡ some (redis.number_text new)
  unfolding written store_version
  version_there key body t new s =
      get-expire_both t key (version_key key) _
      ∙ redis.get-set_value (redis.set_value s key body) (version_key key) (version_key key)
          (redis.number_text new)
      ∙ rw (eq_refl (version_key key)) refl

  pub version_in-written :
      (key : String) (body : List ℕ) (t new : ℤ) (s : S)
      → is_exact new ≡ true
      → version_in redis (written key body t new s) key ≡ some new
  version_in-written key body t new s exact =
      version_at key (redis.number_text new) (written key body t new s)
        (version_there key body t new s)
      ∙ redis.tonumber-number_text new exact
