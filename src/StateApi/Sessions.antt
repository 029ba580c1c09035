-- ===== src/StateApi/Sessions.antt =====
-- The state of a session as a whole, and the removal of keys (internal/state/handler.go
-- `GetSessionState`, `DeleteSessionState`, `DeleteStateKey`).
use function.Prelude.{
  ℕ, String, ◌≡◌, refl, ◌∙◌, false, Option, none, some, List, [], ◌∷◌, arith, if◌then◌else◌, length,
  drop, ◌==◌, eq_refl,
}
use function.Prelude.Int.{ℤ, pos, negsuc, ltb_ℤ, eqb_ℤ, ◌+ℤ◌}
use function.Prelude.Text.{bytes}
use function.StateApi.{Redis, key_of, version_key, version_in, is_version_key}

-- `domain.StateKeyInfo`
pub record StateKeyInfo : Type 0 where
  pub info_key : List ℕ
  pub info_size : ℤ
  pub info_ttl : ℤ

module _ {S : Type 0} (redis : Redis S) where
  -- What is told of a key: nothing if it has gone; -1 stands for a key without an end.
  key_info : ℕ → S → String → ℤ → Option StateKeyInfo
  unfolding bytes
  key_info n s k t =
      if ltb_ℤ (pos 0) t
      then some
          (record { info_key = drop n (bytes k); info_size = redis.str_len s k; info_ttl = t })
      else if eqb_ℤ t (negsuc 1)
      then none
      else some (record {
        info_key = drop n (bytes k);
        info_size = redis.str_len s k;
        info_ttl = negsuc 0;
      })

  add_info : Option StateKeyInfo → List StateKeyInfo × ℤ → List StateKeyInfo × ℤ
  add_info none out = out
  add_info (some i) (infos, total) = (i ∷ infos, i.info_size +ℤ total)

  key_infos : ℕ → S → List String → List StateKeyInfo × ℤ
  unfolding key_info add_info is_version_key bytes
  key_infos n s [] = ([], pos 0)
  key_infos n s (k ∷ ks) =
      let rest = key_infos n s ks in
      if is_version_key (bytes k) then rest else add_info (key_info n s k (redis.ttl s k)) rest

  -- `GetSessionState`
  unfoldable pub get_session_state : String → String → S → List StateKeyInfo × ℤ
  unfolding key_of key_infos bytes
  get_session_state function_id session_key s =
      key_infos (length (bytes (key_of function_id session_key ""))) s
        (redis.keys s (key_of function_id session_key "*"))

  del_all : List String → S → S
  del_all [] s = s
  del_all (k ∷ ks) s = del_all ks (redis.del s k)

  -- `DeleteSessionState`
  unfoldable pub delete_session_state : String → String → S → S
  unfolding key_of del_all
  delete_session_state function_id session_key s =
      del_all (redis.keys s (key_of function_id session_key "*")) s

  -- `DeleteStateKey`
  unfoldable pub delete_state_key : String → String → String → S → S
  unfolding key_of version_key
  delete_state_key function_id session_key user_key s =
      let key = key_of function_id session_key user_key in
      redis.del (redis.del s key) (version_key key)

  get-del_both :
      (key j : String) (s : S)
      → redis.get (redis.del (redis.del s key) (version_key key)) j
        ≡ (if version_key key == j then none else if key == j then none else redis.get s j)
  get-del_both key j s =
      redis.get-del (redis.del s key) (version_key key) j ∙ ground (arith, redis.get-del s key j)

  no_version :
      (key : String) (t : S)
      → redis.get t (version_key key) ≡ none
      → version_in redis t key ≡ some (pos 0)
  unfolding version_in
  no_version key t h = rw (version_in, h) refl

  deleted :
      (key j : String) (s : S)
      → (key == j) ≡ false
      → (version_key key == j) ≡ false
      → let t = redis.del (redis.del s key) (version_key key) in
        (redis.get t key ≡ none)
        × (version_in redis t key ≡ some (pos 0))
        × (redis.get t j ≡ redis.get s j)
  deleted key j s other other_version = (
    get-del_both key key s ∙ ground (arith, eq_refl key),
    no_version key (redis.del (redis.del s key) (version_key key))
        (get-del_both key (version_key key) s ∙ ground (arith, eq_refl (version_key key))),
    get-del_both key j s ∙ ground (arith, other, other_version),
  )

  -- A key that is deleted has no value and the version 0, and every key but it and its version's is as it
  -- was.
  pub delete_state_key_lem :
      (function_id session_key user_key j : String) (s : S)
      → (key_of function_id session_key user_key == j) ≡ false
      → (version_key (key_of function_id session_key user_key) == j) ≡ false
      → let t = delete_state_key function_id session_key user_key s in
        (redis.get t (key_of function_id session_key user_key) ≡ none)
        × (version_in redis t (key_of function_id session_key user_key) ≡ some (pos 0))
        × (redis.get t j ≡ redis.get s j)
  unfolding delete_state_key
  delete_state_key_lem function_id session_key user_key j s other other_version =
      deleted (key_of function_id session_key user_key) j s other other_version
