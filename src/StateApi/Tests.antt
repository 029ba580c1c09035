-- ===== src/StateApi/Tests.antt =====
-- Runs of the state's operations on a small store, and the theorems at inputs that meet their hypotheses.
-- The Redis of the tests is a map, and a number's text is its sign and size.
use function.Prelude.{
  ℕ, ◌≡◌, refl, Bool, true, false, Option, none, some, List, [], ◌∷◌, eqb, if◌then◌else◌, Map,
  lookup, set, delete, lookup-set, lookup-delete, keys,
}
use mathlib.Core.Path.{subst}
use function.Prelude.Int.{ℤ, pos, negsuc, ◌+ℤ◌}
use function.StateApi.{
  Redis, Gzip, StateRequest, answered, panicked, Env, has_magic, version_in, version_key, failed,
  succeeded, handle, handle_get, handle_get_with_version, handle_set, handle_set_with_version,
}
use function.StateApi.Versions.{one_writer, plain_write_unseen}

abbrev text_of : ℤ → List ℕ
text_of (pos n) = 1 ∷ n ∷ []
text_of (negsuc n) = 0 ∷ n ∷ []

abbrev number_of : List ℕ → Option ℤ
number_of (a ∷ n ∷ []) = some (if eqb a 1 then pos n else negsuc n)
number_of _ = none

number_of-text_of : (n : ℤ) → number_of (text_of n) ≡ some n
number_of-text_of (pos n) = refl
number_of-text_of (negsuc n) = refl

abbrev redis : Redis (Map (List ℕ))
redis = record {
  get = λ s k. lookup k s;
  set_value = λ s k v. set k v s;
  expire = λ s k t. s;
  del = λ s k. delete k s;
  incr_by = λ s k n. (s, none);
  keys = λ s pattern. keys s;
  str_len = λ s k. pos 0;
  ttl = λ s k. pos 0;
  tonumber = number_of;
  number_text = text_of;
  next_number = λ n. n +ℤ pos 1;
  get-set_value = λ s k j v. lookup-set k j v s;
  get-del = λ s k j. lookup-delete k j s;
  get-expire = λ s k j t h. refl;
  tonumber-number_text = λ n exact. number_of-text_of n;
  next_number_lem = λ n exact. refl;
}

abbrev unpack : List ℕ → Option (List ℕ)
unpack (a ∷ b ∷ v) = some v
unpack _ = none

abbrev opened : Option (List ℕ) → Option (List ℕ)
opened none = none
opened (some z) = unpack z

abbrev marked : Option (List ℕ) → Bool
marked none = false
marked (some z) = has_magic z

abbrev gzip : Gzip
gzip = record {
  pack = λ v. some (31 ∷ 139 ∷ v);
  unpack = unpack;
  unpack-pack = λ v z h. subst (λ o. opened o ≡ some v) h refl;
  pack_magic = λ v z h. subst (λ o. marked o ≡ true) h refl;
}

abbrev env : Env
env = record {
  down = false;
  gzip = gzip;
  config = record { default_ttl = pos 3600; max_state_size = 100 };
  compresses = true;
  encode_number = text_of;
  encode_bool = λ b. [];
  encode_keys = λ ks. [];
}

abbrev request : List ℕ → StateRequest
request v = record {
  function_id = "f";
  session_key = "s";
  invocation_id = "";
  operation = "set_with_version";
  scope = "session";
  key = "k";
  value = v;
  request_ttl = pos 0;
  delta = pos 0;
  request_version = pos 4;
}

-- The fourth version of a value.
abbrev store : Map (List ℕ)
store = ("state:f:s:k", 7 ∷ []) ∷ ("state:f:s:k:version", 1 ∷ 4 ∷ []) ∷ []

-- The same, under a short key.
abbrev numbered : Map (List ℕ)
numbered = ("k", 7 ∷ []) ∷ ("k:version", 1 ∷ 4 ∷ []) ∷ []

version_four : version_in redis numbered "k" ≡ some (pos 4)
unfolding version_in lookup version_key
version_four = refl

handle_runs :
    ((handle redis env (request (8 ∷ [])) store).1 ≡ answered (succeeded none (pos 5)))
    × ((handle redis env (record (request (8 ∷ [])) { request_version = pos 3 }) store).1
        ≡ answered (record (failed "version conflict") { result_version = pos 4 }))
    × ((handle redis env (request (8 ∷ [])) (("state:f:s:k:version", []) ∷ [])).1 ≡ panicked)
unfolding handle lookup set version_key ◌+ℤ◌
handle_runs = (refl, refl, refl)

one_writer_example :
    let first = handle_set_with_version redis env "k" (request (8 ∷ [])) numbered in
    let second = handle_set_with_version redis env "k" (request (9 ∷ [])) (first.0) in
    (first.1 ≡ answered (succeeded none (pos 5)))
    × (second.1 ≡ answered (record (failed "version conflict") { result_version = pos 5 }))
    × ((handle_get_with_version redis env "k" (second.0)).1
        ≡ answered (succeeded (some (8 ∷ [])) (pos 5)))
unfolding ◌+ℤ◌
one_writer_example =
    one_writer redis env "k" (request (8 ∷ [])) (request (9 ∷ [])) numbered (pos 4) refl
      version_four refl refl refl refl refl

plain_write_unseen_example :
    let first = handle_set redis env "k" (request (8 ∷ [])) numbered in
    ((handle_get redis env "k" (first.0)).1 ≡ answered (succeeded (some (8 ∷ [])) (pos 0)))
    × ((handle_set_with_version redis env "k" (request (9 ∷ [])) (first.0)).1
        ≡ answered (succeeded none (pos 5)))
unfolding ◌+ℤ◌
plain_write_unseen_example =
    plain_write_unseen redis env "k" (request (8 ∷ [])) (request (9 ∷ [])) numbered (pos 4) refl
      refl refl version_four refl refl refl
