-- ===== src/Auth/Owners.antt =====
-- What becomes of a key while other users create and delete theirs (internal/api/auth_handler.go,
-- internal/storage/postgres.go).
use function.Prelude.{
  ℕ, String, ◌≡◌, ◌≢◌, ◌⊎◌, refl, sym, ap, ◌∙◌, Bool, true, false, Option, none, some, List, [],
  ◌∷◌, ◌++◌, arith, if◌then◌else◌, ◌==◌, Bool-cases, Option-cases, inl, inr, eq_iff,
}
use function.Auth.{UserContext, Answer, done, refused}
use function.Auth.Keys.{
  KeyRow, hash_api_key, generate_api_key, collides, insert_row, new_key, is_alive,
  get_api_key_by_hash, delete_by_user, created_answer, store_key, create_api_key, deleted_answer,
  delete_api_key,
}

-- A request to a handler: whether the database answers, the user, and what the handler takes.
pub data Call : Type 0 where
  creates : Bool → Option UserContext → Option String → Option (List ℕ) → String → Call
  deletes : Bool → Option UserContext → String → Call

abbrev pub caller : Call → Option UserContext
caller (creates up u body random id) = u
caller (deletes up u id) = u

-- No user, or another one than the named.
abbrev pub IsOther : String → Option UserContext → Type 0
IsOther user none = Unit
IsOther user (some v) = v.user_id ≢ user

abbrev pub IsByOthers : String → List Call → Type 0
IsByOthers user [] = Unit
IsByOthers user (c ∷ cs) = IsOther user (caller c) × IsByOthers user cs

get-append :
    (now : ℕ) (h : String) (rows more : List KeyRow) (x : String × String × String)
    → get_api_key_by_hash now h rows ≡ some x
    → get_api_key_by_hash now h (rows ++ more) ≡ some x
unfolding get_api_key_by_hash
get-append now h [] more x e = cc e
get-append now h (k ∷ rows) more x e = ground (arith, get-append now h rows more x)

-- The row that is found is not the other user's, so it is not the one that is deleted.
get-delete_by_user :
    (now : ℕ) (h id user owner key role : String) (rows : List KeyRow)
    → user ≢ owner
    → get_api_key_by_hash now h rows ≡ some (key, owner, role)
    → get_api_key_by_hash now h (delete_by_user id user rows).0 ≡ some (key, owner, role)
unfolding get_api_key_by_hash delete_by_user
get-delete_by_user now h id user owner key role [] ne e = cc e
get-delete_by_user now h id user owner key role (k ∷ rows) ne e =
    ground
      (arith, get-delete_by_user now h id user owner key role rows ne, eq_iff k.key_owner user, ne)

get-collides :
    (now : ℕ) (k : KeyRow) (rows : List KeyRow)
    → collides k rows ≡ false
    → get_api_key_by_hash now k.key_hash rows ≡ none
unfolding get_api_key_by_hash collides
get-collides now k [] c = refl
get-collides now k (j ∷ rows) c = ground (arith, get-collides now k rows)

get-append_new :
    (now : ℕ) (h : String) (k : KeyRow) (rows : List KeyRow)
    → get_api_key_by_hash now h rows ≡ none
    → k.key_hash ≡ h
    → k.key_end ≡ none
    → get_api_key_by_hash now h (rows ++ k ∷ []) ≡ some (k.key_id, k.key_owner, k.key_role)
unfolding get_api_key_by_hash is_alive
get-append_new now h k [] e same no_end = ground (arith, eq_iff k.key_hash h)
get-append_new now h k (j ∷ rows) e same no_end = ground (arith, get-append_new now h k rows)

insert_some :
    (up : Bool) (k : KeyRow) (rows rows' : List KeyRow)
    → insert_row up k rows ≡ some rows'
    → (collides k rows ≡ false) × (rows' ≡ rows ++ k ∷ [])
unfolding insert_row
insert_some up k rows rows' e = ground arith

insert-append :
    (up : Bool) (k : KeyRow) (rows : List KeyRow)
    → (insert_row up k rows ≡ none) ⊎ (insert_row up k rows ≡ some (rows ++ k ∷ []))
unfolding insert_row
insert-append up k rows = ground arith

-- What is found by the hash, for the user, is found in the second rows too.
abbrev Keeps : ℕ → String → String → List KeyRow → List KeyRow → Type 0
Keeps now h owner rows rows' =
    (key role : String)
    → get_api_key_by_hash now h rows ≡ some (key, owner, role)
    → get_api_key_by_hash now h rows' ≡ some (key, owner, role)

module _ (sha256 : List ℕ → List ℕ) where
  unfoldable pub run : Call → List KeyRow → List KeyRow
  unfolding create_api_key delete_api_key
  run (creates up u body random id) rows = (create_api_key sha256 up u body random id rows).1
  run (deletes up u id) rows = (delete_api_key up u id rows).1

  unfoldable pub run_all : List Call → List KeyRow → List KeyRow
  unfolding run
  run_all [] rows = rows
  run_all (c ∷ cs) rows = run_all cs (run c rows)

  store_key-Keeps :
      (up : Bool) (u : UserContext) (name id : String) (made : Option (String × String))
      (rows : List KeyRow) (now : ℕ) (h owner : String)
      → Keeps now h owner rows (store_key up u name id made rows).1
  unfolding store_key created_answer
  store_key-Keeps up u name id none rows now h owner key role e = e
  store_key-Keeps up u name id (some (k, kh)) rows now h owner key role e =
      elim (insert-append up (new_key u name id kh) rows) [
        | inl refused_row ↦ rw refused_row e
        | inr added ↦ rw added (get-append now h rows _ _ e)
      ]

  create-Keeps :
      (up : Bool) (u : Option UserContext) (body : Option String) (random : Option (List ℕ))
      (id : String) (rows : List KeyRow) (now : ℕ) (h owner : String)
      → Keeps now h owner rows (create_api_key sha256 up u body random id rows).1
  unfolding create_api_key
  create-Keeps up none body random id rows now h owner key role e = e
  create-Keeps up (some u) none random id rows now h owner key role e = e
  create-Keeps up (some u) (some name) random id rows now h owner key role e =
      elim (Bool-cases (name == "")) [
        | inl empty ↦ rw empty e
        | inr full ↦ rw full (
            store_key-Keeps up u name id (generate_api_key sha256 random) rows now h owner key role
              e)
      ]

  deleted_rows : (x : List KeyRow × Bool) → (deleted_answer x).1 ≡ x.0
  unfolding deleted_answer
  deleted_rows (rows, true) = refl
  deleted_rows (rows, false) = refl

  delete-Keeps :
      (up : Bool) (u : Option UserContext) (id : String) (rows : List KeyRow) (now : ℕ)
      (h owner : String)
      → IsOther owner u
      → Keeps now h owner rows (delete_api_key up u id rows).1
  unfolding delete_api_key
  delete-Keeps up none id rows now h owner other key role e = e
  delete-Keeps up (some u) id rows now h owner other key role e = elim (Bool-cases (id == "")) [
    | inl empty ↦ rw empty e
    | inr full ↦ elim (Bool-cases up) [
      | inl on ↦
          rw (full, on, deleted_rows (delete_by_user id u.user_id rows))
            (get-delete_by_user now h id u.user_id owner key role rows other e)
      | inr off ↦ rw (full, off) e
    ]
  ]

  run_all-Keeps :
      (cs : List Call) (rows : List KeyRow) (now : ℕ) (h owner : String)
      → IsByOthers owner cs
      → Keeps now h owner rows (run_all cs rows)
  unfolding run_all run
  run_all-Keeps [] rows now h owner others key role e = e
  run_all-Keeps (creates up u body random id ∷ cs) rows now h owner (other, others) key role e =
      run_all-Keeps cs _ now h owner others key role
        (create-Keeps up u body random id rows now h owner key role e)
  run_all-Keeps (deletes up u id ∷ cs) rows now h owner (other, others) key role e =
      run_all-Keeps cs _ now h owner others key role
        (delete-Keeps up u id rows now h owner other key role e)

  stored :
      (up : Bool) (u : UserContext) (name id : String) (k h : String) (key : String)
      (rows : List KeyRow) (now : ℕ)
      → (store_key up u name id (some (k, h)) rows).0 ≡ done 201 (id, key)
      → (k ≡ key)
        × (get_api_key_by_hash now h (store_key up u name id (some (k, h)) rows).1
            ≡ some (id, u.user_id, u.user_role))
  unfolding store_key created_answer
  stored up u name id k h key rows now e =
      elim (Option-cases (insert_row up (new_key u name id h) rows)) [
        | inl kept_out ↦ cc (sym (ap (λ x. (created_answer id k x rows).0) kept_out) ∙ e)
        | inr (rows', added) ↦
            let (new, rows_are) = insert_some up (new_key u name id h) rows rows' added in
            (
              cc (sym (ap (λ x. (created_answer id k x rows).0) added) ∙ e),
              rw (added, rows_are)
                  (get-append_new now h (new_key u name id h) rows
                    (get-collides now (new_key u name id h) rows new) refl refl),
            )
      ]

  generated :
      (up : Bool) (u : UserContext) (name : String) (random : Option (List ℕ)) (id key : String)
      (rows : List KeyRow) (now : ℕ)
      → (store_key up u name id (generate_api_key sha256 random) rows).0 ≡ done 201 (id, key)
      → get_api_key_by_hash now
          (hash_api_key sha256 key)
          (store_key up u name id (generate_api_key sha256 random) rows).1
        ≡ some (id, u.user_id, u.user_role)
  unfolding generate_api_key store_key
  generated up u name none id key rows now e = cc e
  generated up u name (some random) id key rows now e =
      let (same, there) = stored up u name id _ _ key rows now e in rw (sym same) there

  named :
      {A : Type 0} (b : Bool) (x : Answer A × List KeyRow) (rows : List KeyRow) (a : A)
      → (if b then (refused 400 "name is required", rows) else x).0 ≡ done 201 a
      → (b ≡ false) × (x.0 ≡ done 201 a)
  named true x rows a e = cc e
  named false x rows a e = (refl, e)

  created :
      (up : Bool) (u : UserContext) (body : Option String) (random : Option (List ℕ))
      (id key : String) (rows : List KeyRow) (now : ℕ)
      → (create_api_key sha256 up (some u) body random id rows).0 ≡ done 201 (id, key)
      → get_api_key_by_hash now
          (hash_api_key sha256 key)
          (create_api_key sha256 up (some u) body random id rows).1
        ≡ some (id, u.user_id, u.user_role)
  unfolding create_api_key
  created up u none random id key rows now e = cc e
  created up u (some name) random id key rows now e =
      let (full, stored_now) = named (name == "") _ rows (id, key) e in
      rw full (generated up u name random id key rows now stored_now)

  -- A key that a user has created is found, at any time, by its hash, with the id, the user and the role of
  -- its making, whatever keys others have created or tried to delete since.
  pub created_key_stays :
      (up : Bool) (u : UserContext) (body : Option String) (random : Option (List ℕ))
      (id key : String) (rows : List KeyRow) (cs : List Call) (now : ℕ)
      → (create_api_key sha256 up (some u) body random id rows).0 ≡ done 201 (id, key)
      → IsByOthers u.user_id cs
      → get_api_key_by_hash now
          (hash_api_key sha256 key)
          (run_all cs (create_api_key sha256 up (some u) body random id rows).1)
        ≡ some (id, u.user_id, u.user_role)
  created_key_stays up u body random id key rows cs now e others =
      run_all-Keeps cs _ now (hash_api_key sha256 key) u.user_id others id u.user_role
        (created up u body random id key rows now e)
