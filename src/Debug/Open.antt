-- ===== src/Debug/Open.antt =====
-- Whether a session's channel is open (internal/debug/session.go): while it is registered, and not
-- after.
use function.Prelude.{
  ℕ, zero, suc, String, ◌≡◌, refl, ap, ◌∙◌, true, false, Option, none, some, List, [], ◌∷◌, ◌++◌,
  arith, eqb, if◌then◌else◌, length, get_elem?, Map, lookup, delete, lookup-delete, eq_iff,
  Bool-cases, inl, inr,
}
use function.Prelude.Int.{ℤ}
use function.Debug.{
  stopped, Session, Manager, Outcome, returned, and_then, set_at, at, stop, stop_and_delete,
  remove_found, remove_session, is_due, clean_up_one, clean_up_all, stop_all,
}

module _ {J : Type 0} where
  pub get-set_at :
      (p q : ℕ) (s t : Session J) (h : List (Session J))
      → get_elem? h p ≡ some t
      → get_elem? (set_at p s h) q ≡ (if eqb p q then some s else get_elem? h q)
  unfolding set_at
  get-set_at p q s t [] e = cc e
  get-set_at zero zero s t (x ∷ h) e = refl
  get-set_at zero (suc q) s t (x ∷ h) e = ground arith
  get-set_at (suc p) zero s t (x ∷ h) e = ground arith
  get-set_at (suc p) (suc q) s t (x ∷ h) e = ground (arith, get-set_at p q s t h e)

  pub get_last :
      (h : List (Session J)) (s : Session J) → get_elem? (h ++ (s ∷ [])) (length h) ≡ some s
  get_last [] s = refl
  get_last (x ∷ h) s = get_last h s

  pub get_end : (h : List (Session J)) → get_elem? h (length h) ≡ none
  get_end [] = refl
  get_end (x ∷ h) = get_end h

  pub get_before :
      (h : List (Session J)) (s t : Session J) (p : ℕ)
      → get_elem? h p ≡ some t
      → get_elem? (h ++ (s ∷ [])) p ≡ some t
  get_before [] s t p e = cc e
  get_before (x ∷ h) s t zero e = e
  get_before (x ∷ h) s t (suc p) e = get_before h s t p e

  -- The sessions of the map are open, and no two are the same.
  pub record IsOpen (m : Manager J) : Type 0 where
    pub channel :
        (id : String) (p : ℕ)
        → lookup id m.sessions ≡ some p
        → (s : Session J) × (get_elem? m.heap p ≡ some s) × (s.is_closed ≡ false)
    pub single :
        (id id' : String) (p : ℕ)
        → lookup id m.sessions ≡ some p
        → lookup id' m.sessions ≡ some p
        → id ≡ id'

  -- An operation returns a manager of that kind.
  abbrev pub IsSafe : Outcome (Manager J) → Type 0
  IsSafe out = (n : Manager J) × (out ≡ returned n) × IsOpen n

  pub and_then-IsSafe :
      (x : Outcome (Manager J)) (f : Manager J → Outcome (Manager J))
      → IsSafe x
      → ((n : Manager J) → IsOpen n → IsSafe (f n))
      → IsSafe (and_then x f)
  unfolding and_then
  and_then-IsSafe x f (n, e, o) k =
      let (n', e', o') = k n o in (n', ap (λ y. and_then y f) e ∙ e', o')

  unfoldable pub closed_one : Session J → Session J
  closed_one s = record s { session_state = stopped; is_closed = true }

  unfoldable pub without : String → ℕ → Session J → Manager J → Manager J
  without id p s m = record m {
    heap = set_at p (closed_one s) m.heap;
    sessions = delete id m.sessions;
  }

  pub stopped_as :
      (id : String) (p : ℕ) (s : Session J) (m : Manager J)
      → get_elem? m.heap p ≡ some s
      → s.is_closed ≡ false
      → stop_and_delete id p m ≡ returned (without id p s m)
  unfolding stop_and_delete at stop and_then without closed_one
  stopped_as id p s m e o = rw (at, e, o) refl

  without-IsOpen :
      (id : String) (p : ℕ) (s : Session J) (m : Manager J)
      → IsOpen m
      → lookup id m.sessions ≡ some p
      → get_elem? m.heap p ≡ some s
      → IsOpen (without id p s m)
  unfolding without
  without-IsOpen id p s m o h e = record {
    channel = λ id' q k.
        let old : lookup id' m.sessions ≡ some q =
          ground (arith, lookup-delete id id' m.sessions) in
        let (t, there, open_t) = o.channel id' q old in
        let other : eqb p q ≡ false =
          ground
            (arith, lookup-delete id id' m.sessions, o.single id id' q, eq_iff id id', h, old) in
        (t, get-set_at p q (closed_one s) s m.heap e ∙ rw other there, open_t);
    single = λ i j q k l.
        o.single i j q (ground (arith, lookup-delete id i m.sessions))
          (ground (arith, lookup-delete id j m.sessions));
  }

  stop_and_delete-IsSafe :
      (id : String) (p : ℕ) (m : Manager J)
      → IsOpen m
      → lookup id m.sessions ≡ some p
      → IsSafe (stop_and_delete id p m)
  stop_and_delete-IsSafe id p m o h =
      let (s, e, open_s) = o.channel id p h in
      (without id p s m, stopped_as id p s m e open_s, without-IsOpen id p s m o h e)

  pub remove_found-IsSafe :
      (id : String) (x : Option ℕ) (m : Manager J)
      → IsOpen m
      → lookup id m.sessions ≡ x
      → IsSafe (remove_found id x m)
  unfolding remove_found
  remove_found-IsSafe id none m o h = (m, refl, o)
  remove_found-IsSafe id (some p) m o h = stop_and_delete-IsSafe id p m o h

  clean_up_one-IsSafe :
      (now : ℤ) (id : String) (x : Option ℕ) (m : Manager J)
      → IsOpen m
      → lookup id m.sessions ≡ x
      → IsSafe (clean_up_one now id x m)
  unfolding clean_up_one
  clean_up_one-IsSafe now id none m o h = (m, refl, o)
  clean_up_one-IsSafe now id (some p) m o h =
      elim (Bool-cases (is_due now m.session_timeout (get_elem? m.heap p))) [
        | inl due ↦ rw due (stop_and_delete-IsSafe id p m o h)
        | inr kept ↦ rw kept (m, refl, o)
      ]

  pub clean_up_all-IsSafe :
      (now : ℤ) (ss : Map ℕ) (m : Manager J) → IsOpen m → IsSafe (clean_up_all now ss m)
  unfolding clean_up_all
  clean_up_all-IsSafe now [] m o = (m, refl, o)
  clean_up_all-IsSafe now ((id, p) ∷ ss) m o =
      and_then-IsSafe (clean_up_one now id (lookup id m.sessions) m) (λ n. clean_up_all now ss n)
        (clean_up_one-IsSafe now id (lookup id m.sessions) m o refl)
        (λ n k. clean_up_all-IsSafe now ss n k)

  pub empty-IsOpen : (m : Manager J) → IsOpen (record m { sessions = [] })
  unfolding lookup
  empty-IsOpen m = record {
    channel = λ id p h. absurd (ground (arith, h));
    single = λ i j p h k. absurd (ground (arith, h));
  }

  pub stop_all-IsSafe : (ss : Map ℕ) (m : Manager J) → IsOpen m → IsSafe (stop_all ss m)
  unfolding stop_all remove_session
  stop_all-IsSafe [] m o = (record m { sessions = [] }, refl, empty-IsOpen m)
  stop_all-IsSafe ((id, p) ∷ ss) m o =
      and_then-IsSafe (remove_session id m) (λ n. stop_all ss n)
        (remove_found-IsSafe id (lookup id m.sessions) m o refl) (λ n k. stop_all-IsSafe ss n k)
