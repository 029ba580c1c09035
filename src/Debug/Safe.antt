-- ===== src/Debug/Safe.antt =====
-- Sequences of operations on the debugger's sessions (internal/debug/session.go), and what a pointer to a
-- removed session does.
use function.Prelude.{
  ℕ, zero, suc, ◌<◌, String, ◌≡◌, refl, sym, ap, ◌∙◌, Bool, true, false, Option, none, some, List,
  [], ◌∷◌, ◌++◌, arith, ltb, eqb, if◌then◌else◌, length, get_elem?, lookup, lookup-set, eq_iff,
  ◌==◌, Bool-cases, inl, inr,
}
use function.Prelude.Int.{ℤ}
use function.Debug.{
  SessionState, Session, Manager, Outcome, returned, panicked, and_then, events_size, set_at,
  new_manager, new_session, at, push_event, set_state, stop, get_session_by_function, create_unless,
  create_session, remove_found, remove_session, clean_up, stop_manager,
}
use function.Debug.Open.{
  IsOpen, IsSafe, get-set_at, get_last, get_before, and_then-IsSafe, closed_one, without,
  stopped_as, remove_found-IsSafe, clean_up_all-IsSafe, stop_all-IsSafe, empty-IsOpen,
}

-- What the handlers do with a manager, each session found by its id at the time.
pub data Operation (J : Type 0) : Type 0 where
  creates : String → String → ℤ → Operation J
  removes : String → Operation J
  pushes : String → J → ℤ → Operation J
  sets_state : String → SessionState → ℤ → Operation J
  cleans_up : ℤ → Operation J
  stops : Operation J

-- A method that leaves an open channel open.
Keeps : {J : Type 0} → (Session J → Outcome (Session J)) → Type 0
Keeps {J} f =
    (s : Session J)
    → s.is_closed ≡ false
    → (t : Session J) × (f s ≡ returned t) × (t.is_closed ≡ false)

push_event-Keeps : {J : Type 0} (e : J) (now : ℤ) → Keeps (push_event e now)
unfolding Keeps push_event
push_event-Keeps e now s o = elim (Bool-cases (ltb (length s.events) events_size)) [
  | inl room ↦
      rw (o, room)
        (
          record s { last_activity = now; events = s.events ++ (e ∷ []); is_closed = false },
          refl,
          refl,
        )
  | inr full ↦ rw (o, full) (record s { last_activity = now; is_closed = false }, refl, refl)
]

set_state-Keeps :
    (J : Type 0) (state : SessionState) (now : ℤ) → Keeps {J = J} (set_state state now)
unfolding Keeps set_state
set_state-Keeps J state now s o = (record s { session_state = state; last_activity = now }, refl, o)

module _ {J : Type 0} where
  abbrev pub at_found :
      Option ℕ → (Session J → Outcome (Session J)) → Manager J → Outcome (Manager J)
  at_found none f m = returned m
  at_found (some p) f m = at p f m

  abbrev pub run : Operation J → Manager J → Outcome (Manager J)
  run (creates id function_id now) m = returned (create_session id function_id now m).0
  run (removes id) m = remove_session id m
  run (pushes id e now) m = at_found (lookup id m.sessions) (push_event e now) m
  run (sets_state id state now) m = at_found (lookup id m.sessions) (set_state state now) m
  run (cleans_up now) m = clean_up now m
  run stops m = stop_manager m

  abbrev pub run_all : List (Operation J) → Manager J → Outcome (Manager J)
  run_all [] m = returned m
  run_all (op ∷ ops) m = and_then (run op m) (λ n. run_all ops n)

  put : ℕ → Session J → Manager J → Manager J
  put p t m = record m { heap = set_at p t m.heap }

  put_pick :
      (b : Bool) (q : ℕ) (t u : Session J) (h : List (Session J))
      → get_elem? h q ≡ some u
      → u.is_closed ≡ false
      → t.is_closed ≡ false
      → (v : Session J) × ((if b then some t else get_elem? h q) ≡ some v) × (v.is_closed ≡ false)
  put_pick true q t u h e o k = (t, refl, k)
  put_pick false q t u h e o k = (u, e, o)

  put-IsOpen :
      (p : ℕ) (s t : Session J) (m : Manager J)
      → IsOpen m
      → get_elem? m.heap p ≡ some s
      → t.is_closed ≡ false
      → IsOpen (put p t m)
  unfolding put
  put-IsOpen p s t m o e k = record {
    channel = λ id q h.
        let (u, there, open_u) = o.channel id q h in
        let (v, found, open_v) = put_pick (eqb p q) q t u m.heap there open_u k in
        (v, get-set_at p q t s m.heap e ∙ found, open_v);
    single = o.single;
  }

  at_as :
      (p : ℕ) (f : Session J → Outcome (Session J)) (s t : Session J) (m : Manager J)
      → get_elem? m.heap p ≡ some s
      → f s ≡ returned t
      → at p f m ≡ returned (put p t m)
  unfolding at and_then put
  at_as p f s t m e h = rw (at, e, h) refl

  at_found-IsSafe :
      (id : String) (x : Option ℕ) (f : Session J → Outcome (Session J)) (m : Manager J)
      → Keeps f
      → IsOpen m
      → lookup id m.sessions ≡ x
      → IsSafe (at_found x f m)
  unfolding Keeps
  at_found-IsSafe id none f m k o h = (m, refl, o)
  at_found-IsSafe id (some p) f m k o h =
      let (s, e, open_s) = o.channel id p h in
      let (t, ran, open_t) = k s open_s in
      (put p t m, at_as p f s t m e ran, put-IsOpen p s t m o e open_t)

  get_some-lt :
      (h : List (Session J)) (p : ℕ) (s : Session J) → get_elem? h p ≡ some s → p < length h
  get_some-lt [] p s e = cc e
  get_some-lt (x ∷ h) zero s e = omega arith
  get_some-lt (x ∷ h) (suc p) s e = omega (arith, get_some-lt h p s e)

  registered-lt :
      (m : Manager J) (id : String) (p : ℕ)
      → IsOpen m
      → lookup id m.sessions ≡ some p
      → p < length m.heap
  registered-lt m id p o h = let (s, e, open_s) = o.channel id p h in get_some-lt m.heap p s e

  channel_by :
      (b : Bool) (new : Session J) (id' : String) (q : ℕ) (m : Manager J)
      → IsOpen m
      → new.is_closed ≡ false
      → (if b then some (length m.heap) else lookup id' m.sessions) ≡ some q
      → (s : Session J) × (get_elem? (m.heap ++ (new ∷ [])) q ≡ some s) × (s.is_closed ≡ false)
  channel_by true new id' q m o k h =
      let last : length m.heap ≡ q = cc h in
      (new, ap (λ n. get_elem? (m.heap ++ (new ∷ [])) n) (sym last) ∙ get_last m.heap new, k)
  channel_by false new id' q m o k h =
      let (s, e, open_s) = o.channel id' q h in (s, get_before m.heap new s q e, open_s)

  create_unless-IsOpen :
      (x : Option ℕ) (id function_id : String) (now : ℤ) (m : Manager J)
      → IsOpen m
      → IsOpen (create_unless x id function_id now m).0
  unfolding create_unless new_session
  create_unless-IsOpen (some p) id function_id now m o = o
  create_unless-IsOpen none id function_id now m o = record {
    channel = λ id' q h.
        channel_by (id == id') (new_session id function_id now) id' q m o refl
          (sym (lookup-set id id' (length m.heap) m.sessions) ∙ h);
    single = λ i j q k l. ground (
      arith,
      lookup-set id i (length m.heap) m.sessions,
      lookup-set id j (length m.heap) m.sessions,
      registered-lt m i q o,
      registered-lt m j q o,
      o.single i j q,
      eq_iff id i,
      eq_iff id j,
      k,
      l,
    );
  }

  run-IsSafe : (op : Operation J) (m : Manager J) → IsOpen m → IsSafe (run op m)
  unfolding create_session remove_session clean_up stop_manager
  run-IsSafe (creates id function_id now) m o =
      (_, refl, create_unless-IsOpen (get_session_by_function function_id m) id function_id now m o)
  run-IsSafe (removes id) m o = remove_found-IsSafe id (lookup id m.sessions) m o refl
  run-IsSafe (pushes id e now) m o =
      at_found-IsSafe id (lookup id m.sessions) (push_event e now) m (push_event-Keeps e now) o refl
  run-IsSafe (sets_state id state now) m o =
      at_found-IsSafe id (lookup id m.sessions) (set_state state now) m
        (set_state-Keeps J state now) o refl
  run-IsSafe (cleans_up now) m o = clean_up_all-IsSafe now m.sessions m o
  run-IsSafe stops m o = stop_all-IsSafe m.sessions m o

  run_all-IsSafe : (ops : List (Operation J)) (m : Manager J) → IsOpen m → IsSafe (run_all ops m)
  run_all-IsSafe [] m o = (m, refl, o)
  run_all-IsSafe (op ∷ ops) m o =
      and_then-IsSafe (run op m) (λ n. run_all ops n) (run-IsSafe op m o)
        (λ n k. run_all-IsSafe ops n k)

  pub new_manager-IsSafe :
      (ops : List (Operation J)) (timeout : ℤ) → IsSafe (run_all ops (new_manager timeout))
  unfolding new_manager
  new_manager-IsSafe ops timeout =
      run_all-IsSafe ops (new_manager timeout) (empty-IsOpen (new_manager timeout))

  closed_at :
      (p : ℕ) (s : Session J) (m : Manager J) (f : Session J → Outcome (Session J))
      → get_elem? m.heap p ≡ some s
      → f s ≡ panicked
      → at p f m ≡ panicked
  unfolding at and_then
  closed_at p s m f e h = rw (at, e, h) refl

  -- A session is removed without a panic, and then an event for it, which a handler that still has its
  -- pointer may send, panics, and so does a second stop.
  pub removed_panics :
      (id : String) (p : ℕ) (e : J) (now : ℤ) (m : Manager J)
      → IsOpen m
      → lookup id m.sessions ≡ some p
      → (n : Manager J) × (remove_session id m ≡ returned n)
        × (at p (push_event e now) n ≡ panicked)
        × (at p stop n ≡ panicked)
  unfolding remove_session without
  removed_panics id p e now m o h =
      let (s, there, open_s) = o.channel id p h in
      let n : Manager J = without id p s m in
      let behind = get-set_at p p (closed_one s) s m.heap there ∙ ground (arith) in
      (
        n,
        ap (λ x. remove_found id x m) h ∙ stopped_as id p s m there open_s,
        closed_at p (closed_one s) n (push_event e now) behind
            (unfold push_event closed_one in refl),
        closed_at p (closed_one s) n stop behind (unfold stop closed_one in refl),
      )
