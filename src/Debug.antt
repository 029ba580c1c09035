-- ===== src/Debug.antt =====
-- The sessions of the debugger (internal/debug/session.go). Sessions are shared by pointers: the heap is
-- the list of all sessions, and a pointer is an index. Events are of a type `J`; a send on a closed
-- channel and a second close panic.
pub mod Open
pub mod Safe
mod Tests
use function.Prelude.{
  ℕ, zero, suc, ◌+◌, String, Bool, true, false, not, ◌&&◌, ◌||◌, Option, none, some, List, [], ◌∷◌,
  ◌++◌, ltb, if◌then◌else◌, length, get_elem?, Map, lookup, set, delete, ◌==◌,
}
use function.Prelude.Int.{ℤ, pos, ltb_ℤ, eqb_ℤ, ◌-ℤ◌}

pub data SessionState : Type 0 where
  initializing connected running paused stopped : SessionState

-- `Session`; `is_closed` is whether its channel of events is closed.
pub record Session (J : Type 0) : Type 0 where
  pub session_id : String
  pub debugged_function : String
  pub session_state : SessionState
  pub last_activity : ℤ
  pub events : List J
  pub is_closed : Bool

-- `Manager`
pub record Manager (J : Type 0) : Type 0 where
  pub heap : List (Session J)
  pub sessions : Map ℕ
  pub session_timeout : ℤ

pub data Outcome (A : Type 0) : Type 0 where
  returned : A → Outcome A
  panicked : Outcome A

unfoldable pub and_then : {A B : Type 0} → Outcome A → (A → Outcome B) → Outcome B
and_then (returned x) f = f x
and_then panicked f = panicked

unfoldable pub is_stopped : SessionState → Bool
is_stopped stopped = true
is_stopped _ = false

abbrev pub events_size : ℕ
events_size = 100

module _ {J : Type 0} where
  unfoldable pub set_at : ℕ → Session J → List (Session J) → List (Session J)
  set_at i s [] = []
  set_at zero s (t ∷ ts) = s ∷ ts
  set_at (suc i) s (t ∷ ts) = t ∷ set_at i s ts

  -- `NewManager`, whose default is 30 minutes, in seconds.
  unfoldable pub new_manager : ℤ → Manager J
  new_manager timeout = record {
    heap = [];
    sessions = [];
    session_timeout = if eqb_ℤ timeout (pos 0) then pos 1800 else timeout;
  }

  -- `NewSession`
  unfoldable pub new_session : String → String → ℤ → Session J
  new_session id function_id now = record {
    session_id = id;
    debugged_function = function_id;
    session_state = initializing;
    last_activity = now;
    events = [];
    is_closed = false;
  }

  -- A method on the session behind a pointer.
  unfoldable pub at : ℕ → (Session J → Outcome (Session J)) → Manager J → Outcome (Manager J)
  at p f m = elim (get_elem? m.heap p) [
    | none ↦ panicked
    | some s ↦ and_then (f s) (λ t. returned (record m { heap = set_at p t m.heap }))
  ]

  -- `PushEvent`: an event for a full channel is dropped.
  unfoldable pub push_event : J → ℤ → Session J → Outcome (Session J)
  push_event e now s =
      if s.is_closed
      then panicked
      else if ltb (length s.events) events_size
      then returned (record s { last_activity = now; events = s.events ++ (e ∷ []) })
      else returned (record s { last_activity = now })

  -- `SetState`
  unfoldable pub set_state : SessionState → ℤ → Session J → Outcome (Session J)
  set_state state now s = returned (record s { session_state = state; last_activity = now })

  -- `Stop`
  unfoldable pub stop : Session J → Outcome (Session J)
  stop s =
      if s.is_closed
      then panicked
      else returned (record s { session_state = stopped; is_closed = true })

  -- `IsExpired`
  unfoldable pub is_expired : ℤ → ℤ → Session J → Bool
  is_expired now timeout s = ltb_ℤ timeout (now -ℤ s.last_activity)

  unfoldable pub serves : String → Option (Session J) → Bool
  unfolding is_stopped
  serves function_id none = false
  serves function_id (some s) =
      s.debugged_function == function_id && not (is_stopped s.session_state)

  -- The loop of `GetSessionByFunction`
  unfoldable pub find_active : String → List (Session J) → Map ℕ → Option ℕ
  unfolding serves
  find_active function_id heap [] = none
  find_active function_id heap ((id, p) ∷ ss) =
      let rest = find_active function_id heap ss in
      if serves function_id (get_elem? heap p) then some p else rest

  unfoldable pub get_session_by_function : String → Manager J → Option ℕ
  unfolding find_active
  get_session_by_function function_id m = find_active function_id m.heap m.sessions

  unfoldable pub create_unless : Option ℕ → String → String → ℤ → Manager J → Manager J × ℕ
  unfolding new_session
  create_unless (some p) id function_id now m = (m, p)
  create_unless none id function_id now m = (
    record m {
      heap = m.heap ++ (new_session id function_id now ∷ []);
      sessions = set id (length m.heap) m.sessions;
    },
    length m.heap,
  )

  -- `CreateSession`; the id is random.
  unfoldable pub create_session : String → String → ℤ → Manager J → Manager J × ℕ
  unfolding create_unless get_session_by_function
  create_session id function_id now m =
      create_unless (get_session_by_function function_id m) id function_id now m

  -- `GetSession`
  unfoldable pub get_session : String → Manager J → Option ℕ
  get_session id m = lookup id m.sessions

  -- A session is stopped and leaves the map.
  unfoldable pub stop_and_delete : String → ℕ → Manager J → Outcome (Manager J)
  unfolding at stop and_then
  stop_and_delete id p m =
      and_then (at p stop m) (λ n. returned (record n { sessions = delete id n.sessions }))

  unfoldable pub remove_found : String → Option ℕ → Manager J → Outcome (Manager J)
  unfolding stop_and_delete
  remove_found id none m = returned m
  remove_found id (some p) m = stop_and_delete id p m

  -- `RemoveSession`
  unfoldable pub remove_session : String → Manager J → Outcome (Manager J)
  unfolding remove_found
  remove_session id m = remove_found id (lookup id m.sessions) m

  unfoldable pub is_active : Option (Session J) → Bool
  unfolding is_stopped
  is_active none = false
  is_active (some s) = not (is_stopped s.session_state)

  -- `ListSessions`
  unfoldable pub list_sessions : List (Session J) → Map ℕ → List ℕ
  unfolding is_active
  list_sessions heap [] = []
  list_sessions heap ((id, p) ∷ ss) =
      let rest = list_sessions heap ss in if is_active (get_elem? heap p) then p ∷ rest else rest

  unfoldable pub is_due : ℤ → ℤ → Option (Session J) → Bool
  unfolding is_expired is_stopped
  is_due now timeout none = false
  is_due now timeout (some s) = is_expired now timeout s || is_stopped s.session_state

  unfoldable pub clean_up_one : ℤ → String → Option ℕ → Manager J → Outcome (Manager J)
  unfolding is_due stop_and_delete
  clean_up_one now id none m = returned m
  clean_up_one now id (some p) m =
      if is_due now m.session_timeout (get_elem? m.heap p)
      then stop_and_delete id p m
      else returned m

  -- The loop of `cleanup`, over the keys of the map.
  unfoldable pub clean_up_all : ℤ → Map ℕ → Manager J → Outcome (Manager J)
  unfolding clean_up_one and_then
  clean_up_all now [] m = returned m
  clean_up_all now ((id, p) ∷ ss) m =
      and_then (clean_up_one now id (lookup id m.sessions) m) (λ n. clean_up_all now ss n)

  unfoldable pub clean_up : ℤ → Manager J → Outcome (Manager J)
  unfolding clean_up_all
  clean_up now m = clean_up_all now m.sessions m

  -- The loop of `Manager.Stop`, in which each session leaves the map at once and not at the end.
  unfoldable pub stop_all : Map ℕ → Manager J → Outcome (Manager J)
  unfolding remove_session and_then
  stop_all [] m = returned (record m { sessions = [] })
  stop_all ((id, p) ∷ ss) m = and_then (remove_session id m) (λ n. stop_all ss n)

  unfoldable pub stop_manager : Manager J → Outcome (Manager J)
  unfolding stop_all
  stop_manager m = stop_all m.sessions m
