-- ===== src/Scheduler/Submit.antt =====
-- The two ways into the scheduler and its queue (internal/scheduler/scheduler.go `Invoke`,
-- `InvokeAsync`, `run`). What the store, the router and Redis answer to a call is a record `Env`.
pub mod Delivery
pub mod Spilled
use function.Prelude.{
  ℕ, String, Bool, true, false, ◌||◌, Option, none, some, List, [], ◌∷◌, ◌++◌, ltb, if◌then◌else◌,
  length, Map, lookup, set,
}
use function.Prelude.Int.{ℤ, pos}
use function.Domain.Invocation.{Invocation, new_invocation, time_out, http}
use function.Domain.Function.{Function, FunctionVersion, InvokeRequest, InvokeResponse}
use function.Scheduler.Router.{Resolved, pinned, by_alias, current, no_version, resolve_version}
use function.Scheduler.Work.{Services, WorkItem, Run, process}

-- The scheduler: the stored invocations, its queue, and the queue in Redis.
pub record State (J : Type 0) : Type 0 where
  pub stored : Map (Invocation J)
  pub queue : List (WorkItem J)
  pub spilled : List String

pub record Env : Type 0 where
  pub new_id : String
  pub now : ℤ
  pub found : Option Function
  pub selected : Option ℤ
  pub load_version : ℤ → Option FunctionVersion
  pub create_fails : Bool
  pub push_fails : Bool

pub data InvokeError : Type 0 where
  no_function version_not_found create_failed queue_full push_failed : InvokeError

-- How far a call comes: it is refused, waits for its item, or has the invocation's id.
pub data Submitted (J : Type 0) : Type 0 where
  refused : InvokeError → Submitted J
  waiting : WorkItem J → Submitted J
  accepted : String → Submitted J

is_loaded : Option FunctionVersion → Bool
is_loaded none = false
is_loaded (some v) = true

module _ {J : Type 0} where
  unfoldable pub make_item :
      Env → InvokeRequest J → Bool → Function → ℤ → String → Option FunctionVersion → WorkItem J
  unfolding new_invocation
  make_item env req wants f version alias code = record {
    invocation = record (new_invocation env.now f.function_id f.function_name http req.payload) {
      invocation_id = env.new_id;
      version = version;
      alias_used = alias;
      session_key = req.request_session;
    };
    item_function = f;
    item_version = code;
    wants_reply = wants;
  }

  resolved_item : Env → InvokeRequest J → Bool → Function → Resolved → Option (WorkItem J)
  unfolding make_item
  resolved_item env req wants f (pinned v) =
      some (make_item env req wants f v "" (env.load_version v))
  resolved_item env req wants f (by_alias v a) =
      some (make_item env req wants f v a (env.load_version v))
  resolved_item env req wants f (current v) = some (make_item env req wants f v "" none)
  resolved_item env req wants f (no_version v) = none

  -- The item of a call, if the function and its version are there.
  unfoldable pub prepare : Env → InvokeRequest J → Bool → Function → Option (WorkItem J)
  unfolding resolved_item resolve_version is_loaded
  prepare env req wants f = resolved_item env req wants f (
      resolve_version req.request_version req.request_alias env.selected f.function_version
        (λ v. is_loaded (env.load_version v)))

  -- The columns that the statement of `CreateInvocation` writes; the others are empty.
  unfoldable pub new_row : Invocation J → Invocation J
  new_row i = record i {
    output = none;
    error = "";
    vm_id = "";
    version = pos 0;
    alias_used = "";
    session_key = "";
    started_at = none;
    completed_at = none;
    duration_ms = pos 0;
    billed_time_ms = pos 0;
    memory_used_mb = pos 0;
  }

  unfoldable pub is_taken : Option (Invocation J) → Bool
  is_taken none = false
  is_taken (some i) = true

  -- `CreateInvocation`, which fails too where the id is taken.
  unfoldable pub create_invocation : Env → WorkItem J → State J → Option (State J)
  unfolding new_row is_taken
  create_invocation env it g =
      if env.create_fails || is_taken (lookup it.invocation.invocation_id g.stored)
      then none
      else some
          (record g { stored = set it.invocation.invocation_id (new_row it.invocation) g.stored })

  unfoldable pub enqueue : WorkItem J → State J → State J
  enqueue it g = record g { queue = g.queue ++ (it ∷ []) }

  -- The send to the queue, whose size is `limit`; `full` is what is done where there is no room.
  unfoldable pub send :
      ℕ
      → WorkItem J
      → Submitted J
      → (State J → State J × Submitted J)
      → State J
      → State J × Submitted J
  unfolding enqueue
  send limit it sent full g = if ltb (length g.queue) limit then (enqueue it g, sent) else full g

  unfoldable pub spill : Env → State J → State J × Submitted J
  spill env g =
      if env.push_fails
      then (g, refused push_failed)
      else (record g { spilled = g.spilled ++ (env.new_id ∷ []) }, accepted env.new_id)

  unfoldable pub deliver_stored :
      (WorkItem J → State J → State J × Submitted J)
      → WorkItem J
      → State J
      → Option (State J)
      → State J × Submitted J
  deliver_stored deliver it g none = (g, refused create_failed)
  deliver_stored deliver it g (some g') = deliver it g'

  -- The part that both calls share: `deliver` sends the item of a stored invocation.
  unfoldable pub submit_item :
      Env
      → (WorkItem J → State J → State J × Submitted J)
      → Option (WorkItem J)
      → State J
      → State J × Submitted J
  unfolding create_invocation deliver_stored
  submit_item env deliver none g = (g, refused version_not_found)
  submit_item env deliver (some it) g = deliver_stored deliver it g (create_invocation env it g)

  unfoldable pub submit :
      Env
      → (WorkItem J → State J → State J × Submitted J)
      → InvokeRequest J
      → Bool
      → Option Function
      → State J
      → State J × Submitted J
  unfolding submit_item prepare
  submit env deliver req wants none g = (g, refused no_function)
  submit env deliver req wants (some f) g = submit_item env deliver (prepare env req wants f) g

  -- `Invoke` up to its wait.
  unfoldable pub invoke : ℕ → Env → InvokeRequest J → State J → State J × Submitted J
  unfolding submit send
  invoke limit env req g =
      submit env (λ it. send limit it (waiting it) (λ g'. (g', refused queue_full))) req true
        env.found g

  -- `InvokeAsync`
  unfoldable pub invoke_async : ℕ → Env → InvokeRequest J → State J → State J × Submitted J
  unfolding submit send spill
  invoke_async limit env req g =
      submit env (λ it. send limit it (accepted env.new_id) (spill env)) req false env.found g

  -- The columns that the statement of `UpdateInvocation` writes.
  unfoldable pub updated_row : Invocation J → Invocation J → Invocation J
  updated_row i old = record old {
    status = i.status;
    output = i.output;
    error = i.error;
    cold_start = i.cold_start;
    vm_id = i.vm_id;
    started_at = i.started_at;
    completed_at = i.completed_at;
    duration_ms = i.duration_ms;
    billed_time_ms = i.billed_time_ms;
    memory_used_mb = i.memory_used_mb;
    retry_count = i.retry_count;
  }

  unfoldable pub write_row :
      Option (Invocation J) → Invocation J → Map (Invocation J) → Map (Invocation J)
  unfolding updated_row
  write_row none i m = m
  write_row (some old) i m = set i.invocation_id (updated_row i old) m

  -- `UpdateInvocation`: a row that is not there is not made.
  unfoldable pub update_invocation : Invocation J → Map (Invocation J) → Map (Invocation J)
  unfolding write_row
  update_invocation i m = write_row (lookup i.invocation_id m) i m

  unfoldable pub update_all : List (Invocation J) → Map (Invocation J) → Map (Invocation J)
  unfolding update_invocation
  update_all [] m = m
  update_all (i ∷ is) m = update_invocation i (update_all is m)

  -- `Invoke` after its wait: the answer of the worker, or the time is over.
  unfoldable pub give_up : ℤ → Invocation J → State J → State J
  unfolding update_invocation time_out
  give_up now i g = record g { stored = update_invocation (time_out now i) g.stored }

  timed_out : Invocation J → InvokeResponse J
  timed_out i = record {
    request_id = i.invocation_id;
    status_code = 504;
    body = none;
    response_error = "function execution timed out";
    response_duration = pos 0;
    response_cold_start = false;
    response_billed = pos 0;
    response_version = i.version;
    response_alias = i.alias_used;
    response_session = i.session_key;
  }

  unfoldable pub wait_for :
      Option (InvokeResponse J) → ℤ → Invocation J → State J → State J × InvokeResponse J
  unfolding give_up timed_out
  wait_for (some resp) now i g = (g, resp)
  wait_for none now i g = (give_up now i g, timed_out i)

  -- One turn of `run`: the first item of the queue.
  unfoldable pub take_item :
      {W : Type 0} → Services J W → W → List (WorkItem J) → State J → State J × Option (Run J W)
  unfolding process update_all
  take_item services w [] g = (g, none)
  take_item services w (it ∷ rest) g =
      let out = process services it w in
      (record g { queue = rest; stored = update_all out.writes g.stored }, some out)

  unfoldable pub work : {W : Type 0} → Services J W → W → State J → State J × Option (Run J W)
  unfolding take_item
  work services w g = take_item services w g.queue g
