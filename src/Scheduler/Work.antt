-- ===== src/Scheduler/Work.antt =====
-- The workers of the scheduler (internal/scheduler/scheduler.go `process`, `fail`). The pool, the VMs,
-- the store's layers and the clock are a record of services on a world `W`. A run keeps what the
-- worker writes to the store and asks of the pool, newest first, and the answer it sends.
pub mod Leases
pub mod Writes
use function.Prelude.{ℕ, String, Bool, Option, none, some, List, [], ◌∷◌, ◌++◌, if◌then◌else◌, eqb}
use Prim.Native.String
use function.Prelude.Int.{ℤ}
use function.Domain.Invocation.{Invocation, start, complete, fail, time_out}
use function.Domain.Function.{Runtime, Function, FunctionVersion, FunctionLayer, InvokeResponse}

-- `fc.LayerInfo` and `fc.InitPayload`
pub record LayerInfo : Type 0 where
  pub info_id : String
  pub info_version : ℤ
  pub info_content : List ℕ
  pub info_order : ℤ

pub record InitPayload : Type 0 where
  pub init_function : String
  pub init_handler : String
  pub init_code : String
  pub init_runtime : Runtime
  pub init_env : List (String × String)
  pub init_memory : ℤ
  pub init_timeout : ℤ
  pub init_layers : List LayerInfo

-- `fc.ResponsePayload`
pub record Execution (J : Type 0) : Type 0 where
  pub success : Bool
  pub output : J
  pub execution_error : String
  pub memory_used : ℤ

-- How `Execute` ends: with a response, at the end of its context, or with another error.
pub data Executed (J : Type 0) : Type 0 where
  responded : Execution J → Executed J
  expired : String → Executed J
  broken : String → Executed J

-- What `AcquireVM` returns: a VM and whether it is new, or an error.
pub data Acquired : Type 0 where
  acquired : String → Bool → Acquired
  no_vm : String → Acquired

pub record Services (J W : Type 0) : Type 0 where
  pub acquire_vm : W → Runtime → W × Acquired
  pub release_vm : W → Runtime → String → W
  pub init_function : W → String → InitPayload → W × Option String
  pub execute : W → String → String → J → ℤ → W × Executed J
  pub function_layers : W → String → Option (List FunctionLayer)
  pub layer_content : W → String → ℤ → Option (List ℕ)
  pub clock : W → ℤ

-- `workItem`; `wants_reply` is whether there is a result channel.
pub record WorkItem (J : Type 0) : Type 0 where
  pub invocation : Invocation J
  pub item_function : Function
  pub item_version : Option FunctionVersion
  pub wants_reply : Bool

pub data PoolEvent : Type 0 where
  taken given_back : String → PoolEvent

pub record Run (J W : Type 0) : Type 0 where
  pub world : W
  pub item : WorkItem J
  pub writes : List (Invocation J)
  pub pool : List PoolEvent
  pub replies : List (InvokeResponse J)

response_of : {J : Type 0} → ℕ → Option J → String → Invocation J → InvokeResponse J
response_of code out message i = record {
  request_id = i.invocation_id;
  status_code = code;
  body = out;
  response_error = message;
  response_duration = i.duration_ms;
  response_cold_start = i.cold_start;
  response_billed = i.billed_time_ms;
  response_version = i.version;
  response_alias = i.alias_used;
  response_session = i.session_key;
}

init_payload : Function → Option FunctionVersion → List LayerInfo → InitPayload
init_payload f none layers = record {
  init_function = f.function_id;
  init_handler = f.handler;
  init_code = f.code;
  init_runtime = f.runtime;
  init_env = f.env_vars;
  init_memory = f.memory_mb;
  init_timeout = f.timeout_sec;
  init_layers = layers;
}
init_payload f (some v) layers = record {
  init_function = f.function_id;
  init_handler = v.version_handler;
  init_code = v.version_code;
  init_runtime = f.runtime;
  init_env = f.env_vars;
  init_memory = f.memory_mb;
  init_timeout = f.timeout_sec;
  init_layers = layers;
}

module _ {J W : Type 0} where
  -- `UpdateInvocation` of the item's invocation, in which a change is made before.
  unfoldable pub update : (Invocation J → Invocation J) → Run J W → Run J W
  update change r =
      let i = change r.item.invocation in
      record r { item = record r.item { invocation = i }; writes = i ∷ r.writes }

  -- The send to the result channel, if there is one.
  unfoldable pub reply : ℕ → Option J → String → Run J W → Run J W
  unfolding response_of
  reply code out message r =
      if r.item.wants_reply
      then record r { replies = response_of code out message r.item.invocation ∷ r.replies }
      else r

  module _ (services : Services J W) where
    -- `fail`
    unfoldable pub fail_item : String → ℕ → Run J W → Run J W
    unfolding update reply time_out fail
    fail_item message code r =
        let now = services.clock r.world in
        reply code none message (update (if eqb code 504 then time_out now else fail now message) r)

    unfoldable pub release : String → Run J W → Run J W
    release vm r = record r {
      world = services.release_vm r.world r.item.item_function.runtime vm;
      pool = given_back vm ∷ r.pool;
    }

    -- The contents of the layers; one that is not there is left out.
    layer_infos : W → List FunctionLayer → List LayerInfo
    layer_infos w [] = []
    layer_infos w (l ∷ ls) = elim (services.layer_content w l.layer_id l.layer_version) [
      | none ↦ layer_infos w ls
      | some content ↦
          record {
            info_id = l.layer_id;
            info_version = l.layer_version;
            info_content = content;
            info_order = l.order;
          }
          ∷ layer_infos w ls
    ]

    layers_of : W → Option (List FunctionLayer) → List LayerInfo
    unfolding layer_infos
    layers_of w none = []
    layers_of w (some ls) = layer_infos w ls

    -- The response is recorded and sent.
    unfoldable pub finish : Execution J → Run J W → Run J W
    unfolding update reply complete fail
    finish x r =
        let now = services.clock r.world in
        if x.success
        then reply 200 (some x.output) x.execution_error
            (update (complete now x.output x.memory_used) r)
        else reply 500 (some x.output) x.execution_error (update (fail now x.execution_error) r)

    unfoldable pub after_execute : String → Executed J → Run J W → Run J W
    unfolding finish release fail_item
    after_execute vm (responded x) r = finish x (release vm r)
    after_execute vm (expired e) r =
        fail_item (String.◌++◌ "function execution failed: " e) 504 (release vm r)
    after_execute vm (broken e) r =
        fail_item (String.◌++◌ "function execution failed: " e) 500 (release vm r)

    unfoldable pub after_init : String → Option String → Run J W → Run J W
    unfolding after_execute release fail_item
    after_init vm (some e) r =
        fail_item (String.◌++◌ "failed to initialize function: " e) 500 (release vm r)
    after_init vm none r =
        let i = r.item.invocation in
        let out =
          services.execute r.world vm i.invocation_id i.input r.item.item_function.timeout_sec in
        after_execute vm (out.1) (record r { world = out.0 })

    unfoldable pub after_acquire : Acquired → Run J W → Run J W
    unfolding after_init update fail_item init_payload layers_of start
    after_acquire (no_vm e) r = fail_item (String.◌++◌ "failed to acquire VM: " e) 500 r
    after_acquire (acquired vm cold) r =
        let r' : Run J W =
          update (start (services.clock r.world) vm cold) (record r { pool = taken vm ∷ r.pool }) in
        let layers =
          layers_of r'.world
            (services.function_layers r'.world r'.item.item_function.function_id) in
        let out =
          services.init_function r'.world vm
            (init_payload r'.item.item_function r'.item.item_version layers) in
        after_init vm (out.1) (record r' { world = out.0 })

    -- `process`
    unfoldable pub process : WorkItem J → W → Run J W
    unfolding after_acquire
    process it w =
        let out = services.acquire_vm w it.item_function.runtime in
        after_acquire (out.1)
          (record { world = out.0; item = it; writes = []; pool = []; replies = [] })
