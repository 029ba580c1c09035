-- ===== src/Scheduler/Tests/Calls.antt =====
-- Runs of the scheduler's calls and workers on small inputs, and the theorems at inputs that meet their
-- hypotheses. Payloads and the world are numbers; the world counts the VMs that are taken.
use function.Prelude.{ℕ, ◌+◌, ◌-◌, ◌≡◌, refl, true, false, Option, none, some, [], lookup, arith}
use function.Prelude.Int.{pos}
use function.Domain.Function.{python311, active, Function, InvokeRequest}
use function.Scheduler.Work.{Services, WorkItem, Run, responded, acquired, process}
use function.Scheduler.Work.Leases.{IsDone, process-IsDone}
use function.Scheduler.Submit.{
  State, Env, accepted, refused, queue_full, prepare, make_item, new_row, invoke, invoke_async,
  work,
}
use function.Scheduler.Submit.Delivery.{IsAccepted, invoke_async-IsAccepted}
use function.Scheduler.Submit.Spilled.{here, next, turn, spilled_for_ever}

abbrev hello : Function
hello = record {
  function_id = "f1";
  function_name = "hello";
  description = "";
  tags = [];
  pinned = false;
  runtime = python311;
  handler = "main.run";
  code = "code";
  binary = "";
  code_hash = "";
  memory_mb = pos 256;
  timeout_sec = pos 30;
  max_concurrency = pos 0;
  env_vars = [];
  function_status = active;
  status_message = "";
  task_id = "";
  function_version = pos 2;
  cron_expression = "";
  http_path = "";
  http_methods = [];
  webhook_enabled = false;
  webhook_key = "";
}

-- A pool with a new VM for each call, whose functions double their input.
abbrev services : Services ℕ ℕ
services = record {
  acquire_vm = λ w r. (w + 1, acquired "vm1" true);
  release_vm = λ w r vm. w - 1;
  init_function = λ w vm p. (w, none);
  execute = λ w vm id x t. (
    w,
    responded
        (record { success = true; output = x + x; execution_error = ""; memory_used = pos 64 }),
  );
  function_layers = λ w f. none;
  layer_content = λ w l v. none;
  clock = λ w. pos 1000;
}

abbrev env : Env
env = record {
  new_id = "i1";
  now = pos 900;
  found = some hello;
  selected = none;
  load_version = λ v. none;
  create_fails = false;
  push_fails = false;
}

abbrev request : InvokeRequest ℕ
request = record {
  request_function = "hello";
  payload = 3;
  request_alias = "";
  request_version = pos 0;
  request_session = "";
}

abbrev idle : State ℕ
idle = record { stored = []; queue = []; spilled = [] }

abbrev item : WorkItem ℕ
item = make_item env request false hello (pos 2) "" none

abbrev output_of : {W : Type 0} → Option (Run ℕ W) → Option ℕ
output_of none = none
output_of (some r) = r.item.invocation.output

call_runs :
    (((invoke_async 1 env request idle).1) ≡ accepted "i1")
    × (((invoke 0 env request idle).1) ≡ refused queue_full)
    × (output_of (work services 0 (invoke_async 1 env request idle).0).1 ≡ some 6)
unfolding invoke_async invoke work make_item lookup
call_runs = (refl, refl, refl)

process-IsDone_example : IsDone services item (process services item 0)
process-IsDone_example = process-IsDone services item 0

accepted_call :
    (invoke_async 1 env request idle) ≡ ((invoke_async 1 env request idle).0, accepted "i1")
unfolding invoke_async lookup
accepted_call = refl

invoke_async-IsAccepted_example :
    ("i1" ≡ env.new_id) × IsAccepted "i1" (invoke_async 1 env request idle).0
invoke_async-IsAccepted_example =
    invoke_async-IsAccepted 1 env request idle (invoke_async 1 env request idle).0 "i1"
      accepted_call

prepared : prepare env request false hello ≡ some item
unfolding prepare make_item
prepared = refl

spilled_for_ever_example :
    ((invoke_async 0 env request idle).1 ≡ accepted "i1")
    × (lookup "i1" (work services 0 (invoke_async 0 env request idle).0).0.stored
        ≡ some (new_row item.invocation))
unfolding lookup make_item
spilled_for_ever_example =
    spilled_for_ever ℕ 0 env request hello item idle
      (work services 0 (invoke_async 0 env request idle).0).0 (omega arith) refl refl prepared refl
      refl refl (next here (turn services 0))
