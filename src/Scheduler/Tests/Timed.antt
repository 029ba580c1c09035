-- ===== src/Scheduler/Tests/Timed.antt =====
-- Runs of the registry of timed triggers, and the theorems at inputs that meet their hypotheses. The
-- library of the tests keeps its jobs in a function, and refuses the expression "never".
use function.Prelude.{
  ℕ, suc, ◌≡◌, refl, ap, String, Bool, true, false, not, Option, none, some, List, [], ◌∷◌, ◌++◌,
  arith, ltb, eqb, if◌then◌else◌, lookup, elem, ◌==◌,
}
use function.Prelude.Int.{pos}
use function.Domain.Function.{python311, active, offline, FunctionStatus, Function}
use function.Scheduler.Cron.{
  is_made, CronLibrary, CronManager, is_timed, add_or_update_function, reload_all,
}
use function.Scheduler.Cron.Registry.{IsSynced, is_scheduled, add_or_update_function_lem}
use function.Scheduler.Cron.Reload.{wanted, Triggers, reload_all_lem}

record Jobs : Type 0 where
  jobs : ℕ → Option String
  next_id : ℕ

abbrev job_of : Jobs → ℕ → Option String
job_of c i = if ltb i c.next_id then c.jobs i else none

abbrev added_job : Jobs → String → Jobs
added_job c f = record {
  jobs = λ j. if eqb c.next_id j then some f else c.jobs j;
  next_id = suc c.next_id;
}

abbrev add_job : Jobs → String → String → Option (Jobs × ℕ)
add_job c spec f = if spec == "never" then none else some (added_job c f, c.next_id)

add_job_accepts : (c : Jobs) (spec f : String) → is_made (add_job c spec f) ≡ not (spec == "never")
add_job_accepts c spec f = ground arith

abbrev id_of : Option (Jobs × ℕ) → ℕ
id_of none = 0
id_of (some x) = x.1

abbrev jobs_of : Jobs → Option (Jobs × ℕ) → Jobs
jobs_of c none = c
jobs_of c (some x) = x.0

-- What an entry that is made tells of the next id and of the jobs.
made_by :
    (b : Bool) (c c' : Jobs) (f : String) (i : ℕ)
    → if◌then◌else◌ {A = Option (Jobs × ℕ)} b none (some (added_job c f, c.next_id)) ≡ some (c', i)
    → (c.next_id ≡ i) × (added_job c f ≡ c')
made_by true c c' f i h = cc h
made_by false c c' f i h = (ap id_of h, ap (jobs_of c) h)

job_of-added_job :
    (c : Jobs) (f : String) (j : ℕ)
    → job_of (added_job c f) j ≡ (if eqb c.next_id j then some f else job_of c j)
job_of-added_job c f j = ground arith

add_job_free :
    (c c' : Jobs) (spec f : String) (i : ℕ) → add_job c spec f ≡ some (c', i) → job_of c i ≡ none
add_job_free c c' spec f i h = rw (← (made_by (spec == "never") c c' f i h).0) (ground arith)

job_of-add_job :
    (c c' : Jobs) (spec f : String) (i j : ℕ)
    → add_job c spec f ≡ some (c', i)
    → job_of c' j ≡ (if eqb i j then some f else job_of c j)
job_of-add_job c c' spec f i j h =
    let made = made_by (spec == "never") c c' f i h in
    rw (← made.0, ← made.1) (job_of-added_job c f j)

abbrev removed_job : Jobs → ℕ → Jobs
removed_job c i = record c { jobs = λ j. if eqb i j then none else c.jobs j }

job_of-removed_job :
    (c : Jobs) (i j : ℕ) → job_of (removed_job c i) j ≡ (if eqb i j then none else job_of c j)
job_of-removed_job c i j = ground arith

abbrev test_library : CronLibrary Jobs
test_library = record {
  job = job_of;
  add_func = add_job;
  remove = removed_job;
  accepts = λ spec. not (spec == "never");
  add_accepts = add_job_accepts;
  add_free = add_job_free;
  add_job = job_of-add_job;
  remove_job = job_of-removed_job;
}

abbrev function_of : String → String → FunctionStatus → Function
function_of id spec status = record {
  function_id = id;
  function_name = id;
  description = "";
  tags = [];
  pinned = false;
  runtime = python311;
  handler = "main.run";
  code = "code";
  binary = "";
  code_hash = "";
  memory_mb = pos 256;
  timeout_sec = pos 30;
  max_concurrency = pos 0;
  env_vars = [];
  function_status = status;
  status_message = "";
  task_id = "";
  function_version = pos 1;
  cron_expression = spec;
  http_path = "";
  http_methods = [];
  webhook_enabled = false;
  webhook_key = "";
}

abbrev functions : List Function
functions =
    function_of "a" "@daily" active
    ∷ function_of "b" "@daily" offline
    ∷ function_of "c" "never" active
    ∷ []

abbrev empty : CronManager Jobs
empty = record { cron = record { jobs = λ i. none; next_id = 0 }; entries = [] }

empty-IsSynced : IsSynced test_library empty
unfolding lookup
empty-IsSynced = record {
  entry_job = λ f i h. absurd (ground (arith, h));
  job_entry = λ f i h. absurd (ground (arith, h));
}

reload_runs : wanted test_library functions ≡ "a" ∷ []
unfolding is_timed
reload_runs = refl

add_or_update_function_lem_example :
    IsSynced test_library
      (add_or_update_function test_library (function_of "a" "@daily" active) empty)
    × (is_scheduled test_library "a"
          (add_or_update_function test_library (function_of "a" "@daily" active) empty)
        ≡ true)
unfolding is_timed
add_or_update_function_lem_example =
    add_or_update_function_lem test_library (function_of "a" "@daily" active) empty "a"
      empty-IsSynced

reload_all_lem_example :
    (m' : CronManager Jobs) × (xs : List Function) × (ys : List Function) × (done : Bool)
    × (reload_all test_library 4 (λ k. false) functions empty ≡ some (m', done))
    × (xs ++ ys ≡ functions)
    × (done ≡ true → ys ≡ [])
    × (done ≡ false → false ≡ true)
    × Triggers test_library xs m'
unfolding elem
reload_all_lem_example =
    reload_all_lem test_library 4 (λ k. false) functions empty (omega arith)
      (refl, (refl, (refl, tt))) empty-IsSynced
