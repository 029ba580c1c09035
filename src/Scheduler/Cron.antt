-- ===== src/Scheduler/Cron.antt =====
-- Timed triggers (internal/scheduler/cron.go). The library robfig/cron is a record of operations on a
-- state `C`, with what its documentation says of them; the store's functions are a list that is read
-- by pages.
pub mod Registry
pub mod Pages
pub mod Reload
use function.Prelude.{
  ℕ, zero, suc, ◌+◌, String, ◌≡◌, Bool, true, false, not, ◌&&◌, ◌||◌, Option, none, some, List, [],
  ◌∷◌, if◌then◌else◌, eqb, leb, length, take, drop, Map, lookup, set, delete, ◌==◌,
}
use function.Prelude.Int.{pos}
use function.Domain.Function.{Function, InvokeRequest, can_invoke}

abbrev pub is_made : {A : Type 0} → Option A → Bool
is_made none = false
is_made (some x) = true

-- `cron.Cron`: the function that an entry triggers, the entry that `AddFunc` makes, and `Remove`.
pub record CronLibrary (C : Type 0) : Type 0 where
  pub job : C → ℕ → Option String
  pub add_func : C → String → String → Option (C × ℕ)
  pub remove : C → ℕ → C
  pub accepts : String → Bool
  -- An expression is refused or not whatever the entries are.
  pub add_accepts : (c : C) (spec f : String) → is_made (add_func c spec f) ≡ accepts spec
  -- An entry that is made has an id that was free, and is the only change.
  pub add_free :
      (c c' : C) (spec f : String) (i : ℕ) → add_func c spec f ≡ some (c', i) → job c i ≡ none
  pub add_job :
      (c c' : C) (spec f : String) (i j : ℕ)
      → add_func c spec f ≡ some (c', i)
      → job c' j ≡ (if eqb i j then some f else job c j)
  pub remove_job : (c : C) (i j : ℕ) → job (remove c i) j ≡ (if eqb i j then none else job c j)

pub record CronManager (C : Type 0) : Type 0 where
  pub cron : C
  pub entries : Map ℕ

-- Whether a function is to be triggered.
unfoldable pub is_timed : Function → Bool
unfolding can_invoke
is_timed f = not (f.cron_expression == "") && can_invoke f.function_status

-- The call that an entry makes; `payload` encodes the expression.
unfoldable pub trigger : {J : Type 0} → (String → J) → Function → InvokeRequest J
trigger payload f = record {
  request_function = f.function_id;
  payload = payload f.cron_expression;
  request_alias = "";
  request_version = pos 0;
  request_session = "";
}

abbrev pub page_size : ℕ
page_size = 100

-- `ListFunctions` at an offset.
unfoldable pub list_functions : ℕ → List Function → List Function
list_functions offset fs = take page_size (drop offset fs)

module _ {C : Type 0} (library : CronLibrary C) where
  -- `NewCronManager`
  unfoldable pub new_manager : C → CronManager C
  new_manager c = record { cron = c; entries = [] }

  added : Function → CronManager C → Option (C × ℕ) → CronManager C
  added f m none = m
  added f m (some (c, i)) = record { cron = c; entries = set f.function_id i m.entries }

  -- `addFunction`: an expression that the library refuses is logged and left out.
  unfoldable pub add_function : Function → CronManager C → CronManager C
  unfolding added
  add_function f m = added f m (library.add_func m.cron f.cron_expression f.function_id)

  dropped : String → CronManager C → Option ℕ → CronManager C
  dropped id m none = m
  dropped id m (some i) = record { cron = library.remove m.cron i; entries = delete id m.entries }

  -- `RemoveFunction`
  unfoldable pub remove_function : String → CronManager C → CronManager C
  unfolding dropped
  remove_function id m = dropped id m (lookup id m.entries)

  -- `AddOrUpdateFunction`
  unfoldable pub add_or_update_function : Function → CronManager C → CronManager C
  unfolding remove_function add_function is_timed
  add_or_update_function f m =
      let m' = remove_function f.function_id m in if is_timed f then add_function f m' else m'

  -- The entries are removed from the library, one after another.
  unfoldable pub remove_all : Map ℕ → C → C
  remove_all [] c = c
  remove_all ((id, i) ∷ es) c = remove_all es (library.remove c i)

  -- The loop over a page.
  unfoldable pub add_page : List Function → CronManager C → CronManager C
  unfolding add_function is_timed
  add_page [] m = m
  add_page (f ∷ fs) m = add_page fs (if is_timed f then add_function f m else m)

  -- The loop over the pages, by fuel; `none` where it runs out. `fails` says at which offsets the store
  -- gives an error: the loop then returns it, with the pages before loaded.
  unfoldable pub load_pages :
      ℕ → (ℕ → Bool) → ℕ → List Function → CronManager C → Option (CronManager C × Bool)
  unfolding list_functions add_page
  load_pages zero fails offset fs m = none
  load_pages (suc fuel) fails offset fs m =
      let page = list_functions offset fs in
      let m' = add_page page m in
      let rest = load_pages fuel fails (offset + length page) fs m' in
      if fails offset
      then some (m, false)
      else if leb (length fs) (offset + length page) || eqb (length page) 0
      then some (m', true)
      else rest

  -- `ReloadAll`, with whether it returns no error.
  unfoldable pub reload_all :
      ℕ → (ℕ → Bool) → List Function → CronManager C → Option (CronManager C × Bool)
  unfolding remove_all load_pages
  reload_all fuel fails fs m =
      load_pages fuel fails 0 fs (record { cron = remove_all m.entries m.cron; entries = [] })
