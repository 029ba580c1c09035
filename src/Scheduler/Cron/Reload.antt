-- ===== src/Scheduler/Cron/Reload.antt =====
-- What a reload from the store leads to (internal/scheduler/cron.go `ReloadAll`).
use function.Prelude.{
  ℕ, ◌+◌, ◌<◌, String, ◌≡◌, refl, ap, ◌∙◌, inl, inr, Bool, true, false, ◌&&◌, ◌||◌, none, some,
  List, [], ◌∷◌, ◌++◌, arith, if◌then◌else◌, eqb, length, Map, lookup, ◌==◌, eq_iff, Bool-cases,
  elem,
}
use function.Domain.Function.{Function}
use function.Scheduler.Cron.{
  CronLibrary, CronManager, is_timed, add_function, add_page, remove_all, reload_all,
}
use function.Scheduler.Cron.Registry.{
  IsSynced, is_scheduled, add_function-IsSynced, add_function-scheduled, none_of,
}
use function.Scheduler.Cron.Pages.{Loads, load_pages_all}

from_start : (n : ℕ) → n ≡ 0 + n
from_start n = omega arith

or_false : (b : Bool) → (b || false) ≡ b
or_false true = refl
or_false false = refl

module _ {C : Type 0} (library : CronLibrary C) where
  -- The functions that are to have a job.
  abbrev pub wanted : List Function → List String
  wanted [] = []
  wanted (f ∷ fs) =
      if is_timed f && library.accepts f.cron_expression
      then f.function_id ∷ wanted fs
      else wanted fs

  abbrev ids : List Function → List String
  ids [] = []
  ids (f ∷ fs) = f.function_id ∷ ids fs

  abbrev pub HasDistinctIds : List Function → Type 0
  HasDistinctIds [] = Unit
  HasDistinctIds (f ∷ fs) = (elem f.function_id (ids fs) ≡ false) × HasDistinctIds fs

  -- None of the functions has an entry.
  abbrev AllFree : List Function → CronManager C → Type 0
  AllFree [] m = Unit
  AllFree (f ∷ fs) m = (is_scheduled library f.function_id m ≡ false) × AllFree fs m

  add_step : Function → CronManager C → CronManager C
  add_step f m = if is_timed f then add_function library f m else m

  add_step-IsSynced :
      (f : Function) (m : CronManager C)
      → is_scheduled library f.function_id m ≡ false
      → IsSynced library m
      → IsSynced library (add_step f m)
  unfolding add_step
  add_step-IsSynced f m free s = elim (Bool-cases (is_timed f)) [
    | inl timed ↦
        rw timed
          (add_function-IsSynced library f m (none_of (lookup f.function_id m.entries) free) s)
    | inr untimed ↦ rw untimed s
  ]

  add_step-scheduled :
      (f : Function) (g : String) (m : CronManager C)
      → is_scheduled library g (add_step f m) ≡ (
          (f.function_id == g && (is_timed f && library.accepts f.cron_expression))
          || is_scheduled library g m)
  unfolding add_step
  add_step-scheduled f g m = elim (Bool-cases (is_timed f)) [
    | inl timed ↦ rw timed (add_function-scheduled library f g m ∙ ground arith)
    | inr untimed ↦ rw untimed (ground arith)
  ]

  add_step-AllFree :
      (f : Function) (fs : List Function) (m : CronManager C)
      → elem f.function_id (ids fs) ≡ false
      → AllFree fs m
      → AllFree fs (add_step f m)
  unfolding elem
  add_step-AllFree f [] m d a = tt
  add_step-AllFree f (x ∷ fs) m d a = (
    add_step-scheduled f x.function_id m
        ∙ ground
            (arith, eq_iff f.function_id x.function_id, eq_iff x.function_id f.function_id, a.0),
    add_step-AllFree f fs m (ground arith) a.1,
  )

  wanted_step :
      (b : Bool) (f g : String) (ws : List String) (s : Bool)
      → (elem g ws || ((f == g && b) || s)) ≡ (elem g (if b then f ∷ ws else ws) || s)
  unfolding elem
  wanted_step true f g ws s = ground arith
  wanted_step false f g ws s = ground arith

  add_page_lem :
      (fs : List Function) (m : CronManager C) (g : String)
      → HasDistinctIds fs
      → AllFree fs m
      → IsSynced library m
      → IsSynced library (add_page library fs m)
        × (is_scheduled library g (add_page library fs m)
            ≡ (elem g (wanted fs) || is_scheduled library g m))
  unfolding add_page elem add_step
  add_page_lem [] m g d a s = (s, refl)
  add_page_lem (f ∷ fs) m g d a s =
      let (synced, scheduled) =
        add_page_lem fs (add_step f m) g d.1 (add_step-AllFree f fs m d.0 a.1)
          (add_step-IsSynced f m a.0 s) in
      (
        synced,
        scheduled
            ∙ ap (λ b. elem g (wanted fs) || b) (add_step-scheduled f g m)
            ∙ wanted_step (is_timed f && library.accepts f.cron_expression) f.function_id g
                (wanted fs) (is_scheduled library g m),
      )

  abbrev has_entry : ℕ → Map ℕ → Bool
  has_entry j [] = false
  has_entry j ((f, i) ∷ es) = eqb i j || has_entry j es

  remove_all-job :
      (es : Map ℕ) (c : C) (j : ℕ)
      → library.job (remove_all library es c) j ≡ (if has_entry j es then none else library.job c j)
  unfolding remove_all
  remove_all-job [] c j = refl
  remove_all-job ((f, i) ∷ es) c j =
      remove_all-job es (library.remove c i) j ∙ ground (arith, library.remove_job c i j)

  lookup-has_entry :
      (f : String) (i : ℕ) (es : Map ℕ) → lookup f es ≡ some i → has_entry i es ≡ true
  unfolding lookup
  lookup-has_entry f i [] h = cc h
  lookup-has_entry f i ((g, j) ∷ es) h = ground (arith, lookup-has_entry f i es)

  cleared : CronManager C → CronManager C
  cleared m = record { cron = remove_all library m.entries m.cron; entries = [] }

  cleared-IsSynced : (m : CronManager C) → IsSynced library m → IsSynced library (cleared m)
  unfolding cleared lookup
  cleared-IsSynced m s = record {
    entry_job = λ f i h. absurd (cc h);
    job_entry = λ f i h. absurd (
        ground (
          arith,
          remove_all-job m.entries m.cron i,
          s.job_entry f i,
          lookup-has_entry f i m.entries,
        ));
  }

  cleared-AllFree : (fs : List Function) (m : CronManager C) → AllFree fs (cleared m)
  unfolding cleared lookup
  cleared-AllFree [] m = tt
  cleared-AllFree (f ∷ fs) m = (refl, cleared-AllFree fs m)

  not_in_first :
      (f : String) (xs ys : List Function)
      → elem f (ids (xs ++ ys)) ≡ false
      → elem f (ids xs) ≡ false
  unfolding elem
  not_in_first f [] ys h = refl
  not_in_first f (x ∷ xs) ys h = ground (arith, not_in_first f xs ys)

  first_distinct : (xs ys : List Function) → HasDistinctIds (xs ++ ys) → HasDistinctIds xs
  unfolding elem
  first_distinct [] ys d = tt
  first_distinct (x ∷ xs) ys d = (not_in_first x.function_id xs ys d.0, first_distinct xs ys d.1)

  -- The table holds the jobs of the functions `xs`, and no others.
  abbrev pub Triggers : List Function → CronManager C → Type 0
  Triggers xs m =
      IsSynced library m × ((g : String) → is_scheduled library g m ≡ elem g (wanted xs))

  -- A reload by a manager whose entries are the library's jobs, of functions with distinct ids that do not
  -- change meanwhile, ends after at most one page more than the functions are. Its entries are again the
  -- library's jobs, and exactly the active functions with an accepted expression are triggered of those
  -- that were read: all of them where it returns no error, and those before a page that the store fails
  -- to give else.
  pub reload_all_lem :
      (fuel : ℕ) (fails : ℕ → Bool) (fs : List Function) (m : CronManager C)
      → length fs < fuel
      → HasDistinctIds fs
      → IsSynced library m
      → (m' : CronManager C) × (xs : List Function) × (ys : List Function) × (done : Bool)
        × (reload_all library fuel fails fs m ≡ some (m', done))
        × (xs ++ ys ≡ fs)
        × (done ≡ true → ys ≡ [])
        × (done ≡ false → fails (length xs) ≡ true)
        × Triggers xs m'
  unfolding reload_all cleared lookup Loads
  reload_all_lem fuel fails fs m enough distinct s =
      let m0 : CronManager C = cleared m in
      let (xs, ys, done, split, ran, all, why) =
        load_pages_all library fuel fails 0 fs m0 (omega arith) (omega arith) in
      let result = λ (g : String).
        add_page_lem xs m0 g (first_distinct xs ys (rw split distinct)) (cleared-AllFree xs m)
          (cleared-IsSynced m s) in
      (
        add_page library xs m0,
        xs,
        ys,
        done,
        ran,
        split,
        all,
        (λ h. ap fails (from_start (length xs)) ∙ why h),
        ((result "").0, λ g. (result g).1 ∙ or_false (elem g (wanted xs))),
      )
