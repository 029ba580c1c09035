-- ===== src/Scheduler/Cron/Registry.antt =====
-- The manager's entries and the library's jobs agree (internal/scheduler/cron.go).
use function.Prelude.{
  ℕ, String, ◌≡◌, refl, ◌∙◌, Bool, true, false, ◌&&◌, inl, inr, Option, none, some, arith,
  if◌then◌else◌, lookup, lookup-set, lookup-delete, ◌==◌, eq_iff, eq_refl, Bool-cases,
}
use function.Domain.Function.{Function}
use function.Scheduler.Cron.{
  is_made, CronLibrary, CronManager, is_timed, added, add_function, dropped, remove_function,
  add_or_update_function,
}

pub none_of : {A : Type 0} (o : Option A) → is_made o ≡ false → o ≡ none
none_of none h = refl
none_of (some x) h = cc h

module _ {C : Type 0} (library : CronLibrary C) where
  -- A function has an entry in the manager exactly when that entry is a job of the library for it.
  pub record IsSynced (m : CronManager C) : Type 0 where
    pub entry_job :
        (f : String) (i : ℕ) → lookup f m.entries ≡ some i → library.job m.cron i ≡ some f
    pub job_entry :
        (f : String) (i : ℕ) → library.job m.cron i ≡ some f → lookup f m.entries ≡ some i

  dropped-IsSynced :
      (id : String) (m : CronManager C) (o : Option ℕ)
      → lookup id m.entries ≡ o
      → IsSynced m
      → IsSynced (dropped library id m o)
  unfolding dropped
  dropped-IsSynced id m none e s = s
  dropped-IsSynced id m (some i) e s = record {
    entry_job = λ f j h. ground (
      arith,
      lookup-delete id f m.entries,
      library.remove_job m.cron i j,
      s.entry_job f j,
      s.entry_job id i e,
      eq_iff id f,
    );
    job_entry = λ f j h. ground (
      arith,
      lookup-delete id f m.entries,
      library.remove_job m.cron i j,
      s.job_entry f j,
      s.entry_job id i e,
      eq_iff id f,
    );
  }

  pub remove_function-IsSynced :
      (id : String) (m : CronManager C) → IsSynced m → IsSynced (remove_function library id m)
  unfolding remove_function
  remove_function-IsSynced id m s = dropped-IsSynced id m (lookup id m.entries) refl s

  added-IsSynced :
      (f : Function) (m : CronManager C) (o : Option (C × ℕ))
      → library.add_func m.cron f.cron_expression f.function_id ≡ o
      → lookup f.function_id m.entries ≡ none
      → IsSynced m
      → IsSynced (added library f m o)
  unfolding added
  added-IsSynced f m none e free s = s
  added-IsSynced f m (some (c, i)) e free s = record {
    entry_job = λ g j h. ground (
      arith,
      lookup-set f.function_id g i m.entries,
      library.add_job m.cron c f.cron_expression f.function_id i j e,
      library.add_free m.cron c f.cron_expression f.function_id i e,
      s.entry_job g j,
      eq_iff f.function_id g,
    );
    job_entry = λ g j h. ground (
      arith,
      lookup-set f.function_id g i m.entries,
      library.add_job m.cron c f.cron_expression f.function_id i j e,
      s.job_entry g j,
      eq_iff f.function_id g,
      free,
    );
  }

  pub add_function-IsSynced :
      (f : Function) (m : CronManager C)
      → lookup f.function_id m.entries ≡ none
      → IsSynced m
      → IsSynced (add_function library f m)
  unfolding add_function
  add_function-IsSynced f m free s =
      added-IsSynced f m (library.add_func m.cron f.cron_expression f.function_id) refl free s

  abbrev pub is_scheduled : String → CronManager C → Bool
  is_scheduled f m = is_made (lookup f m.entries)

  dropped-scheduled :
      (id g : String) (m : CronManager C) (o : Option ℕ)
      → lookup id m.entries ≡ o
      → is_scheduled g (dropped library id m o) ≡ (if id == g then false else is_scheduled g m)
  unfolding dropped
  dropped-scheduled id g m none e = ground (arith, e, eq_iff id g)
  dropped-scheduled id g m (some i) e = ground (arith, lookup-delete id g m.entries)

  remove_function-scheduled :
      (id g : String) (m : CronManager C)
      → is_scheduled g (remove_function library id m)
        ≡ (if id == g then false else is_scheduled g m)
  unfolding remove_function
  remove_function-scheduled id g m = dropped-scheduled id g m (lookup id m.entries) refl

  remove_function-free :
      (id : String) (m : CronManager C) → lookup id (remove_function library id m).entries ≡ none
  remove_function-free id m =
      none_of (lookup id (remove_function library id m).entries)
        (remove_function-scheduled id id m ∙ rw (eq_refl id) refl)

  added-scheduled :
      (f : Function) (g : String) (m : CronManager C) (o : Option (C × ℕ))
      → is_scheduled g (added library f m o)
        ≡ (if f.function_id == g && is_made o then true else is_scheduled g m)
  unfolding added
  added-scheduled f g m none = ground arith
  added-scheduled f g m (some (c, i)) = ground (arith, lookup-set f.function_id g i m.entries)

  pub add_function-scheduled :
      (f : Function) (g : String) (m : CronManager C)
      → is_scheduled g (add_function library f m) ≡ (
          if f.function_id == g && library.accepts f.cron_expression
          then true
          else is_scheduled g m)
  unfolding add_function
  add_function-scheduled f g m =
      rw (← library.add_accepts m.cron f.cron_expression f.function_id)
        (added-scheduled f g m (library.add_func m.cron f.cron_expression f.function_id))

  -- After an update the function is triggered exactly if it is active and has an expression that the
  -- library accepts, each other function as before, and the entries are still the library's jobs.
  pub add_or_update_function_lem :
      (f : Function) (m : CronManager C) (g : String)
      → IsSynced m
      → IsSynced (add_or_update_function library f m)
        × (is_scheduled g (add_or_update_function library f m) ≡ (
            if f.function_id == g
            then is_timed f && library.accepts f.cron_expression
            else is_scheduled g m))
  unfolding add_or_update_function
  add_or_update_function_lem f m g s =
      let m' = remove_function library f.function_id m in
      elim (Bool-cases (is_timed f)) [
        | inl timed ↦ rw timed (
          add_function-IsSynced f m' (remove_function-free f.function_id m)
              (remove_function-IsSynced f.function_id m s),
          ground
              (arith, add_function-scheduled f g m', remove_function-scheduled f.function_id g m),
        )
        | inr untimed ↦ rw untimed (
          remove_function-IsSynced f.function_id m s,
          ground (arith, remove_function-scheduled f.function_id g m),
        )
      ]
