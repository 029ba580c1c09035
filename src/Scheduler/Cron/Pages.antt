-- ===== src/Scheduler/Cron/Pages.antt =====
-- The pages that a reload reads (internal/scheduler/cron.go `ReloadAll`).
use function.Prelude.{
  ℕ, zero, suc, ◌+◌, ◌-◌, ◌<◌, ◌≤◌, ◌≡◌, refl, sym, ap, ◌∙◌, inl, inr, Bool, true, false, ◌||◌,
  Option, some, List, [], ◌∷◌, ◌++◌, arith, if◌then◌else◌, eqb, leb, length, take, drop,
  length-take, length-append, Bool-cases,
}
use Prim.Native.Nat.{min}
use mathlib.Core.List.{append_assoc}
use function.Domain.Function.{Function}
use function.Scheduler.Cron.{
  CronLibrary, CronManager, is_timed, add_function, add_page, list_functions, load_pages, page_size,
}

drop-nil : (k : ℕ) → drop {A = Function} k [] ≡ []
drop-nil zero = refl
drop-nil (suc k) = refl

drop-drop : (k l : ℕ) (xs : List Function) → drop l (drop k xs) ≡ drop (k + l) xs
drop-drop zero l xs = let e : l ≡ 0 + l = omega arith in ap (λ n. drop n xs) e
drop-drop (suc k) l [] = drop-nil l ∙ sym (drop-nil (suc k + l))
drop-drop (suc k) l (x ∷ xs) =
    let e : suc (k + l) ≡ suc k + l = omega arith in drop-drop k l xs ∙ ap (λ n. drop n (x ∷ xs)) e

length-drop : (k : ℕ) (xs : List Function) → length (drop k xs) ≡ length xs - k
length-drop zero xs = omega arith
length-drop (suc k) [] = omega arith
length-drop (suc k) (x ∷ xs) = omega (arith, length-drop k xs)

drop_all : (k : ℕ) (xs : List Function) → length xs ≤ k → drop k xs ≡ []
drop_all zero [] h = refl
drop_all zero (x ∷ xs) h = absurd (omega arith)
drop_all (suc k) [] h = refl
drop_all (suc k) (x ∷ xs) h = drop_all k xs (omega arith)

take_rest : (n : ℕ) (xs : List Function) → take n xs ++ drop (length (take n xs)) xs ≡ xs
take_rest zero xs = refl
take_rest (suc n) [] = refl
take_rest (suc n) (x ∷ xs) = ap (λ ys. x ∷ ys) (take_rest n xs)

-- A page and what follows it.
page_rest :
    (k : ℕ) (xs : List Function)
    → list_functions k xs ++ drop (k + length (list_functions k xs)) xs ≡ drop k xs
unfolding list_functions
page_rest k xs =
    rw (← drop-drop k (length (take page_size (drop k xs))) xs) (take_rest page_size (drop k xs))

page_length :
    (k : ℕ) (xs : List Function) → length (list_functions k xs) ≡ min page_size (length xs - k)
unfolding list_functions
page_length k xs = length-take page_size (drop k xs) ∙ ap (min page_size) (length-drop k xs)

page_over : (n k l : ℕ) → l ≡ min page_size (n - k) → (leb n (k + l) || eqb l 0) ≡ true → n ≤ k + l
page_over n k l e h = ground arith

page_more : (n k l : ℕ) → l ≡ min page_size (n - k) → (leb n (k + l) || eqb l 0) ≡ false → k + l ≤ n
page_more n k l e h = ground arith

page_grows :
    (n k l fuel : ℕ) → n < suc fuel + k → (leb n (k + l) || eqb l 0) ≡ false → n < fuel + (k + l)
page_grows n k l fuel h m = ground arith

module _ {C : Type 0} (library : CronLibrary C) where
  add_page-append :
      (xs ys : List Function) (m : CronManager C)
      → add_page library (xs ++ ys) m ≡ add_page library ys (add_page library xs m)
  unfolding add_page
  add_page-append [] ys m = refl
  add_page-append (x ∷ xs) ys m =
      add_page-append xs ys (if is_timed x then add_function library x m else m)

  -- What a load from an offset ends with: the functions up to a page that fails are added, or all.
  unfoldable pub Loads :
      (ℕ → Bool) → ℕ → List Function → CronManager C → Option (CronManager C × Bool) → Type 0
  Loads fails k fs m out =
      (xs : List Function) × (ys : List Function) × (done : Bool) × (xs ++ ys ≡ drop k fs)
      × (out ≡ some (add_page library xs m, done))
      × (done ≡ true → ys ≡ [])
      × (done ≡ false → fails (k + length xs) ≡ true)

  none_loaded :
      (fails : ℕ → Bool) (k : ℕ) (fs : List Function) (m : CronManager C)
      → fails k ≡ true
      → Loads fails k fs m (some (m, false))
  unfolding Loads add_page
  none_loaded fails k fs m failed =
      let here : k ≡ k + 0 = omega arith in
      ([], drop k fs, false, refl, refl, (λ h. cc h), λ h. ap fails (sym here) ∙ failed)

  last_loaded :
      (fails : ℕ → Bool) (k : ℕ) (fs : List Function) (m : CronManager C)
      → length fs ≤ k + length (list_functions k fs)
      → Loads fails k fs m (some (add_page library (list_functions k fs) m, true))
  unfolding Loads
  last_loaded fails k fs m h =
      let none_left = drop_all (k + length (list_functions k fs)) fs h in
      (
        list_functions k fs,
        [],
        true,
        ap (λ ys. list_functions k fs ++ ys) (sym none_left) ∙ page_rest k fs,
        refl,
        (λ t. refl),
        λ t. cc t,
      )

  page_loaded :
      (fails : ℕ → Bool) (k : ℕ) (fs : List Function) (m : CronManager C)
      (out : Option (CronManager C × Bool))
      → Loads fails
          (k + length (list_functions k fs))
          fs
          (add_page library (list_functions k fs) m)
          out
      → Loads fails k fs m out
  unfolding Loads
  page_loaded fails k fs m out (xs, ys, done, split, e, all, why) = (
    list_functions k fs ++ xs,
    ys,
    done,
    append_assoc (list_functions k fs) xs ys
        ∙ ap (λ l. list_functions k fs ++ l) split
        ∙ page_rest k fs,
    e ∙ ap (λ n. some (n, done)) (sym (add_page-append (list_functions k fs) xs m)),
    all,
    λ h.
        let at_page : k + length (list_functions k fs ++ xs)
            ≡ k + length (list_functions k fs) + length xs =
          omega (arith, length-append (list_functions k fs) xs) in
        ap fails at_page ∙ why h,
  )

  pub load_pages_all :
      (fuel : ℕ) (fails : ℕ → Bool) (k : ℕ) (fs : List Function) (m : CronManager C)
      → length fs < fuel + k
      → k ≤ length fs
      → Loads fails k fs m (load_pages library fuel fails k fs m)
  unfolding load_pages
  load_pages_all zero fails k fs m h le = absurd (omega arith)
  load_pages_all (suc fuel) fails k fs m h le = elim (Bool-cases (fails k)) [
    | inl failed ↦ rw failed (none_loaded fails k fs m failed)
    | inr answered ↦
        rw answered
          (elim (Bool-cases (
            leb (length fs) (k + length (list_functions k fs))
            || eqb (length (list_functions k fs)) 0)) [
              | inl over ↦ rw over (
                  last_loaded fails k fs m (
                    page_over (length fs) k (length (list_functions k fs)) (page_length k fs) over))
              | inr more ↦ rw more (
                  page_loaded fails k fs m _ (
                    load_pages_all fuel fails (k + length (list_functions k fs)) fs
                      (add_page library (list_functions k fs) m)
                      (page_grows (length fs) k (length (list_functions k fs)) fuel h more)
                      (page_more (length fs) k (length (list_functions k fs)) (page_length k fs)
                        more)))
            ])
  ]
