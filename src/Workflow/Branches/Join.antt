-- ===== src/Workflow/Branches/Join.antt =====
-- The results of the branches of a Parallel state (internal/workflow/executor.go `executeParallelState`).
use function.Prelude.{
  ℕ, zero, suc, String, ◌≡◌, refl, sym, ap, ◌∙◌, false, Option, none, some, List, [], ◌∷◌, arith,
  eqb,
}
use function.Workflow.Types.{Spec, Cause, StateResult, BranchResult}
use function.Workflow.Json.{Raw}
use function.Workflow.Executor.{failure, find_catch}
use function.Workflow.Branches.{
  Collected, put, receive, add_result, first_of, code_of, collect, marshal, merge_outputs,
  join_collected, join,
}

abbrev pub or_error : Option Cause → String → Option (Cause × String) → Option (Cause × String)
or_error none code found = found
or_error (some e) code found = some (e, code)

or_error_kept :
    (old : Option Cause) (e : Cause) (code new : String) (found : Option (Cause × String))
    → or_error (some (first_of old e)) (code_of old code new) found
      ≡ or_error old code (some (e, new))
or_error_kept none e code new found = refl
or_error_kept (some e') e code new found = refl

or_error-none :
    (error : Option Cause) (code : String) (found found' : Option (Cause × String))
    → (found ≡ none → found' ≡ none)
    → or_error error code found ≡ none
    → or_error error code found' ≡ none
or_error-none none code found found' f h = f h
or_error-none (some e) code found found' f h = cc

or_error_swap :
    (e e' : Option Cause) (code code' : String) (found : Option (Cause × String))
    → or_error e code (or_error e' code' found) ≡ none
    → or_error e' code' (or_error e code found) ≡ none
or_error_swap none e' code code' found h = h
or_error_swap (some x) e' code code' found h = cc

module _ {F : Type 0} where
  -- The first result that is an error, in the order of arrival, and its code.
  abbrev pub first_failed : List (BranchResult F) → Option (Cause × String)
  first_failed [] = none
  first_failed (b ∷ bs) = or_error b.branch_error b.branch_code (first_failed bs)

  -- The outputs that the results put, each at its index.
  abbrev pub put_all : List (BranchResult F) → List (Raw F) → List (Raw F)
  put_all [] os = os
  put_all (b ∷ bs) os = put_all bs (put b.branch_index b.branch_output os)

  abbrev error_of : Collected F → Option (Cause × String)
  error_of c = or_error c.first_error c.first_code none

  add_error :
      (error : Option Cause) (b : BranchResult F) (bs : List (BranchResult F)) (c : Collected F)
      → or_error
          (add_result error b c).first_error
          (add_result error b c).first_code
          (first_failed bs)
        ≡ or_error c.first_error c.first_code (or_error error b.branch_code (first_failed bs))
  unfolding add_result
  add_error none b bs c = refl
  add_error (some e) b bs c =
      or_error_kept c.first_error e c.first_code b.branch_code (first_failed bs)

  collect_error :
      (bs : List (BranchResult F)) (c : Collected F)
      → error_of (collect bs c) ≡ or_error c.first_error c.first_code (first_failed bs)
  unfolding collect receive
  collect_error [] c = refl
  collect_error (b ∷ bs) c = collect_error bs (receive b c) ∙ add_error b.branch_error b bs c

  -- Two outputs with different indexes may be put in any order.
  put-put :
      (i j : ℕ) (x y : Raw F) (os : List (Raw F))
      → eqb i j ≡ false
      → put i x (put j y os) ≡ put j y (put i x os)
  unfolding put
  put-put i j x y [] h = refl
  put-put zero zero x y (o ∷ os) h = cc
  put-put zero (suc j) x y (o ∷ os) h = refl
  put-put (suc i) zero x y (o ∷ os) h = refl
  put-put (suc i) (suc j) x y (o ∷ os) h = ap (λ ys. o ∷ ys) (put-put i j x y os (ground arith))

  -- A result is what the first error that arrives makes it, with the state that catches it.
  join_of : Spec F → Collected F → Option (Cause × String) → StateResult F
  join_of s c none = merge_outputs s (marshal c.outputs)
  join_of s c (some (e, code)) = failure e code (find_catch s.catch code)

  join_collected_error :
      (error : Option Cause) (s : Spec F) (c : Collected F)
      → join_collected error s c ≡ join_of s c (or_error error c.first_code none)
  unfolding join_collected join_of
  join_collected_error none s c = refl
  join_collected_error (some e) s c = refl

  -- A Parallel state with a branch that fails gives the error of the first such branch to arrive, with
  -- its code and the state that catches it, whatever the other branches give.
  pub join_first_error :
      (s : Spec F) (outputs : List (Raw F)) (results : List (BranchResult F)) (e : Cause)
      (code : String)
      → first_failed results ≡ some (e, code)
      → join s outputs results ≡ failure e code (find_catch s.catch code)
  unfolding join join_of
  join_first_error s outputs results e code h =
      let c : Collected F =
        collect results (record { first_error = none; first_code = ""; outputs = outputs }) in
      join_collected_error c.first_error s c
      ∙ ap (join_of s c) (
          collect_error results (record { first_error = none; first_code = ""; outputs = outputs })
          ∙ h)

  no_error :
      (error : Option Cause) (b : BranchResult F) (c : Collected F)
      (found : Option (Cause × String))
      → or_error error b.branch_code found ≡ none
      → ((add_result error b c).outputs ≡ put b.branch_index b.branch_output c.outputs)
        × (found ≡ none)
  unfolding add_result
  no_error none b c found h = (refl, h)
  no_error (some e) b c found h = cc

  collect_outputs :
      (bs : List (BranchResult F)) (c : Collected F)
      → first_failed bs ≡ none
      → (collect bs c).outputs ≡ put_all bs c.outputs
  unfolding collect receive
  collect_outputs [] c h = refl
  collect_outputs (b ∷ bs) c h =
      let (here, rest) = no_error b.branch_error b c (first_failed bs) h in
      collect_outputs bs (receive b c) rest ∙ ap (put_all bs) here

  -- Another order of arrival: results of different branches change places.
  pub data Reordered : List (BranchResult F) → List (BranchResult F) → Type 0 where
    same_order : (bs : List (BranchResult F)) → Reordered bs bs
    swap :
        (b b' : BranchResult F) (bs : List (BranchResult F))
        → eqb b.branch_index b'.branch_index ≡ false
        → Reordered (b ∷ b' ∷ bs) (b' ∷ b ∷ bs)
    skip :
        (b : BranchResult F) (bs bs' : List (BranchResult F))
        → Reordered bs bs'
        → Reordered (b ∷ bs) (b ∷ bs')
    after :
        (bs bs' bs'' : List (BranchResult F))
        → Reordered bs bs'
        → Reordered bs' bs''
        → Reordered bs bs''

  Reordered-first_failed :
      (bs bs' : List (BranchResult F))
      → Reordered bs bs'
      → first_failed bs ≡ none
      → first_failed bs' ≡ none
  Reordered-first_failed _ _ (same_order bs) h = h
  Reordered-first_failed _ _ (swap b b' bs k) h =
      or_error_swap b.branch_error b'.branch_error b.branch_code b'.branch_code (first_failed bs) h
  Reordered-first_failed _ _ (skip b bs bs' r) h =
      or_error-none b.branch_error b.branch_code (first_failed bs) (first_failed bs')
        (Reordered-first_failed bs bs' r) h
  Reordered-first_failed _ _ (after bs bs' bs'' r q) h =
      Reordered-first_failed bs' bs'' q (Reordered-first_failed bs bs' r h)

  Reordered-put_all :
      (bs bs' : List (BranchResult F)) (os : List (Raw F))
      → Reordered bs bs'
      → put_all bs os ≡ put_all bs' os
  Reordered-put_all _ _ os (same_order bs) = refl
  Reordered-put_all _ _ os (swap b b' bs k) =
      ap (put_all bs)
        (put-put b'.branch_index b.branch_index b'.branch_output b.branch_output os (ground arith))
  Reordered-put_all _ _ os (skip b bs bs' r) =
      Reordered-put_all bs bs' (put b.branch_index b.branch_output os) r
  Reordered-put_all _ _ os (after bs bs' bs'' r q) =
      Reordered-put_all bs bs' os r ∙ Reordered-put_all bs' bs'' os q

  join_outputs :
      (s : Spec F) (outputs : List (Raw F)) (results : List (BranchResult F))
      → first_failed results ≡ none
      → join s outputs results ≡ merge_outputs s (marshal (put_all results outputs))
  unfolding join join_of
  join_outputs s outputs results h =
      let c0 : Collected F = record { first_error = none; first_code = ""; outputs = outputs } in
      let c : Collected F = collect results c0 in
      join_collected_error c.first_error s c
      ∙ ap (join_of s c) (collect_error results c0 ∙ h)
      ∙ ap (λ os. merge_outputs s (marshal os)) (collect_outputs results c0 h)

  -- Where no branch fails, the result of a Parallel state is the same in every order of arrival.
  pub join_any_order :
      (s : Spec F) (outputs : List (Raw F)) (results results' : List (BranchResult F))
      → Reordered results results'
      → first_failed results ≡ none
      → join s outputs results ≡ join s outputs results'
  join_any_order s outputs results results' r h =
      join_outputs s outputs results h
      ∙ ap (λ os. merge_outputs s (marshal os)) (Reordered-put_all results results' outputs r)
      ∙ sym (join_outputs s outputs results' (Reordered-first_failed results results' r h))
