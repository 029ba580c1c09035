-- ===== src/Scheduler/Submit/Delivery.antt =====
-- Where an accepted call is found (internal/scheduler/scheduler.go `Invoke`, `InvokeAsync`).
use function.Prelude.{
  ℕ, String, ◌≡◌, refl, inl, inr, Bool, true, false, Option, none, some, List, [], ◌∷◌, ◌++◌, arith,
  ltb, Bool-cases, length, lookup, lookup-set, eq_refl, elem, elem-append, ◌==◌, ◌||◌,
}
use mathlib.Core.Path.{subst}
use function.Domain.Invocation.{Invocation, pending, new_invocation}
use function.Domain.Function.{Function, InvokeRequest}
use function.Scheduler.Work.{WorkItem}
use function.Scheduler.Router.{Resolved, pinned, by_alias, current, no_version}
use function.Scheduler.Submit.{
  State, Env, Submitted, refused, waiting, accepted, prepare, resolved_item, make_item,
  create_invocation, is_taken, new_row, enqueue, send, spill, submit, submit_item, deliver_stored,
  invoke_async,
}

spilled_last : (id : String) (b : Bool) (xs : List String) → (b || elem id (xs ++ (id ∷ []))) ≡ true
unfolding elem
spilled_last id b xs = ground (arith, elem-append id xs (id ∷ []), eq_refl id)

module _ {J : Type 0} where
  -- An item with the id is in the queue.
  abbrev pub is_queued : String → List (WorkItem J) → Bool
  is_queued id [] = false
  is_queued id (it ∷ its) = it.invocation.invocation_id == id || is_queued id its

  is_queued-append :
      (id : String) (its : List (WorkItem J)) (it : WorkItem J)
      → it.invocation.invocation_id ≡ id
      → is_queued id (its ++ (it ∷ [])) ≡ true
  is_queued-append id [] it h = rw (h, eq_refl) refl
  is_queued-append id (j ∷ its) it h = ground (arith, is_queued-append id its it)

  -- The invocation is stored as one that waits, and its item is in the queue or its id in Redis.
  pub record IsAccepted (id : String) (g : State J) : Type 0 where
    pub row :
        (i : Invocation J) × (lookup id g.stored ≡ some i)
        × (i.status ≡ pending)
        × (i.invocation_id ≡ id)
    pub kept : (is_queued id g.queue || elem id g.spilled) ≡ true

  unfoldable pub IsItem : Env → WorkItem J → Type 0
  IsItem env it = (it.invocation.invocation_id ≡ env.new_id) × (it.invocation.status ≡ pending)

  unfoldable pub Item : Env → Option (WorkItem J) → Type 0
  Item env none = Unit
  Item env (some it) = IsItem env it

  resolved_item-Item :
      (env : Env) (req : InvokeRequest J) (wants : Bool) (f : Function) (r : Resolved)
      → Item env (resolved_item env req wants f r)
  unfolding Item IsItem resolved_item make_item new_invocation
  resolved_item-Item env req wants f (pinned v) = (refl, refl)
  resolved_item-Item env req wants f (by_alias v a) = (refl, refl)
  resolved_item-Item env req wants f (current v) = (refl, refl)
  resolved_item-Item env req wants f (no_version v) = tt

  pub prepare-Item :
      (env : Env) (req : InvokeRequest J) (wants : Bool) (f : Function)
      → Item env (prepare env req wants f)
  unfolding prepare
  prepare-Item env req wants f = resolved_item-Item env req wants f _

  -- What an outcome that accepts the call has.
  Accepts : Env → State J × Submitted J → Type 0
  Accepts env (g, accepted id) = (id ≡ env.new_id) × IsAccepted id g
  Accepts env (g, refused e) = Unit
  Accepts env (g, waiting it) = Unit

  -- The invocation is stored as new.
  HasRow : Env → State J → Type 0
  HasRow env g =
      (i : Invocation J) × (lookup env.new_id g.stored ≡ some i)
      × (i.status ≡ pending)
      × (i.invocation_id ≡ env.new_id)

  enqueue-IsAccepted :
      (env : Env) (it : WorkItem J) (g : State J)
      → IsItem env it
      → HasRow env g
      → IsAccepted env.new_id (enqueue it g)
  unfolding enqueue IsItem HasRow
  enqueue-IsAccepted env it g item row = record {
    row = row;
    kept = rw (is_queued-append env.new_id g.queue it item.0) refl;
  }

  spill-Accepts : (env : Env) (g : State J) → HasRow env g → Accepts env (spill env g)
  unfolding spill Accepts HasRow
  spill-Accepts env g row = elim (Bool-cases env.push_fails) [
    | inl fails ↦ rw fails tt
    | inr sends ↦ rw sends (
      refl,
      record { row = row; kept = spilled_last env.new_id (is_queued env.new_id g.queue) g.spilled },
    )
  ]

  send-Accepts :
      (limit : ℕ) (env : Env) (it : WorkItem J) (g : State J)
      → IsItem env it
      → HasRow env g
      → Accepts env (send limit it (accepted env.new_id) (spill env) g)
  unfolding send
  send-Accepts limit env it g item row = elim (Bool-cases (ltb (length g.queue) limit)) [
    | inl room ↦ rw room (unfold Accepts in (refl, enqueue-IsAccepted env it g item row))
    | inr full ↦ rw full (spill-Accepts env g row)
  ]

  deliver-Accepts :
      (limit : ℕ) (env : Env) (it : WorkItem J) (g : State J)
      → IsItem env it
      → Accepts env (
          deliver_stored
            (λ it'. send limit it' (accepted env.new_id) (spill env))
            it
            g
            (create_invocation env it g))
  unfolding create_invocation deliver_stored
  deliver-Accepts limit env it g item =
      elim (Bool-cases
        (env.create_fails || is_taken (lookup it.invocation.invocation_id g.stored))) [
          | inl fails ↦ rw fails (unfold Accepts in tt)
          | inr created ↦ rw created (
              send-Accepts limit env it _ item (
                unfold IsItem in
                unfold HasRow in
                (new_row it.invocation, rw (item.0, lookup-set, eq_refl) refl, item.1, item.0)))
        ]

  submit-Accepts :
      (limit : ℕ) (env : Env) (req : InvokeRequest J) (o : Option (WorkItem J)) (g : State J)
      → Item env o
      → Accepts env (submit_item env (λ it'. send limit it' (accepted env.new_id) (spill env)) o g)
  unfolding submit_item Item
  submit-Accepts limit env req none g item = unfold Accepts in tt
  submit-Accepts limit env req (some it) g item = deliver-Accepts limit env it g item

  found-Accepts :
      (limit : ℕ) (env : Env) (req : InvokeRequest J) (o : Option Function) (g : State J)
      → Accepts env
          (submit env (λ it'. send limit it' (accepted env.new_id) (spill env)) req false o g)
  unfolding submit
  found-Accepts limit env req none g = unfold Accepts in tt
  found-Accepts limit env req (some f) g =
      submit-Accepts limit env req (prepare env req false f) g (prepare-Item env req false f)

  -- An asynchronous call that is accepted answers with the id of an invocation that is stored as
  -- pending, and whose item is in the queue or whose id is in Redis.
  pub invoke_async-IsAccepted :
      (limit : ℕ) (env : Env) (req : InvokeRequest J) (g g' : State J) (id : String)
      → invoke_async limit env req g ≡ (g', accepted id)
      → (id ≡ env.new_id) × IsAccepted id g'
  unfolding invoke_async
  invoke_async-IsAccepted limit env req g g' id h =
      unfold Accepts in subst (Accepts env) h (found-Accepts limit env req env.found g)
