-- ===== src/Scheduler/Submit/Spilled.antt =====
-- What becomes of the calls that go to Redis when the queue is full (internal/scheduler/scheduler.go
-- `InvokeAsync`, `run`): the scheduler never reads that queue.
use function.Prelude.{
  ℕ, ◌≡◌, refl, sym, eq_refl, ◌∙◌, ap, Bool, true, false, ◌||◌, String, Option, none, some, inl,
  inr, ◌≤◌, List, [], ◌∷◌, ◌++◌, All, ltb, length, lookup, set, lookup-set, Bool-cases, arith, ◌==◌,
  Map,
}
use mathlib.Core.Path.{subst}
use function.Prelude.Int.{ℤ}
use function.Domain.Invocation.{Invocation, time_out}
use function.Domain.Invocation.Ends.{time_out-id}
use function.Domain.Function.{Function, InvokeRequest}
use function.Scheduler.Work.{Services, WorkItem, process}
use function.Scheduler.Work.Writes.{process_writes}
use function.Scheduler.Submit.{
  State, Env, Submitted, refused, waiting, accepted, queue_full, prepare, create_invocation,
  is_taken, new_row, enqueue, send, spill, submit, submit_item, deliver_stored, invoke,
  invoke_async, write_row, update_invocation, update_all, give_up, take_item, work,
}
use function.Scheduler.Submit.Delivery.{is_queued, Item, IsItem, prepare-Item}

module _ {J : Type 0} (id : String) (row : Option (Invocation J)) where
  -- The stored invocation is `row`, and no item in the queue is its.
  pub record IsAbandoned (g : State J) : Type 0 where
    pub stays : lookup id g.stored ≡ row
    pub unqueued : is_queued id g.queue ≡ false

  -- Of an outcome, whatever it answers.
  Abandons : State J × Submitted J → Type 0
  Abandons out = IsAbandoned (out.0)

  is_queued-other :
      (its : List (WorkItem J)) (it : WorkItem J)
      → (it.invocation.invocation_id == id) ≡ false
      → is_queued id its ≡ false
      → is_queued id (its ++ (it ∷ [])) ≡ false
  is_queued-other [] it h k = rw h refl
  is_queued-other (j ∷ its) it h k = ground (arith, is_queued-other its it)

  enqueue-IsAbandoned :
      (it : WorkItem J) (g : State J)
      → (it.invocation.invocation_id == id) ≡ false
      → IsAbandoned g
      → IsAbandoned (enqueue it g)
  unfolding enqueue
  enqueue-IsAbandoned it g h k = record {
    stays = k.stays;
    unqueued = is_queued-other g.queue it h k.unqueued;
  }

  send-Abandons :
      (limit : ℕ) (it : WorkItem J) (sent : Submitted J) (full : State J → State J × Submitted J)
      (g : State J)
      → (it.invocation.invocation_id == id) ≡ false
      → IsAbandoned g
      → Abandons (full g)
      → Abandons (send limit it sent full g)
  unfolding send Abandons
  send-Abandons limit it sent full g h k f = elim (Bool-cases (ltb (length g.queue) limit)) [
    | inl room ↦ rw room (enqueue-IsAbandoned it g h k)
    | inr over ↦ rw over f
  ]

  create-IsAbandoned :
      (it : WorkItem J) (g : State J)
      → (it.invocation.invocation_id == id) ≡ false
      → IsAbandoned g
      → IsAbandoned
          (record g { stored = set it.invocation.invocation_id (new_row it.invocation) g.stored })
  create-IsAbandoned it g h k = record { stays = rw (lookup-set, h) k.stays; unqueued = k.unqueued }

  -- A way to deliver an item that is not the one in question.
  Delivers : (WorkItem J → State J → State J × Submitted J) → Type 0
  Delivers deliver =
      (it : WorkItem J) (g : State J)
      → (it.invocation.invocation_id == id) ≡ false
      → IsAbandoned g
      → Abandons (deliver it g)

  submit_item-Abandons :
      (env : Env) (deliver : WorkItem J → State J → State J × Submitted J) (o : Option (WorkItem J))
      (g : State J)
      → (env.new_id == id) ≡ false
      → Item env o
      → Delivers deliver
      → IsAbandoned g
      → Abandons (submit_item env deliver o g)
  unfolding submit_item Item IsItem create_invocation deliver_stored Delivers
  submit_item-Abandons env deliver none g h item d k = unfold Abandons in k
  submit_item-Abandons env deliver (some it) g h item d k =
      let other : (it.invocation.invocation_id == id) ≡ false = rw (item.0) h in
      elim (Bool-cases
        (env.create_fails || is_taken (lookup it.invocation.invocation_id g.stored))) [
          | inl fails ↦ rw fails (unfold Abandons in k)
          | inr created ↦ rw created (d it _ other (create-IsAbandoned it g other k))
        ]

  submit-Abandons :
      (env : Env) (deliver : WorkItem J → State J → State J × Submitted J) (req : InvokeRequest J)
      (wants : Bool) (o : Option Function) (g : State J)
      → (env.new_id == id) ≡ false
      → Delivers deliver
      → IsAbandoned g
      → Abandons (submit env deliver req wants o g)
  unfolding submit
  submit-Abandons env deliver req wants none g h d k = unfold Abandons in k
  submit-Abandons env deliver req wants (some f) g h d k =
      submit_item-Abandons env deliver (prepare env req wants f) g h (prepare-Item env req wants f)
        d k

  spill-Abandons : (env : Env) (g : State J) → IsAbandoned g → Abandons (spill env g)
  unfolding spill Abandons
  spill-Abandons env g k = elim (Bool-cases env.push_fails) [
    | inl fails ↦ rw fails k
    | inr sends ↦ rw sends (record { stays = k.stays; unqueued = k.unqueued })
  ]

  write_row-other :
      (o : Option (Invocation J)) (i : Invocation J) (m : Map (Invocation J))
      → (i.invocation_id == id) ≡ false
      → lookup id (write_row o i m) ≡ lookup id m
  unfolding write_row
  write_row-other none i m h = refl
  write_row-other (some old) i m h = rw (lookup-set, h) refl

  update_all-other :
      (is : List (Invocation J)) (m : Map (Invocation J)) (other : String)
      → (other == id) ≡ false
      → All (λ (i : Invocation J). i.invocation_id ≡ other) is
      → lookup id (update_all is m) ≡ lookup id m
  unfolding update_all update_invocation
  update_all-other [] m other h a = refl
  update_all-other (i ∷ is) m other h a =
      write_row-other (lookup i.invocation_id (update_all is m)) i (update_all is m) (rw (a.0) h)
      ∙ update_all-other is m other h a.1

  take-IsAbandoned :
      {W : Type 0} (services : Services J W) (w : W) (its : List (WorkItem J)) (g : State J)
      → is_queued id its ≡ false
      → IsAbandoned g
      → IsAbandoned (take_item services w its g).0
  unfolding take_item
  take-IsAbandoned services w [] g q k = k
  take-IsAbandoned services w (it ∷ rest) g q k = record {
    stays =
        update_all-other (process services it w).writes g.stored it.invocation.invocation_id
          (ground arith) (process_writes services it w)
        ∙ k.stays;
    unqueued = ground arith;
  }

  module _ (limit : ℕ) (W : Type 0) where
    -- What the scheduler does: calls, the ends of waits, and turns of its workers. No later call has the id.
    pub data Step : State J → State J → Type 0 where
      call :
          {g : State J} (env : Env) (req : InvokeRequest J)
          → (env.new_id == id) ≡ false
          → Step g (invoke limit env req g).0
      call_async :
          {g : State J} (env : Env) (req : InvokeRequest J)
          → (env.new_id == id) ≡ false
          → Step g (invoke_async limit env req g).0
      wait_ends :
          {g : State J} (now : ℤ) (i : Invocation J)
          → (i.invocation_id == id) ≡ false
          → Step g (give_up now i g)
      turn : {g : State J} (services : Services J W) (w : W) → Step g (work services w g).0

    pub data Reach (g : State J) : State J → Type 0 where
      here : Reach g g
      next : {h h' : State J} → Reach g h → Step h h' → Reach g h'

    Step-IsAbandoned : {g g' : State J} → Step g g' → IsAbandoned g → IsAbandoned g'
    unfolding invoke invoke_async give_up work Abandons Delivers update_invocation
    Step-IsAbandoned (call {g} env req fresh) k =
        submit-Abandons env _ req true env.found g fresh
          (λ it g' h k'.
            send-Abandons limit it (waiting it) (λ g''. (g'', refused queue_full)) g' h k' k')
          k
    Step-IsAbandoned (call_async {g} env req fresh) k =
        submit-Abandons env _ req false env.found g fresh
          (λ it g' h k'.
            send-Abandons limit it (accepted env.new_id) (spill env) g' h k'
              (spill-Abandons env g' k'))
          k
    Step-IsAbandoned (wait_ends {g} now i other) k = record {
      stays =
          write_row-other (lookup (time_out now i).invocation_id g.stored) (time_out now i) g.stored
            (rw (time_out-id now i) other)
          ∙ k.stays;
      unqueued = k.unqueued;
    }
    Step-IsAbandoned (turn {g} services w) k = take-IsAbandoned services w g.queue g k.unqueued k

    -- Once an invocation has no item in the queue, as when its id went to Redis, nothing that the scheduler
    -- does later changes its stored record or queues an item of it, if no later call has its id.
    pub Reach-IsAbandoned : {g g' : State J} → Reach g g' → IsAbandoned g → IsAbandoned g'
    Reach-IsAbandoned here k = k
    Reach-IsAbandoned (next r s) k = Step-IsAbandoned s (Reach-IsAbandoned r k)

stored_as_new : {J : Type 0} → WorkItem J → State J → State J
stored_as_new it g = record g {
  stored = set it.invocation.invocation_id (new_row it.invocation) g.stored;
}

async_spills :
    {J : Type 0} (limit : ℕ) (env : Env) (req : InvokeRequest J) (f : Function) (it : WorkItem J)
    (g : State J)
    → limit ≤ length g.queue
    → env.found ≡ some f
    → prepare env req false f ≡ some it
    → env.create_fails ≡ false
    → env.push_fails ≡ false
    → lookup it.invocation.invocation_id g.stored ≡ none
    → invoke_async limit env req g ≡ (
      record (stored_as_new it g) { spilled = g.spilled ++ (env.new_id ∷ []) },
      accepted env.new_id,
    )
unfolding invoke_async submit submit_item create_invocation is_taken deliver_stored send spill
    stored_as_new
async_spills limit env req f it g full found prepared creates pushes free =
    let over : ltb (length g.queue) limit ≡ false = ground arith in
    rw (found, submit, prepared, submit_item, creates, free, is_taken, deliver_stored, over, pushes)
      refl

-- An asynchronous call comes while the queue is full, of a function that the store finds, with a version
-- or an alias that is resolved, and with an id that neither a stored invocation nor a queued item has; the
-- store takes the invocation and Redis the id. Then the call is accepted, and its invocation stays in the
-- store as it was made, pending, whatever the scheduler does later, if no later call has its id.
pub spilled_for_ever :
    {J : Type 0} (W : Type 0) (limit : ℕ) (env : Env) (req : InvokeRequest J) (f : Function)
    (it : WorkItem J) (g g' : State J)
    → limit ≤ length g.queue
    → is_queued env.new_id g.queue ≡ false
    → env.found ≡ some f
    → prepare env req false f ≡ some it
    → env.create_fails ≡ false
    → env.push_fails ≡ false
    → lookup it.invocation.invocation_id g.stored ≡ none
    → Reach env.new_id (some (new_row it.invocation)) limit W (invoke_async limit env req g).0 g'
    → ((invoke_async limit env req g).1 ≡ accepted env.new_id)
      × (lookup env.new_id g'.stored ≡ some (new_row it.invocation))
unfolding IsItem Item stored_as_new
spilled_for_ever W limit env req f it g g' full unqueued found prepared creates pushes free
      reached =
    let spilled = async_spills limit env req f it g full found prepared creates pushes free in
    let item : IsItem env it = subst (Item env) prepared (prepare-Item env req false f) in
    let left : IsAbandoned env.new_id (some (new_row it.invocation))
        (invoke_async limit env req g).0 =
      subst (IsAbandoned env.new_id (some (new_row it.invocation))) (sym (ap (λ x. x.0) spilled))
        (record { stays = rw (item.0, lookup-set, eq_refl) refl; unqueued = unqueued }) in
    (
      ap (λ x. x.1) spilled,
      (Reach-IsAbandoned env.new_id (some (new_row it.invocation)) limit W reached left).stays,
    )
