-- ===== src/Scheduler/Ring/Moves.antt =====
-- Which node serves a key, and which keys move when a node joins the ring (internal/scheduler/session_router.go,
-- `Add`, `Remove`, `Get`).
use function.Prelude.{
  ℕ, ◌<◌, String, ◌≡◌, refl, sym, ap, ◌∙◌, ◌⊎◌, inl, inr, true, false, ◌||◌, Option, some, List, [],
  ◌∷◌, ◌++◌, arith, Bool-cases, length,
}
use function.Scheduler.Ring.{
  ConsistentHash, hash, position, virtual_nodes, assign, add, read, update, get, get_from,
}
use function.Scheduler.Ring.Owner.{
  mem, IsSorted, IsOwner, mem-sort, mem-append, sort-IsSorted, position-IsOwner, IsOwner-unique,
  IsOwner-smaller,
}

mem_pos : (z : ℕ) (xs : List ℕ) → mem z xs ≡ true → 0 < length xs
unfolding mem
mem_pos z [] m = cc
mem_pos z (x ∷ xs) m = omega arith

get_from_pos :
    (ring : List ℕ) (key : String) (nodes : ℕ → Option String)
    → 0 < length ring
    → get_from ring key nodes ≡ read (nodes (position (hash key) ring))
unfolding get_from
get_from_pos [] key nodes p = absurd (omega arith)
get_from_pos (x ∷ xs) key nodes p = refl

-- `Get` reads the node at the owner of the key's hash.
pub get_at :
    (key : String) (c : ConsistentHash) (y : ℕ)
    → IsSorted c.ring
    → IsOwner (hash key) c.ring y
    → get key c ≡ read (c.nodes y)
unfolding get
get_at key c y s o =
    let pos : 0 < length c.ring = mem_pos y c.ring o.member in
    let same : position (hash key) c.ring ≡ y =
      IsOwner-unique (hash key) _ y c.ring (position-IsOwner (hash key) c.ring s pos) o in
    get_from_pos c.ring key c.nodes pos ∙ ap (λ z. read (c.nodes z)) same

pub get_empty : (key : String) (c : ConsistentHash) → length c.ring ≡ 0 → get key c ≡ ""
unfolding get
get_empty key c e = go c.ring e
  where
    go : (ring : List ℕ) → length ring ≡ 0 → get_from ring key c.nodes ≡ ""
    go [] e = refl
    go (x ∷ xs) e = absurd (omega arith)

assign_out :
    (y : ℕ) (hs : List ℕ) (node : String) (f : ℕ → Option String)
    → mem y hs ≡ false
    → assign hs node f y ≡ f y
unfolding assign mem
assign_out y [] node f m = refl
assign_out y (h ∷ hs) node f m = ground (arith, assign_out y hs node (update f h (some node)))

assign_in :
    (y : ℕ) (hs : List ℕ) (node : String) (f : ℕ → Option String)
    → mem y hs ≡ true
    → assign hs node f y ≡ some node
unfolding assign mem
assign_in y [] node f m = cc
assign_in y (h ∷ hs) node f m = elim (Bool-cases (mem y hs)) [
  | inl later ↦ assign_in y hs node (update f h (some node)) later
  | inr now ↦ assign_out y hs node (update f h (some node)) now ∙ ground arith
]

mem-add :
    (node : String) (c : ConsistentHash) (z : ℕ)
    → mem z (add node c).ring ≡ (mem z c.ring || mem z (virtual_nodes node c.replicas 0))
unfolding add
mem-add node c z = mem-sort z (c.ring ++ virtual_nodes node c.replicas 0) ∙ mem-append z c.ring _

pub add-IsSorted : (node : String) (c : ConsistentHash) → IsSorted (add node c).ring
unfolding add
add-IsSorted node c = sort-IsSorted (c.ring ++ virtual_nodes node c.replicas 0)

pub ring_cases : (ring : List ℕ) → (length ring ≡ 0) ⊎ (0 < length ring)
ring_cases [] = inl refl
ring_cases (x ∷ xs) = inr (omega arith)

add_moves_at :
    (key node : String) (c : ConsistentHash) (y : ℕ)
    → IsSorted c.ring
    → IsOwner (hash key) (add node c).ring y
    → (get key (add node c) ≡ node) ⊎ (get key (add node c) ≡ get key c)
unfolding add
add_moves_at key node c y s o = elim (Bool-cases (mem y (virtual_nodes node c.replicas 0))) [
  | inl new ↦
      inl (get_at key (add node c) y (add-IsSorted node c) o ∙ rw (assign_in y _ node c.nodes new))
  | inr old ↦
      (let kept : mem y c.ring ≡ true = ground (arith, mem-add node c y, o.member) in
        let owner : IsOwner (hash key) c.ring y =
          IsOwner-smaller (hash key) y (add node c).ring c.ring (λ z m. rw (mem-add node c z, m))
            kept o in
        inr (
          get_at key (add node c) y (add-IsSorted node c) o
          ∙ rw (assign_out y _ node c.nodes old) (sym (get_at key c y s owner))))
]

add_empty :
    (key node : String) (c : ConsistentHash)
    → IsSorted c.ring
    → length (add node c).ring ≡ 0
    → length c.ring ≡ 0
add_empty key node c s e = elim (ring_cases c.ring) [
  | inl done ↦ done
  | inr pos ↦
      (let y : ℕ = position (hash key) c.ring in
        let m : mem y c.ring ≡ true = (position-IsOwner (hash key) c.ring s pos).member in
        absurd (omega (arith, e, mem_pos y (add node c).ring (rw (mem-add node c y, m)))))
]

-- `Get` reads the node of the owner of the key's hash: of the next hash on the ring, or past the
-- last one of the least.
pub get-IsOwner :
    (key : String) (c : ConsistentHash)
    → IsSorted c.ring
    → 0 < length c.ring
    → (y : ℕ) × IsOwner (hash key) c.ring y × (get key c ≡ read (c.nodes y))
get-IsOwner key c s pos =
    let o : IsOwner (hash key) c.ring (position (hash key) c.ring) =
      position-IsOwner (hash key) c.ring s pos in
    (position (hash key) c.ring, o, get_at key c _ s o)

-- When a node joins, every key either stays where it was or moves to the new node.
pub get-add :
    (key node : String) (c : ConsistentHash)
    → IsSorted c.ring
    → (get key (add node c) ≡ node) ⊎ (get key (add node c) ≡ get key c)
get-add key node c s = elim (ring_cases (add node c).ring) [
  | inr pos ↦
      add_moves_at key node c _ s
        (position-IsOwner (hash key) (add node c).ring (add-IsSorted node c) pos)
  | inl nothing ↦
      inr (
        get_empty key (add node c) nothing ∙ sym (get_empty key c (add_empty key node c s nothing)))
]
