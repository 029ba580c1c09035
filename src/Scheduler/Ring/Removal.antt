-- ===== src/Scheduler/Ring/Removal.antt =====
-- Which keys move when a node leaves the ring (internal/scheduler/session_router.go,
-- `Add`, `Remove`, `Get`).
use function.Prelude.{
  ℕ, String, ◌≡◌, ◌≢◌, refl, sym, ap, ◌∙◌, inl, inr, Bool, true, false, not, ◌&&◌, Option, none,
  List, [], ◌∷◌, arith, eqb, if◌then◌else◌, Bool-cases, length, ◌==◌, eq_refl,
}
use function.Scheduler.Ring.{ConsistentHash, hash, position, read, update, remove_loop, remove, get}
use function.Scheduler.Ring.Owner.{mem, IsSorted, IsOwner, position-IsOwner, IsOwner-smaller}
use function.Scheduler.Ring.Moves.{get_at, get_empty, ring_cases}

-- No hash stands twice on the ring: the virtual nodes have not collided.
abbrev pub Distinct : List ℕ → Type 0
Distinct [] = Unit
Distinct (x ∷ xs) = (mem x xs ≡ false) × Distinct xs

-- The map after the loop of `Remove`: exactly the hashes of the node are gone.
remove_loop-nodes :
    (node : String) (ring : List ℕ) (f : ℕ → Option String) (z : ℕ)
    → (remove_loop node ring f).1 z ≡ (if mem z ring && read (f z) == node then none else f z)
unfolding remove_loop mem
remove_loop-nodes node [] f z = refl
remove_loop-nodes node (h ∷ hs) f z = ground (
  arith,
  eq_refl "",
  remove_loop-nodes node hs f z,
  remove_loop-nodes node hs (update f h none) z,
)

-- The ring after it, where no hash stands twice.
remove_loop-ring :
    (node : String) (ring : List ℕ) (f : ℕ → Option String) (z : ℕ)
    → Distinct ring
    → mem z (remove_loop node ring f).0 ≡ (mem z ring && not (read (f z) == node))
unfolding remove_loop mem
remove_loop-ring node [] f z d = refl
remove_loop-ring node (h ∷ hs) f z d =
    ground (
      arith,
      remove_loop-ring node hs f z d.1,
      remove_loop-ring node hs (update f h none) z d.1,
      d.0,
    )

remove_loop-mem :
    (node : String) (ring : List ℕ) (f : ℕ → Option String) (z : ℕ)
    → mem z (remove_loop node ring f).0 ≡ true
    → mem z ring ≡ true
unfolding remove_loop mem
remove_loop-mem node [] f z m = m
remove_loop-mem node (h ∷ hs) f z m =
    ground (arith, remove_loop-mem node hs f z, remove_loop-mem node hs (update f h none) z)

remove_loop-IsSorted :
    (node : String) (ring : List ℕ) (f : ℕ → Option String)
    → IsSorted ring
    → IsSorted (remove_loop node ring f).0
unfolding remove_loop mem
remove_loop-IsSorted node [] f s = tt
remove_loop-IsSorted node (h ∷ hs) f s = elim (Bool-cases (read (f h) == node)) [
  | inl gone ↦ rw gone (remove_loop-IsSorted node hs (update f h none) s.1)
  | inr kept ↦
      rw kept ((λ z m. s.0 z (remove_loop-mem node hs f z m)), remove_loop-IsSorted node hs f s.1)
]

pub remove-IsSorted :
    (node : String) (c : ConsistentHash) → IsSorted c.ring → IsSorted (remove node c).ring
unfolding remove
remove-IsSorted node c s = remove_loop-IsSorted node c.ring c.nodes s

remove_loop_empty :
    (node : String) (ring : List ℕ) (f : ℕ → Option String)
    → length ring ≡ 0
    → length (remove_loop node ring f).0 ≡ 0
unfolding remove_loop
remove_loop_empty node [] f e = refl
remove_loop_empty node (h ∷ hs) f e = absurd (omega arith)

remove_empty :
    (node : String) (c : ConsistentHash) → length c.ring ≡ 0 → length (remove node c).ring ≡ 0
unfolding remove
remove_empty node c e = remove_loop_empty node c.ring c.nodes e

remove_keeps_at :
    (key node : String) (c : ConsistentHash) (y : ℕ)
    → IsSorted c.ring
    → Distinct c.ring
    → IsOwner (hash key) c.ring y
    → read (c.nodes y) == node ≡ false
    → get key (remove node c) ≡ get key c
unfolding remove
remove_keeps_at key node c y s d o ne =
    get_at key (remove node c) y (remove-IsSorted node c s) (
      IsOwner-smaller (hash key) y c.ring (remove node c).ring (remove_loop-mem node c.ring c.nodes)
        (remove_loop-ring node c.ring c.nodes y d ∙ rw (o.member, ne)) o)
    ∙ ap read {y = c.nodes y} (remove_loop-nodes node c.ring c.nodes y ∙ rw (o.member, ne))
    ∙ sym (get_at key c y s o)

-- When a node leaves a ring without collisions, a key that it did not serve stays where it was.
pub get-remove :
    (key node : String) (c : ConsistentHash)
    → IsSorted c.ring
    → Distinct c.ring
    → get key c == node ≡ false
    → get key (remove node c) ≡ get key c
get-remove key node c s d ne = elim (ring_cases c.ring) [
  | inl nothing ↦
      get_empty key (remove node c) (remove_empty node c nothing) ∙ sym (get_empty key c nothing)
  | inr pos ↦
      (let o : IsOwner (hash key) c.ring (position (hash key) c.ring) =
          position-IsOwner (hash key) c.ring s pos in
        remove_keeps_at key node c _ s d o (rw (← get_at key c _ s o) ne))
]

remove_serves_at :
    (key node : String) (c : ConsistentHash) (y : ℕ)
    → IsSorted c.ring
    → Distinct c.ring
    → IsOwner (hash key) (remove node c).ring y
    → get key (remove node c) == node ≡ false
unfolding remove
remove_serves_at key node c y s d o =
    rw (get_at key (remove node c) y (remove-IsSorted node c s) o) (
      ground (
        arith,
        remove_loop-ring node c.ring c.nodes y d,
        remove_loop-nodes node c.ring c.nodes y,
        o.member,
      ))

-- When a node leaves a ring without collisions, no key is served by it any more.
pub get-remove_gone :
    (key node : String) (c : ConsistentHash)
    → IsSorted c.ring
    → Distinct c.ring
    → node ≢ ""
    → get key (remove node c) ≢ node
get-remove_gone key node c s d ne e = elim (ring_cases (remove node c).ring) [
  | inl nothing ↦ ne (sym e ∙ get_empty key (remove node c) nothing)
  | inr pos ↦ ground (
    arith,
    eq_refl node,
    e,
    remove_serves_at key node c _ s d
        (position-IsOwner (hash key) (remove node c).ring (remove-IsSorted node c s) pos),
  )
]

-- Whether a hash stands at least twice on the ring.
unfoldable pub twice : ℕ → List ℕ → Bool
twice h [] = false
twice h (x ∷ xs) = if eqb x h then mem h xs else twice h xs

-- A hash without a node stays on the ring.
dangling :
    (node : String) (h : ℕ) (ring : List ℕ) (f : ℕ → Option String)
    → "" == node ≡ false
    → f h ≡ none
    → mem h ring ≡ true
    → mem h (remove_loop node ring f).0 ≡ true
unfolding remove_loop mem
dangling node h [] f ne e m = cc
dangling node h (x ∷ xs) f ne e m =
    ground (arith, dangling node h xs f ne e, dangling node h xs (update f x none) ne)

remove_loop-twice :
    (node : String) (h : ℕ) (ring : List ℕ) (f : ℕ → Option String)
    → "" == node ≡ false
    → read (f h) == node ≡ true
    → twice h ring ≡ true
    → mem h (remove_loop node ring f).0 ≡ true
unfolding remove_loop mem twice
remove_loop-twice node h [] f ne e t = cc
remove_loop-twice node h (x ∷ xs) f ne e t = ground (
  arith,
  dangling node h xs (update f x none) ne,
  remove_loop-twice node h xs f ne e,
  remove_loop-twice node h xs (update f x none) ne,
)

twice-mem : (h : ℕ) (ring : List ℕ) → twice h ring ≡ true → mem h ring ≡ true
unfolding twice mem
twice-mem h [] t = cc
twice-mem h (x ∷ xs) t = ground (arith, twice-mem h xs)

-- A hash that a node has twice on the ring, as after two calls of `Add`, stays there when the node
-- leaves, and has no node any more.
pub remove-twice :
    (node : String) (h : ℕ) (c : ConsistentHash)
    → "" == node ≡ false
    → read (c.nodes h) == node ≡ true
    → twice h c.ring ≡ true
    → (mem h (remove node c).ring ≡ true) × ((remove node c).nodes h ≡ none)
unfolding remove
remove-twice node h c ne e t = (
  remove_loop-twice node h c.ring c.nodes ne e t,
  remove_loop-nodes node c.ring c.nodes h ∙ rw (twice-mem h c.ring t, e),
)
