-- ===== src/Scheduler/Ring/Owner.antt =====
-- The ring stays sorted, and `Get` settles on the owner of a hash: the next hash of the ring, or
-- the least one past the end (internal/scheduler/session_router.go, `ConsistentHash`).
use function.Prelude.{
  ℕ, zero, suc, ◌≤◌, ◌<◌, ◌≡◌, refl, ◌⊎◌, inl, inr, Bool, true, false, ◌||◌, List, [], ◌∷◌, ◌++◌,
  arith, ltb, leb, eqb, if◌then◌else◌, Bool-cases, length,
}
use function.Scheduler.Ring.{sort_search, insert, sort, get_or, position}
use function.Scheduler.Ring.Search.{Found, sort_search-Found}

unfoldable pub mem : ℕ → List ℕ → Bool
mem a [] = false
mem a (x ∷ xs) = eqb x a || mem a xs

abbrev pub IsSorted : List ℕ → Type 0
IsSorted [] = Unit
IsSorted (x ∷ xs) = ((z : ℕ) → mem z xs ≡ true → x ≤ z) × IsSorted xs

-- `y` is the hash of the ring at which the keys with hash `h` go.
pub record IsOwner (h : ℕ) (ring : List ℕ) (y : ℕ) : Type 0 where
  pub member : mem y ring ≡ true
  pub nearest :
      ((h ≤ y) × ((z : ℕ) → mem z ring ≡ true → h ≤ z → y ≤ z))
      ⊎ (((z : ℕ) → mem z ring ≡ true → z < h) × ((z : ℕ) → mem z ring ≡ true → y ≤ z))

mem-insert : (a x : ℕ) (xs : List ℕ) → mem a (insert x xs) ≡ (eqb x a || mem a xs)
unfolding insert mem
mem-insert a x [] = refl
mem-insert a x (y ∷ ys) = ground (arith, mem-insert a x ys)

pub mem-sort : (a : ℕ) (xs : List ℕ) → mem a (sort xs) ≡ mem a xs
unfolding sort mem
mem-sort a [] = refl
mem-sort a (x ∷ xs) = ground (arith, mem-insert a x (sort xs), mem-sort a xs)

pub mem-append : (a : ℕ) (xs ys : List ℕ) → mem a (xs ++ ys) ≡ (mem a xs || mem a ys)
unfolding mem
mem-append a [] ys = refl
mem-append a (x ∷ xs) ys = ground (arith, mem-append a xs ys)

insert-IsSorted : (x : ℕ) (xs : List ℕ) → IsSorted xs → IsSorted (insert x xs)
unfolding insert mem
insert-IsSorted x [] s = (λ z m. cc, tt)
insert-IsSorted x (y ∷ ys) s = elim (Bool-cases (leb x y)) [
  | inl le ↦ rw le ((λ z m. ground (arith, s.0 z)), s)
  | inr gt ↦ rw gt ((λ z m. ground (arith, s.0 z, mem-insert z x ys)), insert-IsSorted x ys s.1)
]

pub sort-IsSorted : (xs : List ℕ) → IsSorted (sort xs)
unfolding sort
sort-IsSorted [] = tt
sort-IsSorted (x ∷ xs) = insert-IsSorted x (sort xs) (sort-IsSorted xs)

mem-get_or : (xs : List ℕ) (k d : ℕ) → k < length xs → mem (get_or xs k d) xs ≡ true
unfolding mem
mem-get_or [] k d h = absurd (omega arith)
mem-get_or (x ∷ xs) zero d h = ground arith
mem-get_or (x ∷ xs) (suc k) d h = ground (arith, mem-get_or xs k d)

index_of :
    (z d : ℕ) (xs : List ℕ) → mem z xs ≡ true → (k : ℕ) × (k < length xs) × (get_or xs k d ≡ z)
unfolding mem
index_of z d [] m = cc
index_of z d (x ∷ xs) m = elim (Bool-cases (eqb x z)) [
  | inl same ↦ (0, omega arith, ground arith)
  | inr other ↦ (let (k, lt, e) = index_of z d xs (ground arith) in (suc k, omega arith, e))
]

get_or_mono :
    (xs : List ℕ) (k l d : ℕ) → IsSorted xs → k ≤ l → l < length xs → get_or xs k d ≤ get_or xs l d
get_or_mono [] k l d s h lt = absurd (omega arith)
get_or_mono (x ∷ xs) zero zero d s h lt = omega arith
get_or_mono (x ∷ xs) zero (suc l) d s h lt = s.0 (get_or xs l d) (mem-get_or xs l d (omega arith))
get_or_mono (x ∷ xs) (suc k) zero d s h lt = absurd (omega arith)
get_or_mono (x ∷ xs) (suc k) (suc l) d s h lt = get_or_mono xs k l d s.1 (omega arith) (omega arith)

settle-IsOwner :
    (h : ℕ) (ring : List ℕ) (idx : ℕ)
    → IsSorted ring
    → 0 < length ring
    → Found (λ i. leb h (get_or ring i 0)) (length ring) idx
    → IsOwner h ring (get_or ring (if leb (length ring) idx then 0 else idx) 0)
settle-IsOwner h ring idx s pos f = elim (Bool-cases (leb (length ring) idx)) [
  | inl past ↦ rw past (record {
    member = mem-get_or ring 0 0 pos;
    nearest = inr (
      (λ z m. let (k, lt, e) = index_of z 0 ring m in ground (arith, f.before k, e)),
      (λ z m.
          let (k, lt, e) = index_of z 0 ring m in
          ground (arith, get_or_mono ring 0 k 0 s (omega arith) lt)),
    );
  })
  | inr inside ↦ rw inside (record {
    member = mem-get_or ring idx 0 (ground arith);
    nearest = inl (
      ground (arith, f.at_end idx),
      (λ z m le.
          let (k, lt, e) = index_of z 0 ring m in
          elim (Bool-cases (ltb k idx)) [
            | inl left ↦ absurd (ground (arith, f.before k))
            | inr right ↦ ground (arith, get_or_mono ring idx k 0 s (ground arith) lt)
          ]),
    );
  })
]

-- On a sorted ring that is not empty, the position of a hash is its owner.
pub position-IsOwner :
    (h : ℕ) (ring : List ℕ) → IsSorted ring → 0 < length ring → IsOwner h ring (position h ring)
unfolding position
position-IsOwner h ring s pos =
    settle-IsOwner h ring (sort_search (length ring) (λ i. leb h (get_or ring i 0))) s pos (
      sort_search-Found (λ i. leb h (get_or ring i 0)) (length ring)
        (λ k l le lt e. ground (arith, get_or_mono ring k l 0 s le lt)))

pub IsOwner-unique : (h y z : ℕ) (ring : List ℕ) → IsOwner h ring y → IsOwner h ring z → y ≡ z
IsOwner-unique h y z ring a b = elim a.nearest [
  | inl (hy, ny) ↦ elim b.nearest [
    | inl (hz, nz) ↦ omega (arith, ny z b.member hz, nz y a.member hy)
    | inr (oz, lz) ↦ absurd (omega (arith, oz y a.member))
  ]
  | inr (oy, ly) ↦ elim b.nearest [
    | inl (hz, nz) ↦ absurd (omega (arith, oy z b.member))
    | inr (oz, lz) ↦ omega (arith, ly z b.member, lz y a.member)
  ]
]

-- An owner stays the owner in a smaller ring that still holds it.
pub IsOwner-smaller :
    (h y : ℕ) (ring less : List ℕ)
    → ((z : ℕ) → mem z less ≡ true → mem z ring ≡ true)
    → mem y less ≡ true
    → IsOwner h ring y
    → IsOwner h less y
IsOwner-smaller h y ring less sub m o = record {
  member = m;
  nearest = elim o.nearest [
    | inl (hy, ny) ↦ inl (hy, λ z k. ny z (sub z k))
    | inr (oy, ly) ↦ inr ((λ z k. oy z (sub z k)), (λ z k. ly z (sub z k)))
  ];
}
