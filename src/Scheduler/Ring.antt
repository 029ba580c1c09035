-- ===== src/Scheduler/Ring.antt =====
-- The consistent hash ring of the session router (internal/scheduler/session_router.go,
-- `ConsistentHash`). The map `nodes` is a function; a missing key reads as "".
pub mod Search
pub mod Owner
pub mod Moves
pub mod Removal
use function.Prelude.{
  ℕ, zero, suc, ◌+◌, ◌*◌, ◌/◌, ◌%◌, ◌^◌, String, Bool, Option, none, some, List, [], ◌∷◌, ◌++◌, ltb,
  leb, eqb, if◌then◌else◌, length, ◌==◌,
}
use Prim.Native.Nat.{bit_xor}
use Prim.Native.String
use function.Prelude.Text.{bytes, decimal}

pub record ConsistentHash : Type 0 where
  pub replicas : ℕ
  pub ring : List ℕ
  pub nodes : ℕ → Option String

fnv_step : ℕ → List ℕ → ℕ
fnv_step h [] = h
fnv_step h (b ∷ bs) = fnv_step (bit_xor h b * 16777619 % 2 ^ 32) bs

-- `hash`: 32-bit FNV-1a of the bytes of the key.
unfoldable pub hash : String → ℕ
unfolding fnv_step bytes
hash key = fnv_step 2166136261 (bytes key)

-- `sort.Search` over `[i, j)`; the fuel bounds the rounds.
unfoldable pub search_from : ℕ → (ℕ → Bool) → ℕ → ℕ → ℕ
search_from zero f i j = i
search_from (suc fuel) f i j =
    let h = (i + j) / 2 in
    let left = search_from fuel f i h in
    let right = search_from fuel f (h + 1) j in if ltb i j then (if f h then left else right) else i

unfoldable pub sort_search : ℕ → (ℕ → Bool) → ℕ
sort_search n f = search_from n f 0 n

insert : ℕ → List ℕ → List ℕ
insert x [] = x ∷ []
insert x (y ∷ ys) = if leb x y then x ∷ y ∷ ys else y ∷ insert x ys

-- `sort.Slice` by `<`: a sorted list of numbers is determined by its members.
unfoldable pub sort : List ℕ → List ℕ
unfolding insert
sort [] = []
sort (x ∷ xs) = insert x (sort xs)

abbrev pub update : (ℕ → Option String) → ℕ → Option String → ℕ → Option String
update f h v k = if eqb h k then v else f k

-- `NewConsistentHash`
unfoldable pub new_consistent_hash : ℕ → ConsistentHash
new_consistent_hash replicas = record { replicas = replicas; ring = []; nodes = λ h. none }

-- The hashes of the virtual nodes `from`, `from + 1`, … of a node.
unfoldable pub virtual_nodes : String → ℕ → ℕ → List ℕ
virtual_nodes node zero from = []
virtual_nodes node (suc n) from =
    hash (String.◌++◌ node (String.◌++◌ ":" (decimal from))) ∷ virtual_nodes node n (from + 1)

unfoldable pub assign : List ℕ → String → (ℕ → Option String) → ℕ → Option String
assign [] node f = f
assign (h ∷ hs) node f = assign hs node (update f h (some node))

-- `Add`
unfoldable pub add : String → ConsistentHash → ConsistentHash
unfolding virtual_nodes assign sort
add node c =
    let hs = virtual_nodes node c.replicas 0 in
    record c { ring = sort (c.ring ++ hs); nodes = assign hs node c.nodes }

abbrev pub read : Option String → String
read none = ""
read (some s) = s

-- The loop of `Remove`; the map shrinks while the ring is walked.
unfoldable pub remove_loop : String → List ℕ → (ℕ → Option String) → List ℕ × (ℕ → Option String)
remove_loop node [] f = ([], f)
remove_loop node (h ∷ hs) f =
    let gone = remove_loop node hs (update f h none) in
    let kept = remove_loop node hs f in if read (f h) == node then gone else (h ∷ kept.0, kept.1)

-- `Remove`
unfoldable pub remove : String → ConsistentHash → ConsistentHash
unfolding remove_loop
remove node c =
    let (ring, nodes) = remove_loop node c.ring c.nodes in record c { ring = ring; nodes = nodes }

abbrev pub get_or : List ℕ → ℕ → ℕ → ℕ
get_or [] i d = d
get_or (x ∷ xs) zero d = x
get_or (x ∷ xs) (suc i) d = get_or xs i d

-- The hash on the ring that `Get` settles on.
unfoldable pub position : ℕ → List ℕ → ℕ
unfolding sort_search search_from
position h ring =
    let idx = sort_search (length ring) (λ i. leb h (get_or ring i 0)) in
    get_or ring (if leb (length ring) idx then 0 else idx) 0

get_from : List ℕ → String → (ℕ → Option String) → String
unfolding position
get_from [] key nodes = ""
get_from (x ∷ xs) key nodes = read (nodes (position (hash key) (x ∷ xs)))

-- `Get`
unfoldable pub get : String → ConsistentHash → String
unfolding get_from
get key c = get_from c.ring key c.nodes

-- `Size`
unfoldable pub size : ConsistentHash → ℕ
size c = length c.ring / c.replicas

-- `UpdateHashRing`: a fresh ring with the given VMs.
unfoldable pub add_all : List String → ConsistentHash → ConsistentHash
add_all [] c = c
add_all (v ∷ vs) c = add_all vs (add v c)

unfoldable pub update_hash_ring : List String → ConsistentHash
unfolding add_all new_consistent_hash
update_hash_ring vm_ids = add_all vm_ids (new_consistent_hash 100)
