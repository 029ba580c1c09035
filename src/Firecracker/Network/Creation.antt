-- ===== src/Firecracker/Network/Creation.antt =====
-- A new network manager (internal/firecracker/network.go `NewNetworkManager`, `setupBridge`,
-- `parseIPv4Subnet`).
use function.Prelude.{
  ℕ, zero, suc, ◌+◌, ◌-◌, ◌*◌, ◌/◌, ◌%◌, ◌^◌, ◌≤◌, ◌<◌, ◌≡◌, refl, sym, ap, ◌∙◌, Bool, true, false,
  not, Option, none, some, List, [], ◌∷◌, arith, if◌then◌else◌, lookup, ltb,
}
use mathlib.Core.Path.{subst}
use native.Mathlib.Nat.{
  one-mul, pow-succ', pow-le-pow_right, mul_assoc, div-lt_iff_lt-mul, mul-le-mul_right,
  div-add-mod',
}
use function.Firecracker.Network.{
  Host, Command, add_bridge, add_address, raise_bridge, forward_packets, masquerade, forward_from,
  forward_to, Config, NetworkManager, dotted, subnet_range, contains, is_set, is_used,
}
use function.Firecracker.Network.Leases.{IsLeased}

-- The manager before anything is allocated.
unfoldable pub fresh_manager : Config → ℕ → ℕ → ℕ → NetworkManager
unfolding dotted
fresh_manager config ones first last = record {
  config = config;
  used_ips = [];
  ip_by_vm = [];
  tap_devices = [];
  subnet_first = first;
  subnet_last = last;
  next_ip = first;
  netmask = dotted (2 ^ 32 - 2 ^ (32 - ones));
}

unfoldable pub contains_bridge : ℕ → ℕ → Option ℕ → Bool
unfolding contains
contains_bridge address ones none = false
contains_bridge address ones (some ip) = contains address ones ip

module _ {W : Type 0} (host : Host W) where
  -- Commands one after another, up to one that fails.
  unfoldable pub run_all : List Command → W → W × Bool
  run_all [] w = (w, true)
  run_all (c ∷ cs) w =
      let out = host.run_command w c in let rest = run_all cs (out.0) in if out.1 then rest else out

  -- The commands whose failure is only logged.
  unfoldable pub set_up_routes : Config → W → W
  unfolding run_all
  set_up_routes config w =
      let w' = (host.run_command w forward_packets).0 in
      if config.uses_nat then (run_all (masquerade ∷ forward_from ∷ forward_to ∷ []) w').0 else w'

  -- `setupBridge`
  unfoldable pub set_up_bridge : Config → W → W × Bool
  unfolding run_all set_up_routes
  set_up_bridge config w =
      let out = run_all (add_bridge ∷ add_address ∷ raise_bridge ∷ []) w in
      if host.has_bridge w
      then (w, true)
      else if out.1
      then (set_up_routes config (out.0), true)
      else out

  unfoldable pub with_range : Config → ℕ → ℕ → Option (ℕ × ℕ) → W → W × Option NetworkManager
  unfolding contains_bridge set_up_bridge fresh_manager
  with_range config address ones none w = (w, none)
  with_range config address ones (some (first, last)) w =
      let out = set_up_bridge config w in
      if not (contains_bridge address ones (host.parse_ip config.bridge_ip))
      then (w, none)
      else if out.1
      then (out.0, some (fresh_manager config ones first last))
      else (out.0, none)

  unfoldable pub with_subnet : Config → Option (ℕ × ℕ) → W → W × Option NetworkManager
  unfolding with_range subnet_range
  with_subnet config none w = (w, none)
  with_subnet config (some (address, ones)) w =
      with_range config address ones (subnet_range address ones) w

  -- `NewNetworkManager`, whose errors are `none`.
  unfoldable pub new_network_manager : Config → W → W × Option NetworkManager
  unfolding with_subnet
  new_network_manager config w = with_subnet config config.subnet w

pow_add : (i j : ℕ) → 2 ^ (i + j) ≡ 2 ^ i * 2 ^ j
pow_add zero j = let left : 0 + j ≡ j = omega arith in ap (λ n. 2 ^ n) left ∙ sym (one-mul (2 ^ j))
pow_add (suc i) j =
    let one_more : suc i + j ≡ suc (i + j) = omega arith in
    ap (λ n. 2 ^ n) one_more
    ∙ pow-succ' 2 (i + j)
    ∙ ap (λ n. 2 * n) (pow_add i j)
    ∙ sym (mul_assoc 2 (2 ^ i) (2 ^ j))
    ∙ ap (λ n. n * 2 ^ j) (sym (pow-succ' 2 i))

-- A block of `size` that starts below `q * size` ends there at most.
block_end : (q size a : ℕ) → 0 < size → a < q * size → a - a % size + size ≤ q * size
block_end q size a positive below =
    let whole : a / size < q = (div-lt_iff_lt-mul positive).1 below in
    let bound : suc (a / size) * size ≤ q * size = mul-le-mul_right size whole in
    omega (arith, bound, div-add-mod' a size)

size_low : (ones : ℕ) → ones ≤ 30 → 4 ≤ 2 ^ (32 - ones)
size_low ones h = pow-le-pow_right {n = 2} (omega arith) {i = 2} {j = 32 - ones} (omega (arith, h))

size_split : (ones : ℕ) → ones ≤ 30 → 2 ^ ones * 2 ^ (32 - ones) ≡ 2 ^ 32
size_split ones h =
    let whole : ones + (32 - ones) ≡ 32 = omega (arith, h) in
    sym (pow_add ones (32 - ones)) ∙ ap (λ n. 2 ^ n) whole

-- The arithmetic of uint32 on a block.
block_range :
    (size base first last : ℕ)
    → 4 ≤ size
    → base + size ≤ 2 ^ 32
    → (base + 1) % 2 ^ 32 ≡ first
    → (base + size % 2 ^ 32 + (2 ^ 32 - 2)) % 2 ^ 32 ≡ last
    → (first ≤ last) × (last + 2 ≤ 2 ^ 32) × (last + 3 ≡ first + size)
block_range size base first last h k e f =
    (omega (arith, h, k, e, f), omega (arith, h, k, e, f), omega (arith, h, k, e, f))

range_made :
    (b : Bool) (x y first last : ℕ)
    → if◌then◌else◌ {A = Option (ℕ × ℕ)} b none (some (x, y)) ≡ some (first, last)
    → (b ≡ false) × (x ≡ first) × (y ≡ last)
range_made true x y first last h = cc h
range_made false x y first last h = (refl, cc h, cc h)

-- The addresses of a subnet are a range of 32-bit numbers, two fewer than the block's.
pub subnet_range_lem :
    (address ones first last : ℕ)
    → address < 2 ^ 32
    → subnet_range address ones ≡ some (first, last)
    → (first ≤ last) × (last + 2 ≤ 2 ^ 32) × (last + 3 ≡ first + 2 ^ (32 - ones))
unfolding subnet_range
subnet_range_lem address ones first last h e =
    let size = 2 ^ (32 - ones) in
    let base = address - address % size in
    let (short, low_end, high_end) =
      range_made (ltb 30 ones) ((base + 1) % 2 ^ 32)
        ((base + size % 2 ^ 32 + (2 ^ 32 - 2)) % 2 ^ 32) first last e in
    let low : ones ≤ 30 = ground (arith, short) in
    let large : 4 ≤ size = size_low ones low in
    let end : base + size ≤ 2 ^ ones * size =
      block_end (2 ^ ones) size address (omega (arith, large)) (rw (size_split ones low) h) in
    block_range size base first last large (omega (arith, end, size_split ones low)) low_end
      high_end

module _ {W : Type 0} (host : Host W) where
  fresh-IsLeased :
      (config : Config) (ones first last gateway : ℕ)
      → host.parse_ip config.bridge_ip ≡ some gateway
      → first ≤ last
      → last + 2 ≤ 2 ^ 32
      → IsLeased host gateway (fresh_manager config ones first last)
  unfolding fresh_manager lookup is_used is_set
  fresh-IsLeased config ones first last gateway parsed ordered bounded = record {
    ranged = record { above = omega arith; below = ordered; bounded = bounded };
    parsed = parsed;
    used = λ vm ip h. absurd (ground (arith, h));
    address = λ vm ip h. absurd (ground (arith, h));
    apart = λ vm vm' ip h k. absurd (ground (arith, h));
    owned = λ ip h. absurd (ground (arith, h));
    devices = λ vm h. refl;
  }

  if_made :
      (b c : Bool) (w w' w'' : W) (m nm : NetworkManager)
      → (if◌then◌else◌ {A = W × Option NetworkManager} b
          (w, none)
          (if◌then◌else◌ {A = W × Option NetworkManager} c (w', some m) (w'', none))).1
        ≡ some nm
      → m ≡ nm
  if_made true c w w' w'' m nm h = cc h
  if_made false true w w' w'' m nm h = cc h
  if_made false false w w' w'' m nm h = cc h

  with_range-IsLeased :
      (config : Config) (w : W) (gateway address ones : ℕ) (nm : NetworkManager)
      (o : Option (ℕ × ℕ))
      → host.parse_ip config.bridge_ip ≡ some gateway
      → address < 2 ^ 32
      → subnet_range address ones ≡ o
      → (with_range host config address ones o w).1 ≡ some nm
      → IsLeased host gateway nm
        × (nm.tap_devices ≡ [])
        × (nm.subnet_last + 3 ≡ nm.subnet_first + 2 ^ (32 - ones))
  unfolding with_range fresh_manager
  with_range-IsLeased config w gateway address ones nm none parsed bound h e = cc e
  with_range-IsLeased config w gateway address ones nm (some (first, last)) parsed bound h e =
      let (ordered, below, size) = subnet_range_lem address ones first last bound h in
      let out = set_up_bridge host config w in
      subst
        (λ m.
          IsLeased host gateway m
          × (m.tap_devices ≡ [])
          × (m.subnet_last + 3 ≡ m.subnet_first + 2 ^ (32 - ones)))
        (if_made (not (contains_bridge address ones (host.parse_ip config.bridge_ip))) (out.1) w
          (out.0) (out.0) (fresh_manager config ones first last) nm e)
        (fresh-IsLeased config ones first last gateway parsed ordered below, refl, size)

  -- A manager that is made has no VM, and addresses in its subnet to give.
  pub new_network_manager-IsLeased :
      (config : Config) (w : W) (gateway address ones : ℕ) (nm : NetworkManager)
      → host.parse_ip config.bridge_ip ≡ some gateway
      → config.subnet ≡ some (address, ones)
      → address < 2 ^ 32
      → (new_network_manager host config w).1 ≡ some nm
      → IsLeased host gateway nm
        × (nm.tap_devices ≡ [])
        × (nm.subnet_last + 3 ≡ nm.subnet_first + 2 ^ (32 - ones))
  unfolding new_network_manager with_subnet
  new_network_manager-IsLeased config w gateway address ones nm parsed h bound e =
      with_range-IsLeased config w gateway address ones nm (subnet_range address ones) parsed bound
        refl (ap (λ o. (with_subnet host config o w).1) (sym h) ∙ e)
