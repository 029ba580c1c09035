-- ===== src/Firecracker/Network.antt =====
-- The addresses and devices of the VMs (internal/firecracker/network.go). The commands that the manager
-- runs, the parser of addresses and the random bytes are a record of a host on a world `W`; an address is
-- a number of 32 bits.
pub mod Allocation
pub mod Creation
pub mod Leases
pub mod Steps
use function.Prelude.{
  ℕ, zero, suc, ◌+◌, ◌-◌, ◌*◌, ◌/◌, ◌%◌, ◌^◌, String, Bool, true, false, not, ◌&&◌, Option, none,
  some, List, [], ◌∷◌, ◌++◌, ltb, eqb, if◌then◌else◌, length, take, Map, lookup, set, delete,
}
use function.Prelude.Text.{bytes, decimal}
use Prim.Native.String

pub data Command : Type 0 where
  add_bridge add_address raise_bridge forward_packets masquerade forward_from forward_to : Command
  add_tap attach_tap raise_tap delete_tap : List ℕ → Command

pub record Host (W : Type 0) : Type 0 where
  pub run_command : W → Command → W × Bool
  pub has_bridge : W → Bool
  pub random_bytes : W → W × List ℕ
  pub parse_ip : String → Option ℕ

-- `config.NetworkConfig`, in which the subnet is parsed: its address and the length of its prefix.
pub record Config : Type 0 where
  pub bridge_ip : String
  pub subnet : Option (ℕ × ℕ)
  pub uses_nat : Bool

-- `NetworkConfig`; the MAC address is its six bytes.
pub record NetworkConfig : Type 0 where
  pub tap_device : List ℕ
  pub mac_address : List ℕ
  pub guest_ip : String
  pub gateway_ip : String
  pub subnet_mask : String

pub record NetworkManager : Type 0 where
  pub config : Config
  pub used_ips : Map Bool
  pub ip_by_vm : Map String
  pub tap_devices : Map (List ℕ)
  pub subnet_first : ℕ
  pub subnet_last : ℕ
  pub next_ip : ℕ
  pub netmask : String

pub data NetworkError : Type 0 where
  invalid_bridge tap_failed attach_failed raise_failed no_addresses : NetworkError

-- How the search for an address ends, by fuel.
pub data Allocated : Type 0 where
  allocated : String → Allocated
  refused : NetworkError → Allocated
  out_of_fuel : Allocated

pub data Setup : Type 0 where
  panicked endless : Setup
  failed : NetworkError → Setup
  configured : NetworkConfig → Setup

-- `uint32ToIPv4(n).String()`
unfoldable pub dotted : ℕ → String
unfolding decimal
dotted n = String.◌++◌ (decimal (n / 2 ^ 24 % 256)) (
    String.◌++◌ "." (
      String.◌++◌ (decimal (n / 2 ^ 16 % 256)) (
        String.◌++◌ "."
          (String.◌++◌ (decimal (n / 2 ^ 8 % 256)) (String.◌++◌ "." (decimal (n % 256)))))))

-- A key of a `map[string]bool`
unfoldable pub is_set : Option Bool → Bool
is_set none = false
is_set (some b) = b

unfoldable pub is_used : String → NetworkManager → Bool
unfolding is_set
is_used ip nm = is_set (lookup ip nm.used_ips)

-- The first and the last address of a subnet, of the arithmetic of `parseIPv4Subnet`.
unfoldable pub subnet_range : ℕ → ℕ → Option (ℕ × ℕ)
subnet_range address ones =
    let size = 2 ^ (32 - ones) in
    let base = address - address % size in
    if ltb 30 ones
    then none
    else some ((base + 1) % 2 ^ 32, (base + size % 2 ^ 32 + (2 ^ 32 - 2)) % 2 ^ 32)

-- `subnet.Contains`
unfoldable pub contains : ℕ → ℕ → ℕ → Bool
contains address ones ip = eqb (ip / 2 ^ (32 - ones)) (address / 2 ^ (32 - ones))

-- `nm.nextIP` after a step: uint32, back to the first address after the last.
unfoldable pub advance : NetworkManager → NetworkManager
advance nm =
    let n = (nm.next_ip + 1) % 2 ^ 32 in
    record nm { next_ip = if ltb nm.subnet_last n then nm.subnet_first else n }

unfoldable pub is_free : ℕ → ℕ → NetworkManager → Bool
unfolding is_used dotted
is_free gateway candidate nm = not (eqb candidate gateway) && not (is_used (dotted candidate) nm)

-- The loop of `allocateIPLocked`, by fuel.
unfoldable pub allocate_from : ℕ → ℕ → ℕ → NetworkManager → NetworkManager × Allocated
unfolding advance is_free
allocate_from zero gateway start nm = (nm, out_of_fuel)
allocate_from (suc fuel) gateway start nm =
    let nm' = advance nm in
    let rest = allocate_from fuel gateway start nm' in
    if is_free gateway nm.next_ip nm'
    then (nm', allocated (dotted nm.next_ip))
    else if eqb nm'.next_ip start
    then (nm', refused no_addresses)
    else rest

-- As many rounds as the subnet has addresses.
unfoldable pub allocate_parsed : Option ℕ → NetworkManager → NetworkManager × Allocated
unfolding allocate_from
allocate_parsed none nm = (nm, refused invalid_bridge)
allocate_parsed (some gateway) nm =
    allocate_from (suc (nm.subnet_last - nm.subnet_first)) gateway nm.next_ip nm

-- The first byte of a MAC address: local and unicast.
unfoldable pub mac_of : List ℕ → List ℕ
mac_of [] = []
mac_of (b ∷ bs) = (b / 4 * 4 + 2) ∷ bs

unfoldable pub release_ip : String → Option String → NetworkManager → NetworkManager
release_ip vm_id none nm = nm
release_ip vm_id (some ip) nm = record nm {
  used_ips = delete ip nm.used_ips;
  ip_by_vm = delete vm_id nm.ip_by_vm;
}

-- The device of a VM is forgotten and its address released.
unfoldable pub forget : String → NetworkManager → NetworkManager
unfolding release_ip
forget vm_id nm =
    release_ip vm_id (lookup vm_id nm.ip_by_vm)
      (record nm { tap_devices = delete vm_id nm.tap_devices })

module _ {W : Type 0} (host : Host W) where
  -- `allocateIPLocked`
  unfoldable pub allocate_ip : NetworkManager → NetworkManager × Allocated
  unfolding allocate_parsed
  allocate_ip nm = allocate_parsed (host.parse_ip nm.config.bridge_ip) nm

  -- What `SetupNetwork` records for an address.
  unfoldable pub record_address :
      String → List ℕ → W → NetworkManager → String → W × NetworkManager × Setup
  unfolding mac_of
  record_address vm_id tap w nm ip =
      let out = host.random_bytes w in
      (
        out.0,
        record nm {
          tap_devices = set vm_id tap nm.tap_devices;
          used_ips = set ip true nm.used_ips;
          ip_by_vm = set vm_id ip nm.ip_by_vm;
        },
        configured (record {
          tap_device = tap;
          mac_address = mac_of (out.1);
          guest_ip = ip;
          gateway_ip = nm.config.bridge_ip;
          subnet_mask = nm.netmask;
        }),
      )

  -- A failure that deletes the device.
  unfoldable pub undo : List ℕ → NetworkError → W → NetworkManager → W × NetworkManager × Setup
  undo tap e w nm = ((host.run_command w (delete_tap tap)).0, nm, failed e)

  unfoldable pub address_found :
      String → List ℕ → W → NetworkManager × Allocated → W × NetworkManager × Setup
  unfolding record_address undo
  address_found vm_id tap w (nm, allocated ip) = record_address vm_id tap w nm ip
  address_found vm_id tap w (nm, refused e) = undo tap e w nm
  address_found vm_id tap w (nm, out_of_fuel) = (w, nm, endless)

  unfoldable pub raised : String → List ℕ → NetworkManager → W × Bool → W × NetworkManager × Setup
  unfolding address_found undo allocate_ip
  raised vm_id tap nm (w, true) = address_found vm_id tap w (allocate_ip nm)
  raised vm_id tap nm (w, false) = undo tap raise_failed w nm

  unfoldable pub attached : String → List ℕ → NetworkManager → W × Bool → W × NetworkManager × Setup
  unfolding raised undo
  attached vm_id tap nm (w, true) = raised vm_id tap nm (host.run_command w (raise_tap tap))
  attached vm_id tap nm (w, false) = undo tap attach_failed w nm

  unfoldable pub tap_added :
      String → List ℕ → NetworkManager → W × Bool → W × NetworkManager × Setup
  unfolding attached
  tap_added vm_id tap nm (w, true) = attached vm_id tap nm (host.run_command w (attach_tap tap))
  tap_added vm_id tap nm (w, false) = (w, nm, failed tap_failed)

  -- `SetupNetwork`, whose slice of an id of fewer than eight bytes panics.
  unfoldable pub setup_network : String → W → NetworkManager → W × NetworkManager × Setup
  unfolding tap_added
  setup_network vm_id w nm =
      let tap = bytes "tap" ++ take 8 (bytes vm_id) in
      if ltb (length (bytes vm_id)) 8
      then (w, nm, panicked)
      else tap_added vm_id tap nm (host.run_command w (add_tap tap))

  unfoldable pub clean_found : String → Option (List ℕ) → W → NetworkManager → W × NetworkManager
  unfolding forget
  clean_found vm_id none w nm = (w, nm)
  clean_found vm_id (some tap) w nm = ((host.run_command w (delete_tap tap)).0, forget vm_id nm)

  -- `CleanupNetwork`
  unfoldable pub cleanup_network : String → W → NetworkManager → W × NetworkManager
  unfolding clean_found
  cleanup_network vm_id w nm = clean_found vm_id (lookup vm_id nm.tap_devices) w nm

  -- `Shutdown`: the loop over the devices.
  unfoldable pub shut_down_all : Map (List ℕ) → W → NetworkManager → W × NetworkManager
  unfolding forget
  shut_down_all [] w nm = (w, nm)
  shut_down_all ((vm_id, tap) ∷ taps) w nm =
      shut_down_all taps (host.run_command w (delete_tap tap)).0 (forget vm_id nm)

  unfoldable pub shutdown : W → NetworkManager → W × NetworkManager
  unfolding shut_down_all
  shutdown w nm = shut_down_all nm.tap_devices w nm
