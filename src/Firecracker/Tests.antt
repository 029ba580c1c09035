-- ===== src/Firecracker/Tests.antt =====
-- Runs of the network manager on a small subnet, and the theorems at inputs that meet their hypotheses.
mod Messages
use function.Prelude.{
  ℕ, ◌+◌, ◌*◌, ◌^◌, ◌≡◌, refl, true, false, none, some, [], ◌∷◌, arith, if◌then◌else◌, lookup, set,
  ◌==◌,
}
use function.Prelude.Text.{bytes}
use function.Firecracker.Network.{
  Host, Config, NetworkManager, failed, panicked, no_addresses, setup_network,
}
use function.Firecracker.Network.Creation.{
  fresh_manager, new_network_manager, new_network_manager-IsLeased,
}
use function.Firecracker.Network.Leases.{IsLeased}
use function.Firecracker.Network.Steps.{
  SetsUp, setup_network-SetsUp, here, next, sets_up, new_network_manager_lem,
}

abbrev gateway : ℕ
gateway = 10 * 2 ^ 24 + 1

-- A host whose commands succeed, and that knows one address.
abbrev host : Host ℕ
host = record {
  run_command = λ w c. (w, true);
  has_bridge = λ w. false;
  random_bytes = λ w. (w, 1 ∷ 2 ∷ 3 ∷ 4 ∷ 5 ∷ 6 ∷ []);
  parse_ip = λ s. if s == "10.0.0.1" then some gateway else none;
}

abbrev config : Config
config = record { bridge_ip = "10.0.0.1"; subnet = some (10 * 2 ^ 24, 30); uses_nat = true }

-- A subnet of two addresses, one of which is the gateway's.
abbrev small : NetworkManager
small = fresh_manager config 30 (10 * 2 ^ 24 + 1) (10 * 2 ^ 24 + 2)

made : (new_network_manager host config 0).1 ≡ some small
unfolding new_network_manager fresh_manager
made = refl

abbrev with_one : NetworkManager
with_one = (setup_network host "vm-00001" 0 small).1

setup_runs :
    (lookup "vm-00001" with_one.ip_by_vm ≡ some "10.0.0.2")
    × ((setup_network host "vm-00002" 0 with_one).2 ≡ failed no_addresses)
    × ((setup_network host "vm" 0 small).2 ≡ panicked)
unfolding setup_network fresh_manager lookup bytes set
setup_runs = (refl, refl, refl)

small-IsLeased : IsLeased host gateway small
small-IsLeased =
    (new_network_manager-IsLeased host config 0 gateway (10 * 2 ^ 24) 30 small refl refl
      (omega arith) made).0

no_device : lookup "vm-00001" small.tap_devices ≡ none
unfolding fresh_manager lookup
no_device = refl

setup_network-SetsUp_example :
    SetsUp host gateway "vm-00001" 0 small (setup_network host "vm-00001" 0 small)
setup_network-SetsUp_example =
    setup_network-SetsUp host gateway "vm-00001" 0 small small-IsLeased no_device

new_network_manager_lem_example : IsLeased host gateway with_one
new_network_manager_lem_example =
    new_network_manager_lem host gateway config 0 0 (10 * 2 ^ 24) 30 small
      ((setup_network host "vm-00001" 0 small).0, with_one) refl refl (omega arith) made
      (next here (sets_up "vm-00001" no_device))
