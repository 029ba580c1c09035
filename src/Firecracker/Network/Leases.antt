-- ===== src/Firecracker/Network/Leases.antt =====
-- Which VM has which address (internal/firecracker/network.go `SetupNetwork`, `CleanupNetwork`,
-- `Shutdown`).
use function.Prelude.{
  ℕ, String, ◌≡◌, refl, sym, ◌∙◌, Bool, true, false, Option, none, some, List, arith, if◌then◌else◌,
  Map, lookup, set, delete, lookup-set, lookup-delete, eq_iff, eq_refl, ◌==◌,
}
use mathlib.Core.Path.{subst}
use function.Firecracker.Network.{Host, NetworkManager, is_set, is_used, release_ip, forget}
use function.Firecracker.Network.Allocation.{IsRanged, Moved, IsAddress}

module _ {W : Type 0} (host : Host W) (gateway : ℕ) where
  -- Each VM's address is used, of the subnet and not the gateway's, no two VMs have the same, and each
  -- used address is a VM's that has a device.
  pub record IsLeased (nm : NetworkManager) : Type 0 where
    pub ranged : IsRanged nm
    pub parsed : host.parse_ip nm.config.bridge_ip ≡ some gateway
    pub used : (vm ip : String) → lookup vm nm.ip_by_vm ≡ some ip → is_used ip nm ≡ true
    pub address : (vm ip : String) → lookup vm nm.ip_by_vm ≡ some ip → IsAddress gateway nm ip
    pub apart :
        (vm vm' ip : String)
        → lookup vm nm.ip_by_vm ≡ some ip
        → lookup vm' nm.ip_by_vm ≡ some ip
        → vm ≡ vm'
    pub owned :
        (ip : String) → is_used ip nm ≡ true → (vm : String) × (lookup vm nm.ip_by_vm ≡ some ip)
    pub devices : (vm : String) → lookup vm nm.tap_devices ≡ none → lookup vm nm.ip_by_vm ≡ none

  pub Moved-IsLeased : (nm nm' : NetworkManager) → Moved nm nm' → IsLeased nm → IsLeased nm'
  unfolding is_used
  Moved-IsLeased nm nm' (k, above, below, e) l = subst IsLeased (sym e) (record {
    ranged = record { above = above; below = below; bounded = l.ranged.bounded };
    parsed = l.parsed;
    used = l.used;
    address = l.address;
    apart = l.apart;
    owned = l.owned;
    devices = l.devices;
  })

  -- What a set-up records.
  unfoldable pub leased : String → String → List ℕ → NetworkManager → NetworkManager
  leased vm ip tap nm = record nm {
    tap_devices = set vm tap nm.tap_devices;
    used_ips = set ip true nm.used_ips;
    ip_by_vm = set vm ip nm.ip_by_vm;
  }

  owner_of :
      (vm ip ip' : String) (m : Map String) (b : Bool)
      → (ip == ip') ≡ b
      → lookup vm m ≡ none
      → (b ≡ false → (vm' : String) × (lookup vm' m ≡ some ip'))
      → (vm' : String) × (lookup vm' (set vm ip m) ≡ some ip')
  owner_of vm ip ip' m true e free old =
      (vm, lookup-set vm vm ip m ∙ ground (arith, eq_refl vm, eq_iff ip ip'))
  owner_of vm ip ip' m false e free old =
      let (vm', h) = old refl in
      (vm', lookup-set vm vm' ip m ∙ ground (arith, eq_iff vm vm', h, free))

  lease_of :
      (vm vm' ip ip' : String) (tap : List ℕ) (nm : NetworkManager) (b : Bool)
      → (vm == vm') ≡ b
      → IsAddress gateway nm ip
      → (lookup vm' nm.ip_by_vm ≡ some ip' → IsAddress gateway nm ip')
      → (if b then some ip else lookup vm' nm.ip_by_vm) ≡ some ip'
      → IsAddress gateway nm ip'
  lease_of vm vm' ip ip' tap nm true e new old h = subst (IsAddress gateway nm) (cc h) new
  lease_of vm vm' ip ip' tap nm false e new old h = old h

  pub leased-IsLeased :
      (vm ip : String) (tap : List ℕ) (nm : NetworkManager)
      → IsLeased nm
      → lookup vm nm.ip_by_vm ≡ none
      → IsAddress gateway nm ip
      → is_used ip nm ≡ false
      → IsLeased (leased vm ip tap nm)
  unfolding leased is_used is_set
  leased-IsLeased vm ip tap nm l free new unused = record {
    ranged = record { above = l.ranged.above; below = l.ranged.below; bounded = l.ranged.bounded };
    parsed = l.parsed;
    used = λ vm' ip' h. ground (
      arith,
      lookup-set vm vm' ip nm.ip_by_vm,
      lookup-set ip ip' true nm.used_ips,
      l.used vm' ip',
      eq_iff ip ip',
    );
    address = λ vm' ip' h.
        lease_of vm vm' ip ip' tap nm (vm == vm') refl new (l.address vm' ip')
          (sym (lookup-set vm vm' ip nm.ip_by_vm) ∙ h);
    apart = λ v v' ip' h k. ground (
      arith,
      lookup-set vm v ip nm.ip_by_vm,
      lookup-set vm v' ip nm.ip_by_vm,
      l.used v ip',
      l.used v' ip',
      l.apart v v' ip',
      eq_iff vm v,
      eq_iff vm v',
    );
    owned = λ ip' h.
        owner_of vm ip ip' nm.ip_by_vm (ip == ip') refl free
          (λ other. l.owned ip' (ground (arith, lookup-set ip ip' true nm.used_ips)));
    devices = λ vm' h. ground (
      arith,
      lookup-set vm vm' ip nm.ip_by_vm,
      lookup-set vm vm' tap nm.tap_devices,
      l.devices vm',
    );
  }

  owner_kept :
      (vm ip ip' : String) (nm : NetworkManager)
      → lookup vm nm.ip_by_vm ≡ some ip
      → (ip == ip') ≡ false
      → (vm' : String) × (lookup vm' nm.ip_by_vm ≡ some ip')
      → (vm' : String) × (lookup vm' (delete vm nm.ip_by_vm) ≡ some ip')
  owner_kept vm ip ip' nm h other (vm', k) =
      (vm', lookup-delete vm vm' nm.ip_by_vm ∙ ground (arith, eq_iff vm vm', eq_iff ip ip', h, k))

  release_ip-IsLeased :
      (vm : String) (o : Option String) (nm : NetworkManager)
      → lookup vm nm.ip_by_vm ≡ o
      → IsLeased nm
      → IsLeased (release_ip vm o (record nm { tap_devices = delete vm nm.tap_devices }))
  unfolding release_ip is_used is_set
  release_ip-IsLeased vm none nm e l = record {
    ranged = record { above = l.ranged.above; below = l.ranged.below; bounded = l.ranged.bounded };
    parsed = l.parsed;
    used = l.used;
    address = l.address;
    apart = l.apart;
    owned = l.owned;
    devices = λ vm' h.
        ground (arith, lookup-delete vm vm' nm.tap_devices, l.devices vm', eq_iff vm vm', e);
  }
  release_ip-IsLeased vm (some ip) nm e l = record {
    ranged = record { above = l.ranged.above; below = l.ranged.below; bounded = l.ranged.bounded };
    parsed = l.parsed;
    used = λ vm' ip' h. ground (
      arith,
      lookup-delete vm vm' nm.ip_by_vm,
      lookup-delete ip ip' nm.used_ips,
      l.used vm' ip',
      l.apart vm vm' ip',
      eq_iff ip ip',
      eq_iff vm vm',
      e,
    );
    address = λ vm' ip' h. l.address vm' ip' (ground (arith, lookup-delete vm vm' nm.ip_by_vm));
    apart = λ v v' ip' h k.
        l.apart v v' ip' (ground (arith, lookup-delete vm v nm.ip_by_vm))
          (ground (arith, lookup-delete vm v' nm.ip_by_vm));
    owned = λ ip' h.
        let other : (ip == ip') ≡ false = ground (arith, lookup-delete ip ip' nm.used_ips) in
        owner_kept vm ip ip' nm e other
          (l.owned ip' (ground (arith, lookup-delete ip ip' nm.used_ips)));
    devices = λ vm' h. ground (
      arith,
      lookup-delete vm vm' nm.tap_devices,
      lookup-delete vm vm' nm.ip_by_vm,
      l.devices vm',
    );
  }

  pub forget-IsLeased : (vm : String) (nm : NetworkManager) → IsLeased nm → IsLeased (forget vm nm)
  unfolding forget
  forget-IsLeased vm nm l = release_ip-IsLeased vm (lookup vm nm.ip_by_vm) nm refl l
