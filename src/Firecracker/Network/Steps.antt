-- ===== src/Firecracker/Network/Steps.antt =====
-- The operations of the network manager one after another (internal/firecracker/network.go).
use function.Prelude.{
  ℕ, ◌^◌, ◌<◌, String, ◌≡◌, refl, sym, ap, ◌∙◌, Bool, true, false, Option, none, some, List, [],
  ◌∷◌, ◌++◌, arith, if◌then◌else◌, Bool-cases, inl, inr, Map, lookup, lookup-set, lookup-delete,
  keys, elem, Option-cases, eq_iff, eq_refl, ◌==◌, length, ltb, take,
}
use mathlib.Core.Path.{subst}
use function.Prelude.Text.{bytes}
use function.Firecracker.Network.{
  Config, Host, NetworkManager, no_addresses, invalid_bridge, tap_failed, attach_failed,
  raise_failed, panicked, add_tap, attach_tap, raise_tap, Setup, configured, failed, endless,
  Allocated, allocated, refused, out_of_fuel, is_used, allocate_ip, record_address, undo,
  address_found, raised, attached, tap_added, setup_network, release_ip, forget, clean_found,
  cleanup_network, shut_down_all, shutdown,
}
use function.Firecracker.Network.Allocation.{IsFull, Allocates, allocate_parsed-Allocates}
use function.Firecracker.Network.Creation.{new_network_manager, new_network_manager-IsLeased}
use function.Firecracker.Network.Leases.{
  IsLeased, Moved-IsLeased, leased, leased-IsLeased, forget-IsLeased,
}

module _ {W : Type 0} (host : Host W) (gateway : ℕ) where
  abbrev tap_of : String → List ℕ
  tap_of vm = bytes "tap" ++ take 8 (bytes vm)

  -- The three commands of a set-up, each run if the ones before succeed.
  abbrev pub adding : String → W → W × Bool
  adding vm w = host.run_command w (add_tap (tap_of vm))

  abbrev pub attaching : String → W → W × Bool
  attaching vm w = host.run_command (adding vm w).0 (attach_tap (tap_of vm))

  abbrev pub raising : String → W → W × Bool
  raising vm w = host.run_command (attaching vm w).0 (raise_tap (tap_of vm))

  -- What a set-up answers: an address that was not used and now is the VM's; an error of a command that
  -- failed; that there is no address, only if each is used. It panics only for a short id, and it does not
  -- run for ever.
  abbrev pub Outcome : String → W → NetworkManager → NetworkManager → Setup → Type 0
  Outcome vm w nm nm' (configured c) =
      (lookup vm nm'.ip_by_vm ≡ some c.guest_ip) × (is_used c.guest_ip nm ≡ false)
  Outcome vm w nm nm' (failed no_addresses) = IsFull gateway nm
  Outcome vm w nm nm' (failed invalid_bridge) = ⊥
  Outcome vm w nm nm' (failed tap_failed) = (adding vm w).1 ≡ false
  Outcome vm w nm nm' (failed attach_failed) = (attaching vm w).1 ≡ false
  Outcome vm w nm nm' (failed raise_failed) = (raising vm w).1 ≡ false
  Outcome vm w nm nm' panicked = ltb (length (bytes vm)) 8 ≡ true
  Outcome vm w nm nm' endless = ⊥

  abbrev pub SetsUp : String → W → NetworkManager → W × NetworkManager × Setup → Type 0
  SetsUp vm w nm out = IsLeased host gateway (out.1) × Outcome vm w nm (out.1) (out.2)

  address_found-SetsUp :
      (vm : String) (start : W) (tap : List ℕ) (w : W) (nm : NetworkManager)
      (out : NetworkManager × Allocated)
      → IsLeased host gateway nm
      → lookup vm nm.ip_by_vm ≡ none
      → Allocates gateway nm out
      → SetsUp vm start nm (address_found host vm tap w out)
  unfolding address_found record_address undo leased is_used
  address_found-SetsUp vm start tap w nm (nm', allocated ip) l free
        ((k, above, below, e), (new, unused)) =
      let m : NetworkManager = record nm { next_ip = k } in
      let moved : IsLeased host gateway m =
        Moved-IsLeased host gateway nm m (k, above, below, refl) l in
      subst (λ n. SetsUp vm start nm (address_found host vm tap w (n, allocated ip))) (sym e)
        (
          leased-IsLeased host gateway vm ip tap m moved free new unused,
          (lookup-set vm vm ip nm.ip_by_vm ∙ ground (arith, eq_refl vm), unused),
        )
  address_found-SetsUp vm start tap w nm (nm', refused x) l free (moved, (e, full)) = (
    Moved-IsLeased host gateway nm nm' moved l,
    subst (λ y. Outcome vm start nm nm' (failed y)) (sym e) full,
  )
  address_found-SetsUp vm start tap w nm (nm', out_of_fuel) l free a = absurd a.1

  raised-SetsUp :
      (vm : String) (start : W) (nm : NetworkManager) (out : W × Bool)
      → out ≡ raising vm start
      → IsLeased host gateway nm
      → lookup vm nm.ip_by_vm ≡ none
      → SetsUp vm start nm (raised host vm (tap_of vm) nm out)
  unfolding raised undo allocate_ip
  raised-SetsUp vm start nm (w, true) ran l free =
      address_found-SetsUp vm start (tap_of vm) w nm (allocate_ip host nm) l free
        (rw (l.parsed) (allocate_parsed-Allocates gateway nm l.ranged))
  raised-SetsUp vm start nm (w, false) ran l free = (l, sym (ap (λ x. x.1) ran))

  attached-SetsUp :
      (vm : String) (start : W) (nm : NetworkManager) (out : W × Bool)
      → out ≡ attaching vm start
      → IsLeased host gateway nm
      → lookup vm nm.ip_by_vm ≡ none
      → SetsUp vm start nm (attached host vm (tap_of vm) nm out)
  unfolding attached undo
  attached-SetsUp vm start nm (w, true) ran l free =
      raised-SetsUp vm start nm (host.run_command w (raise_tap (tap_of vm)))
        (ap (λ x. host.run_command x.0 (raise_tap (tap_of vm))) ran) l free
  attached-SetsUp vm start nm (w, false) ran l free = (l, sym (ap (λ x. x.1) ran))

  tap_added-SetsUp :
      (vm : String) (start : W) (nm : NetworkManager) (out : W × Bool)
      → out ≡ adding vm start
      → IsLeased host gateway nm
      → lookup vm nm.ip_by_vm ≡ none
      → SetsUp vm start nm (tap_added host vm (tap_of vm) nm out)
  unfolding tap_added
  tap_added-SetsUp vm start nm (w, true) ran l free =
      attached-SetsUp vm start nm (host.run_command w (attach_tap (tap_of vm)))
        (ap (λ x. host.run_command x.0 (attach_tap (tap_of vm))) ran) l free
  tap_added-SetsUp vm start nm (w, false) ran l free = (l, sym (ap (λ x. x.1) ran))

  -- A set-up of a VM that has no device, whatever the host answers: the addresses stay each one VM's, and
  -- it ends with an address that was free and now is the VM's; or with the error of a command of it that
  -- failed; or with the error that there is no address, only if each address of the subnet but the
  -- gateway's is used; or it panics, only for an id of fewer than eight bytes.
  pub setup_network-SetsUp :
      (vm : String) (w : W) (nm : NetworkManager)
      → IsLeased host gateway nm
      → lookup vm nm.tap_devices ≡ none
      → SetsUp vm w nm (setup_network host vm w nm)
  unfolding setup_network
  setup_network-SetsUp vm w nm l free = elim (Bool-cases (ltb (length (bytes vm)) 8)) [
    | inl short ↦ rw short (l, short)
    | inr long ↦ rw long (tap_added-SetsUp vm w nm (adding vm w) refl l (l.devices vm free))
  ]

  clean_found-IsLeased :
      (vm : String) (o : Option (List ℕ)) (w : W) (nm : NetworkManager)
      → IsLeased host gateway nm
      → IsLeased host gateway (clean_found host vm o w nm).1
  unfolding clean_found
  clean_found-IsLeased vm none w nm l = l
  clean_found-IsLeased vm (some tap) w nm l = forget-IsLeased host gateway vm nm l

  shut_down_all-IsLeased :
      (taps : Map (List ℕ)) (w : W) (nm : NetworkManager)
      → IsLeased host gateway nm
      → IsLeased host gateway (shut_down_all host taps w nm).1
  unfolding shut_down_all
  shut_down_all-IsLeased [] w nm l = l
  shut_down_all-IsLeased ((vm, tap) ∷ taps) w nm l =
      shut_down_all-IsLeased taps _ (forget vm nm) (forget-IsLeased host gateway vm nm l)

  forget-tap_devices :
      (vm v : String) (nm : NetworkManager)
      → lookup v (forget vm nm).tap_devices ≡ (if vm == v then none else lookup v nm.tap_devices)
  unfolding forget
  forget-tap_devices vm v nm = elim (Option-cases (lookup vm nm.ip_by_vm)) [
    | inl free ↦ rw free (unfold release_ip in lookup-delete vm v nm.tap_devices)
    | inr (ip, held) ↦ rw held (unfold release_ip in lookup-delete vm v nm.tap_devices)
  ]

  shut_down_all-tap_devices :
      (taps : Map (List ℕ)) (w : W) (nm : NetworkManager) (v : String)
      → lookup v (shut_down_all host taps w nm).1.tap_devices
        ≡ (if elem v (keys taps) then none else lookup v nm.tap_devices)
  unfolding shut_down_all elem
  shut_down_all-tap_devices [] w nm v = refl
  shut_down_all-tap_devices ((vm, tap) ∷ taps) w nm v =
      shut_down_all-tap_devices taps _ (forget vm nm) v
      ∙ ground (arith, forget-tap_devices vm v nm, eq_iff vm v, eq_iff v vm)

  all_gone : (v : String) (m : Map (List ℕ)) → (if elem v (keys m) then none else lookup v m) ≡ none
  unfolding elem lookup
  all_gone v [] = refl
  all_gone v ((k, x) ∷ m) = ground (arith, all_gone v m, eq_iff k v, eq_iff v k)

  unowned :
      (nm : NetworkManager) (ip : String)
      → ((vm : String) → lookup vm nm.ip_by_vm ≡ none)
      → IsLeased host gateway nm
      → (b : Bool) → is_used ip nm ≡ b
      → b ≡ false
  unowned nm ip none_held l true e =
      let (vm, h) = l.owned ip e in absurd (ground (arith, h, none_held vm))
  unowned nm ip none_held l false e = refl

  -- After a shutdown no VM has a device, and every address is free.
  pub shutdown_frees :
      (w : W) (nm : NetworkManager)
      → IsLeased host gateway nm
      → ((vm : String) → lookup vm (shutdown host w nm).1.tap_devices ≡ none)
        × ((ip : String) → is_used ip (shutdown host w nm).1 ≡ false)
  unfolding shutdown
  shutdown_frees w nm l =
      let out = shut_down_all host nm.tap_devices w nm in
      let gone = λ (vm : String).
        shut_down_all-tap_devices nm.tap_devices w nm vm ∙ all_gone vm nm.tap_devices in
      let kept = shut_down_all-IsLeased nm.tap_devices w nm l in
      (
        gone,
        λ ip. unowned (out.1) ip (λ vm. kept.devices vm (gone vm)) kept (is_used ip (out.1)) refl,
      )

  -- The operations; a VM is set up while it has no device.
  pub data Step : W × NetworkManager → W × NetworkManager → Type 0 where
    sets_up :
        {w : W} {nm : NetworkManager} (vm : String)
        → lookup vm nm.tap_devices ≡ none
        → Step (w, nm) ((setup_network host vm w nm).0, (setup_network host vm w nm).1)
    cleans_up :
        {w : W} {nm : NetworkManager} (vm : String) → Step (w, nm) (cleanup_network host vm w nm)
    shuts_down : {w : W} {nm : NetworkManager} → Step (w, nm) (shutdown host w nm)

  pub data Reach (s : W × NetworkManager) : W × NetworkManager → Type 0 where
    here : Reach s s
    next : {t u : W × NetworkManager} → Reach s t → Step t u → Reach s u

  Step-IsLeased :
      {s t : W × NetworkManager}
      → Step s t
      → IsLeased host gateway (s.1)
      → IsLeased host gateway (t.1)
  unfolding cleanup_network shutdown
  Step-IsLeased (sets_up {w} {nm} vm free) l = (setup_network-SetsUp vm w nm l free).0
  Step-IsLeased (cleans_up {w} {nm} vm) l =
      clean_found-IsLeased vm (lookup vm nm.tap_devices) w nm l
  Step-IsLeased (shuts_down {w} {nm}) l = shut_down_all-IsLeased nm.tap_devices w nm l

  -- Whatever is done with the manager, the used addresses are exactly the VMs', each VM's is of the subnet
  -- and not the gateway's, and no two VMs have the same, if a VM is set up only while it has no device.
  pub Reach-IsLeased :
      {s t : W × NetworkManager}
      → Reach s t
      → IsLeased host gateway (s.1)
      → IsLeased host gateway (t.1)
  Reach-IsLeased here l = l
  Reach-IsLeased (next r s) l = Step-IsLeased s (Reach-IsLeased r l)

  -- Whatever is done with a manager since it was made, the used addresses are exactly the VMs', each is of
  -- the subnet and not the gateway's, and no two VMs have the same, if a VM is set up only while it has
  -- no device.
  pub new_network_manager_lem :
      (config : Config) (w w' : W) (address ones : ℕ) (nm : NetworkManager) (t : W × NetworkManager)
      → host.parse_ip config.bridge_ip ≡ some gateway
      → config.subnet ≡ some (address, ones)
      → address < 2 ^ 32
      → (new_network_manager host config w).1 ≡ some nm
      → Reach (w', nm) t
      → IsLeased host gateway (t.1)
  new_network_manager_lem config w w' address ones nm t parsed subnet bound made reached =
      Reach-IsLeased reached
        (new_network_manager-IsLeased host config w gateway address ones nm parsed subnet bound
          made).0
