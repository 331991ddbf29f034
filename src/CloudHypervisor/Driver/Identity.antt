-- ===== src/CloudHypervisor/Driver/Identity.antt =====
-- The steps of pkg/driver/cloudhypervisor/driver.go leave a machine its id.
use vessel.Prelude.{
  String, str_eq, ◌≡◌, refl, inl, inr, arith, ◌∙◌, Option, none, some, Option-cases, Bool-cases,
  ◌⊎◌,
}
use vessel.Sandbox.{Spec}
use Prim.Native.String.{◌++◌ as append}
use vessel.CloudHypervisor.Client.{VmConfig, NetDevice, vm_create, vm_boot, vmm_ping, call}
use vessel.Vmnet.{PodNet}
use vessel.CloudHypervisor.Driver.{
  Attempt, got, missed, Host, Machine, ◌and_then◌, wait_ready, on_host, api, connect, ping_agent,
  configure_guest, apply_guest_network, mirror_tap,
}
use vessel.CloudHypervisor.Driver.Settings.{Config}
use vessel.CloudHypervisor.Driver.Methods.{
  vm_config, mark_running, launch, boot_with, setup_network, choose_rootfs, restore_vm,
  apply_restored_network, boot, resume_clone,
}

pub Attempt-cases {ℓ} :
    {A : Type ℓ} (r : Attempt A) → ((e : String) × (r ≡ missed e)) ⊎ ((a : A) × (r ≡ got a))
Attempt-cases (missed e) = inl (e, refl)
Attempt-cases (got a) = inr (a, refl)

module _ {H : Type 0} (os : Host H) where
  -- a step that leaves the machine its id
  abbrev pub KeepsId : (Machine H → Machine H × Option String) → Type 0
  KeepsId f = (s : Machine H) → (f s).0.vm.id ≡ s.vm.id

  and_then-KeepsId :
      (f : Machine H → Machine H × Option String) (r : Machine H × Option String) {id : String}
      → KeepsId f
      → r.0.vm.id ≡ id
      → (r and_then f).0.vm.id ≡ id
  and_then-KeepsId f (s, none) k h = k s ∙ h
  and_then-KeepsId f (s, some e) k h = h

  connect-KeepsId : KeepsId (connect os)
  unfolding connect
  connect-KeepsId s = ground arith

  ping_agent-KeepsId : KeepsId (ping_agent os)
  unfolding ping_agent
  ping_agent-KeepsId s = ground arith

  configure_guest-KeepsId : (cfg : PodNet) → KeepsId (configure_guest os cfg)
  unfolding configure_guest
  configure_guest-KeepsId cfg s = ground arith

  apply_guest_network-KeepsId : KeepsId (apply_guest_network os)
  unfolding apply_guest_network
  apply_guest_network-KeepsId s = elim (Option-cases s.vm.net_cfg) [
    | inl n ↦ rw (n, apply_guest_network) refl
    | inr (setup, n) ↦ rw (n, apply_guest_network) (configure_guest-KeepsId setup.cfg s)
  ]

  mirror_tap-id : (s : Machine H) → (mirror_tap os s).0.vm.id ≡ s.vm.id
  unfolding mirror_tap
  mirror_tap-id s = ground arith

  mark_running-KeepsId : KeepsId (mark_running os)
  unfolding mark_running
  mark_running-KeepsId s = refl

  launch-KeepsId : (c : VmConfig) → KeepsId (launch os c)
  unfolding launch
  launch-KeepsId c s =
      let created = api os "" (vm_create c) s in
      let booted = created and_then api os "" vm_boot in
      let connected = booted and_then connect os in
      let pinged = connected and_then ping_agent os in
      let applied = pinged and_then apply_guest_network os in
      and_then-KeepsId (mark_running os) applied mark_running-KeepsId (
        and_then-KeepsId (apply_guest_network os) pinged apply_guest_network-KeepsId (
          and_then-KeepsId (ping_agent os) connected ping_agent-KeepsId (
            and_then-KeepsId (connect os) booted connect-KeepsId
              (and_then-KeepsId (api os "" vm_boot) created (λ t. refl) refl))))

  setup_network-id : (c : VmConfig) (s : Machine H) → (setup_network os c s).0.vm.id ≡ s.vm.id
  unfolding setup_network
  setup_network-id c s = elim (Attempt-cases (mirror_tap os s).1) [
    | inl (e, n) ↦ rw (n, setup_network) (mirror_tap-id s)
    | inr (net, n) ↦ rw (n, setup_network) (mirror_tap-id s)
  ]

  boot_with-KeepsId : (c : VmConfig) → KeepsId (boot_with os c)
  unfolding boot_with
  boot_with-KeepsId c s = elim (Bool-cases (str_eq s.vm.netns "")) [
    | inl p ↦ rw (p, boot_with) (launch-KeepsId c s)
    | inr p ↦ elim (Attempt-cases (setup_network os c s).1) [
      | inl (e, n) ↦ rw (p, boot_with) (rw (n, boot_with) (setup_network-id c s))
      | inr (c', n) ↦
          rw (p, boot_with)
            (rw (n, boot_with) (launch-KeepsId c' (setup_network os c s).0 ∙ setup_network-id c s))
    ]
  ]

  choose_rootfs-id :
      (cfg : Config) (spec : Spec) (s : Machine H) → (choose_rootfs os cfg spec s).0.vm.id ≡ s.vm.id
  unfolding choose_rootfs
  choose_rootfs-id cfg spec s = ground arith

  -- `boot` once the API answers
  abbrev pub after_ready : Config → Spec → Machine H → Machine H × Option String
  after_ready cfg spec s =
      let (s', r) = choose_rootfs os cfg spec s in
      elim r [
        | missed e ↦ (s', some (append "pack rootfs: " e))
        | got rootfs ↦ boot_with os (vm_config cfg spec rootfs s'.vm) s'
      ]

  after_ready-KeepsId : (cfg : Config) (spec : Spec) → KeepsId (after_ready cfg spec)
  after_ready-KeepsId cfg spec s =
      let t = (choose_rootfs os cfg spec s).0 in
      elim (Attempt-cases (choose_rootfs os cfg spec s).1) [
        | inl (e, n) ↦ rw (n, after_ready) (choose_rootfs-id cfg spec s)
        | inr (rootfs, n) ↦
            rw (n, after_ready)
              (boot_with-KeepsId (vm_config cfg spec rootfs t.vm) t ∙ choose_rootfs-id cfg spec s)
      ]

  pub boot-KeepsId : (cfg : Config) (spec : Spec) → KeepsId (boot os cfg spec)
  unfolding boot
  boot-KeepsId cfg spec s =
      and_then-KeepsId (after_ready cfg spec)
        (on_host os "VMM API not ready: " (wait_ready os.polls (call os.http s.vm.id vmm_ping)) s)
        (after_ready-KeepsId cfg spec) refl

  restore_vm-KeepsId : (cfg : Config) (path : String) → KeepsId (restore_vm os cfg path)
  unfolding restore_vm
  restore_vm-KeepsId cfg path s = ground arith

  apply_restored_network-KeepsId : KeepsId (apply_restored_network os)
  unfolding apply_restored_network
  apply_restored_network-KeepsId s = elim (Bool-cases (str_eq s.vm.netns "")) [
    | inl p ↦ rw (p, apply_restored_network) refl
    | inr p ↦ elim (Attempt-cases (mirror_tap os s).1) [
      | inl (e, n) ↦
          rw (p, apply_restored_network) (rw (n, apply_restored_network) (mirror_tap-id s))
      | inr (net, n) ↦
          let nic : NetDevice = record { tap = ""; mac = net.mac; num_fds = 1; id = "_net0" } in
          let t = (mirror_tap os s).0 in
          rw (p, apply_restored_network)
            (rw (n, apply_restored_network)
              (and_then-KeepsId (configure_guest os net)
                (on_host os "hotplug NIC: " (os.add_net t.vm.id nic) t)
                (configure_guest-KeepsId net) (mirror_tap-id s)))
    ]
  ]

  pub resume_clone-KeepsId : (cfg : Config) (path : String) → KeepsId (resume_clone os cfg path)
  unfolding resume_clone
  resume_clone-KeepsId cfg path s =
      let restored = restore_vm os cfg path s in
      let connected = restored and_then connect os in
      let applied = connected and_then apply_restored_network os in
      and_then-KeepsId (mark_running os) applied mark_running-KeepsId (
        and_then-KeepsId (apply_restored_network os) connected apply_restored_network-KeepsId
          (and_then-KeepsId (connect os) restored connect-KeepsId (restore_vm-KeepsId cfg path s)))
