-- ===== src/CloudHypervisor/Driver/Ready.antt =====
-- What a successful `Create` or `Restore` of pkg/driver/cloudhypervisor/driver.go returns.
use vessel.Prelude.{String, str_eq, ◌≡◌, refl, inl, inr, arith, Option, none, some, Bool-cases}
use vessel.Sandbox.{running, ok, Spec}
use vessel.CloudHypervisor.Client.{VmConfig}
use vessel.CloudHypervisor.Driver.{VmmHandle, Vm, got, Host, Machine, ◌and_then◌}
use vessel.CloudHypervisor.Driver.Settings.{Config}
use vessel.CloudHypervisor.Driver.Identity.{
  Attempt-cases, after_ready, boot-KeepsId, resume_clone-KeepsId,
}
use vessel.CloudHypervisor.Driver.Methods.{
  vm_config, choose_rootfs, setup_network, mark_running, launch, boot_with, boot, resume_clone,
  or_stop, new_vm, acquire, create, restore,
}

module _ {H : Type 0} (os : Host H) where
  -- a step after which, without an error, the machine runs
  abbrev Runs : Machine H × Option String → Type 0
  Runs r = r.1 ≡ none → r.0.vm.state ≡ running

  and_then-Runs :
      (f : Machine H → Machine H × Option String) (r : Machine H × Option String)
      → ((s : Machine H) → Runs (f s))
      → Runs (r and_then f)
  and_then-Runs f (s, none) h = h s
  and_then-Runs f (s, some e) h = λ x. absurd (ground (arith, x))

  mark_running-Runs : (s : Machine H) → Runs (mark_running os s)
  unfolding mark_running
  mark_running-Runs s = λ x. refl

  launch-Runs : (c : VmConfig) (s : Machine H) → Runs (launch os c s)
  unfolding launch
  launch-Runs c s = and_then-Runs (mark_running os) _ mark_running-Runs

  boot_with-Runs : (c : VmConfig) (s : Machine H) → Runs (boot_with os c s)
  unfolding boot_with
  boot_with-Runs c s = elim (Bool-cases (str_eq s.vm.netns "")) [
    | inl p ↦ rw (p, boot_with) (launch-Runs c s)
    | inr p ↦ elim (Attempt-cases (setup_network os c s).1) [
      | inl (e, n) ↦ rw (p, boot_with) (rw (n, boot_with) (λ x. absurd (ground (arith, x))))
      | inr (c', n) ↦
          rw (p, boot_with) (rw (n, boot_with) (launch-Runs c' (setup_network os c s).0))
    ]
  ]

  after_ready-Runs : (cfg : Config) (spec : Spec) (s : Machine H) → Runs (after_ready os cfg spec s)
  after_ready-Runs cfg spec s =
      let t = (choose_rootfs os cfg spec s).0 in
      elim (Attempt-cases (choose_rootfs os cfg spec s).1) [
        | inl (e, n) ↦ rw (n, after_ready) (λ x. absurd (ground (arith, x)))
        | inr (rootfs, n) ↦ rw (n, after_ready) (boot_with-Runs (vm_config cfg spec rootfs t.vm) t)
      ]

  boot-Runs : (cfg : Config) (spec : Spec) (s : Machine H) → Runs (boot os cfg spec s)
  unfolding boot
  boot-Runs cfg spec s = and_then-Runs (after_ready os cfg spec) _ (after_ready-Runs cfg spec)

  resume_clone-Runs :
      (cfg : Config) (path : String) (s : Machine H) → Runs (resume_clone os cfg path s)
  unfolding resume_clone
  resume_clone-Runs cfg path s = and_then-Runs (mark_running os) _ mark_running-Runs

  or_stop-ok :
      (id : String) (vm : Vm) (r : Machine H × Option String)
      → Runs r
      → r.0.vm.id ≡ id
      → (or_stop os r).1 ≡ ok vm
      → (vm.state ≡ running) × (vm.id ≡ id)
  unfolding or_stop
  or_stop-ok id vm (s, none) runs same x = (ground (arith, x, runs refl), ground (arith, x, same))
  or_stop-ok id vm (s, some e) runs same x = absurd (ground (arith, x))

  -- A sandbox that `Create` or `Restore` returns is in state running, and has the id of the VMM that
  -- was taken for it from the pool, or for `Create` also spawned in the pod's namespace.
  pub create-Ready :
      (cfg : Config) (spec : Spec) (path netns : String) (h : H) (v : VmmHandle) (vm : Vm)
      → ((acquire os spec h).1 ≡ got v
          → (create os cfg (some spec) h).1 ≡ ok vm
          → (vm.state ≡ running) × (vm.id ≡ v.id))
        × ((os.pool_get h).1 ≡ got v
            → (restore os cfg path netns h).1 ≡ ok vm
            → (vm.state ≡ running) × (vm.id ≡ v.id))
  unfolding create restore new_vm
  create-Ready cfg spec path netns h v vm = (
    λ took x.
        let s : Machine H = record { vm = new_vm v spec.netns; host = (acquire os spec h).0 } in
        or_stop-ok v.id vm (boot os cfg spec s) (boot-Runs cfg spec s) (boot-KeepsId os cfg spec s)
          (rw (took, create) at x),
    λ took x.
        let cloned = os.clone_snapshot path v (os.pool_get h).0 in
        elim (Attempt-cases cloned.1) [
          | inl (t, n) ↦ absurd (ground (arith, rw (n, restore) at (rw (took, restore) at x)))
          | inr (overlay, n) ↦
              let s : Machine H = record { vm = new_vm v netns; host = cloned.0 } in
              or_stop-ok v.id vm (resume_clone os cfg overlay s) (resume_clone-Runs cfg overlay s)
                (resume_clone-KeepsId os cfg overlay s)
                (rw (n, restore) at (rw (took, restore) at x))
        ],
  )
