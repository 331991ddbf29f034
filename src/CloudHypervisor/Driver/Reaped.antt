-- ===== src/CloudHypervisor/Driver/Reaped.antt =====
-- No VMM outlives a failed `Create` or `Restore` of pkg/driver/cloudhypervisor/driver.go.
use vessel.Prelude.{
  String, ◌≡◌, inl, inr, arith, subst, ◌∙◌, Bool, true, false, Bool-cases, Option, none, some,
}
use vessel.Sandbox.{Error, Result, err, Spec}
use vessel.CloudHypervisor.Driver.{VmmHandle, Vm, got, Host, Machine}
use vessel.CloudHypervisor.Driver.Settings.{Config}
use vessel.CloudHypervisor.Driver.Methods.{
  teardown_network, reap, stop, or_stop, new_vm, acquire, boot, resume_clone, create, restore,
}
use vessel.CloudHypervisor.Driver.Identity.{Attempt-cases, boot-KeepsId, resume_clone-KeepsId}

-- What the driver relies on: a process that was seen to exit, or that was killed, is gone.
pub record Reaps {H : Type 0} (os : Host H) (alive : String → H → Bool) : Type 0 where
  pub exit_ends :
      (id : String) (h : H)
      → (os.await_exit id h).1 ≡ true
      → alive id (os.await_exit id h).0 ≡ false
  pub process_ends : (id : String) (h : H) → alive id (os.kill_process id h) ≡ false
  pub kill_ends : (v : VmmHandle) (h : H) → alive v.id (os.kill v h) ≡ false

module _ {H : Type 0} (os : Host H) where
  teardown_network-id : (s : Machine H) → (teardown_network os s).vm.id ≡ s.vm.id
  unfolding teardown_network
  teardown_network-id s = ground arith

  reap-ends :
      (alive : String → H → Bool)
      → Reaps os alive
      → (id : String) (h : H) → alive id (reap os id h) ≡ false
  unfolding reap
  reap-ends alive laws id h = elim (Bool-cases (os.await_exit id h).1) [
    | inl exited ↦ rw (exited, reap) (laws.exit_ends id h exited)
    | inr waits ↦ rw (waits, reap) (laws.process_ends id (os.await_exit id h).0)
  ]

  -- a result that is an error comes with a dead process
  abbrev EndsOnError : (String → H → Bool) → String → H × Result Vm → Type 0
  EndsOnError alive id (h, r) = (e : Error) → r ≡ err e → alive id h ≡ false

  or_stop-EndsOnError :
      (alive : String → H → Bool)
      → Reaps os alive
      → (id : String) (r : Machine H × Option String) → r.0.vm.id ≡ id
      → EndsOnError alive id (or_stop os r)
  unfolding or_stop stop
  or_stop-EndsOnError alive laws id (s, none) same e x = absurd (ground (arith, x))
  or_stop-EndsOnError alive laws id (s, some text) same e x =
      subst (λ i. alive i (stop os s).host ≡ false) (teardown_network-id s ∙ same)
        (reap-ends alive laws (teardown_network os s).vm.id _)

  -- Where a process has ended once the driver waited for it or killed it, a `Create` that returns
  -- an error leaves no VMM behind: the process that it took from the pool, or spawned in the pod's
  -- namespace, has ended.
  pub create-Reaps :
      (alive : String → H → Bool)
      → Reaps os alive
      → (cfg : Config) (spec : Spec) (h : H) (v : VmmHandle) (e : Error)
      → (acquire os spec h).1 ≡ got v
      → (create os cfg (some spec) h).1 ≡ err e
      → alive v.id (create os cfg (some spec) h).0 ≡ false
  unfolding create new_vm
  create-Reaps alive laws cfg spec h v e took x =
      let s : Machine H = record { vm = new_vm v spec.netns; host = (acquire os spec h).0 } in
      rw (took, create)
        (or_stop-EndsOnError alive laws v.id (boot os cfg spec s) (boot-KeepsId os cfg spec s) e
          (rw (took, create) at x))

  -- Where a process has ended once the driver waited for it or killed it, a `Restore` that returns
  -- an error after it took a VMM from the pool, whichever of its steps failed, leaves that VMM ended.
  pub restore-Reaps :
      (alive : String → H → Bool)
      → Reaps os alive
      → (cfg : Config) (path netns : String) (h : H) (v : VmmHandle) (e : Error)
      → (os.pool_get h).1 ≡ got v
      → (restore os cfg path netns h).1 ≡ err e
      → alive v.id (restore os cfg path netns h).0 ≡ false
  unfolding restore new_vm
  restore-Reaps alive laws cfg path netns h v e took x =
      let cloned = os.clone_snapshot path v (os.pool_get h).0 in
      elim (Attempt-cases cloned.1) [
        | inl (t, n) ↦ rw (took, restore) (rw (n, restore) (laws.kill_ends v cloned.0))
        | inr (overlay, n) ↦
            let s : Machine H = record { vm = new_vm v netns; host = cloned.0 } in
            rw (took, restore)
              (rw (n, restore)
                (or_stop-EndsOnError alive laws v.id (resume_clone os cfg overlay s)
                  (resume_clone-KeepsId os cfg overlay s) e
                  (rw (n, restore) at (rw (took, restore) at x))))
      ]
