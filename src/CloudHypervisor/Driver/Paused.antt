-- ===== src/CloudHypervisor/Driver/Paused.antt =====
-- `Snapshot` of pkg/driver/cloudhypervisor/driver.go does not leave the VM paused.
use Prim.Native.String.{◌++◌ as append}
use vessel.Prelude.{String, ◌≡◌, arith, none, ◌↔◌}
use vessel.CloudHypervisor.Client.{vm_pause, vm_resume, vm_snapshot, call}
use vessel.CloudHypervisor.Driver.{Host, Machine}
use vessel.CloudHypervisor.Driver.Methods.{snapshot}

module _ {H : Type 0} (os : Host H) where
  -- Once the directory is cleared and the VM is paused, Snapshot asks for its resumption whether or
  -- not the snapshot was taken, as its last act on the host, and it reports success exactly when
  -- both the snapshot and the resumption succeeded.
  pub snapshot-resumes :
      (path : String) (s : Machine H)
      → let cleared = os.clear_dir path s.host in
        let paused = call os.http s.vm.id vm_pause cleared.0 in
        let snapped = call os.http s.vm.id (vm_snapshot (append "file://" path)) paused.0 in
        let resumed = call os.http s.vm.id vm_resume snapped.0 in
        cleared.1 ≡ none
        → paused.1 ≡ none
        → ((snapshot os path s).0.host ≡ resumed.0)
          × (((snapshot os path s).1 ≡ none) ↔ ((snapped.1 ≡ none) × (resumed.1 ≡ none)))
  unfolding snapshot
  snapshot-resumes path s cleared_ok paused_ok = (
    ground (arith, cleared_ok, paused_ok),
    (λ x. ground (arith, cleared_ok, paused_ok, x), λ x. ground (arith, cleared_ok, paused_ok, x)),
  )
