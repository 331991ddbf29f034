-- ===== src/CloudHypervisor/Driver/Scenarios.antt =====
-- The driver over a host on which a VMM answers with one status, on concrete inputs. The host's
-- state is the list of the processes that have ended.
use Prim.Native.String.{◌++◌ as append}
use vessel.Prelude.{
  ℕ, String, str_eq, ◌≡◌, refl, ap, eq_refl, ◌↔◌, ◌≢◌, Bool, false, not, none, some, List, [], ◌∷◌,
  ◌||◌, arith,
}
use vessel.Prelude.Int.{ℤ}
use vessel.FilePath.{join}
use vessel.Sandbox.{other, running, ok, err, Spec}
use vessel.Agent.Client.{received}
use vessel.Agent.{reply}
use vessel.CloudHypervisor.Client.{answered, call, vm_pause, vm_snapshot, vm_resume}
use vessel.CloudHypervisor.Driver.{VmmHandle, Vm, got, missed, Host, Machine}
use vessel.CloudHypervisor.Driver.Settings.{Config, with_defaults}
use vessel.CloudHypervisor.Driver.Methods.{new_vm, acquire, create, restore, snapshot}
use vessel.CloudHypervisor.Driver.Reaped.{Reaps, create-Reaps, restore-Reaps}
use vessel.CloudHypervisor.Driver.Paused.{snapshot-resumes}
use vessel.CloudHypervisor.Driver.Ready.{create-Ready}

abbrev mentions : String → List String → Bool
mentions id [] = false
mentions id (x ∷ xs) = str_eq x id || mentions id xs

abbrev handle : VmmHandle
handle = record { id = "0a0b"; dir = "/run/0a0b" }

unfoldable answering : ℕ → Host (List String)
unfolding reply
answering status = record {
  http = λ id c h. (h, answered status "");
  await_exit = λ id h. (h, false);
  kill_process = λ id h. id ∷ h;
  kill = λ v h. v.id ∷ h;
  pool_get = λ h. (h, got handle);
  spawn_in_netns = λ netns h. (h, got handle);
  is_dir = λ path h. false;
  pack_dir = λ dir image h. (h, missed "no tool");
  clear_dir = λ path h. (h, none);
  clone_snapshot = λ path v h. (h, got path);
  read_config = λ netns h. (h, missed "no pod");
  setup_tap = λ netns tap h. (h, none);
  teardown_tap = λ netns tap h. h;
  add_net = λ id nic h. (h, none);
  dial = λ path h. (h, none);
  deliver = λ id req h. (h, received (reply req));
  polls = 2;
}

abbrev alive : String → List String → Bool
alive id ended = not (mentions id ended)

answering-Reaps : (status : ℕ) → Reaps (answering status) alive
unfolding answering
answering-Reaps status = record {
  exit_ends = λ id h exited. absurd (ground (arith, exited));
  process_ends = λ id h. ground (arith, eq_refl id);
  kill_ends = λ v h. ground (arith, eq_refl v.id);
}

abbrev config : Config
config = record {
  binary_path = "";
  kernel_path = "/boot/vmlinux";
  rootfs_path = "/rootfs.img";
  state_dir = "/run";
  cmdline = "";
  boot_wait = ℤ.pos 0;
  pool_size = ℤ.pos 2;
  restore_mode = "OnDemand";
}

abbrev spec : Spec
spec = record {
  name = "base";
  rootfs = "";
  cmd = [];
  env = [];
  vcpus = ℤ.pos 0;
  mem_mib = ℤ.pos 0;
  timeout = ℤ.pos 0;
  netns = "";
}

evaluated : Unit {0}
unfolding answering acquire create restore call join with_defaults
evaluated = tt

took : (acquire (answering 500) spec []).1 ≡ got handle
unfolding evaluated
took = refl

pooled : (os_status : ℕ) → ((answering os_status).pool_get []).1 ≡ got handle
unfolding evaluated
pooled status = refl

create_fails :
    (create (answering 500) config (some spec) []).1 ≡ err (other "VMM API not ready: HTTP: ")
unfolding evaluated
create_fails = refl

create-Reaps_example : alive "0a0b" (create (answering 500) config (some spec) []).0 ≡ false
create-Reaps_example =
    create-Reaps (answering 500) alive (answering-Reaps 500) config spec [] handle
      (other "VMM API not ready: HTTP: ") took create_fails

restore_fails : (restore (answering 404) config "/snap" "" []).1 ≡ err (other "restore: HTTP: ")
unfolding evaluated
restore_fails = refl

restore-Reaps_example : alive "0a0b" (restore (answering 404) config "/snap" "" []).0 ≡ false
restore-Reaps_example =
    restore-Reaps (answering 404) alive (answering-Reaps 404) config "/snap" "" [] handle
      (other "restore: HTTP: ") (pooled 404) restore_fails

abbrev booted : Vm
booted = record (new_vm handle "") { agent = some 1; state = running }

create_succeeds : (create (answering 204) config (some spec) []).1 ≡ ok booted
unfolding evaluated
create_succeeds = refl

create-Ready_example :
    ((acquire (answering 204) spec []).1 ≡ got handle
      → (create (answering 204) config (some spec) []).1 ≡ ok booted
      → (booted.state ≡ running) × (booted.id ≡ handle.id))
    × (((answering 204).pool_get []).1 ≡ got handle
        → (restore (answering 204) config "/snap" "" []).1 ≡ ok booted
        → (booted.state ≡ running) × (booted.id ≡ handle.id))
create-Ready_example = create-Ready (answering 204) config spec "/snap" "" [] handle booted

abbrev live : Machine (List String)
live = record { vm = booted; host = [] }

cleared : ((answering 204).clear_dir "/snap" []).1 ≡ none
unfolding evaluated
cleared = refl

paused :
    (call (answering 204).http live.vm.id vm_pause ((answering 204).clear_dir "/snap" []).0).1
    ≡ none
unfolding evaluated
paused = refl

snapshot-resumes_example :
    let os = answering 204 in
    let cleared = os.clear_dir "/snap" live.host in
    let paused = call os.http live.vm.id vm_pause cleared.0 in
    let snapped = call os.http live.vm.id (vm_snapshot (append "file://" "/snap")) paused.0 in
    let resumed = call os.http live.vm.id vm_resume snapped.0 in
    ((snapshot os "/snap" live).0.host ≡ resumed.0)
    × (((snapshot os "/snap" live).1 ≡ none) ↔ ((snapped.1 ≡ none) × (resumed.1 ≡ none)))
snapshot-resumes_example = snapshot-resumes (answering 204) "/snap" live cleared paused

joined : join "/tmp" "vessel-ch" ≢ ""
unfolding evaluated
joined h = absurd (ground (arith, ap (λ x. str_eq x "") h))
