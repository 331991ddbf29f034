-- ===== src/CloudHypervisor/Driver/Methods.antt =====
-- pkg/driver/cloudhypervisor/driver.go, the methods of `Driver` and `Instance`, and the parts of
-- netguest.go that they call.
use Prim.Native.String.{◌++◌ as append}
use vessel.Prelude.{
  zero, ◌+◌, ◌*◌, String, str_eq, true, Option, none, some, [], ◌∷◌, ◌++◌, if◌then◌else◌,
}
use vessel.Prelude.Int.{ℤ, pos, negsuc}
use vessel.FilePath.{join}
use vessel.Sandbox.{created, running, stopped, other, Result, ok, err, panic, Spec}
use vessel.CloudHypervisor.Client.{
  VmConfig, NetDevice, RestoreConfig, vmm_ping, vm_boot, vm_pause, vm_resume, vmm_shutdown,
  vm_create, vm_snapshot, vm_restore, call,
}
use vessel.CloudHypervisor.Driver.{
  VmmHandle, Vm, Attempt, got, missed, Host, Machine, wait_ready, ◌and_then◌, on_host, api, connect,
  ping_agent, configure_guest, apply_guest_network, mirror_tap,
}
use vessel.CloudHypervisor.Driver.Settings.{Config, tap_name}

-- 0 stands for a default
abbrev pub or_count : ℤ → ℤ → ℤ
or_count (pos zero) default = default
or_count n default = n

-- int64(mem) << 20
abbrev pub mebibytes : ℤ → ℤ
mebibytes (pos n) = pos (n * 1048576)
mebibytes (negsuc n) = negsuc (n * 1048576 + 1048575)

unfoldable pub vm_config : Config → Spec → String → Vm → VmConfig
vm_config cfg spec rootfs vm = record {
  cpus = record {
    boot_vcpus = or_count spec.vcpus (pos 1);
    max_vcpus = or_count spec.vcpus (pos 1);
  };
  memory = record { size = mebibytes (or_count spec.mem_mib (pos 256)); shared = true };
  payload = record { kernel = cfg.kernel_path; cmdline = cfg.cmdline };
  disks = record { path = rootfs; readonly = true } ∷ [];
  net = [];
  vsock = some (record { cid = 3; socket = vm.vsock });
  serial = some (record { mode = "File"; file = join vm.dir "serial.log" });
  console = some (record { mode = "Off"; file = "" });
}

unfoldable pub new_vm : VmmHandle → String → Vm
new_vm h netns = record {
  id = h.id;
  dir = h.dir;
  vsock = join h.dir "vsock.sock";
  agent = none;
  state = created;
  netns = netns;
  net_cfg = none;
}

module _ {H : Type 0} (os : Host H) where
  unfoldable pub mark_running : Machine H → Machine H × Option String
  mark_running s = (record s { vm = record s.vm { state = running } }, none)

  unfoldable pub pack_rootfs : String → Machine H → Machine H × Attempt String
  pack_rootfs rootfs s =
      let (h, r) = os.pack_dir rootfs (join s.vm.dir "rootfs.img") s.host in
      (record s { host = h }, r)

  -- the root image: a directory is packed
  unfoldable pub choose_rootfs : Config → Spec → Machine H → Machine H × Attempt String
  unfolding pack_rootfs
  choose_rootfs cfg spec s =
      let rootfs = if str_eq spec.rootfs "" then cfg.rootfs_path else spec.rootfs in
      if str_eq rootfs ""
      then (s, got rootfs)
      else if os.is_dir rootfs s.host
      then pack_rootfs rootfs s
      else (s, got rootfs)

  -- a pod's TAP is attached to the configuration
  unfoldable pub setup_network : VmConfig → Machine H → Machine H × Attempt VmConfig
  unfolding mirror_tap tap_name
  setup_network c s =
      let (s', r) = mirror_tap os s in
      elim r [
        | missed e ↦ (s', missed (append "pod network: " e))
        | got net ↦
            let nic : NetDevice = record {
              tap = tap_name s.vm.id;
              mac = net.mac;
              num_fds = 0;
              id = "";
            } in
            (s', got (record c { net = c.net ++ nic ∷ [] }))
      ]

  -- `boot` from the creation of the VM on
  unfoldable pub launch : VmConfig → Machine H → Machine H × Option String
  unfolding connect ping_agent apply_guest_network mark_running call
  launch c s =
      api os "" (vm_create c) s
      and_then api os "" vm_boot
      and_then connect os
      and_then ping_agent os
      and_then apply_guest_network os
      and_then mark_running

  unfoldable pub boot_with : VmConfig → Machine H → Machine H × Option String
  unfolding launch setup_network
  boot_with c s =
      if str_eq s.vm.netns ""
      then launch c s
      else let (s', r) = setup_network c s in
        elim r [ missed e ↦ (s', some e) | got c' ↦ launch c' s' ]

  unfoldable pub boot : Config → Spec → Machine H → Machine H × Option String
  unfolding boot_with choose_rootfs vm_config wait_ready call
  boot cfg spec s =
      on_host os "VMM API not ready: " (wait_ready os.polls (call os.http s.vm.id vmm_ping)) s
      and_then λ s.
          let (s', r) = choose_rootfs cfg spec s in
          elim r [
            | missed e ↦ (s', some (append "pack rootfs: " e))
            | got rootfs ↦ boot_with (vm_config cfg spec rootfs s'.vm) s'
          ]

  unfoldable pub teardown_network : Machine H → Machine H
  teardown_network s = elim s.vm.net_cfg [
    | none ↦ s
    | some setup ↦ record s {
      host = os.teardown_tap s.vm.netns setup.tap s.host;
      vm = record s.vm { net_cfg = none };
    }
  ]

  -- a process that does not exit in time is killed
  unfoldable pub reap : String → H → H
  reap id h =
      let (h, exited) = os.await_exit id h in
      let killed = os.kill_process id h in if exited then h else killed

  -- the answer to vmm.shutdown is dropped
  unfoldable pub stop : Machine H → Machine H
  unfolding teardown_network call reap
  stop s =
      let t = teardown_network s in
      let (h, e) = call os.http t.vm.id vmm_shutdown t.host in
      record { host = reap t.vm.id h; vm = record t.vm { state = stopped } }

  -- what a constructor returns: the machine, or its error after `Stop`
  unfoldable pub or_stop : Machine H × Option String → H × Result Vm
  unfolding stop
  or_stop (s, none) = (s.host, ok s.vm)
  or_stop (s, some e) = ((stop s).host, err (other e))

  -- a VMM of the pool, or one in the pod's network namespace
  unfoldable pub acquire : Spec → H → H × Attempt VmmHandle
  acquire spec h = if str_eq spec.netns "" then os.pool_get h else os.spawn_in_netns spec.netns h

  unfoldable pub create : Config → Option Spec → H → H × Result Vm
  unfolding or_stop boot new_vm acquire
  create cfg none h = (h, panic)
  create cfg (some spec) h =
      let (h', r) = acquire spec h in
      elim r [
        | missed e ↦ (h', err (other e))
        | got handle ↦ or_stop (boot cfg spec (record { vm = new_vm handle spec.netns; host = h' }))
      ]

  unfoldable pub restore_request : String → String → RestoreConfig
  restore_request path mode = record {
    source_url = append "file://" path;
    memory_restore_mode = mode;
    resume = true;
  }

  -- OnDemand is tried once, and then the default mode
  unfoldable pub restore_vm : Config → String → Machine H → Machine H × Option String
  unfolding restore_request call
  restore_vm cfg path s =
      let (s', e) = api os "restore: " (vm_restore (restore_request path cfg.restore_mode)) s in
      elim e [
        | none ↦ (s', none)
        | some e ↦
            if str_eq cfg.restore_mode "OnDemand"
            then api os "restore: " (vm_restore (restore_request path "")) s'
            else (s', some e)
      ]

  unfoldable pub apply_restored_network : Machine H → Machine H × Option String
  unfolding mirror_tap configure_guest
  apply_restored_network s =
      if str_eq s.vm.netns ""
      then (s, none)
      else let (s', r) = mirror_tap os s in
        elim r [
          | missed e ↦ (s', some e)
          | got net ↦
              let nic : NetDevice = record { tap = ""; mac = net.mac; num_fds = 1; id = "_net0" } in
              on_host os "hotplug NIC: " (os.add_net s'.vm.id nic) s'
              and_then configure_guest os net
        ]

  unfoldable pub resume_clone : Config → String → Machine H → Machine H × Option String
  unfolding restore_vm connect apply_restored_network mark_running
  resume_clone cfg path s =
      restore_vm cfg path s
      and_then connect os
      and_then apply_restored_network
      and_then mark_running

  unfoldable pub restore : Config → String → String → H → H × Result Vm
  unfolding resume_clone or_stop new_vm
  restore cfg path netns h =
      let (h', r) = os.pool_get h in
      elim r [
        | missed e ↦ (h', err (other e))
        | got handle ↦
            let (h'', overlay) = os.clone_snapshot path handle h' in
            elim overlay [
              | missed e ↦ (os.kill handle h'', err (other e))
              | got overlay ↦
                  or_stop
                    (resume_clone cfg overlay (record { vm = new_vm handle netns; host = h'' }))
            ]
      ]

  -- the VM is resumed whether or not its snapshot succeeded
  unfoldable pub snapshot : String → Machine H → Machine H × Option String
  unfolding call
  snapshot path s =
      on_host os "clear snapshot dir: " (os.clear_dir path) s
      and_then api os "pause: " vm_pause
      and_then λ s.
          let (s', snapped) = api os "snapshot: " (vm_snapshot (append "file://" path)) s in
          let (s'', resumed) = api os "resume: " vm_resume s' in
          elim snapped [
            | some e ↦ (s'', some e)
            | none ↦ elim resumed [
              | some e ↦ (s'', some e)
              | none ↦ (record s'' { vm = record s''.vm { state = running } }, none)
            ]
          ]
