-- ===== src/CloudHypervisor/Driver.antt =====
-- pkg/driver/cloudhypervisor/driver.go and netguest.go: a microVM's life. The fields of `Instance`
-- that change are in `Vm`, and what a step acts on is the machine with the host. An error is a
-- text, of which what the source wraps around it is left out in part, and a step that fails stops
-- the ones after it. Closing the agent's connection in Stop changes nothing here.
pub mod Settings
pub mod Methods
pub mod Identity
pub mod Reaped
pub mod Paused
pub mod Ready
pub mod Exec
mod Scenarios
use Prim.Native.String.{◌++◌ as append}
use vessel.Prelude.{
  ℕ, zero, suc, ◌==◌, ◌*◌, String, str_eq, Bool, true, false, Option, none, some, List, [], ◌∷◌,
  ◌++◌, if◌then◌else◌,
}
use vessel.Prelude.Int.{ℤ, pos, negsuc}
use vessel.FilePath.{join}
use vessel.Sandbox.{State, Error, other, Result, ok, err, panic, Spec, RestoreOpts}
use vessel.Agent.{Request}
use vessel.Agent.Net.{NetConfig}
use vessel.Agent.Client.{Client, Delivery, Outcome, done, failure, ping, configure_net}
use vessel.CloudHypervisor.Client.{
  VmConfig, NetDevice, RestoreConfig, Call, vmm_ping, vm_boot, vm_pause, vm_resume, vmm_shutdown,
  vm_create, vm_snapshot, vm_restore, Reply, call,
}
use vessel.Vmnet.{PodNet}
use vessel.CloudHypervisor.Driver.Settings.{tap_name}

-- vmmHandle: the process is known by its id
pub record VmmHandle : Type 0 where
  pub id : String
  pub dir : String

pub record NetSetup : Type 0 where
  pub tap : String
  pub cfg : PodNet

-- `agent` is the counter of the connected client
pub record Vm : Type 0 where
  pub id : String
  pub dir : String
  pub vsock : String
  pub agent : Option ℕ
  pub state : State
  pub netns : String
  pub net_cfg : Option NetSetup

-- a value or an error's text
pub data Attempt {ℓ} (A : Type ℓ) : Type ℓ where
  got : A → Attempt A
  missed : String → Attempt A

-- The parts that the driver acts through: cloud-hypervisor processes (their socket;
-- the wait of 3 s for one to exit, with whether it did; and the kill of one), the pool, the file system, pkg/image, pkg/vmnet, and the agent
-- behind hybrid vsock. `polls` is how often waitReady polls before its deadline.
pub record Host (H : Type 0) : Type 0 where
  pub http : String → Call → H → H × Reply
  pub await_exit : String → H → H × Bool
  pub kill_process : String → H → H
  pub kill : VmmHandle → H → H
  pub pool_get : H → H × Attempt VmmHandle
  pub spawn_in_netns : String → H → H × Attempt VmmHandle
  pub is_dir : String → H → Bool
  pub pack_dir : String → String → H → H × Attempt String
  pub clear_dir : String → H → H × Option String
  pub clone_snapshot : String → VmmHandle → H → H × Attempt String
  pub read_config : String → H → H × Attempt PodNet
  pub setup_tap : String → String → H → H × Option String
  pub teardown_tap : String → String → H → H
  pub add_net : String → NetDevice → H → H × Option String
  pub dial : String → H → H × Option String
  pub deliver : String → Request → H → H × Delivery
  pub polls : ℕ

pub record Machine (H : Type 0) : Type 0 where
  pub vm : Vm
  pub host : H

-- waitReady: with no poll before the deadline, no error
unfoldable pub wait_ready : {H : Type 0} → ℕ → (H → H × Option String) → H → H × Option String
wait_ready zero fn h = (h, none)
wait_ready (suc zero) fn h = fn h
wait_ready (suc (suc n)) fn h =
    let (h', e) = fn h in elim e [ none ↦ (h', none) | some _ ↦ wait_ready (suc n) fn h' ]

-- if err := …; err != nil { return fmt.Errorf("…: %w", err) }
infixl 40 ◌and_then◌
abbrev pub ◌and_then◌ {ℓ} :
    {S : Type ℓ} → S × Option String → (S → S × Option String) → S × Option String
r and_then f = elim r.1 [ none ↦ f r.0 | some e ↦ (r.0, some e) ]

abbrev pub wrap : String → Option String → Option String
wrap prefix none = none
wrap prefix (some e) = some (append prefix e)

abbrev pub error_of {ℓ} : {A : Type ℓ} → Outcome A → Option String
error_of (done _) = none
error_of (failure _) = some "agent"

module _ {H : Type 0} (os : Host H) where
  -- a step on the host alone, with its error's prefix
  abbrev pub on_host : String → (H → H × Option String) → Machine H → Machine H × Option String
  on_host prefix f s = let (h, e) = f s.host in (record s { host = h }, wrap prefix e)

  abbrev pub api : String → Call → Machine H → Machine H × Option String
  api prefix c s = on_host prefix (call os.http s.vm.id c) s

  -- the agent is dialled until it answers, and then there is a client
  unfoldable pub connect : Machine H → Machine H × Option String
  unfolding wait_ready
  connect s =
      let (h, e) = wait_ready os.polls (os.dial s.vm.vsock) s.host in
      elim e [
        | some e ↦ (record s { host = h }, some (append "guest agent not reachable: " e))
        | none ↦ (record s { host = h; vm = record s.vm { agent = some 0 } }, none)
      ]

  unfoldable pub ping_agent : Machine H → Machine H × Option String
  unfolding ping
  ping_agent s = elim s.vm.agent [
    | none ↦ (s, some "agent not connected")
    | some n ↦
        let (c, r) = ping (os.deliver s.vm.id) (record { seq = n; peer = s.host }) in
        (record s { host = c.peer; vm = record s.vm { agent = some c.seq } }, error_of r)
  ]

  unfoldable pub guest_config : PodNet → NetConfig
  guest_config cfg = record { device = "eth0"; ip = cfg.ip; gateway = cfg.gateway; mtu = cfg.mtu }

  unfoldable pub configure_guest : PodNet → Machine H → Machine H × Option String
  unfolding configure_net guest_config
  configure_guest cfg s = elim s.vm.agent [
    | none ↦ (s, some "agent not connected")
    | some n ↦
        let client : Client H = record { seq = n; peer = s.host } in
        let (c, r) = configure_net (os.deliver s.vm.id) (guest_config cfg) client in
        (record s { host = c.peer; vm = record s.vm { agent = some c.seq } }, error_of r)
  ]

  unfoldable pub apply_guest_network : Machine H → Machine H × Option String
  unfolding configure_guest
  apply_guest_network s = elim s.vm.net_cfg [
    | none ↦ (s, none)
    | some setup ↦ configure_guest setup.cfg s
  ]

  -- ReadConfig and SetupTap, which setupNetwork and applyRestoredNetwork begin with
  unfoldable pub mirror_tap : Machine H → Machine H × Attempt PodNet
  unfolding tap_name
  mirror_tap s =
      let (h, r) = os.read_config s.vm.netns s.host in
      elim r [
        | missed e ↦ (record s { host = h }, missed e)
        | got cfg ↦
            if str_eq cfg.ip ""
            then (record s { host = h }, missed "no IPv4 address")
            else let tap = tap_name s.vm.id in
              let (h', e) = os.setup_tap s.vm.netns tap h in
              elim e [
                | some e ↦ (record s { host = h' }, missed e)
                | none ↦ (
                  record s {
                    host = h';
                    vm = record s.vm { net_cfg = some (record { tap = tap; cfg = cfg }) };
                  },
                  got cfg,
                )
              ]
      ]
