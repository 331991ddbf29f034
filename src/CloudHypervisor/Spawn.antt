-- ===== src/CloudHypervisor/Spawn.antt =====
-- pkg/driver/cloudhypervisor: the start of a VMM, spawnPrefixed of pool.go and startVMMPrefixed of
-- driver.go. A yard is the processes with what their API answers act on.
pub mod Leftovers
mod Scenarios
use Prim.Native.String.{◌++◌ as append}
use vessel.Prelude.{
  String, str_eq, Bool, true, false, Option, none, some, List, [], ◌∷◌, ◌++◌, if◌then◌else◌, ℕ,
}
use vessel.FilePath.{join}
use vessel.CloudHypervisor.Driver.{VmmHandle, Attempt, got, missed, wait_ready}

-- `running` are the VMMs by their ids, `launched` the command lines, newest first
pub record Yard (H : Type 0) : Type 0 where
  pub running : List String
  pub launched : List (List String)
  pub host : H

-- what the pool is configured with, what the system refuses, and one Ping of the API on a socket
pub record Spawner (H : Type 0) : Type 0 where
  pub state_dir : String
  pub binary : String
  pub mkdir_fails : Bool
  pub log_fails : Bool
  pub start_fails : Bool
  pub polls : ℕ
  pub ping : String → H → H × Option String

unfoldable pub without_vmm : String → List String → List String
without_vmm id [] = []
without_vmm id (x ∷ xs) = let rest = without_vmm id xs in if str_eq id x then rest else x ∷ rest

unfoldable pub command_line : List String → String → String → List String
command_line prefix binary socket = prefix ++ binary ∷ "--api-socket" ∷ socket ∷ []

module _ {H : Type 0} (s : Spawner H) where
  -- an error leaves nothing behind but the log
  unfoldable pub start_vmm : List String → String → String → Yard H → Yard H × Bool
  unfolding command_line
  start_vmm prefix id socket y =
      let started = record y {
        running = id ∷ y.running;
        launched = command_line prefix s.binary socket ∷ y.launched;
      } in
      if s.log_fails then (y, false) else if s.start_fails then (y, false) else (started, true)

  -- the VMM that does not answer is killed
  unfoldable pub await_vmm : String → String → Yard H → Yard H × Attempt VmmHandle
  unfolding wait_ready without_vmm
  await_vmm id dir y =
      let (h, e) = wait_ready s.polls (s.ping (join dir "api.sock")) y.host in
      let y = record y { host = h } in
      elim e [
        | none ↦ (y, got (record { id = id; dir = dir }))
        | some e ↦ (
          record y { running = without_vmm id y.running },
          missed (append "VMM API not ready: " e),
        )
      ]

  -- `id` is what NewID returns
  unfoldable pub spawn_prefixed : List String → String → Yard H → Yard H × Attempt VmmHandle
  unfolding start_vmm await_vmm join
  spawn_prefixed prefix id y =
      let dir = join s.state_dir id in
      let (started, done) = start_vmm prefix id (join dir "api.sock") y in
      let awaited = await_vmm id dir started in
      if s.mkdir_fails
      then (y, missed "mkdir")
      else if done
      then awaited
      else (started, missed "start cloud-hypervisor")

  unfoldable pub spawn : String → Yard H → Yard H × Attempt VmmHandle
  unfolding spawn_prefixed
  spawn id y = spawn_prefixed [] id y

  unfoldable pub spawn_in_netns : String → String → Yard H → Yard H × Attempt VmmHandle
  unfolding spawn_prefixed
  spawn_in_netns netns id y = spawn_prefixed ("nsenter" ∷ append "--net=" netns ∷ []) id y
