-- ===== src/CloudHypervisor/Spawn/Scenarios.antt =====
-- A VMM in a pod's network namespace whose API never answers.
use vessel.Prelude.{ℕ, ◌+◌, ◌≡◌, refl, some, [], ◌∷◌, false}
use vessel.CloudHypervisor.Spawn.{Yard, Spawner, command_line, spawn_in_netns, spawn_prefixed}
use vessel.CloudHypervisor.Spawn.Leftovers.{Leaves, has_vmm, spawn_prefixed-Leaves}

-- the host counts the pings
abbrev silent : Spawner ℕ
silent = record {
  state_dir = "/var/lib/vessel";
  binary = "cloud-hypervisor";
  mkdir_fails = false;
  log_fails = false;
  start_fails = false;
  polls = 3;
  ping = λ sock n. (n + 1, some "connection refused");
}

abbrev yard : Yard ℕ
yard = record { running = "sb-1" ∷ []; launched = []; host = 0 }

in_netns :
    (spawn_in_netns silent "/run/netns/pod" "sb-2" yard).0.launched
    ≡ ("nsenter" ∷ "--net=/run/netns/pod" ∷ "cloud-hypervisor" ∷ "--api-socket"
        ∷ "/var/lib/vessel/sb-2/api.sock" ∷ [])
      ∷ []
unfolding spawn_in_netns command_line
in_netns = refl

fresh : has_vmm "sb-2" yard.running ≡ false
unfolding has_vmm
fresh = refl

spawn_prefixed-Leaves_example :
    Leaves "sb-2" ("sb-1" ∷ []) (spawn_prefixed silent ("nsenter" ∷ []) "sb-2" yard)
spawn_prefixed-Leaves_example = spawn_prefixed-Leaves silent ("nsenter" ∷ []) "sb-2" yard fresh
