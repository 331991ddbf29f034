-- ===== src/ProcessDriver/Scenarios.antt =====
-- pkg/driver/process on concrete commands.
use vessel.Prelude.{◌≡◌, refl, some, List, [], ◌∷◌, str_eq, if◌then◌else◌}
use vessel.Prelude.Int.{pos}
use vessel.Sandbox.{Spec, State, panic}
use vessel.Sandbox.Manager.Reaping.{Reaps}
use vessel.ProcessDriver.{Command, succeeded, exited, failed, World, Host, exec}
use vessel.ProcessDriver.Reaps.{Made, Registered, process_driver-Reaps}

-- a system that logs its commands; "false" exits with 1, and "nowhere" is not found
abbrev pub logging : Host (List Command)
logging = record {
  run = λ c log. (
    c ∷ log,
    record {
      ending = elim c.argv [
        | [] ↦ failed "no command"
        | name ∷ _ ↦
            if str_eq name "false"
            then exited (pos 1)
            else if str_eq name "nowhere"
            then failed "not found"
            else succeeded
      ];
      stdout = "";
      stderr = "";
    },
  );
  environ = "PATH=/bin" ∷ [];
}

abbrev pub idle : World (List Command)
idle = record {
  random = λ n. n;
  drawn = 0;
  states = λ _. State.created;
  allocated = 0;
  system = [];
}

abbrev pub spec : Spec
spec = record {
  name = "";
  rootfs = "/r";
  cmd = [];
  env = ("K", "v") ∷ [];
  vcpus = pos 0;
  mem_mib = pos 0;
  timeout = pos 0;
  netns = "";
}

runs_with_environment :
    (exec logging (some spec) ("false" ∷ "-x" ∷ []) idle).0.system
    ≡ (record { argv = "false" ∷ "-x" ∷ []; env = "PATH=/bin" ∷ "K=v" ∷ []; chroot = "/r" }) ∷ []
unfolding exec
runs_with_environment = refl

no_command_panics : (exec logging (some spec) [] idle).1 ≡ panic
unfolding exec
no_command_panics = refl

process_driver-Reaps_example : Reaps (Made logging) (Registered logging)
process_driver-Reaps_example = process_driver-Reaps logging
