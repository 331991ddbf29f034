-- ===== src/Command/ContainerdShim/Scenarios.antt =====
-- The standalone mode on a node without a configuration file.
use vessel.Prelude.{◌≡◌, refl, Option, none, true, false}
use vessel.Prelude.Int.{pos}
use vessel.Dict
use vessel.Sandbox.Fake.{FakeWorld}
use vessel.Sandbox.Scenarios.{quiet, fake}
use vessel.Files.{no_faults}
use vessel.Command.{exits, Drivers}
use vessel.Shim.{Surroundings, Service}
use vessel.Shim.Config.{Config, not_exist}
use vessel.Shim.Running.{Templates, Served, new_service_from_config}
use vessel.Command.ContainerdShim.{
  Standalone, run_standalone, subcommand, serves, serves_alone, starts, deletes, unknown,
}
use vessel.Command.ContainerdShim.Standing.{Configured, Registered, EndsWell, run_standalone-serves}

abbrev drivers : Drivers FakeWorld
drivers = record {
  process = record fake { name = "process" };
  cloudhypervisor = λ _. record fake { name = "cloudhypervisor" };
  warm = λ _ w. w;
}

abbrev around : Surroundings
around = record {
  lookup_template = λ _. none;
  annotations = λ _. none;
  namespaces = λ _. none;
  opens = λ _. true;
}

abbrev alone : Standalone
alone = record {
  config_env = "";
  read = λ _. not_exist;
  decode = λ _. none;
  decode_templates = λ _. none;
  faults = no_faults;
  listens = true;
}

-- a signal ends it
abbrev signalled : Service FakeWorld → Service FakeWorld × Served
signalled s = (
  s,
  record { new_server_error = none; is_cancelled = true; sees_cancel = true; server_error = none },
)

evaluated : Unit {0}
unfolding subcommand run_standalone Dict.empty
evaluated = tt

exited :
    (run_standalone signalled alone around 7 drivers "/s" "" Dict.empty quiet).2 ≡ exits (pos 0)
unfolding evaluated
exited = refl

no_registry :
    (run_standalone signalled alone around 7 drivers "/s" "/t.json" Dict.empty quiet).2
    ≡ exits (pos 1)
unfolding evaluated
no_registry = refl

subcommands :
    (subcommand "" false ≡ serves)
    × (subcommand "" true ≡ serves_alone)
    × (subcommand "start" true ≡ starts)
    × (subcommand "delete" false ≡ deletes)
    × (subcommand "state" false ≡ unknown)
unfolding evaluated
subcommands = (refl, refl, refl, refl, refl)

run_standalone-serves_example :
    (c : Config) × (templates : Option Templates) × Configured alone c
    × Registered alone "" templates
    × (alone.listens ≡ true)
    × EndsWell (signalled (new_service_from_config around 7 drivers c templates quiet)).1
run_standalone-serves_example =
    run_standalone-serves signalled alone around 7 drivers "/s" "" Dict.empty quiet exited
