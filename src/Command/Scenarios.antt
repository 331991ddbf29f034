-- ===== src/Command/Scenarios.antt =====
-- cmd/vessel on concrete daemons: the process driver for `run`, the in-memory one for the servers.
use mathlib.Core.List.{Memᴰ}
use vessel.Prelude.{String, ◌≡◌, refl, none, some, List, [], ◌∷◌, true}
use vessel.Prelude.Int.{pos}
use vessel.Dict
use vessel.Sandbox.{stopped, running, ok, Instance, Driver}
use vessel.Sandbox.Fake.{FakeWorld, fake_driver, new_fake_driver}
use vessel.Sandbox.Scenarios.{one_sandbox, first_id, fake}
use vessel.Sandbox.Manager.{Daemon, find, create, new_manager, register_driver}
use vessel.ProcessDriver.{World, process_driver, instance_at}
use vessel.ProcessDriver.Reaps.{process_driver-Reaps}
use vessel.ProcessDriver.Scenarios.{logging, idle}
use vessel.E2b.{NewSandbox, SandboxResp, answer, sandbox, sandboxes, sandbox_resp}
use vessel.Bootstrap.{Assets}
use vessel.Command.{
  exits, Environment, Drivers, RunFlags, run_spec, cmd_run, subcommand, runs_run, usage, listen_on,
  on_unix, on_vsock, bad_address,
}
use vessel.Command.Running.{cmd_run-stops}
use vessel.Command.Server.{
  Server, creates, lists, kills, by_e2b, serve, http_handler, signalled, serve_http, mount,
  collection, items, native,
}
use vessel.Command.Server.Handlers.{kills-lists}

evaluated : Unit {0}
unfolding vessel.Sandbox.Manager.Listing.run find create new_manager register_driver cmd_run serve
    http_handler Dict.get Dict.put Dict.remove Dict.empty Dict.values process_driver fake_driver
    new_fake_driver mount subcommand listen_on
evaluated = tt

process_daemon : Daemon (World (List vessel.ProcessDriver.Command))
unfolding new_manager register_driver
process_daemon =
    register_driver (process_driver logging) (record { manager = new_manager; world = idle })

abbrev flags : RunFlags
flags = record { driver = "process"; rootfs = ""; rest = "false" ∷ [] }

abbrev made : Instance (World (List vessel.ProcessDriver.Command))
made = instance_at logging 0 "000102030405" (some (run_spec "" ("false" ∷ [])))

after_create : Daemon (World (List vessel.ProcessDriver.Command))
unfolding process_daemon
after_create = (create "process" (some (run_spec "" ("false" ∷ []))) process_daemon).0

creates_it :
    create flags.driver (some (run_spec flags.rootfs flags.rest)) process_daemon
    ≡ (after_create, ok made)
unfolding evaluated after_create process_daemon
creates_it = refl

cmd_run-stops_example :
    let (after, exit) = cmd_run flags process_daemon in
    (made.state after.world ≡ stopped)
    × (after.world ≡ (made.stop (made.exec flags.rest after_create.world).0).0)
    × (exit ≡ exits (pos 1))
unfolding instance_at
cmd_run-stops_example =
    cmd_run-stops (process_driver-Reaps logging) flags process_daemon after_create made refl
      creates_it (0, "000102030405", some (run_spec "" ("false" ∷ [])), refl)

exit_code : (cmd_run flags process_daemon).1 ≡ exits (pos 1)
unfolding evaluated process_daemon
exit_code = refl

abbrev server : Server FakeWorld
server = http_handler one_sandbox "fake"

abbrev request : NewSandbox
request = record { template_id = "base"; timeout = pos 60; env_vars = [] }

abbrev answered : SandboxResp
answered = sandbox_resp "base" "060708090a0b"

abbrev everything : List SandboxResp
everything = answered ∷ sandbox_resp "" first_id ∷ []

posted : (serve (creates (pos 5) (some request)) server).1 ≡ by_e2b (answer 201 (sandbox answered))
unfolding evaluated
posted = refl

still_listed :
    let killed =
      (serve (kills answered.sandbox_id) (serve (creates (pos 5) (some request)) server).0).0 in
    (serve lists killed).1 ≡ by_e2b (answer 200 (sandboxes everything))
unfolding evaluated sandbox_resp
still_listed = refl

-- a sandbox that is created after the manager's Shutdown is left running
left_over :
    let after = (serve_http (signalled (creates (pos 5) (some request) ∷ [])) server).0 in
    (after.daemon.world.states 0 ≡ stopped) × (after.daemon.world.states 1 ≡ running)
unfolding evaluated serve_http
left_over = (refl, refl)

kills-lists_example : Memᴰ answered everything
kills-lists_example = kills-lists (pos 5) request server answered everything posted still_listed

mounted :
    (mount "/sandboxes" ≡ collection)
    × (mount "/sandboxes/abc" ≡ items)
    × (mount "/v1/sandboxes" ≡ native)
unfolding evaluated
mounted = (refl, refl, refl)

selected :
    (subcommand ("vessel" ∷ "run" ∷ "ls" ∷ []) ≡ runs_run ("ls" ∷ []))
    × (subcommand ("vessel" ∷ []) ≡ usage)
    × (listen_on "unix:///a.sock" ≡ on_unix "/a.sock")
    × (listen_on "" ≡ on_vsock 5000)
    × (listen_on "tcp:1" ≡ bad_address "tcp:1")
unfolding evaluated
selected = (refl, refl, refl, refl, refl)

abbrev environment : Environment
environment = record { getenv = λ _. ""; scan_int = λ _. none }

abbrev named : String → Driver FakeWorld
named name = record fake { name = name }

abbrev drivers : Drivers FakeWorld
drivers = record {
  process = named "process";
  cloudhypervisor = λ _. named "cloudhypervisor";
  warm = λ _ w. w;
}

abbrev assets : Assets
assets = record {
  dir = "/h/.vessel";
  ch_binary = "/h/.vessel/bin/cloud-hypervisor";
  kernel_path = "/h/.vessel/vmlinux";
  rootfs_path = "/h/.vessel/rootfs.img";
  kvm = true;
}
