-- ===== src/Shim/Running/Scenarios.antt =====
-- A node with a kernel and one template, over the in-memory driver.
use vessel.Prelude.{String, ◌≡◌, refl, none, some, true, false}
use vessel.Prelude.Int.{pos}
use vessel.Dict
use vessel.Sandbox.{Driver}
use vessel.Sandbox.Fake.{FakeWorld}
use vessel.Sandbox.Scenarios.{quiet, fake}
use vessel.Command.{Drivers}
use vessel.Shim.{Surroundings, Service}
use vessel.Shim.Config.{Config, bytes, load_config}
use vessel.Shim.Task.{shutdown}
use vessel.Shim.Running.{
  Inherited, Served, bad_config, new_service_from_config, daemon_service, run_daemon, ending,
  map_templates, serve_failed, not_a_listener,
}
use vessel.Shim.Running.Setup.{daemon_service-new_service_from_config}

abbrev named : String → Driver FakeWorld
named name = record fake { name = name }

abbrev drivers : Drivers FakeWorld
drivers = record {
  process = named "process";
  cloudhypervisor = λ _. named "cloudhypervisor";
  warm = λ _ w. w;
}

abbrev around : Surroundings
around = record {
  lookup_template = λ _. none;
  annotations = λ _. none;
  namespaces = λ _. none;
  opens = λ _. true;
}

evaluated : Unit {0}
unfolding Dict.put Dict.get Dict.empty Dict.values run_daemon map_templates new_service_from_config
    load_config ending
evaluated = tt

abbrev node : Config
unfolding Dict.put Dict.empty
node = record {
  kernel = "/boot/vmlinux";
  rootfs = "/var/rootfs.img";
  ch_binary = "";
  pool = pos 2;
  templates = Dict.put Dict.empty "py" (record { driver = ""; path = "/tpl/py" });
}

abbrev inherited : Inherited
inherited = record {
  has_fd = true;
  is_listener = true;
  config_env = "";
  read = λ _. bytes "{}";
  decode = λ _. some node;
  ttrpc_address = "/run/containerd/containerd.sock.ttrpc";
  connects = λ _. false;
}

abbrev broken : Service FakeWorld → Service FakeWorld × Served
broken s = (
  s,
  record {
    new_server_error = none;
    is_cancelled = false;
    sees_cancel = false;
    server_error = some "accept";
  },
)

ran :
    ((run_daemon inherited around 7 drivers broken quiet).1 ≡ serve_failed "accept")
    × ((run_daemon (record inherited { decode = λ _. none }) around 7 drivers broken quiet).1
        ≡ bad_config)
    × ((run_daemon (record inherited { is_listener = false }) around 7 drivers broken quiet).1
        ≡ not_a_listener)
unfolding evaluated
ran = (refl, refl, refl)

explicit :
    let empty = some (map_templates Dict.empty) in
    (new_service_from_config around 7 drivers node empty quiet).around.lookup_template "py" ≡ none
unfolding evaluated
explicit = refl

daemon_service-new_service_from_config_example :
    let a = daemon_service inherited around 7 drivers node quiet in
    let b = new_service_from_config around 7 drivers node none quiet in
    ((id : String) → a.around.lookup_template id ≡ b.around.lookup_template id)
    × (a.daemon ≡ b.daemon)
    × (a.default_driver ≡ b.default_driver)
    × ((d : Driver FakeWorld) × (Dict.get a.daemon.manager.drivers a.default_driver ≡ some d)
        × (d.name ≡ a.default_driver))
    × ((shutdown a).is_shut_down ≡ true)
    × ((shutdown b).is_shut_down ≡ false)
daemon_service-new_service_from_config_example =
    daemon_service-new_service_from_config inherited around 7 drivers node quiet refl (λ _. refl)
