-- ===== src/Shim/Running.antt =====
-- pkg/shim: RunDaemon and NewServiceFromConfig of bootstrap.go, NewService of service.go and Serve of
-- serve.go. The ttrpc server is an argument.
pub mod Setup
mod Scenarios
use vessel.Prelude.{
  ℕ, ◌%◌, ◌^◌, String, str_eq, Bool, true, false, ◌&&◌, Option, none, some, [], if◌then◌else◌,
}
use vessel.Dict
use vessel.Dict.{Dict}
use vessel.Heap.{no_cells}
use vessel.Sandbox.Manager.{Daemon}
use vessel.Command.{ChConfig, Drivers, manager_with}
use vessel.Shim.{Template, Surroundings, Service}
use vessel.Shim.Config.{
  Config, ReadFile, Loaded, loaded, read_failed, parse_failed, path_required, load_config,
  default_driver, lookup,
}

-- an interface value, `none` for nil
pub record Templates : Type 0 where
  pub lookup_template : String → Option Template

unfoldable pub map_templates : Dict Template → Templates
unfolding lookup
map_templates m = record { lookup_template = λ id. lookup m id }

unfoldable pub templates_or_none : Option Templates → Templates
unfolding map_templates
templates_or_none none = map_templates Dict.empty
templates_or_none (some t) = t

-- the configuration's registry where none is given; a nil map and an empty one are the same table
unfoldable pub templates_or_registry : Option Templates → Dict Template → Option Templates
unfolding map_templates
templates_or_registry none m = if Dict.is_empty_dict m then none else some (map_templates m)
templates_or_registry (some t) m = some t

-- how a server went: whether one can be made, whether the context was done when it ended and the
-- select saw that, and what the server returned
pub record Served : Type 0 where
  pub new_server_error : Option String
  pub is_cancelled : Bool
  pub sees_cancel : Bool
  pub server_error : Option String

-- the error of Serve
unfoldable pub serve : Served → Option String
serve r = elim r.new_server_error [
  | some e ↦ some e
  | none ↦ if r.is_cancelled && r.sees_cancel then some "context canceled" else r.server_error
]

-- a service without an error on its listener, or with a context that is done, ends cleanly
unfoldable pub ending : Served → Option String
unfolding serve
ending r = if r.is_cancelled then none else serve r

-- what the daemon finds: its descriptor 3, its configuration file, and containerd's endpoint
pub record Inherited : Type 0 where
  pub has_fd : Bool
  pub is_listener : Bool
  pub config_env : String
  pub read : String → ReadFile
  pub decode : String → Option Config
  pub ttrpc_address : String
  pub connects : String → Bool

pub data Stage : Type 0 where
  finished : Stage
  no_listener not_a_listener bad_config : Stage
  serve_failed : String → Stage

module _ {W : Type 0} where
  unfoldable pub new_service : Surroundings → ℕ → Daemon W → String → Option Templates → Service W
  unfolding templates_or_none no_cells
  new_service around pid s driver templates = record {
    daemon = s;
    around = record around { lookup_template = (templates_or_none templates).lookup_template };
    default_driver = driver;
    pid = pid % 2 ^ 32;
    has_publisher = false;
    has_on_shutdown = false;
    tasks = Dict.empty;
    task_cells = no_cells;
    exec_cells = no_cells;
    jobs = [];
    next_channel = 0;
    closed = [];
    events = [];
    outputs = [];
    is_shut_down = false;
  }

  unfoldable pub new_manager_from_config : Drivers W → Config → W → Daemon W
  unfolding manager_with
  new_manager_from_config drivers c w =
      let config : ChConfig = record {
        binary_path = c.ch_binary;
        kernel_path = c.kernel;
        rootfs_path = c.rootfs;
        pool_size = c.pool;
      } in
      manager_with drivers config w

  unfoldable pub new_service_from_config :
      Surroundings → ℕ → Drivers W → Config → Option Templates → W → Service W
  unfolding new_service new_manager_from_config templates_or_registry default_driver
  new_service_from_config around pid drivers c templates w =
      new_service around pid (new_manager_from_config drivers c w) (default_driver c)
        (templates_or_registry templates c.templates)

  unfoldable pub set_publisher : Inherited → Service W → Service W
  set_publisher i s =
      if str_eq i.ttrpc_address ""
      then s
      else if i.connects i.ttrpc_address
      then record s { has_publisher = true }
      else s

  -- the service of RunDaemon, before it serves
  unfoldable pub daemon_service : Inherited → Surroundings → ℕ → Drivers W → Config → W → Service W
  unfolding new_service new_manager_from_config map_templates set_publisher default_driver
  daemon_service i around pid drivers c w =
      let made =
        new_service around pid (new_manager_from_config drivers c w) (default_driver c)
          (some (map_templates c.templates)) in
      let wired = set_publisher i made in record wired { has_on_shutdown = true }

  -- `transport` is the ttrpc server on a service
  unfoldable pub serve_daemon : (Service W → Service W × Served) → Service W → Service W × Stage
  unfolding ending
  serve_daemon transport s =
      let (s, r) = transport s in
      elim (ending r) [ none ↦ (s, finished) | some e ↦ (s, serve_failed e) ]

  unfoldable pub run_daemon :
      Inherited
      → Surroundings
      → ℕ
      → Drivers W
      → (Service W → Service W × Served)
      → W
      → Option (Service W) × Stage
  unfolding serve_daemon daemon_service load_config
  run_daemon i around pid drivers transport w =
      if i.has_fd
      then if i.is_listener
        then elim (load_config i.config_env i.read i.decode "") [
          | loaded c ↦
              let (s, stage) = serve_daemon transport (daemon_service i around pid drivers c w) in
              (some s, stage)
          | read_failed _ ↦ (none, bad_config)
          | parse_failed ↦ (none, bad_config)
          | path_required ↦ (none, bad_config)
        ]
        else (none, not_a_listener)
      else (none, no_listener)
