-- ===== src/Command/ContainerdShim.antt =====
-- cmd/containerd-shim-vessel-v1/main.go: the subcommands that containerd calls and the standalone
-- mode. Flags come parsed; the encoder of the delete response is an argument.
pub mod Standing
mod Scenarios
use vessel.Prelude.{
  ℕ, String, str_eq, Bool, true, false, Option, none, some, List, [], ◌∷◌, if◌then◌else◌,
}
use vessel.Prelude.Int.{pos}
use vessel.Dict
use vessel.Dict.{Dict}
use vessel.Files.{Faults, remove}
use vessel.Command.{Exit, exits, Drivers}
use vessel.Shim.{Surroundings, Service, Template}
use vessel.Shim.Bootstrap.{
  Host, Node, Started, started, failed, DeleteResponse, run_start, run_delete,
}
use vessel.Shim.Config.{
  Config, ReadFile, Loaded, loaded, read_failed, parse_failed, path_required, load_config,
  load_templates,
}
use vessel.Shim.Running.{
  Inherited, Templates, map_templates, Served, Stage, finished, no_listener, not_a_listener,
  bad_config, serve_failed, ending, new_service_from_config, run_daemon,
}

-- the subcommand, the first argument that is no flag
pub data Subcommand : Type 0 where
  starts deletes serves_alone serves unknown : Subcommand

unfoldable pub subcommand : String → Bool → Subcommand
subcommand name standalone =
    if str_eq name "start"
    then starts
    else if str_eq name "delete"
    then deletes
    else if str_eq name ""
    then if standalone then serves_alone else serves
    else unknown

-- what is printed for containerd to read, and the exit code
pub record Output : Type 0 where
  pub stdout : String
  pub exit : Exit

abbrev pub fatal : Output
fatal = record { stdout = ""; exit = exits (pos 1) }

abbrev pub prints : String → Output
prints text = record { stdout = text; exit = exits (pos 0) }

unfoldable pub cmd_start : Host → String → String → String → Node → Node × Output
unfolding run_start
cmd_start h namespace id address n =
    let (n, r) = run_start h namespace id address n in
    elim r [ started text ↦ (n, prints text) | failed _ ↦ (n, fatal) ]

unfoldable pub cmd_delete :
    (DeleteResponse → Option String) → Host → String → String → String → Node → Node × Output
unfolding run_delete
cmd_delete marshal h namespace id address n =
    let (n, r) = run_delete h namespace id address n in
    elim r [
      | none ↦ (n, fatal)
      | some response ↦ elim (marshal response) [
        | none ↦ (n, fatal)
        | some bytes ↦ (n, prints bytes)
      ]
    ]

module _ {W : Type 0} where
  unfoldable pub daemon_exit : Option (Service W) × Stage → Exit
  daemon_exit (s, finished) = exits (pos 0)
  daemon_exit (s, no_listener) = exits (pos 1)
  daemon_exit (s, not_a_listener) = exits (pos 1)
  daemon_exit (s, bad_config) = exits (pos 1)
  daemon_exit (s, serve_failed e) = exits (pos 1)

-- the registry of `-templates`, where that is given; `none` where it cannot be loaded
unfoldable pub explicit_templates :
    (String → ReadFile) → (String → Option (Dict Template)) → String → Option (Option Templates)
unfolding load_templates map_templates
explicit_templates read decode path =
    if str_eq path "" then some none else elim (load_templates read decode path) [
      | loaded m ↦ some (some (map_templates m))
      | read_failed _ ↦ none
      | parse_failed ↦ none
      | path_required ↦ none
    ]

-- what the standalone mode finds; `listens` is whether its socket can be bound
pub record Standalone : Type 0 where
  pub config_env : String
  pub read : String → ReadFile
  pub decode : String → Option Config
  pub decode_templates : String → Option (Dict Template)
  pub faults : Faults
  pub listens : Bool

module _ {W : Type 0} (transport : Service W → Service W × Served) where
  unfoldable pub serve_standalone : Service W → Option (Service W) × Exit
  unfolding ending
  serve_standalone s =
      let (s, r) = transport s in
      (some s, elim (ending r) [ none ↦ exits (pos 0) | some e ↦ exits (pos 1) ])

  -- a stale socket goes before the new one is bound
  unfoldable pub bind_and_serve :
      Standalone → String → Dict String → Service W → Dict String × Option (Service W) × Exit
  unfolding serve_standalone remove
  bind_and_serve a socket files s =
      let (done, exit) = serve_standalone s in
      (
        remove a.faults socket files,
        if a.listens then done else none,
        if a.listens then exit else exits (pos 1),
      )

  unfoldable pub run_standalone :
      Standalone
      → Surroundings
      → ℕ
      → Drivers W
      → String
      → String
      → Dict String
      → W
      → Dict String × Option (Service W) × Exit
  unfolding bind_and_serve explicit_templates load_config new_service_from_config
  run_standalone a around pid drivers socket path files w =
      elim (explicit_templates a.read a.decode_templates path) [
        | none ↦ (files, none, exits (pos 1))
        | some templates ↦ elim (load_config a.config_env a.read a.decode "") [
          | loaded c ↦
              bind_and_serve a socket files
                (new_service_from_config around pid drivers c templates w)
          | read_failed _ ↦ (files, none, exits (pos 1))
          | parse_failed ↦ (files, none, exits (pos 1))
          | path_required ↦ (files, none, exits (pos 1))
        ]
      ]
