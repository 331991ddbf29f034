-- ===== src/Command.antt =====
-- cmd/vessel/main.go: the daemon's command line. The flag package, the listener and the two drivers
-- are arguments: flags come parsed, the drivers as values of the interface `Driver`.
pub mod Server
pub mod Running
pub mod ContainerdShim
mod Scenarios
use vessel.Prelude.{
  ℕ, String, str_eq, Option, none, some, List, [], ◌∷◌, if◌then◌else◌, Bool, true, false, is_empty,
  ◌&&◌,
}
use vessel.Prelude.Int.{ℤ, pos}
use vessel.Prelude.Prefix.{drop_prefix}
use vessel.Dict
use vessel.Dict.{Dict}
use vessel.Files.{Faults, remove}
use vessel.Sandbox.{Result, ok, err, panic, Spec, Instance, Driver, ExecOutput}
use vessel.Sandbox.Manager.{Daemon, new_manager, register_driver, create, shutdown}

-- how a command ends: with an exit code, or by a panic
pub data Exit : Type 0 where
  exits : ℤ → Exit
  crashes : Exit

pub record ChConfig : Type 0 where
  pub binary_path : String
  pub kernel_path : String
  pub rootfs_path : String
  pub pool_size : ℤ

-- os.Getenv, and fmt.Sscanf with "%d"
pub record Environment : Type 0 where
  pub getenv : String → String
  pub scan_int : String → Option ℤ

or_env : Environment → String → String → String
or_env env value name = if str_eq value "" then env.getenv name else value

-- two, unless $VESSEL_POOL starts with a number
pool_size : Environment → ℤ
pool_size env =
    if str_eq (env.getenv "VESSEL_POOL") ""
    then pos 2
    else elim (env.scan_int (env.getenv "VESSEL_POOL")) [ none ↦ pos 2 | some n ↦ n ]

unfoldable pub ch_config : Environment → String → String → ChConfig
unfolding or_env pool_size
ch_config env kernel rootfs = record {
  binary_path = env.getenv "VESSEL_CH_BINARY";
  kernel_path = or_env env kernel "VESSEL_KERNEL";
  rootfs_path = or_env env rootfs "VESSEL_ROOTFS";
  pool_size = pool_size env;
}

-- the two drivers that the command registers
pub record Drivers (W : Type 0) : Type 0 where
  pub process : Driver W
  pub cloudhypervisor : ChConfig → Driver W
  -- Warm of the second
  pub warm : ChConfig → W → W

pub record RunFlags : Type 0 where
  pub driver : String
  pub rootfs : String
  pub rest : List String

-- the exit code of what Exec returned
unfoldable pub exit_of : Result ExecOutput → Exit
exit_of (ok out) = exits out.code
exit_of (err e) = exits (pos 1)
exit_of panic = crashes

unfoldable pub run_spec : String → List String → Spec
run_spec rootfs cmd = record {
  name = "";
  rootfs = rootfs;
  cmd = cmd;
  env = [];
  vcpus = pos 0;
  mem_mib = pos 0;
  timeout = pos 0;
  netns = "";
}

module _ {W : Type 0} where
  unfoldable pub manager_with : Drivers W → ChConfig → W → Daemon W
  unfolding new_manager register_driver
  manager_with drivers config w =
      register_driver (drivers.cloudhypervisor config)
        (register_driver drivers.process (record { manager = new_manager; world = w }))

  unfoldable pub daemon_manager : Drivers W → Environment → String → String → W → Daemon W
  unfolding manager_with ch_config
  daemon_manager drivers env kernel rootfs w = manager_with drivers (ch_config env kernel rootfs) w

  -- the deferred Stop, whose error is dropped and whose panic crashes the command
  unfoldable pub stop_after : Instance W → Exit → W → W × Exit
  stop_after i exit w =
      let (w, r) = i.stop w in (w, elim r [ ok _ ↦ exit | err _ ↦ exit | panic ↦ crashes ])

  unfoldable pub exec_and_stop : Instance W → List String → W → W × Exit
  unfolding exit_of stop_after
  exec_and_stop i cmd w = let (w, r) = i.exec cmd w in stop_after i (exit_of r) w

  unfoldable pub run_created : List String → Daemon W × Result (Instance W) → Daemon W × Exit
  unfolding exec_and_stop
  run_created cmd (s, ok i) =
      let (w, exit) = exec_and_stop i cmd s.world in (record s { world = w }, exit)
  run_created cmd (s, err e) = (s, exits (pos 1))
  run_created cmd (s, panic) = (s, crashes)

  unfoldable pub cmd_run : RunFlags → Daemon W → Daemon W × Exit
  unfolding run_created run_spec create
  cmd_run flags s =
      let ran =
        run_created flags.rest (create flags.driver (some (run_spec flags.rootfs flags.rest)) s) in
      if is_empty flags.rest then (s, exits (pos 2)) else ran

-- where `vessel agent` listens: "", a unix socket, or an address that it refuses
pub data Listen : Type 0 where
  on_vsock : ℕ → Listen
  on_unix : String → Listen
  bad_address : String → Listen

unfoldable pub listen_on : String → Listen
unfolding drop_prefix
listen_on address =
    if str_eq address "" then on_vsock 5000 else elim (drop_prefix "unix://" address) [
      | some path ↦ on_unix path
      | none ↦ bad_address address
    ]

abbrev pub default_path : String
default_path = "/usr/local/sbin:/usr/local/bin:/usr/sbin:/usr/bin:/sbin:/bin"

-- the environment of process 1 has no PATH
unfoldable pub agent_path : String → String
agent_path path = if str_eq path "" then default_path else path

-- a stale socket goes before the address is bound; false where there is none to bind
unfoldable pub prepare_socket : Faults → Listen → Dict String → Dict String × Bool
unfolding remove
prepare_socket faults (on_vsock port) files = (files, true)
prepare_socket faults (on_unix path) files = (remove faults path files, true)
prepare_socket faults (bad_address address) files = (files, false)

-- 1 where the listener cannot be had or Serve returns an error, else 0
unfoldable pub cmd_agent : Faults → Bool → Bool → String → Dict String → Dict String × Exit
unfolding prepare_socket listen_on
cmd_agent faults listens serves address files =
    let (files, usable) = prepare_socket faults (listen_on address) files in
    (files, exits (if usable then if listens && serves then pos 0 else pos 1 else pos 1))

-- the subcommand of os.Args
pub data Subcommand : Type 0 where
  runs_up runs_run runs_serve runs_agent : List String → Subcommand
  runs_info usage : Subcommand

select : String → List String → Subcommand
select name args =
    if str_eq name "up"
    then runs_up args
    else if str_eq name "run"
    then runs_run args
    else if str_eq name "serve"
    then runs_serve args
    else if str_eq name "agent"
    then runs_agent args
    else if str_eq name "info"
    then runs_info
    else usage

unfoldable pub subcommand : List String → Subcommand
unfolding select
subcommand [] = usage
subcommand (self ∷ []) = usage
subcommand (self ∷ name ∷ args) = select name args
