-- ===== src/Command/Server.antt =====
-- cmd/vessel/main.go: `vessel serve` and `vessel up`, the mux over the two HTTP interfaces, and
-- `vessel agent`. What the listener reports, and the assets, are arguments.
pub mod Handlers
use Prim.Native.String.{◌++◌ as append}
use text.Mathlib.Text.{starts_with}
use vessel.Prelude.{
  ℕ, String, str_eq, Option, none, some, List, [], ◌∷◌, if◌then◌else◌, Bool, true, false,
}
use vessel.Prelude.Int.{ℤ, pos}
use vessel.Sandbox.{Result, ok, err, panic}
use vessel.Sandbox.Manager.{Daemon, shutdown}
use vessel.Api
use vessel.E2b
use vessel.E2b.{Handler, new_handler}
use vessel.Bootstrap.{Assets, Fallible, got, failed}
use vessel.Command.{Exit, exits, crashes, Environment, Drivers, ch_config, daemon_manager}

-- which of the three handlers net/http's mux picks for a path
pub data Mount : Type 0 where
  native collection items : Mount

unfoldable pub mount : String → Mount
mount path =
    if str_eq path "/sandboxes"
    then collection
    else if starts_with path "/sandboxes/"
    then items
    else native

pub data Request : Type 0 where
  to_native : Api.Request → Request
  creates : ℤ → Option E2b.NewSandbox → Request
  lists : Request
  kills : String → Request

pub data Response : Type 0 where
  by_native : Option Api.Response → Response
  by_e2b : Option E2b.Response → Response

-- the manager is shared; each call of NewHandler made maps of its own
pub record Server (W : Type 0) : Type 0 where
  pub daemon : Daemon W
  pub of_collection : Handler W
  pub of_items : Handler W

module _ {W : Type 0} where
  unfoldable pub http_handler : Daemon W → String → Server W
  unfolding new_handler
  http_handler s driver = record {
    daemon = s;
    of_collection = new_handler s driver;
    of_items = new_handler s driver;
  }

  unfoldable pub by_collection :
      (Handler W → Handler W × Option E2b.Response) → Server W → Server W × Response
  by_collection op s =
      let (h, r) = op (record s.of_collection { daemon = s.daemon }) in
      (record s { daemon = h.daemon; of_collection = h }, by_e2b r)

  unfoldable pub by_items :
      (Handler W → Handler W × Option E2b.Response) → Server W → Server W × Response
  by_items op s =
      let (h, r) = op (record s.of_items { daemon = s.daemon }) in
      (record s { daemon = h.daemon; of_items = h }, by_e2b r)

  unfoldable pub serve : Request → Server W → Server W × Response
  unfolding by_collection by_items Api.serve E2b.create E2b.list E2b.kill
  serve (to_native req) s =
      let (d, r) = Api.serve req s.daemon in (record s { daemon = d }, by_native r)
  serve (creates now req) s = by_collection (λ h. E2b.create now req h) s
  serve lists s = by_collection (λ h. E2b.list h) s
  serve (kills id) s = by_items (λ h. E2b.kill id h) s

  unfoldable pub serve_all : List Request → Server W → Server W
  unfolding serve
  serve_all [] s = s
  serve_all (req ∷ reqs) s = serve_all reqs (serve req s).0

-- what ends the server: its listener, with or without an error, or a signal, with the requests that
-- are served after the manager's Shutdown until the server's own has returned
pub data End : Type 0 where
  listener_failed : String → End
  listener_closed : End
  signalled : List Request → End

-- the server goes on until srv.Shutdown, which comes after mgr.Shutdown
unfoldable pub after_shutdown :
    {W : Type 0} → List Request → Server W → Daemon W × Result (Unit {0}) → Server W × Exit
unfolding serve_all
after_shutdown reqs s (d, ok _) = (serve_all reqs (record s { daemon = d }), exits (pos 0))
after_shutdown reqs s (d, err e) = (serve_all reqs (record s { daemon = d }), exits (pos 0))
after_shutdown reqs s (d, panic) = (record s { daemon = d }, crashes)

set_ch_binary : String → Environment → Environment
set_ch_binary path env = record env {
  getenv = λ name. if str_eq name "VESSEL_CH_BINARY" then path else env.getenv name;
}

-- the environment with $VESSEL_CH_BINARY, where it was empty
with_assets : Assets → Environment → Environment
unfolding set_ch_binary
with_assets a env =
    if str_eq (env.getenv "VESSEL_CH_BINARY") "" then set_ch_binary a.ch_binary env else env

module _ {W : Type 0} where
  -- from the end of the server on
  unfoldable pub serve_http : End → Server W → Server W × Exit
  unfolding after_shutdown shutdown
  serve_http (listener_failed e) s = (s, exits (pos 1))
  serve_http listener_closed s = (s, exits (pos 0))
  serve_http (signalled reqs) s = after_shutdown reqs s (shutdown s.daemon)

  -- the daemon of `serve`, warmed, with its default driver
  unfoldable pub start_serve : Drivers W → Environment → W → Server W
  unfolding http_handler daemon_manager ch_config
  start_serve drivers env w =
      let warm = drivers.warm (ch_config env "" "") w in
      http_handler (daemon_manager drivers env "" "" warm) "cloudhypervisor"

  -- the daemon of `up`: with KVM the assets and a warm pool, else the process driver
  unfoldable pub start_up : Drivers W → Environment → Assets → W → Server W
  unfolding http_handler daemon_manager ch_config with_assets
  start_up drivers env a w =
      let found = with_assets a env in
      let warm = drivers.warm (ch_config found a.kernel_path a.rootfs_path) w in
      if a.kvm
      then http_handler (daemon_manager drivers found a.kernel_path a.rootfs_path warm)
          "cloudhypervisor"
      else http_handler (daemon_manager drivers env "" "" w) "process"

  unfoldable pub cmd_up : Drivers W → Environment → Fallible Assets → W → Option (Server W)
  unfolding start_up
  cmd_up drivers env (failed e) w = none
  cmd_up drivers env (got a) w = some (start_up drivers env a w)
