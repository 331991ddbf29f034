-- ===== src/E2b.antt =====
-- pkg/e2b/e2b.go: the E2B-compatible control plane over the manager. A request carries its decoded
-- JSON body, `none` where decoding fails; `now` is the clock. A handler that panics is aborted by
-- net/http with no response, which is `none`.
pub mod Routes
pub mod Killing
mod Scenarios
use vessel.Prelude.{
  ℕ, ◌*◌, String, str_eq, Option, none, some, List, [], ◌∷◌, ◌++◌, map, if◌then◌else◌, Bool, true,
  false, not,
}
use vessel.Prelude.Int.{ℤ, pos_part}
use vessel.Dict
use vessel.Dict.{Dict}
use vessel.Sandbox.{Error, Result, ok, err, panic, Spec, Instance}
use vessel.Sandbox.Manager.{
  Daemon, create as manager_create, find, list as manager_list, restore_from,
}

pub record Template : Type 0 where
  pub driver : String
  pub snapshot_path : String

pub record SandboxMeta : Type 0 where
  pub template_id : String
  pub created_at : ℤ

-- the manager, which others share, and the handler's own maps
pub record Handler (W : Type 0) : Type 0 where
  pub daemon : Daemon W
  pub default_driver : String
  pub templates : Dict Template
  pub meta : Dict SandboxMeta

-- the body's metadata is decoded and never read
pub record NewSandbox : Type 0 where
  pub template_id : String
  pub timeout : ℤ
  pub env_vars : List (String × String)

pub record SandboxResp : Type 0 where
  pub template_id : String
  pub sandbox_id : String
  pub client_id : String
  pub envd_version : String
  pub envd_access_token : Option String

-- e2bError: the code is the status; the message is the handler's own or an error's
pub data Body : Type 0 where
  blank : Body
  message : String → Body
  failure : Error → Body
  sandbox : SandboxResp → Body
  sandboxes : List SandboxResp → Body

pub record Response : Type 0 where
  pub status : ℕ
  pub body : Body

abbrev pub answer : ℕ → Body → Option Response
answer status body = some (record { status = status; body = body })

unfoldable pub sandbox_resp : String → String → SandboxResp
sandbox_resp template id = record {
  template_id = template;
  sandbox_id = id;
  client_id = "vessel";
  envd_version = "vessel-0.2";
  envd_access_token = none;
}

unfoldable pub fresh_spec : NewSandbox → Spec
fresh_spec req = record {
  name = req.template_id;
  rootfs = "";
  cmd = [];
  env = req.env_vars;
  vcpus = ℤ.pos 0;
  mem_mib = ℤ.pos 0;
  timeout = ℤ.pos (pos_part req.timeout * 1000000000);
  netns = "";
}

-- m := h.meta[id], the zero value where it is missing
unfoldable pub template_of : Dict SandboxMeta → String → String
template_of meta id = elim (Dict.get meta id) [ none ↦ "" | some m ↦ m.template_id ]

module _ {W : Type 0} where
  unfoldable pub new_handler : Daemon W → String → Handler W
  new_handler s driver = record {
    daemon = s;
    default_driver = driver;
    templates = Dict.empty;
    meta = Dict.empty;
  }

  unfoldable pub register_template : String → Template → Handler W → Handler W
  register_template id t h = record h { templates = Dict.put h.templates id t }

  -- mgr.Create on the default driver
  unfoldable pub create_fresh : NewSandbox → Handler W → Daemon W × Result (Instance W)
  unfolding manager_create fresh_spec
  create_fresh req h = manager_create h.default_driver (some (fresh_spec req)) h.daemon

  -- mgr.RestoreFrom with the template's driver, or the default one
  unfoldable pub restore_template : Template → Handler W → Daemon W × Result (Instance W)
  unfolding restore_from
  restore_template t h =
      let driver = if str_eq t.driver "" then h.default_driver else t.driver in
      restore_from driver t.snapshot_path (record { netns = "" }) h.daemon

  unfoldable pub resolve_and_create : NewSandbox → Handler W → Daemon W × Result (Instance W)
  unfolding create_fresh restore_template
  resolve_and_create req h = elim (Dict.get h.templates req.template_id) [
    | none ↦ create_fresh req h
    | some t ↦ if str_eq t.snapshot_path "" then create_fresh req h else restore_template t h
  ]

  -- the end of `create`: the bookkeeping, then the response
  unfoldable pub record_created :
      ℤ → String → Handler W → Daemon W × Result (Instance W) → Handler W × Option Response
  unfolding sandbox_resp
  record_created now template h (s, ok i) = (
    record h {
      daemon = s;
      meta = Dict.put h.meta i.id (record { template_id = template; created_at = now });
    },
    answer 201 (sandbox (sandbox_resp template i.id)),
  )
  record_created now template h (s, err e) = (record h { daemon = s }, answer 500 (failure e))
  record_created now template h (s, panic) = (record h { daemon = s }, none)

  unfoldable pub create : ℤ → Option NewSandbox → Handler W → Handler W × Option Response
  unfolding record_created resolve_and_create
  create now none h = (h, answer 400 (message "invalid request body"))
  create now (some req) h =
      if str_eq req.template_id ""
      then (h, answer 400 (message "templateID is required"))
      else record_created now req.template_id h (resolve_and_create req h)

  unfoldable pub list : Handler W → Handler W × Option Response
  unfolding template_of sandbox_resp manager_list
  list h = (
    h,
    answer 200 (
        sandboxes (map (λ i. sandbox_resp (template_of h.meta i.id) i.id) (manager_list h.daemon))),
  )

  unfoldable pub finish_kill :
      String → Handler W → W × Result (Unit {0}) → Handler W × Option Response
  finish_kill id h (w, ok _) = (
    record h { daemon = record h.daemon { world = w }; meta = Dict.remove h.meta id },
    answer 204 blank,
  )
  finish_kill id h (w, err e) =
      (record h { daemon = record h.daemon { world = w } }, answer 500 (failure e))
  finish_kill id h (w, panic) = (record h { daemon = record h.daemon { world = w } }, none)

  -- inst.Stop, and not the manager's `Delete`
  unfoldable pub kill : String → Handler W → Handler W × Option Response
  unfolding find finish_kill
  kill id h = elim (find id h.daemon) [
    | none ↦ (h, answer 404 (message "sandbox not found"))
    | some i ↦ finish_kill id h (i.stop h.daemon.world)
  ]
