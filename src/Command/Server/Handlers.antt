-- ===== src/Command/Server/Handlers.antt =====
-- cmd/vessel/main.go: the daemon's parts together: its handlers, its manager and its drivers.
use mathlib.Core.List.{Memᴰ}
use vessel.Prelude.{
  ◌≡◌, refl, ap, sym, ◌∙◌, some, List, arith, str_eq, map, if◌then◌else◌, Bool-cases, inl, inr,
}
use vessel.Prelude.Int.{ℤ}
use vessel.Dict
use vessel.Dict.{Dict, get-put}
use vessel.Sandbox.{Instance, Driver}
use vessel.Sandbox.Manager.{
  Daemon, Manager, Entry, list as manager_list, new_manager, register_driver,
}
use vessel.E2b
use vessel.E2b.{
  Handler, NewSandbox, SandboxMeta, SandboxResp, sandbox, sandboxes, sandbox_resp, template_of,
  answer,
}
use vessel.E2b.Killing.{kill-keeps}
use vessel.E2b.Routes.{create-lists}
use vessel.Bootstrap.{Assets}
use vessel.Command.{Environment, Drivers, ChConfig, ch_config, manager_with, daemon_manager}
use vessel.Command.Server.{
  Server, creates, lists, kills, by_e2b, serve, http_handler, start_up, with_assets, by_collection,
  by_items,
}

module _ {W : Type 0} where
  -- the listing is made of the manager's sandboxes and the handler's own map
  rows : Daemon W → Dict SandboxMeta → List SandboxResp
  rows s meta = map (λ (i : Instance W). sandbox_resp (template_of meta i.id) i.id) (manager_list s)

  rows-manager :
      (s t : Daemon W) (meta : Dict SandboxMeta) → s.manager ≡ t.manager → rows s meta ≡ rows t meta
  unfolding rows manager_list
  rows-manager s t meta same =
      ap
        (λ (m : Manager W).
          map (λ (i : Instance W). sandbox_resp (template_of meta i.id) i.id)
            (map (λ (x : Entry W). x.inst) (Dict.values m.instances)))
        same

  -- A sandbox that POST /sandboxes answered with 201 stands in GET /sandboxes as it was answered, its
  -- template id included, also after DELETE /sandboxes/{id} of it, whatever that answers: the mux
  -- gives that route a handler with maps of its own, and no manager's entry goes.
  pub kills-lists :
      (now : ℤ) (req : NewSandbox) (s : Server W) (resp : SandboxResp) (all : List SandboxResp)
      → (serve (creates now (some req)) s).1 ≡ by_e2b (answer 201 (sandbox resp))
      → let killed = (serve (kills resp.sandbox_id) (serve (creates now (some req)) s).0).0 in
        (serve lists killed).1 ≡ by_e2b (answer 200 (sandboxes all)) → Memᴰ resp all
  unfolding serve by_collection by_items rows E2b.list
  kills-lists now req s resp all e l =
      let start : Handler W = record s.of_collection { daemon = s.daemon } in
      let made = E2b.create now (some req) start in
      let other : Handler W = record s.of_items { daemon = made.0.daemon } in
      let killed = E2b.kill resp.sandbox_id other in
      let same =
        rows-manager killed.0.daemon made.0.daemon made.0.meta
          (kill-keeps resp.sandbox_id other).0 in
      let answered : made.1 ≡ answer 201 (sandbox resp) = ground (arith, e) in
      let listed : rows killed.0.daemon made.0.meta ≡ all = ground (arith, l) in
      let before : (E2b.list made.0).1 ≡ answer 200 (sandboxes all) =
        ap (λ x. answer 200 (sandboxes x)) (sym same ∙ listed) in
      (create-lists now req start resp all answered before).1

module _ {W : Type 0} where
  registered : Drivers W → ChConfig → Dict (Driver W)
  registered drivers config =
      Dict.put (Dict.put Dict.empty drivers.process.name drivers.process)
        (drivers.cloudhypervisor config).name (drivers.cloudhypervisor config)

  manager_with-ch :
      (drivers : Drivers W) (config : ChConfig)
      → (drivers.cloudhypervisor config).name ≡ "cloudhypervisor"
      → (d : Driver W) × (Dict.get (registered drivers config) "cloudhypervisor" ≡ some d)
  unfolding registered
  manager_with-ch drivers config ch =
      let d = drivers.cloudhypervisor config in
      let base = Dict.put Dict.empty drivers.process.name drivers.process in
      (
        d,
        get-put base d.name "cloudhypervisor" d
            ∙ ap
                (λ n.
                  if str_eq n "cloudhypervisor" then some d else Dict.get base "cloudhypervisor")
                ch,
      )

  manager_with-process :
      (drivers : Drivers W) (config : ChConfig)
      → drivers.process.name ≡ "process"
      → (drivers.cloudhypervisor config).name ≡ "cloudhypervisor"
      → (d : Driver W) × (Dict.get (registered drivers config) "process" ≡ some d)
  unfolding registered
  manager_with-process drivers config process ch =
      let d = drivers.process in
      let base = Dict.put Dict.empty d.name d in
      let other = drivers.cloudhypervisor config in
      (
        d,
        get-put base other.name "process" other
            ∙ ap (λ n. if str_eq n "process" then some other else Dict.get base "process") ch
            ∙ get-put Dict.empty d.name "process" d
            ∙ ap (λ n. if str_eq n "process" then some d else Dict.get Dict.empty "process")
                process,
      )

  -- The default driver of the two E2B handlers of `vessel up` is registered, with KVM and without,
  -- where the drivers go by their names.
  pub start_up-registers :
      (drivers : Drivers W) (env : Environment) (a : Assets) (w : W)
      → drivers.process.name ≡ "process"
      → ((config : ChConfig) → (drivers.cloudhypervisor config).name ≡ "cloudhypervisor")
      → let s = start_up drivers env a w in
        (s.of_items.default_driver ≡ s.of_collection.default_driver)
        × ((d : Driver W) × (Dict.get s.daemon.drivers s.of_collection.default_driver ≡ some d))
  unfolding start_up registered http_handler daemon_manager manager_with register_driver new_manager
  start_up-registers drivers env a w process ch = elim (Bool-cases a.kvm) [
    | inl kvm ↦
        rw (kvm, start_up)
          (
            refl,
            (manager_with-ch drivers (ch_config (with_assets a env) a.kernel_path a.rootfs_path)
                (ch _)),
          )
    | inr no_kvm ↦
        rw (no_kvm, start_up)
          (refl, (manager_with-process drivers (ch_config env "" "") process (ch _)))
  ]
