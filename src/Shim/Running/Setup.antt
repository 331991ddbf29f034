-- ===== src/Shim/Running/Setup.antt =====
-- pkg/shim/bootstrap.go: the services that the daemon and the standalone mode make of one
-- configuration.
use vessel.Prelude.{
  ◌≡◌, refl, ap, sym, ◌∙◌, String, str_eq, Bool-cases, inl, inr, none, some, true, false,
  if◌then◌else◌, ℕ,
}
use vessel.Dict
use vessel.Dict.{Dict, get-empty, get-put, get-is_empty_dict}
use vessel.Sandbox.{Driver}
use vessel.Sandbox.Manager.{register_driver, new_manager}
use vessel.Command.{ChConfig, Drivers, manager_with}
use vessel.Shim.{Template, Surroundings, Service}
use vessel.Shim.Config.{Config, default_driver, lookup}
use vessel.Shim.Task.{shutdown}
use vessel.Shim.Running.{
  map_templates, templates_or_none, templates_or_registry, Inherited, new_service,
  new_manager_from_config, new_service_from_config, set_publisher, daemon_service,
}

registry-lookup :
    (m : Dict Template) (id : String)
    → (templates_or_none (templates_or_registry none m)).lookup_template id ≡ lookup m id
unfolding templates_or_none templates_or_registry map_templates lookup
registry-lookup m id = elim (Bool-cases (Dict.is_empty_dict m)) [
  | inl empty ↦ rw (empty) (get-empty id ∙ sym (get-is_empty_dict m id empty))
  | inr filled ↦ rw (filled) refl
]

module _ {W : Type 0} where
  set_publisher-same :
      (i : Inherited) (s : Service W)
      → set_publisher i s ≡ record s { has_publisher = (set_publisher i s).has_publisher }
  unfolding set_publisher
  set_publisher-same i s = elim (Bool-cases (str_eq i.ttrpc_address "")) [
    | inl standalone ↦ rw standalone refl
    | inr given ↦ elim (Bool-cases (i.connects i.ttrpc_address)) [
      | inl reached ↦ rw (given, reached) refl
      | inr missing ↦ rw (given, missing) refl
    ]
  ]

  manager_with-get :
      (drivers : Drivers W) (config : ChConfig) (w : W) (key : String)
      → Dict.get (manager_with drivers config w).manager.drivers key ≡ (
          if str_eq (drivers.cloudhypervisor config).name key
          then some (drivers.cloudhypervisor config)
          else if str_eq drivers.process.name key
          then some drivers.process
          else none)
  unfolding manager_with register_driver new_manager
  manager_with-get drivers config w key =
      let p = drivers.process in
      let d = drivers.cloudhypervisor config in
      let first : Dict.get (Dict.put Dict.empty p.name p) key
          ≡ (if str_eq p.name key then some p else none) =
        get-put Dict.empty p.name key p ∙ rw (get-empty key) refl in
      rw get-put (ap (λ o. if str_eq d.name key then some d else o) first)

  default_driver-registered :
      (drivers : Drivers W) (c : Config) (w : W)
      → drivers.process.name ≡ "process"
      → ((config : ChConfig) → (drivers.cloudhypervisor config).name ≡ "cloudhypervisor")
      → (d : Driver W) × (Dict.get
            (new_manager_from_config drivers c w).manager.drivers
            (default_driver c)
          ≡ some d)
        × (d.name ≡ default_driver c)
  unfolding new_manager_from_config default_driver
  default_driver-registered drivers c w process ch =
      let config : ChConfig = record {
        binary_path = c.ch_binary;
        kernel_path = c.kernel;
        rootfs_path = c.rootfs;
        pool_size = c.pool;
      } in
      let named : (key : String)
          → str_eq (drivers.cloudhypervisor config).name key ≡ str_eq "cloudhypervisor" key =
        λ key. ap (λ x. str_eq x key) (ch config) in
      elim (Bool-cases (str_eq c.kernel "")) [
        | inl bare ↦ rw bare (
          drivers.process,
          manager_with-get drivers config w "process"
              ∙ rw (named "process", ap (λ x. str_eq x "process") process) refl,
          process,
        )
        | inr given ↦ rw given (
          drivers.cloudhypervisor config,
          manager_with-get drivers config w "cloudhypervisor" ∙ rw (named "cloudhypervisor") refl,
          ch config,
        )
      ]

  -- Where the drivers answer to their two names, the service of the shim's daemon and that of the
  -- standalone mode without a registry of its own are set up alike by one configuration, one
  -- without templates included: they find the same templates, have the same manager and the same
  -- default driver, and a driver of that name is registered. They differ on Shutdown: with no task
  -- yet, the daemon's service takes it and the standalone one ignores it.
  pub daemon_service-new_service_from_config :
      (i : Inherited) (around : Surroundings) (pid : ℕ) (drivers : Drivers W) (c : Config) (w : W)
      → drivers.process.name ≡ "process"
      → ((config : ChConfig) → (drivers.cloudhypervisor config).name ≡ "cloudhypervisor")
      → let a = daemon_service i around pid drivers c w in
        let b = new_service_from_config around pid drivers c none w in
        ((id : String) → a.around.lookup_template id ≡ b.around.lookup_template id)
        × (a.daemon ≡ b.daemon)
        × (a.default_driver ≡ b.default_driver)
        × ((d : Driver W) × (Dict.get a.daemon.manager.drivers a.default_driver ≡ some d)
            × (d.name ≡ a.default_driver))
        × ((shutdown a).is_shut_down ≡ true)
        × ((shutdown b).is_shut_down ≡ false)
  unfolding daemon_service new_service_from_config new_service shutdown Dict.is_empty_dict
      Dict.empty
  daemon_service-new_service_from_config i around pid drivers c w process ch =
      rw (set_publisher-same i) (
        λ id. sym (registry-lookup c.templates id),
        refl,
        refl,
        default_driver-registered drivers c w process ch,
        refl,
        refl,
      )
