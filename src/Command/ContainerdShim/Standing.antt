-- ===== src/Command/ContainerdShim/Standing.antt =====
-- cmd/containerd-shim-vessel-v1/main.go: the exit code of the standalone mode.
use vessel.Prelude.{
  ℕ, String, ◌≡◌, refl, sym, subst, ◌≢◌, if◌then◌else◌, str_eq, eq_iff, some_eq, Option, none, some,
  true, Option-cases, Bool-cases, inl, inr, arith, ◌⊎◌,
}
use vessel.Prelude.Int.{pos}
use vessel.Dict
use vessel.Dict.{Dict}
use vessel.Command.{exits, Drivers}
use vessel.Shim.{Surroundings, Service, Template}
use vessel.Shim.Config.{
  Config, Loaded, loaded, read_failed, parse_failed, path_required, not_exist, bytes, empty_config,
  config_path, lookup, load_config, load_templates, load_config-lookup, load_templates-lookup,
}
use vessel.Shim.Running.{Templates, map_templates, Served, serve, ending, new_service_from_config}
use vessel.Command.ContainerdShim.{
  Standalone, serve_standalone, bind_and_serve, run_standalone, explicit_templates,
}

Loaded-cases :
    {A : Type 0} (r : Loaded A)
    → ((c : A) × (r ≡ loaded c))
      ⊎ ((why : String) × (r ≡ read_failed why))
      ⊎ (r ≡ parse_failed)
      ⊎ (r ≡ path_required)
Loaded-cases (loaded c) = inl (c, refl)
Loaded-cases (read_failed why) = inr (inl (why, refl))
Loaded-cases parse_failed = inr (inr (inl refl))
Loaded-cases path_required = inr (inr (inr refl))

exits-one : (A : Type 0) → exits (pos 1) ≡ exits (pos 0) → A
exits-one A e = absurd (ground (arith, e))

-- every template has a path
abbrev pub HasPaths : Dict Template → Type 0
HasPaths m = (id : String) (t : Template) → Dict.get m id ≡ some t → t.path ≢ ""

-- the configuration that the node's file holds, or the empty one where there is no such file
abbrev pub Configured : Standalone → Config → Type 0
Configured a c =
    let file = if str_eq a.config_env "" then "/etc/vessel/shim.json" else a.config_env in
    (((c ≡ empty_config) × (a.read file ≡ not_exist))
      ⊎ ((text : String) × (a.read file ≡ bytes text) × (a.decode text ≡ some c)))
    × HasPaths c.templates

load_config-Configured :
    (a : Standalone) (c : Config)
    → load_config a.config_env a.read a.decode "" ≡ loaded c
    → Configured a c
unfolding config_path lookup
load_config-Configured a c found =
    let any : Template = record { driver = ""; path = "" } in
    (
      (load_config-lookup a.config_env a.read a.decode "" c "" any found).0,
      λ id t. (load_config-lookup a.config_env a.read a.decode "" c id t found).1,
    )

-- the registry of the file that is named, which finds what that file holds, or none without a name
abbrev pub Registered : Standalone → String → Option Templates → Type 0
Registered a path templates =
    ((path ≡ "") × (templates ≡ none))
    ⊎ ((text : String) × (m : Dict Template) × (t : Templates) × (a.read path ≡ bytes text)
        × (a.decode_templates text ≡ some m)
        × HasPaths m
        × (templates ≡ some t)
        × ((id : String) → t.lookup_template id ≡ Dict.get m id))

load_templates-Registered :
    (a : Standalone) (path : String) (m : Dict Template)
    → load_templates a.read a.decode_templates path ≡ loaded m
    → Registered a path (some (map_templates m))
unfolding map_templates lookup
load_templates-Registered a path m found =
    let any : Template = record { driver = ""; path = "" } in
    let (text, there, decoded) =
      (load_templates-lookup a.read a.decode_templates path m "" any found).0 in
    inr (
      text,
      m,
      map_templates m,
      there,
      decoded,
      λ id t. (load_templates-lookup a.read a.decode_templates path m id t found).1,
      refl,
      λ id. refl,
    )

explicit_templates-Registered :
    (a : Standalone) (path : String) (templates : Option Templates)
    → explicit_templates a.read a.decode_templates path ≡ some templates
    → Registered a path templates
unfolding explicit_templates
explicit_templates-Registered a path templates given = elim (Bool-cases (str_eq path "")) [
  | inl empty ↦ inl (
    ground (arith, empty, eq_iff path ""),
    sym (some_eq (rw (empty, explicit_templates) at given)),
  )
  | inr named ↦ elim (Loaded-cases (load_templates a.read a.decode_templates path)) [
    | inl (m, found) ↦
        subst (λ t. Registered a path t) (some_eq (rw (named, found, explicit_templates) at given))
          (load_templates-Registered a path m found)
    | inr (inl (why, bad)) ↦ absurd (ground (arith, rw (named, bad, explicit_templates) at given))
    | inr (inr (inl bad)) ↦ absurd (ground (arith, rw (named, bad, explicit_templates) at given))
    | inr (inr (inr bad)) ↦ absurd (ground (arith, rw (named, bad, explicit_templates) at given))
  ]
]

-- the context was done, or a server that was made returned no error
abbrev pub EndsWell : Served → Type 0
EndsWell r = (r.is_cancelled ≡ true) ⊎ ((r.new_server_error ≡ none) × (r.server_error ≡ none))

ending-EndsWell : (r : Served) → ending r ≡ none → EndsWell r
unfolding ending serve
ending-EndsWell r clean = elim (Bool-cases r.is_cancelled) [
  | inl cancelled ↦ inl cancelled
  | inr going ↦ elim (Option-cases r.new_server_error) [
    | inl made ↦ inr (made, ground (arith, made, going, clean))
    | inr (e, fails) ↦ absurd (ground (arith, fails, going, clean))
  ]
]

module _ {W : Type 0} where
  bind_and_serve-serves :
      (transport : Service W → Service W × Served) (a : Standalone) (socket : String)
      (files : Dict String) (s : Service W)
      → (bind_and_serve transport a socket files s).2 ≡ exits (pos 0)
      → (a.listens ≡ true) × (ending (transport s).1 ≡ none)
  unfolding bind_and_serve serve_standalone
  bind_and_serve-serves transport a socket files s done = elim (Bool-cases a.listens) [
    | inr refused ↦ exits-one _ (rw refused at done)
    | inl listens ↦ elim (Option-cases (ending (transport s).1)) [
      | inl clean ↦ (listens, clean)
      | inr (why, fails) ↦ exits-one _ (rw (listens, fails, serve_standalone) at done)
    ]
  ]

  -- An exit with 0 of the standalone mode means that its configuration is what the node's file holds,
  -- or the empty one where there is no such file; that its registry is what the file holds that is
  -- named, or none without a name; that all templates of the two have paths; that the socket was bound,
  -- and that a service made of the two was served until its context was done, or by a server that was
  -- made and returned no error.
  pub run_standalone-serves :
      (transport : Service W → Service W × Served) (a : Standalone) (around : Surroundings)
      (pid : ℕ) (drivers : Drivers W) (socket path : String) (files : Dict String) (w : W)
      → (run_standalone transport a around pid drivers socket path files w).2 ≡ exits (pos 0)
      → (c : Config) × (templates : Option Templates) × Configured a c
        × Registered a path templates
        × (a.listens ≡ true)
        × EndsWell (transport (new_service_from_config around pid drivers c templates w)).1
  unfolding run_standalone
  run_standalone-serves transport a around pid drivers socket path files w done =
      elim (Option-cases (explicit_templates a.read a.decode_templates path)) [
        | inl lost ↦ exits-one _ (rw (lost, run_standalone) at done)
        | inr (templates, given) ↦
            elim (Loaded-cases (load_config a.config_env a.read a.decode "")) [
              | inl (c, found) ↦
                  let served =
                    bind_and_serve-serves transport a socket files
                      (new_service_from_config around pid drivers c templates w)
                      (rw (given, found, run_standalone) at done) in
                  (
                    c,
                    templates,
                    load_config-Configured a c found,
                    explicit_templates-Registered a path templates given,
                    served.0,
                    ending-EndsWell _ served.1,
                  )
              | inr (inl (why, bad)) ↦ exits-one _ (rw (given, bad, run_standalone) at done)
              | inr (inr (inl bad)) ↦ exits-one _ (rw (given, bad, run_standalone) at done)
              | inr (inr (inr bad)) ↦ exits-one _ (rw (given, bad, run_standalone) at done)
            ]
      ]
