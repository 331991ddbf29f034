-- ===== src/Shim/Config.antt =====
-- pkg/shim/config.go and templates.go: the node's configuration and its registry of templates. A
-- file is read and decoded by os and encoding/json, which are arguments.
mod Scenarios
use mathlib.Core.List.{Memᴰ}
use vessel.Prelude.{
  String, str_eq, eq_iff, ◌≡◌, ◌≢◌, refl, ap, ◌∙◌, sym, subst, inl, inr, arith, Option, none, some,
  List, [], ◌∷◌, if◌then◌else◌, Option-cases, Bool-cases, ◌⊎◌,
}
use vessel.Prelude.Int.{ℤ, pos}
use vessel.Dict
use vessel.Dict.{Dict, get-values, get-empty}
use vessel.Shim.{Template}

pub record Config : Type 0 where
  pub kernel : String
  pub rootfs : String
  pub ch_binary : String
  pub pool : ℤ
  pub templates : Dict Template

-- os.ReadFile: no such file, another error, or the bytes
pub data ReadFile : Type 0 where
  not_exist : ReadFile
  unreadable : String → ReadFile
  bytes : String → ReadFile

pub data Loaded {ℓ} (A : Type ℓ) : Type ℓ where
  loaded : A → Loaded A
  read_failed : String → Loaded A
  parse_failed : Loaded A
  path_required : Loaded A

unfoldable pub empty_config : Config
empty_config = record {
  kernel = "";
  rootfs = "";
  ch_binary = "";
  pool = pos 0;
  templates = Dict.empty;
}

-- the loop over the templates: none, or one without a path
unfoldable pub pathless : List Template → Option Template
pathless [] = none
pathless (t ∷ ts) = let rest = pathless ts in if str_eq t.path "" then some t else rest

-- a value whose templates all have paths
unfoldable pub check_paths {ℓ} : {A : Type ℓ} → Dict Template → A → Loaded A
unfolding pathless
check_paths m a = elim (pathless (Dict.values m)) [ none ↦ loaded a | some _ ↦ path_required ]

-- the argument, $VESSEL_SHIM_CONFIG, and the default, in this order
unfoldable pub config_path : String → String → String
config_path path env =
    if str_eq path "" then if str_eq env "" then "/etc/vessel/shim.json" else env else path

unfoldable pub load_config :
    String → (String → ReadFile) → (String → Option Config) → String → Loaded Config
unfolding config_path check_paths empty_config
load_config env read decode path = elim (read (config_path path env)) [
  | not_exist ↦ loaded empty_config
  | unreadable e ↦ read_failed e
  | bytes text ↦ elim (decode text) [ none ↦ parse_failed | some c ↦ check_paths c.templates c ]
]

unfoldable pub default_driver : Config → String
default_driver c = if str_eq c.kernel "" then "process" else "cloudhypervisor"

unfoldable pub load_templates :
    (String → ReadFile) → (String → Option (Dict Template)) → String → Loaded (Dict Template)
unfolding check_paths
load_templates read decode path = elim (read path) [
  | not_exist ↦ read_failed "file does not exist"
  | unreadable e ↦ read_failed e
  | bytes text ↦ elim (decode text) [ none ↦ parse_failed | some m ↦ check_paths m m ]
]

-- `MapTemplates.Lookup`
unfoldable pub lookup : Dict Template → String → Option Template
lookup m id = Dict.get m id

pathless-none : (t : Template) (ts : List Template) → pathless ts ≡ none → Memᴰ t ts → t.path ≢ ""
unfolding pathless
pathless-none t [] h m = elim m [ ]
pathless-none t (x ∷ ts) h (Memᴰ.head same) = ground (arith, h, same, eq_iff x.path "")
pathless-none t (x ∷ ts) h (Memᴰ.tail m) = pathless-none t ts (ground (arith, h)) m

check_paths-lookup {ℓ} :
    {A : Type ℓ} (m : Dict Template) (a b : A) (id : String) (t : Template)
    → check_paths m a ≡ loaded b
    → lookup m id ≡ some t
    → (t.path ≢ "") × (a ≡ b)
unfolding check_paths lookup
check_paths-lookup m a b id t e found = elim (Option-cases (pathless (Dict.values m))) [
  | inl n ↦ (
    pathless-none t (Dict.values m) n (get-values m id found),
    ground (arith, rw (n, check_paths) at e),
  )
  | inr (x, n) ↦ absurd (ground (arith, rw (n, check_paths) at e))
]

check_paths-same {ℓ} :
    {A : Type ℓ} (m : Dict Template) (a b : A) → check_paths m a ≡ loaded b → a ≡ b
unfolding check_paths
check_paths-same m a b e = elim (Option-cases (pathless (Dict.values m))) [
  | inl n ↦ ground (arith, rw (n, check_paths) at e)
  | inr (x, n) ↦ absurd (ground (arith, rw (n, check_paths) at e))
]

empty_config-lookup : (id : String) (t : Template) → lookup empty_config.templates id ≢ some t
unfolding lookup empty_config
empty_config-lookup id t found = ground (arith, get-empty {V = Template} id, found)

ReadFile-cases :
    (r : ReadFile)
    → (r ≡ not_exist) ⊎ (((e : String) × (r ≡ unreadable e)) ⊎ ((text : String) × (r ≡ bytes text)))
ReadFile-cases not_exist = inl refl
ReadFile-cases (unreadable e) = inr (inl (e, refl))
ReadFile-cases (bytes text) = inr (inr (text, refl))

-- A configuration that loads is the empty one, for a missing file, or what the file holds, and each template that
-- it can look up has a path; a missing file is no error, and means the process driver.
pub load_config-lookup :
    (env : String) (read : String → ReadFile) (decode : String → Option Config) (path : String)
    (c : Config) (id : String) (t : Template)
    → load_config env read decode path ≡ loaded c
    → (((c ≡ empty_config) × (read (config_path path env) ≡ not_exist))
        ⊎ ((text : String) × (read (config_path path env) ≡ bytes text) × (decode text ≡ some c)))
      × (lookup c.templates id ≡ some t → t.path ≢ "")
      × (read (config_path path env) ≡ not_exist → default_driver c ≡ "process")
unfolding load_config default_driver empty_config
load_config-lookup env read decode path c id t e =
    elim (ReadFile-cases (read (config_path path env))) [
      | inl n ↦
          let same : empty_config ≡ c = ground (arith, rw (n, load_config) at e) in
          (
            inl (sym same, n),
            λ found. absurd (
                empty_config-lookup id t
                  (subst (λ x. lookup x.templates id ≡ some t) (sym same) found)),
            λ _. subst (λ x. default_driver x ≡ "process") same refl,
          )
      | inr (inl (why, n)) ↦ absurd (ground (arith, rw (n, load_config) at e))
      | inr (inr (text, n)) ↦ elim (Option-cases (decode text)) [
        | inl m ↦ absurd (ground (arith, rw (m, load_config) at (rw (n, load_config) at e)))
        | inr (d, m) ↦
            let checked : check_paths d.templates d ≡ loaded c =
              rw (m, load_config) at (rw (n, load_config) at e) in
            let same = check_paths-same d.templates d c checked in
            (
              inr (text, n, m ∙ ap some same),
              λ found.
                  (check_paths-lookup d.templates d c id t checked
                    (subst (λ x. lookup x.templates id ≡ some t) (sym same) found)).0,
              λ gone. absurd (ground (arith, n, gone)),
            )
      ]
    ]

-- A template registry that loads is what the file holds, and each template that it can look up has
-- a path; a missing file is an error.
pub load_templates-lookup :
    (read : String → ReadFile) (decode : String → Option (Dict Template)) (path : String)
    (m : Dict Template) (id : String) (t : Template)
    → load_templates read decode path ≡ loaded m
    → ((text : String) × (read path ≡ bytes text) × (decode text ≡ some m))
      × (lookup m id ≡ some t → t.path ≢ "")
unfolding load_templates
load_templates-lookup read decode path m id t e = elim (ReadFile-cases (read path)) [
  | inl n ↦ absurd (ground (arith, rw (n, load_templates) at e))
  | inr (inl (why, n)) ↦ absurd (ground (arith, rw (n, load_templates) at e))
  | inr (inr (text, n)) ↦ elim (Option-cases (decode text)) [
    | inl k ↦ absurd (ground (arith, rw (k, load_templates) at (rw (n, load_templates) at e)))
    | inr (d, k) ↦
        let checked : check_paths d d ≡ loaded m =
          rw (k, load_templates) at (rw (n, load_templates) at e) in
        let same = check_paths-same d d m checked in
        (
          (text, n, k ∙ ap some same),
          λ found.
              (check_paths-lookup d d m id t checked
                (subst (λ x. lookup x id ≡ some t) (sym same) found)).0,
        )
  ]
]
