-- ===== src/Shim/Bundle.antt =====
-- pkg/shim/service.go, what the service reads from an OCI bundle's config.json: the network
-- namespace of the pod, and its annotations.
use vessel.Prelude.{String, none, some, List, [], ◌∷◌, str_eq, if◌then◌else◌}
use vessel.Dict
use vessel.Shim.{Namespace, Surroundings}

abbrev pub template_annotation : String
template_annotation = "vessel.dev/template"

first_network : List Namespace → String
first_network [] = ""
first_network (ns ∷ rest) = if str_eq ns.type "network" then ns.path else first_network rest

-- The path of the first network namespace of the bundle, empty where there is none.
unfoldable pub bundle_netns : Surroundings → String → String
unfolding first_network
bundle_netns around bundle =
    if str_eq bundle ""
    then ""
    else elim (around.namespaces bundle) [ none ↦ "" | some l ↦ first_network l ]

-- `spec.Annotations[key]`, empty where it is missing
unfoldable pub bundle_annotation : Surroundings → String → String → String
bundle_annotation around bundle key =
    if str_eq bundle "" then "" else elim (around.annotations bundle) [
      | none ↦ ""
      | some m ↦ elim (Dict.get m key) [ none ↦ "" | some v ↦ v ]
    ]
