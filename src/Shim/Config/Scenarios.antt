-- ===== src/Shim/Config/Scenarios.antt =====
-- Loading a configuration and a registry of one template.
use vessel.Prelude.{String, ◌≡◌, refl, some}
use vessel.Prelude.Int.{ℤ}
use vessel.Dict
use vessel.Dict.{Dict}
use vessel.Shim.{Template}
use vessel.Shim.Config.{Config, ReadFile, bytes, loaded, load_config, load_templates}

abbrev python : Template
python = record { driver = ""; path = "/var/lib/vessel/tpl/py312" }

abbrev registry : Dict Template
registry = Dict.put Dict.empty "python" python

abbrev node : Config
node = record {
  kernel = "/boot/vmlinux";
  rootfs = "";
  ch_binary = "";
  pool = ℤ.pos 2;
  templates = registry;
}

abbrev read : String → ReadFile
read path = bytes "{}"

evaluated : Unit {0}
unfolding Dict.put Dict.empty Dict.values load_config load_templates
evaluated = tt

node_loads : load_config "" read (λ text. some node) "" ≡ loaded node
unfolding evaluated
node_loads = refl

registry_loads : load_templates read (λ text. some registry) "/t.json" ≡ loaded registry
unfolding evaluated
registry_loads = refl
