-- ===== src/CloudHypervisor/Clone/Scenarios.antt =====
-- prepareCloneSnapshot on a concrete template; its encoding shows the socket alone.
use vessel.Prelude.{String, ◌≡◌, refl, Option, none, some, true, false, str_eq, if◌then◌else◌}
use vessel.Dict
use vessel.Dict.{Dict, IsMap, put-IsMap, empty-IsMap}
use vessel.CloudHypervisor.Clone.{Entry, file, Field, object, value, Host, prepare_clone_snapshot}
use vessel.CloudHypervisor.Clone.Sharing.{seen, Rewrites, prepare_clone_snapshot-shares}

shown : Field → Option String
shown (object vs) = Dict.get vs "socket"
shown (value text) = none

-- linking is refused for the memory, as across devices
abbrev host : Host
unfolding shown
host = record {
  mkdir_fails = false;
  readable = λ _. true;
  links = λ name. if str_eq name "memory-ranges" then false else true;
  writable = λ _. true;
  decode = λ _.
      some (Dict.put Dict.empty "vsock" (object (Dict.put Dict.empty "socket" "/t/vsock.sock")));
  encode = λ cfg. elim (Dict.get cfg "vsock") [ none ↦ none | some f ↦ shown f ];
}

abbrev template : Dict Entry
template =
    Dict.put
      (Dict.put (Dict.put Dict.empty "memory-ranges" (file "ram")) "state.json" (file "state"))
      "config.json" (file "tmpl")

template-IsMap : IsMap template
template-IsMap =
    put-IsMap
      (Dict.put (Dict.put Dict.empty "memory-ranges" (file "ram")) "state.json" (file "state"))
      "config.json" (file "tmpl")
      (put-IsMap (Dict.put Dict.empty "memory-ranges" (file "ram")) "state.json" (file "state")
        (put-IsMap Dict.empty "memory-ranges" (file "ram") empty-IsMap))

evaluated : Unit {0}
unfolding host shown prepare_clone_snapshot Dict.get Dict.put Dict.empty
evaluated = tt

prepared : (prepare_clone_snapshot host template "/c/vsock.sock" Dict.empty).1 ≡ true
unfolding evaluated
prepared = refl

cloned :
    let clone = (prepare_clone_snapshot host template "/c/vsock.sock" Dict.empty).0 in
    (Dict.get clone "config.json" ≡ some "/c/vsock.sock")
    × (Dict.get clone "memory-ranges" ≡ some "ram")
unfolding evaluated
cloned = (refl, refl)

prepare_clone_snapshot-shares_example :
    let after = (prepare_clone_snapshot host template "/c/vsock.sock" Dict.empty).0 in
    Rewrites host "/c/vsock.sock" template (Dict.get after "config.json")
    × ((name : String)
        → str_eq name "config.json" ≡ false
        → Dict.get after name ≡ seen (Dict.get template name) (Dict.get Dict.empty name))
prepare_clone_snapshot-shares_example =
    prepare_clone_snapshot-shares host template "/c/vsock.sock" Dict.empty template-IsMap prepared
