-- ===== src/Vmnet/Scenarios.antt =====
-- The TAP and the identity of a pod over a namespace in which some commands fail. Its state is the
-- list of the devices that are there.
use vessel.Prelude.{
  ℕ, zero, suc, String, ◌≡◌, refl, ◌↔◌, str_eq, eq_refl, Bool, false, Option, none, some, List, [],
  ◌∷◌, ◌||◌, if◌then◌else◌, arith,
}
use vessel.Prelude.Int.{ℤ}
use vessel.Vmnet.{
  Namespace, LinkRow, AddrInfo, Output, printed, failed, show_link, show_addr, delete_link,
  tap_steps, first_address, read_config, setup_tap,
}
use vessel.Vmnet.Rollback.{AllPrinted, setup_tap-rolls_back}

abbrev present : String → List String → Bool
present dev [] = false
present dev (x ∷ xs) = str_eq x dev || present dev xs

abbrev without : String → List String → List String
without dev [] = []
without dev (x ∷ xs) = let rest = without dev xs in if str_eq x dev then rest else x ∷ rest

abbrev word : ℕ → List String → String
word n [] = ""
word zero (w ∷ ws) = w
word (suc n) (w ∷ ws) = word n ws

-- a TAP that is there cannot be added, `tc` is missing, and there is no default route
abbrev run_in_pod : List String → List String → List String × Output
run_in_pod cmd devices =
    if str_eq (word 2 cmd) "del"
    then (without (word 3 cmd) devices, printed "")
    else if str_eq (word 0 cmd) "tc"
    then (devices, failed "tc: not found")
    else if str_eq (word 2 cmd) "route"
    then (devices, failed "no route")
    else if str_eq (word 1 cmd) "tuntap"
    then if present (word 3 cmd) devices
      then (devices, failed "busy")
      else (word 3 cmd ∷ devices, printed "")
    else (devices, printed "")

abbrev eth0 : LinkRow
eth0 = record { address = "02:00"; mtu = ℤ.pos 1450 }

abbrev pod_address : AddrInfo
pod_address = record { local = "10.0.0.2"; prefix_len = ℤ.pos 24 }

unfoldable pod : Namespace (List String)
pod = record {
  run = run_in_pod;
  decode_links = λ text. some (eth0 ∷ []);
  decode_addrs = λ text. some ((pod_address ∷ []) ∷ []);
  decode_routes = λ text. none;
}

evaluated : Unit {0}
unfolding pod setup_tap read_config
evaluated = tt

without-absent : (dev : String) (devices : List String) → present dev (without dev devices) ≡ false
without-absent dev [] = refl
without-absent dev (x ∷ xs) = ground (arith, without-absent dev xs)

deleted : (n : List String) → present "vtap0" (pod.run (delete_link "vtap0") n).0 ≡ false
unfolding pod
deleted n = without-absent "vtap0" n

setup_tap-rolls_back_example :
    ((setup_tap pod "eth0" "vtap0" [] ≡ ([], none))
      ↔ AllPrinted pod (tap_steps "eth0" "vtap0") [] [])
    × ((setup_tap pod "eth0" "vtap0" []).1 ≡ some "tc: not found"
        → present "vtap0" (setup_tap pod "eth0" "vtap0" []).0 ≡ false)
setup_tap-rolls_back_example =
    setup_tap-rolls_back pod present "eth0" "vtap0" deleted [] [] "tc: not found"

-- the step that fails is the third, after the TAP was added
tc_fails : (setup_tap pod "eth0" "vtap0" []).1 ≡ some "tc: not found"
unfolding evaluated
tc_fails = refl

-- a TAP that was there before is gone after a SetupTap of its name
existing_is_deleted : setup_tap pod "eth0" "vtap0" ("vtap0" ∷ []) ≡ ([], some "busy")
unfolding evaluated
existing_is_deleted = refl

linked : (pod.run (show_link "eth0") []).1 ≡ printed ""
unfolding evaluated
linked = refl

parsed : pod.decode_links "" ≡ some (eth0 ∷ [])
unfolding evaluated
parsed = refl

addressed : (pod.run (show_addr "eth0") (pod.run (show_link "eth0") []).0).1 ≡ printed ""
unfolding evaluated
addressed = refl

addresses_parsed : pod.decode_addrs "" ≡ some ((pod_address ∷ []) ∷ [])
unfolding evaluated
addresses_parsed = refl

address_text : first_address ((pod_address ∷ []) ∷ []) ≡ "10.0.0.2/24"
unfolding first_address vessel.Prelude.Digits.itoa
address_text = refl
