-- ===== src/Vmnet.antt =====
-- pkg/vmnet/vmnet.go: the pod's network identity, and the TAP that mirrors its interface. `N` is a
-- network namespace, and `Namespace` what runs a command inside it and decodes what `ip -j` prints.
pub mod Rollback
pub mod Identity
pub mod TapFd
mod Scenarios
use Prim.Native.String.{◌++◌ as append}
use vessel.Prelude.{String, Option, none, some, List, [], ◌∷◌}
use vessel.Prelude.Int.{ℤ, pos, pos_part}
use vessel.Prelude.Digits.{itoa}

-- `Config`
pub record PodNet : Type 0 where
  pub ip : String
  pub mac : String
  pub gateway : String
  pub mtu : ℤ

-- CombinedOutput, or the error's text
pub data Output : Type 0 where
  printed : String → Output
  failed : String → Output

pub record LinkRow : Type 0 where
  pub address : String
  pub mtu : ℤ

pub record AddrInfo : Type 0 where
  pub local : String
  pub prefix_len : ℤ

pub record Namespace (N : Type 0) : Type 0 where
  pub run : List String → N → N × Output
  pub decode_links : String → Option (List LinkRow)
  pub decode_addrs : String → Option (List (List AddrInfo))
  pub decode_routes : String → Option (List String)

pub data Reading : Type 0 where
  config : PodNet → Reading
  unreadable : String → Reading

-- the first address of the first interface, or none
unfoldable pub first_address : List (List AddrInfo) → String
first_address ((info ∷ infos) ∷ rest) =
    append info.local (append "/" (itoa (pos_part info.prefix_len)))
first_address ([] ∷ rest) = ""
first_address [] = ""

-- the gateway of the first default route
unfoldable pub first_gateway : Option (List String) → String
first_gateway (some (gateway ∷ rest)) = gateway
first_gateway (some []) = ""
first_gateway none = ""

abbrev pub show_link : String → List String
show_link dev = "ip" ∷ "-j" ∷ "link" ∷ "show" ∷ dev ∷ []

abbrev pub show_addr : String → List String
show_addr dev = "ip" ∷ "-j" ∷ "-4" ∷ "addr" ∷ "show" ∷ dev ∷ []

abbrev pub show_route : List String
show_route = "ip" ∷ "-j" ∷ "route" ∷ "show" ∷ "default" ∷ []

abbrev pub delete_link : String → List String
delete_link tap = "ip" ∷ "link" ∷ "del" ∷ tap ∷ []

-- everything that comes in at one device goes out at another
unfoldable pub redirect : String → String → List String
redirect from to =
    "tc" ∷ "filter" ∷ "add" ∷ "dev" ∷ from ∷ "ingress" ∷ "protocol" ∷ "all" ∷ "u32" ∷ "match" ∷ "u8"
    ∷ "0" ∷ "0" ∷ "action" ∷ "mirred" ∷ "egress" ∷ "redirect" ∷ "dev" ∷ to ∷ []

unfoldable pub tap_steps : String → String → List (List String)
unfolding redirect
tap_steps src tap =
    ("ip" ∷ "tuntap" ∷ "add" ∷ tap ∷ "mode" ∷ "tap" ∷ [])
    ∷ ("ip" ∷ "link" ∷ "set" ∷ tap ∷ "up" ∷ [])
    ∷ ("tc" ∷ "qdisc" ∷ "add" ∷ "dev" ∷ src ∷ "ingress" ∷ [])
    ∷ redirect src tap
    ∷ ("tc" ∷ "qdisc" ∷ "add" ∷ "dev" ∷ tap ∷ "ingress" ∷ [])
    ∷ redirect tap src
    ∷ []

module _ {N : Type 0} (ns : Namespace N) where
  unfoldable pub teardown_tap : String → N → N × Option String
  teardown_tap tap n =
      let (n', out) = ns.run (delete_link tap) n in
      elim out [ printed _ ↦ (n', none) | failed e ↦ (n', some e) ]

  -- the loop over the steps: the first that fails tears the TAP down and ends it
  unfoldable pub take_steps : String → List (List String) → N → N × Option String
  unfolding teardown_tap
  take_steps tap [] n = (n, none)
  take_steps tap (step ∷ steps) n =
      let (n', out) = ns.run step n in
      elim out [
        | printed _ ↦ take_steps tap steps n'
        | failed e ↦ ((teardown_tap tap n').0, some e)
      ]

  unfoldable pub setup_tap : String → String → N → N × Option String
  unfolding take_steps tap_steps
  setup_tap src tap n = take_steps tap (tap_steps src tap) n

  -- the default route, which may be missing
  unfoldable pub read_route : PodNet → N → N × Reading
  unfolding first_gateway
  read_route cfg n =
      let (n', out) = ns.run show_route n in
      elim out [
        | failed _ ↦ (n', config cfg)
        | printed text ↦
            (n', config (record cfg { gateway = first_gateway (ns.decode_routes text) }))
      ]

  unfoldable pub read_addr : String → PodNet → N → N × Reading
  unfolding read_route first_address
  read_addr dev cfg n =
      let (n', out) = ns.run (show_addr dev) n in
      elim out [
        | failed e ↦ (n', unreadable e)
        | printed text ↦ elim (ns.decode_addrs text) [
          | none ↦ (n', unreadable "parse addr")
          | some addrs ↦ read_route (record cfg { ip = first_address addrs }) n'
        ]
      ]

  unfoldable pub read_config : String → N → N × Reading
  unfolding read_addr
  read_config dev n =
      let (n', out) = ns.run (show_link dev) n in
      elim out [
        | failed e ↦ (n', unreadable e)
        | printed text ↦ elim (ns.decode_links text) [
          | none ↦ (n', unreadable "parse link")
          | some [] ↦ (n', unreadable "parse link")
          | some (link ∷ _) ↦
              read_addr dev (record { ip = ""; mac = link.address; gateway = ""; mtu = link.mtu })
                n'
        ]
      ]
