-- ===== src/Agent/Net.antt =====
-- pkg/agent/net.go: the guest adopts the pod's network identity.
pub mod Order
use vessel.Prelude.{
  ℕ, ltb, String, str_eq, Option, none, some, List, [], ◌∷◌, ◌++◌, if◌then◌else◌, ◌||◌,
}
use vessel.Prelude.Int.{ℤ, pos_part}
use vessel.Prelude.Digits.{itoa}

pub record NetConfig : Type 0 where
  pub device : String
  pub ip : String
  pub gateway : String
  pub mtu : ℤ

-- How `Run` of a program ends: with exit status 0, with an exec.ExitError of a code, or with
-- another error, by its text; and what the program wrote to stdout and stderr.
pub data Ending : Type 0 where
  succeeded : Ending
  exited : ℤ → Ending
  failed : String → Ending

pub record Run : Type 0 where
  pub ending : Ending
  pub stdout : List ℕ
  pub stderr : List ℕ

-- exec.Command(cmd[0], cmd[1:]...) with an environment beside the agent's own
abbrev pub Exec : Type 0 → Type 0
Exec G = List String → List String → G → G × Run

-- the commands, or an error's text
pub data Plan : Type 0 where
  refused : String → Plan
  commands : List (List String) → Plan

unfoldable pub mtu_command : NetConfig → List (List String)
mtu_command c =
    if ltb 0 (pos_part c.mtu)
    then ("ip" ∷ "link" ∷ "set" ∷ c.device ∷ "mtu" ∷ itoa (pos_part c.mtu) ∷ []) ∷ []
    else []

unfoldable pub route_command : NetConfig → List (List String)
route_command c =
    if str_eq c.gateway ""
    then []
    else ("ip" ∷ "route" ∷ "add" ∷ "default" ∷ "via" ∷ c.gateway ∷ "dev" ∷ c.device ∷ []) ∷ []

unfoldable pub net_commands : Option NetConfig → Plan
unfolding mtu_command route_command
net_commands none = refused "configure_net: missing net config"
net_commands (some c) =
    if str_eq c.device "" || str_eq c.ip ""
    then refused "configure_net: device and ip are required"
    else commands (
        (("ip" ∷ "addr" ∷ "add" ∷ c.ip ∷ "dev" ∷ c.device ∷ [])
          ∷ ("ip" ∷ "link" ∷ "set" ∷ c.device ∷ "up" ∷ [])
          ∷ [])
        ++ (mtu_command c ++ route_command c))

-- `report` is the text of fmt.Errorf on a command and how it ended
module _ {G : Type 0} (run : Exec G) (report : List String → Run → String) where
  -- the loop over the commands: the first that does not succeed ends it
  unfoldable pub run_commands : List (List String) → G → G × Option String
  run_commands [] g = (g, none)
  run_commands (cmd ∷ rest) g =
      let (g', r) = run cmd [] g in
      elim r.ending [ succeeded ↦ run_commands rest g' | _ ↦ (g', some (report cmd r)) ]

  unfoldable pub run_plan : Plan → G → G × Option String
  unfolding run_commands
  run_plan (refused e) g = (g, some e)
  run_plan (commands cmds) g = run_commands cmds g

  unfoldable pub configure_net : Option NetConfig → G → G × Option String
  unfolding run_plan net_commands
  configure_net c g = run_plan (net_commands c) g
