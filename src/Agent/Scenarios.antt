-- ===== src/Agent/Scenarios.antt =====
-- The agent and its client on a small guest: a table of files, and programs by their name.
use vessel.Prelude.{
  String, ◌≡◌, refl, ◌↔◌, str_eq, arith, none, some, List, [], ◌∷◌, if◌then◌else◌, eq_refl,
}
use vessel.Prelude.Int.{ℤ}
use vessel.Dict
use vessel.Dict.{Dict, get-put}
use vessel.Agent.{Bytes, Request, Guest, Reading, contents, unreadable, handle}
use vessel.Agent.Net.{
  NetConfig, Run, succeeded, exited, failed, commands, net_commands, configure_net,
}
use vessel.Agent.Net.Order.{Runs, configure_net-Runs}
use vessel.Agent.Client.{Client, done, next_id, request, exec, write_file, read_file, served_by}
use vessel.Agent.Files.{KeepsFiles, write_file-read_file}

abbrev read_in : Dict Bytes → String → Reading
read_in files path = elim (Dict.get files path) [
  | none ↦ unreadable "no such file"
  | some bytes ↦ contents bytes
]

-- "false" exits with 1, "ip" with 0, and no other program is there
abbrev run_program : List String → Run
run_program [] = record { ending = failed "no command"; stdout = []; stderr = [] }
run_program (name ∷ args) =
    if str_eq name "false"
    then record { ending = exited (ℤ.pos 1); stdout = []; stderr = [] }
    else if str_eq name "ip"
    then record { ending = succeeded; stdout = []; stderr = [] }
    else record { ending = failed "not found"; stdout = []; stderr = [] }

unfoldable guest : Guest (Dict Bytes)
unfolding Dict.get Dict.put
guest = record {
  run = λ cmd env files. (files, run_program cmd);
  report = λ cmd r. "configure_net: failed";
  mkdir_all = λ path files. (files, none);
  write_file = λ path bytes mode files. (Dict.put files path bytes, none);
  read_file = λ path files. read_in files path;
}

evaluated : Unit {0}
unfolding guest Dict.empty write_file exec net_commands next_id served_by handle
evaluated = tt

abbrev client : Client (Dict Bytes)
client = record { seq = 0; peer = Dict.empty }

guest-KeepsFiles : KeepsFiles guest
unfolding guest
guest-KeepsFiles = record {
  reads_back =
      λ path bytes mode files e. ground (arith, get-put files path path bytes, eq_refl path);
  mkdir_text = λ path e files h. absurd (ground (arith, h));
  write_text = λ path e bytes mode files h. absurd (ground (arith, h));
}

written : (write_file (served_by guest) "/a" (1 ∷ 2 ∷ []) 0 client).1 ≡ done tt
unfolding evaluated
written = refl

write_file-read_file_example :
    (read_file (served_by guest) "/a" (write_file (served_by guest) "/a" (1 ∷ 2 ∷ []) 0 client).0).1
    ≡ done (1 ∷ 2 ∷ [])
write_file-read_file_example =
    write_file-read_file guest guest-KeepsFiles "/a" (1 ∷ 2 ∷ []) 0 client written

abbrev two_pings : List Request
two_pings = record (request "ping") { id = "r1" } ∷ record (request "ping") { id = "r2" } ∷ []

abbrev pod : NetConfig
pod = record { device = "eth0"; ip = "10.0.0.2/24"; gateway = ""; mtu = ℤ.pos 1450 }

abbrev pod_commands : List (List String)
pod_commands =
    ("ip" ∷ "addr" ∷ "add" ∷ "10.0.0.2/24" ∷ "dev" ∷ "eth0" ∷ [])
    ∷ ("ip" ∷ "link" ∷ "set" ∷ "eth0" ∷ "up" ∷ [])
    ∷ ("ip" ∷ "link" ∷ "set" ∷ "eth0" ∷ "mtu" ∷ "1450" ∷ [])
    ∷ []

pod_planned : net_commands (some pod) ≡ commands pod_commands
unfolding evaluated
pod_planned = refl

configure_net-Runs_example :
    (configure_net guest.run guest.report (some pod) Dict.empty ≡ (Dict.empty, none)) ↔ (
      (cmds : List (List String)) × (net_commands (some pod) ≡ commands cmds)
      × Runs guest.run guest.report cmds Dict.empty Dict.empty)
configure_net-Runs_example =
    configure_net-Runs guest.run guest.report (some pod) Dict.empty Dict.empty
