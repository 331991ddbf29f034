-- ===== src/Shim/Bootstrap/Scenarios.antt =====
-- pkg/shim/bootstrap.go on concrete nodes.
use vessel.Prelude.{
  String, ◌≡◌, refl, some_eq, subst, sym, some, [], ◌∷◌, false, arith, str_eq, All, if◌then◌else◌,
}
use vessel.Prelude.Int.{pos, negsuc}
use vessel.Dict
use vessel.FilePath.{join}
use vessel.Prelude.Decimal.{atoi, trim_space}
use vessel.Files.{no_faults, Fate}
use vessel.Shim.Bootstrap.{
  Node, Host, started, failed, writing_pid, write_file_atomic, run_start, run_delete,
  socket_address,
}
use vessel.Shim.Bootstrap.Cleanup.{FreshPid, Ends, write_file_atomic-whole, run_start-Ends}
use vessel.Shim.Bootstrap.Handshake.{Aimed, FitsPid, run_delete-Aimed, run_delete-run_start}

abbrev node : Node
node = record {
  files = Dict.put Dict.empty "/b/shim.pid" " 77\n";
  dirs = [];
  running = 1 ∷ 77 ∷ [];
  signals = [];
  handles = 3;
}

abbrev host : Host
host = record {
  executable = some "/usr/bin/containerd-shim-vessel-v2";
  cwd = some "/b";
  socket_root_env = "";
  sha256 = λ _. 1 ∷ 35 ∷ 69 ∷ 103 ∷ 137 ∷ 171 ∷ 205 ∷ 239 ∷ 255 ∷ [];
  mkdir_fails = λ _. false;
  listen_fails = λ _. false;
  dup_fails = false;
  log_fails = false;
  spawn = some 4242;
  faults = no_faults;
  getpid = 4300;
  now = 9;
}

abbrev own_address : String
own_address = "unix:///run/containerd/s/0123456789abcdef"

-- the disk is full when shim.pid is written
abbrev full : Host
full = record host {
  faults = record no_faults {
    writing = λ path. if str_eq path "/b/shim.pid.tmp" then Fate.breaks_after "42" else Fate.works;
  };
}

evaluated : Unit {0}
unfolding run_start run_delete write_file_atomic socket_address Dict.get Dict.put Dict.remove
    Dict.empty
evaluated = tt

socket_address_examples : socket_address host "/run/c.sock" "k8s.io" "t1" ≡ own_address
unfolding evaluated
socket_address_examples = refl

starts : (run_start host "k8s.io" "t1" "/run/c.sock" node).1 ≡ started own_address
unfolding evaluated
starts = refl

run_delete-run_start_example :
    (run_delete host "k8s.io" "t1" "/run/c.sock"
      (run_start host "k8s.io" "t1" "/run/c.sock" node).0).0.signals
    ≡ pos 4242 ∷ negsuc 4241 ∷ []
run_delete-run_start_example =
    run_delete-run_start host "k8s.io" "t1" "/run/c.sock" node "/b" own_address 4241 refl refl
      starts (omega arith) (omega arith)

-- a stale file with a space before and a line end behind the number
stale_pid : (run_delete host "k8s.io" "t1" "/run/c.sock" node).0.signals ≡ pos 77 ∷ negsuc 76 ∷ []
unfolding evaluated
stale_pid = refl

full_disk : (run_start full "k8s.io" "t1" "/run/c.sock" node).1 ≡ failed writing_pid
unfolding evaluated
full_disk = refl

fresh_pid : FreshPid full node
fresh_pid pid h = ground (arith, some_eq h)

run_start-Ends_example : Ends 3 (1 ∷ 77 ∷ []) (run_start full "k8s.io" "t1" "/run/c.sock" node)
run_start-Ends_example = run_start-Ends full "k8s.io" "t1" "/run/c.sock" node fresh_pid

small_pid : FitsPid host node
unfolding evaluated
small_pid bundle text p at found number =
    let there : "/b" ≡ bundle = some_eq at in
    let read : Dict.get node.files "/b/shim.pid" ≡ some text =
      subst (λ b. Dict.get node.files (join b "shim.pid") ≡ some text) (sym there) found in
    let same : " 77\n" ≡ text = some_eq read in
    let parsed : atoi (trim_space " 77\n") ≡ some (pos p) =
      subst (λ t. atoi (trim_space t) ≡ some (pos p)) (sym same) number in
    let equal : pos 77 ≡ pos p = some_eq parsed in ground (arith, equal)

-- the largest uint32: process 1, as the low half of its negation, and then -1, every process
wrapped_pid :
    let other = record node { files = Dict.put Dict.empty "/b/shim.pid" "4294967295" } in
    (run_delete host "k8s.io" "t1" "/run/c.sock" other).0.signals ≡ negsuc 0 ∷ pos 1 ∷ []
unfolding evaluated
wrapped_pid = refl

run_delete-Aimed_example : All Aimed (run_delete host "k8s.io" "t1" "/run/c.sock" node).0.signals
run_delete-Aimed_example = run_delete-Aimed host "k8s.io" "t1" "/run/c.sock" node small_pid tt

write_file_atomic-whole_example :
    let (after, done) = write_file_atomic full.faults "/b/shim.pid" "4242" node.files in
    Dict.get after "/b/shim.pid" ≡ (if done then some "4242" else Dict.get node.files "/b/shim.pid")
write_file_atomic-whole_example =
    write_file_atomic-whole full.faults "/b/shim.pid" "4242" node.files
