-- ===== src/Shim/Bootstrap.antt =====
-- pkg/shim/bootstrap.go: how containerd starts and deletes a shim. `Node` is what the two
-- subcommands change, and `Host` is what the system answers them; sha256 is an argument.
pub mod Cleanup
pub mod Handshake
mod Scenarios
use Prim.Native.String.{◌++◌ as append}
use vessel.Prelude.{
  ℕ, zero, suc, ltb, ◌+◌, ◌-◌, ◌%◌, ◌^◌, String, Bool, true, false, Option, none, some, List, [],
  ◌∷◌, ◌==◌, str_eq, if◌then◌else◌, ◌||◌, is_none, not, take,
}
use vessel.Prelude.Int.{ℤ, pos, negsuc, leb_ℤ, ◌-ℤ◌}
use vessel.Prelude.Digits.{itoa}
use vessel.Prelude.Prefix.{drop_prefix}
use vessel.Prelude.Decimal.{atoi, trim_space}
use vessel.Dict
use vessel.Dict.{Dict}
use vessel.Files.{Faults, write_file, rename, remove}
use vessel.FilePath.{join, dir}
use vessel.Sandbox.Id.{encode_to_string}

-- `running` are processes by their ids, `signals` what was sent, newest first, a negative number to
-- a process group; `handles` counts open descriptors.
pub record Node : Type 0 where
  pub files : Dict String
  pub dirs : List String
  pub running : List ℕ
  pub signals : List ℤ
  pub handles : ℕ

pub record Host : Type 0 where
  pub executable : Option String
  pub cwd : Option String
  pub socket_root_env : String
  pub sha256 : String → List ℕ
  pub mkdir_fails : String → Bool
  pub listen_fails : String → Bool
  pub dup_fails : Bool
  pub log_fails : Bool
  pub spawn : Option ℕ
  pub faults : Faults
  pub getpid : ℕ
  pub now : ℕ

-- what a call of RunStart that fails was at
pub data Step : Type 0 where
  locating_self locating_bundle making_root listening duplicating opening_log spawning : Step
  writing_address writing_pid : Step

pub data Started : Type 0 where
  started : String → Started
  failed : Step → Started

unfoldable pub socket_root : String → String
socket_root env = if str_eq env "" then "/run/containerd/s" else env

-- filepath.Join of three parts, the last two not empty, with an empty first one left out
unfoldable pub join_three : String → String → String → String
unfolding join
join_three a b c = join a (append b (append "/" c))

unfoldable pub socket_address : Host → String → String → String → String
unfolding join_three join socket_root encode_to_string take
socket_address h containerd_address namespace id =
    let d = h.sha256 (join_three containerd_address namespace id) in
    append "unix://" (join (socket_root h.socket_root_env) (encode_to_string (take 8 d)))

unfoldable pub socket_path : String → String
unfolding drop_prefix
socket_path address = elim (drop_prefix "unix://" address) [ none ↦ address | some rest ↦ rest ]

-- into path + ".tmp", then over path; true for a nil error
unfoldable pub write_file_atomic : Faults → String → String → Dict String → Dict String × Bool
unfolding write_file rename
write_file_atomic faults path content files =
    let (files, wrote) = write_file faults (append path ".tmp") content files in
    let (renamed, done) = rename faults (append path ".tmp") path files in
    if wrote then (renamed, done) else (files, false)

unfoldable pub without : ℕ → List ℕ → List ℕ
without p [] = []
without p (q ∷ qs) = let rest = without p qs in if p == q then rest else q ∷ rest

-- cmd.Process.Kill, on the process that was started
unfoldable pub kill_process : ℕ → Node → Node
unfolding without
kill_process p n = record n { signals = pos p ∷ n.signals; running = without p n.running }

-- the low 32 bits of an int, as the pid_t that the kernel reads them as
unfoldable pub signed : ℕ → ℤ
signed n = if ltb n (2 ^ 31) then pos n else negsuc (2 ^ 32 - 1 - n)

unfoldable pub as_pid : ℤ → ℤ
unfolding signed
as_pid (pos p) = signed (p % 2 ^ 32)
as_pid (negsuc p) = signed (2 ^ 32 - 1 - p % 2 ^ 32)

unfoldable pub only_init : List ℕ → List ℕ
only_init [] = []
only_init (q ∷ qs) = let rest = only_init qs in if q == 1 then q ∷ rest else rest

-- SIGKILL to a process; for -1 to all but process 1; and else to the group that a process leads. The
-- caller's own group, for 0, is not in the table.
unfoldable pub deliver : ℤ → Node → Node
unfolding without only_init
deliver (pos p) n = record n { signals = pos p ∷ n.signals; running = without p n.running }
deliver (negsuc zero) n = record n {
  signals = negsuc zero ∷ n.signals;
  running = only_init n.running;
}
deliver (negsuc (suc p)) n = record n {
  signals = negsuc (suc p) ∷ n.signals;
  running = without (suc (suc p)) n.running;
}

-- syscall.Kill
unfoldable pub kill : ℤ → Node → Node
unfolding deliver as_pid
kill p n = deliver (as_pid p) n

unfoldable pub opened : Node → Node
opened n = record n { handles = n.handles + 1 }

unfoldable pub closed : ℕ → Node → Node
closed k n = record n { handles = n.handles - k }

unfoldable pub record_pid : Host → String → String → ℕ → Node → Node × Started
unfolding write_file_atomic kill_process join itoa
record_pid h bundle address pid n =
    let (files, wrote) = write_file_atomic h.faults (join bundle "shim.pid") (itoa pid) n.files in
    let n = record n { files = files } in
    if wrote then (n, started address) else (kill_process pid n, failed writing_pid)

unfoldable pub record_daemon : Host → String → String → ℕ → Node → Node × Started
unfolding write_file_atomic kill_process join record_pid
record_daemon h bundle address pid n =
    let (files, wrote) = write_file_atomic h.faults (join bundle "address") address n.files in
    let n = record n { files = files } in
    let recorded = record_pid h bundle address pid n in
    if wrote then recorded else (kill_process pid n, failed writing_address)

-- cmd.Start, and what is written of the daemon
unfoldable pub spawn_daemon : Host → String → String → Node → Node × Started
unfolding record_daemon
spawn_daemon h bundle address n = elim h.spawn [
  | none ↦ (n, failed spawning)
  | some pid ↦ record_daemon h bundle address pid (record n { running = pid ∷ n.running })
]

-- with shim.log open
unfoldable pub with_log : Host → String → String → Node → Node × Started
unfolding spawn_daemon opened closed
with_log h bundle address n =
    let (after, result) = spawn_daemon h bundle address (opened n) in
    if h.log_fails then (n, failed opening_log) else (closed 1 after, result)

-- ul.File, with the listener open; the deferred calls close both
unfoldable pub with_listener : Host → String → String → Node → Node × Started
unfolding with_log opened closed
with_listener h bundle address n =
    let (after, result) = with_log h bundle address (opened n) in
    if h.dup_fails then (closed 1 n, failed duplicating) else (closed 2 after, result)

-- a socket's path must be free when it is bound
unfoldable pub listen : Host → String → String → String → Node → Node × Started
unfolding with_listener opened
listen h bundle address path n =
    let bound = opened (record n { files = Dict.put n.files path "" }) in
    let result = with_listener h bundle address bound in
    if h.listen_fails path || not (is_none (Dict.get n.files path))
    then (n, failed listening)
    else result

unfoldable pub start_in : Host → String → String → Node → Node × Started
unfolding socket_path dir remove listen
start_in h bundle address n =
    let path = socket_path address in
    let made : Node = record n { dirs = dir path ∷ n.dirs; files = remove h.faults path n.files } in
    let result = listen h bundle address path made in
    if h.mkdir_fails (dir path) then (n, failed making_root) else result

unfoldable pub run_start : Host → String → String → String → Node → Node × Started
unfolding start_in socket_address
run_start h namespace id containerd_address n = elim h.executable [
  | none ↦ (n, failed locating_self)
  | some self ↦ elim h.cwd [
    | none ↦ (n, failed locating_bundle)
    | some bundle ↦ start_in h bundle (socket_address h containerd_address namespace id) n
  ]
]

pub record DeleteResponse : Type 0 where
  pub pid : ℕ
  pub exit_status : ℕ
  pub exited_at : ℕ

-- the group first, then the process
unfoldable pub kill_pid : Option ℤ → Node → Node
unfolding kill
kill_pid none n = n
kill_pid (some p) n = if leb_ℤ p (pos 1) then n else kill p (kill (pos 0 -ℤ p) n)

unfoldable pub kill_recorded : Option String → Node → Node
unfolding kill_pid atoi trim_space
kill_recorded none n = n
kill_recorded (some text) n = kill_pid (atoi (trim_space text)) n

unfoldable pub delete_in : Host → String → String → Node → Node
unfolding kill_recorded remove socket_path join
delete_in h bundle address n =
    let n = kill_recorded (Dict.get n.files (join bundle "shim.pid")) n in
    let files = remove h.faults (socket_path address) n.files in
    let files = remove h.faults (join bundle "address") files in
    record n { files = remove h.faults (join bundle "shim.pid") files }

-- an error where there is no working directory
unfoldable pub run_delete : Host → String → String → String → Node → Node × Option DeleteResponse
unfolding delete_in socket_address
run_delete h namespace id containerd_address n = elim h.cwd [
  | none ↦ (n, none)
  | some bundle ↦ (
    delete_in h bundle (socket_address h containerd_address namespace id) n,
    some (record { pid = h.getpid % 2 ^ 32; exit_status = 137; exited_at = h.now }),
  )
]
