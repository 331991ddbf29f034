-- ===== src/Shim/Exec.antt =====
-- pkg/shim/exec.go: the methods of the task service for exec processes. `startExec` spawns a
-- goroutine: it is a job of the service, and `run_job` is what it does.
use vessel.Prelude.{
  ℕ, zero, suc, String, Option, none, some, List, [], ◌∷◌, ◌++◌, ◌||◌, Bool, str_eq, is_empty,
  if◌then◌else◌,
}
use vessel.Dict
use vessel.Heap.{load, alloc, modify}
use vessel.Sandbox
use vessel.Sandbox.{ExecOutput}
use vessel.Shim.{
  Status, RpcError, Reply, reply, refuse, ExecState, TaskState, ExecJob, Written, text, exec_error,
  Service, is_created, is_running, u32_of_int, mark_exec_exited,
}
use vessel.Shim.Task.{find_task}

-- The OCI process spec, `none` in the request where it is missing.
pub record ProcessSpec : Type 0 where
  pub terminal : Bool
  pub args : List String

-- `spec` is the request's spec, and inside it what json.Unmarshal makes of its value.
pub record ExecRequest : Type 0 where
  pub id : String
  pub exec_id : String
  pub spec : Option (Option ProcessSpec)
  pub terminal : Bool
  pub stdin : String
  pub stdout : String
  pub stderr : String

-- The checks of Exec before the lock, in their order: the process spec, or the first refusal.
unfoldable pub check_exec : ExecRequest → Reply ProcessSpec
check_exec r =
    if str_eq r.exec_id ""
    then refuse (RpcError.invalid_argument "exec id is required")
    else elim r.spec [
      | none ↦ refuse (RpcError.invalid_argument "process spec is required")
      | some parsed ↦ elim parsed [
        | none ↦ refuse (RpcError.invalid_argument "parse process spec")
        | some spec ↦
            if r.terminal || spec.terminal
            then refuse (RpcError.unimplemented "terminal exec")
            else if is_empty spec.args
            then refuse (RpcError.invalid_argument "process spec has no args")
            else if str_eq r.stdin ""
            then reply spec
            else refuse (RpcError.unimplemented "exec stdin")
      ]
    ]

abbrev pub new_exec : ExecRequest → ProcessSpec → ExecState
new_exec r spec = record {
  args = spec.args;
  stdout = r.stdout;
  stderr = r.stderr;
  status = Status.created;
  exit_status = 0;
  exited_at = none;
  waiters = [];
}

module _ {W : Type 0} where
  -- ts.execs[r.ExecID] = &execState{…}
  unfoldable pub add_exec : ExecRequest → ProcessSpec → ℕ → Service W → Service W
  add_exec r spec p s = record s {
    task_cells =
        modify p (λ t. record t { execs = Dict.put t.execs r.exec_id s.exec_cells.next })
          s.task_cells;
    exec_cells = alloc (new_exec r spec) s.exec_cells;
  }

  register_exec :
      ExecRequest → ProcessSpec → ℕ → TaskState W → Service W → Service W × Reply (Unit {0})
  unfolding add_exec
  register_exec r spec p ts s =
      if is_running ts.status
      then elim (Dict.get ts.execs r.exec_id) [
        | none ↦ (add_exec r spec p s, reply tt)
        | some _ ↦ (s, refuse (RpcError.already_exists r.exec_id))
      ]
      else (s, refuse (RpcError.failed_precondition r.id ts.status))

  unfoldable pub exec : ExecRequest → Service W → Service W × Reply (Unit {0})
  unfolding check_exec find_task register_exec
  exec r s = elim (check_exec r) [
    | refuse e ↦ (s, refuse e)
    | Reply.crash ↦ (s, Reply.crash)
    | reply spec ↦ elim (find_task r.id s) [
      | none ↦ (s, refuse (RpcError.not_found r.id))
      | some (p, ts) ↦ register_exec r spec p ts s
    ]
  ]

  -- The two lookups that begin every method below: the task, then its exec.
  unfoldable pub find_exec : String → String → Service W → Reply (TaskState W × ℕ × ExecState)
  unfolding find_task
  find_exec task_id exec_id s = elim (find_task task_id s) [
    | none ↦ refuse (RpcError.not_found task_id)
    | some (p, ts) ↦ elim (Dict.get ts.execs exec_id) [
      | none ↦ refuse (RpcError.exec_not_found exec_id)
      | some q ↦ elim (load s.exec_cells q) [ none ↦ Reply.crash | some es ↦ reply (ts, q, es) ]
    ]
  ]

  -- The exec is RUNNING before the goroutine is spawned, which takes its fields with it.
  spawn : String → String → TaskState W → ℕ → ExecState → Service W → Service W
  spawn task_id exec_id ts q es s =
      let job : ExecJob W = record {
        task_id = task_id;
        exec_id = exec_id;
        exec = q;
        inst = ts.inst;
        args = es.args;
        stdout = es.stdout;
        stderr = es.stderr;
      } in
      record s {
        exec_cells = modify q (λ e. record e { status = Status.running }) s.exec_cells;
        jobs = s.jobs ++ job ∷ [];
      }

  unfoldable pub start_exec : String → String → Service W → Service W × Reply ℕ
  unfolding find_exec spawn
  start_exec task_id exec_id s = elim (find_exec task_id exec_id s) [
    | refuse e ↦ (s, refuse e)
    | Reply.crash ↦ (s, Reply.crash)
    | reply (ts, q, es) ↦
        if is_created es.status
        then (spawn task_id exec_id ts q es s, reply s.pid)
        else (s, refuse (RpcError.failed_precondition exec_id es.status))
  ]

  -- openOutput and the write: an empty path, and one that does not open, discard it
  unfoldable pub write_output : String → Written → Service W → Service W
  write_output path what s =
      if str_eq path ""
      then s
      else if s.around.opens path
      then record s { outputs = s.outputs ++ (path, what) ∷ [] }
      else s

  -- What the command left: its output and exit code, or the error line and 255.
  finish : ExecJob W → ℕ → Sandbox.Result ExecOutput → Service W → Service W
  unfolding write_output mark_exec_exited
  finish j now (Sandbox.Result.ok o) s =
      mark_exec_exited j.task_id j.exec_id j.exec (u32_of_int o.code) now
        (write_output j.stderr (text o.stderr) (write_output j.stdout (text o.stdout) s))
  finish j now (Sandbox.Result.err e) s =
      mark_exec_exited j.task_id j.exec_id j.exec 255 now (write_output j.stderr (exec_error e) s)
  finish j now Sandbox.Result.panic s = s

  -- The goroutine of `startExec`; a panic in it would end the process, and goes no further here.
  -- An instance gives its output or an error, so what was written before an error is not there.
  unfoldable pub run_job : ExecJob W → ℕ → Service W → Service W
  unfolding finish
  run_job j now s =
      let (w, r) = j.inst.exec j.args s.daemon.world in
      finish j now r (record s { daemon = record s.daemon { world = w } })

  -- the n-th job that waits, and the others
  unfoldable pub pick_job : ℕ → List (ExecJob W) → Option (ExecJob W × List (ExecJob W))
  pick_job n [] = none
  pick_job zero (j ∷ rest) = some (j, rest)
  pick_job (suc n) (j ∷ rest) = elim (pick_job n rest) [
    | none ↦ none
    | some (k, others) ↦ some (k, j ∷ others)
  ]

  -- the scheduler lets the n-th spawned goroutine run
  unfoldable pub run_nth : ℕ → ℕ → Service W → Service W
  unfolding pick_job run_job
  run_nth n now s = elim (pick_job n s.jobs) [
    | none ↦ s
    | some (j, rest) ↦ run_job j now (record s { jobs = rest })
  ]
