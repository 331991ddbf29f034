-- ===== src/Shim.antt =====
-- pkg/shim: the state of the containerd task service (service.go, exec.go), its tasks and execs as
-- objects that goroutines share by pointer, the events that it publishes (events.go), and the
-- steps that its methods are made of: publishing, stopping an instance, marking an exit.
pub mod Task
pub mod Exec
pub mod ExecQuery
pub mod Bootstrap
pub mod Bundle
pub mod Config
pub mod Sections
pub mod Fresh
pub mod Exits
pub mod Wakeups
pub mod Lifecycle
pub mod Contract
pub mod Running
mod Scenarios
use vessel.Prelude.{
  ℕ, ◌+◌, ◌-◌, ◌%◌, ◌^◌, String, Bool, true, false, Option, none, some, List, [], ◌∷◌, ◌++◌,
  if◌then◌else◌,
}
use vessel.Prelude.Int.{ℤ, pos, negsuc}
use vessel.Dict.{Dict}
use vessel.Heap.{Heap, load, modify}
use vessel.Sandbox
use vessel.Sandbox.{Instance}
use vessel.Sandbox.Manager.{Daemon}

-- The values of containerd's `task.Status` that the shim sets.
pub data Status : Type 0 where
  created running stopped : Status

-- The gRPC status errors that the methods make, and the manager's errors that they pass on.
pub data RpcError : Type 0 where
  invalid_argument : String → RpcError
  already_exists not_found exec_not_found template_not_found : String → RpcError
  failed_precondition : String → Status → RpcError
  unimplemented : String → RpcError
  manager : Sandbox.Error → RpcError

pub data Reply {ℓ} (A : Type ℓ) : Type ℓ where
  reply : A → Reply A
  refuse : RpcError → Reply A
  crash : Reply A

-- A time that was never set, Go's zero `time.Time`, is `none`. A channel is a number.
pub record ExecState : Type 0 where
  pub args : List String
  pub stdout : String
  pub stderr : String
  pub status : Status
  pub exit_status : ℕ
  pub exited_at : Option ℕ
  pub waiters : List ℕ

pub record TaskState (W : Type 0) : Type 0 where
  pub inst : Instance W
  pub bundle : String
  pub status : Status
  pub exit_status : ℕ
  pub exited_at : Option ℕ
  pub waiters : List ℕ
  pub execs : Dict ℕ

pub data Event : Type 0 where
  task_create : String → String → ℕ → Event
  task_start : String → ℕ → Event
  task_exit : String → String → ℕ → ℕ → Option ℕ → Event
  task_delete : String → ℕ → ℕ → Option ℕ → Event

-- One restore source; an empty driver means the service's default.
pub record Template : Type 0 where
  pub driver : String
  pub path : String

-- linux.namespaces[] of an OCI bundle
pub record Namespace : Type 0 where
  pub type : String
  pub path : String

-- A goroutine that `startExec` spawned and that has not run yet.
pub record ExecJob (W : Type 0) : Type 0 where
  pub task_id : String
  pub exec_id : String
  pub exec : ℕ
  pub inst : Instance W
  pub args : List String
  pub stdout : String
  pub stderr : String

-- What an exec's goroutine writes to an output path: the text of the command, or the error line.
pub data Written : Type 0 where
  text : String → Written
  exec_error : Sandbox.Error → Written

-- What the service reads of its surroundings: `Templates.Lookup`; the annotations and namespaces
-- in a bundle's config.json, `none` where it cannot be read or parsed; and whether an output path
-- opens.
pub record Surroundings : Type 0 where
  pub lookup_template : String → Option Template
  pub annotations : String → Option (Dict String)
  pub namespaces : String → Option (List Namespace)
  pub opens : String → Bool

pub record Service (W : Type 0) : Type 0 where
  pub daemon : Daemon W
  pub around : Surroundings
  pub default_driver : String
  pub pid : ℕ
  pub has_publisher : Bool
  pub has_on_shutdown : Bool
  pub tasks : Dict ℕ
  pub task_cells : Heap (TaskState W)
  pub exec_cells : Heap ExecState
  pub jobs : List (ExecJob W)
  pub next_channel : ℕ
  pub closed : List ℕ
  pub events : List Event
  pub outputs : List (String × Written)
  pub is_shut_down : Bool

abbrev pub is_created : Status → Bool
is_created Status.created = true
is_created _ = false

abbrev pub is_running : Status → Bool
is_running Status.running = true
is_running _ = false

abbrev pub is_stopped : Status → Bool
is_stopped Status.stopped = true
is_stopped _ = false

-- uint32 arithmetic and conversion
abbrev pub u32 : ℕ → ℕ
u32 n = n % 2 ^ 32

abbrev pub u32_of_int : ℤ → ℕ
u32_of_int (pos n) = u32 n
u32_of_int (negsuc n) = 2 ^ 32 - 1 - u32 n

abbrev pub exec_exited : ℕ → ℕ → ExecState → ExecState
exec_exited code now es = record es {
  status = Status.stopped;
  exit_status = code;
  exited_at = some now;
  waiters = [];
}

module _ {W : Type 0} where
  -- A nil publisher drops the event; a failed delivery is logged and changes nothing.
  unfoldable pub publish : Event → Service W → Service W
  publish e s = if s.has_publisher then record s { events = s.events ++ e ∷ [] } else s

  -- _ = inst.Stop(ctx), then the rest of the method where it did not panic
  unfoldable pub stop_then {ℓ} :
      {A : Type ℓ}
      → Instance W
      → Service W
      → (Service W → Service W × Reply A)
      → Service W × Reply A
  stop_then inst s rest =
      let (w, r) = inst.stop s.daemon.world in
      let s' = record s { daemon = record s.daemon { world = w } } in
      elim r [ Sandbox.Result.panic ↦ (s', Reply.crash) | _ ↦ rest s' ]

  abbrev pub task_exited : ℕ → ℕ → TaskState W → TaskState W
  task_exited code now ts = record ts {
    status = Status.stopped;
    exit_status = code;
    exited_at = some now;
    waiters = [];
  }

  -- The transition to STOPPED is made once: it records the exit, closes the waiters' channels and
  -- publishes TaskExit. `now` is what `time.Now` returns.
  unfoldable pub mark_exited : String → ℕ → ℕ → ℕ → Service W → Service W
  unfolding publish
  mark_exited id p code now s = elim (load s.task_cells p) [
    | none ↦ s
    | some ts ↦
        if is_stopped ts.status
        then s
        else publish (Event.task_exit id id s.pid code (some now)) (record s {
          task_cells = modify p (task_exited code now) s.task_cells;
          closed = s.closed ++ ts.waiters;
        })
  ]

  unfoldable pub mark_exec_exited : String → String → ℕ → ℕ → ℕ → Service W → Service W
  unfolding publish
  mark_exec_exited task_id exec_id p code now s = elim (load s.exec_cells p) [
    | none ↦ s
    | some es ↦
        if is_stopped es.status
        then s
        else publish (Event.task_exit task_id exec_id s.pid code (some now)) (record s {
          exec_cells = modify p (exec_exited code now) s.exec_cells;
          closed = s.closed ++ es.waiters;
        })
  ]
