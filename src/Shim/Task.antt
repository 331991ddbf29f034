-- ===== src/Shim/Task.antt =====
-- pkg/shim/service.go: the methods of the task service, for requests that name no exec. A method
-- is its sections under the lock and its calls outside of it, in the source's order.
use vessel.Prelude.{
  ℕ, ◌+◌, String, true, Option, none, some, List, [], ◌∷◌, ◌++◌, ◌&&◌, str_eq, ◌==◌, if◌then◌else◌,
}
use vessel.Prelude.Int.{pos}
use vessel.Dict
use vessel.Dict.{Dict}
use vessel.FilePath.{join}
use vessel.Shim.Bundle.{template_annotation, bundle_netns, bundle_annotation}
use vessel.Heap.{load, alloc, modify}
use vessel.Sandbox
use vessel.Sandbox.{Instance, Spec}
use vessel.Sandbox.Manager.{Daemon}
use vessel.Sandbox.Manager
use vessel.Shim.{
  Status, RpcError, Reply, reply, refuse, TaskState, Event, Surroundings, Service, is_created,
  is_stopped, u32, publish, stop_then, mark_exited,
}

pub record StateResponse : Type 0 where
  pub id : String
  pub bundle : String
  pub pid : ℕ
  pub status : Status
  pub exit_status : ℕ
  pub exited_at : Option ℕ
  pub stdout : String
  pub stderr : String

-- The exit record that Delete and Wait return; Delete's has the pid besides.
pub record ExitRecord : Type 0 where
  pub exit_status : ℕ
  pub exited_at : Option ℕ

-- Wait returns at once, or blocks on a channel until the exit of the task or exec at a pointer.
pub data Waiting : Type 0 where
  returned : Reply ExitRecord → Waiting
  blocked : ℕ → ℕ → Waiting

abbrev pub new_spec : String → String → Surroundings → Spec
new_spec id bundle around = record {
  name = id;
  rootfs = join bundle "rootfs";
  cmd = [];
  env = [];
  vcpus = pos 0;
  mem_mib = pos 0;
  timeout = pos 0;
  netns = bundle_netns around bundle;
}

-- 128+sig, in uint32, where no signal means SIGKILL
unfoldable pub exit_code : ℕ → ℕ
exit_code sig = u32 (128 + (if sig == 0 then 9 else sig))

module _ {W : Type 0} where
  lift : Daemon W × Sandbox.Result (Instance W) → Daemon W × Reply (Instance W)
  lift (d, Sandbox.Result.ok i) = (d, reply i)
  lift (d, Sandbox.Result.err e) = (d, refuse (RpcError.manager e))
  lift (d, Sandbox.Result.panic) = (d, Reply.crash)

  -- the middle of Create, with no lock held: restore the annotated template, or boot afresh
  unfoldable pub make_instance : String → String → Service W → Daemon W × Reply (Instance W)
  unfolding lift
  make_instance id bundle s =
      let tmpl_id = bundle_annotation s.around bundle template_annotation in
      if str_eq tmpl_id ""
      then lift (Manager.create s.default_driver (some (new_spec id bundle s.around)) s.daemon)
      else elim (s.around.lookup_template tmpl_id) [
        | none ↦ (s.daemon, refuse (RpcError.template_not_found tmpl_id))
        | some t ↦ lift (
            Manager.restore_from (if str_eq t.driver "" then s.default_driver else t.driver) t.path
              (record { netns = bundle_netns s.around bundle }) s.daemon)
      ]

  abbrev pub new_task : Instance W → String → TaskState W
  new_task inst bundle = record {
    inst = inst;
    bundle = bundle;
    status = Status.created;
    exit_status = 0;
    exited_at = none;
    waiters = [];
    execs = Dict.empty;
  }

  add_task : String → String → Instance W → Service W → Service W
  unfolding publish
  add_task id bundle inst s = publish (Event.task_create id bundle s.pid) (record s {
    tasks = Dict.put s.tasks id s.task_cells.next;
    task_cells = alloc (new_task inst bundle) s.task_cells;
  })

  -- the end of Create, under the lock again: a concurrent Create may have won
  unfoldable pub commit : String → String → Instance W → Service W → Service W × Reply ℕ
  unfolding add_task
  commit id bundle inst s = elim (Dict.get s.tasks id) [
    | none ↦ (add_task id bundle inst s, reply s.pid)
    | some _ ↦ stop_then inst s (λ s'. (s', refuse (RpcError.already_exists id)))
  ]

  after_instance : String → String → Daemon W × Reply (Instance W) → Service W → Service W × Reply ℕ
  unfolding commit
  after_instance id bundle (d, reply inst) s = commit id bundle inst (record s { daemon = d })
  after_instance id bundle (d, refuse e) s = (record s { daemon = d }, refuse e)
  after_instance id bundle (d, Reply.crash) s = (record s { daemon = d }, Reply.crash)

  unfoldable pub create : String → String → Service W → Service W × Reply ℕ
  unfolding make_instance after_instance
  create id bundle s =
      if str_eq id ""
      then (s, refuse (RpcError.invalid_argument "task id is required"))
      else elim (Dict.get s.tasks id) [
        | some _ ↦ (s, refuse (RpcError.already_exists id))
        | none ↦ after_instance id bundle (make_instance id bundle s) s
      ]

  -- ts, ok := s.tasks[id]
  unfoldable pub find_task : String → Service W → Option (ℕ × TaskState W)
  find_task id s = elim (Dict.get s.tasks id) [
    | none ↦ none
    | some p ↦ elim (load s.task_cells p) [ none ↦ none | some ts ↦ some (p, ts) ]
  ]

  unfoldable pub start : String → Service W → Service W × Reply ℕ
  unfolding find_task publish
  start id s = elim (find_task id s) [
    | none ↦ (s, refuse (RpcError.not_found id))
    | some (p, ts) ↦
        if is_created ts.status
        then (
          publish (Event.task_start id s.pid) (record s {
            task_cells = modify p (λ t. record t { status = Status.running }) s.task_cells;
          }),
          reply s.pid,
        )
        else (s, refuse (RpcError.failed_precondition id ts.status))
  ]

  unfoldable pub state : String → Service W → Reply StateResponse
  unfolding find_task
  state id s = elim (find_task id s) [
    | none ↦ refuse (RpcError.not_found id)
    | some (p, ts) ↦ reply (record {
      id = id;
      bundle = ts.bundle;
      pid = s.pid;
      status = ts.status;
      exit_status = ts.exit_status;
      exited_at = ts.exited_at;
      stdout = "";
      stderr = "";
    })
  ]

  -- `now` is the time at which the exit is recorded
  unfoldable pub kill : String → ℕ → ℕ → Service W → Service W × Reply (Unit {0})
  unfolding find_task stop_then mark_exited exit_code
  kill id sig now s = elim (find_task id s) [
    | none ↦ (s, refuse (RpcError.not_found id))
    | some (p, ts) ↦ stop_then ts.inst s (λ s'. (mark_exited id p (exit_code sig) now s', reply tt))
  ]

  -- the last section of Delete: the exit record is read from the object, not from the map
  unfoldable pub remove_task : String → ℕ → Service W → Service W × Reply ExitRecord
  unfolding publish
  remove_task id p s = elim (load s.task_cells p) [
    | none ↦ (s, Reply.crash)
    | some ts ↦ (
      publish (Event.task_delete id s.pid ts.exit_status ts.exited_at)
          (record s { tasks = Dict.remove s.tasks id }),
      reply (record { exit_status = ts.exit_status; exited_at = ts.exited_at }),
    )
  ]

  unfoldable pub delete : String → ℕ → Service W → Service W × Reply ExitRecord
  unfolding find_task stop_then mark_exited remove_task
  delete id now s = elim (find_task id s) [
    | none ↦ (s, refuse (RpcError.not_found id))
    | some (p, ts) ↦ stop_then ts.inst s (λ s'. remove_task id p (mark_exited id p 0 now s'))
  ]

  unfoldable pub wait : String → Service W → Service W × Waiting
  unfolding find_task
  wait id s = elim (find_task id s) [
    | none ↦ (s, Waiting.returned (refuse (RpcError.not_found id)))
    | some (p, ts) ↦
        if is_stopped ts.status
        then (
          s,
          Waiting.returned
              (reply (record { exit_status = ts.exit_status; exited_at = ts.exited_at })),
        )
        else (
          record s {
            next_channel = s.next_channel + 1;
            task_cells =
                modify p (λ t. record t { waiters = t.waiters ++ s.next_channel ∷ [] })
                  s.task_cells;
          },
          Waiting.blocked p s.next_channel,
        )
  ]

  unfoldable pub pids : String → Service W → Reply (List ℕ)
  unfolding find_task
  pids id s = elim (find_task id s) [
    | none ↦ refuse (RpcError.not_found id)
    | some _ ↦ reply (s.pid ∷ [])
  ]

  unfoldable pub stats : String → Service W → Reply (Unit {0})
  unfolding find_task
  stats id s = elim (find_task id s) [ none ↦ refuse (RpcError.not_found id) | some _ ↦ reply tt ]

  unfoldable pub shutdown : Service W → Service W
  shutdown s =
      if Dict.is_empty_dict s.tasks && s.has_on_shutdown
      then record s { is_shut_down = true }
      else s
