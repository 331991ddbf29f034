-- ===== src/Shim/Lifecycle.antt =====
-- pkg/shim/service.go: the life of a task as a client of the service sees it.
use vessel.Prelude.{
  ℕ, ◌+◌, ◌%◌, ◌^◌, ◌==◌, String, false, none, some, [], ◌∷◌, ◌++◌, ◌≡◌, ◌≢◌, ◌⊎◌, arith,
  if◌then◌else◌, str_eq, eq_refl,
}
use vessel.Dict
use vessel.Dict.{get-put, get-remove}
use vessel.Heap.{load, modify, alloc}
use vessel.Sandbox
use vessel.Sandbox.{Instance}
use vessel.Shim.{Status, RpcError, reply, refuse, TaskState, Event, Service, is_stopped, stop_then}
use vessel.Shim.Task.{ExitRecord, commit, new_task, find_task, start, kill, delete}
use vessel.Shim.Exits.{exit_at}

module _ {W : Type 0} where
  -- what Kill or Delete with exit code `code` leaves as the exit record of a task
  abbrev pub exit_after : TaskState W → ℕ → ℕ → ExitRecord
  exit_after ts code now =
      if is_stopped ts.status
      then record { exit_status = ts.exit_status; exited_at = ts.exited_at }
      else record { exit_status = code; exited_at = some now }

  -- Kill of a known task whose instance's Stop does not panic: it succeeds, the task keeps the exit record
  -- that it has if it had stopped, and otherwise gets this time and 128 plus the signal, 9 where
  -- the signal is 0, modulo 2 ^ 32; the task stays known, and the manager still tracks its sandbox.
  pub kill_lem :
      (id : String) (sig now : ℕ) (s : Service W) (p : ℕ) (ts : TaskState W)
      → find_task id s ≡ some (p, ts)
      → (ts.inst.stop s.daemon.world).1 ≢ Sandbox.Result.panic
      → ((kill id sig now s).1 ≡ reply tt)
        × (exit_at p (kill id sig now s).0
            ≡ some (exit_after ts ((128 + (if sig == 0 then 9 else sig)) % 2 ^ 32) now))
        × ((kill id sig now s).0.tasks ≡ s.tasks)
        × ((kill id sig now s).0.daemon.manager ≡ s.daemon.manager)
  unfolding kill modify load
  kill_lem id sig now s p ts found calm = (ground arith, ground arith, ground arith, ground arith)

  -- Delete of a known task whose instance's Stop does not panic: it returns the exit record that the
  -- task has, or exit status 0 at this time; the task alone is forgotten; with a publisher, the
  -- deletion is published with that record, after the exit where this call stopped the task, and
  -- without one nothing is; and the manager goes on tracking the sandbox, which only the service has
  -- forgotten.
  pub delete_lem :
      (id : String) (now : ℕ) (s : Service W) (p : ℕ) (ts : TaskState W)
      → find_task id s ≡ some (p, ts)
      → (ts.inst.stop s.daemon.world).1 ≢ Sandbox.Result.panic
      → let r = exit_after ts 0 now in
        let ended = Event.task_exit id id s.pid 0 (some now) in
        let deleted = Event.task_delete id s.pid r.exit_status r.exited_at in
        ((delete id now s).1 ≡ reply r)
        × (find_task id (delete id now s).0 ≡ none)
        × ((j : String)
            → str_eq id j ≡ false
            → Dict.get (delete id now s).0.tasks j ≡ Dict.get s.tasks j)
        × ((delete id now s).0.events ≡ (
            if s.has_publisher
            then if is_stopped ts.status
              then s.events ++ deleted ∷ []
              else (s.events ++ ended ∷ []) ++ deleted ∷ []
            else s.events))
        × ((delete id now s).0.daemon.manager ≡ s.daemon.manager)
  unfolding delete modify load
  delete_lem id now s p ts found calm = (
    ground arith,
    ground (arith, get-remove s.tasks id id, eq_refl id),
    λ j ne. ground (arith, get-remove s.tasks id j),
    ground arith,
    ground arith,
  )

  -- Start runs a created task once: it answers with the pid and the task is RUNNING, and it is
  -- refused, with nothing changed, for an unknown task and for one in any other state.
  pub start_lem :
      (id : String) (s : Service W)
      → (find_task id s ≡ none → start id s ≡ (s, refuse (RpcError.not_found id)))
        × ((p : ℕ) (ts : TaskState W)
            → find_task id s ≡ some (p, ts)
            → ((ts.status ≡ Status.created)
                × ((start id s).1 ≡ reply s.pid)
                × (find_task id (start id s).0 ≡ some (p, record ts { status = Status.running })))
              ⊎ (start id s ≡ (s, refuse (RpcError.failed_precondition id ts.status))))
  unfolding start modify load
  start_lem id s = (λ n. ground arith, λ p ts found. ground arith)

  -- Of two Creates for one id that both passed the first check, the second to take the lock is
  -- refused, stops its own instance, and leaves the first one's task and the task table alone.
  pub commit-commit :
      (id b1 b2 : String) (i1 i2 : Instance W) (s : Service W)
      → Dict.get s.tasks id ≡ none
      → (i2.stop s.daemon.world).1 ≢ Sandbox.Result.panic
      → let t = (commit id b1 i1 s).0 in
        ((commit id b1 i1 s).1 ≡ reply s.pid)
        × (find_task id t ≡ some (s.task_cells.next, new_task i1 b1))
        × ((commit id b2 i2 t).1 ≡ refuse (RpcError.already_exists id))
        × ((commit id b2 i2 t).0.tasks ≡ t.tasks)
        × ((commit id b2 i2 t).0.task_cells ≡ t.task_cells)
        × ((commit id b2 i2 t).0.daemon.world ≡ (i2.stop s.daemon.world).0)
  unfolding commit stop_then alloc load find_task
  commit-commit id b1 b2 i1 i2 s absent calm =
      let here = get-put s.tasks id id s.task_cells.next in
      let same = eq_refl id in
      (
        ground (arith, here, same),
        ground (arith, here, same),
        ground (arith, here, same),
        ground (arith, here, same),
        ground (arith, here, same),
        ground (arith, here, same),
      )
