-- ===== src/Shim/ExecQuery.antt =====
-- pkg/shim/exec.go: the methods that ask about an exec process, wait for it or drop its record.
use vessel.Prelude.{◌+◌, String, none, some, [], ◌∷◌, ◌++◌, if◌then◌else◌}
use vessel.Dict
use vessel.Heap.{modify}
use vessel.Shim.{RpcError, Reply, reply, refuse, Service, is_running, is_stopped}
use vessel.Shim.Task.{StateResponse, ExitRecord, Waiting, returned, blocked, find_task}
use vessel.Shim.Exec.{find_exec}

module _ {W : Type 0} where
  unfoldable pub exec_state : String → String → Service W → Reply StateResponse
  unfolding find_exec
  exec_state task_id exec_id s = elim (find_exec task_id exec_id s) [
    | refuse e ↦ refuse e
    | Reply.crash ↦ Reply.crash
    | reply (ts, q, es) ↦ reply (record {
      id = exec_id;
      bundle = ts.bundle;
      pid = s.pid;
      status = es.status;
      exit_status = es.exit_status;
      exited_at = es.exited_at;
      stdout = es.stdout;
      stderr = es.stderr;
    })
  ]

  unfoldable pub wait_exec : String → String → Service W → Service W × Waiting
  unfolding find_exec
  wait_exec task_id exec_id s = elim (find_exec task_id exec_id s) [
    | refuse e ↦ (s, returned (refuse e))
    | Reply.crash ↦ (s, returned Reply.crash)
    | reply (ts, q, es) ↦
        if is_stopped es.status
        then (
          s,
          returned (reply (record { exit_status = es.exit_status; exited_at = es.exited_at })),
        )
        else (
          record s {
            next_channel = s.next_channel + 1;
            exec_cells =
                modify q (λ e. record e { waiters = e.waiters ++ s.next_channel ∷ [] })
                  s.exec_cells;
          },
          blocked q s.next_channel,
        )
  ]

  -- Only a running exec is refused: one that was never started is dropped too.
  unfoldable pub delete_exec : String → String → Service W → Service W × Reply ExitRecord
  unfolding find_task find_exec
  delete_exec task_id exec_id s = elim (find_exec task_id exec_id s) [
    | refuse e ↦ (s, refuse e)
    | Reply.crash ↦ (s, Reply.crash)
    | reply (ts, q, es) ↦
        if is_running es.status
        then (s, refuse (RpcError.failed_precondition exec_id es.status))
        else (
          elim (Dict.get s.tasks task_id) [
            | none ↦ s
            | some p ↦ record s {
              task_cells =
                  modify p (λ t. record t { execs = Dict.remove t.execs exec_id }) s.task_cells;
            }
          ],
          reply (record { exit_status = es.exit_status; exited_at = es.exited_at }),
        )
  ]

  unfoldable pub kill_exec : String → String → Service W → Reply (Unit {0})
  unfolding find_task
  kill_exec task_id exec_id s = elim (find_task task_id s) [
    | none ↦ refuse (RpcError.not_found task_id)
    | some (p, ts) ↦ elim (Dict.get ts.execs exec_id) [
      | none ↦ refuse (RpcError.exec_not_found exec_id)
      | some _ ↦ refuse (RpcError.unimplemented "signalling an exec")
    ]
  ]
