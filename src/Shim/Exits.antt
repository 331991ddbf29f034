-- ===== src/Shim/Exits.antt =====
-- pkg/shim: the exit record of a task or an exec is written once, whatever the interleaving.
use vessel.Prelude.{ℕ, String, Option, none, some, List, [], ◌∷◌, ◌≡◌, arith, if◌then◌else◌}
use vessel.Heap.{load, modify, alloc}
use vessel.Sandbox.{Instance}
use vessel.Shim.{publish, TaskState, Service, is_stopped, mark_exited, mark_exec_exited, stop_then}
use vessel.Shim.Task.{ExitRecord, commit, start, remove_task, wait, shutdown}
use vessel.Shim.Exec.{ExecRequest, exec, start_exec, write_output}
use vessel.Shim.ExecQuery.{wait_exec, delete_exec}
use vessel.Shim.Fresh.{HasFreshCells, perform-HasFreshCells}
use vessel.Shim.Sections.{
  Section, outside, commits, starts, marks, removes, waits, shuts_down, execs, starts_exec,
  takes_job, writes, marks_exec, waits_exec, deletes_exec, publishes, perform, perform_all,
}

module _ {W : Type 0} where
  abbrev pub task_exit : Option (TaskState W) → Option ExitRecord
  task_exit none = none
  task_exit (some ts) =
      if is_stopped ts.status
      then some (record { exit_status = ts.exit_status; exited_at = ts.exited_at })
      else none

  -- the exit record of the task at a pointer, once it is STOPPED
  abbrev pub exit_at : ℕ → Service W → Option ExitRecord
  exit_at p s = task_exit (load s.task_cells p)

  exit_at-starts :
      (p : ℕ) (id : String) (s : Service W) {e : ExitRecord}
      → exit_at p s ≡ some e
      → exit_at p (start id s).0 ≡ some e
  unfolding start modify load
  exit_at-starts p id s h = ground arith

  exit_at-marks :
      (p : ℕ) (id : String) (q code now : ℕ) (s : Service W) {e : ExitRecord}
      → exit_at p s ≡ some e
      → exit_at p (mark_exited id q code now s) ≡ some e
  unfolding mark_exited modify load
  exit_at-marks p id q code now s h = ground arith

  exit_at-waits :
      (p : ℕ) (id : String) (s : Service W) {e : ExitRecord}
      → exit_at p s ≡ some e
      → exit_at p (wait id s).0 ≡ some e
  unfolding wait modify load
  exit_at-waits p id s h = ground arith

  exit_at-removes :
      (p : ℕ) (id : String) (q : ℕ) (s : Service W) {e : ExitRecord}
      → exit_at p s ≡ some e
      → exit_at p (remove_task id q s).0 ≡ some e
  unfolding remove_task load
  exit_at-removes p id q s h = ground arith

  exit_at-commits :
      (p : ℕ) (id bundle : String) (inst : Instance W) (s : Service W) {e : ExitRecord}
      → HasFreshCells s
      → exit_at p s ≡ some e
      → exit_at p (commit id bundle inst s).0 ≡ some e
  unfolding commit stop_then load alloc
  exit_at-commits p id bundle inst s f h = ground (arith, f.fresh_tasks p)

  exit_at-execs :
      (p : ℕ) (r : ExecRequest) (s : Service W) {e : ExitRecord}
      → exit_at p s ≡ some e
      → exit_at p (exec r s).0 ≡ some e
  unfolding exec load modify
  exit_at-execs p r s h = ground arith

  exit_at-starts_exec :
      (p : ℕ) (t x : String) (s : Service W) {e : ExitRecord}
      → exit_at p s ≡ some e
      → exit_at p (start_exec t x s).0 ≡ some e
  unfolding start_exec load
  exit_at-starts_exec p t x s h = ground arith

  exit_at-waits_exec :
      (p : ℕ) (t x : String) (s : Service W) {e : ExitRecord}
      → exit_at p s ≡ some e
      → exit_at p (wait_exec t x s).0 ≡ some e
  unfolding wait_exec load
  exit_at-waits_exec p t x s h = ground arith

  exit_at-deletes_exec :
      (p : ℕ) (t x : String) (s : Service W) {e : ExitRecord}
      → exit_at p s ≡ some e
      → exit_at p (delete_exec t x s).0 ≡ some e
  unfolding delete_exec load modify
  exit_at-deletes_exec p t x s h = ground arith

  exit_at-perform :
      (p : ℕ) (x : Section W) (s : Service W) {e : ExitRecord}
      → HasFreshCells s
      → exit_at p s ≡ some e
      → exit_at p (perform x s) ≡ some e
  unfolding perform
  exit_at-perform p (outside d) s f h = h
  exit_at-perform p (commits id bundle inst) s f h = exit_at-commits p id bundle inst s f h
  exit_at-perform p (starts id) s f h = exit_at-starts p id s h
  exit_at-perform p (marks id q code now) s f h = exit_at-marks p id q code now s h
  exit_at-perform p (removes id q) s f h = exit_at-removes p id q s h
  exit_at-perform p (waits id) s f h = exit_at-waits p id s h
  exit_at-perform p shuts_down s f h = unfold shutdown in ground arith
  exit_at-perform p (execs r) s f h = exit_at-execs p r s h
  exit_at-perform p (starts_exec t x) s f h = exit_at-starts_exec p t x s h
  exit_at-perform p (takes_job rest) s f h = h
  exit_at-perform p (writes path what) s f h = unfold write_output in ground arith
  exit_at-perform p (marks_exec t x q code now) s f h = unfold mark_exec_exited in ground arith
  exit_at-perform p (waits_exec t x) s f h = exit_at-waits_exec p t x s h
  exit_at-perform p (deletes_exec t x) s f h = exit_at-deletes_exec p t x s h
  exit_at-perform p (publishes x) s f h = unfold publish in ground arith

  -- Once a task has stopped, its exit status and exit time never change, whatever sections of
  -- whatever methods run afterwards, in any interleaving: a second Kill, a Delete and a stale
  -- goroutine's mark included.
  pub exit_at-perform_all :
      (p : ℕ) (xs : List (Section W)) (s : Service W) {e : ExitRecord}
      → HasFreshCells s
      → exit_at p s ≡ some e
      → exit_at p (perform_all xs s) ≡ some e
  unfolding perform_all
  exit_at-perform_all p [] s f h = h
  exit_at-perform_all p (x ∷ xs) s f h =
      exit_at-perform_all p xs (perform x s) (perform-HasFreshCells x s f)
        (exit_at-perform p x s f h)
