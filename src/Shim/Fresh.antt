-- ===== src/Shim/Fresh.antt =====
-- pkg/shim: pointers to tasks and execs are allocated in order, whatever the interleaving.
use vessel.Prelude.{ℕ, ◌≤◌, none, ◌≡◌, arith}
use vessel.Heap.{load, modify, alloc, HasFreshNext}
use vessel.Shim.{Service, publish, mark_exited, mark_exec_exited, stop_then}
use vessel.Shim.Task.{commit, start, remove_task, wait, shutdown}
use vessel.Shim.Exec.{exec, start_exec, write_output}
use vessel.Shim.ExecQuery.{wait_exec, delete_exec}
use vessel.Shim.Sections.{
  Section, outside, commits, starts, marks, removes, waits, shuts_down, execs, starts_exec,
  takes_job, writes, marks_exec, waits_exec, deletes_exec, publishes, perform,
}

module _ {W : Type 0} where
  -- No pointer from `next` on has been allocated, in either store.
  pub record HasFreshCells (s : Service W) : Type 0 where
    pub fresh_tasks : HasFreshNext s.task_cells
    pub fresh_execs : HasFreshNext s.exec_cells

  fresh_tasks-perform :
      (x : Section W) (s : Service W) (q : ℕ)
      → HasFreshCells s
      → (perform x s).task_cells.next ≤ q
      → load (perform x s).task_cells q ≡ none
  unfolding perform load modify alloc
  fresh_tasks-perform (outside d) s q f le = f.fresh_tasks q le
  fresh_tasks-perform (commits id bundle inst) s q f le =
      unfold commit stop_then in ground (arith, f.fresh_tasks q)
  fresh_tasks-perform (starts id) s q f le = unfold start in ground (arith, f.fresh_tasks q)
  fresh_tasks-perform (marks id p code now) s q f le =
      unfold mark_exited in ground (arith, f.fresh_tasks q)
  fresh_tasks-perform (removes id p) s q f le =
      unfold remove_task in ground (arith, f.fresh_tasks q)
  fresh_tasks-perform (waits id) s q f le = unfold wait in ground (arith, f.fresh_tasks q)
  fresh_tasks-perform shuts_down s q f le = unfold shutdown in ground (arith, f.fresh_tasks q)
  fresh_tasks-perform (execs r) s q f le = unfold exec in ground (arith, f.fresh_tasks q)
  fresh_tasks-perform (starts_exec t e) s q f le =
      unfold start_exec in ground (arith, f.fresh_tasks q)
  fresh_tasks-perform (takes_job rest) s q f le = f.fresh_tasks q le
  fresh_tasks-perform (writes path what) s q f le =
      unfold write_output in ground (arith, f.fresh_tasks q)
  fresh_tasks-perform (marks_exec t e p code now) s q f le =
      unfold mark_exec_exited in ground (arith, f.fresh_tasks q)
  fresh_tasks-perform (waits_exec t e) s q f le =
      unfold wait_exec in ground (arith, f.fresh_tasks q)
  fresh_tasks-perform (deletes_exec t e) s q f le =
      unfold delete_exec in ground (arith, f.fresh_tasks q)
  fresh_tasks-perform (publishes e) s q f le = unfold publish in ground (arith, f.fresh_tasks q)

  fresh_execs-perform :
      (x : Section W) (s : Service W) (q : ℕ)
      → HasFreshCells s
      → (perform x s).exec_cells.next ≤ q
      → load (perform x s).exec_cells q ≡ none
  unfolding perform load modify alloc
  fresh_execs-perform (outside d) s q f le = f.fresh_execs q le
  fresh_execs-perform (commits id bundle inst) s q f le =
      unfold commit stop_then in ground (arith, f.fresh_execs q)
  fresh_execs-perform (starts id) s q f le = unfold start in ground (arith, f.fresh_execs q)
  fresh_execs-perform (marks id p code now) s q f le =
      unfold mark_exited in ground (arith, f.fresh_execs q)
  fresh_execs-perform (removes id p) s q f le =
      unfold remove_task in ground (arith, f.fresh_execs q)
  fresh_execs-perform (waits id) s q f le = unfold wait in ground (arith, f.fresh_execs q)
  fresh_execs-perform shuts_down s q f le = unfold shutdown in ground (arith, f.fresh_execs q)
  fresh_execs-perform (execs r) s q f le = unfold exec in ground (arith, f.fresh_execs q)
  fresh_execs-perform (starts_exec t e) s q f le =
      unfold start_exec in ground (arith, f.fresh_execs q)
  fresh_execs-perform (takes_job rest) s q f le = f.fresh_execs q le
  fresh_execs-perform (writes path what) s q f le =
      unfold write_output in ground (arith, f.fresh_execs q)
  fresh_execs-perform (marks_exec t e p code now) s q f le =
      unfold mark_exec_exited in ground (arith, f.fresh_execs q)
  fresh_execs-perform (waits_exec t e) s q f le =
      unfold wait_exec in ground (arith, f.fresh_execs q)
  fresh_execs-perform (deletes_exec t e) s q f le =
      unfold delete_exec in ground (arith, f.fresh_execs q)
  fresh_execs-perform (publishes e) s q f le = unfold publish in ground (arith, f.fresh_execs q)

  pub perform-HasFreshCells :
      (x : Section W) (s : Service W) → HasFreshCells s → HasFreshCells (perform x s)
  perform-HasFreshCells x s f = record {
    fresh_tasks = λ q. fresh_tasks-perform x s q f;
    fresh_execs = λ q. fresh_execs-perform x s q f;
  }
