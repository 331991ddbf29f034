-- ===== src/Shim/Wakeups.antt =====
-- pkg/shim: a Wait that blocks is woken when the task or exec stops, whatever the interleaving.
use vessel.Prelude.{
  ℕ, String, Bool, true, false, not, ◌&&◌, ◌||◌, Option, none, some, List, [], ◌∷◌, ◌≡◌, arith, has,
  has-append, Option-cases, inl, inr,
}
use vessel.Heap.{load, modify, alloc}
use vessel.Shim.{publish, TaskState, Service, is_stopped, mark_exited, mark_exec_exited, stop_then}
use vessel.Shim.Task.{ExitRecord, blocked, commit, start, remove_task, wait, shutdown}
use vessel.Shim.Exec.{exec, start_exec, write_output}
use vessel.Shim.ExecQuery.{wait_exec, delete_exec}
use vessel.Shim.Exits.{exit_at}
use vessel.Shim.Fresh.{HasFreshCells, perform-HasFreshCells}
use vessel.Shim.Sections.{
  Section, outside, commits, starts, marks, removes, waits, shuts_down, execs, starts_exec,
  takes_job, writes, marks_exec, waits_exec, deletes_exec, publishes, perform, perform_all,
}

module _ {W : Type 0} where
  abbrev pub waits_in : ℕ → Option (TaskState W) → Bool
  waits_in c none = false
  waits_in c (some ts) = not (is_stopped ts.status) && has c ts.waiters

  -- The channel is closed, or it is a waiter of the task, which still runs.
  abbrev pub is_attended : ℕ → ℕ → Service W → Bool
  is_attended p c s = has c s.closed || waits_in c (load s.task_cells p)

  is_attended-perform :
      (p c : ℕ) (x : Section W) (s : Service W)
      → HasFreshCells s
      → is_attended p c s ≡ true
      → is_attended p c (perform x s) ≡ true
  unfolding perform load modify alloc
  is_attended-perform p c (outside d) s f h = h
  is_attended-perform p c (commits id bundle inst) s f h =
      unfold commit stop_then in ground (arith, f.fresh_tasks p)
  is_attended-perform p c (starts id) s f h = unfold start in ground arith
  is_attended-perform p c (marks id q code now) s f h =
      unfold mark_exited in
      elim (Option-cases (load s.task_cells q)) [
        | inl n ↦ ground (arith, n)
        | inr (ts, n) ↦ ground (arith, n, has-append c s.closed ts.waiters)
      ]
  is_attended-perform p c (removes id q) s f h = unfold remove_task in ground arith
  is_attended-perform p c (waits id) s f h =
      unfold wait in
      elim (Option-cases (load s.task_cells p)) [
        | inl n ↦ ground (arith, n)
        | inr (ts, n) ↦ ground (arith, n, has-append c ts.waiters (s.next_channel ∷ []))
      ]
  is_attended-perform p c shuts_down s f h = unfold shutdown in ground arith
  is_attended-perform p c (execs r) s f h = unfold exec in ground arith
  is_attended-perform p c (starts_exec t x) s f h = unfold start_exec in ground arith
  is_attended-perform p c (takes_job rest) s f h = h
  is_attended-perform p c (writes path what) s f h = unfold write_output in ground arith
  is_attended-perform p c (marks_exec t x q code now) s f h =
      unfold mark_exec_exited in
      elim (Option-cases (load s.exec_cells q)) [
        | inl n ↦ ground (arith, n)
        | inr (es, n) ↦ ground (arith, n, has-append c s.closed es.waiters)
      ]
  is_attended-perform p c (waits_exec t x) s f h = unfold wait_exec in ground arith
  is_attended-perform p c (deletes_exec t x) s f h = unfold delete_exec in ground arith
  is_attended-perform p c (publishes e) s f h = unfold publish in ground arith

  is_attended-perform_all :
      (p c : ℕ) (xs : List (Section W)) (s : Service W)
      → HasFreshCells s
      → is_attended p c s ≡ true
      → is_attended p c (perform_all xs s) ≡ true
  unfolding perform_all
  is_attended-perform_all p c [] s f h = h
  is_attended-perform_all p c (x ∷ xs) s f h =
      is_attended-perform_all p c xs (perform x s) (perform-HasFreshCells x s f)
        (is_attended-perform p c x s f h)

  is_attended-wait :
      (id : String) (s : Service W) {p c : ℕ}
      → (wait id s).1 ≡ blocked p c
      → is_attended p c (wait id s).0 ≡ true
  unfolding wait load modify
  is_attended-wait id s {p} {c} h = elim (Option-cases (load s.task_cells p)) [
    | inl n ↦ ground (arith, n)
    | inr (ts, n) ↦ ground (arith, n, has-append c ts.waiters (s.next_channel ∷ []))
  ]

  closed_if_stopped :
      (p c : ℕ) (s : Service W) {e : ExitRecord}
      → is_attended p c s ≡ true
      → exit_at p s ≡ some e
      → has c s.closed ≡ true
  unfolding load
  closed_if_stopped p c s h x = ground arith

  -- No wake-up is lost: if Wait blocks on channel `c` for the task at `p`, then after any later
  -- sections of any methods, in any interleaving, the task is stopped only with `c` closed.
  pub wait-woken :
      (id : String) (s : Service W) {p c : ℕ} (xs : List (Section W)) {e : ExitRecord}
      → HasFreshCells s
      → (wait id s).1 ≡ blocked p c
      → exit_at p (perform_all xs (wait id s).0) ≡ some e
      → has c (perform_all xs (wait id s).0).closed ≡ true
  wait-woken id s {p} {c} xs f h x =
      closed_if_stopped p c (perform_all xs (wait id s).0)
        (is_attended-perform_all p c xs (wait id s).0 (waited f) (is_attended-wait id s h)) x
    where
      waited : HasFreshCells s → HasFreshCells (wait id s).0
      waited g = unfold perform in perform-HasFreshCells (waits id) s g
