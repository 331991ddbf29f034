-- ===== src/Shim/Contract.antt =====
-- pkg/shim: the life of a task as containerd sees it, as an automaton, and what each section of the
-- service does to the phase of one task.
use vessel.Prelude.{
  ℕ, String, Option, none, some, List, [], ◌∷◌, ◌≡◌, ◌⊎◌, inl, inr, arith, refl, subst, sym,
}
use vessel.Heap.{load, modify, alloc}
use vessel.Sandbox.{Instance}
use vessel.Shim.{
  publish, Event, Status, TaskState, Service, mark_exited, mark_exec_exited, stop_then,
}
use vessel.Shim.Task.{ExitRecord, commit, start, remove_task, wait, shutdown}
use vessel.Shim.Exec.{ExecRequest, exec, start_exec, write_output}
use vessel.Shim.ExecQuery.{wait_exec, delete_exec}
use vessel.Shim.Fresh.{HasFreshCells, perform-HasFreshCells}
use vessel.Shim.Sections.{
  Section, outside, commits, starts, marks, removes, waits, shuts_down, execs, starts_exec,
  takes_job, writes, marks_exec, waits_exec, deletes_exec, publishes, perform, perform_all,
}

-- what containerd knows of a task: not there yet, or its status, with the exit record once stopped
pub data Phase : Type 0 where
  unborn created running : Phase
  stopped : ExitRecord → Phase

-- the moves of the contract; there is none out of `stopped`, and none back
pub data Moves : Phase → Phase → Type 0 where
  stays : (a : Phase) → Moves a a
  is_born : Moves unborn created
  is_started : Moves created running
  exits_unstarted : (r : ExitRecord) → Moves created (stopped r)
  exits : (r : ExitRecord) → Moves running (stopped r)

pub data Life : Phase → Phase → Type 0 where
  rests : (a : Phase) → Life a a
  goes : {a b c : Phase} → Moves a b → Life b c → Life a c

same_phase : {a b : Phase} → b ≡ a → Moves a b
same_phase {a} e = subst (λ x. Moves a x) (sym e) (stays a)

between : {a b c d : Phase} → a ≡ c → b ≡ d → Moves c d → Moves a b
between {b = b} {c = c} e f m = subst (λ x. Moves x b) (sym e) (subst (λ y. Moves c y) (sym f) m)

abbrev phase_as : Status → ExitRecord → Phase
phase_as Status.created r = created
phase_as Status.running r = running
phase_as Status.stopped r = stopped r

module _ {W : Type 0} where
  abbrev phase_of : Option (TaskState W) → Phase
  phase_of none = unborn
  phase_of (some ts) =
      phase_as ts.status (record { exit_status = ts.exit_status; exited_at = ts.exited_at })

  -- the phase of the task at a pointer
  abbrev pub phase_at : ℕ → Service W → Phase
  phase_at p s = phase_of (load s.task_cells p)

  phase-starts :
      (p : ℕ) (id : String) (s : Service W)
      → (phase_at p (start id s).0 ≡ phase_at p s)
        ⊎ ((phase_at p s ≡ created) × (phase_at p (start id s).0 ≡ running))
  unfolding start modify load
  phase-starts p id s = ground arith

  phase-marks :
      (p : ℕ) (id : String) (q code now : ℕ) (s : Service W)
      → let r : ExitRecord = record { exit_status = code; exited_at = some now } in
        let after = phase_at p (mark_exited id q code now s) in
        (after ≡ phase_at p s)
        ⊎ ((phase_at p s ≡ created) × (after ≡ stopped r))
        ⊎ ((phase_at p s ≡ running) × (after ≡ stopped r))
  unfolding mark_exited modify load
  phase-marks p id q code now s = ground arith

  phase-commits :
      (p : ℕ) (id bundle : String) (inst : Instance W) (s : Service W)
      → HasFreshCells s
      → let after = phase_at p (commit id bundle inst s).0 in
        (after ≡ phase_at p s) ⊎ ((phase_at p s ≡ unborn) × (after ≡ created))
  unfolding commit stop_then load alloc
  phase-commits p id bundle inst s f = ground (arith, f.fresh_tasks p)

  phase-waits : (p : ℕ) (id : String) (s : Service W) → phase_at p (wait id s).0 ≡ phase_at p s
  unfolding wait modify load
  phase-waits p id s = ground arith

  phase-removes :
      (p : ℕ) (id : String) (q : ℕ) (s : Service W)
      → phase_at p (remove_task id q s).0 ≡ phase_at p s
  unfolding remove_task load
  phase-removes p id q s = ground arith

  phase-execs : (p : ℕ) (r : ExecRequest) (s : Service W) → phase_at p (exec r s).0 ≡ phase_at p s
  unfolding exec load modify
  phase-execs p r s = ground arith

  phase-starts_exec :
      (p : ℕ) (t x : String) (s : Service W) → phase_at p (start_exec t x s).0 ≡ phase_at p s
  unfolding start_exec load
  phase-starts_exec p t x s = ground arith

  phase-waits_exec :
      (p : ℕ) (t x : String) (s : Service W) → phase_at p (wait_exec t x s).0 ≡ phase_at p s
  unfolding wait_exec load
  phase-waits_exec p t x s = ground arith

  phase-deletes_exec :
      (p : ℕ) (t x : String) (s : Service W) → phase_at p (delete_exec t x s).0 ≡ phase_at p s
  unfolding delete_exec load modify
  phase-deletes_exec p t x s = ground arith

  Moves-commits :
      (p : ℕ) (id bundle : String) (inst : Instance W) (s : Service W)
      → HasFreshCells s
      → Moves (phase_at p s) (phase_at p (commit id bundle inst s).0)
  Moves-commits p id bundle inst s f = elim (phase-commits p id bundle inst s f) [
    | inl same ↦ same_phase same
    | inr (before, after) ↦ between before after is_born
  ]

  Moves-starts :
      (p : ℕ) (id : String) (s : Service W) → Moves (phase_at p s) (phase_at p (start id s).0)
  Moves-starts p id s = elim (phase-starts p id s) [
    | inl same ↦ same_phase same
    | inr (before, after) ↦ between before after is_started
  ]

  phase-publishes : (p : ℕ) (e : Event) (s : Service W) → phase_at p (publish e s) ≡ phase_at p s
  unfolding publish
  phase-publishes p e s = ground arith

  Moves-marks :
      (p : ℕ) (id : String) (q code now : ℕ) (s : Service W)
      → Moves (phase_at p s) (phase_at p (mark_exited id q code now s))
  Moves-marks p id q code now s =
      let r : ExitRecord = record { exit_status = code; exited_at = some now } in
      elim (phase-marks p id q code now s) [
        | inl same ↦ same_phase same
        | inr (inl (before, after)) ↦ between before after (exits_unstarted r)
        | inr (inr (before, after)) ↦ between before after (exits r)
      ]

  Moves-perform :
      (p : ℕ) (x : Section W) (s : Service W)
      → HasFreshCells s
      → Moves (phase_at p s) (phase_at p (perform x s))
  unfolding perform
  Moves-perform p (outside d) s f = same_phase refl
  Moves-perform p (commits id bundle inst) s f = Moves-commits p id bundle inst s f
  Moves-perform p (starts id) s f = Moves-starts p id s
  Moves-perform p (marks id q code now) s f = Moves-marks p id q code now s
  Moves-perform p (removes id q) s f = same_phase (phase-removes p id q s)
  Moves-perform p (waits id) s f = same_phase (phase-waits p id s)
  Moves-perform p shuts_down s f = same_phase (unfold shutdown in ground arith)
  Moves-perform p (execs r) s f = same_phase (phase-execs p r s)
  Moves-perform p (starts_exec t x) s f = same_phase (phase-starts_exec p t x s)
  Moves-perform p (takes_job rest) s f = same_phase refl
  Moves-perform p (writes path what) s f = same_phase (unfold write_output in ground arith)
  Moves-perform p (marks_exec t x q code now) s f =
      same_phase (unfold mark_exec_exited in ground arith)
  Moves-perform p (waits_exec t x) s f = same_phase (phase-waits_exec p t x s)
  Moves-perform p (deletes_exec t x) s f = same_phase (phase-deletes_exec p t x s)
  Moves-perform p (publishes e) s f = same_phase (phase-publishes p e s)

  -- Any interleaving of the service's sections changes the phase of a task along the contract alone:
  -- from unborn to created, from created to running, and from either of these to stopped with a
  -- record; a stopped task stays so, with its record. The condition is that no cell of the heap from
  -- the next one on is in use.
  pub perform_all-Life :
      (p : ℕ) (xs : List (Section W)) (s : Service W)
      → HasFreshCells s
      → Life (phase_at p s) (phase_at p (perform_all xs s))
  unfolding perform_all
  perform_all-Life p [] s f = rests (phase_at p s)
  perform_all-Life p (x ∷ xs) s f =
      goes (Moves-perform p x s f)
        (perform_all-Life p xs (perform x s) (perform-HasFreshCells x s f))
