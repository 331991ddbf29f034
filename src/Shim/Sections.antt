-- ===== src/Shim/Sections.antt =====
-- pkg/shim: what other goroutines may do between two steps of a method. A section is one critical
-- section of service.go or exec.go, or one call outside the lock, as the publishing of an event is;
-- its pointers and times are arbitrary, so that any interleaving of any methods is a list of sections.
use vessel.Prelude.{ℕ, String, List, [], ◌∷◌}
use vessel.Sandbox.{Instance}
use vessel.Sandbox.Manager.{Daemon}
use vessel.Shim.{Service, Written, ExecJob, Event, publish, mark_exited, mark_exec_exited}
use vessel.Shim.Task.{commit, start, remove_task, wait, shutdown}
use vessel.Shim.Exec.{ExecRequest, exec, start_exec, write_output}
use vessel.Shim.ExecQuery.{wait_exec, delete_exec}

pub data Section (W : Type 0) : Type 0 where
  outside : Daemon W → Section W
  commits : String → String → Instance W → Section W
  starts : String → Section W
  marks : String → ℕ → ℕ → ℕ → Section W
  removes : String → ℕ → Section W
  waits : String → Section W
  shuts_down : Section W
  execs : ExecRequest → Section W
  starts_exec : String → String → Section W
  takes_job : List (ExecJob W) → Section W
  writes : String → Written → Section W
  marks_exec : String → String → ℕ → ℕ → ℕ → Section W
  waits_exec : String → String → Section W
  deletes_exec : String → String → Section W
  publishes : Event → Section W

module _ {W : Type 0} where
  -- a method up to where it unlocks: the event that it publishes after that is a section of its own
  abbrev pub unpublished : Service W → Service W → Service W
  unpublished before after = record after { events = before.events }

  unfoldable pub perform : Section W → Service W → Service W
  perform (outside d) s = record s { daemon = d }
  perform (commits id bundle inst) s = unpublished s (commit id bundle inst s).0
  perform (starts id) s = (start id s).0
  perform (marks id p code now) s = unpublished s (mark_exited id p code now s)
  perform (removes id p) s = unpublished s (remove_task id p s).0
  perform (waits id) s = (wait id s).0
  perform shuts_down s = shutdown s
  perform (execs r) s = (exec r s).0
  perform (starts_exec t e) s = (start_exec t e s).0
  perform (takes_job rest) s = record s { jobs = rest }
  perform (writes path what) s = write_output path what s
  perform (marks_exec t e q code now) s = unpublished s (mark_exec_exited t e q code now s)
  perform (waits_exec t e) s = (wait_exec t e s).0
  perform (deletes_exec t e) s = (delete_exec t e s).0
  perform (publishes e) s = publish e s

  unfoldable pub perform_all : List (Section W) → Service W → Service W
  unfolding perform
  perform_all [] s = s
  perform_all (x ∷ xs) s = perform_all xs (perform x s)
