-- ===== src/Shim/Scenarios.antt =====
-- The task service of pkg/shim over the in-memory driver, on concrete inputs.
use vessel.Prelude.{
  List, String, true, false, none, some, [], ◌∷◌, ◌≡◌, ◌≢◌, refl, arith, str_eq, has, if◌then◌else◌,
  ◌++◌,
}
use vessel.Dict
use vessel.FilePath.{join}
use vessel.Heap.{no_cells, load, alloc, modify}
use vessel.Sandbox
use vessel.Sandbox.{Instance, State}
use vessel.Sandbox.Fake.{FakeWorld, fake_driver, fake_instance, new_fake_driver}
use vessel.Sandbox.Manager.{Daemon, new_manager, register_driver}
use vessel.Sandbox.Manager
use vessel.Shim.{reply, TaskState, Event, Surroundings, Service, publish, mark_exited}
use vessel.Shim.Bundle.{bundle_annotation, bundle_netns}
use vessel.Shim.Contract.{Life, phase_at, perform_all-Life}
use vessel.Shim.Exits.{exit_at, exit_at-perform_all}
use vessel.Shim.Fresh.{HasFreshCells}
use vessel.Shim.Lifecycle.{exit_after, kill_lem, delete_lem}
use vessel.Shim.Sections.{Section, starts, marks, removes, perform_all}
use vessel.Shim.Task.{blocked, commit, create, new_task, find_task, kill, delete, wait}
use vessel.Shim.Wakeups.{wait-woken}

-- What the tests below compute with.
evaluated : Unit {0}
unfolding create commit alloc no_cells load modify find_task wait Dict.get Dict.put Dict.empty
    bundle_annotation bundle_netns join Manager.create new_manager register_driver fake_driver
    new_fake_driver publish mark_exited perform_all
evaluated = tt

abbrev no_bundle : Surroundings
no_bundle = record {
  lookup_template = λ _. none;
  annotations = λ _. none;
  namespaces = λ _. none;
  opens = λ _. true;
}

abbrev quiet : FakeWorld
quiet = record {
  random = λ n. n;
  drawn = 0;
  states = λ _. State.created;
  allocated = 0;
  snapshots = Dict.empty;
  closed = false;
}

-- a service with the in-memory driver and a publisher, before any request
abbrev fresh : Service FakeWorld
fresh = record {
  daemon =
      register_driver (fake_driver new_fake_driver)
        (record { manager = new_manager; world = quiet });
  around = no_bundle;
  default_driver = "fake";
  pid = 42;
  has_publisher = true;
  has_on_shutdown = true;
  tasks = Dict.empty;
  task_cells = no_cells;
  exec_cells = no_cells;
  jobs = [];
  next_channel = 0;
  closed = [];
  events = [];
  outputs = [];
  is_shut_down = false;
}

abbrev one_task : Service FakeWorld
one_task = (create "pod" "/run/pod" fresh).0

abbrev pod_instance : Instance FakeWorld
pod_instance = fake_instance new_fake_driver 0 "000102030405"

abbrev pod_task : TaskState FakeWorld
pod_task = new_task pod_instance "/run/pod"

one_task-found : find_task "pod" one_task ≡ some (0, pod_task)
unfolding evaluated
one_task-found = refl

stop_is_calm : (pod_task.inst.stop one_task.daemon.world).1 ≢ Sandbox.Result.panic
unfolding fake_instance
stop_is_calm c = cc c

kill_lem_example :
    ((kill "pod" 15 7 one_task).1 ≡ reply tt)
    × (exit_at 0 (kill "pod" 15 7 one_task).0 ≡ some (exit_after pod_task 143 7))
    × ((kill "pod" 15 7 one_task).0.tasks ≡ one_task.tasks)
    × ((kill "pod" 15 7 one_task).0.daemon.manager ≡ one_task.daemon.manager)
kill_lem_example = kill_lem "pod" 15 7 one_task 0 pod_task one_task-found stop_is_calm

delete_lem_example :
    ((delete "pod" 9 one_task).1 ≡ reply (exit_after pod_task 0 9))
    × (find_task "pod" (delete "pod" 9 one_task).0 ≡ none)
    × ((j : String)
        → str_eq "pod" j ≡ false
        → Dict.get (delete "pod" 9 one_task).0.tasks j ≡ Dict.get one_task.tasks j)
    × ((delete "pod" 9 one_task).0.events ≡ (
        if one_task.has_publisher
        then (one_task.events ++ Event.task_exit "pod" "pod" one_task.pid 0 (some 9) ∷ [])
          ++ Event.task_delete "pod" one_task.pid 0 (some 9) ∷ []
        else one_task.events))
    × ((delete "pod" 9 one_task).0.daemon.manager ≡ one_task.daemon.manager)
delete_lem_example = delete_lem "pod" 9 one_task 0 pod_task one_task-found stop_is_calm

one_task-publishes : one_task.has_publisher ≡ true
unfolding evaluated
one_task-publishes = refl

other_instance : Instance FakeWorld
other_instance = fake_instance new_fake_driver 1 "060708090a0b"

other_is_calm : (other_instance.stop fresh.daemon.world).1 ≢ Sandbox.Result.panic
unfolding other_instance fake_instance
other_is_calm c = cc c

nothing_yet : Dict.get fresh.tasks "pod" ≡ none
unfolding Dict.get Dict.empty
nothing_yet = refl

one_task-fresh : HasFreshCells one_task
unfolding evaluated
one_task-fresh = record { fresh_tasks = λ q le. ground arith; fresh_execs = λ q le. refl }

-- the pod is stopped by signal 9 at time 3
abbrev stopped_pod : Service FakeWorld
stopped_pod = perform_all (marks "pod" 0 137 3 ∷ []) one_task

stopped_pod-fresh : HasFreshCells stopped_pod
unfolding evaluated
stopped_pod-fresh = record { fresh_tasks = λ q le. ground arith; fresh_execs = λ q le. refl }

stopped_pod-exit : exit_at 0 stopped_pod ≡ some (record { exit_status = 137; exited_at = some 3 })
unfolding evaluated
stopped_pod-exit = refl

exit_at-perform_all_example :
    exit_at 0 (perform_all (marks "pod" 0 143 4 ∷ removes "pod" 0 ∷ []) stopped_pod)
    ≡ some (record { exit_status = 137; exited_at = some 3 })
exit_at-perform_all_example =
    exit_at-perform_all 0 (marks "pod" 0 143 4 ∷ removes "pod" 0 ∷ []) stopped_pod stopped_pod-fresh
      stopped_pod-exit

wait_blocks : (wait "pod" one_task).1 ≡ blocked 0 0
unfolding evaluated
wait_blocks = refl

abbrev waited_pod : Service FakeWorld
waited_pod = perform_all (marks "pod" 0 137 3 ∷ []) (wait "pod" one_task).0

waited_pod-exit : exit_at 0 waited_pod ≡ some (record { exit_status = 137; exited_at = some 3 })
unfolding evaluated
waited_pod-exit = refl

wait-woken_example : has 0 waited_pod.closed ≡ true
wait-woken_example =
    wait-woken "pod" one_task (marks "pod" 0 137 3 ∷ []) one_task-fresh wait_blocks waited_pod-exit

abbrev life : List (Section FakeWorld)
life = starts "pod" ∷ marks "pod" 0 137 3 ∷ starts "pod" ∷ removes "pod" 0 ∷ []

perform_all-Life_example : Life (phase_at 0 one_task) (phase_at 0 (perform_all life one_task))
perform_all-Life_example = perform_all-Life 0 life one_task one_task-fresh
