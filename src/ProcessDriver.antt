-- ===== src/ProcessDriver.antt =====
-- pkg/driver/process/process_linux.go: the development driver, which runs commands in Linux
-- namespaces. The mutable fields of its instances, the source of ids and the system `O` that
-- commands act on are the world; what a command does is an argument.
pub mod Reaps
pub mod Scenarios
use Prim.Native.String.{◌++◌ as append}
use vessel.Prelude.{
  ℕ, ◌+◌, String, str_eq, Option, none, some, List, [], ◌∷◌, ◌++◌, map, ◌==◌, if◌then◌else◌,
}
use vessel.Prelude.Int.{ℤ}
use vessel.Sandbox.{
  State, running, stopped, not_supported, other, Result, ok, err, panic, Spec, ExecOutput, Instance,
  Driver,
}
use vessel.Sandbox.Id.{new_id}

pub record Command : Type 0 where
  pub argv : List String
  pub env : List String
  pub chroot : String

-- how `Run` of the command ends: with status 0, with an exec.ExitError of a code (-1 after a
-- signal), or with another error
pub data Ending : Type 0 where
  succeeded : Ending
  exited : ℤ → Ending
  failed : String → Ending

pub record Ran : Type 0 where
  pub ending : Ending
  pub stdout : String
  pub stderr : String

pub record World (O : Type 0) : Type 0 where
  pub random : ℕ → ℕ
  pub drawn : ℕ
  pub states : ℕ → State
  pub allocated : ℕ
  pub system : O

-- what the driver is built on: how a command runs, and os.Environ
pub record Host (O : Type 0) : Type 0 where
  pub run : Command → O → O × Ran
  pub environ : List String

-- envSlice, with the variables in the order in which the map is visited
unfoldable pub env_slice : List String → List (String × String) → List String
env_slice environ vars = environ ++ map (λ (k, v). append k (append "=" v)) vars

-- an exit status is no error; another error gives -1 with it
unfoldable pub outcome : Ran → Result ExecOutput
outcome r = elim r.ending [
  | succeeded ↦ ok (record { code = ℤ.pos 0; stdout = r.stdout; stderr = r.stderr })
  | exited code ↦ ok (record { code = code; stdout = r.stdout; stderr = r.stderr })
  | failed e ↦ err (other e)
]

unfoldable pub set_state : {O : Type 0} → ℕ → State → World O → World O
set_state p st w = record w { states = λ q. if p == q then st else w.states q }

module _ {O : Type 0} (host : Host O) where
  -- an empty command and a nil specification panic before anything runs
  unfoldable pub exec : Option Spec → List String → World O → World O × Result ExecOutput
  unfolding env_slice outcome
  exec none argv w = (w, panic)
  exec (some spec) [] w = (w, panic)
  exec (some spec) (name ∷ args) w =
      let command : Command = record {
        argv = name ∷ args;
        env = env_slice host.environ spec.env;
        chroot = spec.rootfs;
      } in
      let (system, ran) = host.run command w.system in (record w { system = system }, outcome ran)

  -- the instance whose state is at p
  unfoldable pub instance_at : ℕ → String → Option Spec → Instance (World O)
  unfolding exec set_state
  instance_at p id spec = record {
    id = id;
    state = λ w. w.states p;
    exec = λ argv w. exec spec argv w;
    snapshot = λ path w. (w, err not_supported);
    stop = λ w. (set_state p stopped w, ok tt);
  }

  -- &instance{id: NewID(), spec: spec, state: StateRunning}
  unfoldable pub create : Option Spec → World O → World O × Result (Instance (World O))
  unfolding instance_at new_id set_state
  create spec w =
      let p = w.allocated in
      (
        set_state p running (record w { drawn = w.drawn + 6; allocated = p + 1 }),
        ok (instance_at p (new_id w.random w.drawn) spec),
      )

  unfoldable pub process_driver : Driver (World O)
  unfolding create
  process_driver = record {
    name = "process";
    create = λ spec w. create spec w;
    restore = none;
    close = none;
  }
