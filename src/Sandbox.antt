-- ===== src/Sandbox.antt =====
-- pkg/sandbox/sandbox.go, the domain model: what a sandbox is, and the interfaces `Instance`,
-- `Driver` and `Restorer` that every isolation backend implements. `W` is the state of whatever a
-- backend acts on (processes, virtual machines, files); a method is a function over it.
pub mod Manager
pub mod Id
pub mod Fake
pub mod Scenarios
use vessel.Prelude.{ℕ, String, Option, List, ◌≡◌}
use vessel.Prelude.Int.{ℤ}

pub data State : Type 0 where
  created running stopped snapshotted : State

-- `error` values: those that package sandbox makes, and those of a backend, by their text.
pub data Error : Type 0 where
  unknown_driver : String → Error
  unknown_sandbox : String → Error
  not_supported : Error
  other : String → Error

-- What a call returns: a value, a non-nil error, or a panic that unwinds its goroutine.
pub data Result {ℓ} (A : Type ℓ) : Type ℓ where
  ok : A → Result A
  err : Error → Result A
  panic : Result A

pub record Spec : Type 0 where
  pub name : String
  pub rootfs : String
  pub cmd : List String
  pub env : List (String × String)
  pub vcpus : ℤ
  pub mem_mib : ℤ
  pub timeout : ℤ
  pub netns : String

pub record RestoreOpts : Type 0 where
  pub netns : String

-- What `Exec` hands back: the exit code, and what it wrote to stdout and stderr.
pub record ExecOutput : Type 0 where
  pub code : ℤ
  pub stdout : String
  pub stderr : String

pub record Instance (W : Type 0) : Type 0 where
  pub id : String
  pub state : W → State
  pub exec : List String → W → W × Result ExecOutput
  pub snapshot : String → W → W × Result (Unit {0})
  pub stop : W → W × Result (Unit {0})

-- `restore` is there when the driver implements `Restorer`, and `close` when it has a `Close`. The
-- specification is a pointer, nil for `none`.
pub record Driver (W : Type 0) : Type 0 where
  pub name : String
  pub create : Option Spec → W → W × Result (Instance W)
  pub restore : Option (String → RestoreOpts → W → W × Result (Instance W))
  pub close : Option (W → W)
