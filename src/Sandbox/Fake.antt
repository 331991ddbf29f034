-- ===== src/Sandbox/Fake.antt =====
-- pkg/sandbox/testutil.go: the in-memory driver. The mutable fields of its objects, and the random
-- source of its ids, are the world; an instance is a pointer into it.
pub mod Reaps
use vessel.Prelude.{
  ℕ, ◌+◌, String, Bool, true, false, Option, none, some, List, ◌==◌, if◌then◌else◌,
}
use vessel.Prelude.Int.{ℤ}
use vessel.Dict
use vessel.Dict.{Dict}
use vessel.Sandbox.{
  State, running, stopped, snapshotted, not_supported, Result, ok, err, Spec, RestoreOpts, Instance,
  Driver,
}
use vessel.Sandbox.Id.{new_id}

pub record FakeWorld : Type 0 where
  pub random : ℕ → ℕ
  pub drawn : ℕ
  pub states : ℕ → State
  pub allocated : ℕ
  pub snapshots : Dict String
  pub closed : Bool

-- the fields of `FakeDriver` that no method changes
pub record FakeDriver : Type 0 where
  pub driver_name : String
  pub exec_out : String
  pub exec_code : ℤ

unfoldable pub new_fake_driver : FakeDriver
new_fake_driver = record { driver_name = "fake"; exec_out = "fake-out"; exec_code = ℤ.pos 0 }

abbrev pub set_state : ℕ → State → FakeWorld → FakeWorld
set_state p st w = record w { states = λ q. if p == q then st else w.states q }

unfoldable pub fake_instance : FakeDriver → ℕ → String → Instance FakeWorld
fake_instance f p id = record {
  id = id;
  state = λ w. w.states p;
  exec = λ cmd w. (w, ok (record { code = f.exec_code; stdout = f.exec_out; stderr = "" }));
  snapshot = λ path w.
      (set_state p snapshotted (record w { snapshots = Dict.put w.snapshots path id }), ok tt);
  stop = λ w. (set_state p stopped w, ok tt);
}

-- `&FakeInstance{id: NewID(), state: StateRunning, …}`
unfoldable pub fresh : FakeDriver → FakeWorld → FakeWorld × Result (Instance FakeWorld)
unfolding fake_instance new_id
fresh f w =
    let p = w.allocated in
    (
      set_state p running (record w { drawn = w.drawn + 6; allocated = p + 1 }),
      ok (fake_instance f p (new_id w.random w.drawn)),
    )

unfoldable pub restore : FakeDriver → String → FakeWorld → FakeWorld × Result (Instance FakeWorld)
unfolding fresh
restore f path w = elim (Dict.get w.snapshots path) [
  | none ↦ (w, err not_supported)
  | some _ ↦ fresh f w
]

unfoldable pub fake_driver : FakeDriver → Driver FakeWorld
unfolding restore
fake_driver f = record {
  name = f.driver_name;
  create = λ spec w. fresh f w;
  restore = some (λ path opts w. restore f path w);
  close = some (λ w. record w { closed = true });
}
