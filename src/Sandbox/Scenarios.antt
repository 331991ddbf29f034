-- ===== src/Sandbox/Scenarios.antt =====
-- The manager over the in-memory driver, on concrete inputs.
use mathlib.Core.List.{Memᴰ}
use vessel.Prelude.{String, ◌≡◌, refl, none, some, [], ◌∷◌, false, ◌↔◌}
use vessel.Dict
use vessel.Dict.{dict_laws}
use vessel.Sandbox.{State, stopped, ok, Instance, Driver}
use vessel.Sandbox.Fake.{FakeWorld, new_fake_driver, fake_driver, fake_instance}
use vessel.Sandbox.Fake.Reaps.{fake-Reaps}
use vessel.Sandbox.Manager.{
  Daemon, create, new_manager, register_driver, find, fork, shutdown, list,
}
use vessel.Sandbox.Manager.Listing.{registers, creates, start, run, list_iff_find}
use vessel.Sandbox.Manager.Reaping.{shutdown-stops}

-- What the tests below compute with.
evaluated : Unit {0}
unfolding run list find Dict.get Dict.put Dict.empty Dict.values create fork fake_driver
    register_driver new_fake_driver new_manager
evaluated = tt

abbrev pub quiet : FakeWorld
quiet = record {
  random = λ n. n;
  drawn = 0;
  states = λ _. State.created;
  allocated = 0;
  snapshots = Dict.empty;
  closed = false;
}

abbrev pub fake : Driver FakeWorld
fake = fake_driver new_fake_driver

-- one sandbox of the in-memory driver is tracked
abbrev pub one_sandbox : Daemon FakeWorld
one_sandbox = run (start quiet) (registers fake ∷ creates "fake" none ∷ [])

abbrev pub first_id : String
first_id = "000102030405"

abbrev pub first : Instance FakeWorld
first = fake_instance new_fake_driver 0 first_id

pub first_found : find first_id one_sandbox ≡ some first
unfolding evaluated
first_found = refl

-- the clone has the next id, and is tracked
fork_tracks_clone :
    find "060708090a0b" (fork first_id "/snap/b" one_sandbox).0
    ≡ some (fake_instance new_fake_driver 1 "060708090a0b")
unfolding evaluated
fork_tracks_clone = refl

list_iff_find_example : Memᴰ first (list one_sandbox) ↔ (find first_id one_sandbox ≡ some first)
unfolding fake_instance
list_iff_find_example = list_iff_find quiet (registers fake ∷ creates "fake" none ∷ []) first

pub listed : list one_sandbox ≡ first ∷ []
unfolding evaluated
listed = refl

pub registered : Dict.values one_sandbox.drivers ≡ fake ∷ []
unfolding evaluated
registered = refl

pub only_member {ℓ} : {A : Type ℓ} {a b : A} → Memᴰ a (b ∷ []) → a ≡ b
only_member (Memᴰ.head e) = e
only_member (Memᴰ.tail m) = elim m [ ]

shutdown-stops_example :
    ((shutdown one_sandbox).1 ≡ ok tt)
    × ((id : String) (i : Instance FakeWorld)
        → find id one_sandbox ≡ some i
        → i.state (shutdown one_sandbox).0.world ≡ stopped)
    × ((id : String) → find id (shutdown one_sandbox).0 ≡ none)
shutdown-stops_example =
    shutdown-stops (fake-Reaps new_fake_driver) one_sandbox
      (λ i m. (0, first_id, only_member (rw listed at m))) (λ d m. only_member (rw registered at m))
