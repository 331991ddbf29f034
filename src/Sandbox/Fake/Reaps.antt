-- ===== src/Sandbox/Fake/Reaps.antt =====
-- The in-memory driver of pkg/sandbox/testutil.go keeps the promise that `Shutdown` relies on.
use vessel.Prelude.{ℕ, String, ◌≡◌, subst, some_eq, arith}
use vessel.Sandbox.{stopped, Instance, Driver}
use vessel.Sandbox.Fake.{FakeWorld, FakeDriver, fake_instance, fake_driver}
use vessel.Sandbox.Manager.Reaping.{Reaps}

module _ (f : FakeDriver) where
  abbrev pub IsFakeInstance : Instance FakeWorld → Type 0
  IsFakeInstance i = (p : ℕ) × (id : String) × (i ≡ fake_instance f p id)

  abbrev pub IsFakeDriver : Driver FakeWorld → Type 0
  IsFakeDriver d = d ≡ fake_driver f

  -- The in-memory instances and driver keep it: `Stop` stops the instance that it is called on,
  -- changes no other, and does not panic, and `Close` changes no instance.
  pub fake-Reaps : Reaps IsFakeInstance IsFakeDriver
  unfolding fake_instance fake_driver
  fake-Reaps = record {
    stops = λ i (p, id, e) w. rw e (ground arith);
    keeps = λ i j (p, id, e) (q, id', e') w h. rw (e, e') (ground (arith, rw e' at h));
    no_panic = λ i (p, id, e) w. rw e (λ c. cc c);
    close_keeps = λ d j e c (p, id, e') w h.
        subst (λ (g : FakeWorld → FakeWorld). j.state (g w) ≡ stopped) (some_eq (rw e at c))
          (rw e' (rw e' at h));
  }
