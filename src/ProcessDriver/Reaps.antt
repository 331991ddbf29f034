-- ===== src/ProcessDriver/Reaps.antt =====
-- pkg/driver/process: its instances against the promise that the manager's `Shutdown` relies on.
use vessel.Prelude.{ℕ, String, ◌≡◌, Option, arith}
use vessel.Sandbox.{Spec, Instance, Driver}
use vessel.ProcessDriver.{World, Host, set_state, instance_at, process_driver}
use vessel.Sandbox.Manager.Reaping.{Reaps}

module _ {O : Type 0} (host : Host O) where
  -- an instance that the driver made, and the driver itself
  abbrev pub Made : Instance (World O) → Type 0
  Made i = (p : ℕ) × (id : String) × (spec : Option Spec) × (i ≡ instance_at host p id spec)

  abbrev pub Registered : Driver (World O) → Type 0
  Registered d = d ≡ process_driver host

  -- Stop of a process instance stops that instance, revives no stopped one and does not panic; the
  -- driver has no Close. So the manager's shutdown and the commands can rely on it.
  pub process_driver-Reaps : Reaps Made Registered
  unfolding instance_at process_driver set_state
  process_driver-Reaps = record {
    stops = λ i (p, id, spec, e) w. rw e (ground arith);
    keeps = λ i j (p, id, spec, e) (q, id', spec', e') w h. rw (e, e') (ground (arith, rw e' at h));
    no_panic = λ i (p, id, spec, e) w. rw e (λ c. cc c);
    close_keeps = λ d {close} j c h m w s. absurd (ground (arith, rw c at h));
  }
