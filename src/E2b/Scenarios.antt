-- ===== src/E2b/Scenarios.antt =====
-- The E2B routes over the in-memory driver, on concrete requests.
use vessel.Prelude.{◌≡◌, refl, none, some, List, [], ◌∷◌}
use vessel.Prelude.Int.{ℤ}
use vessel.Dict
use vessel.Sandbox.{Instance}
use vessel.Sandbox.Fake.{FakeWorld, fake_driver, new_fake_driver}
use vessel.Sandbox.Scenarios.{one_sandbox, first_id, first, first_found}
use vessel.Sandbox.Manager.{find}
use vessel.E2b.{
  Template, NewSandbox, SandboxResp, Handler, answer, blank, message, sandbox, sandboxes,
  sandbox_resp, new_handler, create, list, kill,
}
use vessel.E2b.Killing.{Killed, kill-keeps}

evaluated : Unit {0}
unfolding vessel.Sandbox.Manager.Listing.run find Dict.get Dict.put Dict.remove Dict.empty
    Dict.values fake_driver new_fake_driver vessel.Sandbox.Manager.register_driver
    vessel.Sandbox.Manager.new_manager create list kill new_handler
evaluated = tt

abbrev handler : Handler FakeWorld
handler = new_handler one_sandbox "fake"

abbrev request : NewSandbox
request = record { template_id = "base"; timeout = ℤ.pos 60; env_vars = [] }

abbrev warm : Template
warm = record { driver = ""; snapshot_path = "/snap/base" }

abbrev made : SandboxResp
made = sandbox_resp "base" "060708090a0b"

abbrev all : List SandboxResp
all = made ∷ sandbox_resp "" first_id ∷ []

answered : (create (ℤ.pos 5) (some request) handler).1 ≡ answer 201 (sandbox made)
unfolding evaluated
answered = refl

all_listed : (list (create (ℤ.pos 5) (some request) handler).0).1 ≡ answer 200 (sandboxes all)
unfolding evaluated
all_listed = refl

kill-keeps_example :
    ((kill first_id handler).0.daemon.manager ≡ handler.daemon.manager)
    × (find first_id handler.daemon ≡ none
        → kill first_id handler ≡ (handler, answer 404 (message "sandbox not found")))
    × ((i : Instance FakeWorld)
        → find first_id handler.daemon ≡ some i
        → (find first_id (kill first_id handler).0.daemon ≡ some i)
          × Killed first_id handler (i.stop handler.daemon.world) (kill first_id handler))
kill-keeps_example = kill-keeps first_id handler

handler_finds : find first_id handler.daemon ≡ some first
unfolding new_handler
handler_finds = first_found

first_keyed : first.id ≡ first_id
unfolding evaluated
first_keyed = refl

stopped_well : (kill first_id handler).1 ≡ answer 204 blank
unfolding evaluated
stopped_well = refl

still_listed :
    (list (kill first_id handler).0).1 ≡ answer 200 (sandboxes (sandbox_resp "" first_id ∷ []))
unfolding evaluated
still_listed = refl
