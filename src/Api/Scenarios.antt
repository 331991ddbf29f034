-- ===== src/Api/Scenarios.antt =====
-- The REST API over the in-memory driver, on concrete requests.
use vessel.Prelude.{◌≡◌, refl, none, some, false}
use vessel.Dict
use vessel.Sandbox.{running, unknown_sandbox, Instance}
use vessel.Sandbox.Fake.{FakeWorld, fake_instance}
use vessel.Sandbox.Scenarios.{one_sandbox}
use vessel.Sandbox.Manager.{find}
use vessel.Api.{
  CreateReq, RestoreReq, Request, creates, Item, sandbox, answer, create, fork, restore, serve,
}
use vessel.Api.Errors.{is_success, is_delete, serve-failure}

evaluated : Unit {0}
unfolding vessel.Sandbox.Manager.Listing.run find Dict.get Dict.put Dict.empty Dict.values serve
    vessel.Sandbox.Fake.fake_driver vessel.Sandbox.Fake.new_fake_driver fork create restore
    vessel.Sandbox.Manager.register_driver vessel.Sandbox.Manager.new_manager is_success is_delete
evaluated = tt

abbrev unknown_driver_request : Request
unknown_driver_request = creates (some (record { driver = "vmware"; spec = none }))

refused : is_success (serve unknown_driver_request one_sandbox).1 ≡ false
unfolding evaluated
refused = refl

creates_only : is_delete unknown_driver_request ≡ false
unfolding evaluated
creates_only = refl

serve-failure_example : (serve unknown_driver_request one_sandbox).0.manager ≡ one_sandbox.manager
serve-failure_example = serve-failure unknown_driver_request one_sandbox creates_only refused

abbrev by_fake : CreateReq
by_fake = record { driver = "fake"; spec = none }

abbrev unsaved : RestoreReq
unsaved = record { driver = "fake"; path = "/snap/b"; netns = "" }

abbrev second : Item
second = record { id = "060708090a0b"; state = running }

second_announced : (create (some by_fake) one_sandbox).1 ≡ answer 200 (sandbox second)
unfolding evaluated
second_announced = refl
