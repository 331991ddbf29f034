-- ===== src/Api/Clients.antt =====
-- What a client of pkg/api/server.go may rely on: the ids it is told, and the ids it has deleted.
use vessel.Prelude.{
  ℕ, String, ◌≡◌, refl, inl, inr, Option, none, some, arith, str_eq, eq_refl, List, Bool-cases,
  if◌then◌else◌,
}
use vessel.Sandbox.{RestoreOpts, Result, ok, err, panic, Instance, unknown_sandbox}
use vessel.Sandbox.Manager.{
  Daemon, create as manager_create, find, delete as manager_delete, fork as manager_fork,
  restore_from,
}
use vessel.Sandbox.Manager.Tracking.{
  Tracks, create-Tracks, restore_from-Tracks, fork-Tracks, delete-untracks, delete-delete,
}
use vessel.Api.{
  CreateReq, RestoreReq, Response, Item, sandbox, failure, text, blank, answer, announce, settle,
  create, fork, restore, delete, exec, describe,
}

module _ {W : Type 0} where
  -- the announced sandbox is tracked under the announced id, in the announced state
  abbrev Announces : Daemon W × Option Response → Type 0
  Announces (t, r) =
      (item : Item)
      → r ≡ answer 200 (sandbox item)
      → (i : Instance W) × (find item.id t ≡ some i) × (i.state t.world ≡ item.state)

  announce-Announces :
      (s : Daemon W) (r : Daemon W × Result (Instance W)) → Tracks s r → Announces (announce r)
  unfolding announce describe
  announce-Announces s (t, ok i) h item e =
      (i, ground (arith, e, h.0 item.id, eq_refl i.id), ground (arith, e))
  announce-Announces s (t, err x) h item e = ground (arith, e)
  announce-Announces s (t, panic) h item e = ground (arith, e)

  create-Announces : (s : Daemon W) (req : Option CreateReq) → Announces (create req s)
  unfolding create
  create-Announces s none item e = ground (arith, e)
  create-Announces s (some req) item e =
      let driver = if str_eq req.driver "" then "process" else req.driver in
      announce-Announces s (manager_create driver req.spec s) (create-Tracks driver req.spec s) item
        e

  fork-Announces : (s : Daemon W) (id : String) (req : Option String) → Announces (fork id req s)
  unfolding fork
  fork-Announces s id none item e = ground (arith, e)
  fork-Announces s id (some path) item e = elim (Bool-cases (str_eq path "")) [
    | inl p ↦ absurd (ground (arith, e, p))
    | inr p ↦
        rw p
          (announce-Announces s (manager_fork id path s) (fork-Tracks id path s) item (rw p at e))
  ]

  restore-Announces : (s : Daemon W) (req : Option RestoreReq) → Announces (restore req s)
  unfolding restore
  restore-Announces s none item e = ground (arith, e)
  restore-Announces s (some req) item e = elim (Bool-cases (str_eq req.path "")) [
    | inl p ↦ absurd (ground (arith, e, p))
    | inr p ↦
        let driver = if str_eq req.driver "" then "cloudhypervisor" else req.driver in
        let opts : RestoreOpts = record { netns = req.netns } in
        rw p (
          announce-Announces s (restore_from driver req.path opts s)
            (restore_from-Tracks driver req.path opts s) item (rw p at e))
  ]

  -- Where POST /v1/sandboxes, a fork or a restore answers 200 with a sandbox, the manager finds a
  -- sandbox under the id that the client was told, in the state that it was told.
  pub serve-announces :
      (s : Daemon W) (item : Item) (body : Option CreateReq) (id : String) (path : Option String)
      (source : Option RestoreReq)
      → ((create body s).1 ≡ answer 200 (sandbox item)
          → (i : Instance W) × (find item.id (create body s).0 ≡ some i)
            × (i.state (create body s).0.world ≡ item.state))
        × ((fork id path s).1 ≡ answer 200 (sandbox item)
            → (i : Instance W) × (find item.id (fork id path s).0 ≡ some i)
              × (i.state (fork id path s).0.world ≡ item.state))
        × ((restore source s).1 ≡ answer 200 (sandbox item)
            → (i : Instance W) × (find item.id (restore source s).0 ≡ some i)
              × (i.state (restore source s).0.world ≡ item.state))
  serve-announces s item body id path source =
      (create-Announces s body item, fork-Announces s id path item, restore-Announces s source item)

  settle-daemon :
      (good : Option Response) (bad : ℕ) (r : Daemon W × Result (Unit {0}))
      → (settle good bad r).0 ≡ r.0
  unfolding settle
  settle-daemon good bad (s, ok _) = refl
  settle-daemon good bad (s, err e) = refl
  settle-daemon good bad (s, panic) = refl

  exec-missing :
      (id : String) (req : Option (List String)) (s : Daemon W)
      → find id s ≡ none
      → exec id req s ≡ (s, answer 404 (text "sandbox not found"))
  unfolding exec
  exec-missing id req s n = rw (n, exec) refl

  -- After DELETE of an id, whatever it answered, the id is gone: exec and a second DELETE of it
  -- answer 404 and change nothing, and every other sandbox is found as before.
  pub delete-gone :
      (id other : String) (req : Option (List String)) (s : Daemon W)
      → let t = (delete id s).0 in
        (exec id req t ≡ (t, answer 404 (text "sandbox not found")))
        × (delete id t ≡ (t, answer 404 (failure (unknown_sandbox id))))
        × (find other t ≡ (if str_eq id other then none else find other s))
  unfolding delete
  delete-gone id other req s =
      let after = settle-daemon (answer 204 blank) 404 (manager_delete id s) in
      let gone = (delete-untracks id s).0 in
      (
        rw after
            (exec-missing id req (manager_delete id s).0 (ground (arith, gone id, eq_refl id))),
        rw after (unfold settle in rw (delete-delete id s) refl),
        rw after (gone other),
      )
