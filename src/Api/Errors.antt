-- ===== src/Api/Errors.antt =====
-- The error paths of pkg/api/server.go: what a request that fails leaves behind.
use vessel.Prelude.{
  ℕ, if◌then◌else◌, String, ◌≡◌, refl, inl, inr, Option, none, some, Bool, true, false, arith,
  Option-cases, ◌||◌, ◌==◌, Bool-cases, str_eq, List,
}
use vessel.Sandbox.{RestoreOpts, Result, ok, err, panic, Instance, ExecOutput}
use vessel.Sandbox.Manager.{
  Daemon, create as manager_create, find, snapshot as manager_snapshot, fork as manager_fork,
  restore_from,
}
use vessel.Sandbox.Manager.Tracking.{Tracks, create-Tracks, restore_from-Tracks, fork-Tracks}
use vessel.Api.{
  CreateReq, RestoreReq, Request, checks_health, lists, creates, execs, deletes, snapshots, forks,
  restores, Response, answer, saved, announce, settle, healthz, list, finish_exec, exec, snapshot,
  create, fork, restore, serve,
}

-- status 200 or 204
unfoldable pub is_success : Option Response → Bool
is_success none = false
is_success (some r) = r.status == 200 || r.status == 204

unfoldable pub is_delete : Request → Bool
is_delete (deletes _) = true
is_delete _ = false

module _ {W : Type 0} where
  -- a handler's outcome that leaves the manager unless it succeeds
  abbrev Keeps : Daemon W → Daemon W × Option Response → Type 0
  Keeps s (t, r) = is_success r ≡ false → t.manager ≡ s.manager

  announce-Keeps :
      (s : Daemon W) (r : Daemon W × Result (Instance W)) → Tracks s r → Keeps s (announce r)
  unfolding announce is_success
  announce-Keeps s (t, ok i) h f = ground (arith, f)
  announce-Keeps s (t, err e) h f = h
  announce-Keeps s (t, panic) h f = h

  create-Keeps : (s : Daemon W) (req : Option CreateReq) → Keeps s (create req s)
  unfolding create
  create-Keeps s none f = refl
  create-Keeps s (some req) f =
      let driver = if str_eq req.driver "" then "process" else req.driver in
      announce-Keeps s (manager_create driver req.spec s) (create-Tracks driver req.spec s) f

  fork-Keeps : (s : Daemon W) (id : String) (req : Option String) → Keeps s (fork id req s)
  unfolding fork
  fork-Keeps s id none f = refl
  fork-Keeps s id (some path) f = elim (Bool-cases (str_eq path "")) [
    | inl e ↦ rw e refl
    | inr e ↦ rw e (announce-Keeps s (manager_fork id path s) (fork-Tracks id path s) (rw e at f))
  ]

  restore-Keeps : (s : Daemon W) (req : Option RestoreReq) → Keeps s (restore req s)
  unfolding restore
  restore-Keeps s none f = refl
  restore-Keeps s (some req) f = elim (Bool-cases (str_eq req.path "")) [
    | inl e ↦ rw e refl
    | inr e ↦
        let driver = if str_eq req.driver "" then "cloudhypervisor" else req.driver in
        let opts : RestoreOpts = record { netns = req.netns } in
        rw e (
          announce-Keeps s (restore_from driver req.path opts s)
            (restore_from-Tracks driver req.path opts s) (rw e at f))
  ]

  settle-manager :
      (good : Option Response) (bad : ℕ) (r : Daemon W × Result (Unit {0}))
      → (settle good bad r).0 ≡ r.0
  unfolding settle
  settle-manager good bad (s, ok _) = refl
  settle-manager good bad (s, err e) = refl
  settle-manager good bad (s, panic) = refl

  snapshot-manager :
      (id path : String) (s : Daemon W) → (manager_snapshot id path s).0.manager ≡ s.manager
  unfolding manager_snapshot
  snapshot-manager id path s = ground arith

  snapshot-Keeps : (s : Daemon W) (id : String) (req : Option String) → Keeps s (snapshot id req s)
  unfolding snapshot
  snapshot-Keeps s id none f = refl
  snapshot-Keeps s id (some path) f = elim (Bool-cases (str_eq path "")) [
    | inl e ↦ rw e refl
    | inr e ↦ rw e (
        rw (settle-manager (answer 200 (saved path)) 500 (manager_snapshot id path s))
          (snapshot-manager id path s))
  ]

  finish_exec-manager :
      (s : Daemon W) (r : W × Result ExecOutput) → (finish_exec s r).0.manager ≡ s.manager
  unfolding finish_exec
  finish_exec-manager s (w, ok out) = refl
  finish_exec-manager s (w, err e) = refl
  finish_exec-manager s (w, panic) = refl

  exec-Keeps : (s : Daemon W) (id : String) (req : Option (List String)) → Keeps s (exec id req s)
  unfolding exec
  exec-Keeps s id req f = elim (Option-cases (find id s)) [
    | inl n ↦ rw (n, exec) refl
    | inr (i, n) ↦ elim (Option-cases req) [
      | inl m ↦ rw (n, exec) (rw (m, exec) refl)
      | inr (cmd, m) ↦ ground (arith, n, m, finish_exec-manager s (i.exec cmd s.world))
    ]
  ]

  -- A request other than DELETE that is not answered with 200 or 204 (a body that does not decode,
  -- a field that is missing, an unknown sandbox or driver, a backend's error, a panic) leaves the
  -- drivers and the tracked sandboxes exactly as they were.
  pub serve-failure :
      (r : Request) (s : Daemon W)
      → is_delete r ≡ false
      → is_success (serve r s).1 ≡ false
      → (serve r s).0.manager ≡ s.manager
  unfolding serve
  serve-failure checks_health s d f = unfold healthz in refl
  serve-failure lists s d f = unfold list in refl
  serve-failure (creates req) s d f = create-Keeps s req f
  serve-failure (execs id req) s d f = exec-Keeps s id req f
  serve-failure (deletes id) s d f = unfold is_delete in ground (arith, d)
  serve-failure (snapshots id req) s d f = snapshot-Keeps s id req f
  serve-failure (forks id req) s d f = fork-Keeps s id req f
  serve-failure (restores req) s d f = restore-Keeps s req f
