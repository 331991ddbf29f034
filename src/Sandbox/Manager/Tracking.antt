-- ===== src/Sandbox/Manager/Tracking.antt =====
-- Which sandboxes the manager of pkg/sandbox/sandbox.go tracks, and what each method does to that.
use vessel.Prelude.{
  String, ◌≡◌, refl, inl, inr, Option, none, some, arith, str_eq, eq_iff, eq_refl, if◌then◌else◌,
  Option-cases,
}
use vessel.Dict
use vessel.Dict.{IsMap, dict_laws, get-put, get-remove}
use vessel.Sandbox.{unknown_sandbox, Result, ok, err, panic, Spec, RestoreOpts, Instance, Driver}
use vessel.Sandbox.Manager.{
  Entry, Daemon, adopt, create, find, delete, restore_with, restore_from, fork_restore, fork,
}

module _ {W : Type 0} where
  -- What a method that may add a sandbox does to the manager: the sandbox that it returns is
  -- tracked under its own id and nothing else changes; where it fails, the manager is as before.
  abbrev pub Tracks : Daemon W → Daemon W × Result (Instance W) → Type 0
  Tracks s (t, ok inst) =
      ((j : String) → find j t ≡ (if str_eq inst.id j then some inst else find j s))
      × (t.drivers ≡ s.drivers)
  Tracks s (t, err e) = t.manager ≡ s.manager
  Tracks s (t, panic) = t.manager ≡ s.manager

  adopt-Tracks :
      (d : Driver W) (r : W × Result (Instance W)) (s : Daemon W) → Tracks s (adopt d r s)
  unfolding adopt find
  adopt-Tracks d (w, ok inst) s = (
    λ j. ground (arith, get-put s.instances inst.id j (record { inst = inst; driver = d })),
    refl,
  )
  adopt-Tracks d (w, err e) s = refl
  adopt-Tracks d (w, panic) s = refl

  -- `Create`, for every driver, specification and driver result: a returned sandbox is tracked
  -- under its id beside the ones that were there, and a failure leaves the manager as it was.
  pub create-Tracks :
      (driver : String) (spec : Option Spec) (s : Daemon W) → Tracks s (create driver spec s)
  unfolding create
  create-Tracks driver spec s = elim (Option-cases (Dict.get s.drivers driver)) [
    | inl e ↦ rw (e, create) refl
    | inr (d, e) ↦ rw (e, create) (adopt-Tracks d (d.create spec s.world) s)
  ]

  restore_with-Tracks :
      (d : Driver W) (path : String) (opts : RestoreOpts) (s : Daemon W)
      → Tracks s (restore_with d path opts s)
  unfolding restore_with
  restore_with-Tracks d path opts s = elim (Option-cases d.restore) [
    | inl e ↦ rw (e, restore_with) refl
    | inr (restore, e) ↦ rw (e, restore_with) (adopt-Tracks d (restore path opts s.world) s)
  ]

  -- `RestoreFrom`, in the same way: an unknown driver, a driver that is no `Restorer` and a failed
  -- restore leave the manager as it was, and a restored sandbox is tracked under its id.
  pub restore_from-Tracks :
      (driver path : String) (opts : RestoreOpts) (s : Daemon W)
      → Tracks s (restore_from driver path opts s)
  unfolding restore_from
  restore_from-Tracks driver path opts s = elim (Option-cases (Dict.get s.drivers driver)) [
    | inl e ↦ rw (e, restore_from) refl
    | inr (d, e) ↦ rw (e, restore_from) (restore_with-Tracks d path opts s)
  ]

  fork_restore-Tracks :
      (d : Driver W) (restore : String → RestoreOpts → W → W × Result (Instance W)) (dir : String)
      (r : W × Result (Unit {0})) (s : Daemon W)
      → Tracks s (fork_restore d restore dir r s)
  unfolding fork_restore
  fork_restore-Tracks d restore dir (w, ok _) s =
      adopt-Tracks d (restore dir (record { netns = "" }) w) s
  fork_restore-Tracks d restore dir (w, err x) s = refl
  fork_restore-Tracks d restore dir (w, panic) s = refl

  fork_entry-Tracks :
      (e : Entry W) (id dir : String) (s : Daemon W)
      → Dict.get s.instances id ≡ some e
      → Tracks s (fork id dir s)
  unfolding fork
  fork_entry-Tracks e id dir s found = elim (Option-cases e.driver.restore) [
    | inl n ↦ rw (found, fork) (rw (n, fork) refl)
    | inr (restore, n) ↦
        rw (found, fork)
          (rw (n, fork) (fork_restore-Tracks e.driver restore dir (e.inst.snapshot dir s.world) s))
  ]

  -- `Fork`: an unknown id, a driver that cannot restore, a failed snapshot and a failed restore
  -- leave the manager as it was; otherwise the clone is tracked under its own id, and the source
  -- and all other sandboxes stay as they were tracked.
  pub fork-Tracks : (id dir : String) (s : Daemon W) → Tracks s (fork id dir s)
  unfolding fork
  fork-Tracks id dir s = elim (Option-cases (Dict.get s.instances id)) [
    | inl n ↦ rw (n, fork) refl
    | inr (e, found) ↦ fork_entry-Tracks e id dir s found
  ]

  -- Delete as a client sees it: it answers "unknown sandbox" exactly where nothing was tracked,
  -- and afterwards that id alone is untracked, whatever `Stop` returned.
  pub delete-untracks :
      (id : String) (s : Daemon W)
      → ((j : String) → find j (delete id s).0 ≡ (if str_eq id j then none else find j s))
        × (find id s ≡ none → (delete id s).1 ≡ err (unknown_sandbox id))
        × ((i : Instance W) → find id s ≡ some i → (delete id s).1 ≡ (i.stop s.world).1)
  unfolding delete find
  delete-untracks id s = (
    λ j. ground (arith, get-remove s.instances id j, eq_iff id j),
    λ n. ground arith,
    λ i f. ground arith,
  )

  -- A second Delete of the same sandbox reports that it is gone, and stops nothing.
  pub delete-delete :
      (id : String) (s : Daemon W)
      → delete id (delete id s).0 ≡ ((delete id s).0, err (unknown_sandbox id))
  unfolding delete
  delete-delete id s = ground (arith, get-remove s.instances id id, eq_refl id)
