-- ===== src/Sandbox/Manager/WellFormed.antt =====
-- The well-formed managers of pkg/sandbox/sandbox.go: each method keeps them so.
use vessel.Prelude.{String, ◌≡◌, inl, inr, Option, some, arith, eq_iff, Option-cases}
use vessel.Dict
use vessel.Dict.{Dict, IsMap, get-put, get-remove, get-empty, put-IsMap, remove-IsMap, empty-IsMap}
use vessel.Sandbox.{Result, ok, err, panic, Spec, RestoreOpts, Instance, Driver}
use vessel.Sandbox.Manager.{
  Entry, Manager, Daemon, new_manager, register_driver, track, adopt, create, delete, snapshot,
  restore_with, restore_from, fork_restore, fork, shutdown,
}

-- Every sandbox is tracked under its own id, and each id has one entry.
pub record IsWellFormed {W : Type 0} (m : Manager W) : Type 0 where
  pub keyed : (k : String) (e : Entry W) → Dict.get m.instances k ≡ some e → e.inst.id ≡ k
  pub one_entry : IsMap m.instances

module _ {W : Type 0} where
  pub new_manager-IsWellFormed : IsWellFormed (new_manager {W = W})
  unfolding new_manager
  new_manager-IsWellFormed = record {
    keyed = λ k e h. cc (get-empty {V = Entry W} k, h);
    one_entry = empty-IsMap;
  }

  track-IsWellFormed :
      (inst : Instance W) (d : Driver W) (s : Daemon W)
      → IsWellFormed s.manager
      → IsWellFormed (track inst d s).manager
  unfolding track
  track-IsWellFormed inst d s h =
      let e : Entry W = record { inst = inst; driver = d } in
      record {
        keyed =
            λ k x f. ground (arith, get-put s.instances inst.id k e, eq_iff inst.id k, h.keyed k x);
        one_entry = put-IsMap s.instances inst.id e h.one_entry;
      }

  adopt-IsWellFormed :
      (d : Driver W) (r : W × Result (Instance W)) (s : Daemon W)
      → IsWellFormed s.manager
      → IsWellFormed (adopt d r s).0.manager
  unfolding adopt
  adopt-IsWellFormed d (w, ok inst) s h = track-IsWellFormed inst d (record s { world = w }) h
  adopt-IsWellFormed d (w, err e) s h = h
  adopt-IsWellFormed d (w, panic) s h = h

  pub create-IsWellFormed :
      (driver : String) (spec : Option Spec) (s : Daemon W)
      → IsWellFormed s.manager
      → IsWellFormed (create driver spec s).0.manager
  unfolding create
  create-IsWellFormed driver spec s h = elim (Option-cases (Dict.get s.drivers driver)) [
    | inl n ↦ rw (n, create) h
    | inr (d, n) ↦ rw (n, create) (adopt-IsWellFormed d (d.create spec s.world) s h)
  ]

  restore_with-IsWellFormed :
      (d : Driver W) (path : String) (opts : RestoreOpts) (s : Daemon W)
      → IsWellFormed s.manager
      → IsWellFormed (restore_with d path opts s).0.manager
  unfolding restore_with
  restore_with-IsWellFormed d path opts s h = elim (Option-cases d.restore) [
    | inl n ↦ rw (n, restore_with) h
    | inr (restore, n) ↦ rw (n, restore_with) (adopt-IsWellFormed d (restore path opts s.world) s h)
  ]

  pub restore_from-IsWellFormed :
      (driver path : String) (opts : RestoreOpts) (s : Daemon W)
      → IsWellFormed s.manager
      → IsWellFormed (restore_from driver path opts s).0.manager
  unfolding restore_from
  restore_from-IsWellFormed driver path opts s h = elim (Option-cases (Dict.get s.drivers driver)) [
    | inl n ↦ rw (n, restore_from) h
    | inr (d, n) ↦ rw (n, restore_from) (restore_with-IsWellFormed d path opts s h)
  ]

  fork_restore-IsWellFormed :
      (d : Driver W) (restore : String → RestoreOpts → W → W × Result (Instance W)) (dir : String)
      (r : W × Result (Unit {0})) (s : Daemon W)
      → IsWellFormed s.manager
      → IsWellFormed (fork_restore d restore dir r s).0.manager
  unfolding fork_restore
  fork_restore-IsWellFormed d restore dir (w, ok _) s h =
      adopt-IsWellFormed d (restore dir (record { netns = "" }) w) s h
  fork_restore-IsWellFormed d restore dir (w, err x) s h = h
  fork_restore-IsWellFormed d restore dir (w, panic) s h = h

  pub fork-IsWellFormed :
      (id dir : String) (s : Daemon W)
      → IsWellFormed s.manager
      → IsWellFormed (fork id dir s).0.manager
  unfolding fork
  fork-IsWellFormed id dir s h = elim (Option-cases (Dict.get s.instances id)) [
    | inl n ↦ rw (n, fork) h
    | inr (e, n) ↦ elim (Option-cases e.driver.restore) [
      | inl m ↦ rw (n, fork) (rw (m, fork) h)
      | inr (restore, m) ↦
          rw (n, fork)
            (rw (m, fork)
              (fork_restore-IsWellFormed e.driver restore dir (e.inst.snapshot dir s.world) s h))
    ]
  ]

  pub delete-IsWellFormed :
      (id : String) (s : Daemon W) → IsWellFormed s.manager → IsWellFormed (delete id s).0.manager
  unfolding delete
  delete-IsWellFormed id s h = elim (Option-cases (Dict.get s.instances id)) [
    | inl n ↦ rw (n, delete) h
    | inr (e, n) ↦
        rw (n, delete)
          (record {
            keyed = λ k x f. ground (arith, get-remove s.instances id k, h.keyed k x);
            one_entry = remove-IsMap s.instances id h.one_entry;
          })
  ]

  pub snapshot-IsWellFormed :
      (id path : String) (s : Daemon W)
      → IsWellFormed s.manager
      → IsWellFormed (snapshot id path s).0.manager
  unfolding snapshot
  snapshot-IsWellFormed id path s h = elim (Option-cases (Dict.get s.instances id)) [
    | inl n ↦ rw (n, snapshot) h
    | inr (e, n) ↦ rw (n, snapshot) h
  ]

  pub register_driver-IsWellFormed :
      (d : Driver W) (s : Daemon W)
      → IsWellFormed s.manager
      → IsWellFormed (register_driver d s).manager
  unfolding register_driver
  register_driver-IsWellFormed d s h = record { keyed = h.keyed; one_entry = h.one_entry }

  shutdown_case-IsWellFormed :
      (drivers : Dict (Driver W))
      → IsWellFormed (record { drivers = drivers; instances = Dict.empty })
  shutdown_case-IsWellFormed drivers = record {
    keyed = λ k e h. cc (get-empty {V = Entry W} k, h);
    one_entry = empty-IsMap;
  }

  shutdown-manager :
      (s : Daemon W)
      → (shutdown s).0.manager ≡ record { drivers = s.drivers; instances = Dict.empty }
  unfolding shutdown
  shutdown-manager s = ground arith

  pub shutdown-IsWellFormed : (s : Daemon W) → IsWellFormed (shutdown s).0.manager
  shutdown-IsWellFormed s = rw (shutdown-manager s) (shutdown_case-IsWellFormed s.drivers)
