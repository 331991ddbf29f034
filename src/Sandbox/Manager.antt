-- ===== src/Sandbox/Manager.antt =====
-- pkg/sandbox/sandbox.go, `Manager`: the live sandboxes across drivers. A daemon is the manager
-- beside the state of its backends. Each section under the lock is a function, and a method runs
-- its sections and its driver calls in the source's order.
pub mod Tracking
pub mod WellFormed
pub mod Reaping
pub mod Listing
use vessel.Prelude.{String, Option, none, some, List, [], ◌∷◌, map}
use vessel.Dict
use vessel.Dict.{Dict}
use vessel.Sandbox.{
  unknown_driver, unknown_sandbox, not_supported, Result, ok, err, panic, Spec, RestoreOpts,
  Instance, Driver,
}

pub record Entry (W : Type 0) : Type 0 where
  pub inst : Instance W
  pub driver : Driver W

pub record Manager (W : Type 0) : Type 0 where
  pub drivers : Dict (Driver W)
  pub instances : Dict (Entry W)

pub record Daemon (W : Type 0) : Type 0 where
  pub manager : Manager W
  pub open manager use *
  pub world : W

module _ {W : Type 0} where
  unfoldable pub new_manager : Manager W
  new_manager = record { drivers = Dict.empty; instances = Dict.empty }

  unfoldable pub register_driver : Driver W → Daemon W → Daemon W
  register_driver d s = record s {
    manager = record s.manager { drivers = Dict.put s.drivers d.name d };
  }

  -- m.track(inst, d)
  unfoldable pub track : Instance W → Driver W → Daemon W → Daemon W
  track inst d s = record s {
    manager = record s.manager {
      instances = Dict.put s.instances inst.id (record { inst = inst; driver = d });
    };
  }

  -- the end of `Create`, `RestoreFrom` and `Fork`: what the driver returned is tracked
  unfoldable pub adopt :
      Driver W → W × Result (Instance W) → Daemon W → Daemon W × Result (Instance W)
  unfolding track
  adopt d (w, ok inst) s = (track inst d (record s { world = w }), ok inst)
  adopt d (w, err e) s = (record s { world = w }, err e)
  adopt d (w, panic) s = (record s { world = w }, panic)

  unfoldable pub create : String → Option Spec → Daemon W → Daemon W × Result (Instance W)
  unfolding adopt
  create driver spec s = elim (Dict.get s.drivers driver) [
    | none ↦ (s, err (unknown_driver driver))
    | some d ↦ adopt d (d.create spec s.world) s
  ]

  unfoldable pub find : String → Daemon W → Option (Instance W)
  find id s = elim (Dict.get s.instances id) [ none ↦ none | some e ↦ some e.inst ]

  unfoldable pub list : Daemon W → List (Instance W)
  list s = map (λ (e : Entry W). e.inst) (Dict.values s.instances)

  -- an error is an unknown id, or what `Stop` returned once the entry was dropped
  unfoldable pub delete : String → Daemon W → Daemon W × Result (Unit {0})
  delete id s = elim (Dict.get s.instances id) [
    | none ↦ (s, err (unknown_sandbox id))
    | some e ↦
        let (w, r) = e.inst.stop s.world in
        (
          record s {
            manager = record s.manager { instances = Dict.remove s.instances id };
            world = w;
          },
          r,
        )
  ]

  unfoldable pub snapshot : String → String → Daemon W → Daemon W × Result (Unit {0})
  snapshot id path s = elim (Dict.get s.instances id) [
    | none ↦ (s, err (unknown_sandbox id))
    | some e ↦ let (w, r) = e.inst.snapshot path s.world in (record s { world = w }, r)
  ]

  -- r, ok := d.(Restorer), then r.Restore and the tracking of its result
  unfoldable pub restore_with :
      Driver W → String → RestoreOpts → Daemon W → Daemon W × Result (Instance W)
  unfolding adopt
  restore_with d path opts s = elim d.restore [
    | none ↦ (s, err not_supported)
    | some restore ↦ adopt d (restore path opts s.world) s
  ]

  unfoldable pub restore_from :
      String → String → RestoreOpts → Daemon W → Daemon W × Result (Instance W)
  unfolding restore_with
  restore_from driver path opts s = elim (Dict.get s.drivers driver) [
    | none ↦ (s, err (unknown_driver driver))
    | some d ↦ restore_with d path opts s
  ]

  -- Fork after the snapshot: the restore runs where that succeeded
  unfoldable pub fork_restore :
      Driver W
      → (String → RestoreOpts → W → W × Result (Instance W))
      → String
      → W × Result (Unit {0})
      → Daemon W
      → Daemon W × Result (Instance W)
  unfolding adopt
  fork_restore d restore dir (w, ok _) s = adopt d (restore dir (record { netns = "" }) w) s
  fork_restore d restore dir (w, err x) s = (record s { world = w }, err x)
  fork_restore d restore dir (w, panic) s = (record s { world = w }, panic)

  unfoldable pub fork : String → String → Daemon W → Daemon W × Result (Instance W)
  unfolding fork_restore
  fork id dir s = elim (Dict.get s.instances id) [
    | none ↦ (s, err (unknown_sandbox id))
    | some e ↦ elim e.driver.restore [
      | none ↦ (s, err not_supported)
      | some restore ↦ fork_restore e.driver restore dir (e.inst.snapshot dir s.world) s
    ]
  ]

  -- for _, inst := range insts { _ = inst.Stop(ctx) }: an error is dropped, a panic ends the loop
  unfoldable pub stop_all : List (Instance W) → W → W × Result (Unit {0})
  stop_all [] w = (w, ok tt)
  stop_all (i ∷ rest) w =
      let (w', r) = i.stop w in elim r [ panic ↦ (w', panic) | _ ↦ stop_all rest w' ]

  -- for _, d := range drivers, those that have a `Close`
  unfoldable pub close_all : List (Driver W) → W → W
  close_all [] w = w
  close_all (d ∷ rest) w = close_all rest (elim d.close [ none ↦ w | some close ↦ close w ])

  -- the map is emptied before anything is stopped
  unfoldable pub shutdown : Daemon W → Daemon W × Result (Unit {0})
  unfolding stop_all close_all list
  shutdown s =
      let emptied = record s { manager = record s.manager { instances = Dict.empty } } in
      let (w, r) = stop_all (list s) s.world in
      elim r [
        | panic ↦ (record emptied { world = w }, panic)
        | _ ↦ (record emptied { world = close_all (Dict.values s.drivers) w }, ok tt)
      ]
