-- ===== src/Sandbox/Manager/Listing.antt =====
-- The manager of pkg/sandbox/sandbox.go over any history of calls: `List` agrees with `Get`.
use mathlib.Core.List.{Memᴰ}
use vessel.Prelude.{
  String, ◌≡◌, refl, subst, ◌↔◌, Option, some, List, [], ◌∷◌, map, arith, Option-cases, inl, inr,
  mem-map,
}
use vessel.Dict
use vessel.Dict.{Dict, IsMap, get-values, values-get}
use vessel.Sandbox.{Spec, RestoreOpts, Instance, Driver}
use vessel.Sandbox.Manager.{
  Entry, Daemon, new_manager, register_driver, create, find, list, delete, snapshot, restore_from,
  fork, shutdown,
}
use vessel.Sandbox.Manager.WellFormed.{
  IsWellFormed, new_manager-IsWellFormed, create-IsWellFormed, restore_from-IsWellFormed,
  fork-IsWellFormed, delete-IsWellFormed, snapshot-IsWellFormed, register_driver-IsWellFormed,
  shutdown-IsWellFormed,
}

-- The methods of the manager that change it, with their arguments.
pub data Call (W : Type 0) : Type 0 where
  registers : Driver W → Call W
  creates : String → Option Spec → Call W
  deletes : String → Call W
  snapshots : String → String → Call W
  restores : String → String → RestoreOpts → Call W
  forks : String → String → Call W
  shuts_down : Call W

module _ {W : Type 0} where
  -- the daemon after a call
  unfoldable pub step : Daemon W → Call W → Daemon W
  step s (registers d) = register_driver d s
  step s (creates driver spec) = (create driver spec s).0
  step s (deletes id) = (delete id s).0
  step s (snapshots id path) = (snapshot id path s).0
  step s (restores driver path opts) = (restore_from driver path opts s).0
  step s (forks id dir) = (fork id dir s).0
  step s shuts_down = (shutdown s).0

  unfoldable pub run : Daemon W → List (Call W) → Daemon W
  unfolding step
  run s [] = s
  run s (c ∷ cs) = run (step s c) cs

  abbrev pub start : W → Daemon W
  start w = record { manager = new_manager; world = w }

  step-IsWellFormed :
      (s : Daemon W) (c : Call W) → IsWellFormed s.manager → IsWellFormed (step s c).manager
  unfolding step
  step-IsWellFormed s (registers d) h = register_driver-IsWellFormed d s h
  step-IsWellFormed s (creates driver spec) h = create-IsWellFormed driver spec s h
  step-IsWellFormed s (deletes id) h = delete-IsWellFormed id s h
  step-IsWellFormed s (snapshots id path) h = snapshot-IsWellFormed id path s h
  step-IsWellFormed s (restores driver path opts) h = restore_from-IsWellFormed driver path opts s h
  step-IsWellFormed s (forks id dir) h = fork-IsWellFormed id dir s h
  step-IsWellFormed s shuts_down h = shutdown-IsWellFormed s

  run-IsWellFormed :
      (s : Daemon W) (cs : List (Call W)) → IsWellFormed s.manager → IsWellFormed (run s cs).manager
  unfolding run
  run-IsWellFormed s [] h = h
  run-IsWellFormed s (c ∷ cs) h = run-IsWellFormed (step s c) cs (step-IsWellFormed s c h)

  insts : List (Entry W) → List (Instance W)
  insts = map (λ e. e.inst)

  mem-insts :
      {i : Instance W} (l : List (Entry W))
      → Memᴰ i (insts l)
      → (e : Entry W) × Memᴰ e l × (i ≡ e.inst)
  unfolding insts
  mem-insts [] m = elim m [ ]
  mem-insts (e ∷ l) (Memᴰ.head p) = (e, Memᴰ.head refl, p)
  mem-insts (e ∷ l) (Memᴰ.tail m) = let (x, n, p) = mem-insts l m in (x, Memᴰ.tail n, p)

  -- what is found is listed
  pub list_of_find :
      (id : String) (s : Daemon W) {i : Instance W} → find id s ≡ some i → Memᴰ i (list s)
  unfolding list find
  list_of_find id s {i} h = elim (Option-cases (Dict.get s.instances id)) [
    | inl n ↦ absurd (ground (arith, n, h))
    | inr (e, n) ↦
        let p : e.inst ≡ i = ground (arith, n, h) in
        subst (λ x. Memᴰ x (list s)) p
          (mem-map (λ (x : Entry W). x.inst) (get-values s.instances id n))
  ]

  pub find_of_list :
      (s : Daemon W) {i : Instance W}
      → IsWellFormed s.manager
      → Memᴰ i (list s)
      → find i.id s ≡ some i
  unfolding list find insts
  find_of_list s {i} h m =
      let (e, n, p) = mem-insts (Dict.values s.instances) m in
      let (k, f) = values-get s.instances h.one_entry n in ground (arith, h.keyed k e f)

  -- After any history of calls on a new manager, whatever its drivers do, `List` holds a sandbox
  -- exactly when `Get` of the sandbox's own id returns that sandbox.
  pub list_iff_find :
      (w : W) (cs : List (Call W)) (i : Instance W)
      → Memᴰ i (list (run (start w) cs)) ↔ (find i.id (run (start w) cs) ≡ some i)
  list_iff_find w cs i =
      let t = run (start w) cs in
      (find_of_list t (run-IsWellFormed (start w) cs new_manager-IsWellFormed), list_of_find i.id t)
