-- ===== src/CloudHypervisor/Spawn/Leftovers.antt =====
-- pkg/driver/cloudhypervisor: which VMMs run after a spawn.
use vessel.Prelude.{
  String, str_eq, ◌≡◌, refl, ap, ◌∙◌, arith, Bool, false, List, [], ◌∷◌, Bool-cases, Option-cases,
  inl, inr, eq_refl, ◌||◌,
}
use vessel.FilePath.{join}
use vessel.CloudHypervisor.Driver.{VmmHandle, Attempt, got, missed, wait_ready}
use vessel.CloudHypervisor.Spawn.{
  Yard, Spawner, without_vmm, command_line, start_vmm, await_vmm, spawn_prefixed,
}

unfoldable pub has_vmm : String → List String → Bool
has_vmm id [] = false
has_vmm id (x ∷ xs) = str_eq id x || has_vmm id xs

without_vmm-fresh :
    (id : String) (xs : List String) → has_vmm id xs ≡ false → without_vmm id xs ≡ xs
unfolding without_vmm has_vmm
without_vmm-fresh id [] h = refl
without_vmm-fresh id (x ∷ xs) h = ground (arith, h, without_vmm-fresh id xs)

without_vmm-new :
    (id : String) (xs : List String) → has_vmm id xs ≡ false → without_vmm id (id ∷ xs) ≡ xs
unfolding without_vmm
without_vmm-new id xs h = ground (arith, eq_refl id, without_vmm-fresh id xs h)

module _ {H : Type 0} where
  -- the VMMs after a spawn that began with `before`
  abbrev pub Leaves : String → List String → Yard H × Attempt VmmHandle → Type 0
  Leaves id before (y, got handle) = (handle.id ≡ id) × (y.running ≡ id ∷ before)
  Leaves id before (y, missed e) = y.running ≡ before

  await_vmm-Leaves :
      (s : Spawner H) (id dir : String) (y : Yard H) (before : List String)
      → y.running ≡ id ∷ before
      → has_vmm id before ≡ false
      → Leaves id before (await_vmm s id dir y)
  unfolding await_vmm
  await_vmm-Leaves s id dir y before here fresh =
      let waited = wait_ready s.polls (s.ping (join dir "api.sock")) y.host in
      elim (Option-cases waited.1) [
        | inl ready ↦ rw (ready, await_vmm) (refl, here)
        | inr (e, slow) ↦
            rw (slow, await_vmm)
              (ap (λ xs. without_vmm id xs) here ∙ without_vmm-new id before fresh)
      ]

  -- A spawn that fails, whether at its directory, its log, its process or the API that does not answer,
  -- leaves the VMMs running that ran before, and one that succeeds adds the VMM of its handle, in a
  -- pod's network namespace or not. The new id is not in use.
  pub spawn_prefixed-Leaves :
      (s : Spawner H) (prefix : List String) (id : String) (y : Yard H)
      → has_vmm id y.running ≡ false
      → Leaves id y.running (spawn_prefixed s prefix id y)
  unfolding spawn_prefixed start_vmm
  spawn_prefixed-Leaves s prefix id y fresh = elim (Bool-cases s.mkdir_fails) [
    | inl fails ↦ rw (fails, spawn_prefixed) refl
    | inr made ↦ elim (Bool-cases s.log_fails) [
      | inl fails ↦ rw (made, fails, spawn_prefixed, start_vmm) refl
      | inr logs ↦ elim (Bool-cases s.start_fails) [
        | inl fails ↦ rw (made, logs, fails, spawn_prefixed, start_vmm) refl
        | inr starts ↦
            let dir = join s.state_dir id in
            let started : Yard H = record y {
              running = id ∷ y.running;
              launched = command_line prefix s.binary (join dir "api.sock") ∷ y.launched;
            } in
            rw (made, logs, starts, spawn_prefixed, start_vmm)
              (await_vmm-Leaves s id dir started y.running refl fresh)
      ]
    ]
  ]
