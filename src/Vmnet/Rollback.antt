-- ===== src/Vmnet/Rollback.antt =====
-- What SetupTap of pkg/vmnet/vmnet.go leaves behind when a step fails, and when none does.
use vessel.Prelude.{
  String, ◌≡◌, refl, ap, subst, inl, inr, ◌⊎◌, ◌↔◌, arith, Bool, false, none, some, List, [], ◌∷◌,
}
use vessel.Vmnet.{
  Output, printed, failed, Namespace, delete_link, tap_steps, teardown_tap, take_steps, setup_tap,
}

pub Output-cases :
    (out : Output) → ((text : String) × (out ≡ printed text)) ⊎ ((e : String) × (out ≡ failed e))
Output-cases (printed text) = inl (text, refl)
Output-cases (failed e) = inr (e, refl)

module _ {N : Type 0} (ns : Namespace N) where
  -- the steps run in order, each without an error
  pub data AllPrinted : List (List String) → N → N → Type 0 where
    finished : {n : N} → AllPrinted [] n n
    ran :
        {step : List String} {steps : List (List String)} {n n' : N} {text : String}
        → (ns.run step n).1 ≡ printed text
        → AllPrinted steps (ns.run step n).0 n'
        → AllPrinted (step ∷ steps) n n'

  teardown_tap-deletes :
      (tap : String) (n : N) → (teardown_tap ns tap n).0 ≡ (ns.run (delete_link tap) n).0
  unfolding teardown_tap
  teardown_tap-deletes tap n = ground arith

  take_steps-gone :
      (present : String → N → Bool) (tap : String)
      → ((n : N) → present tap (ns.run (delete_link tap) n).0 ≡ false)
      → (steps : List (List String)) (n : N) (e : String) → (take_steps ns tap steps n).1 ≡ some e
      → present tap (take_steps ns tap steps n).0 ≡ false
  unfolding take_steps
  take_steps-gone present tap gone [] n e x = absurd (ground (arith, x))
  take_steps-gone present tap gone (step ∷ steps) n e x = elim (Output-cases (ns.run step n).1) [
    | inl (text, o) ↦
        rw (o, take_steps)
          (take_steps-gone present tap gone steps (ns.run step n).0 e (rw (o, take_steps) at x))
    | inr (why, o) ↦
        rw (o, take_steps)
          (rw (teardown_tap-deletes tap (ns.run step n).0) (gone (ns.run step n).0))
  ]

  take_steps-AllPrinted :
      (tap : String) (steps : List (List String)) (n n' : N)
      → take_steps ns tap steps n ≡ (n', none)
      → AllPrinted steps n n'
  unfolding take_steps
  take_steps-AllPrinted tap [] n n' x = subst (λ m. AllPrinted [] n m) (ap (λ r. r.0) x) finished
  take_steps-AllPrinted tap (step ∷ steps) n n' x = elim (Output-cases (ns.run step n).1) [
    | inl (text, o) ↦
        ran o (take_steps-AllPrinted tap steps (ns.run step n).0 n' (rw (o, take_steps) at x))
    | inr (why, o) ↦ absurd (ground (arith, rw (o, take_steps) at x))
  ]

  AllPrinted-take_steps :
      (tap : String) {steps : List (List String)} {n n' : N}
      → AllPrinted steps n n'
      → take_steps ns tap steps n ≡ (n', none)
  unfolding take_steps
  AllPrinted-take_steps tap finished = refl
  AllPrinted-take_steps tap (ran o rest) = rw (o, take_steps) (AllPrinted-take_steps tap rest)

  -- SetupTap succeeds exactly when its six commands ran in order without an error; and where a
  -- device is gone once `ip link del` of it has run, a SetupTap that fails leaves no TAP of that
  -- name, not even one that was there before it.
  pub setup_tap-rolls_back :
      (present : String → N → Bool) (src tap : String)
      → ((n : N) → present tap (ns.run (delete_link tap) n).0 ≡ false)
      → (n n' : N) (e : String)
      → ((setup_tap ns src tap n ≡ (n', none)) ↔ AllPrinted (tap_steps src tap) n n')
        × ((setup_tap ns src tap n).1 ≡ some e → present tap (setup_tap ns src tap n).0 ≡ false)
  unfolding setup_tap
  setup_tap-rolls_back present src tap gone n n' e = (
    (take_steps-AllPrinted tap (tap_steps src tap) n n', AllPrinted-take_steps tap),
    take_steps-gone present tap gone (tap_steps src tap) n e,
  )
