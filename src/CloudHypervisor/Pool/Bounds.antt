-- ===== src/CloudHypervisor/Pool/Bounds.antt =====
-- pkg/driver/cloudhypervisor/pool.go: the bounds of the VMM pool, and that it loses no VMM, under
-- every interleaving.
use vessel.Prelude.{ℕ, suc, ◌≤◌, ◌<◌, true, List, [], ◌∷◌, ◌≡◌, refl, subst, ◌∙◌, arith, length}
use vessel.Prelude.Int.{ℤ, pos_part}
use vessel.CloudHypervisor.Pool.{
  Pool, Refiller, checking, spawning, leaving, holding, System, Move, takes, init, step, run,
}
use vessel.CloudHypervisor.Pool.Invariant.{Refilling, places, init-IsSound, run-IsSound}

-- how many refill goroutines there are
abbrev pub goroutines : List Refiller → ℕ
goroutines [] = 0
goroutines (r ∷ rs) = suc (goroutines rs)

bounded : (rs : List Refiller) (p : Pool) → Refilling rs p → length p.idle ≤ pos_part p.target
bounded [] p h = h.1
bounded (checking ∷ []) p h = h.1
bounded (spawning ∷ []) p h = omega arith
bounded (leaving ∷ []) p h = h.1
bounded (holding x ∷ []) p h = omega arith
bounded (r ∷ r' ∷ rs) p h = absurd h

at_most_one : (rs : List Refiller) (p : Pool) → Refilling rs p → goroutines rs ≤ 1
at_most_one [] p h = omega arith
at_most_one (r ∷ []) p h = omega arith
at_most_one (r ∷ r' ∷ rs) p h = absurd h

step-target : (m : Move) (s : System) → (step m s).pool.target ≡ s.pool.target
unfolding step
step-target takes s = ground arith
step-target _ s = ground arith

run-target : (ms : List Move) (s : System) → (run ms s).pool.target ≡ s.pool.target
unfolding run
run-target [] s = refl
run-target (m ∷ ms) s = run-target ms (step m s) ∙ step-target m s

-- Under every interleaving of `get`, `kickRefill`, refill goroutines and `close`, from a new pool:
-- it never holds more idle VMMs than its target, none at all once it is closed, and at most one
-- refill goroutine runs.
pub pool_bounded :
    (target : ℤ) (ms : List Move)
    → let s = run ms (init target) in
      (length s.pool.idle ≤ pos_part target)
      × (s.pool.closed ≡ true → s.pool.idle ≡ [])
      × (goroutines s.refillers ≤ 1)
pool_bounded target ms =
    let s = run ms (init target) in
    let v = run-IsSound ms (init target) (init-IsSound target) in
    let kept : s.pool.target ≡ target = unfold init in run-target ms (init target) in
    (
      subst (λ (t : ℤ). length s.pool.idle ≤ pos_part t) kept (bounded s.refillers s.pool v.refill),
      v.closed_empty,
      at_most_one s.refillers s.pool v.refill,
    )

-- Under every interleaving no VMM is lost and none is used twice: each one that was spawned is in
-- exactly one place, once (idle, held by the refill goroutine, handed to a caller, taken out by
-- `close`, or killed), and nothing else is in any place.
pub pool_conserves :
    (target : ℤ) (ms : List Move) (h : ℕ)
    → let s = run ms (init target) in (h < s.next → places h s ≡ 1) × (s.next ≤ h → places h s ≡ 0)
pool_conserves target ms h =
    let v = run-IsSound ms (init target) (init-IsSound target) in
    (λ lt. ground (arith, v.placed h), λ le. ground (arith, v.placed h))
