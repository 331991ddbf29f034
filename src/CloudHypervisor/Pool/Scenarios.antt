-- ===== src/CloudHypervisor/Pool/Scenarios.antt =====
-- The VMM pool of pkg/driver/cloudhypervisor/pool.go on concrete interleavings.
use vessel.Prelude.{◌≤◌, ◌<◌, true, false, List, [], ◌∷◌, ◌≡◌, refl, length}
use vessel.Prelude.Int.{pos, pos_part}
use vessel.CloudHypervisor.Pool.{
  Move, takes, kicks, closes, checks, spawns, deposits, leaves, init, run,
}
use vessel.CloudHypervisor.Pool.Bounds.{goroutines, pool_bounded, pool_conserves}
use vessel.CloudHypervisor.Pool.Invariant.{places}
use vessel.CloudHypervisor.Pool.Wakeup.{full_pool, get-loses_refill}

-- a refill is closed under while it holds a VMM
abbrev closed_under : List Move
closed_under = kicks ∷ checks 0 ∷ spawns 0 true ∷ closes ∷ deposits 0 ∷ leaves 0 ∷ []

pool_bounded_example :
    let s = run closed_under (init (pos 2)) in
    (length s.pool.idle ≤ 2)
    × (s.pool.closed ≡ true → s.pool.idle ≡ [])
    × (goroutines s.refillers ≤ 1)
pool_bounded_example = pool_bounded (pos 2) closed_under

pool_conserves_example :
    let s = run closed_under (init (pos 2)) in
    (0 < s.next → places 0 s ≡ 1) × (s.next ≤ 0 → places 0 s ≡ 0)
pool_conserves_example = pool_conserves (pos 2) closed_under 0

-- the VMM that the refill held is killed
closed_under_kills : (run closed_under (init (pos 2))).killed ≡ 0 ∷ []
unfolding run init
closed_under_kills = refl

get-loses_refill_example :
    let t = run (takes ∷ kicks ∷ leaves 0 ∷ []) full_pool in
    (t.handed ≡ 0 ∷ full_pool.handed)
    × (length t.pool.idle < pos_part t.pool.target)
    × (t.refillers ≡ [])
    × (t.pool.refilling ≡ false)
unfolding run init
get-loses_refill_example = get-loses_refill full_pool 0 [] refl refl refl refl
