-- ===== src/CloudHypervisor/Pool/Wakeup.antt =====
-- pkg/driver/cloudhypervisor/pool.go: a `get` whose refill is lost.
use vessel.Prelude.{ℕ, ◌<◌, true, false, List, [], ◌∷◌, ◌≡◌, arith, length}
use vessel.Prelude.Int.{pos, pos_part}
use vessel.CloudHypervisor.Pool.{
  leaving, System, takes, kicks, checks, spawns, deposits, leaves, init, run,
}

-- Where a full pool that is open has its refill goroutine past its last check, a `get` takes an
-- idle VMM and starts no refill, since one is still marked as running: when that goroutine has
-- left, the pool is below its target and nothing refills it.
pub get-loses_refill :
    (s : System) (h : ℕ) (rest : List ℕ)
    → s.refillers ≡ leaving ∷ []
    → s.pool.refilling ≡ true
    → s.pool.idle ≡ h ∷ rest
    → length (h ∷ rest) ≡ pos_part s.pool.target
    → let t = run (takes ∷ kicks ∷ leaves 0 ∷ []) s in
      (t.handed ≡ h ∷ s.handed)
      × (length t.pool.idle < pos_part t.pool.target)
      × (t.refillers ≡ [])
      × (t.pool.refilling ≡ false)
unfolding run
get-loses_refill s h rest leaves_now marked full whole =
    (ground arith, ground arith, ground arith, ground arith)

-- such a pool is reached: one VMM was spawned, and the second check found the pool full
abbrev pub full_pool : System
full_pool = run (kicks ∷ checks 0 ∷ spawns 0 true ∷ deposits 0 ∷ checks 0 ∷ []) (init (pos 1))
