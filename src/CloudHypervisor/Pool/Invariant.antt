-- ===== src/CloudHypervisor/Pool/Invariant.antt =====
-- pkg/driver/cloudhypervisor/pool.go: what holds of the VMM pool under every interleaving of its
-- goroutines.
use vessel.Prelude.{
  ℕ, zero, suc, ◌+◌, ◌≤◌, true, false, List, [], ◌∷◌, ◌++◌, ◌≡◌, refl, arith, ltb, ◌==◌,
  if◌then◌else◌, length,
}
use vessel.Prelude.Int.{ℤ, pos_part}
use vessel.CloudHypervisor.Pool.{
  Pool, Refiller, spawning, holding, System, Move, takes, spawns_alone, kicks, closes, kills,
  checks, deposits, leaves, spawns, init, step, run,
}

abbrev pub count : ℕ → List ℕ → ℕ
count h [] = 0
count h (x ∷ xs) = (if h == x then 1 else 0) + count h xs

count-append : (h : ℕ) (xs ys : List ℕ) → count h (xs ++ ys) ≡ count h xs + count h ys
count-append h [] ys = omega arith
count-append h (x ∷ xs) ys = omega (arith, count-append h xs ys)

abbrev pub held : ℕ → Refiller → ℕ
held h (holding x) = if h == x then 1 else 0
held h _ = 0

abbrev pub held_by : ℕ → List Refiller → ℕ
held_by h [] = 0
held_by h (r ∷ rs) = held h r + held_by h rs

-- how often a handle occurs among all the places where a VMM can be
abbrev pub places : ℕ → System → ℕ
places h s =
    count h s.pool.idle
    + held_by h s.refillers
    + count h s.handed
    + count h s.doomed
    + count h s.killed

-- a goroutine that is past its check will add one handle
abbrev pub Room : Refiller → Pool → Type 0
Room spawning p = suc (length p.idle) ≤ pos_part p.target
Room (holding h) p = suc (length p.idle) ≤ pos_part p.target
Room _ p = length p.idle ≤ pos_part p.target

abbrev pub Refilling : List Refiller → Pool → Type 0
Refilling [] p = (p.refilling ≡ false) × (length p.idle ≤ pos_part p.target)
Refilling (r ∷ []) p = (p.refilling ≡ true) × Room r p
Refilling (r ∷ _) p = ⊥

pub record IsSound (s : System) : Type 0 where
  pub refill : Refilling s.refillers s.pool
  pub closed_empty : s.pool.closed ≡ true → s.pool.idle ≡ []
  pub placed : (h : ℕ) → places h s ≡ (if ltb h s.next then 1 else 0)

pub init-IsSound : (target : ℤ) → IsSound (init target)
unfolding init
init-IsSound target = record {
  refill = (refl, omega arith);
  closed_empty = λ c. refl;
  placed = λ h. ground arith;
}

abbrev system : Pool → List Refiller → ℕ → List ℕ → List ℕ → List ℕ → System
system p rs next handed doomed killed = record {
  pool = p;
  refillers = rs;
  next = next;
  handed = handed;
  doomed = doomed;
  killed = killed;
}

module _ (p : Pool) (next : ℕ) (handed doomed killed : List ℕ) where
  abbrev with_refillers : List Refiller → System
  with_refillers rs = system p rs next handed doomed killed

  abbrev Refills : Move → List Refiller → Type 0
  Refills m rs = let t = step m (with_refillers rs) in Refilling t.refillers t.pool

  refill-idle : (m : Move) → IsSound (with_refillers []) → Refills m []
  unfolding step
  refill-idle takes v = ground arith
  refill-idle (spawns n true) v = ground arith
  refill-idle (spawns n false) v = ground arith
  refill-idle m v = ground arith

  refill-one : (m : Move) (r : Refiller) → IsSound (with_refillers (r ∷ [])) → Refills m (r ∷ [])
  unfolding step
  refill-one takes r v = ground arith
  refill-one spawns_alone r v = ground arith
  refill-one kicks r v = ground arith
  refill-one closes r v = ground arith
  refill-one kills r v = ground arith
  refill-one (checks zero) r v = ground arith
  refill-one (checks (suc n)) r v = ground arith
  refill-one (spawns zero b) r v = ground arith
  refill-one (spawns (suc n) b) r v = ground arith
  refill-one (deposits zero) r v = ground arith
  refill-one (deposits (suc n)) r v = ground arith
  refill-one (leaves zero) r v = ground arith
  refill-one (leaves (suc n)) r v = ground arith

  refill-step : (m : Move) (rs : List Refiller) → IsSound (with_refillers rs) → Refills m rs
  refill-step m [] v = refill-idle m v
  refill-step m (r ∷ []) v = refill-one m r v
  refill-step m (r ∷ r' ∷ rs) v = absurd v.refill

  abbrev StaysEmpty : Move → List Refiller → Type 0
  StaysEmpty m rs = let t = step m (with_refillers rs) in t.pool.closed ≡ true → t.pool.idle ≡ []

  abbrev Places : Move → List Refiller → ℕ → Type 0
  Places m rs h = let t = step m (with_refillers rs) in places h t ≡ (if ltb h t.next then 1 else 0)

  closed_empty-idle : (m : Move) → IsSound (with_refillers []) → StaysEmpty m []
  unfolding step
  closed_empty-idle takes v c = ground (arith, v.closed_empty)
  closed_empty-idle (spawns n true) v c = ground (arith, v.closed_empty)
  closed_empty-idle (spawns n false) v c = ground (arith, v.closed_empty)
  closed_empty-idle m v c = ground (arith, v.closed_empty)

  closed_empty-one :
      (m : Move) (r : Refiller) → IsSound (with_refillers (r ∷ [])) → StaysEmpty m (r ∷ [])
  unfolding step
  closed_empty-one takes r v c = ground (arith, v.closed_empty)
  closed_empty-one (checks zero) r v c = ground (arith, v.closed_empty)
  closed_empty-one (spawns zero true) r v c = ground (arith, v.closed_empty)
  closed_empty-one (spawns zero false) r v c = ground (arith, v.closed_empty)
  closed_empty-one (deposits zero) r v c = ground (arith, v.closed_empty)
  closed_empty-one (leaves zero) r v c = ground (arith, v.closed_empty)
  closed_empty-one m r v c = ground (arith, v.closed_empty)

  placed-idle : (m : Move) (h : ℕ) → IsSound (with_refillers []) → Places m [] h
  unfolding step
  placed-idle takes h v = ground (arith, v.placed h)
  placed-idle closes h v = ground (arith, v.placed h, count-append h p.idle doomed)
  placed-idle (spawns n true) h v = ground (arith, v.placed h)
  placed-idle (spawns n false) h v = ground (arith, v.placed h)
  placed-idle m h v = ground (arith, v.placed h)

  placed-one :
      (m : Move) (r : Refiller) (h : ℕ) → IsSound (with_refillers (r ∷ [])) → Places m (r ∷ []) h
  unfolding step
  placed-one takes r h v = ground (arith, v.placed h)
  placed-one closes r h v = ground (arith, v.placed h, count-append h p.idle doomed)
  placed-one (checks zero) r h v = ground (arith, v.placed h)
  placed-one (spawns zero true) r h v = ground (arith, v.placed h)
  placed-one (spawns zero false) r h v = ground (arith, v.placed h)
  placed-one (deposits zero) r h v = ground (arith, v.placed h)
  placed-one (leaves zero) r h v = ground (arith, v.placed h)
  placed-one m r h v = ground (arith, v.placed h)

  step-IsSound :
      (m : Move) (rs : List Refiller)
      → IsSound (with_refillers rs)
      → IsSound (step m (with_refillers rs))
  step-IsSound m [] v = record {
    refill = refill-step m [] v;
    closed_empty = closed_empty-idle m v;
    placed = λ h. placed-idle m h v;
  }
  step-IsSound m (r ∷ []) v = record {
    refill = refill-step m (r ∷ []) v;
    closed_empty = closed_empty-one m r v;
    placed = λ h. placed-one m r h v;
  }
  step-IsSound m (r ∷ r' ∷ rs) v = absurd v.refill

pub run-IsSound : (ms : List Move) (s : System) → IsSound s → IsSound (run ms s)
unfolding run
run-IsSound [] s v = v
run-IsSound (m ∷ ms) s v =
    run-IsSound ms (step m s)
      (step-IsSound s.pool s.next s.handed s.doomed s.killed m s.refillers v)
