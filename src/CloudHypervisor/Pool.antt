-- ===== src/CloudHypervisor/Pool.antt =====
-- pkg/driver/cloudhypervisor/pool.go, `vmmPool`: the prewarmed VMM processes. Each section under
-- the mutex is a function; a handle is a number, and `idle` is the slice with its last element
-- first. The methods run as goroutines: a system is the pool with the refill goroutines, each at
-- a point of its loop, and every handle that was ever spawned, by where it went.
pub mod Invariant
pub mod Bounds
pub mod Wakeup
mod Scenarios
use vessel.Prelude.{
  ℕ, zero, suc, ◌+◌, Bool, true, false, Option, none, some, List, [], ◌∷◌, ◌++◌, ◌||◌, not,
  if◌then◌else◌, length,
}
use vessel.Prelude.Int.{ℤ, pos, ◌-ℤ◌, leb_ℤ}

pub record Pool : Type 0 where
  pub target : ℤ
  pub idle : List ℕ
  pub refilling : Bool
  pub closed : Bool

unfoldable pub new_pool : ℤ → Pool
new_pool target = record { target = target; idle = []; refilling = false; closed = false }

-- the first section of `get`: pop the last idle handle, if there is one
unfoldable pub take_idle : Pool → Pool × Option ℕ
take_idle p = elim p.idle [ [] ↦ (p, none) | h ∷ rest ↦ (record p { idle = rest }, some h) ]

-- `kickRefill` up to its `go`: whether a refill goroutine is started
unfoldable pub kick_refill : Pool → Pool × Bool
kick_refill p =
    if leb_ℤ p.target (pos 0)
    then (p, false)
    else if p.refilling || p.closed
    then (p, false)
    else (record p { refilling = true }, true)

-- the first section of the refill loop: whether another VMM is to be spawned
unfoldable pub wants_more : Pool → Bool
wants_more p = let need = p.target -ℤ pos (length p.idle) in not (leb_ℤ need (pos 0) || p.closed)

-- the last section of the refill loop: the handle is kept, unless the pool has been closed
unfoldable pub deposit : ℕ → Pool → Pool × Bool
deposit h p = if p.closed then (p, false) else (record p { idle = h ∷ p.idle }, true)

-- the deferred section of the refill goroutine
unfoldable pub finish_refill : Pool → Pool
finish_refill p = record p { refilling = false }

-- the section of `close`, with the handles that it kills after it
unfoldable pub close_pool : Pool → Pool × List ℕ
close_pool p = (record p { closed = true; idle = [] }, p.idle)

-- Where a refill goroutine stands: before the check, spawning, holding what it spawned, or about
-- to run its deferred section.
pub data Refiller : Type 0 where
  checking spawning leaving : Refiller
  holding : ℕ → Refiller

-- `next` is the handle of the next VMM; `handed` went to callers of `get`, `doomed` are taken out
-- by `close` and not killed yet.
pub record System : Type 0 where
  pub pool : Pool
  pub refillers : List Refiller
  pub next : ℕ
  pub handed : List ℕ
  pub doomed : List ℕ
  pub killed : List ℕ

unfoldable pub init : ℤ → System
unfolding new_pool
init target = record {
  pool = new_pool target;
  refillers = [];
  next = 0;
  handed = [];
  doomed = [];
  killed = [];
}

-- One step of one goroutine; a refill goroutine is named by its position. `spawns n b` ends a
-- spawn, and `b` says whether it succeeded.
pub data Move : Type 0 where
  takes spawns_alone kicks closes kills : Move
  checks deposits leaves : ℕ → Move
  spawns : ℕ → Bool → Move

abbrev pub get_elem? : List Refiller → ℕ → Option Refiller
get_elem? [] n = none
get_elem? (r ∷ rs) zero = some r
get_elem? (r ∷ rs) (suc n) = get_elem? rs n

abbrev pub set : List Refiller → ℕ → Refiller → List Refiller
set [] n v = []
set (r ∷ rs) zero v = v ∷ rs
set (r ∷ rs) (suc n) v = r ∷ set rs n v

abbrev pub erase_idx : List Refiller → ℕ → List Refiller
erase_idx [] n = []
erase_idx (r ∷ rs) zero = rs
erase_idx (r ∷ rs) (suc n) = r ∷ erase_idx rs n

abbrev advance : ℕ → Refiller → System → System
advance n r s = record s { refillers = set s.refillers n r }

-- what a refill goroutine does next, by where it stands; other moves of it are not possible
step_check : ℕ → Option Refiller → System → System
unfolding wants_more
step_check n (some checking) s = advance n (if wants_more s.pool then spawning else leaving) s
step_check n _ s = s

step_spawn : ℕ → Bool → Option Refiller → System → System
step_spawn n true (some spawning) s = record s {
  refillers = set s.refillers n (holding s.next);
  next = s.next + 1;
}
step_spawn n false (some spawning) s = advance n leaving s
step_spawn n b _ s = s

step_deposit : ℕ → Option Refiller → System → System
unfolding deposit
step_deposit n (some (holding h)) s =
    let (p, kept) = deposit h s.pool in
    if kept
    then record s { pool = p; refillers = set s.refillers n checking }
    else record s { refillers = set s.refillers n leaving; killed = h ∷ s.killed }
step_deposit n _ s = s

step_leave : ℕ → Option Refiller → System → System
unfolding finish_refill
step_leave n (some leaving) s = record s {
  pool = finish_refill s.pool;
  refillers = erase_idx s.refillers n;
}
step_leave n _ s = s

unfoldable pub step : Move → System → System
unfolding take_idle kick_refill close_pool step_check step_spawn step_deposit step_leave
step takes s =
    let (p, h) = take_idle s.pool in
    record s { pool = p; handed = elim h [ none ↦ s.handed | some x ↦ x ∷ s.handed ] }
step spawns_alone s = record s { next = s.next + 1; handed = s.next ∷ s.handed }
step kicks s =
    let (p, started) = kick_refill s.pool in
    record s { pool = p; refillers = if started then checking ∷ s.refillers else s.refillers }
step closes s = let (p, out) = close_pool s.pool in record s { pool = p; doomed = out ++ s.doomed }
step kills s = elim s.doomed [
  | [] ↦ s
  | h ∷ rest ↦ record s { doomed = rest; killed = h ∷ s.killed }
]
step (checks n) s = step_check n (get_elem? s.refillers n) s
step (spawns n b) s = step_spawn n b (get_elem? s.refillers n) s
step (deposits n) s = step_deposit n (get_elem? s.refillers n) s
step (leaves n) s = step_leave n (get_elem? s.refillers n) s

unfoldable pub run : List Move → System → System
unfolding step
run [] s = s
run (m ∷ ms) s = run ms (step m s)
