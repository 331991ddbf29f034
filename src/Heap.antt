-- ===== src/Heap.antt =====
-- Objects that Go shares by pointer: a store of cells, with allocation and change in place. A
-- pointer is a number; a cell is never freed, as the collector keeps what a goroutine still holds.
use vessel.Prelude.{ℕ, ◌+◌, ◌≡◌, ◌≤◌, refl, Option, none, some, arith, ◌==◌, if◌then◌else◌}

pub record Heap {ℓ} (A : Type ℓ) : Type ℓ where
  pub next : ℕ
  pub cell : ℕ → Option A

module _ {ℓ} {A : Type ℓ} where
  unfoldable pub no_cells : Heap A
  no_cells = record { next = 0; cell = λ _. none }

  -- p := &A{…}; the new pointer is `h.next`
  unfoldable pub alloc : A → Heap A → Heap A
  alloc a h = record { next = h.next + 1; cell = λ q. if h.next == q then some a else h.cell q }

  -- *p, with no cell at a pointer that was never allocated
  unfoldable pub load : Heap A → ℕ → Option A
  load h p = h.cell p

  abbrev pub change : (A → A) → Option A → Option A
  change f none = none
  change f (some a) = some (f a)

  -- p.field = …
  unfoldable pub modify : ℕ → (A → A) → Heap A → Heap A
  modify p f h = record h { cell = λ q. if p == q then change f (h.cell q) else h.cell q }

  pub load-modify :
      (h : Heap A) (p q : ℕ) (f : A → A)
      → load (modify p f h) q ≡ (if p == q then change f (load h q) else load h q)
  unfolding load modify
  load-modify h p q f = refl

  pub load-alloc :
      (h : Heap A) (q : ℕ) (a : A) → load (alloc a h) q ≡ (if h.next == q then some a else load h q)
  unfolding load alloc
  load-alloc h q a = refl

pub ruleset heap_laws = (load-modify, load-alloc)

-- No pointer from `next` on has been allocated.
abbrev pub HasFreshNext : {A : Type 0} → Heap A → Type 0
HasFreshNext h = (q : ℕ) → h.next ≤ q → load h q ≡ none

module _ {A : Type 0} where
  pub alloc-HasFreshNext : (h : Heap A) (a : A) → HasFreshNext h → HasFreshNext (alloc a h)
  unfolding alloc load
  alloc-HasFreshNext h a f q le = ground (arith, f q)

  pub modify-HasFreshNext :
      (h : Heap A) (p : ℕ) (g : A → A) → HasFreshNext h → HasFreshNext (modify p g h)
  unfolding modify load
  modify-HasFreshNext h p g f q le = ground (arith, f q)

  -- allocation leaves the cells that are there alone
  pub load-alloc_old :
      (h : Heap A) (q : ℕ) (a : A) {b : A}
      → HasFreshNext h
      → load h q ≡ some b
      → load (alloc a h) q ≡ some b
  unfolding alloc load
  load-alloc_old h q a f e = ground (arith, f q, e)
