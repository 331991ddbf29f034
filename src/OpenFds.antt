-- ===== src/OpenFds.antt =====
-- The descriptors that a process has open, as the system calls of pkg/vsock and pkg/vmnet use them.
use vessel.Prelude.{ℕ, ◌≡◌, refl, List, [], ◌∷◌, ◌==◌, if◌then◌else◌, has, false, arith}

unfoldable pub close : ℕ → List ℕ → List ℕ
close fd [] = []
close fd (x ∷ xs) = let rest = close fd xs in if fd == x then rest else x ∷ rest

close-other : (fd : ℕ) (xs : List ℕ) → has fd xs ≡ false → close fd xs ≡ xs
unfolding close
close-other fd [] h = refl
close-other fd (x ∷ xs) h = ground (arith, h, close-other fd xs)

pub close-new : (fd : ℕ) (xs : List ℕ) → has fd xs ≡ false → close fd (fd ∷ xs) ≡ xs
unfolding close
close-new fd xs h = ground (arith, close-other fd xs h)

pub close-second :
    (fd x : ℕ) (xs : List ℕ)
    → has fd xs ≡ false
    → has x (fd ∷ xs) ≡ false
    → close fd (x ∷ fd ∷ xs) ≡ x ∷ xs
unfolding close
close-second fd x xs h new = ground (arith, h, new, close-other fd xs h)
