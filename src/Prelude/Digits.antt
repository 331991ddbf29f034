-- ===== src/Prelude/Digits.antt =====
-- Numbers as text: hexadecimal digits, and strconv.Itoa on numbers that are not negative.
use Prim.Native.Nat.{ℕ, zero, suc, ◌/◌, ◌%◌}
use Prim.Native.Char.{Char}
use Prim.Native.String.{String}
use mathlib.Core.Bool.{true, false}
use mathlib.Core.List.{List, [], ◌∷◌}
use vessel.Prelude.Tests.{ltb}

abbrev pub digits : List Char
digits =
    "0" ∷ "1" ∷ "2" ∷ "3" ∷ "4" ∷ "5" ∷ "6" ∷ "7" ∷ "8" ∷ "9" ∷ "a" ∷ "b" ∷ "c" ∷ "d" ∷ "e" ∷ "f"
    ∷ []

unfoldable pub pick : List Char → ℕ → Char
pick [] n = "f"
pick (c ∷ cs) zero = c
pick (c ∷ cs) (suc n) = pick cs n

unfoldable pub hex_digit : ℕ → Char
unfolding pick
hex_digit n = pick digits n

-- the fuel is one more than the number, and each step divides it by ten
unfoldable pub itoa_onto : ℕ → ℕ → String → String
unfolding hex_digit
itoa_onto zero n acc = acc
itoa_onto (suc fuel) n acc =
    let written = String.◌∷◌ (hex_digit (n % 10)) acc in
    elim (ltb n 10) [ true ↦ written | false ↦ itoa_onto fuel (n / 10) written ]

unfoldable pub itoa : ℕ → String
unfolding itoa_onto
itoa n = itoa_onto (suc n) n ""
