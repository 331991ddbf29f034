-- ===== src/Prelude/Decimal.antt =====
-- strconv.Atoi and strings.TrimSpace, and their round trip with strconv.Itoa.
use Prim.Native.Nat.{ℕ, zero, suc, ◌+◌, ◌-◌, ◌*◌, ◌/◌, ◌%◌, ◌^◌, ◌<◌}
use Prim.Native.Char.{Char, code}
use Prim.Native.String.{String}
use mathlib.Core.Path.{◌≡◌, refl, ap, ◌∙◌}
use mathlib.Core.Logic.{inl, inr}
use mathlib.Core.Bool.{Bool, true, false, ◌&&◌, ◌||◌}
use mathlib.Core.Option.{Option, none, some}
use mathlib.Core.List.{List, [], ◌∷◌}
use native.Mathlib.Omega.{arith}
use vessel.Prelude.Tests.{ltb, leb, ◌==◌, if◌then◌else◌, Bool-cases}
use vessel.Prelude.Digits.{hex_digit, pick, digits, itoa, itoa_onto}
use vessel.Prelude.Int.{ℤ, pos, sub_ℕ}

unfoldable pub is_digit : Char → Bool
is_digit c = leb 48 (code c) && leb (code c) 57

-- the loop of Atoi over the digits, with the value so far
unfoldable pub digits_value : ℕ → String → Option ℕ
unfolding is_digit
digits_value n String.[] = some n
digits_value n (String.◌∷◌ c s) =
    let rest = digits_value (n * 10 + (code c - 48)) s in if is_digit c then rest else none

-- at least one digit
unsigned : String → Option ℕ
unfolding digits_value
unsigned String.[] = none
unsigned (String.◌∷◌ c s) = digits_value 0 (String.◌∷◌ c s)

-- an int has 64 bits
positive : Option ℕ → Option ℤ
positive none = none
positive (some n) = if ltb n (2 ^ 63) then some (pos n) else none

negative : Option ℕ → Option ℤ
negative none = none
negative (some n) = if leb n (2 ^ 63) then some (sub_ℕ 0 n) else none

unfoldable pub atoi : String → Option ℤ
unfolding positive negative unsigned
atoi String.[] = none
atoi (String.◌∷◌ c s) =
    if code c == 45
    then negative (unsigned s)
    else if code c == 43
    then positive (unsigned s)
    else positive (unsigned (String.◌∷◌ c s))

-- unicode.IsSpace
unfoldable pub is_space : Char → Bool
is_space c =
    let n = code c in
    (leb 9 n && leb n 13)
    || n == 32
    || n == 133
    || n == 160
    || n == 5760
    || (leb 8192 n && leb n 8202)
    || n == 8232
    || n == 8233
    || n == 8239
    || n == 8287
    || n == 12288

unfoldable pub trim_left : String → String
unfolding is_space
trim_left String.[] = ""
trim_left (String.◌∷◌ c s) = let rest = trim_left s in if is_space c then rest else String.◌∷◌ c s

-- a space goes when nothing is left after it
unfoldable pub or_blank : Char → String → String
unfolding is_space
or_blank c String.[] = if is_space c then "" else String.◌∷◌ c ""
or_blank c (String.◌∷◌ d s) = String.◌∷◌ c (String.◌∷◌ d s)

unfoldable pub trim_right : String → String
unfolding or_blank
trim_right String.[] = ""
trim_right (String.◌∷◌ c s) = or_blank c (trim_right s)

unfoldable pub trim_space : String → String
unfolding trim_left trim_right
trim_space s = trim_right (trim_left s)

-- the characters of a list are numbered from k on, for the first m of them
abbrev Run : ℕ → ℕ → List Char → Type 0
Run zero k cs = Unit
Run (suc m) k [] = ⊥
Run (suc m) k (c ∷ cs) = (code c ≡ k) × Run m (suc k) cs

pick-Run : (m k n : ℕ) (cs : List Char) → Run m k cs → n < m → code (pick cs n) ≡ n + k
unfolding pick
pick-Run zero k n cs r h = absurd (omega (arith, h))
pick-Run (suc m) k n [] r h = absurd r
pick-Run (suc m) k zero (c ∷ cs) r h = omega (arith, r.0)
pick-Run (suc m) k (suc n) (c ∷ cs) r h =
    omega (arith, pick-Run m (suc k) n cs r.1 (omega (arith, h)))

hex_digit-code : (n : ℕ) → n < 10 → code (hex_digit n) ≡ n + 48
unfolding hex_digit
hex_digit-code n h =
    pick-Run 10 48 n digits
      (refl, (refl, (refl, (refl, (refl, (refl, (refl, (refl, (refl, (refl, tt)))))))))) h

-- reading one digit
digits_value-digit :
    (m n : ℕ) (s : String)
    → n < 10
    → digits_value m (String.◌∷◌ (hex_digit n) s) ≡ digits_value (m * 10 + n) s
unfolding digits_value is_digit
digits_value-digit m n s h = ground (arith, hex_digit-code n h)

digits_value-itoa_onto :
    (fuel n : ℕ) (acc : String)
    → n < fuel
    → digits_value 0 (itoa_onto fuel n acc) ≡ digits_value n acc
unfolding itoa_onto
digits_value-itoa_onto zero n acc h = absurd (omega (arith, h))
digits_value-itoa_onto (suc fuel) n acc h =
    let last = String.◌∷◌ (hex_digit (n % 10)) acc in
    elim (Bool-cases (ltb n 10)) [
      | inl small ↦
          rw (small, itoa_onto)
            (digits_value-digit 0 (n % 10) acc (omega arith)
              ∙ ap (λ k. digits_value k acc) (ground (arith, small)))
      | inr large ↦
          rw (large, itoa_onto)
            (digits_value-itoa_onto fuel (n / 10) last (ground (arith, large, h))
              ∙ digits_value-digit (n / 10) (n % 10) acc (omega arith)
              ∙ ap (λ k. digits_value k acc) (omega arith))
    ]

itoa-value : (n : ℕ) → digits_value 0 (itoa n) ≡ some n
unfolding itoa digits_value
itoa-value n = digits_value-itoa_onto (suc n) n "" (omega arith)

abbrev IsDigits : String → Type 0
IsDigits String.[] = Unit
IsDigits (String.◌∷◌ c s) = (is_digit c ≡ true) × IsDigits s

abbrev IsDecimal : String → Type 0
IsDecimal String.[] = ⊥
IsDecimal (String.◌∷◌ c s) = (is_digit c ≡ true) × IsDigits s

IsDecimal-IsDigits : (s : String) → IsDecimal s → IsDigits s
IsDecimal-IsDigits String.[] h = tt
IsDecimal-IsDigits (String.◌∷◌ c s) h = h

digit_of : (n : ℕ) → is_digit (hex_digit (n % 10)) ≡ true
unfolding is_digit
digit_of n = ground (arith, hex_digit-code (n % 10) (omega arith))

itoa_onto-IsDecimal : (fuel n : ℕ) (acc : String) → IsDecimal acc → IsDecimal (itoa_onto fuel n acc)
unfolding itoa_onto
itoa_onto-IsDecimal zero n acc h = h
itoa_onto-IsDecimal (suc fuel) n acc h = elim (Bool-cases (ltb n 10)) [
  | inl small ↦ rw (small, itoa_onto) (digit_of n, IsDecimal-IsDigits acc h)
  | inr large ↦
      rw (large, itoa_onto)
        (itoa_onto-IsDecimal fuel (n / 10) (String.◌∷◌ (hex_digit (n % 10)) acc)
          (digit_of n, IsDecimal-IsDigits acc h))
]

itoa-IsDecimal : (n : ℕ) → IsDecimal (itoa n)
unfolding itoa itoa_onto
itoa-IsDecimal n = elim (Bool-cases (ltb n 10)) [
  | inl small ↦ rw (small, itoa, itoa_onto) (digit_of n, tt)
  | inr large ↦
      rw (large, itoa, itoa_onto)
        (itoa_onto-IsDecimal n (n / 10) (String.◌∷◌ (hex_digit (n % 10)) "") (digit_of n, tt))
]

digit-solid : (c : Char) → is_digit c ≡ true → is_space c ≡ false
unfolding is_digit is_space
digit-solid c h = ground (arith, h)

trim_right-IsDigits : (s : String) → IsDigits s → trim_right s ≡ s
unfolding trim_right or_blank
trim_right-IsDigits String.[] h = refl
trim_right-IsDigits (String.◌∷◌ c String.[]) h = rw (digit-solid c h.0) refl
trim_right-IsDigits (String.◌∷◌ c (String.◌∷◌ d s)) h =
    rw (trim_right-IsDigits (String.◌∷◌ d s) h.1) refl

trim_space-IsDecimal : (s : String) → IsDecimal s → trim_space s ≡ s
unfolding trim_space trim_left
trim_space-IsDecimal String.[] h = absurd h
trim_space-IsDecimal (String.◌∷◌ c s) h =
    rw (digit-solid c h.0) (trim_right-IsDigits (String.◌∷◌ c s) h)

atoi-IsDecimal : (s : String) → IsDecimal s → atoi s ≡ positive (digits_value 0 s)
unfolding atoi unsigned is_digit
atoi-IsDecimal String.[] h = absurd h
atoi-IsDecimal (String.◌∷◌ c s) h = ground (arith, h.0)

-- What Itoa wrote of a number below 2 ^ 63, Atoi reads back after TrimSpace.
pub atoi-itoa : (n : ℕ) → n < 2 ^ 63 → atoi (trim_space (itoa n)) ≡ some (pos n)
unfolding positive
atoi-itoa n h =
    let decimal = itoa-IsDecimal n in
    ap atoi (trim_space-IsDecimal (itoa n) decimal)
    ∙ atoi-IsDecimal (itoa n) decimal
    ∙ ap positive (itoa-value n)
    ∙ ground (arith, h)
