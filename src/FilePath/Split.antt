-- ===== src/FilePath/Split.antt =====
-- path/filepath: how cutting a path at its slashes goes with joining and rendering.
use Prim.Native.Char.{Char, code}
use Prim.Native.String.append
use Prim.Native.String.{◌++◌ as append}
use vessel.Prelude.{
  String, ◌≡◌, refl, ap, ◌∙◌, Bool, true, false, List, [], ◌∷◌, ◌++◌, ◌==◌, All, Bool-cases, inl,
  inr,
}
use vessel.FilePath.{glue, split, resolve, push_part}

abbrev pub Something {ℓ} : {A : Type ℓ} → List A → Type 0
Something [] = ⊥
Something (x ∷ xs) = Unit

glue-Something : (b : Bool) (c : Char) (xs : List String) → Something (glue b c xs)
unfolding glue
glue-Something true c xs = tt
glue-Something false c [] = tt
glue-Something false c (x ∷ xs) = tt

pub split-Something : (s : String) → Something (split s)
unfolding split
split-Something String.[] = tt
split-Something (String.◌∷◌ c s) = glue-Something (code c == b'/') c (split s)

glue-append :
    (b : Bool) (c : Char) (xs ys : List String)
    → Something xs
    → glue b c (xs ++ ys) ≡ glue b c xs ++ ys
unfolding glue
glue-append true c xs ys h = refl
glue-append false c [] ys h = absurd h
glue-append false c (x ∷ xs) ys h = refl

pub slash-append : (s : String) → append "/" s ≡ String.◌∷◌ "/" s
slash-append s = append.cons "/" "" s ∙ ap (λ t. String.◌∷◌ "/" t) (append.nil s)

-- a slash between two texts cuts there
split-slash : (a b : String) → split (append a (String.◌∷◌ "/" b)) ≡ split a ++ split b
unfolding split glue
split-slash String.[] b = ap split (append.nil (String.◌∷◌ "/" b))
split-slash (String.◌∷◌ c a) b =
    ap split (append.cons c a (String.◌∷◌ "/" b))
    ∙ ap (glue (code c == b'/') c) (split-slash a b)
    ∙ glue-append (code c == b'/') c (split a) (split b) (split-Something a)

pub split-join : (a b : String) → split (append a (append "/" b)) ≡ split a ++ split b
split-join a b = ap (λ t. split (append a t)) (slash-append b) ∙ split-slash a b

-- a part has no slash
abbrev pub IsPart : String → Type 0
IsPart p = split p ≡ p ∷ []

glue-IsPart :
    (c : Char) (xs : List String)
    → Something xs
    → All IsPart xs
    → All IsPart (glue (code c == b'/') c xs)
unfolding glue split
glue-IsPart c [] s h = absurd s
glue-IsPart c (x ∷ xs) s h = elim (Bool-cases (code c == b'/')) [
  | inl slash ↦ rw slash (refl, h)
  | inr other ↦ rw other (rw (other, h.0) refl, h.1)
]

pub split-IsPart : (s : String) → All IsPart (split s)
unfolding split
split-IsPart String.[] = (refl, tt)
split-IsPart (String.◌∷◌ c s) = glue-IsPart c (split s) (split-Something s) (split-IsPart s)

pub resolve-append :
    (rooted : Bool) (stack xs ys : List String)
    → resolve rooted stack (xs ++ ys) ≡ resolve rooted (resolve rooted stack xs) ys
unfolding resolve
resolve-append rooted stack [] ys = refl
resolve-append rooted stack (x ∷ xs) ys = resolve-append rooted (push_part rooted x stack) xs ys
