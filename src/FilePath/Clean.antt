-- ===== src/FilePath/Clean.antt =====
-- path/filepath: the part ".." in cleaned paths, and paths that are joined to a directory.
use Prim.Native.String.append
use Prim.Native.String.{◌++◌ as append}
use text.Mathlib.Text.{starts_with}
use text.Mathlib.TextBridge.{IsPrefix}
use text.Mathlib.TextPositions.{starts_with_of_prefix}
use vessel.Prelude.{
  String, ◌≡◌, ◌≢◌, refl, ap, ◌∙◌, Bool, true, false, not, ◌&&◌, ◌||◌, List, [], ◌∷◌, ◌++◌, arith,
  str_eq, eq_iff, All, ◌⊎◌, inl, inr, if◌then◌else◌, Bool-cases, str_eq-ne,
}
use vessel.FilePath.{
  split, is_rooted, push_part, resolve, glue, path_of, render, clean_parts, clean, join,
}
use vessel.FilePath.Split.{IsPart, split-IsPart, split-join, resolve-append, slash-append}

-- not ".."
abbrev pub Safe : String → Type 0
Safe p = str_eq p ".." ≡ false

abbrev IsDots : List String → Type 0
IsDots stack = All (λ p. p ≡ "..") stack

-- what `Clean` keeps on its stack: parts, of which ".." stands only on other ".." and never in a
-- path from the root
abbrev Good : Bool → List String → Type 0
Good rooted [] = Unit
Good rooted (p ∷ rest) =
    IsPart p × (Safe p ⊎ ((rooted ≡ false) × (p ≡ "..") × IsDots rest)) × Good rooted rest

Good-IsDots :
    (rooted : Bool) (top : String) (rest : List String)
    → Good rooted (top ∷ rest)
    → str_eq top ".." ≡ true
    → (rooted ≡ false) × IsDots (top ∷ rest)
Good-IsDots rooted top rest (part, inl safe, below) h = absurd (ground (arith, safe, h))
Good-IsDots rooted top rest (part, inr (free, same, dots), below) h = (free, (same, dots))

push_part-Good :
    (rooted : Bool) (p : String) (stack : List String)
    → IsPart p
    → Good rooted stack
    → Good rooted (push_part rooted p stack)
unfolding push_part
push_part-Good rooted p [] part g =
    elim (Bool-cases (str_eq p "" || str_eq p "." || rooted && str_eq p "..")) [
      | inl dropped ↦ rw dropped tt
      | inr kept ↦ rw kept (elim (Bool-cases (str_eq p "..")) [
        | inl dots ↦
            (part, inr (ground (arith, kept, dots), ground (arith, eq_iff p "..", dots), tt), tt)
        | inr safe ↦ (part, inl safe, tt)
      ])
    ]
push_part-Good rooted p (top ∷ rest) part g = elim (Bool-cases (str_eq p "" || str_eq p ".")) [
  | inl dropped ↦ rw dropped g
  | inr kept ↦ rw kept (elim (Bool-cases (str_eq p ".." && not (str_eq top ".."))) [
    | inl undone ↦ rw undone g.2
    | inr pushed ↦ rw pushed (elim (Bool-cases (str_eq p "..")) [
      | inl dots ↦
          let (free, below) = Good-IsDots rooted top rest g (ground (arith, pushed, dots)) in
          (part, inr (free, ground (arith, eq_iff p "..", dots), below), g)
      | inr safe ↦ (part, inl safe, g)
    ])
  ])
]

resolve-Good :
    (rooted : Bool) (stack parts : List String)
    → All IsPart parts
    → Good rooted stack
    → Good rooted (resolve rooted stack parts)
unfolding resolve
resolve-Good rooted stack [] a g = g
resolve-Good rooted stack (p ∷ parts) a g =
    resolve-Good rooted (push_part rooted p stack) parts a.1 (push_part-Good rooted p stack a.0 g)

-- a stack of ".." renders as a text that begins with ".."
render-dots :
    (stack : List String) (tail : String)
    → IsDots stack
    → IsPrefix ".." tail
    → IsPrefix ".." (render stack tail)
unfolding render
render-dots [] tail d h = h
render-dots (p ∷ stack) tail d h = elim (Bool-cases (str_eq tail "")) [
  | inl none_after ↦ rw (none_after, d.0) (render-dots stack ".." d.1 ("", refl))
  | inr some_after ↦
      rw (some_after, d.0)
        (render-dots stack (append ".." (append "/" tail)) d.1 (append "/" tail, refl))
]

render-dots_from :
    (p : String) (stack : List String) (tail : String)
    → IsDots (p ∷ stack)
    → starts_with (render (p ∷ stack) tail) ".." ≡ true
unfolding render
render-dots_from p stack tail d =
    starts_with_of_prefix ".." (render (p ∷ stack) tail) (elim (Bool-cases (str_eq tail "")) [
      | inl none_after ↦ rw (none_after, d.0, render) (render-dots stack ".." d.1 ("", refl))
      | inr some_after ↦
          rw (some_after, d.0, render)
            (render-dots stack (append ".." (append "/" tail)) d.1 (append "/" tail, refl))
    ])

split-root : (s : String) → split (append "/" s) ≡ "" ∷ split s
unfolding split glue
split-root s = ap split (slash-append s)

-- so what does not begin with ".." has none
render-Safe :
    (rooted : Bool) (stack : List String) (tail : String)
    → Good rooted stack
    → starts_with (render stack tail) ".." ≡ false
    → All Safe stack
unfolding render
render-Safe rooted [] tail g h = tt
render-Safe rooted (p ∷ stack) tail (part, inl safe, good) h = (
  safe,
  render-Safe rooted stack (if str_eq tail "" then p else append p (append "/" tail)) good h,
)
render-Safe rooted (p ∷ stack) tail (part, inr (free, same, dots), good) h =
    absurd (ground (arith, h, render-dots_from p stack tail (same, dots)))

rooted-Safe : (stack : List String) → Good true stack → All Safe stack
rooted-Safe [] g = tt
rooted-Safe (p ∷ stack) (part, inl safe, good) = (safe, rooted-Safe stack good)
rooted-Safe (p ∷ stack) (part, inr (free, same, dots), good) = absurd (ground (arith, free))

-- the parts of a rendered stack are the stack's
split-render :
    (rooted : Bool) (stack : List String) (tail : String)
    → Good rooted stack
    → All Safe stack
    → All Safe (split tail)
    → All Safe (split (render stack tail))
unfolding render
split-render rooted [] tail g s t = t
split-render rooted (p ∷ stack) tail (part, above, good) s t = elim (Bool-cases (str_eq tail "")) [
  | inl none_after ↦
      rw (none_after, render) (split-render rooted stack p good s.1 (rw part (s.0, tt)))
  | inr some_after ↦
      rw (some_after, render)
        (split-render rooted stack (append p (append "/" tail)) good s.1
          (rw (split-join p tail, part) (s.0, t)))
]

clean_parts-Good : (path : String) → Good (is_rooted path) (clean_parts path)
unfolding clean_parts
clean_parts-Good path = resolve-Good (is_rooted path) [] (split path) (split-IsPart path) tt

path_of-Safe :
    (rooted : Bool) (stack : List String)
    → Good rooted stack
    → starts_with (path_of rooted stack) ".." ≡ false
    → All Safe (split (path_of rooted stack))
unfolding path_of split
path_of-Safe true stack good h =
    let safe = rooted-Safe stack good in
    rw (split-root (render stack "")) (refl, split-render true stack "" good safe (refl, tt))
path_of-Safe false stack good h = elim (Bool-cases (str_eq (render stack "") "")) [
  | inl nothing ↦ rw (nothing, path_of) (refl, tt)
  | inr body ↦
      rw (body, path_of)
        (split-render false stack "" good
          (render-Safe false stack "" good (rw (body, path_of) at h)) (refl, tt))
]

-- A cleaned path that does not begin with ".." has no part "..".
pub clean-Safe :
    (path : String) → starts_with (clean path) ".." ≡ false → All Safe (split (clean path))
unfolding clean
clean-Safe path h = path_of-Safe (is_rooted path) (clean_parts path) (clean_parts-Good path) h

-- `target` is `dir` with further parts behind, none of which is ".."
abbrev pub Below : String → String → Type 0
Below dir target =
    (parts : List String) × All Safe parts
    × (target ≡ path_of (is_rooted dir) (parts ++ clean_parts dir))

push-Safe :
    (rooted : Bool) (p : String) (stack : List String)
    → Safe p
    → (push_part rooted p stack ≡ stack) ⊎ (push_part rooted p stack ≡ p ∷ stack)
unfolding push_part
push-Safe rooted p [] safe = elim (Bool-cases (str_eq p "" || str_eq p ".")) [
  | inl dropped ↦ inl (ground (arith, dropped))
  | inr kept ↦ inr (ground (arith, kept, safe))
]
push-Safe rooted p (top ∷ rest) safe = elim (Bool-cases (str_eq p "" || str_eq p ".")) [
  | inl dropped ↦ inl (ground (arith, dropped))
  | inr kept ↦ inr (ground (arith, kept, safe))
]

-- parts that are not ".." only grow the stack
resolve-grows :
    (rooted : Bool) (above stack parts : List String)
    → All Safe above
    → All Safe parts
    → (more : List String) × All Safe more × (resolve rooted (above ++ stack) parts ≡ more ++ stack)
unfolding resolve
resolve-grows rooted above stack [] a s = (above, a, refl)
resolve-grows rooted above stack (p ∷ parts) a s = elim (push-Safe rooted p (above ++ stack) s.0) [
  | inl kept ↦ rw kept (resolve-grows rooted above stack parts a s.1)
  | inr pushed ↦ rw pushed (resolve-grows rooted (p ∷ above) stack parts (s.0, a) s.1)
]

is_rooted-append : (a b : String) → a ≢ "" → is_rooted (append a b) ≡ is_rooted a
unfolding is_rooted
is_rooted-append String.[] b h = absurd (h refl)
is_rooted-append (String.◌∷◌ c a) b h = ap is_rooted (append.cons c a b)

-- Joining parts that are not ".." to a directory stays below it.
pub join-Below : (dir name : String) → dir ≢ "" → All Safe (split name) → Below dir (join dir name)
unfolding join clean clean_parts
join-Below dir name h safe =
    let rooted = is_rooted dir in
    let stack = resolve rooted [] (split dir) in
    let (more, safe_more, grown) = resolve-grows rooted [] stack (split name) tt safe in
    let cut = split-join dir name in
    let root = is_rooted-append dir (append "/" name) h in
    let whole = append dir (append "/" name) in
    (
      more,
      safe_more,
      rw (str_eq-ne dir "" h, join)
          (ap (λ r. path_of r (resolve r [] (split whole))) root
            ∙ ap (λ parts. path_of rooted parts)
                (ap (λ parts. resolve rooted [] parts) cut
                  ∙ resolve-append rooted [] (split dir) (split name)
                  ∙ grown)),
    )
