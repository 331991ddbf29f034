-- ===== src/FilePath/Ending.antt =====
-- path/filepath: the last character of a path, by which paths of different names are told apart.
use Prim.Native.Nat.{ℕ}
use Prim.Native.Char.{code}
use Prim.Native.String.append
use Prim.Native.String.{◌++◌ as append}
use text.Mathlib.TextLemmas.{append-ne-nil_of_right_ne-nil}
use mathlib.Core.List.{append_assoc}
use vessel.Prelude.{
  String, ◌≡◌, ◌≢◌, refl, ap, sym, ◌∙◌, Bool, true, false, List, [], ◌∷◌, ◌++◌, arith, str_eq,
  eq_iff, inl, inr, Bool-cases, str_eq-ne,
}
use vessel.FilePath.{
  split, is_rooted, push_part, resolve, render, path_of, clean_parts, clean, join,
}
use vessel.FilePath.Split.{split-join, resolve-append}

abbrev pub last_code : String → ℕ
last_code String.[] = 0
last_code (String.◌∷◌ c String.[]) = code c
last_code (String.◌∷◌ c (String.◌∷◌ d s)) = last_code (String.◌∷◌ d s)

-- texts with different last characters differ
pub last_code-differs : (s t : String) → last_code s ≢ last_code t → str_eq s t ≡ false
last_code-differs s t h = str_eq-ne s t (λ e. h (ap last_code e))

last_code-cons :
    (c : Prim.Native.Char.Char) (s : String) → s ≢ "" → last_code (String.◌∷◌ c s) ≡ last_code s
last_code-cons c String.[] h = absurd (h refl)
last_code-cons c (String.◌∷◌ d s) h = refl

pub last_code-append : (a b : String) → b ≢ "" → last_code (append a b) ≡ last_code b
last_code-append String.[] b h = ap last_code (append.nil b)
last_code-append (String.◌∷◌ c a) b h =
    ap last_code (append.cons c a b)
    ∙ last_code-cons c (append a b) (append-ne-nil_of_right_ne-nil a h)
    ∙ last_code-append a b h

render-last :
    (stack : List String) (tail : String)
    → tail ≢ ""
    → last_code (render stack tail) ≡ last_code tail
unfolding render
render-last [] tail h = refl
render-last (p ∷ stack) tail h =
    let below = append-ne-nil_of_right_ne-nil "/" h in
    rw (str_eq-ne tail "" h, render)
      (render-last stack (append p (append "/" tail)) (append-ne-nil_of_right_ne-nil p below)
        ∙ last_code-append p (append "/" tail) below
        ∙ last_code-append "/" tail h)

render-some : (stack : List String) (tail : String) → tail ≢ "" → render stack tail ≢ ""
unfolding render
render-some [] tail h = h
render-some (p ∷ stack) tail h =
    rw (str_eq-ne tail "" h, render)
      (render-some stack (append p (append "/" tail))
        (append-ne-nil_of_right_ne-nil p (append-ne-nil_of_right_ne-nil "/" h)))

-- a part that `Clean` keeps
abbrev pub IsSolid : String → Type 0
IsSolid p = (str_eq p "" ≡ false) × (str_eq p "." ≡ false) × (str_eq p ".." ≡ false)

push_part-solid :
    (rooted : Bool) (p : String) (stack : List String)
    → IsSolid p
    → push_part rooted p stack ≡ p ∷ stack
unfolding push_part
push_part-solid rooted p [] h = ground (arith, h.0, h.1, h.2)
push_part-solid rooted p (top ∷ rest) h = ground (arith, h.0, h.1, h.2)

not_blank : (p : String) → IsSolid p → p ≢ ""
not_blank p h e = absurd (ground (arith, h.0, eq_iff p "", e))

path_of-last :
    (rooted : Bool) (p : String) (stack : List String)
    → IsSolid p
    → last_code (path_of rooted (p ∷ stack)) ≡ last_code p
unfolding path_of render
path_of-last true p stack h =
    let some = render-some stack p (not_blank p h) in
    last_code-append "/" (render stack p) some ∙ render-last stack p (not_blank p h)
path_of-last false p stack h =
    rw (str_eq-ne (render stack p) "" (render-some stack p (not_blank p h)), path_of, render)
      (render-last stack p (not_blank p h))

clean-last :
    (path p : String) (init : List String)
    → split path ≡ init ++ p ∷ []
    → IsSolid p
    → last_code (clean path) ≡ last_code p
unfolding clean clean_parts resolve
clean-last path p init cut h =
    let rooted = is_rooted path in
    let parts : resolve rooted [] (split path) ≡ p ∷ resolve rooted [] init =
      ap (λ l. resolve rooted [] l) cut
      ∙ resolve-append rooted [] init (p ∷ [])
      ∙ push_part-solid rooted p (resolve rooted [] init) h in
    ap (λ l. last_code (path_of rooted l)) parts ∙ path_of-last rooted p (resolve rooted [] init) h

-- the last part of a joined name is the last part of the path
pub join-last :
    (dir name p : String) (init : List String)
    → split name ≡ init ++ p ∷ []
    → IsSolid p
    → last_code (join dir name) ≡ last_code p
unfolding join
join-last dir name p init cut h = elim (Bool-cases (str_eq dir "")) [
  | inl no_dir ↦ rw (no_dir, join) (clean-last name p init cut h)
  | inr some_dir ↦
      rw (some_dir, join)
        (clean-last (append dir (append "/" name)) p (split dir ++ init)
          (split-join dir name
            ∙ ap (λ l. split dir ++ l) cut
            ∙ sym (append_assoc (split dir) init (p ∷ [])))
          h)
]
