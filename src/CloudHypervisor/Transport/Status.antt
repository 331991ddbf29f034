-- ===== src/CloudHypervisor/Transport/Status.antt =====
-- pkg/driver/cloudhypervisor/restore_fds.go: the answers that readHTTPStatus takes for a success.
use Prim.Native.Char.{Char, code}
use Prim.Native.String.append
use Prim.Native.String.{◌++◌ as append}
use vessel.Prelude.{
  String, ◌≡◌, refl, ap, sym, ◌∙◌, Bool, true, false, none, some, ◌==◌, ◌&&◌, ◌||◌, ◌⊎◌, str_eq,
  eq_iff, Bool-cases, Option-cases, inl, inr, arith,
}
use vessel.Prelude.Prefix.{drop_prefix}
use vessel.CloudHypervisor.Transport.{
  before_crlf, before_space, after_space, is_success, read_http_status,
}

abbrev pub has_crlf : String → Bool
has_crlf String.[] = false
has_crlf (String.◌∷◌ c String.[]) = false
has_crlf (String.◌∷◌ c (String.◌∷◌ d s)) =
    (code c == 13 && code d == 10) || has_crlf (String.◌∷◌ d s)

abbrev pub has_space : String → Bool
has_space String.[] = false
has_space (String.◌∷◌ c s) = code c == 32 || has_space s

-- a text that is over, or goes on with a separator
abbrev pub EndsBy : String → String → Type 0
EndsBy separator tail = (tail ≡ "") ⊎ ((rest : String) × (drop_prefix separator tail ≡ some rest))

-- an answer whose first line, up to "\r\n", has 200, 201 or 204 as its second word
abbrev pub SaysSuccess : String → Type 0
SaysSuccess text =
    (line ending version gap rest status reason : String) × (text ≡ append line ending)
    × (has_crlf line ≡ false)
    × EndsBy "\r\n" ending
    × (line ≡ append version gap)
    × (has_space version ≡ false)
    × (drop_prefix " " gap ≡ some rest)
    × (rest ≡ append status reason)
    × (has_space status ≡ false)
    × EndsBy " " reason
    × ((status ≡ "200") ⊎ (status ≡ "201") ⊎ (status ≡ "204"))

before_crlf-cons :
    (c d : Char) (s : String)
    → (code c == 13 && code d == 10) ≡ false
    → has_crlf (before_crlf (String.◌∷◌ d s)) ≡ false
    → has_crlf (String.◌∷◌ c (before_crlf (String.◌∷◌ d s))) ≡ false
unfolding before_crlf
before_crlf-cons c d String.[] plain h = ground (arith, plain)
before_crlf-cons c d (String.◌∷◌ e s) plain h = elim (Bool-cases (code d == 13 && code e == 10)) [
  | inl here ↦ rw here refl
  | inr later ↦ rw later (ground (arith, plain, rw later at h))
]

before_crlf-cuts :
    (s : String)
    → (ending : String) × (s ≡ append (before_crlf s) ending)
      × EndsBy "\r\n" ending
      × (has_crlf (before_crlf s) ≡ false)
unfolding before_crlf drop_prefix
before_crlf-cuts String.[] = ("", sym (append.nil ""), inl refl, refl)
before_crlf-cuts (String.◌∷◌ c String.[]) =
    ("", sym (append.cons c "" "" ∙ ap (λ t. String.◌∷◌ c t) (append.nil "")), inl refl, refl)
before_crlf-cuts (String.◌∷◌ c (String.◌∷◌ d s)) =
    let (ending, whole, ends, plain) = before_crlf-cuts (String.◌∷◌ d s) in
    elim (Bool-cases (code c == 13 && code d == 10)) [
      | inl here ↦ rw here (
        String.◌∷◌ c (String.◌∷◌ d s),
        sym (append.nil (String.◌∷◌ c (String.◌∷◌ d s))),
        inr (s, ground (arith, here)),
        refl,
      )
      | inr later ↦ rw later (
        ending,
        ap (λ t. String.◌∷◌ c t) whole ∙ sym (append.cons c (before_crlf (String.◌∷◌ d s)) ending),
        ends,
        before_crlf-cons c d s later plain,
      )
    ]

before_space-cuts :
    (s : String)
    → (tail : String) × (s ≡ append (before_space s) tail)
      × (drop_prefix " " tail ≡ after_space s)
      × (after_space s ≡ none → tail ≡ "")
      × (has_space (before_space s) ≡ false)
unfolding before_space after_space drop_prefix
before_space-cuts String.[] = ("", sym (append.nil ""), refl, λ e. refl, refl)
before_space-cuts (String.◌∷◌ c s) =
    let (tail, whole, same, ends, plain) = before_space-cuts s in
    elim (Bool-cases (code c == 32)) [
      | inl here ↦ rw here (
        String.◌∷◌ c s,
        sym (append.nil (String.◌∷◌ c s)),
        ground (arith, here),
        λ e. absurd (ground (arith, e)),
        refl,
      )
      | inr later ↦ rw later (
        tail,
        ap (λ t. String.◌∷◌ c t) whole ∙ sym (append.cons c (before_space s) tail),
        same,
        ends,
        ground (arith, later, plain),
      )
    ]

is_success-cases :
    (field : String) → is_success field ≡ true → (field ≡ "200") ⊎ (field ≡ "201") ⊎ (field ≡ "204")
unfolding is_success
is_success-cases field h = elim (Bool-cases (str_eq field "200")) [
  | inl fine ↦ inl (ground (arith, fine, eq_iff field "200"))
  | inr other ↦ elim (Bool-cases (str_eq field "201")) [
    | inl made ↦ inr (inl (ground (arith, made, eq_iff field "201")))
    | inr neither ↦ inr (inr (ground (arith, h, other, neither, eq_iff field "204")))
  ]
]

EndsBy-space :
    (s tail : String)
    → drop_prefix " " tail ≡ after_space s
    → (after_space s ≡ none → tail ≡ "")
    → EndsBy " " tail
EndsBy-space s tail same ends = elim (Option-cases (after_space s)) [
  | inl over ↦ inl (ends over)
  | inr (rest, more) ↦ inr (rest, same ∙ more)
]

-- What readHTTPStatus takes for a success.
pub read_http_status-says : (text : String) → read_http_status (some text) ≡ true → SaysSuccess text
unfolding read_http_status
read_http_status-says text h =
    let line = before_crlf text in
    let (ending, whole, ends, one) = before_crlf-cuts text in
    let (gap, cut, same, over, word) = before_space-cuts line in
    elim (Option-cases (after_space line)) [
      | inl short ↦ absurd (ground (arith, rw (short, read_http_status) at h))
      | inr (rest, found) ↦
          let (reason, split, next, stops, second) = before_space-cuts rest in
          (
            line,
            ending,
            before_space line,
            gap,
            rest,
            before_space rest,
            reason,
            whole,
            one,
            ends,
            cut,
            word,
            same ∙ found,
            split,
            second,
            EndsBy-space rest reason next stops,
            is_success-cases (before_space rest) (rw (found, read_http_status) at h),
          )
    ]
