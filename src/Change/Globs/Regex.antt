-- ===== src/Change/Globs/Regex.antt =====
-- The regular expression that `match_glob` of scripts/ci/check_multisig.py makes of a pattern without
-- braces.
use Prim.Native.Char.{Char, code}
use Prim.Native.String.{[], ◌∷◌, ◌++◌}
use text.Mathlib.TextLemmas.{cons-append, nil-append, append_assoc}
use decisionos.Common.{
  ℕ, ◌≡◌, refl, sym, ap, ◌∙◌, inl, inr, String, arith, ◌==◌, if◌then◌else◌, Bool-cases,
}
use decisionos.Common.Text.{starts_with, replace, replace_from}
use decisionos.Change.Globs.{regex_of}

-- A dot is escaped, a star stands for any text, a question mark for any character, and every other
-- character for itself.
abbrev pub escape : Char → String
escape c =
    if code c == 46
    then "\\."
    else if code c == 42
    then ".*"
    else if code c == 63
    then "."
    else c ∷ ""

unfoldable pub regex : String → String
regex [] = ""
regex (c ∷ s) = escape c ++ regex s

-- `s.replace(c, new)` for a character, by its code.
swap : ℕ → String → String → String
swap n new [] = ""
swap n new (c ∷ s) = if code c == n then new ++ swap n new s else c ∷ swap n new s

replace-dot : (new s : String) → replace "." new s ≡ swap 46 new s
unfolding replace replace_from starts_with swap
replace-dot new [] = refl
replace-dot new (c ∷ s) = ground (arith, replace-dot new s)

replace-star : (new s : String) → replace "*" new s ≡ swap 42 new s
unfolding replace replace_from starts_with swap
replace-star new [] = refl
replace-star new (c ∷ s) = ground (arith, replace-star new s)

replace-mark : (new s : String) → replace "?" new s ≡ swap 63 new s
unfolding replace replace_from starts_with swap
replace-mark new [] = refl
replace-mark new (c ∷ s) = ground (arith, replace-mark new s)

swap-append : (n : ℕ) (new a b : String) → swap n new (a ++ b) ≡ swap n new a ++ swap n new b
unfolding swap
swap-append n new [] b = rw (nil-append b, nil-append (swap n new b)) refl
swap-append n new (c ∷ a) b = rw (cons-append c a b) (elim (Bool-cases (code c == n)) [
  | inl y ↦ rw y (
      ap (λ x. new ++ x) (swap-append n new a b)
      ∙ sym (append_assoc new (swap n new a) (swap n new b)))
  | inr z ↦
      rw z (
        ap (λ x. c ∷ x) (swap-append n new a b) ∙ sym (cons-append c (swap n new a) (swap n new b)))
])

-- The three swaps, one after the other.
swaps : String → String
swaps s = swap 63 "." (swap 42 ".*" (swap 46 "\\." s))

swaps-cons : (c : Char) (s : String) → swaps (c ∷ s) ≡ escape c ++ swaps s
unfolding swaps swap
swaps-cons c s = elim (Bool-cases (code c == 46)) [
  | inl dot ↦ rw dot (
      ap (swap 63 ".") (swap-append 42 ".*" "\\." (swap 46 "\\." s))
      ∙ swap-append 63 "." "\\." (swap 42 ".*" (swap 46 "\\." s)))
  | inr other ↦ elim (Bool-cases (code c == 42)) [
    | inl star ↦ rw (other, star) (swap-append 63 "." ".*" (swap 42 ".*" (swap 46 "\\." s)))
    | inr plain ↦ elim (Bool-cases (code c == 63)) [
      | inl mark ↦ rw (other, plain, mark) refl
      | inr itself ↦
          rw (other, plain, itself)
            (sym (cons-append c "" (swaps s) ∙ ap (λ x. c ∷ x) (nil-append (swaps s))))
    ]
  ]
]

swaps-regex : (s : String) → swaps s ≡ regex s
unfolding regex swaps swap
swaps-regex [] = refl
swaps-regex (c ∷ s) = swaps-cons c s ∙ ap (λ x. escape c ++ x) (swaps-regex s)

pub regex_of-regex : (s : String) → regex_of s ≡ regex s
unfolding swaps
regex_of-regex s =
    ap (λ x. replace "?" "." (replace "*" ".*" x)) (replace-dot "\\." s)
    ∙ ap (replace "?" ".") (replace-star ".*" (swap 46 "\\." s))
    ∙ replace-mark "." (swap 42 ".*" (swap 46 "\\." s))
    ∙ swaps-regex s
