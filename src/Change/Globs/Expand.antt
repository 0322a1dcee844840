-- ===== src/Change/Globs/Expand.antt =====
-- `match_glob` of scripts/ci/check_multisig.py calls itself on patterns with fewer braces, so it ends.
use mathlib.Core.Path.{subst}
use Prim.Native.Char.{Char, code}
use Prim.Native.String.{[], ◌∷◌, ◌++◌, count}
use text.Mathlib.TextLemmas.{cons-append, nil-append}
use decisionos.Common.{
  ℕ, zero, suc, ◌+◌, ◌-◌, ◌≤◌, ◌<◌, ◌≡◌, refl, sym, ◌∙◌, inl, inr, String, Bool, true, false, some,
  List, arith, str_eq, ◌==◌, All, All-map, Bool-cases, Option-cases,
}
use decisionos.Common.Text.{cons_first, split, split_once, starts_with, replace, replace_from}
use decisionos.Change.Globs.{
  any_text, closings, search_braces, further, expand, match_from, match_glob,
}

closings-append : (a b : String) → closings (a ++ b) ≡ closings a + closings b
unfolding closings
closings-append [] b = rw (nil-append b) (omega arith)
closings-append (c ∷ a) b = rw (cons-append c a b) (ground (arith, closings-append a b))

-- The text before the first "}" has none.
split_once-closings :
    (s g z : String)
    → split_once 125 s ≡ some (g, z)
    → (closings g ≡ 0) × (closings s ≡ suc (closings z))
unfolding split_once closings
split_once-closings [] g z e = absurd (ground arith)
split_once-closings (c ∷ s) g z e = elim (Bool-cases (code c == 125)) [
  | inl y ↦
      let eg : g ≡ "" = ground arith in
      let ez : z ≡ s = ground arith in
      (
        subst (λ x. closings x ≡ 0) (sym eg) refl,
        rw y (subst (λ x. suc (closings s) ≡ suc (closings x)) (sym ez) refl),
      )
  | inr n ↦ elim (Option-cases (split_once 125 s)) [
    | inl gone ↦ absurd (ground arith)
    | inr ((g', z'), found) ↦
        let eg : g ≡ c ∷ g' = ground arith in
        let ez : z' ≡ z = ground arith in
        let rest = split_once-closings s g' z' found in
        (
          subst (λ x. closings x ≡ 0) (sym eg) (rw n rest.0),
          rw n (subst (λ x. closings s ≡ suc (closings x)) ez rest.1),
        )
  ]
]

Braced : String → String → String → String → Type 0
Braced p a g z = (closings g ≡ 0) × (closings p ≡ closings a + suc (closings z))

opened :
    (c : Char) (p g z : String)
    → code c == 123 ≡ true
    → split_once 125 p ≡ some (g, z)
    → Braced (c ∷ p) "" g z
unfolding Braced closings
opened c p g z y found =
    let rest = split_once-closings p g z found in (rest.0, ground (arith, rest.1))

further-closings :
    (c : Char) (p a g z : String)
    → ((a' g' z' : String) → search_braces p ≡ some (a', g', z') → Braced p a' g' z')
    → further c (search_braces p) ≡ some (a, g, z)
    → Braced (c ∷ p) a g z
unfolding Braced closings
further-closings c p a g z h e = elim (Option-cases (search_braces p)) [
  | inl gone ↦ absurd (ground arith)
  | inr ((a', g', z'), found) ↦
      let ea : a ≡ c ∷ a' = ground arith in
      let eg : g' ≡ g = ground arith in
      let ez : z' ≡ z = ground arith in
      let rest = h a' g' z' found in
      (
        subst (λ x. closings x ≡ 0) eg rest.0,
        subst (λ x. closings (c ∷ p) ≡ closings x + suc (closings z)) (sym ea)
            (subst (λ x. closings (c ∷ p) ≡ closings (c ∷ a') + suc (closings x)) ez
              (ground (arith, rest.1))),
      )
]

search_braces-closings : (p a g z : String) → search_braces p ≡ some (a, g, z) → Braced p a g z
unfolding search_braces
search_braces-closings [] a g z e = absurd (ground arith)
search_braces-closings (c ∷ p) a g z e = elim (Bool-cases (code c == 123)) [
  | inr n ↦ further-closings c p a g z (search_braces-closings p) (ground arith)
  | inl y ↦ elim (Option-cases (split_once 125 p)) [
    | inl gone ↦ further-closings c p a g z (search_braces-closings p) (ground arith)
    | inr ((g', z'), found) ↦ elim (Bool-cases (str_eq g' "")) [
      | inl empty ↦ further-closings c p a g z (search_braces-closings p) (ground arith)
      | inr full ↦
          let ea : "" ≡ a = ground arith in
          let eg : g' ≡ g = ground arith in
          let ez : z' ≡ z = ground arith in
          subst (λ x. Braced (c ∷ p) x g z) ea
            (subst (λ x. Braced (c ∷ p) "" x z) eg
              (subst (λ x. Braced (c ∷ p) "" g' x) ez (opened c p g' z' y found)))
    ]
  ]
]

replace_from-closings :
    (old new : String) (k : ℕ) (s : String)
    → closings new ≡ 0
    → closings (replace_from old new k s) ≤ closings s
unfolding replace_from closings
replace_from-closings old new k [] h = ground arith
replace_from-closings old new (suc k) (c ∷ s) h =
    ground (arith, replace_from-closings old new k s h)
replace_from-closings old new zero (c ∷ s) h = elim (Bool-cases (starts_with (c ∷ s) old)) [
  | inl y ↦
      let eq : replace_from old new zero (c ∷ s) ≡ new ++ replace_from old new (count old - 1) s =
        ground arith in
      rw eq (
        ground (
          arith,
          closings-append new (replace_from old new (count old - 1) s),
          replace_from-closings old new (count old - 1) s h,
        ))
  | inr n ↦
      let eq : replace_from old new zero (c ∷ s) ≡ c ∷ replace_from old new zero s = ground arith in
      rw eq (ground (arith, replace_from-closings old new zero s h))
]

cons_first-closings :
    (c : Char) (l : List String)
    → code c == 125 ≡ false
    → All (λ x. closings x ≡ 0) l
    → All (λ x. closings x ≡ 0) (cons_first c l)
unfolding closings
cons_first-closings c List.[] n h = (rw n refl, tt)
cons_first-closings c (List.◌∷◌ s l) n h = (rw n h.0, h.1)

split-closings : (s : String) → closings s ≡ 0 → All (λ x. closings x ≡ 0) (split 44 s)
unfolding split closings
split-closings [] h = (refl, tt)
split-closings (c ∷ s) h =
    let rest = split-closings s (ground arith) in
    elim (Bool-cases (code c == 44)) [
      | inl y ↦ rw y (refl, rest)
      | inr n ↦ rw n (cons_first-closings c (split 44 s) (ground arith) rest)
    ]

any_text-cong :
    (p q : String → Bool) (l : List String) → All (λ x. p x ≡ q x) l → any_text p l ≡ any_text q l
any_text-cong p q List.[] h = refl
any_text-cong p q (List.◌∷◌ x l) h = let first = h.0 in ground (arith, any_text-cong p q l h.1)

replaced-closings :
    (ext a z : String)
    → closings ext ≡ 0
    → closings (replace "EXT" ext (a ++ ("EXT" ++ z))) ≤ closings a + closings z
unfolding replace closings
replaced-closings ext a z h = ground (
  arith,
  replace_from-closings "EXT" ext zero (a ++ ("EXT" ++ z)) h,
  closings-append a ("EXT" ++ z),
  closings-append "EXT" z,
)

fewer :
    (pattern a g z ext : String)
    → Braced pattern a g z
    → closings ext ≡ 0
    → closings (replace "EXT" ext (a ++ ("EXT" ++ z))) < closings pattern
unfolding Braced
fewer pattern a g z ext b e = let le = replaced-closings ext a z e in ground (arith, b.1)

module _ (fullmatch : String → String → Bool) (filename : String) where
  pub expand-braced :
      (p : String → Bool) (pattern a g z : String)
      → search_braces pattern ≡ some (a, g, z)
      → expand fullmatch p filename pattern
        ≡ any_text (λ ext. p (replace "EXT" ext (a ++ ("EXT" ++ z)))) (split 44 g)
  unfolding expand
  expand-braced p pattern a g z found = rw (expand, found) refl

  -- Two ways to match agree on what the pattern is expanded to where they agree on all patterns with
  -- fewer braces.
  expand-cong :
      (p q : String → Bool) (pattern : String)
      → ((x : String) → closings x < closings pattern → p x ≡ q x)
      → expand fullmatch p filename pattern ≡ expand fullmatch q filename pattern
  unfolding expand Braced
  expand-cong p q pattern h = elim (Option-cases (search_braces pattern)) [
    | inl none_there ↦ ground arith
    | inr ((a, g, z), found) ↦
        let b : Braced pattern a g z = search_braces-closings pattern a g z found in
        expand-braced p pattern a g z found
        ∙ any_text-cong (λ ext. p (replace "EXT" ext (a ++ ("EXT" ++ z))))
            (λ ext. q (replace "EXT" ext (a ++ ("EXT" ++ z)))) (split 44 g)
            (All-map (λ ext. closings ext ≡ 0)
              (λ ext.
                p (replace "EXT" ext (a ++ ("EXT" ++ z)))
                ≡ q (replace "EXT" ext (a ++ ("EXT" ++ z))))
              (split 44 g)
              (λ ext e. h (replace "EXT" ext (a ++ ("EXT" ++ z))) (fewer pattern a g z ext b e))
              (split-closings g b.0))
        ∙ sym (expand-braced q pattern a g z found)
  ]

  match_from-enough :
      (n m : ℕ) (pattern : String)
      → closings pattern < n
      → closings pattern < m
      → match_from fullmatch n filename pattern ≡ match_from fullmatch m filename pattern
  unfolding match_from
  match_from-enough zero m pattern h k = absurd (ground arith)
  match_from-enough (suc n) zero pattern h k = absurd (ground arith)
  match_from-enough (suc n) (suc m) pattern h k =
      expand-cong (match_from fullmatch n filename) (match_from fullmatch m filename) pattern
        (λ x l. match_from-enough n m x (ground arith) (ground arith))

  -- `match_glob` does what its recursive body says, for any pattern.
  pub match_glob-expand :
      (pattern : String)
      → match_glob fullmatch filename pattern
        ≡ expand fullmatch (match_glob fullmatch filename) filename pattern
  unfolding match_glob match_from
  match_glob-expand pattern =
      expand-cong (match_from fullmatch (closings pattern) filename) (match_glob fullmatch filename)
        pattern (λ x l. match_from-enough (closings pattern) (suc (closings x)) x l (ground arith))
