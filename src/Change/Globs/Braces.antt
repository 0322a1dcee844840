-- ===== src/Change/Globs/Braces.antt =====
-- Which braces of a pattern `match_glob` of scripts/ci/check_multisig.py finds: the first ones.
use Prim.Native.Char.{Char, code}
use Prim.Native.String.{[], ◌∷◌, ◌++◌}
use mathlib.Core.Path.{subst}
use text.Mathlib.TextLemmas.{cons-append, nil-append}
use decisionos.Common.{
  ℕ, zero, suc, ◌≤◌, ◌≡◌, ◌≢◌, refl, sym, ap, ◌∙◌, inl, inr, String, true, false, none, some, arith,
  str_eq, eq_iff, ◌==◌, Bool-cases, Option-cases,
}
use decisionos.Common.Text.{split_once}
use decisionos.Change.Globs.{closings, search_braces, further}

-- The number of characters.
abbrev pub size : String → ℕ
size [] = zero
size (c ∷ s) = suc (size s)

-- The pattern has braces, an opening and a closing character, with a text that is not empty and has no
-- "}" between them.
abbrev pub Braces : String → String → String → String → Type 0
Braces p a g z =
    (o : Char) × (c : Char) × (code o ≡ 123)
    × (code c ≡ 125)
    × (closings g ≡ 0)
    × (g ≢ "")
    × (p ≡ a ++ (o ∷ (g ++ (c ∷ z))))

-- There are no braces further to the left.
abbrev pub FirstBraces : String → String → String → String → Type 0
FirstBraces p a g z = Braces p a g z × ((a' g' z' : String) → Braces p a' g' z' → size a ≤ size a')

abbrev pub NoBraces : String → Type 0
NoBraces p = (a g z : String) → Braces p a g z → ⊥

split_once_sound :
    (s g z : String)
    → split_once 125 s ≡ some (g, z)
    → (c : Char) × (code c ≡ 125) × (closings g ≡ 0) × (s ≡ g ++ (c ∷ z))
unfolding split_once closings
split_once_sound [] g z e = absurd (ground arith)
split_once_sound (c ∷ s) g z e = elim (Bool-cases (code c == 125)) [
  | inl y ↦
      let eg : "" ≡ g = ground arith in
      let ez : s ≡ z = ground arith in
      (
        c,
        ground arith,
        subst (λ x. closings x ≡ 0) eg refl,
        subst (λ x. c ∷ s ≡ x ++ (c ∷ z)) eg (ap (λ x. c ∷ x) ez ∙ sym (nil-append (c ∷ z))),
      )
  | inr n ↦ elim (Option-cases (split_once 125 s)) [
    | inl gone ↦ absurd (ground arith)
    | inr ((g', z'), found) ↦
        let eg : c ∷ g' ≡ g = ground arith in
        let ez : z' ≡ z = ground arith in
        let (d, k, none_in, e') = split_once_sound s g' z' found in
        (
          d,
          k,
          subst (λ x. closings x ≡ 0) eg (rw n none_in),
          subst (λ x. c ∷ s ≡ x ++ (d ∷ z)) eg
              (ap (λ x. c ∷ x) (subst (λ x. s ≡ g' ++ (d ∷ x)) ez e')
                ∙ sym (cons-append c g' (d ∷ z))),
        )
  ]
]

split_once_complete :
    (g z : String) (c : Char)
    → code c ≡ 125
    → closings g ≡ 0
    → split_once 125 (g ++ (c ∷ z)) ≡ some (g, z)
unfolding split_once closings
split_once_complete [] z c k e = rw (nil-append (c ∷ z)) (ground arith)
split_once_complete (d ∷ g) z c k e =
    rw (cons-append d g (c ∷ z)) (elim (Bool-cases (code d == 125)) [
      | inl y ↦ absurd (ground arith)
      | inr n ↦ let rest = split_once_complete g z c k (ground arith) in ground arith
    ])

-- Braces of a text are braces with a character in front.
Braces-cons : (d : Char) (p a g z : String) → Braces p a g z → Braces (d ∷ p) (d ∷ a) g z
Braces-cons d p a g z (o, c, ko, kc, n, f, e) =
    (o, c, ko, kc, n, f, ap (λ x. d ∷ x) e ∙ sym (cons-append d a (o ∷ (g ++ (c ∷ z)))))

Braces-here :
    (d : Char) (p g z : String)
    → code d == 123 ≡ true
    → split_once 125 p ≡ some (g, z)
    → str_eq g "" ≡ false
    → Braces (d ∷ p) "" g z
Braces-here d p g z y found full =
    let (c, k, n, e) = split_once_sound p g z found in
    (
      d,
      c,
      ground arith,
      k,
      n,
      λ x. absurd (ground (arith, eq_iff g "")),
      ap (λ x. d ∷ x) e ∙ sym (nil-append (d ∷ (g ++ (c ∷ z)))),
    )

-- The braces that are named by what stands before, in and after them.
abbrev BracesAt : String → String × String × String → Type 0
BracesAt p (a, g, z) = Braces p a g z

further-Braces :
    (d : Char) (p : String) (t : String × String × String)
    → ((u : String × String × String) → search_braces p ≡ some u → BracesAt p u)
    → further d (search_braces p) ≡ some t
    → BracesAt (d ∷ p) t
further-Braces d p t h e = elim (Option-cases (search_braces p)) [
  | inl gone ↦ absurd (ground arith)
  | inr ((a, g, z), found) ↦
      let same : (d ∷ a, g, z) ≡ t = ground arith in
      subst (BracesAt (d ∷ p)) same (Braces-cons d p a g z (h (a, g, z) found))
]

-- What is found are braces.
search_braces-Braces :
    (p : String) (t : String × String × String) → search_braces p ≡ some t → BracesAt p t
unfolding search_braces
search_braces-Braces [] t e = absurd (ground arith)
search_braces-Braces (d ∷ p) t e = elim (Bool-cases (code d == 123)) [
  | inr n ↦ further-Braces d p t (search_braces-Braces p) (ground arith)
  | inl y ↦ elim (Option-cases (split_once 125 p)) [
    | inl gone ↦ further-Braces d p t (search_braces-Braces p) (ground arith)
    | inr ((g, z), found) ↦ elim (Bool-cases (str_eq g "")) [
      | inl empty ↦ further-Braces d p t (search_braces-Braces p) (ground arith)
      | inr full ↦
          let same : ("", g, z) ≡ t = ground arith in
          subst (BracesAt (d ∷ p)) same (Braces-here d p g z y found full)
    ]
  ]
]

-- The first braces are found.
search_braces-first :
    (a g z : String) (o c : Char)
    → code o ≡ 123
    → code c ≡ 125
    → closings g ≡ 0
    → g ≢ ""
    → ((a' g' z' : String) → Braces (a ++ (o ∷ (g ++ (c ∷ z)))) a' g' z' → size a ≤ size a')
    → search_braces (a ++ (o ∷ (g ++ (c ∷ z)))) ≡ some (a, g, z)
unfolding search_braces
search_braces-first [] g z o c ko kc n f h =
    rw (nil-append (o ∷ (g ++ (c ∷ z))))
      (ground (arith, split_once_complete g z c kc n, eq_iff g ""))
search_braces-first (d ∷ a) g z o c ko kc n f h =
    let p = a ++ (o ∷ (g ++ (c ∷ z))) in
    let front = cons-append d a (o ∷ (g ++ (c ∷ z))) in
    let first : (a' g' z' : String) → Braces (d ∷ p) a' g' z' → suc (size a) ≤ size a' =
      λ a' g' z' b. h a' g' z' (subst (λ x. Braces x a' g' z') (sym front) b) in
    let rest =
      search_braces-first a g z o c ko kc n f
        (λ a' g' z' b. omega (arith, first (d ∷ a') g' z' (Braces-cons d p a' g' z' b))) in
    rw front (elim (Bool-cases (code d == 123)) [
      | inr other ↦ ground (arith, rest)
      | inl y ↦ elim (Option-cases (split_once 125 p)) [
        | inl gone ↦ ground (arith, rest)
        | inr ((g', z'), found) ↦ elim (Bool-cases (str_eq g' "")) [
          | inl empty ↦ ground (arith, rest)
          | inr full ↦ absurd (omega (arith, first "" g' z' (Braces-here d p g' z' y found full)))
        ]
      ]
    ])

-- Where there are braces, some are found that are no further to the right.
Found : String → ℕ → Type 0
Found p n =
    (a : String) × (g : String) × (z : String) × (search_braces p ≡ some (a, g, z)) × (size a ≤ n)

search_braces-found :
    (a g z : String) (o c : Char)
    → code o ≡ 123
    → code c ≡ 125
    → closings g ≡ 0
    → g ≢ ""
    → Found (a ++ (o ∷ (g ++ (c ∷ z)))) (size a)
unfolding search_braces Found
search_braces-found [] g z o c ko kc n f =
    rw (nil-append (o ∷ (g ++ (c ∷ z))))
      ("", g, z, ground (arith, split_once_complete g z c kc n, eq_iff g ""), omega arith)
search_braces-found (d ∷ a) g z o c ko kc n f =
    let p = a ++ (o ∷ (g ++ (c ∷ z))) in
    let (a', g', z', e, l) = search_braces-found a g z o c ko kc n f in
    rw (cons-append d a (o ∷ (g ++ (c ∷ z)))) (elim (Bool-cases (code d == 123)) [
      | inr other ↦ (d ∷ a', g', z', ground (arith, e), omega (arith, l))
      | inl y ↦ elim (Option-cases (split_once 125 p)) [
        | inl gone ↦ (d ∷ a', g', z', ground (arith, e), omega (arith, l))
        | inr ((h, w), found) ↦ elim (Bool-cases (str_eq h "")) [
          | inl empty ↦ (d ∷ a', g', z', ground (arith, e), omega (arith, l))
          | inr full ↦ ("", h, w, ground arith, omega arith)
        ]
      ]
    ])

Braces-Found : (p a g z : String) → Braces p a g z → Found p (size a)
Braces-Found p a g z (o, c, ko, kc, n, f, e) =
    subst (λ x. Found x (size a)) (sym e) (search_braces-found a g z o c ko kc n f)

-- `re.search` for braces gives the first braces, and nothing exactly where there are none.
pub search_braces-FirstBraces :
    (p a g z : String) → search_braces p ≡ some (a, g, z) → FirstBraces p a g z
unfolding Found
search_braces-FirstBraces p a g z e = (
  search_braces-Braces p (a, g, z) e,
  λ a' g' z' b.
      let (a0, g0, z0, e0, l) = Braces-Found p a' g' z' b in
      let same : a0 ≡ a = ground arith in subst (λ x. size x ≤ size a') same l,
)

pub search_braces-NoBraces : (p : String) → search_braces p ≡ none → NoBraces p
unfolding Found
search_braces-NoBraces p e a g z b =
    let (a0, g0, z0, e0, l) = Braces-Found p a g z b in absurd (ground arith)

pub FirstBraces-search_braces :
    (p a g z : String) → FirstBraces p a g z → search_braces p ≡ some (a, g, z)
FirstBraces-search_braces p a g z ((o, c, ko, kc, n, f, e), first) =
    subst (λ x. search_braces x ≡ some (a, g, z)) (sym e)
      (search_braces-first a g z o c ko kc n f
        (λ a' g' z' b. first a' g' z' (subst (λ x. Braces x a' g' z') (sym e) b)))

pub NoBraces-search_braces : (p : String) → NoBraces p → search_braces p ≡ none
NoBraces-search_braces p n = elim (Option-cases (search_braces p)) [
  | inl gone ↦ gone
  | inr ((a, g, z), found) ↦ absurd (n a g z (search_braces-Braces p (a, g, z) found))
]
