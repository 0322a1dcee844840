-- ===== src/Rollout/StageFile/Stripped.antt =====
-- apps/experiment/stage_file.py: what `strip` gives back of the text that a write leaves.
use Prim.Native.Char.{Char, code}
use Prim.Native.String.{String, [], ◌∷◌, ◌++◌}
use text.Mathlib.TextLemmas.{cons-append}
use decisionos.Common.{
  ◌≡◌, refl, sym, ap, ◌∙◌, false, arith, str_eq, ◌&&◌, if◌then◌else◌, Bool-cases, inl, inr,
}
use mathlib.Core.Path.{subst}
use decisionos.Common.Text.{is_space, lstrip, rstrip, strip}

-- The text has no white space at its head.
abbrev NoSpace : String → Type 0
NoSpace [] = Unit
NoSpace (c ∷ s) = is_space (code c) ≡ false

lstrip-NoSpace : (s : String) → NoSpace (lstrip s)
unfolding lstrip
lstrip-NoSpace [] = tt
lstrip-NoSpace (c ∷ s) = elim (Bool-cases (is_space (code c))) [
  | inl e ↦ subst NoSpace (ground arith) (lstrip-NoSpace s)
  | inr e ↦ let same : c ∷ s ≡ lstrip (c ∷ s) = ground arith in subst NoSpace same e
]

-- A character before a text that has no white space at its end.
abbrev tidy : Char → String → String
tidy c s = if str_eq s "" && is_space (code c) then [] else c ∷ s

rstrip_newline : (s : String) → rstrip (s ++ "\n") ≡ rstrip s
unfolding rstrip
rstrip_newline [] = refl
rstrip_newline (c ∷ s) = rw (cons-append c s "\n") (ap (tidy c) (rstrip_newline s))

rstrip_again : (s : String) → rstrip (rstrip s) ≡ rstrip s
unfolding rstrip
rstrip_again [] = refl
rstrip_again (c ∷ s) = elim (Bool-cases (str_eq (rstrip s) "" && is_space (code c))) [
  | inl e ↦ rw e refl
  | inr e ↦ rw e (ap (tidy c) (rstrip_again s) ∙ rw e refl)
]

-- A first character that is no white space stays.
rstrip-keeps : (c : Char) (s : String) → is_space (code c) ≡ false → rstrip (c ∷ s) ≡ c ∷ rstrip s
unfolding rstrip
rstrip-keeps c s h = elim (Bool-cases (str_eq (rstrip s) "")) [
  | inl e ↦ rw e (rw h refl)
  | inr e ↦ rw e refl
]

lstrip-keeps : (c : Char) (s : String) → is_space (code c) ≡ false → lstrip (c ∷ s) ≡ c ∷ s
unfolding lstrip
lstrip-keeps c s h = rw h refl

stripped_empty : rstrip (lstrip (rstrip "" ++ "\n")) ≡ rstrip ""
unfolding rstrip lstrip
stripped_empty = refl

stripped_line : (s : String) → NoSpace s → rstrip (lstrip (rstrip s ++ "\n")) ≡ rstrip s
stripped_line [] h = stripped_empty
stripped_line (c ∷ s) h = rw (rstrip-keeps c s h) (
    ap (λ t. rstrip (lstrip t)) (cons-append c (rstrip s) "\n")
    ∙ ap rstrip (lstrip-keeps c (rstrip s ++ "\n") h)
    ∙ ap rstrip (sym (cons-append c (rstrip s) "\n"))
    ∙ rstrip_newline (c ∷ rstrip s)
    ∙ rstrip-keeps c (rstrip s) h
    ∙ ap (λ t. c ∷ t) (rstrip_again s))

-- A line whose text was stripped is stripped to that text.
pub strip_line : (s : String) → strip (strip s ++ "\n") ≡ strip s
unfolding strip
strip_line s = stripped_line (lstrip s) (lstrip-NoSpace s)
