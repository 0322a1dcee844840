-- ===== src/Change/Globs/Matches.antt =====
-- What `match_glob` of scripts/ci/check_multisig.py matches: the expansions of a pattern.
use Prim.Native.String.{◌++◌}
use decisionos.Common.{◌≡◌, String, Bool, true, Among}
use decisionos.Common.Text.{split, replace}
use decisionos.Change.Globs.Braces.{FirstBraces, NoBraces}
use decisionos.Change.Globs.Regex.{regex}

-- A pattern without braces is its only expansion; one with braces has those of the patterns that have one
-- of the alternatives in the place of the first braces, by way of the text EXT.
pub data Expands : String → String → Type 0 where
  plain : {p : String} → NoBraces p → Expands p p
  chosen :
      {p q : String} (a g z ext : String)
      → FirstBraces p a g z
      → Among ext (split 44 g)
      → Expands (replace "EXT" ext (a ++ ("EXT" ++ z))) q
      → Expands p q

module _ (fullmatch : String → String → Bool) (filename : String) where
  -- The regular expression of some expansion matches.
  abbrev pub Matches : String → Type 0
  Matches p = (q : String) × Expands p q × (fullmatch (regex q) filename ≡ true)
