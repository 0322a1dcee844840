-- ===== src/Policy/Tests.antt =====
-- The theorems on apps/policy at concrete inputs.
use decisionos.Common.{◌≡◌, ◌↔◌, true, none}
use decisionos.Policy.Pep.{enforce, require}
use decisionos.Policy.Pep.Grants.{Granted, enforce_iff}

enforce_iff_example :
    ((enforce "judge:*, ops:read" "judge:run" ≡ true) ↔ Granted "judge:*, ops:read" "judge:run")
    × ((require "judge:*, ops:read" "judge:run" ≡ none) ↔ Granted "judge:*, ops:read" "judge:run")
enforce_iff_example = enforce_iff "judge:*, ops:read" "judge:run"
