-- ===== src/Lineage/Tests.antt =====
-- Runs of apps/lineage/graph.py, and its theorems at concrete graphs.
use decisionos.Common.{◌≡◌, ◌↔◌, refl, String, true, ℕ, none, some, List, [], ◌∷◌, contains}
use decisionos.Lineage.{LineageGraph, edges, downstream, upstream, impact, bfs, scan, neighbors}
use decisionos.Lineage.Walk.{bfs_terminates}
use decisionos.Lineage.Reach.{Reach, downstream_iff}
use decisionos.Lineage.Mirror.{build, upstream_iff_downstream}
use decisionos.Common.Dict.{Dict}

-- raw → clean → model → clean, model → report
abbrev sample_edges : List (String × String × Dict ℕ)
sample_edges =
    ("raw", "clean", ("rows", 9) ∷ [])
    ∷ ("clean", "model", [])
    ∷ ("model", "clean", [])
    ∷ ("model", "report", [])
    ∷ []

abbrev sample : LineageGraph ℕ
sample = record {
  down = ("model", "report" ∷ "clean" ∷ []) ∷ ("clean", "model" ∷ []) ∷ ("raw", "clean" ∷ []) ∷ [];
  up = ("report", "model" ∷ []) ∷ ("clean", "model" ∷ "raw" ∷ []) ∷ ("model", "clean" ∷ []) ∷ [];
  meta = (("raw", "clean"), ("rows", 9) ∷ []) ∷ [];
}

built : build sample_edges ≡ sample
unfolding build
built = refl

edges_listed :
    edges sample
    ≡ record { source = "model"; target = "report"; info = [] }
      ∷ record { source = "model"; target = "clean"; info = [] }
      ∷ record { source = "clean"; target = "model"; info = [] }
      ∷ record { source = "raw"; target = "clean"; info = ("rows", 9) ∷ [] }
      ∷ []
unfolding edges
edges_listed = refl

downstream_found : downstream sample "raw" none ≡ some ("clean" ∷ "model" ∷ "report" ∷ [])
unfolding downstream bfs scan neighbors
downstream_found = refl

on_a_cycle : impact sample "clean" none ≡ some ("model" ∷ "report" ∷ "clean" ∷ [])
unfolding impact bfs scan neighbors
on_a_cycle = refl

limited : downstream sample "raw" (some 2) ≡ some ("clean" ∷ "model" ∷ [])
unfolding downstream bfs scan neighbors
limited = refl

bfs_terminates_example : (r : List String) × (bfs "model" sample.up (some 2) ≡ some r)
bfs_terminates_example = bfs_terminates "model" sample.up (some 2)

downstream_iff_example :
    (r : List String) × (downstream sample "raw" none ≡ some r)
    × ((x : String) → (contains x r ≡ true) ↔ Reach sample.down "raw" x)
downstream_iff_example = downstream_iff sample "raw"

upstream_iff_downstream_example :
    (r : List String) × (upstream (build sample_edges) "report" none ≡ some r)
    × (r' : List String) × (downstream (build sample_edges) "raw" none ≡ some r')
    × ((contains "raw" r ≡ true) ↔ (contains "report" r' ≡ true))
upstream_iff_downstream_example = upstream_iff_downstream sample_edges "report" "raw"
