-- ===== src/Lineage/Walk.antt =====
-- apps/lineage/graph.py, `_bfs`: what one round does, and that the rounds end.
use decisionos.Common.{
  ℕ, zero, suc, ◌+◌, ◌≤◌, ◌≡◌, refl, inl, inr, ◌⊎◌, ◌↔◌, String, true, false, Option, some, List,
  [], ◌∷◌, ◌++◌, arith, length, length-append, contains, eq_iff, str_eq, Bool-cases, List-cases,
  if◌then◌else◌,
}
use decisionos.Common.Dict.{lookup}
use decisionos.Lineage.{Adjacency, Search, neighbors, offer, scan, loop, targets, start_at, bfs}

pub contains_append :
    (k : String) (a b : List String)
    → (contains k (a ++ b) ≡ true) ↔ ((contains k a ≡ true) ⊎ (contains k b ≡ true))
contains_append k [] b = (λ h. inr h, λ h. ground arith)
contains_append k (x ∷ a) b = ground (arith, contains_append k a b)

-- The targets that were not visited yet, as often as they are listed.
abbrev unseen : List String → List String → ℕ
unseen vs [] = 0
unseen vs (n ∷ ns) = if contains n vs then unseen vs ns else suc (unseen vs ns)

unseen-cons : (n : String) (vs ns : List String) → unseen (n ∷ vs) ns ≤ unseen vs ns
unseen-cons n vs [] = omega arith
unseen-cons n vs (m ∷ ns) = ground (arith, unseen-cons n vs ns)

unseen_falls :
    (n : String) (vs ns : List String)
    → contains n ns ≡ true
    → contains n vs ≡ false
    → suc (unseen (n ∷ vs) ns) ≤ unseen vs ns
unseen_falls n vs [] h k = ground arith
unseen_falls n vs (m ∷ ns) h k =
    ground (arith, unseen_falls n vs ns, unseen-cons n vs ns, eq_iff m n, eq_iff n m)

unseen-le : (vs ns : List String) → unseen vs ns ≤ length ns
unseen-le vs [] = omega arith
unseen-le vs (n ∷ ns) = ground (arith, unseen-le vs ns)

pub neighbors-cons :
    (j u : String) (l : List String) (adj : Adjacency)
    → neighbors ((j, l) ∷ adj) u ≡ (if str_eq j u then l else neighbors adj u)
unfolding neighbors lookup
neighbors-cons j u l adj = ground arith

pub neighbors-nil : (u : String) → neighbors [] u ≡ []
unfolding neighbors lookup
neighbors-nil u = refl

-- The neighbours of a node are targets.
neighbors-targets :
    (adj : Adjacency) (u n : String)
    → contains n (neighbors adj u) ≡ true
    → contains n (targets adj) ≡ true
neighbors-targets [] u n h = cc (h, neighbors-nil u)
neighbors-targets ((j, l) ∷ adj) u n h =
    ground (
      arith,
      neighbors-cons j u l adj,
      contains_append n l (targets adj),
      neighbors-targets adj u n,
    )

-- A round that does not return from the search leaves at most as much to do.
abbrev work : List String → Search → ℕ
work ts s = unseen s.visited ts + length s.queue

scan-work :
    (limit : Option ℕ) (ts ns : List String) (s : Search)
    → ((n : String) → contains n ns ≡ true → contains n ts ≡ true)
    → work ts (scan limit ns s).1 ≤ work ts s
unfolding scan
scan-work limit ts [] s sub = omega arith
scan-work limit ts (n ∷ ns) s sub =
    let rest = λ (m : String) (h : contains m ns ≡ true). sub m (ground arith) in
    let here = sub n (ground (arith, eq_iff n n)) in
    ground (
      arith,
      scan-work limit ts ns s rest,
      scan-work limit ts ns (offer n s) rest,
      unseen_falls n s.visited ts here,
      length-append s.queue (n ∷ []),
    )

loop_ends :
    (adj : Adjacency) (limit : Option ℕ) (fuel : ℕ) (s : Search)
    → work (targets adj) s ≤ fuel
    → (r : List String) × (loop fuel adj limit s ≡ some r)
unfolding loop
loop_ends adj limit zero s h = elim (List-cases s.queue) [
  | inl e ↦ (s.result, ground arith)
  | inr (u, rest, e) ↦ absurd (ground arith)
]
loop_ends adj limit (suc fuel) s h = elim (List-cases s.queue) [
  | inl e ↦ (s.result, ground arith)
  | inr (u, rest, e) ↦
      let s' = record s { queue = rest } in
      let falls =
        scan-work limit (targets adj) (neighbors adj u) s' (λ n. neighbors-targets adj u n) in
      let (t, ends) =
        loop_ends adj limit fuel (scan limit (neighbors adj u) s').1 (ground (arith, falls)) in
      elim (Bool-cases (scan limit (neighbors adj u) s').0) [
        | inl e' ↦ ((scan limit (neighbors adj u) s').1.result, ground arith)
        | inr e' ↦ (t, ground arith)
      ]
]

-- The search returns a list of names on every graph, from every node, with and without a limit:
-- its queue runs empty within as many rounds as the sets have items, and one more.
pub bfs_terminates :
    (node : String) (adj : Adjacency) (limit : Option ℕ)
    → (r : List String) × (bfs node adj limit ≡ some r)
unfolding bfs
bfs_terminates node adj limit =
    loop_ends adj limit (suc (length (targets adj))) (start_at node)
      (ground (arith, unseen-le [] (targets adj)))
