-- ===== src/Lineage/Mirror.antt =====
-- apps/lineage/graph.py: `add_edge` keeps the two adjacencies mirror images, so that the searches in
-- the two directions agree.
use decisionos.Common.{
  ◌≡◌, sym, ◌∙◌, ◌↔◌, String, true, ◌&&◌, none, some, List, [], ◌∷◌, ◌++◌, arith, contains, eq_iff,
  str_eq, Bool-cases, if◌then◌else◌,
}
use decisionos.Common.Dict.{Dict, insert, lookup-insert}
use decisionos.Lineage.{
  Adjacency, neighbors, add, LineageGraph, empty, add_edge, downstream, upstream,
}
use decisionos.Lineage.Walk.{contains_append, neighbors-nil}
use decisionos.Lineage.Reach.{Reach, edge, step, bfs_iff, contains_same, contains-neighbors}

-- What a set holds once a name is added.
contains_added :
    (n x : String) (l : List String)
    → contains x (if contains n l then l else l ++ n ∷ [])
      ≡ (if str_eq n x then true else contains x l)
contains_added n x l = ground (
  arith,
  contains_append x l (n ∷ []),
  Bool-cases (contains x l),
  Bool-cases (contains x (l ++ n ∷ [])),
  eq_iff n x,
  eq_iff x n,
  contains_same x n l,
)

-- The nodes after `add`: only the set of `u` is another one.
neighbors-insert :
    (u v : String) (l : List String) (adj : Adjacency)
    → neighbors (insert u l adj) v ≡ (if str_eq u v then l else neighbors adj v)
unfolding neighbors
neighbors-insert u v l adj = ground (arith, lookup-insert u v l adj)

neighbors-add :
    (u n v x : String) (adj : Adjacency)
    → contains x (neighbors (add u n adj) v)
      ≡ (if str_eq u v && str_eq n x then true else contains x (neighbors adj v))
unfolding add
neighbors-add u n v x adj =
    let l = neighbors adj u in
    let l' = if contains n l then l else l ++ n ∷ [] in
    ground (
      arith,
      neighbors-insert u v l' adj,
      contains_added n x l,
      eq_iff u v,
      contains-neighbors adj u v x,
    )

module _ {V : Type 0} where
  -- The edges of the one direction are those of the other, turned round.
  abbrev pub Mirrored : LineageGraph V → Type 0
  Mirrored g = (u d : String) → contains d (neighbors g.down u) ≡ contains u (neighbors g.up d)

  pub add_edge-Mirrored :
      (u d : String) (m : Dict V) (g : LineageGraph V) → Mirrored g → Mirrored (add_edge u d m g)
  unfolding add_edge
  add_edge-Mirrored u d m g h v x =
      ground (arith, neighbors-add u d v x g.down, neighbors-add d u x v g.up, h v x)

  -- A graph that calls of `add_edge` make.
  unfoldable pub build : List (String × String × Dict V) → LineageGraph V
  unfolding add_edge
  build [] = empty
  build ((u, d, m) ∷ es) = add_edge u d m (build es)

  build-Mirrored : (es : List (String × String × Dict V)) → Mirrored (build es)
  unfolding build
  build-Mirrored [] u d = ground (arith, neighbors-nil u, neighbors-nil d)
  build-Mirrored ((u, d, m) ∷ es) v x = add_edge-Mirrored u d m (build es) (build-Mirrored es) v x

before :
    (adj : Adjacency) (s m n : String)
    → contains m (neighbors adj s) ≡ true
    → Reach adj m n
    → Reach adj s n
before adj s m n h (edge k) = step (edge h) k
before adj s m n h (step {m = j} p k) = step (before adj s m j h p) k

turned :
    (a b : Adjacency) (s n : String)
    → ((u d : String) → contains d (neighbors a u) ≡ contains u (neighbors b d))
    → Reach a s n
    → Reach b n s
turned a b s n h (edge k) = edge (sym (h s n) ∙ k)
turned a b s n h (step {m = m} p k) = before b n m s (sym (h m n) ∙ k) (turned a b s m h p)

-- In a graph that `add_edge` made, a name is upstream of a node exactly if the node is downstream of
-- the name; both searches return.
pub upstream_iff_downstream :
    {V : Type 0} (es : List (String × String × Dict V)) (x y : String)
    → (r : List String) × (upstream (build es) x none ≡ some r)
      × (r' : List String) × (downstream (build es) y none ≡ some r')
      × ((contains y r ≡ true) ↔ (contains x r' ≡ true))
unfolding upstream downstream
upstream_iff_downstream es x y =
    let g = build es in
    let m = build-Mirrored es in
    let (r, e, up) = bfs_iff g.up x in
    let (r', e', down) = bfs_iff g.down y in
    (
      r,
      e,
      r',
      e',
      (
        λ h. (down x).1 (turned g.up g.down x y (λ u d. sym (m d u)) ((up y).0 h)),
        λ h. (up y).1 (turned g.down g.up y x m ((down x).0 h)),
      ),
    )
