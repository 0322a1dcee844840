-- ===== src/Lineage.antt =====
-- apps/lineage/graph.py: the lineage graph and its breadth-first searches. A set of names is the
-- list of its items in some order, and the queue, the visited set and the result are those of `_bfs`.
pub mod Walk
pub mod Reach
pub mod Mirror
mod Tests
use decisionos.Common.{
  ℕ, zero, suc, String, Bool, true, false, ◌&&◌, Option, none, some, List, [], ◌∷◌, ◌++◌, map, leb,
  length, contains, str_eq, is_some, if◌then◌else◌,
}
use decisionos.Common.Dict.{Dict, lookup, insert}

-- Adjacency: `Dict[str, Set[str]]`.
abbrev pub Adjacency : Type 0
Adjacency = Dict (List String)

-- `adjacency.get(node, set())`
unfoldable pub neighbors : Adjacency → String → List String
unfolding lookup
neighbors adj u = elim (lookup u adj) [ none ↦ [] | some l ↦ l ]

-- `adjacency[node].add(name)` on a `defaultdict(set)`
unfoldable pub add : String → String → Adjacency → Adjacency
unfolding insert neighbors
add u n adj = let l = neighbors adj u in insert u (if contains n l then l else l ++ n ∷ []) adj

-- The state of the search.
pub record Search : Type 0 where
  pub visited : List String
  pub queue : List String
  pub result : List String

abbrev pub offer : String → Search → Search
offer n s = record {
  visited = n ∷ s.visited;
  queue = s.queue ++ n ∷ [];
  result = s.result ++ n ∷ [];
}

-- `limit is not None and len(result) >= limit`
abbrev pub full : Option ℕ → List String → Bool
full none result = false
full (some k) result = leb k (length result)

-- The inner loop over the neighbours; true if it returned from the search.
unfoldable pub scan : Option ℕ → List String → Search → Bool × Search
scan limit [] s = (false, s)
scan limit (n ∷ ns) s = elim (contains n s.visited) [
  | true ↦ scan limit ns s
  | false ↦ elim (full limit (offer n s).result) [
    | true ↦ (true, offer n s)
    | false ↦ scan limit ns (offer n s)
  ]
]

-- The outer loop, on fuel.
unfoldable pub loop : ℕ → Adjacency → Option ℕ → Search → Option (List String)
loop zero adj limit s = elim s.queue [ [] ↦ some s.result | _ ∷ _ ↦ none ]
loop (suc fuel) adj limit s = elim s.queue [
  | [] ↦ some s.result
  | current ∷ rest ↦
      let (stop, t) = scan limit (neighbors adj current) (record s { queue = rest }) in
      elim stop [ true ↦ some t.result | false ↦ loop fuel adj limit t ]
]

-- All the items of the sets, the bound on the rounds.
abbrev pub targets : Adjacency → List String
targets [] = []
targets ((u, l) ∷ adj) = l ++ targets adj

abbrev pub start_at : String → Search
start_at node = record { visited = []; queue = node ∷ []; result = [] }

-- `_bfs`
unfoldable pub bfs : String → Adjacency → Option ℕ → Option (List String)
unfolding loop
bfs node adj limit = loop (suc (length (targets adj))) adj limit (start_at node)

abbrev pub Meta : Type 0 → Type 0
Meta V = List ((String × String) × Dict V)

pub record LineageGraph (V : Type 0) : Type 0 where
  pub down : Adjacency
  pub up : Adjacency
  pub meta : Meta V

pub record Edge (V : Type 0) : Type 0 where
  pub source : String
  pub target : String
  pub info : Dict V

abbrev same : String → String → String × String → Bool
same u d (a, b) = str_eq a u && str_eq b d

module _ {V : Type 0} where
  abbrev is_empty : Dict V → Bool
  is_empty [] = true
  is_empty (_ ∷ _) = false

  unfoldable pub set_meta : String → String → Dict V → Meta V → Meta V
  set_meta u d m [] = ((u, d), m) ∷ []
  set_meta u d m ((k, v) ∷ l) = if same u d k then (k, m) ∷ l else (k, v) ∷ set_meta u d m l

  unfoldable pub get_meta : String → String → Meta V → Dict V
  get_meta u d [] = []
  get_meta u d ((k, v) ∷ l) = if same u d k then v else get_meta u d l

  abbrev pub empty : LineageGraph V
  empty = record { down = []; up = []; meta = [] }

  -- `meta` is `[]` for `None`, which is as false as the empty dictionary.
  unfoldable pub add_edge : String → String → Dict V → LineageGraph V → LineageGraph V
  unfolding add set_meta
  add_edge u d m g = record {
    down = add u d g.down;
    up = add d u g.up;
    meta = if is_empty m then g.meta else set_meta u d m g.meta;
  }

  unfoldable pub edges_of : LineageGraph V → Adjacency → List (Edge V)
  unfolding get_meta
  edges_of g [] = []
  edges_of g ((u, l) ∷ adj) =
      map (λ d. record { source = u; target = d; info = get_meta u d g.meta }) l ++ edges_of g adj

  unfoldable pub edges : LineageGraph V → List (Edge V)
  unfolding edges_of
  edges g = edges_of g g.down

  unfoldable pub downstream : LineageGraph V → String → Option ℕ → Option (List String)
  downstream g node limit = bfs node g.down limit

  unfoldable pub upstream : LineageGraph V → String → Option ℕ → Option (List String)
  upstream g node limit = bfs node g.up limit

  unfoldable pub impact : LineageGraph V → String → Option ℕ → Option (List String)
  unfolding downstream
  impact g node limit = downstream g node limit
