-- ===== src/Lineage/Reach.antt =====
-- apps/lineage/graph.py, `_bfs`: the names that it finds are those that a path of edges leads to.
use decisionos.Common.{
  List-cases, ℕ, zero, suc, ◌≡◌, ◌≢◌, refl, sym, ◌∙◌, inl, inr, ◌⊎◌, ◌↔◌, String, Bool, true, false,
  Option, none, some, List, [], ◌∷◌, ◌++◌, arith, ap, length, length-append, contains, eq_iff,
  Bool-cases,
}
use mathlib.Core.Path.{subst}
use decisionos.Lineage.{
  Adjacency, Search, neighbors, offer, full, scan, loop, targets, start_at, bfs, LineageGraph,
  downstream,
}
use decisionos.Lineage.Walk.{contains_append, bfs_terminates}

-- A path of one or more edges from the start.
pub data Reach (adj : Adjacency) (start : String) : String → Type 0 where
  edge : {n : String} → contains n (neighbors adj start) ≡ true → Reach adj start n
  step :
      {m n : String} → Reach adj start m → contains n (neighbors adj m) ≡ true → Reach adj start n

-- What the inner loop over `ns` from `s` visits and what it queues, for its outcome `o`.
record Scanned (ns : List String) (s : Search) (x : String) (o : Bool × Search) : Type 0 where
  found : contains x o.1.visited ≡ true → (contains x s.visited ≡ true) ⊎ (contains x ns ≡ true)
  kept : contains x s.visited ≡ true → contains x o.1.visited ≡ true
  all : o.0 ≡ false → contains x ns ≡ true → contains x o.1.visited ≡ true
  new : contains x o.1.queue ≡ true → (contains x s.queue ≡ true) ⊎ (contains x o.1.visited ≡ true)
  waiting : contains x s.queue ≡ true → contains x o.1.queue ≡ true
  fresh : contains x o.1.visited ≡ true → contains x s.visited ≡ false → contains x o.1.queue ≡ true
  shown :
      contains x s.result ≡ contains x s.visited → contains x o.1.result ≡ contains x o.1.visited

pub contains_same : (n x : String) (l : List String) → n ≡ x → contains n l ≡ contains x l
contains_same n x l e = ap (λ k. contains k l) e

Scanned-skip :
    (n : String) (ns : List String) (s : Search) (x : String) (o : Bool × Search)
    → contains n s.visited ≡ true
    → Scanned ns s x o
    → Scanned (n ∷ ns) s x o
Scanned-skip n ns s x o e h = ground (arith, eq_iff x n, contains_same x n s.visited)

Scanned-offer :
    (n : String) (ns : List String) (s : Search) (x : String) (o : Bool × Search)
    → contains n s.visited ≡ false
    → Scanned ns (offer n s) x o
    → Scanned (n ∷ ns) s x o
Scanned-offer n ns s x o e h = ground (
  arith,
  eq_iff n x,
  contains_append x s.queue (n ∷ []),
  contains_append x s.result (n ∷ []),
  Bool-cases (contains x s.result),
  Bool-cases (contains x (s.result ++ n ∷ [])),
)

Scanned-nil :
    (s : Search) (x : String) (b : Bool) (ns : List String)
    → (b ≡ false → contains x ns ≡ true → contains x s.visited ≡ true)
    → Scanned ns s x (b, s)
Scanned-nil s x b ns h = ground arith

scan-Scanned :
    (limit : Option ℕ) (ns : List String) (s : Search) (x : String)
    → Scanned ns s x (scan limit ns s)
unfolding scan
scan-Scanned limit [] s x = Scanned-nil s x false [] (λ e h. ground arith)
scan-Scanned limit (n ∷ ns) s x = elim (Bool-cases (contains n s.visited)) [
  | inl e ↦
      subst (Scanned (n ∷ ns) s x) (ground arith)
        (Scanned-skip n ns s x (scan limit ns s) e (scan-Scanned limit ns s x))
  | inr e ↦ elim (Bool-cases (full limit (offer n s).result)) [
    | inl f ↦
        subst (Scanned (n ∷ ns) s x) (ground arith) (
          Scanned-offer n ns s x (true, offer n s) e
            (Scanned-nil (offer n s) x true ns (λ b h. cc)))
    | inr f ↦
        subst (Scanned (n ∷ ns) s x) (ground arith) (
          Scanned-offer n ns s x (scan limit ns (offer n s)) e
            (scan-Scanned limit ns (offer n s) x))
  ]
]

record Inv (adj : Adjacency) (start : String) (s : Search) : Type 0 where
  sound : (x : String) → contains x s.visited ≡ true → Reach adj start x
  queued : (x : String) → contains x s.queue ≡ true → (x ≡ start) ⊎ (contains x s.visited ≡ true)
  shown : (x : String) → contains x s.result ≡ contains x s.visited

-- The neighbours of what was taken from the queue are visited.
abbrev Closed : Adjacency → String → Search → Type 0
Closed adj start s =
    (u x : String)
    → (u ≡ start) ⊎ (contains u s.visited ≡ true)
    → contains x (neighbors adj u) ≡ true
    → (contains u s.queue ≡ true) ⊎ (contains x s.visited ≡ true)

-- A limit is met exactly.
abbrev pub Met : Option ℕ → List String → Type 0
Met limit r = (k : ℕ) × (limit ≡ some k) × (length r ≡ k)

full-Met :
    (limit : Option ℕ) (n : String) (s : Search)
    → full limit s.result ≡ false
    → full limit (offer n s).result ≡ true
    → Met limit (offer n s).result
full-Met none n s h f = cc
full-Met (some k) n s h f = (k, refl, ground (arith, length-append s.result (n ∷ [])))

pub contains-neighbors :
    (adj : Adjacency) (v u x : String)
    → v ≡ u
    → contains x (neighbors adj v) ≡ contains x (neighbors adj u)
contains-neighbors adj v u x e = ap (λ w. contains x (neighbors adj w)) e

module _ (adj : Adjacency) (start : String) (limit : Option ℕ) where
  abbrev round : String → List String → Search → Bool × Search
  round u rest s = scan limit (neighbors adj u) (record s { queue = rest })

  from_queued :
      (u x : String) (vs : List String)
      → ((y : String) → contains y vs ≡ true → Reach adj start y)
      → (u ≡ start) ⊎ (contains u vs ≡ true)
      → contains x (neighbors adj u) ≡ true
      → Reach adj start x
  from_queued u x vs sound (inl e) h = edge (subst (λ v. contains x (neighbors adj v) ≡ true) e h)
  from_queued u x vs sound (inr m) h = step (sound u m) h

  Inv-round :
      (s : Search) (u : String) (rest : List String)
      → s.queue ≡ u ∷ rest
      → Inv adj start s
      → Inv adj start (round u rest s).1
  Inv-round s u rest e i =
      let scanned =
        λ (x : String). scan-Scanned limit (neighbors adj u) (record s { queue = rest }) x in
      let head = i.queued u (ground (arith, eq_iff u u)) in
      record {
        sound = λ x h. elim ((scanned x).found h) [
          | inl k ↦ i.sound x k
          | inr k ↦ from_queued u x s.visited i.sound head k
        ];
        queued = λ x h. ground (arith, (scanned x).new h, i.queued x, (scanned x).kept);
        shown = λ x. (scanned x).shown (i.shown x);
      }

  Closed-round :
      (s : Search) (u : String) (rest : List String)
      → s.queue ≡ u ∷ rest
      → (round u rest s).0 ≡ false
      → Closed adj start s
      → Closed adj start (round u rest s).1
  Closed-round s u rest e go c v x old h =
      let scanned =
        λ (y : String). scan-Scanned limit (neighbors adj u) (record s { queue = rest }) y in
      ground (arith, scanned x, scanned v, c v x, eq_iff v u, contains-neighbors adj v u x)

  abbrev ScanMet : Bool × Search → Type 0
  ScanMet o = (o.0 ≡ true → Met limit o.1.result) × (o.0 ≡ false → full limit o.1.result ≡ false)

  scan-ScanMet :
      (ns : List String) (s : Search) → full limit s.result ≡ false → ScanMet (scan limit ns s)
  unfolding scan
  scan-ScanMet [] s h = (λ e. cc, λ e. h)
  scan-ScanMet (n ∷ ns) s h = elim (Bool-cases (contains n s.visited)) [
    | inl e ↦
        let eq : scan limit ns s ≡ scan limit (n ∷ ns) s = ground arith in
        subst ScanMet eq (scan-ScanMet ns s h)
    | inr e ↦ elim (Bool-cases (full limit (offer n s).result)) [
      | inl f ↦
          let e : (true, offer n s) ≡ scan limit (n ∷ ns) s = ground arith in
          subst ScanMet e (λ k. full-Met limit n s h f, λ k. cc)
      | inr f ↦
          let eq : scan limit ns (offer n s) ≡ scan limit (n ∷ ns) s = ground arith in
          subst ScanMet eq (scan-ScanMet ns (offer n s) f)
    ]
  ]

  complete :
      (s : Search)
      → s.queue ≡ []
      → Closed adj start s
      → {x : String} → Reach adj start x
      → contains x s.visited ≡ true
  complete s e c (edge {n} h) = ground (arith, c start n (inl refl) h)
  complete s e c (step {m} {n} p h) = ground (arith, c m n (inr (complete s e c p)) h)

  -- What the search returns.
  abbrev pub Answer : List String → Type 0
  Answer r =
      ((x : String) → contains x r ≡ true → Reach adj start x)
      × (Met limit r
          ⊎ (full limit r ≡ false) × ((x : String) → Reach adj start x → contains x r ≡ true))

  result-Reach :
      (s : Search) → Inv adj start s → (x : String) → contains x s.result ≡ true → Reach adj start x
  result-Reach s i x h = i.sound x (sym (i.shown x) ∙ h)

  loop-Answer :
      (fuel : ℕ) (s : Search) (r : List String)
      → Inv adj start s
      → Closed adj start s
      → full limit s.result ≡ false
      → loop fuel adj limit s ≡ some r
      → Answer r
  unfolding loop
  loop-Answer zero s r i c f h = elim (List-cases s.queue) [
    | inl e ↦
        subst Answer (ground arith) (result-Reach s i, inr (f, λ x p. i.shown x ∙ complete s e c p))
    | inr (u, rest, e) ↦ absurd (ground arith)
  ]
  loop-Answer (suc fuel) s r i c f h = elim (List-cases s.queue) [
    | inl e ↦
        subst Answer (ground arith) (result-Reach s i, inr (f, λ x p. i.shown x ∙ complete s e c p))
    | inr (u, rest, e) ↦
        let o = round u rest s in
        let next = Inv-round s u rest e i in
        let met = scan-ScanMet (neighbors adj u) (record s { queue = rest }) f in
        elim (Bool-cases o.0) [
          | inl stop ↦
              let e : o.1.result ≡ r = ground arith in
              subst Answer e (result-Reach o.1 next, inl (met.0 stop))
          | inr go ↦
              loop-Answer fuel o.1 r next (Closed-round s u rest e go c) (met.1 go) (ground arith)
        ]
  ]

not_full : (limit : Option ℕ) → limit ≢ some 0 → full limit [] ≡ false
not_full none h = refl
not_full (some zero) h = absurd (h refl)
not_full (some (suc k)) h = ground arith

-- The search from a node with no limit, or with one above 0, returns only names that a path of edges
-- leads to from the node; and either it returns exactly as many names as the limit allows, or it
-- returns fewer, and all that a path leads to.
pub bfs-Answer :
    (adj : Adjacency) (start : String) (limit : Option ℕ) (r : List String)
    → limit ≢ some 0
    → bfs start adj limit ≡ some r
    → Answer adj start limit r
unfolding bfs
bfs-Answer adj start limit r h e =
    loop-Answer adj start limit (suc (length (targets adj))) (start_at start) r
      (record {
        sound = λ x k. cc;
        queued = λ x k. inl ((eq_iff x start).0 (ground arith));
        shown = λ x. refl;
      })
      (λ u x old k. inl (ground (arith, old, eq_iff u start))) (not_full limit h) e

pub bfs_iff :
    (adj : Adjacency) (node : String)
    → (r : List String) × (bfs node adj none ≡ some r)
      × ((x : String) → (contains x r ≡ true) ↔ Reach adj node x)
bfs_iff adj node =
    let (r, e) = bfs_terminates node adj none in
    let (sound, all) = bfs-Answer adj node none r (λ k. cc) e in
    (
      r,
      e,
      λ x.
          (sound x, λ p. elim all [ inl (k, e', _) ↦ absurd (cc e') | inr (_, found) ↦ found x p ]),
    )

-- `downstream` returns, on every graph and from every node, exactly the names that a path of one or
-- more edges leads to.
pub downstream_iff :
    {V : Type 0} (g : LineageGraph V) (node : String)
    → (r : List String) × (downstream g node none ≡ some r)
      × ((x : String) → (contains x r ≡ true) ↔ Reach g.down node x)
unfolding downstream
downstream_iff g node = bfs_iff g.down node
