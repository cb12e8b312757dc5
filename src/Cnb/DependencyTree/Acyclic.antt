-- ===== src/Cnb/DependencyTree/Acyclic.antt =====
-- dependency_tree.go: where the recursion over the references ends, and what it returns.
use kpack.Prelude.Outcome.{Outcome, returns, for_each, >>=-returns, for_each-In, for_each-total}
use kpack.Prelude.{
  ℕ, zero, suc, ◌<◌, ◌≡◌, ◌≢◌, refl, String, Bool, not, List, [], ◌∷◌, map, Option, some, arith,
  All, In, select, inl, inr, Option-cases, Bool-cases, eq_refl, eq_iff, ◌==◌, subst,
}
use kpack.Cnb.Resources.{BuildpackStatus, order_refs}
use kpack.Cnb.DependencyTree.{
  Node, node, Children, leaf, child, children_of, lookup, used, unused_buildpacks, make_tree,
  new_tree,
}

abbrev pub Find : Type 0
Find = String → Option BuildpackStatus

-- The ids that a buildpack's order names.
abbrev pub dependencies : BuildpackStatus → List String
dependencies b = map (λ r. r.id) (order_refs b.order)

-- The tree of an id: the buildpack that the map has for it, over the trees of its dependencies.
abbrev mutual
  pub IsTree : Find → String → Node → Type 0
  IsTree find id (node b children) = (find id ≡ some b) × AreTrees find (dependencies b) children

  pub AreTrees : Find → List String → Children → Type 0
  AreTrees find [] leaf = Unit
  AreTrees find (id ∷ ids) (child t ts) = IsTree find id t × AreTrees find ids ts
  AreTrees find [] (child t ts) = ⊥
  AreTrees find (id ∷ ids) leaf = ⊥

-- Every dependency is in the map, and `rank` puts it below what depends on it.
abbrev pub IsRanked : (String → ℕ) → Find → Type 0
IsRanked rank find =
    (id : String) (b : BuildpackStatus)
    → find id ≡ some b
    → All (λ d. (rank d < rank id) × ((c : BuildpackStatus) × (find d ≡ some c))) (dependencies b)

module _ (find : Find) where
  for_each-AreTrees :
      (f : String → Outcome Node) (ids : List String) (ts : List Node)
      → ((id : String) (t : Node) → f id ≡ returns t → IsTree find id t)
      → for_each f ids ≡ returns ts
      → AreTrees find ids (children_of ts)
  unfolding for_each children_of
  for_each-AreTrees f [] [] each e = tt
  for_each-AreTrees f [] (t ∷ ts) each e = cc
  for_each-AreTrees f (id ∷ ids) ts each e =
      let (t, first, rest) = >>=-returns (f id) _ e in
      let (us, others, last) = >>=-returns (for_each f ids) _ rest in
      let same : ts ≡ t ∷ us = cc in
      rw same (each id t first, for_each-AreTrees f ids us each others)

  make_tree-IsTree :
      (n : ℕ) (id : String) (t : Node) → make_tree n find id ≡ returns t → IsTree find id t
  unfolding make_tree
  make_tree-IsTree zero id t e = cc
  make_tree-IsTree (suc n) id t e = elim (Option-cases (find id)) [
    | inl missing ↦ let bad = rw (missing, make_tree) at e in cc
    | inr (b, found) ↦
        let (ts, below, last) =
          >>=-returns (for_each (make_tree n find) (dependencies b)) _
            (rw (found, make_tree) at e) in
        let same : t ≡ node b (children_of ts) = cc in
        rw same (
          found,
          for_each-AreTrees (make_tree n find) (dependencies b) ts (make_tree-IsTree n) below,
        )
  ]

  all_below :
      (rank : String → ℕ) (n : ℕ) (ds : List String)
      → ((d : String) (c : BuildpackStatus)
          → find d ≡ some c
          → rank d < n
          → (t : Node) × (make_tree n find d ≡ returns t))
      → All (λ d. (rank d < n) × ((c : BuildpackStatus) × (find d ≡ some c))) ds
      → All (λ d. (t : Node) × (make_tree n find d ≡ returns t)) ds
  all_below rank n [] below all = tt
  all_below rank n (d ∷ ds) below all =
      (below d all.0.1.0 all.0.1.1 all.0.0, all_below rank n ds below all.1)

  lower :
      (rank : String → ℕ) (k n : ℕ) (ds : List String)
      → k < suc n
      → All (λ d. (rank d < k) × ((c : BuildpackStatus) × (find d ≡ some c))) ds
      → All (λ d. (rank d < n) × ((c : BuildpackStatus) × (find d ≡ some c))) ds
  lower rank k n [] h all = tt
  lower rank k n (d ∷ ds) h all = ((omega (arith, all.0.0), all.0.1), lower rank k n ds h all.1)

  make_tree-total :
      (rank : String → ℕ) (n : ℕ) (id : String) (b : BuildpackStatus)
      → IsRanked rank find
      → find id ≡ some b
      → rank id < n
      → (t : Node) × (make_tree n find id ≡ returns t)
  unfolding make_tree
  make_tree-total rank zero id b ranked found h = absurd (omega arith)
  make_tree-total rank (suc n) id b ranked found h =
      let (ts, below) = for_each-total (make_tree n find) (dependencies b) (
        all_below rank n (dependencies b) (λ d c. make_tree-total rank n d c ranked)
          (lower rank (rank id) n (dependencies b) h (ranked id b found))) in
      let t : Node = node b (children_of ts) in
      let made : make_tree (suc n) find id ≡ returns t = rw (found, make_tree) (rw below refl) in
      (t, made)

  -- Ids each of which leads to another of them.
  abbrev pub IsCyclic : (String → Type 0) → Type 0
  IsCyclic P =
      (id : String)
      → P id
      → (b : BuildpackStatus) × (d : String) × (find id ≡ some b) × In d (dependencies b) × P d

  make_tree-cyclic :
      (P : String → Type 0) (n : ℕ) (id : String) (t : Node)
      → IsCyclic P
      → P id
      → make_tree n find id ≢ returns t
  unfolding make_tree
  make_tree-cyclic P zero id t cyclic p e = cc
  make_tree-cyclic P (suc n) id t cyclic p e =
      let (b, d, found, i, q) = cyclic id p in
      let (ts, below, last) =
        >>=-returns (for_each (make_tree n find) (dependencies b)) _ (rw (found, make_tree) at e) in
      let (u, made) = for_each-In (make_tree n find) (dependencies b) ts d below i in
      make_tree-cyclic P n d u cyclic q made

lookup-In :
    (bs : List BuildpackStatus) (b : BuildpackStatus)
    → In b bs
    → (c : BuildpackStatus) × (lookup bs b.id ≡ some c)
unfolding lookup
lookup-In [] b i = elim i [ ]
lookup-In (x ∷ bs) b i = elim (Option-cases (lookup bs b.id)) [
  | inr (c, later) ↦ (c, rw (later, lookup) refl)
  | inl last ↦ elim i [
    | inl same ↦ (x, rw last (rw (same, eq_refl x.id) refl))
    | inr j ↦ let (c, found) = lookup-In bs b j in cc
  ]
]

lookup-some :
    (bs : List BuildpackStatus) (id : String) (b : BuildpackStatus)
    → lookup bs id ≡ some b
    → In b bs × (b.id ≡ id)
unfolding lookup
lookup-some [] id b e = cc
lookup-some (x ∷ xs) id b e = elim (Option-cases (lookup xs id)) [
  | inr (c, later) ↦
      let same : lookup xs id ≡ some b = let r = rw (later, lookup) at e in cc in
      let (i, own) = lookup-some xs id b same in (inr i, own)
  | inl last ↦ elim (Bool-cases (x.id == id)) [
    | inl t ↦
        let same : b ≡ x = let r = rw (last, t, lookup) at e in cc in
        (inl same, rw same ((eq_iff x.id id).0 t))
    | inr f ↦ let bad = rw (last, f, lookup) at e in cc
  ]
]

-- A ranking of the listed buildpacks ranks the map.
pub lookup-IsRanked :
    (rank : String → ℕ) (bs : List BuildpackStatus)
    → ((b : BuildpackStatus)
        → In b bs
        → All
            (λ d. (rank d < rank b.id) × ((c : BuildpackStatus) × (lookup bs d ≡ some c)))
            (dependencies b))
    → IsRanked rank (lookup bs)
lookup-IsRanked rank bs h id b e =
    let (i, own) = lookup-some bs id b e in
    subst
      (λ t.
        All (λ d. (rank d < rank t) × ((c : BuildpackStatus) × (lookup bs d ≡ some c)))
          (dependencies b))
      own (h b i)

All-map-select :
    (Q : String → Type 0) (p : BuildpackStatus → Bool) (bs : List BuildpackStatus)
    → ((b : BuildpackStatus) → In b bs → Q b.id)
    → All Q (map (λ b. b.id) (select p bs))
unfolding select
All-map-select Q p [] h = tt
All-map-select Q p (b ∷ bs) h =
    let rest = All-map-select Q p bs (λ c i. h c (inr i)) in
    elim (Bool-cases (p b)) [ inl e ↦ rw e (h b (inl refl), rest) | inr e ↦ rw e rest ]

-- With a rank below `n` on the ids of all buildpacks, and every dependency among them and ranked
-- lower, `n` rounds are enough: the trees are those of the ids that no order names, in the order of
-- the list.
pub new_tree_complete :
    (n : ℕ) (bs : List BuildpackStatus) (rank : String → ℕ)
    → ((b : BuildpackStatus) → In b bs → rank b.id < n)
    → IsRanked rank (lookup bs)
    → (ts : List Node) × (new_tree n bs ≡ returns ts)
      × AreTrees (lookup bs) (unused_buildpacks bs) (children_of ts)
unfolding new_tree unused_buildpacks
new_tree_complete n bs rank bound ranked =
    let indexed =
      All-map-select (λ id. (rank id < n) × ((c : BuildpackStatus) × (lookup bs id ≡ some c)))
        (λ b. not (used bs b.id)) bs (λ b i. (bound b i, lookup-In bs b i)) in
    let (ts, made) = for_each-total (make_tree n (lookup bs)) (unused_buildpacks bs) (
      all_below (lookup bs) rank n (unused_buildpacks bs)
        (λ d c found h. make_tree-total (lookup bs) rank n d c ranked found h) indexed) in
    (
      ts,
      made,
      for_each-AreTrees (lookup bs) (make_tree n (lookup bs)) (unused_buildpacks bs) ts
          (make_tree-IsTree (lookup bs) n) made,
    )

-- If an id that no order names leads into a cycle of references, no amount of fuel is enough.
pub new_tree-cyclic :
    (n : ℕ) (bs : List BuildpackStatus) (ts : List Node) (P : String → Type 0) (id : String)
    → IsCyclic (lookup bs) P
    → In id (unused_buildpacks bs)
    → P id
    → new_tree n bs ≢ returns ts
unfolding new_tree
new_tree-cyclic n bs ts P id cyclic i p e =
    let (t, made) = for_each-In (make_tree n (lookup bs)) (unused_buildpacks bs) ts id e i in
    make_tree-cyclic (lookup bs) P n id t cyclic p made
