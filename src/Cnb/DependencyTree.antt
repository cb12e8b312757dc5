-- ===== src/Cnb/DependencyTree.antt =====
-- dependency_tree.go: the buildpacks of an image as trees. The recursion follows references with no
-- bound, so it runs on fuel here.
pub mod Acyclic
use kpack.Prelude.Outcome.{Outcome, returns, fails, unfinished, ◌>>=◌, for_each}
use kpack.Prelude.{
  ℕ, zero, suc, String, Bool, true, false, not, List, [], ◌∷◌, ◌++◌, map, Option, none, some,
  if◌then◌else◌, ◌==◌, any, select, panicked,
}
use kpack.Cnb.Resources.{BuildpackRef, OrderEntry, BuildpackStatus, order_refs}

mutual
  pub data Node : Type 0 where
    node : BuildpackStatus → Children → Node

  pub data Children : Type 0 where
    leaf : Children
    child : Node → Children → Children

unfoldable pub children_of : List Node → Children
children_of [] = leaf
children_of (n ∷ ns) = child n (children_of ns)

-- `trees[0].Buildpack`.
unfoldable pub root : Node → BuildpackStatus
root (node b children) = b

abbrev otherwise : Option BuildpackStatus → Option BuildpackStatus → Option BuildpackStatus
otherwise (some b) c = some b
otherwise none c = c

-- The map `lookup`, which a later buildpack of the same id overwrites.
unfoldable pub lookup : List BuildpackStatus → String → Option BuildpackStatus
lookup [] id = none
lookup (b ∷ bs) id = otherwise (lookup bs id) (if b.id == id then some b else none)

-- `usedBuildpacks`: some order names the id.
unfoldable pub used : List BuildpackStatus → String → Bool
unfolding any
used bs id = any (λ b. any (λ r. r.id == id) (order_refs b.order)) bs

-- An id that two versions share stands twice.
unfoldable pub unused_buildpacks : List BuildpackStatus → List String
unfolding select used
unused_buildpacks bs = map (λ b. b.id) (select (λ b. not (used bs b.id)) bs)

-- `makeTree`, given the map. A missing id is a nil dereference.
unfoldable pub make_tree : ℕ → (String → Option BuildpackStatus) → String → Outcome Node
unfolding for_each children_of
make_tree zero find_by_id id = unfinished
make_tree (suc n) find_by_id id = elim (find_by_id id) [
  | none ↦ fails (panicked "nil buildpack")
  | some b ↦
      (for_each (make_tree n find_by_id) (map (λ r. r.id) (order_refs b.order))) >>= λ children.
      returns (node b (children_of children))
]

unfoldable pub new_tree : ℕ → List BuildpackStatus → Outcome (List Node)
unfolding make_tree unused_buildpacks lookup
new_tree n bs = for_each (make_tree n (lookup bs)) (unused_buildpacks bs)
