-- ===== src/SourceResolverReconciler/Retained.antt =====
-- sourceresolver.go, `retainCommitIfTreeUnchanged`: the revision follows the tree.
use kpack.Prelude.{
  ◌≡◌, ◌≢◌, refl, ap, sym, Bool, true, false, ◌&&◌, ◌||◌, not, Option, none, some, ◌==◌, and_true,
  eq_iff, eq_refl, Bool-cases, Option-cases, inl, inr, ◌⊎◌, arith, ne_of_eq_false,
}
use kpack.Api.Source.{ResolvedGitSource, ResolvedSourceConfig}
use kpack.SourceResolverReconciler.{retained_git, retain_commit_if_tree_unchanged}

or_false : (a b : Bool) → (a || b) ≡ false → (a ≡ false) × (b ≡ false)
or_false a b h = ground arith

or_true : (a : Bool) → (a || true) ≡ true
or_true a = ground arith

and_false : (a : Bool) → (a && false) ≡ false
and_false a = ground arith

false_of_not : (a : Bool) → not a ≡ true → a ≡ false
false_of_not a h = ground arith

retained_git_same : (d : ResolvedGitSource) → retained_git d d ≡ d
unfolding retained_git
retained_git_same d = elim (Bool-cases (d.tree == "")) [
  | inl e ↦ rw e refl
  | inr e ↦ rw (e, eq_refl d.revision) refl
]

-- Retaining twice is retaining once.
retained_git_twice :
    (o d : ResolvedGitSource) → retained_git (retained_git o d) d ≡ retained_git o d
unfolding retained_git
retained_git_twice o d = elim (Bool-cases (o.tree == "" || d.tree == "")) [
  | inl e ↦ rw e (retained_git_same d)
  | inr e ↦ elim (Bool-cases (not (o.revision == d.revision) && o.tree == d.tree)) [
    | inr f ↦ rw (e, f) (retained_git_same d)
    | inl f ↦
        let (known_o, known_d) = or_false (o.tree == "") (d.tree == "") e in
        let (changed, kept) = and_true (not (o.revision == d.revision)) (o.tree == d.tree) f in
        let changed_too : (o.revision == d.revision) ≡ false =
          false_of_not (o.revision == d.revision) changed in
        rw (known_o, known_d, changed_too, kept) (rw (known_d, changed_too, eq_refl d.tree) refl)
  ]
]

pub retain_commit_if_tree_unchanged_twice :
    (o d : ResolvedSourceConfig)
    → retain_commit_if_tree_unchanged (retain_commit_if_tree_unchanged o d) d
      ≡ retain_commit_if_tree_unchanged o d
unfolding retain_commit_if_tree_unchanged
retain_commit_if_tree_unchanged_twice o d = elim (Option-cases d.git) [
  | inl e ↦ elim (Option-cases o.git) [ inl f ↦ rw (f, e) refl | inr (g, f) ↦ rw (f, e) refl ]
  | inr (x, e) ↦ elim (Option-cases o.git) [
    | inl f ↦ rw (f, e) (ap (λ g. record d { git = some g }) (retained_git_same x))
    | inr (g, f) ↦ rw (f, e) (ap (λ y. record d { git = some y }) (retained_git_twice g x))
  ]
]

pub retain_commit_if_tree_unchanged_same :
    (d : ResolvedSourceConfig) → retain_commit_if_tree_unchanged d d ≡ d
unfolding retain_commit_if_tree_unchanged
retain_commit_if_tree_unchanged_same d = of_git d.git refl
  where
    of_git :
        (o : Option ResolvedGitSource)
        → d.git ≡ o
        → retain_commit_if_tree_unchanged (record d { git = o }) (record d { git = o })
          ≡ record d { git = o }
    of_git none e = refl
    of_git (some g) e = ap (λ y. record d { git = some y }) (retained_git_same g)

-- The revision that a resolution of Git keeps, after an earlier one.
abbrev pub IsRetained : ResolvedGitSource → ResolvedGitSource → ResolvedGitSource → Type 0
IsRetained o d g =
    (g.tree ≡ d.tree)
    × (((d.tree ≢ "") × (o.tree ≡ d.tree) × (g.revision ≡ o.revision))
        ⊎ (((d.tree ≡ "") ⊎ (o.tree ≢ d.tree)) × (g.revision ≡ d.revision)))

retained_git-IsRetained : (o d : ResolvedGitSource) → IsRetained o d (retained_git o d)
unfolding retained_git
retained_git-IsRetained o d = elim (Bool-cases (d.tree == "")) [
  | inl empty ↦
      rw (empty, or_true (o.tree == "")) (refl, inr (inl ((eq_iff d.tree "").0 empty), refl))
  | inr known ↦ elim (Bool-cases (o.tree == d.tree)) [
    | inr other ↦ elim (Bool-cases (o.tree == "")) [
      | inl e ↦ rw e (refl, inr (inr (ne_of_eq_false o.tree d.tree other), refl))
      | inr e ↦
          rw (e, known, other, and_false (not (o.revision == d.revision)))
            (refl, inr (inr (ne_of_eq_false o.tree d.tree other), refl))
    ]
    | inl same ↦
        let trees : o.tree ≡ d.tree = (eq_iff o.tree d.tree).0 same in
        let known_o : (o.tree == "") ≡ false = rw trees known in
        elim (Bool-cases (o.revision == d.revision)) [
          | inl e ↦
              rw (known_o, known, e)
                (
                  refl,
                  inl (
                    ne_of_eq_false d.tree "" known,
                    trees,
                    sym ((eq_iff o.revision d.revision).0 e),
                  ),
                )
          | inr e ↦
              rw (known_o, known, e, same) (refl, inl (ne_of_eq_false d.tree "" known, trees, refl))
        ]
  ]
]

-- Where the last and the new resolution are of Git with one known tree, the commit that was resolved
-- first stays; where the trees differ or the new one is unknown, the new commit is taken.
pub retain_commit_if_tree_unchanged-IsRetained :
    (original desired : ResolvedSourceConfig) (o d : ResolvedGitSource)
    → original.git ≡ some o
    → desired.git ≡ some d
    → (g : ResolvedGitSource) × ((retain_commit_if_tree_unchanged original desired).git ≡ some g)
      × IsRetained o d g
unfolding retain_commit_if_tree_unchanged
retain_commit_if_tree_unchanged-IsRetained original desired o d eo ed =
    let kept : (retain_commit_if_tree_unchanged original desired).git ≡ some (retained_git o d) =
      rw (eo, ed, retain_commit_if_tree_unchanged) refl in
    (retained_git o d, kept, retained_git-IsRetained o d)
