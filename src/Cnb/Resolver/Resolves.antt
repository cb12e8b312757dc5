-- ===== src/Cnb/Resolver/Resolves.antt =====
-- buildpack_resolver.go: what a reference resolves to, and when it does.
use kpack.Prelude.Outcome.{returns, of_result, >>=-returns}
use kpack.Prelude.{
  ℕ, ◌≡◌, ◌≢◌, refl, subst, String, true, false, List, [], ◌∷◌, some, ◌==◌, eq_iff, In, inl, inr,
  ◌⊎◌, find, find-In, find-none, Option-cases, ok,
}
use kpack.Cnb.Resources.{K8sRemoteBuildpack, BuilderBuildpackRef}
use kpack.Cnb.Resolver.{
  Semver, BuildpackResolver, resolve_everywhere, matching_buildpacks, choose, highest_version,
  resolve,
}
use kpack.Cnb.Resolver.Found.{Offers, resolve_everywhere_complete}
use kpack.Cnb.Resolver.Highest.{IsPrecedence, highest_version-IsHighest, highest_version-In}
use kpack.Cnb.Resolver.Meaning.{IsMeant, test, not_equal, matching-IsMeant, of_result-returns}

module _ (S : Semver) where
  -- What is chosen is one of the matching buildpacks, of the version that was asked for.
  choose-In :
      (id version : String) (bs : List K8sRemoteBuildpack) (b : K8sRemoteBuildpack)
      → choose S id version bs ≡ ok b
      → In b bs × ((version ≡ "") ⊎ (b.buildpack.version ≡ version))
  unfolding choose
  choose-In id version [] b e = cc
  choose-In id version (c ∷ bs) b e = elim (test version "") [
    | inl (empty, t) ↦ (highest_version-In S (c ∷ bs) b (rw (t, choose) at e), inl empty)
    | inr (named, t) ↦ elim (Option-cases (find (λ d. d.buildpack.version == version) (c ∷ bs))) [
      | inl missing ↦ let bad = rw (t, missing, choose) at e in cc
      | inr (d, found) ↦
          let same : d ≡ b = let good = rw (t, found, choose) at e in cc in
          let (i, v) = find-In (λ d. d.buildpack.version == version) d (c ∷ bs) found in
          subst (λ x. In x (c ∷ bs) × ((version ≡ "") ⊎ (x.buildpack.version ≡ version))) same
            (i, inr ((eq_iff d.buildpack.version version).0 v))
    ]
  ]

  choose-total :
      (id version : String) (bs : List K8sRemoteBuildpack) (c : K8sRemoteBuildpack)
      → version ≢ ""
      → In c bs
      → c.buildpack.version ≡ version
      → (b : K8sRemoteBuildpack) × (choose S id version bs ≡ ok b)
  unfolding choose
  choose-total id version [] c versioned i v = elim i [ ]
  choose-total id version (d ∷ ds) c versioned i v =
      let f : (version == "") ≡ false = not_equal version "" versioned in
      elim (Option-cases (find (λ x. x.buildpack.version == version) (d ∷ ds))) [
        | inl missing ↦
            let no_match = find-none (λ x. x.buildpack.version == version) c (d ∷ ds) missing i in
            let match : (c.buildpack.version == version) ≡ true =
              (eq_iff c.buildpack.version version).1 v in
            cc
        | inr (b, found) ↦ (b, rw (f, found) refl)
      ]

  chosen_highest :
      (id version : String) (bs : List K8sRemoteBuildpack) (b : K8sRemoteBuildpack)
      → version ≡ ""
      → choose S id version bs ≡ ok b
      → highest_version S bs ≡ ok b
  unfolding choose
  chosen_highest id version [] b empty e = cc
  chosen_highest id version (c ∷ bs) b empty e = rw (empty, choose) at e

  -- What a reference with an id resolves to is an offer of that id, of the version asked for if one
  -- is, and of a resource of the object's name if an object is given.
  pub resolve-IsMeant :
      (n : ℕ) (r : BuildpackResolver) (ref : BuilderBuildpackRef) (b : K8sRemoteBuildpack)
      → ref.id ≢ ""
      → resolve S n r ref ≡ returns b
      → IsMeant r ref b × ((ref.version ≡ "") ⊎ (b.buildpack.version ≡ ref.version))
  unfolding resolve
  resolve-IsMeant n r ref b named e =
      let (bs, matching, chosen) = >>=-returns (matching_buildpacks n r ref) _ e in
      let (i, version) = choose-In ref.id ref.version bs b (of_result-returns _ chosen) in
      (matching-IsMeant n r ref bs b named matching i, version)

  -- The references with an id and no object.
  by_id :
      (n : ℕ) (r : BuildpackResolver) (ref : BuilderBuildpackRef)
      → ref.id ≢ ""
      → ref.object.kind ≡ ""
      → matching_buildpacks n r ref ≡ returns (resolve_everywhere r ref.id)
  unfolding matching_buildpacks
  by_id n r ref named empty =
      let id : (ref.id == "") ≡ false = not_equal ref.id "" named in rw (empty, id) refl

  -- A reference by id and version, with no object, resolves if some resource offers that id and
  -- version.
  pub resolve-total :
      (n : ℕ) (r : BuildpackResolver) (ref : BuilderBuildpackRef) (c : K8sRemoteBuildpack)
      → ref.id ≢ ""
      → ref.version ≢ ""
      → ref.object.kind ≡ ""
      → Offers r c
      → c.buildpack.id ≡ ref.id
      → c.buildpack.version ≡ ref.version
      → (b : K8sRemoteBuildpack) × (resolve S n r ref ≡ returns b)
  unfolding resolve
  resolve-total n r ref c named versioned empty offer id version =
      let i : In c (resolve_everywhere r ref.id) =
        subst (λ t. In c (resolve_everywhere r t)) id (resolve_everywhere_complete r c offer) in
      let (b, chosen) =
        choose-total ref.id ref.version (resolve_everywhere r ref.id) c versioned i version in
      (b, rw (by_id n r ref named empty, chosen) refl)

  -- Under a lawful order of versions, what a reference by id alone resolves to has a version that
  -- is not below any version that parses of a buildpack that is offered under the id, whether a
  -- Buildpack, a ClusterBuildpack or the ClusterStore offers it.
  pub resolve-IsHighest :
      (n : ℕ) (r : BuildpackResolver) (ref : BuilderBuildpackRef) (b c : K8sRemoteBuildpack)
      (w : S.Version)
      → IsPrecedence S
      → ref.id ≢ ""
      → ref.version ≡ ""
      → ref.object.kind ≡ ""
      → resolve S n r ref ≡ returns b
      → Offers r c
      → c.buildpack.id ≡ ref.id
      → S.new_version c.buildpack.version ≡ some w
      → (v : S.Version) × (S.new_version b.buildpack.version ≡ some v) × (S.less_than v w ≡ false)
  unfolding resolve
  resolve-IsHighest n r ref b c w P named unversioned empty e offer id parses =
      let chosen : of_result (choose S ref.id ref.version (resolve_everywhere r ref.id))
          ≡ returns b =
        rw (by_id n r ref named empty) at e in
      let highest = highest_version-IsHighest S (resolve_everywhere r ref.id) b P (
        chosen_highest ref.id ref.version (resolve_everywhere r ref.id) b unversioned
          (of_result-returns _ chosen)) in
      let i : In c (resolve_everywhere r ref.id) =
        subst (λ t. In c (resolve_everywhere r t)) id (resolve_everywhere_complete r c offer) in
      (highest.version, highest.own, highest.above_all c w i parses)
