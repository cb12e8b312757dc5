-- ===== src/Cnb/Resolver/Meaning.antt =====
-- buildpack_resolver.go: what a reference means.
use kpack.Prelude.Outcome.{returns, of_result}
use kpack.Prelude.{
  ℕ, ◌≡◌, ◌≢◌, sym, subst, String, true, false, List, [], ◌∷◌, some, ◌==◌, eq_iff, In, inl, inr,
  ◌⊎◌, find-In, Bool-cases, Option-cases, Result, ok, err,
}
use kpack.Cnb.Resources.{Buildpack, ClusterBuildpack, K8sRemoteBuildpack, BuilderBuildpackRef}
use kpack.Cnb.Resolver.{
  BuildpackResolver, find_buildpack, find_cluster_buildpack, resolve_everywhere,
  resolve_from_buildpack, resolve_from_cluster_buildpack, matching_buildpacks,
  resolve_from_object_reference, buildpack_kind, cluster_buildpack_kind,
}
use kpack.Cnb.Resolver.Found.{
  Offers, by_buildpack, by_cluster_buildpack, buildpack-inv, cluster_buildpack-inv,
  resolve_everywhere_sound,
}

-- A text test, decided.
pub test : (s t : String) → ((s ≡ t) × ((s == t) ≡ true)) ⊎ ((s ≢ t) × ((s == t) ≡ false))
test s t = elim (Bool-cases (s == t)) [
  | inl e ↦ inl ((eq_iff s t).0 e, e)
  | inr e ↦ inr (λ same. let bad = (eq_iff s t).1 same in cc, e)
]

pub not_equal : (s t : String) → s ≢ t → (s == t) ≡ false
not_equal s t h = elim (Bool-cases (s == t)) [ inl e ↦ absurd (h ((eq_iff s t).0 e)) | inr e ↦ e ]

-- What a reference with an id may mean: an offer of that id and, with an object, of that object.
abbrev pub IsMeant : BuildpackResolver → BuilderBuildpackRef → K8sRemoteBuildpack → Type 0
IsMeant r ref b =
    Offers r b
    × (b.buildpack.id ≡ ref.id)
    × ((ref.object.kind ≡ "") ⊎ (b.source.name ≡ ref.object.name))

find_buildpack-In :
    (name : String) (bps : List Buildpack) (bp : Buildpack)
    → find_buildpack name bps ≡ some bp
    → In bp bps × (bp.meta.name ≡ name)
unfolding find_buildpack
find_buildpack-In name bps bp e =
    let (i, t) = find-In (λ c. c.meta.name == name) bp bps e in (i, (eq_iff bp.meta.name name).0 t)

find_cluster_buildpack-In :
    (name : String) (cbps : List ClusterBuildpack) (cbp : ClusterBuildpack)
    → find_cluster_buildpack name cbps ≡ some cbp
    → In cbp cbps × (cbp.meta.name ≡ name)
unfolding find_cluster_buildpack
find_cluster_buildpack-In name cbps cbp e =
    let (i, t) = find-In (λ c. c.meta.name == name) cbp cbps e in
    (i, (eq_iff cbp.meta.name name).0 t)

returned : {A : Type 0} {a b : A} → returns a ≡ returns b → a ≡ b
returned e = cc

pub of_result-returns : {A : Type 0} {a : A} (m : Result A) → of_result m ≡ returns a → m ≡ ok a
of_result-returns (ok a) e = cc
of_result-returns (err x) e = cc

of_one_buildpack :
    (r : BuildpackResolver) (ref : BuilderBuildpackRef) (bp : Buildpack) (b : K8sRemoteBuildpack)
    → find_buildpack ref.object.name r.buildpacks ≡ some bp
    → In b (resolve_from_buildpack ref.id (bp ∷ []))
    → IsMeant r ref b
of_one_buildpack r ref bp b found i =
    let (j, named) = find_buildpack-In ref.object.name r.buildpacks bp found in
    let (c, s, at_bp, k, e, same) = buildpack-inv ref.id (bp ∷ []) b i in
    elim at_bp [
      | inl eq ↦ (by_buildpack c s (rw eq j) k same, rw same e, inr (rw same (rw eq named)))
      | inr none_left ↦ elim none_left [ ]
    ]

of_one_cluster_buildpack :
    (r : BuildpackResolver) (ref : BuilderBuildpackRef) (cbp : ClusterBuildpack)
    (b : K8sRemoteBuildpack)
    → find_cluster_buildpack ref.object.name r.cluster_buildpacks ≡ some cbp
    → In b (resolve_from_cluster_buildpack ref.id (cbp ∷ []))
    → IsMeant r ref b
of_one_cluster_buildpack r ref cbp b found i =
    let (j, named) = find_cluster_buildpack-In ref.object.name r.cluster_buildpacks cbp found in
    let (c, s, at_cbp, k, e, same) = cluster_buildpack-inv ref.id (cbp ∷ []) b i in
    elim at_cbp [
      | inl eq ↦ (by_cluster_buildpack c s (rw eq j) k same, rw same e, inr (rw same (rw eq named)))
      | inr none_left ↦ elim none_left [ ]
    ]

-- With an id, each matching buildpack is one that the reference may mean.
pub matching-IsMeant :
    (n : ℕ) (r : BuildpackResolver) (ref : BuilderBuildpackRef) (bs : List K8sRemoteBuildpack)
    (b : K8sRemoteBuildpack)
    → ref.id ≢ ""
    → matching_buildpacks n r ref ≡ returns bs
    → In b bs
    → IsMeant r ref b
unfolding matching_buildpacks
matching-IsMeant n r ref bs b named e i =
    let id : (ref.id == "") ≡ false = not_equal ref.id "" named in
    elim (test ref.object.kind buildpack_kind) [
      | inl (kind, t) ↦ elim (Option-cases (find_buildpack ref.object.name r.buildpacks)) [
        | inl missing ↦ let bad = rw (t, id, missing, matching_buildpacks) at e in cc
        | inr (bp, found) ↦
            let same : resolve_from_buildpack ref.id (bp ∷ []) ≡ bs =
              returned (rw (t, id, found, matching_buildpacks) at e) in
            of_one_buildpack r ref bp b found (subst (In b) (sym same) i)
      ]
      | inr (other, f) ↦ elim (test ref.object.kind cluster_buildpack_kind) [
        | inl (kind, t) ↦
            elim (Option-cases (find_cluster_buildpack ref.object.name r.cluster_buildpacks)) [
              | inl missing ↦ let bad = rw (f, t, id, missing, matching_buildpacks) at e in cc
              | inr (cbp, found) ↦
                  let same : resolve_from_cluster_buildpack ref.id (cbp ∷ []) ≡ bs =
                    returned (rw (f, t, id, found, matching_buildpacks) at e) in
                  of_one_cluster_buildpack r ref cbp b found (subst (In b) (sym same) i)
            ]
        | inr (neither, g) ↦ elim (test ref.object.kind "") [
          | inl (empty, t) ↦
              let same : resolve_everywhere r ref.id ≡ bs =
                returned (rw (f, g, t, id, matching_buildpacks) at e) in
              let (offer, own) = resolve_everywhere_sound r ref.id b (subst (In b) (sym same) i) in
              (offer, own, inl empty)
          | inr (full, t) ↦
              let bad = rw (f, g, t, matching_buildpacks, resolve_from_object_reference) at e in cc
        ]
      ]
    ]
