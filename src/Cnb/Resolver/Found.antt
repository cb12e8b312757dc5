-- ===== src/Cnb/Resolver/Found.antt =====
-- buildpack_resolver.go: what a resolved reference is, and when a reference resolves.
use kpack.Prelude.{
  ◌≡◌, refl, String, List, [], ◌∷◌, ◌++◌, map, some, eq_iff, In, In-append_left, In-append_right,
  In-append_cases, In-select, In-select_of, In-map, inl, inr, select, Option-cases,
}
use kpack.Cnb.Resources.{
  BuildpackStatus, Buildpack, ClusterBuildpack, ClusterStore, K8sRemoteBuildpack,
}
use kpack.Cnb.Resolver.{
  BuildpackResolver, from_buildpack, from_cluster_buildpack, from_cluster_store, has_id,
  resolve_from_buildpack, resolve_from_cluster_buildpack, resolve_from_cluster_store,
  resolve_everywhere,
}

-- A buildpack that one of the resources of a resolver offers.
pub data Offers (r : BuildpackResolver) (b : K8sRemoteBuildpack) : Type 0 where
  by_buildpack :
      (bp : Buildpack) (s : BuildpackStatus)
      → In bp r.buildpacks
      → In s bp.buildpacks
      → b ≡ from_buildpack bp s
      → Offers r b
  by_cluster_buildpack :
      (cbp : ClusterBuildpack) (s : BuildpackStatus)
      → In cbp r.cluster_buildpacks
      → In s cbp.buildpacks
      → b ≡ from_cluster_buildpack cbp s
      → Offers r b
  by_cluster_store :
      (store : ClusterStore) (s : BuildpackStatus)
      → r.cluster_store ≡ some store
      → In s store.buildpacks
      → b ≡ from_cluster_store store s
      → Offers r b

In-map_inv :
    {A B : Type 0} (f : A → B) (b : B) (xs : List A)
    → In b (map f xs)
    → (a : A) × In a xs × (b ≡ f a)
In-map_inv f b [] i = elim i [ ]
In-map_inv f b (x ∷ xs) (inl e) = (x, inl refl, e)
In-map_inv f b (x ∷ xs) (inr i) = let (a, j, e) = In-map_inv f b xs i in (a, inr j, e)

module _ (id : String) where
  -- An element of a mapped selection by id.
  selected :
      (offer : BuildpackStatus → K8sRemoteBuildpack) (ss : List BuildpackStatus)
      (b : K8sRemoteBuildpack)
      → In b (map offer (select (has_id id) ss))
      → (s : BuildpackStatus) × In s ss × (s.id ≡ id) × (b ≡ offer s)
  selected offer ss b i =
      let (s, j, e) = In-map_inv offer b (select (has_id id) ss) i in
      let (k, t) = In-select (has_id id) s ss j in (s, k, (eq_iff s.id id).0 t, e)

  select-has_id :
      (offer : BuildpackStatus → K8sRemoteBuildpack) (ss : List BuildpackStatus)
      (s : BuildpackStatus)
      → In s ss
      → s.id ≡ id
      → In (offer s) (map offer (select (has_id id) ss))
  select-has_id offer ss s i e =
      In-map offer s (select (has_id id) ss)
        (In-select_of (has_id id) s ss i ((eq_iff s.id id).1 e))

  pub buildpack-inv :
      (bps : List Buildpack) (b : K8sRemoteBuildpack)
      → In b (resolve_from_buildpack id bps)
      → (bp : Buildpack) × (s : BuildpackStatus) × In bp bps
        × In s bp.buildpacks
        × (s.id ≡ id)
        × (b ≡ from_buildpack bp s)
  unfolding resolve_from_buildpack
  buildpack-inv [] b i = elim i [ ]
  buildpack-inv (x ∷ bps) b i = elim (In-append_cases b _ _ i) [
    | inl j ↦
        let (s, k, e, same) = selected (from_buildpack x) x.buildpacks b j in
        (x, s, inl refl, k, e, same)
    | inr j ↦
        let (bp, s, at_bp, k, e, same) = buildpack-inv bps b j in (bp, s, inr at_bp, k, e, same)
  ]

  pub cluster_buildpack-inv :
      (cbps : List ClusterBuildpack) (b : K8sRemoteBuildpack)
      → In b (resolve_from_cluster_buildpack id cbps)
      → (cbp : ClusterBuildpack) × (s : BuildpackStatus) × In cbp cbps
        × In s cbp.buildpacks
        × (s.id ≡ id)
        × (b ≡ from_cluster_buildpack cbp s)
  unfolding resolve_from_cluster_buildpack
  cluster_buildpack-inv [] b i = elim i [ ]
  cluster_buildpack-inv (x ∷ cbps) b i = elim (In-append_cases b _ _ i) [
    | inl j ↦
        let (s, k, e, same) = selected (from_cluster_buildpack x) x.buildpacks b j in
        (x, s, inl refl, k, e, same)
    | inr j ↦
        let (cbp, s, at_cbp, k, e, same) = cluster_buildpack-inv cbps b j in
        (cbp, s, inr at_cbp, k, e, same)
  ]

  buildpack-In :
      (bps : List Buildpack) (bp : Buildpack) (s : BuildpackStatus)
      → In bp bps
      → In s bp.buildpacks
      → s.id ≡ id
      → In (from_buildpack bp s) (resolve_from_buildpack id bps)
  unfolding resolve_from_buildpack
  buildpack-In [] bp s i j e = elim i [ ]
  buildpack-In (x ∷ bps) bp s (inl same) j e =
      rw same
        (In-append_left _ _ _ (select-has_id (from_buildpack x) x.buildpacks s (rw same at j) e))
  buildpack-In (x ∷ bps) bp s (inr i) j e = In-append_right _ _ _ (buildpack-In bps bp s i j e)

  cluster_buildpack-In :
      (cbps : List ClusterBuildpack) (cbp : ClusterBuildpack) (s : BuildpackStatus)
      → In cbp cbps
      → In s cbp.buildpacks
      → s.id ≡ id
      → In (from_cluster_buildpack cbp s) (resolve_from_cluster_buildpack id cbps)
  unfolding resolve_from_cluster_buildpack
  cluster_buildpack-In [] cbp s i j e = elim i [ ]
  cluster_buildpack-In (x ∷ cbps) cbp s (inl same) j e = rw same (
      In-append_left _ _ _
        (select-has_id (from_cluster_buildpack x) x.buildpacks s (rw same at j) e))
  cluster_buildpack-In (x ∷ cbps) cbp s (inr i) j e =
      In-append_right _ _ _ (cluster_buildpack-In cbps cbp s i j e)

-- The list of all that is offered under an id holds just the offers of that id.
pub resolve_everywhere_sound :
    (r : BuildpackResolver) (id : String) (b : K8sRemoteBuildpack)
    → In b (resolve_everywhere r id)
    → Offers r b × (b.buildpack.id ≡ id)
unfolding resolve_everywhere resolve_from_cluster_store
resolve_everywhere_sound r id b i = elim (In-append_cases b _ _ i) [
  | inl j ↦
      let (bp, s, at_bp, k, e, same) = buildpack-inv id r.buildpacks b j in
      (by_buildpack bp s at_bp k same, rw same e)
  | inr j ↦ elim (In-append_cases b _ _ j) [
    | inl k ↦
        let (cbp, s, at_cbp, l, e, same) = cluster_buildpack-inv id r.cluster_buildpacks b k in
        (by_cluster_buildpack cbp s at_cbp l same, rw same e)
    | inr k ↦ elim (Option-cases r.cluster_store) [
      | inl missing ↦ elim (rw (missing, resolve_from_cluster_store) at k) [ ]
      | inr (store, found) ↦
          let (s, l, e, same) =
            selected id (from_cluster_store store) store.buildpacks b
              (rw (found, resolve_from_cluster_store) at k) in
          (by_cluster_store store s found l same, rw same e)
    ]
  ]
]

pub resolve_everywhere_complete :
    (r : BuildpackResolver) (b : K8sRemoteBuildpack)
    → Offers r b
    → In b (resolve_everywhere r b.buildpack.id)
unfolding resolve_everywhere resolve_from_cluster_store
resolve_everywhere_complete r b (by_buildpack bp s i j e) =
    rw e (In-append_left _ _ _ (buildpack-In s.id r.buildpacks bp s i j refl))
resolve_everywhere_complete r b (by_cluster_buildpack cbp s i j e) = rw e (
    In-append_right _ _ _
      (In-append_left _ _ _ (cluster_buildpack-In s.id r.cluster_buildpacks cbp s i j refl)))
resolve_everywhere_complete r b (by_cluster_store store s found j e) =
    let last : In (from_cluster_store store s) (resolve_from_cluster_store s.id r.cluster_store) =
      rw (found, resolve_from_cluster_store)
        (select-has_id s.id (from_cluster_store store) store.buildpacks s j refl) in
    let offers : In (from_cluster_store store s) (resolve_everywhere r s.id) =
      In-append_right (from_cluster_store store s) (resolve_from_buildpack s.id r.buildpacks)
        (resolve_from_cluster_buildpack s.id r.cluster_buildpacks
          ++ resolve_from_cluster_store s.id r.cluster_store)
        (In-append_right (from_cluster_store store s)
          (resolve_from_cluster_buildpack s.id r.cluster_buildpacks)
          (resolve_from_cluster_store s.id r.cluster_store) last) in
    rw e offers
