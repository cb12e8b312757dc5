-- ===== src/Cnb/CreateBuilder/Listed.antt =====
-- create_builder.go, `CreateBuilder`: the buildpacks that the record of a builder lists and the
-- platform of its images.
use kpack.Prelude.{◌≡◌, refl, ap, subst, String, List, [], ◌∷◌, some, In, inl, inr, ok, bind-ok_inv}
use kpack.Api.Builder.{BuildpackMetadata}
use kpack.Api.BuilderTypes.{BuilderOrderEntry, BuilderRecord}
use kpack.Cnb.Resources.{BuilderBuildpackRef}
use kpack.Cnb.Fetcher.{BuildpackLayer, DescriptiveBuildpackInfo, RemoteBuildpackInfo}
use kpack.Cnb.Resolver.{Semver}
use kpack.Cnb.Imaging.{Imaging, RemoteBuildpackRef}
use kpack.Cnb.BuilderImage.{
  BuilderBlder, layer_of, layers_of, add_group, add_lifecycle, add_additional_labels,
}
use kpack.Cnb.BuilderImage.Grouped.{add_group_layers, put_layers_there}
use kpack.Cnb.BuilderImage.Valid.{deterministic_sort_by_size-In}
use kpack.Cnb.BuilderParts.{
  RemoteBuildpackFetcher, fetch_group, add_order, buildpack_metadata, optional_ref,
}
use kpack.Cnb.CreateBuilder.{Remote, CreateArgs, Write, create_builder, record_of}
use kpack.Cnb.CreateBuilder.Created.{create_builder-Created}

-- The metadata under which a builder lists a buildpack.
abbrev pub metadata_entry : DescriptiveBuildpackInfo → BuildpackMetadata
metadata_entry b = record { id = b.id; version = b.version; homepage = b.homepage }

buildpack_metadata-In :
    (bs : List DescriptiveBuildpackInfo) (b : DescriptiveBuildpackInfo)
    → In b bs
    → In (metadata_entry b) (buildpack_metadata bs)
unfolding buildpack_metadata
buildpack_metadata-In [] b i = elim i [ ]
buildpack_metadata-In (c ∷ cs) b (inl same) = inl (ap metadata_entry same)
buildpack_metadata-In (c ∷ cs) b (inr i) = inr (buildpack_metadata-In cs b i)

module _ (I : Imaging) (F : RemoteBuildpackFetcher I.Layer) where
  open I use {Layer}

  -- A key that the map of the builder's layers has.
  abbrev HasKey : BuilderBlder I → DescriptiveBuildpackInfo → Type 0
  HasKey bb key = (l : BuildpackLayer Layer) × (layer_of I bb.buildpack_layers key ≡ some l)

  add_group-HasKey :
      (bb : BuilderBlder I) (rs : List (RemoteBuildpackRef Layer)) (key : DescriptiveBuildpackInfo)
      → HasKey bb key
      → HasKey (add_group I bb rs) key
  unfolding add_group
  add_group-HasKey bb rs key has =
      let (j, found, from) =
        put_layers_there I bb.buildpack_layers (layers_of I rs) has.0 key has.1 in
      (j, found)

  add_order-HasKey :
      (bb done : BuilderBlder I) (entries : List BuilderOrderEntry) (key : DescriptiveBuildpackInfo)
      → add_order I F bb entries ≡ ok done
      → HasKey bb key
      → HasKey done key
  unfolding add_order
  add_order-HasKey bb done [] key e has =
      let same : bb ≡ done = cc in subst (λ x. HasKey x key) same has
  add_order-HasKey bb done (entry ∷ entries) key e has =
      let (refs, fetched, rest) = bind-ok_inv (fetch_group I F entry.group) _ done e in
      add_order-HasKey (add_group I bb refs) done entries key rest
        (add_group-HasKey bb refs key has)

  fetch_group-In :
      (group : List BuilderBuildpackRef) (refs : List (RemoteBuildpackRef Layer))
      (ref : BuilderBuildpackRef) (info : RemoteBuildpackInfo Layer)
      → fetch_group I F group ≡ ok refs
      → In ref group
      → F.resolve_and_fetch ref ≡ ok info
      → In (optional_ref info ref.optional) refs
  unfolding fetch_group
  fetch_group-In [] refs ref info e i found = elim i [ ]
  fetch_group-In (x ∷ xs) refs ref info e (inl same) found =
      let (first, fetched, rest) = bind-ok_inv (F.resolve_and_fetch x) _ refs e in
      let (others, later, last) = bind-ok_inv (fetch_group I F xs) _ refs rest in
      let at_x : F.resolve_and_fetch x ≡ ok info =
        subst (λ y. F.resolve_and_fetch y ≡ ok info) same found in
      let equal : first ≡ info = cc in
      let front : optional_ref info ref.optional ∷ others ≡ refs = cc in
      subst (In (optional_ref info ref.optional)) front (inl refl)
  fetch_group-In (x ∷ xs) refs ref info e (inr i) found =
      let (first, fetched, rest) = bind-ok_inv (F.resolve_and_fetch x) _ refs e in
      let (others, later, last) = bind-ok_inv (fetch_group I F xs) _ refs rest in
      let front : optional_ref first x.optional ∷ others ≡ refs = cc in
      subst (In (optional_ref info ref.optional)) front
        (inr (fetch_group-In xs others ref info later i found))

  -- After the loop over the order, the builder has a layer under the info of each layer that came
  -- with a reference of the order.
  add_order_layers :
      (bb done : BuilderBlder I) (entries : List BuilderOrderEntry) (entry : BuilderOrderEntry)
      (ref : BuilderBuildpackRef) (info : RemoteBuildpackInfo Layer) (l : BuildpackLayer Layer)
      → add_order I F bb entries ≡ ok done
      → In entry entries
      → In ref entry.group
      → F.resolve_and_fetch ref ≡ ok info
      → In l info.layers
      → HasKey done l.buildpack_info
  unfolding add_order optional_ref
  add_order_layers bb done [] entry ref info l e i j found k = elim i [ ]
  add_order_layers bb done (x ∷ xs) entry ref info l e (inl same) j found k =
      let (refs, fetched, rest) = bind-ok_inv (fetch_group I F x.group) _ done e in
      let at_x : In ref x.group = subst (λ y. In ref y.group) same j in
      let member = fetch_group-In x.group refs ref info fetched at_x found in
      let (kept, here, from) =
        add_group_layers I bb refs (optional_ref info ref.optional) l member k in
      add_order-HasKey (add_group I bb refs) done xs l.buildpack_info rest (kept, here)
  add_order_layers bb done (x ∷ xs) entry ref info l e (inr i) j found k =
      let (refs, fetched, rest) = bind-ok_inv (fetch_group I F x.group) _ done e in
      add_order_layers (add_group I bb refs) done xs entry ref info l rest i j found k

module _ (I : Imaging) (S : Semver) (any_stack_minimum relaxed_minimum : S.Version) (C : Remote I)
    (F : RemoteBuildpackFetcher I.Layer) (kpack_version : String)
    (args : CreateArgs C.Keychain C.Secret) where
  open I use {Layer}

  -- The record of a builder that is created lists each buildpack that came with a layer with a
  -- reference of the order.
  pub create_builder_lists :
      (h g : List (Write I S any_stack_minimum relaxed_minimum C)) (r : BuilderRecord)
      (entry : BuilderOrderEntry) (ref : BuilderBuildpackRef) (info : RemoteBuildpackInfo Layer)
      (l : BuildpackLayer Layer)
      → create_builder I S any_stack_minimum relaxed_minimum C F kpack_version args h ≡ (ok r, g)
      → In entry args.spec.order
      → In ref entry.group
      → F.resolve_and_fetch ref ≡ ok info
      → In l info.layers
      → In (metadata_entry l.buildpack_info) r.buildpacks
  unfolding record_of add_lifecycle add_additional_labels
  create_builder_lists h g r entry ref info l e i j found k =
      let made =
        create_builder-Created I S any_stack_minimum relaxed_minimum C F kpack_version args h g r
          e in
      let (kept, here) =
        add_order_layers I F (add_lifecycle I made.stacked made.lifecycle.0 made.lifecycle.1)
          made.ordered args.spec.order entry ref info l made.is_ordered i j found k in
      let listed = buildpack_metadata-In _ l.buildpack_info (
        deterministic_sort_by_size-In I made.ordered.buildpack_layers l.buildpack_info kept here) in
      subst (λ x. In (metadata_entry l.buildpack_info) x.buildpacks) made.is_recorded listed
