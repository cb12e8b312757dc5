-- ===== src/Cnb/BuilderImage/Valid.antt =====
-- builder_builder.go, `WriteableImage`: what a builder image that is made holds.
use kpack.Prelude.Sorting.{In-sort_of}
use kpack.Prelude.{
  ◌≡◌, refl, sym, subst, String, Bool, List, [], ◌∷◌, ◌++◌, map, some, In, In-map, In-append_left,
  inl, inr, Bool-cases, Option-cases, ok, bind-ok_inv,
}
use kpack.Cnb.Fetcher.{BuildpackLayer, DescriptiveBuildpackInfo}
use kpack.Cnb.Resolver.{Semver}
use kpack.Cnb.Support.{relaxed_mixin_contract, validate_platform_apis}
use kpack.Cnb.Support.Supported.{IsSupported, validate_buildpacks_sound}
use kpack.Api.Meta.{StringMap}
use kpack.Cnb.Imaging.{Imaging, BuilderLabels, same_info}
use kpack.Cnb.BuilderImage.{
  LayerMap, BuilderBlder, layer_of, larger, deterministic_sort_by_size, sorted_layers, image_layers,
  info_at, validate_builder, writeable_image, default_dirs, stack_layer, order_layer,
}
use kpack.Cnb.BuilderImage.Layers.{same_info_eq, deduplicate_layers_covers}

-- What is relied on of the library of images: an appended layer is in the image, and labels and the
-- working directory change the configuration alone.
pub record KeepsLayers (I : Imaging) (Holds : I.Image → I.Layer → Type 0) : Type 0 where
  pub append_holds :
      (i j : I.Image) (ls : List I.Layer) (l : I.Layer)
      → I.append_layers i ls ≡ ok j
      → In l ls
      → Holds j l
  pub working_dir_holds :
      (i j : I.Image) (dir : String) (l : I.Layer)
      → I.set_working_dir i dir ≡ ok j
      → Holds i l
      → Holds j l
  pub string_label_holds :
      (i j : I.Image) (key value : String) (l : I.Layer)
      → I.set_string_label i key value ≡ ok j
      → Holds i l
      → Holds j l
  pub string_labels_holds :
      (i j : I.Image) (labels : StringMap) (l : I.Layer)
      → I.set_string_labels i labels ≡ ok j
      → Holds i l
      → Holds j l
  pub labels_holds :
      (i j : I.Image) (labels : BuilderLabels) (l : I.Layer)
      → I.set_labels i labels ≡ ok j
      → Holds i l
      → Holds j l

module _ (I : Imaging) where
  open I use {Layer}

  layer_of-In :
      (m : LayerMap I) (key : DescriptiveBuildpackInfo) (l : BuildpackLayer Layer)
      → layer_of I m key ≡ some l
      → In key (map (λ e. e.0) m)
  unfolding layer_of
  layer_of-In [] key l e = cc
  layer_of-In (x ∷ xs) key l e = elim (Bool-cases (same_info x.0 key)) [
    | inl t ↦ inl (sym (same_info_eq x.0 key t))
    | inr f ↦ inr (layer_of-In xs key l (rw (layer_of, f) at e))
  ]

  -- The sorting keeps every key.
  pub deterministic_sort_by_size-In :
      (m : LayerMap I) (key : DescriptiveBuildpackInfo) (l : BuildpackLayer Layer)
      → layer_of I m key ≡ some l
      → In key (deterministic_sort_by_size I m)
  unfolding deterministic_sort_by_size
  deterministic_sort_by_size-In m key l e =
      In-sort_of (larger I m) key (map (λ x. x.0) m) (layer_of-In m key l e)

  sorted_layers-In :
      (m : LayerMap I) (keys : List DescriptiveBuildpackInfo) (key : DescriptiveBuildpackInfo)
      (l : BuildpackLayer Layer)
      → layer_of I m key ≡ some l
      → In key keys
      → In l (sorted_layers I m keys)
  unfolding sorted_layers
  sorted_layers-In m [] key l e i = elim i [ ]
  sorted_layers-In m (k ∷ ks) key l e (inl same) =
      let at_k : layer_of I m k ≡ some l = subst (λ x. layer_of I m x ≡ some l) same e in
      rw (at_k, sorted_layers) (inl refl)
  sorted_layers-In m (k ∷ ks) key l e (inr i) = elim (Option-cases (layer_of I m k)) [
    | inl missing ↦ rw (missing, sorted_layers) (sorted_layers-In m ks key l e i)
    | inr (x, found) ↦ rw (found, sorted_layers) (inr (sorted_layers-In m ks key l e i))
  ]

  abbrev pub layers_in_order : BuilderBlder I → List (BuildpackLayer Layer)
  layers_in_order bb =
      sorted_layers I bb.buildpack_layers (deterministic_sort_by_size I bb.buildpack_layers)

  -- The layers that are appended to the base image have the hash of each buildpack's layer.
  image_layers_covers :
      (bb : BuilderBlder I) (default stack order : Layer) (key : DescriptiveBuildpackInfo)
      (l : BuildpackLayer Layer) (d : String)
      → layer_of I bb.buildpack_layers key ≡ some l
      → I.diff_id l.v1_layer ≡ ok d
      → (k : Layer) × In k (image_layers I bb default (layers_in_order bb) stack order)
        × (I.diff_id k ≡ ok d)
  unfolding image_layers
  image_layers_covers bb default stack order key l d e h =
      let i : In l (layers_in_order bb) =
        sorted_layers-In bb.buildpack_layers (deterministic_sort_by_size I bb.buildpack_layers) key
          l e (deterministic_sort_by_size-In bb.buildpack_layers key l e) in
      let all_layers : List Layer =
        default
        ∷ bb.lifecycle_layer
        ∷ (map (λ x. x.v1_layer) (layers_in_order bb) ++ (stack ∷ order ∷ [])) in
      let j : In l.v1_layer all_layers = inr (
        inr (
          In-append_left l.v1_layer (map (λ x. x.v1_layer) (layers_in_order bb))
            (stack ∷ order ∷ []) (In-map (λ x. x.v1_layer) l (layers_in_order bb) i))) in
      deduplicate_layers_covers I all_layers l.v1_layer d j h

  abbrev pub platform_apis : BuilderBlder I → List String
  platform_apis bb =
      bb.lifecycle_metadata.platform.deprecated ++ bb.lifecycle_metadata.platform.supported

  abbrev pub buildpack_apis : BuilderBlder I → List String
  buildpack_apis bb =
      bb.lifecycle_metadata.buildpack.deprecated ++ bb.lifecycle_metadata.buildpack.supported

  module _ (S : Semver) (any_stack_minimum relaxed_minimum : S.Version) where
    -- The lifecycle and the stack of a builder whose image is made support each buildpack of it, and
    -- the image holds a layer with the hash of the buildpack's layer, if that has a hash. Of the
    -- library of images it is relied on that an appended layer is in the image, and that labels and
    -- the working directory leave the layers alone.
    pub writeable_image_sound :
        (bb : BuilderBlder I) (img : I.Image) (key : DescriptiveBuildpackInfo)
        (l : BuildpackLayer Layer) (d : String) (Holds : I.Image → Layer → Type 0)
        → KeepsLayers I Holds
        → writeable_image I S any_stack_minimum relaxed_minimum bb ≡ ok img
        → layer_of I bb.buildpack_layers key ≡ some l
        → I.diff_id l.v1_layer ≡ ok d
        → ((relaxed : Bool) × (relaxed_mixin_contract S any_stack_minimum relaxed_minimum
                (platform_apis bb)
              ≡ ok relaxed)
            × IsSupported S any_stack_minimum l.buildpack_layer_info
                (buildpack_apis bb)
                bb.stack_id
                bb.mixins
                relaxed)
          × ((k : Layer) × Holds img k × (I.diff_id k ≡ ok d))
    unfolding writeable_image validate_builder
    writeable_image_sound bb img key l d Holds keeps e found hash =
        let keys = deterministic_sort_by_size I bb.buildpack_layers in
        let (valid, validated, rest) =
          bind-ok_inv (validate_builder I S any_stack_minimum relaxed_minimum bb keys) _ img e in
        let (platform, supported, buildpacks) =
          bind-ok_inv (validate_platform_apis (platform_apis bb)) _ tt validated in
        let (default, made, rest₂) = bind-ok_inv (I.dirs_layer (default_dirs I bb)) _ img rest in
        let (stack, made_stack, rest₃) = bind-ok_inv (stack_layer I bb) _ img rest₂ in
        let (order, made_order, rest₄) = bind-ok_inv (order_layer I bb) _ img rest₃ in
        let appended = image_layers I bb default (layers_in_order bb) stack order in
        let (layered, append, rest₅) =
          bind-ok_inv (I.append_layers bb.base_image appended) _ img rest₄ in
        let (placed, working, rest₅₁) =
          bind-ok_inv (I.set_working_dir layered "/layers") _ img rest₅ in
        let (versioned, version, rest₆) =
          bind-ok_inv
            (I.set_string_label placed "io.buildpacks.lifecycle.version"
              bb.lifecycle_metadata.version)
            _ img rest₅₁ in
        let (labelled, additional, last) =
          bind-ok_inv (I.set_string_labels versioned bb.additional_labels) _ img rest₆ in
        let (k, member, same_hash) =
          image_layers_covers bb default stack order key l d found hash in
        let (relaxed, contract, supports) =
          validate_buildpacks_sound S any_stack_minimum relaxed_minimum (platform_apis bb)
            (buildpack_apis bb) bb.stack_id bb.mixins
            (map (λ k. (k, info_at I bb.buildpack_layers k)) keys)
            (key, info_at I bb.buildpack_layers key) buildpacks
            (In-map (λ k. (k, info_at I bb.buildpack_layers k)) key keys
              (deterministic_sort_by_size-In bb.buildpack_layers key l found)) in
        let info : info_at I bb.buildpack_layers key ≡ l.buildpack_layer_info =
          rw (found, info_at) refl in
        (
          (
            relaxed,
            contract,
            subst
                (λ x.
                  IsSupported S any_stack_minimum x (buildpack_apis bb) bb.stack_id bb.mixins
                    relaxed)
                info supports,
          ),
          (
            k,
            keeps.labels_holds labelled img _ k last (
                keeps.string_labels_holds versioned labelled bb.additional_labels k additional (
                  keeps.string_label_holds placed versioned "io.buildpacks.lifecycle.version"
                    bb.lifecycle_metadata.version k version
                    (keeps.working_dir_holds layered placed "/layers" k working
                      (keeps.append_holds bb.base_image layered appended k append member)))),
            same_hash,
          ),
        )
