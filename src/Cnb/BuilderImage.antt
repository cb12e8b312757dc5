-- ===== src/Cnb/BuilderImage.antt =====
-- builder_builder.go and builder_layers.go: the assembly of the image of a builder.
pub mod Layers
pub mod Grouped
pub mod Valid
use Prim.Native.String.{compare}
use text.Mathlib.Text.{is_lt}
use kpack.Prelude.Sorting.{sort}
use kpack.Prelude.{
  ◌>>=◌, ℕ, ℤ, pos, ltb_ℤ, String, Bool, true, false, ◌&&◌, ◌||◌, not, List, [], ◌∷◌, ◌++◌, map,
  Option, none, some, if◌then◌else◌, ◌==◌, any, Result, ok, err, Error, plain,
}
use kpack.Api.Meta.{StringMap}
use kpack.Api.BuilderTypes.{ClusterStack}
use kpack.Cnb.Resources.{BuildpackRef, OrderEntry}
use kpack.Cnb.Resolver.{Semver}
use kpack.Cnb.Fetcher.{BuildpackLayer, BuildpackLayerInfo, DescriptiveBuildpackInfo}
use kpack.Cnb.Support.{Check, info_string, validate_platform_apis, validate_buildpacks}
use kpack.Cnb.Imaging.{
  ApiVersions, LifecycleMetadata, RemoteBuildpackRef, ConfigFile, Dir, BuildpackLayerMetadata,
  BuilderLabels, Imaging, same_info, no_layer_info,
}

module _ (I : Imaging) where
  open I use {Image, Layer}

  -- The map of the builder's layers, by the info of each.
  abbrev pub LayerMap : Type 0
  LayerMap = List (DescriptiveBuildpackInfo × BuildpackLayer Layer)

  unfoldable pub layer_of : LayerMap → DescriptiveBuildpackInfo → Option (BuildpackLayer Layer)
  layer_of [] key = none
  layer_of (e ∷ es) key = let rest = layer_of es key in if same_info e.0 key then some e.1 else rest

  unfoldable pub put_layer : LayerMap → BuildpackLayer Layer → LayerMap
  put_layer [] l = (l.buildpack_info, l) ∷ []
  put_layer (e ∷ es) l =
      let rest = put_layer es l in
      if same_info e.0 l.buildpack_info then (e.0, l) ∷ es else e ∷ rest

  unfoldable pub put_layers : LayerMap → List (BuildpackLayer Layer) → LayerMap
  unfolding put_layer
  put_layers m [] = m
  put_layers m (l ∷ ls) = put_layers (put_layer m l) ls

  pub record BuilderBlder : Type 0 where
    pub base_image : Image
    pub lifecycle_layer : Layer
    pub lifecycle_metadata : LifecycleMetadata
    pub stack_id : String
    pub order : List OrderEntry
    pub buildpack_layers : LayerMap
    pub cnb_user_id : ℤ
    pub cnb_group_id : ℤ
    pub kpack_version : String
    pub run_image : String
    pub mixins : List String
    pub os : String
    pub arch : String
    pub arch_variant : String
    pub additional_labels : StringMap

  -- `newBuilderBldr`: an empty map of layers, and the zero values of Go.
  unfoldable pub new_builder_bldr : String → BuilderBlder
  new_builder_bldr kpack_version = record {
    base_image = I.nil_image;
    lifecycle_layer = I.nil_layer;
    lifecycle_metadata = record {
      version = "";
      buildpack_version = "";
      platform_version = "";
      buildpack = record { deprecated = []; supported = [] };
      platform = record { deprecated = []; supported = [] };
    };
    stack_id = "";
    order = [];
    buildpack_layers = [];
    cnb_user_id = pos 0;
    cnb_group_id = pos 0;
    kpack_version = kpack_version;
    run_image = "";
    mixins = [];
    os = "";
    arch = "";
    arch_variant = "";
    additional_labels = [];
  }

  unfoldable pub add_stack : BuilderBlder → Image → ClusterStack → Result BuilderBlder
  add_stack bb base stack = I.config_file base >>= λ file.
      if file.os == "windows"
      then err (plain "windows base images are not supported")
      else ok (record bb {
        os = file.os;
        arch = file.architecture;
        arch_variant = file.variant;
        base_image = base;
        stack_id = stack.resolved.id;
        mixins = stack.resolved.mixins;
        cnb_user_id = stack.resolved.user_id;
        cnb_group_id = stack.resolved.group_id;
      })

  unfoldable pub add_lifecycle : BuilderBlder → Layer → LifecycleMetadata → BuilderBlder
  add_lifecycle bb layer metadata = record bb {
    lifecycle_layer = layer;
    lifecycle_metadata = metadata;
  }

  unfoldable pub add_run_image : BuilderBlder → String → BuilderBlder
  add_run_image bb run_image = record bb { run_image = run_image }

  unfoldable pub add_additional_labels : BuilderBlder → StringMap → BuilderBlder
  add_additional_labels bb labels = record bb { additional_labels = labels }

  unfoldable pub buildpack_ref : RemoteBuildpackRef Layer → BuildpackRef
  buildpack_ref r = record {
    id = r.descriptive_buildpack_info.id;
    version = r.descriptive_buildpack_info.version;
    optional = r.optional;
  }

  unfoldable pub layers_of : List (RemoteBuildpackRef Layer) → List (BuildpackLayer Layer)
  layers_of [] = []
  layers_of (r ∷ rs) = r.layers ++ layers_of rs

  unfoldable pub add_group : BuilderBlder → List (RemoteBuildpackRef Layer) → BuilderBlder
  unfolding buildpack_ref layers_of put_layers
  add_group bb refs = record bb {
    buildpack_layers = put_layers bb.buildpack_layers (layers_of refs);
    order = bb.order ++ (record { group = map buildpack_ref refs } ∷ []);
  }

  abbrev pub size_of : LayerMap → DescriptiveBuildpackInfo → ℤ
  unfolding layer_of
  size_of m key = elim (layer_of m key) [ none ↦ pos 0 | some l ↦ I.size l.v1_layer ]

  unfoldable pub larger : LayerMap → DescriptiveBuildpackInfo → DescriptiveBuildpackInfo → Bool
  unfolding info_string size_of
  larger m a b =
      if not (ltb_ℤ (size_of m a) (size_of m b)) && not (ltb_ℤ (size_of m b) (size_of m a))
      then is_lt (compare (info_string b) (info_string a))
      else ltb_ℤ (size_of m b) (size_of m a)

  -- The keys in the order of the map's iteration, sorted.
  unfoldable pub deterministic_sort_by_size : LayerMap → List DescriptiveBuildpackInfo
  unfolding larger sort
  deterministic_sort_by_size m = sort (larger m) (map (λ e. e.0) m)

  -- The hashes seen so far are kept in a map; a layer without a hash is kept.
  unfoldable pub dedupe : List String → List Layer → List Layer
  unfolding any
  dedupe seen [] = []
  dedupe seen (l ∷ ls) = elim (I.diff_id l) [
    | err e ↦ l ∷ dedupe seen ls
    | ok d ↦
        let new = dedupe (d ∷ seen) ls in
        let old = dedupe seen ls in if any (λ s. s == d) seen then old else l ∷ new
  ]

  unfoldable pub deduplicate_layers : List Layer → List Layer
  unfolding dedupe
  deduplicate_layers ls = dedupe [] ls

  unfoldable pub default_dirs : BuilderBlder → List Dir
  default_dirs bb =
      record { path = "/workspace"; uid = bb.cnb_user_id; gid = bb.cnb_group_id }
      ∷ record { path = "/layers"; uid = bb.cnb_user_id; gid = bb.cnb_group_id }
      ∷ record { path = "/cnb"; uid = pos 0; gid = pos 0 }
      ∷ record { path = "/cnb/buildpacks"; uid = pos 0; gid = pos 0 }
      ∷ record { path = "/platform"; uid = pos 0; gid = pos 0 }
      ∷ record { path = "/platform/env"; uid = pos 0; gid = pos 0 }
      ∷ []

  unfoldable pub stack_layer : BuilderBlder → Result Layer
  stack_layer bb = do
    contents ← I.run_image_toml bb.run_image
    I.file_layer "/cnb/stack.toml" contents

  unfoldable pub order_layer : BuilderBlder → Result Layer
  order_layer bb = do
    contents ← I.order_toml (map (λ e. e.group) bb.order)
    I.file_layer "/cnb/order.toml" contents

  abbrev pub info_at : LayerMap → DescriptiveBuildpackInfo → BuildpackLayerInfo
  unfolding layer_of
  info_at m key = elim (layer_of m key) [ none ↦ no_layer_info | some l ↦ l.buildpack_layer_info ]

  -- The layers that the loop over the sorted keys collects. Every key is one of the map.
  unfoldable pub sorted_layers :
      LayerMap → List DescriptiveBuildpackInfo → List (BuildpackLayer Layer)
  unfolding layer_of
  sorted_layers m [] = []
  sorted_layers m (k ∷ ks) = elim (layer_of m k) [
    | none ↦ sorted_layers m ks
    | some l ↦ l ∷ sorted_layers m ks
  ]

  unfoldable pub add_metadata :
      BuildpackLayerMetadata → BuildpackLayer Layer → BuildpackLayerMetadata
  add_metadata m l = λ id version.
      if l.buildpack_info.id == id && l.buildpack_info.version == version
      then some l.buildpack_layer_info
      else m id version

  unfoldable pub metadata_of :
      BuildpackLayerMetadata → List (BuildpackLayer Layer) → BuildpackLayerMetadata
  unfolding add_metadata
  metadata_of m [] = m
  metadata_of m (l ∷ ls) = metadata_of (add_metadata m l) ls

  unfoldable pub image_layers :
      BuilderBlder → Layer → List (BuildpackLayer Layer) → Layer → Layer → List Layer
  unfolding deduplicate_layers
  image_layers bb default buildpacks stack order =
      deduplicate_layers
        (default ∷ bb.lifecycle_layer ∷ (map (λ l. l.v1_layer) buildpacks ++ (stack ∷ order ∷ [])))

  module _ (S : Semver) (any_stack_minimum relaxed_minimum : S.Version) where
    unfoldable pub validate_builder : BuilderBlder → List DescriptiveBuildpackInfo → Check
    unfolding validate_platform_apis validate_buildpacks info_at
    validate_builder bb keys =
        let platform_apis =
          bb.lifecycle_metadata.platform.deprecated ++ bb.lifecycle_metadata.platform.supported in
        let buildpack_apis =
          bb.lifecycle_metadata.buildpack.deprecated ++ bb.lifecycle_metadata.buildpack.supported in
        do
          platform ← validate_platform_apis platform_apis
          validate_buildpacks S any_stack_minimum relaxed_minimum platform_apis buildpack_apis
              bb.stack_id bb.mixins (map (λ k. (k, info_at bb.buildpack_layers k)) keys)

    unfoldable pub writeable_image : BuilderBlder → Result Image
    unfolding deterministic_sort_by_size validate_builder sorted_layers default_dirs stack_layer
        order_layer image_layers metadata_of
    writeable_image bb =
        let keys = deterministic_sort_by_size bb.buildpack_layers in
        let buildpacks = sorted_layers bb.buildpack_layers keys in
        do
          valid ← validate_builder bb keys
          default ← I.dirs_layer (default_dirs bb)
          stack ← stack_layer bb
          order ← order_layer bb
          layered ← I.append_layers bb.base_image (image_layers bb default buildpacks stack order)
          placed ← I.set_working_dir layered "/layers"
          versioned ←
              I.set_string_label placed "io.buildpacks.lifecycle.version"
                bb.lifecycle_metadata.version
          labelled ← I.set_string_labels versioned bb.additional_labels
          I.set_labels labelled (record {
            order = bb.order;
            layers = metadata_of (λ id version. none) buildpacks;
            lifecycle = bb.lifecycle_metadata;
            run_image = bb.run_image;
            kpack_version = bb.kpack_version;
            buildpacks = keys;
          })
