-- ===== src/Cnb/BuilderParts.antt =====
-- create_builder.go: the parts of a builder that are made without a write: the layer of the
-- lifecycle and the groups of the order.
use kpack.Prelude.Outcome.{Outcome, returns, fails, unfinished}
use kpack.Prelude.{
  ◌>>=◌, ℕ, String, Bool, ◌&&◌, not, List, [], ◌∷◌, none, some, if◌then◌else◌, ◌==◌, ◌<>◌, last?,
  Result, ok, err, plain, not_found, invalid, network, panicked, permanent, Error,
}
use kpack.Api.Builder.{BuildpackMetadata}
use kpack.Api.BuilderTypes.{BuilderOrderEntry, ClusterLifecycle, ResolvedClusterLifecycle}
use kpack.Cnb.Resources.{BuilderBuildpackRef}
use kpack.Cnb.Fetcher.{DescriptiveBuildpackInfo, RemoteBuildpackInfo, Registry, resolve_and_fetch}
use kpack.Cnb.Resolver.{Semver, BuildpackResolver, cluster_store_observed_generation}
use kpack.Cnb.Support.{Check}
use kpack.Cnb.Imaging.{Imaging, LifecycleMetadata, RemoteBuildpackRef, ConfigFile}
use kpack.Cnb.BuilderImage.{BuilderBlder, add_group}

-- The interface of the fetcher of buildpacks, as far as the creator of builders calls it.
pub record RemoteBuildpackFetcher (Layer : Type 0) : Type 0 where
  pub resolve_and_fetch : BuilderBuildpackRef → Result (RemoteBuildpackInfo Layer)
  pub cluster_store_observed_generation : ℕ

-- A recursion that does not end overflows Go's stack.
abbrev pub unless_overflow {ℓ} : {A : Type ℓ} → Outcome A → Result A
unless_overflow (returns a) = ok a
unless_overflow (fails e) = err e
unless_overflow unfinished = err (panicked "stack overflow")

-- `NewRemoteBuildpackFetcher`, on fuel for the trees of the resolver and for the fetching.
abbrev pub new_remote_buildpack_fetcher :
    (R : Registry) → Semver → ℕ → ℕ → BuildpackResolver → RemoteBuildpackFetcher R.Layer
unfolding resolve_and_fetch cluster_store_observed_generation
new_remote_buildpack_fetcher R S m n r = record {
  resolve_and_fetch = λ ref. unless_overflow (resolve_and_fetch R S r m n ref);
  cluster_store_observed_generation = cluster_store_observed_generation r;
}

-- A platform: an operating system, an architecture and a variant of it.
unfoldable pub platform_matches : ConfigFile → ConfigFile → Bool
platform_matches want got =
    not (not (want.os == got.os))
    && (not (
          not (want.architecture == "")
          && not (got.architecture == "")
          && not (want.architecture == got.architecture))
        && not (
            not (want.variant == "")
            && not (got.variant == "")
            && not (want.variant == got.variant)))

unfoldable pub to_cnb_api_set : List String → List String
to_cnb_api_set [] = []
to_cnb_api_set (f ∷ from) = f ∷ to_cnb_api_set from

unfoldable pub lifecycle_metadata_of : ResolvedClusterLifecycle → LifecycleMetadata
unfolding to_cnb_api_set
lifecycle_metadata_of r = record {
  version = r.version;
  buildpack_version = r.api.buildpack_version;
  platform_version = r.api.platform_version;
  buildpack = record {
    deprecated = to_cnb_api_set r.apis.buildpack.deprecated;
    supported = to_cnb_api_set r.apis.buildpack.supported;
  };
  platform = record {
    deprecated = to_cnb_api_set r.apis.platform.deprecated;
    supported = to_cnb_api_set r.apis.platform.supported;
  };
}

unfoldable pub buildpack_metadata : List DescriptiveBuildpackInfo → List BuildpackMetadata
buildpack_metadata [] = []
buildpack_metadata (b ∷ bs) =
    record { id = b.id; version = b.version; homepage = b.homepage } ∷ buildpack_metadata bs

-- `fmt.Errorf` with the error that it wraps after a text: the kind of the error is still found.
abbrev pub with_text : String → Error → Error
with_text text (plain m) = plain (text <> ": " <> m)
with_text text (not_found m) = not_found (text <> ": " <> m)
with_text text (invalid m) = invalid (text <> ": " <> m)
with_text text (network m) = network (text <> ": " <> m)
with_text text (panicked m) = panicked m
with_text text (permanent e) = permanent (with_text text e)

abbrev pub labelled {ℓ} : {A : Type ℓ} → String → Result A → Result A
labelled text (ok a) = ok a
labelled text (err e) = err (with_text text e)

abbrev pub platform_text : ConfigFile → String
platform_text p = p.os <> "/" <> p.architecture <> "/" <> p.variant

-- `RemoteBuildpackInfo.Optional`.
unfoldable pub optional_ref :
    {Layer : Type 0} → RemoteBuildpackInfo Layer → Bool → RemoteBuildpackRef Layer
optional_ref info optional = record {
  descriptive_buildpack_info = info.buildpack_info;
  optional = optional;
  layers = info.layers;
}

module _ (I : Imaging) where
  open I use {Image, Layer}

  -- The platform of the stack's build image, as the builder has kept it.
  abbrev pub builder_platform : BuilderBlder I → ConfigFile
  builder_platform bb = record { os = bb.os; architecture = bb.arch; variant = bb.arch_variant }

  unfoldable pub last_layer : Image → Result Layer
  unfolding last?
  last_layer image = do
    digests ← labelled "failed to get manifest file" (I.manifest_layers image)
    elim (last? digests) [
      | none ↦ err (plain "failed to find lifecycle image layers")
      | some digest ↦ I.layer_by_digest image digest
    ]

  unfoldable pub check_platform : String → BuilderBlder I → Image → Check
  unfolding platform_matches
  check_platform name bb image = do
    config ← labelled "failed to get config file" (I.config_file image)
    if platform_matches (builder_platform bb) config
        then ok tt
        else err (
            plain (
              "validating lifecycle image "
              <> name
              <> ": expected platform to be "
              <> platform_text (builder_platform bb)
              <> " but got "
              <> platform_text config))

  unfoldable pub get_lifecycle_layer :
      ClusterLifecycle → Image → BuilderBlder I → Result (Layer × LifecycleMetadata)
  unfolding lifecycle_metadata_of last_layer check_platform
  get_lifecycle_layer lifecycle image bb = do
    layer ← labelled "failed to find lifecycle layer" (last_layer image)
    matched ← check_platform lifecycle.spec_image bb image
    ok (layer, lifecycle_metadata_of lifecycle.resolved)

  module _ (F : RemoteBuildpackFetcher Layer) where
    unfoldable pub fetch_group : List BuilderBuildpackRef → Result (List (RemoteBuildpackRef Layer))
    unfolding optional_ref
    fetch_group [] = ok []
    fetch_group (ref ∷ refs) = do
      info ← F.resolve_and_fetch ref
      rest ← fetch_group refs
      ok (optional_ref info ref.optional ∷ rest)

    unfoldable pub add_order : BuilderBlder I → List BuilderOrderEntry → Result (BuilderBlder I)
    unfolding fetch_group add_group
    add_order bb [] = ok bb
    add_order bb (entry ∷ entries) = do
      buildpacks ← fetch_group entry.group
      add_order (add_group I bb buildpacks) entries
