-- ===== src/Cnb/CreateBuilder.antt =====
-- create_builder.go, `CreateBuilder`: from the images of a stack and of a lifecycle and the order of
-- a builder to the images that the registry holds and the record of them.
pub mod Created
pub mod Listed
pub mod Saved
use kpack.Prelude.Run.{M, ◌>>=◌, pure, lift, ask, request}
use kpack.Prelude.{String, List, [], ◌∷◌, ◌<>◌, Result}
use kpack.Api.BuilderTypes.{
  BuilderRecord, BuilderSpec, ClusterLifecycle, ClusterStack, CosignSignature,
}
use kpack.Cnb.Resolver.{Semver}
use kpack.Cnb.Imaging.{Imaging}
use kpack.Cnb.BuilderImage.{
  BuilderBlder, new_builder_bldr, add_stack, add_lifecycle, add_run_image, add_additional_labels,
  deterministic_sort_by_size, writeable_image,
}
use kpack.Cnb.BuilderParts.{
  RemoteBuildpackFetcher, get_lifecycle_layer, add_order, buildpack_metadata,
}

-- What the creator asks of a registry: to save an image under a name and to sign what it saved.
pub data RegistryWrite (Keychain Secret Image : Type 0) : Type 0 where
  save : Keychain → String → Image → RegistryWrite Keychain Secret Image
  sign_builder : String → List Secret → Keychain → RegistryWrite Keychain Secret Image

-- The interfaces `RegistryClient` and `BuilderSigner`. `fetch` answers with the image alone: the
-- creator reads no identifier.
pub record Remote (I : Imaging) : Type 1 where
  pub Keychain : Type 0
  pub Secret : Type 0
  pub fetch : List (RegistryWrite Keychain Secret I.Image) → Keychain → String → Result I.Image
  pub answer_save :
      List (RegistryWrite Keychain Secret I.Image) → Keychain → String → I.Image → Result String
  pub answer_sign :
      List (RegistryWrite Keychain Secret I.Image)
      → String
      → List Secret
      → Keychain
      → Result (List CosignSignature)

-- What the caller hands over beside the fetcher.
pub record CreateArgs (Keychain Secret : Type 0) : Type 0 where
  pub builder_keychain : Keychain
  pub stack_keychain : Keychain
  pub lifecycle_keychain : Keychain
  pub cluster_stack : ClusterStack
  pub cluster_lifecycle : ClusterLifecycle
  pub spec : BuilderSpec
  pub service_account_secrets : List Secret
  pub resolved_builder_ref : String

module _ (I : Imaging) (S : Semver) (any_stack_minimum relaxed_minimum : S.Version)
    (C : Remote I) where
  open I use {Image}
  open C use {Keychain, Secret}

  abbrev pub Write : Type 0
  Write = RegistryWrite Keychain Secret Image

  unfoldable pub save_image : Keychain → String → Image → M Write String
  save_image keychain tag image =
      request (save keychain tag image) (λ h. C.answer_save h keychain tag image)

  unfoldable pub signatures : String → List Secret → Keychain → M Write (List CosignSignature)
  signatures identifier [] keychain = pure []
  signatures identifier (s ∷ ss) keychain =
      request (sign_builder identifier (s ∷ ss) keychain)
        (λ h. C.answer_sign h identifier (s ∷ ss) keychain)

  -- The record of a builder, from the state of the assembly and what the registry answered.
  unfoldable pub record_of :
      RemoteBuildpackFetcher I.Layer
      → CreateArgs Keychain Secret
      → BuilderBlder I
      → String
      → String
      → String
      → List CosignSignature
      → BuilderRecord
  unfolding buildpack_metadata deterministic_sort_by_size
  record_of F args bb identifier run_image os paths = record {
    image = identifier;
    stack = record { run_image = run_image; id = args.cluster_stack.resolved.id };
    lifecycle = record {
      image = record { latest_image = ""; image = "" };
      version = args.cluster_lifecycle.resolved.version;
      api = args.cluster_lifecycle.resolved.api;
      apis = args.cluster_lifecycle.resolved.apis;
    };
    buildpacks = buildpack_metadata (deterministic_sort_by_size I bb.buildpack_layers);
    order = bb.order;
    observed_store_generation = F.cluster_store_observed_generation;
    observed_stack_generation = args.cluster_stack.status.observed_generation;
    os = os;
    signature_paths = paths;
  }

  unfoldable pub create_builder :
      RemoteBuildpackFetcher I.Layer → String → CreateArgs Keychain Secret → M Write BuilderRecord
  unfolding new_builder_bldr save_image add_run_image add_stack get_lifecycle_layer add_lifecycle
      add_order add_additional_labels writeable_image signatures record_of
  create_builder F kpack_version args = do
    let stack = args.cluster_stack.resolved
    build_image ← ask (λ h. C.fetch h args.stack_keychain stack.build_image.latest_image)
    run_image ← ask (λ h. C.fetch h args.stack_keychain stack.run_image.latest_image)
    lifecycle_image ←
        ask (λ h.
          C.fetch h args.lifecycle_keychain args.cluster_lifecycle.resolved.image.latest_image)
    relocated ←
        save_image args.builder_keychain (args.resolved_builder_ref <> "-run-image") run_image
    stacked ← lift (
        add_stack I (add_run_image I (new_builder_bldr I kpack_version) relocated) build_image
          args.cluster_stack)
    lifecycle ← lift (get_lifecycle_layer I args.cluster_lifecycle lifecycle_image stacked)
    ordered ← lift (add_order I F (add_lifecycle I stacked lifecycle.0 lifecycle.1) args.spec.order)
    let bb = add_additional_labels I ordered args.spec.additional_labels
    image ← lift (writeable_image I S any_stack_minimum relaxed_minimum bb)
    identifier ← save_image args.builder_keychain args.resolved_builder_ref image
    config ← lift (I.config_file image)
    paths ← signatures identifier args.service_account_secrets args.builder_keychain
    pure (record_of F args bb identifier relocated config.os paths)
