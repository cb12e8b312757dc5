-- ===== src/Cnb/CreateBuilder/Created.antt =====
-- create_builder.go, `CreateBuilder`: what a creation that ends well went through.
use kpack.Prelude.Answers.{ask_bind-inv, lift_bind-inv, request_bind-inv, bind_pure-inv}
use kpack.Prelude.{◌≡◌, String, List, ◌∷◌, ◌<>◌, ok}
use kpack.Api.BuilderTypes.{BuilderRecord, CosignSignature}
use kpack.Cnb.Resolver.{Semver}
use kpack.Cnb.Imaging.{Imaging, LifecycleMetadata, ConfigFile}
use kpack.Cnb.BuilderImage.{
  BuilderBlder, new_builder_bldr, add_stack, add_lifecycle, add_run_image, add_additional_labels,
  writeable_image,
}
use kpack.Cnb.BuilderParts.{RemoteBuildpackFetcher, get_lifecycle_layer, add_order}
use kpack.Cnb.CreateBuilder.{
  save, Remote, CreateArgs, Write, save_image, signatures, record_of, create_builder,
}

module _ (I : Imaging) (S : Semver) (any_stack_minimum relaxed_minimum : S.Version) (C : Remote I)
    (F : RemoteBuildpackFetcher I.Layer) (kpack_version : String)
    (args : CreateArgs C.Keychain C.Secret) where
  open I use {Image, Layer}

  abbrev Writes : Type 0
  Writes = List (Write I S any_stack_minimum relaxed_minimum C)

  -- The requests to save the image of the run image and of the builder.
  abbrev pub after_run_image : Image → Writes → Writes
  after_run_image run_image h =
      save args.builder_keychain (args.resolved_builder_ref <> "-run-image") run_image ∷ h

  abbrev pub after_builder : Image → Image → Writes → Writes
  after_builder run_image image h =
      save args.builder_keychain args.resolved_builder_ref image ∷ after_run_image run_image h

  -- The steps of a creation that ends well, with what came of each.
  pub record Created (h g : Writes) (r : BuilderRecord) : Type 0 where
    pub build_image : Image
    pub run_image : Image
    pub lifecycle_image : Image
    pub image : Image
    pub relocated : String
    pub identifier : String
    pub stacked : BuilderBlder I
    pub lifecycle : Layer × LifecycleMetadata
    pub ordered : BuilderBlder I
    pub config : ConfigFile
    pub paths : List CosignSignature
    pub has_build_image :
        C.fetch h args.stack_keychain args.cluster_stack.resolved.build_image.latest_image
        ≡ ok build_image
    pub has_run_image :
        C.fetch h args.stack_keychain args.cluster_stack.resolved.run_image.latest_image
        ≡ ok run_image
    pub has_lifecycle_image :
        C.fetch h args.lifecycle_keychain args.cluster_lifecycle.resolved.image.latest_image
        ≡ ok lifecycle_image
    pub is_stacked :
        add_stack I
          (add_run_image I (new_builder_bldr I kpack_version) relocated)
          build_image
          args.cluster_stack
        ≡ ok stacked
    pub has_lifecycle :
        get_lifecycle_layer I args.cluster_lifecycle lifecycle_image stacked ≡ ok lifecycle
    pub is_ordered :
        add_order I F (add_lifecycle I stacked lifecycle.0 lifecycle.1) args.spec.order ≡ ok ordered
    pub is_writeable :
        writeable_image I S any_stack_minimum relaxed_minimum
          (add_additional_labels I ordered args.spec.additional_labels)
        ≡ ok image
    pub is_saved :
        C.answer_save
          (after_run_image run_image h)
          args.builder_keychain
          args.resolved_builder_ref
          image
        ≡ ok identifier
    pub is_signed :
        signatures I S any_stack_minimum relaxed_minimum C identifier args.service_account_secrets
          args.builder_keychain
          (after_builder run_image image h)
        ≡ (ok paths, g)
    pub is_recorded :
        record_of I S any_stack_minimum relaxed_minimum C F args
          (add_additional_labels I ordered args.spec.additional_labels)
          identifier
          relocated
          config.os
          paths
        ≡ r

  pub create_builder-Created :
      (h g : Writes) (r : BuilderRecord)
      → create_builder I S any_stack_minimum relaxed_minimum C F kpack_version args h ≡ (ok r, g)
      → Created h g r
  unfolding create_builder save_image
  create_builder-Created h g r e =
      let (build_image, b1, e1) = ask_bind-inv _ _ h g r e in
      let (run_image, b2, e2) = ask_bind-inv _ _ h g r e1 in
      let (lifecycle_image, b3, e3) = ask_bind-inv _ _ h g r e2 in
      let (relocated, b4, e4) = request_bind-inv _ _ _ h g r e3 in
      let (stacked, b5, e5) = lift_bind-inv _ _ (after_run_image run_image h) g r e4 in
      let (lifecycle, b6, e6) = lift_bind-inv _ _ (after_run_image run_image h) g r e5 in
      let (ordered, b7, e7) = lift_bind-inv _ _ (after_run_image run_image h) g r e6 in
      let (image, b8, e8) = lift_bind-inv _ _ (after_run_image run_image h) g r e7 in
      let (identifier, b9, e9) = request_bind-inv _ _ _ (after_run_image run_image h) g r e8 in
      let (config, b10, e10) = lift_bind-inv _ _ (after_builder run_image image h) g r e9 in
      let (paths, b11, b12) = bind_pure-inv _ _ (after_builder run_image image h) g r e10 in
      record {
        build_image = build_image;
        run_image = run_image;
        lifecycle_image = lifecycle_image;
        image = image;
        relocated = relocated;
        identifier = identifier;
        stacked = stacked;
        lifecycle = lifecycle;
        ordered = ordered;
        config = config;
        paths = paths;
        has_build_image = b1;
        has_run_image = b2;
        has_lifecycle_image = b3;
        is_stacked = b5;
        has_lifecycle = b6;
        is_ordered = b7;
        is_writeable = b8;
        is_saved = b9;
        is_signed = b11;
        is_recorded = b12;
      }
