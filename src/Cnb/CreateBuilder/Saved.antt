-- ===== src/Cnb/CreateBuilder/Saved.antt =====
-- create_builder.go, `CreateBuilder`: what a creation writes to the registry, and of which images.
use kpack.Prelude.Run.{pure, request}
use kpack.Prelude.{
  ◌≡◌, ◌≢◌, ap, sym, subst, String, true, false, List, [], ◌∷◌, Bool-cases, inl, inr, ok, err, ◌==◌,
  eq_iff, and_left, and_right, not, ◌&&◌, arith, bind-ok_inv, ok_injective, ◌∙◌, Result,
}
use kpack.Api.BuilderTypes.{
  BuilderOrderEntry, BuilderRecord, ClusterLifecycle, ClusterStack, CosignSignature,
}
use kpack.Cnb.Resolver.{Semver}
use kpack.Cnb.Imaging.{Imaging, LifecycleMetadata, ConfigFile}
use kpack.Cnb.BuilderImage.{
  BuilderBlder, add_group, add_lifecycle, add_stack, add_additional_labels, new_builder_bldr,
  add_run_image, writeable_image,
}
use kpack.Cnb.BuilderParts.{
  RemoteBuildpackFetcher, fetch_group, add_order, platform_matches, check_platform,
  get_lifecycle_layer, labelled, last_layer, builder_platform,
}
use kpack.Cnb.CreateBuilder.{
  sign_builder, Remote, CreateArgs, Write, signatures, record_of, create_builder,
}
use kpack.Cnb.CreateBuilder.Created.{after_run_image, after_builder, create_builder-Created}

-- Two platforms are alike if they have one operating system and, where both name one, one
-- architecture and one variant.
abbrev pub AlikeWhereNamed : String → String → Type 0
AlikeWhereNamed a b = a ≢ "" → b ≢ "" → a ≡ b

pub record IsOnePlatform (want got : ConfigFile) : Type 0 where
  pub one_os : want.os ≡ got.os
  pub one_architecture : AlikeWhereNamed want.architecture got.architecture
  pub one_variant : AlikeWhereNamed want.variant got.variant

equal_unless_empty :
    (a b : String)
    → not (not (a == "") && not (b == "") && not (a == b)) ≡ true
    → AlikeWhereNamed a b
equal_unless_empty a b e p q = ground (arith, eq_iff a "", eq_iff b "", eq_iff a b, p, q, e)

platform_matches-IsOnePlatform :
    (want got : ConfigFile) → platform_matches want got ≡ true → IsOnePlatform want got
unfolding platform_matches
platform_matches-IsOnePlatform want got e =
    let rest : (not (
            not (want.architecture == "")
            && not (got.architecture == "")
            && not (want.architecture == got.architecture))
          && not (
              not (want.variant == "")
              && not (got.variant == "")
              && not (want.variant == got.variant)))
        ≡ true =
      and_right _ _ e in
    let same : not (not (want.os == got.os)) ≡ true = and_left _ _ e in
    record {
      one_os = ground (arith, eq_iff want.os got.os, same);
      one_architecture = equal_unless_empty want.architecture got.architecture (and_left _ _ rest);
      one_variant = equal_unless_empty want.variant got.variant (and_right _ _ rest);
    }

labelled-ok :
    {A : Type 0} (text : String) (r : Result A) (a : A) → labelled text r ≡ ok a → r ≡ ok a
labelled-ok text (ok b) a e = e
labelled-ok text (err e) a same = cc

module _ (I : Imaging) where
  open I use {Image, Layer}

  -- The platform that a builder keeps is the one of its base image.
  add_stack_platform :
      (bb stacked : BuilderBlder I) (base : Image) (stack : ClusterStack)
      → add_stack I bb base stack ≡ ok stacked
      → (I.config_file base ≡ ok (builder_platform I stacked))
        × (stacked.os ≢ "windows")
        × (base ≡ stacked.base_image)
  unfolding add_stack
  add_stack_platform bb stacked base stack e =
      let (file, read, rest) = bind-ok_inv (I.config_file base) _ stacked e in
      elim (Bool-cases (file.os == "windows")) [
        | inl t ↦ let bad = rw t at rest in cc
        | inr f ↦
            let same = ap (builder_platform I) (ok_injective (rw f at rest)) in
            (
              subst (λ x. I.config_file base ≡ ok x) same read,
              λ windows.
                  let os : file.os ≡ "windows" = ap (λ x. x.os) same ∙ windows in
                  let t = (eq_iff file.os "windows").1 os in
                  let bad : false ≡ true = sym f ∙ t in cc,
              ap (λ x. x.base_image) (ok_injective (rw f at rest)),
            )
      ]

  checked :
      (name : String) (bb : BuilderBlder I) (image : Image)
      → check_platform I name bb image ≡ ok tt
      → (got : ConfigFile) × (I.config_file image ≡ ok got)
        × (platform_matches (builder_platform I bb) got ≡ true)
  unfolding check_platform
  checked name bb image e =
      let (got, read, rest) =
        bind-ok_inv (labelled "failed to get config file" (I.config_file image)) _ tt e in
      elim (Bool-cases (platform_matches (builder_platform I bb) got)) [
        | inl t ↦ (got, labelled-ok "failed to get config file" (I.config_file image) got read, t)
        | inr f ↦ let bad = rw f at rest in cc
      ]

  get_lifecycle_layer_platform :
      (lifecycle : ClusterLifecycle) (image : Image) (bb : BuilderBlder I)
      (made : Layer × LifecycleMetadata)
      → get_lifecycle_layer I lifecycle image bb ≡ ok made
      → (got : ConfigFile) × (I.config_file image ≡ ok got)
        × (platform_matches (builder_platform I bb) got ≡ true)
  unfolding get_lifecycle_layer
  get_lifecycle_layer_platform lifecycle image bb made e =
      let (layer, found, rest) =
        bind-ok_inv (labelled "failed to find lifecycle layer" (last_layer I image)) _ made e in
      let (matched, passed, last) =
        bind-ok_inv (check_platform I lifecycle.spec_image bb image) _ made rest in
      checked lifecycle.spec_image bb image passed

module _ (I : Imaging) (S : Semver) (any_stack_minimum relaxed_minimum : S.Version) (C : Remote I)
    (F : RemoteBuildpackFetcher I.Layer) (kpack_version : String)
    (args : CreateArgs C.Keychain C.Secret) where
  open I use {Image}

  abbrev Writes : Type 0
  Writes = List (Write I S any_stack_minimum relaxed_minimum C)

  -- A builder is made only of a stack and a lifecycle whose images have one operating system, which
  -- is not windows, and no two different architectures or variants. An image that names none is
  -- taken with any.
  pub create_builder_platform :
      (h g : Writes) (r : BuilderRecord)
      → create_builder I S any_stack_minimum relaxed_minimum C F kpack_version args h ≡ (ok r, g)
      → (base lifecycle : Image) × (want got : ConfigFile) × (C.fetch h args.stack_keychain
            args.cluster_stack.resolved.build_image.latest_image
          ≡ ok base)
        × (C.fetch h args.lifecycle_keychain args.cluster_lifecycle.resolved.image.latest_image
            ≡ ok lifecycle)
        × (I.config_file base ≡ ok want)
        × (I.config_file lifecycle ≡ ok got)
        × IsOnePlatform want got
        × (want.os ≢ "windows")
  create_builder_platform h g r e =
      let made =
        create_builder-Created I S any_stack_minimum relaxed_minimum C F kpack_version args h g r
          e in
      let (base_config, linux, base) =
        add_stack_platform I (add_run_image I (new_builder_bldr I kpack_version) made.relocated)
          made.stacked made.build_image args.cluster_stack made.is_stacked in
      let (got, lifecycle_config, matches) =
        get_lifecycle_layer_platform I args.cluster_lifecycle made.lifecycle_image made.stacked
          made.lifecycle made.has_lifecycle in
      (
        made.build_image,
        made.lifecycle_image,
        builder_platform I made.stacked,
        got,
        made.has_build_image,
        made.has_lifecycle_image,
        base_config,
        lifecycle_config,
        platform_matches-IsOnePlatform (builder_platform I made.stacked) got matches,
        linux,
      )

  add_order_base :
      (bb ordered : BuilderBlder I) (entries : List BuilderOrderEntry)
      → add_order I F bb entries ≡ ok ordered
      → bb.base_image ≡ ordered.base_image
  unfolding add_order add_group
  add_order_base bb ordered [] e = ap (λ x. x.base_image) (ok_injective e)
  add_order_base bb ordered (entry ∷ entries) e =
      let (refs, fetched, rest) = bind-ok_inv (fetch_group I F entry.group) _ ordered e in
      add_order_base (add_group I bb refs) ordered entries rest

  -- The request for signatures: one if there are secrets, none otherwise.
  abbrev pub with_signing : String → List C.Secret → Writes → Writes
  with_signing identifier [] h = h
  with_signing identifier (s ∷ ss) h = sign_builder identifier (s ∷ ss) args.builder_keychain ∷ h

  signatures-with_signing :
      (identifier : String) (secrets : List C.Secret) (h g : Writes) (paths : List CosignSignature)
      → signatures I S any_stack_minimum relaxed_minimum C identifier secrets args.builder_keychain
          h
        ≡ (ok paths, g)
      → with_signing identifier secrets h ≡ g
  unfolding signatures pure request
  signatures-with_signing identifier [] h g paths e = ap (λ r. r.1) e
  signatures-with_signing identifier (s ∷ ss) h g paths e = ap (λ r. r.1) e

  -- A creation that ends well saves two images: the run image of the stack, and then, under the
  -- builder's reference, an image that was assembled on the build image of the stack and passed the
  -- validation of the builder. It asks for signatures of what the registry answered if there are
  -- secrets. The record names that answer.
  pub create_builder_saves :
      (h g : Writes) (r : BuilderRecord)
      → create_builder I S any_stack_minimum relaxed_minimum C F kpack_version args h ≡ (ok r, g)
      → (run_image image : Image) × (bb : BuilderBlder I) × (C.fetch h args.stack_keychain
            args.cluster_stack.resolved.run_image.latest_image
          ≡ ok run_image)
        × (C.fetch h args.stack_keychain args.cluster_stack.resolved.build_image.latest_image
            ≡ ok bb.base_image)
        × (writeable_image I S any_stack_minimum relaxed_minimum bb ≡ ok image)
        × (bb.order ≡ r.order)
        × (C.answer_save
              (after_run_image I S any_stack_minimum relaxed_minimum C F kpack_version args
                run_image h)
              args.builder_keychain
              args.resolved_builder_ref
              image
            ≡ ok r.image)
        × (g
            ≡ with_signing r.image args.service_account_secrets (
                after_builder I S any_stack_minimum relaxed_minimum C F kpack_version args run_image
                  image h))
  unfolding record_of add_lifecycle add_additional_labels
  create_builder_saves h g r e =
      let made =
        create_builder-Created I S any_stack_minimum relaxed_minimum C F kpack_version args h g r
          e in
      let (base_config, linux, base) =
        add_stack_platform I (add_run_image I (new_builder_bldr I kpack_version) made.relocated)
          made.stacked made.build_image args.cluster_stack made.is_stacked in
      let kept =
        add_order_base (add_lifecycle I made.stacked made.lifecycle.0 made.lifecycle.1) made.ordered
          args.spec.order made.is_ordered in
      let identifier : made.identifier ≡ r.image = ap (λ x. x.image) made.is_recorded in
      let signed =
        signatures-with_signing made.identifier args.service_account_secrets
          (after_builder I S any_stack_minimum relaxed_minimum C F kpack_version args made.run_image
            made.image h)
          g made.paths made.is_signed in
      (
        made.run_image,
        made.image,
        add_additional_labels I made.ordered args.spec.additional_labels,
        made.has_run_image,
        made.has_build_image ∙ ap ok (base ∙ kept),
        made.is_writeable,
        ap (λ x. x.order) made.is_recorded,
        rw identifier at made.is_saved,
        sym (rw identifier at signed),
      )
