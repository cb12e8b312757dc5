-- ===== src/Tests/Creation.antt =====
-- The creation of a builder from a concrete stack, lifecycle and order.
use kpack.Prelude.Run.{◌>>=◌, ask, request, lift, pure}
use kpack.Prelude.{
  pos, ◌≡◌, ◌≢◌, refl, String, false, List, [], ◌∷◌, ◌<>◌, none, Result, ok, In, inl,
}
use kpack.Api.BuilderTypes.{
  BuilderOrderEntry, BuilderRecord, ClusterLifecycle, ClusterStack, ResolvedClusterLifecycle,
  StatusImage,
}
use kpack.Api.Condition.{condition_true}
use kpack.Cnb.Resources.{BuilderBuildpackRef}
use kpack.Cnb.Fetcher.{RemoteBuildpackInfo}
use kpack.Cnb.Imaging.{ConfigFile}
use kpack.Cnb.BuilderImage.{BuilderBlder, writeable_image}
use kpack.Cnb.BuilderParts.{RemoteBuildpackFetcher}
use kpack.Cnb.CreateBuilder.{Remote, CreateArgs, RegistryWrite, create_builder}
use kpack.Cnb.CreateBuilder.Created.{after_builder}
use kpack.Cnb.CreateBuilder.Listed.{metadata_entry, create_builder_lists}
use kpack.Cnb.CreateBuilder.Saved.{
  IsOnePlatform, with_signing, create_builder_saves, create_builder_platform,
}
use kpack.Tests.Samples.{meta_of, status_of}
use kpack.Tests.Buildpacks.{semver}
use kpack.Tests.BuilderImages.{imaging, jdk_info, jdk_layer}

-- The registry has an image of one layer under every name.
abbrev remote : Remote imaging
remote = record {
  Keychain = String;
  Secret = String;
  fetch = λ h keychain name. ok (name ∷ []);
  answer_save = λ h keychain tag image. ok (tag <> "@sha256:0");
  answer_sign = λ h identifier secrets keychain. ok [];
}

abbrev both_images : String → StatusImage
both_images name = record { latest_image = name; image = name }

abbrev pub stack : ClusterStack
stack = record {
  meta = meta_of "base" 0;
  spec = record {
    id = "bionic";
    build_image = "build";
    run_image = "run";
    service_account_ref = none;
  };
  status = status_of "Ready" condition_true;
  resolved = record {
    id = "bionic";
    build_image = both_images "build";
    run_image = both_images "run";
    mixins = "curl" ∷ "git" ∷ [];
    user_id = pos 1000;
    group_id = pos 1000;
  };
}

abbrev pub resolved_lifecycle : ResolvedClusterLifecycle
resolved_lifecycle = record {
  image = both_images "lifecycle";
  version = "0.17";
  api = record { buildpack_version = "0.9"; platform_version = "0.7" };
  apis = record {
    buildpack = record { deprecated = []; supported = "0.9" ∷ [] };
    platform = record { deprecated = []; supported = "0.7" ∷ [] };
  };
}

abbrev pub lifecycle : ClusterLifecycle
lifecycle = record {
  meta = meta_of "default-lifecycle" 0;
  spec_image = "lifecycle";
  service_account_ref = none;
  status = status_of "Ready" condition_true;
  resolved = resolved_lifecycle;
}

abbrev pub jdk_reference : BuilderBuildpackRef
jdk_reference = record {
  id = "jdk";
  version = "2";
  optional = false;
  object = record { kind = ""; name = ""; namespace = "" };
  image = "";
}

abbrev pub entry : BuilderOrderEntry
entry = record { group = jdk_reference ∷ [] }

abbrev jdk_fetched : RemoteBuildpackInfo String
jdk_fetched = record { buildpack_info = jdk_info; layers = jdk_layer ∷ [] }

abbrev fetcher : RemoteBuildpackFetcher String
fetcher = record {
  resolve_and_fetch = λ ref. ok jdk_fetched;
  cluster_store_observed_generation = 1;
}

abbrev args : CreateArgs String String
args = record {
  builder_keychain = "builder";
  stack_keychain = "stack";
  lifecycle_keychain = "lifecycle";
  cluster_stack = stack;
  cluster_lifecycle = lifecycle;
  spec = record {
    tag = "registry/builder";
    stack = "base";
    lifecycle = "";
    store = "";
    order = entry ∷ [];
    additional_labels = [];
  };
  service_account_secrets = "cosign" ∷ [];
  resolved_builder_ref = "registry/builder:1";
}

abbrev pub record_made : BuilderRecord
record_made = record {
  image = "registry/builder:1@sha256:0";
  stack = record { run_image = "registry/builder:1-run-image@sha256:0"; id = "bionic" };
  lifecycle = record resolved_lifecycle { image = both_images "" };
  buildpacks = metadata_entry jdk_info ∷ [];
  order = record { group = record { id = "jdk"; version = "2"; optional = false } ∷ [] } ∷ [];
  observed_store_generation = 1;
  observed_stack_generation = 1;
  os = "linux";
  signature_paths = [];
}

abbrev writes : List (RegistryWrite String String (List String))
unfolding create_builder ◌>>=◌ ask request lift pure
writes = (create_builder imaging semver 5 7 remote fetcher "1" args []).1

made : create_builder imaging semver 5 7 remote fetcher "1" args [] ≡ (ok record_made, writes)
unfolding create_builder ◌>>=◌ ask request lift pure
made = refl

create_builder_lists_example : In (metadata_entry jdk_info) record_made.buildpacks
create_builder_lists_example =
    create_builder_lists imaging semver 5 7 remote fetcher "1" args [] writes record_made entry
      jdk_reference jdk_fetched jdk_layer made (inl refl) (inl refl) refl (inl refl)

create_builder_platform_example :
    (base found : List String) × (want got : ConfigFile) × (◌≡◌ {A = Result (List String)}
      (ok ("build" ∷ []))
      (ok base))
    × (◌≡◌ {A = Result (List String)} (ok ("lifecycle" ∷ [])) (ok found))
    × (imaging.config_file base ≡ ok want)
    × (imaging.config_file found ≡ ok got)
    × IsOnePlatform want got
    × (want.os ≢ "windows")
create_builder_platform_example =
    create_builder_platform imaging semver 5 7 remote fetcher "1" args [] writes record_made made

create_builder_saves_example :
    (run_image image : List String) × (bb : BuilderBlder imaging) × (◌≡◌ {A = Result (List String)}
      (ok ("run" ∷ []))
      (ok run_image))
    × (◌≡◌ {A = Result (List String)} (ok ("build" ∷ [])) (ok bb.base_image))
    × (writeable_image imaging semver 5 7 bb ≡ ok image)
    × (bb.order ≡ record_made.order)
    × (◌≡◌ {A = Result String} (ok "registry/builder:1@sha256:0") (ok record_made.image))
    × (writes
        ≡ with_signing imaging semver 5 7 remote fetcher "1" args record_made.image
            ("cosign" ∷ [])
            (after_builder imaging semver 5 7 remote fetcher "1" args run_image image []))
create_builder_saves_example =
    create_builder_saves imaging semver 5 7 remote fetcher "1" args [] writes record_made made
