-- ===== src/Cnb/Readers/Lifecycle.antt =====
-- remote_lifecycle_reader.go: what a lifecycle image says of itself.
use kpack.Prelude.{◌>>=◌, String, List, [], ◌∷◌, Result, ok}
use kpack.Api.BuilderTypes.{ResolvedClusterLifecycle}
use kpack.Cnb.Readers.{ImageReads, get_label}

abbrev pub lifecycle_builder_metadata_label : String
lifecycle_builder_metadata_label = "io.buildpacks.builder.metadata"

abbrev pub lifecycle_apis_label : String
lifecycle_apis_label = "io.buildpacks.lifecycle.apis"

unfoldable pub to_build_api_set : List String → List String
to_build_api_set [] = []
to_build_api_set (f ∷ from) = f ∷ to_build_api_set from

module _ (R : ImageReads) where
  -- `RemoteLifecycleReader.Read`, given the image of the spec.
  unfoldable pub read_lifecycle : R.Keychain → String → Result ResolvedClusterLifecycle
  unfolding get_label to_build_api_set
  read_lifecycle keychain image = do
    fetched ← R.fetch keychain image
    md ← get_label R R.decode_lifecycle fetched.0 lifecycle_builder_metadata_label
    apis ← get_label R R.decode_apis fetched.0 lifecycle_apis_label
    ok (record {
      image = record { latest_image = fetched.1; image = image };
      version = md.version;
      api = record {
        buildpack_version = md.buildpack_version;
        platform_version = md.platform_version;
      };
      apis = record {
        buildpack = record {
          deprecated = to_build_api_set apis.buildpack.deprecated;
          supported = to_build_api_set apis.buildpack.supported;
        };
        platform = record {
          deprecated = to_build_api_set apis.platform.deprecated;
          supported = to_build_api_set apis.platform.supported;
        };
      };
    })
