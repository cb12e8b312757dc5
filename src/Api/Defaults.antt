-- ===== src/Api/Defaults.antt =====
-- `SetDefaults` of pkg/apis/build/v1alpha2/image_validation.go and build_validation.go.
use kpack.Prelude.{pos, String, Option, none, some, if◌then◌else◌, ◌==◌}
use kpack.Api.Meta.{Foreign}
use kpack.Api.Build.{Build}
use kpack.Api.Image.{Image, ImageCacheConfig}

abbrev or_default : {A : Type 0} → A → Option A → Option A
or_default d none = some d
or_default d (some a) = some a

abbrev text_or : String → String → String
text_or d s = if s == "" then d else s

module _ {K : Foreign} where
  -- The cache that an image without one gets: 2G where the context names a default storage class.
  default_cache : Option K.Quantity → Option (ImageCacheConfig K) → Option (ImageCacheConfig K)
  default_cache size (some c) = some c
  default_cache none none = none
  default_cache (some q) none = some (record {
    volume = some (record { size = some q; storage_class_name = "" });
    registry = none;
  })

  -- `default_size` is the default cache size if the context has `HasDefaultStorageClass`.
  unfoldable pub set_defaults : Option K.Quantity → Image K → Image K
  unfolding default_cache
  set_defaults default_size im = record im {
    spec = record (im.spec) {
      service_account_name = text_or "default" im.spec.service_account_name;
      image_tagging_strategy = text_or "BuildNumber" im.spec.image_tagging_strategy;
      failed_build_history_limit = or_default (pos 10) im.spec.failed_build_history_limit;
      success_build_history_limit = or_default (pos 10) im.spec.success_build_history_limit;
      cache = default_cache default_size im.spec.cache;
    };
  }

  unfoldable pub set_build_defaults : Build K → Build K
  set_build_defaults b = record b {
    spec = record (b.spec) { service_account_name = text_or "default" b.spec.service_account_name };
  }
