-- ===== src/Api/Image.antt =====
-- pkg/apis/build/v1alpha2/image_types.go, image_builds.go and image_lifecycle.go: an image, and
-- the build, the source resolver and the cache claim that it asks for.
use kpack.Prelude.{
  ℕ, ℤ, String, Bool, false, not, List, [], ◌∷◌, Option, none, some, if◌then◌else◌, ◌==◌, ◌<>◌,
  is_some,
}
use kpack.Api.Meta.{ObjectMeta, ObjectReference, Foreign, StringMap}
use kpack.Api.Condition.{Status, Condition, condition_ready, condition_false, condition_at}
use kpack.Api.Source.{SourceConfig}
use kpack.Api.Build.{
  Build, CnbBinding, NotaryConfig, CosignConfig, LastBuild, BuildCacheConfig, is_success,
  is_failure, built_image, cache_image, stack_of,
}

pub record ImageBuild (K : Foreign) : Type 0 where
  pub services : List ObjectReference
  pub cnb_bindings : List CnbBinding
  pub env : List K.EnvVar
  pub resources : K.Resources
  pub tolerations : List K.Toleration
  pub node_selector : StringMap
  pub affinity : Option K.Affinity
  pub runtime_class_name : Option String
  pub scheduler_name : String
  pub build_timeout : Option ℤ
  pub creation_time : String

pub record ImagePersistentVolumeCache (K : Foreign) : Type 0 where
  pub size : Option K.Quantity
  pub storage_class_name : String

-- `registry` holds the tag of the `RegistryCache`.
pub record ImageCacheConfig (K : Foreign) : Type 0 where
  pub volume : Option (ImagePersistentVolumeCache K)
  pub registry : Option String

pub record ImageSpec (K : Foreign) : Type 0 where
  pub tag : String
  pub builder : ObjectReference
  pub service_account_name : String
  pub source : SourceConfig
  pub cache : Option (ImageCacheConfig K)
  pub failed_build_history_limit : Option ℤ
  pub success_build_history_limit : Option ℤ
  pub image_tagging_strategy : String
  pub project_descriptor_path : String
  pub build : Option (ImageBuild K)
  pub notary : Option NotaryConfig
  pub cosign : Option CosignConfig
  pub default_process : String
  pub additional_tags : List String

pub record ImageStatus : Type 0 where
  pub status : Status
  pub latest_build_ref : String
  pub latest_build_image_generation : ℤ
  pub latest_image : String
  pub latest_stack : String
  pub build_counter : ℤ
  pub build_cache_name : String
  pub latest_build_reason : String

pub record Image (K : Foreign) : Type 0 where
  pub meta : ObjectMeta
  pub spec : ImageSpec K
  pub status : ImageStatus

named_tag : Option String → Bool
named_tag none = false
named_tag (some t) = not (t == "")

module _ {K : Foreign} where
  unfoldable pub volume_size : Option (ImagePersistentVolumeCache K) → Option K.Quantity
  volume_size none = none
  volume_size (some v) = v.size

  unfoldable pub cache_volume : Option (ImageCacheConfig K) → Option (ImagePersistentVolumeCache K)
  cache_volume none = none
  cache_volume (some c) = c.volume

  cache_registry : Option (ImageCacheConfig K) → Option String
  cache_registry none = none
  cache_registry (some c) = c.registry

  unfoldable pub need_volume_cache : ImageSpec K → Bool
  unfolding volume_size cache_volume
  need_volume_cache s = is_some (volume_size (cache_volume s.cache))

  unfoldable pub need_registry_cache : ImageSpec K → Bool
  unfolding named_tag cache_registry
  need_registry_cache s = named_tag (cache_registry s.cache)

  unfoldable pub build_cache_config : Image K → BuildCacheConfig
  unfolding need_volume_cache need_registry_cache cache_registry
  build_cache_config im = record {
    volume = if need_volume_cache im.spec then some im.status.build_cache_name else none;
    registry = if need_registry_cache im.spec then cache_registry im.spec.cache else none;
  }

  -- A failed build hands on what it was itself given, so the last success is not lost.
  unfoldable pub last_build_of : Option (Build K) → Option LastBuild
  unfolding is_failure built_image cache_image stack_of
  last_build_of none = none
  last_build_of (some b) =
      if is_failure b
      then b.spec.last_build
      else some (record {
        image = built_image (some b);
        cache = cache_image (some b);
        stack_id = stack_of (some b);
      })

  unfoldable pub latest_for_image : Image K → Option (Build K) → String
  unfolding is_success built_image
  latest_for_image im none = im.status.latest_image
  latest_for_image im (some b) =
      if is_success b then built_image (some b) else im.status.latest_image

  -- The fields of `spec.build`, each with what it is where `spec.build` is nil.
  of_build : {A : Type 0} → A → (ImageBuild K → A) → Image K → A
  of_build empty field im = elim im.spec.build [ none ↦ empty | some b ↦ field b ]

  unfoldable pub services : Image K → List ObjectReference
  unfolding of_build
  services = of_build [] (λ b. b.services)

  unfoldable pub cnb_bindings : Image K → List CnbBinding
  unfolding of_build
  cnb_bindings = of_build [] (λ b. b.cnb_bindings)

  unfoldable pub env : Image K → List K.EnvVar
  unfolding of_build
  env = of_build [] (λ b. b.env)

  unfoldable pub resources : Image K → K.Resources
  unfolding of_build
  resources = of_build K.no_resources (λ b. b.resources)

  unfoldable pub tolerations : Image K → List K.Toleration
  unfolding of_build
  tolerations = of_build [] (λ b. b.tolerations)

  unfoldable pub node_selector : Image K → StringMap
  unfolding of_build
  node_selector = of_build [] (λ b. b.node_selector)

  unfoldable pub affinity : Image K → Option K.Affinity
  unfolding of_build
  affinity = of_build none (λ b. b.affinity)

  unfoldable pub build_timeout : Image K → Option ℤ
  unfolding of_build
  build_timeout = of_build none (λ b. b.build_timeout)

  unfoldable pub runtime_class_name : Image K → Option String
  unfolding of_build
  runtime_class_name = of_build none (λ b. b.runtime_class_name)

  unfoldable pub scheduler_name : Image K → String
  unfolding of_build
  scheduler_name = of_build "" (λ b. b.scheduler_name)

  unfoldable pub creation_time : Image K → String
  unfolding of_build
  creation_time = of_build "" (λ b. b.creation_time)

-- `Image.BuilderNotFound()`.
unfoldable pub builder_not_found : {K : Foreign} → ℕ → Image K → List Condition
builder_not_found now im =
    condition_at now condition_ready condition_false "BuilderNotFound" (
      "Error: Unable to find builder '" <> im.spec.builder.name <> "' in namespace '"
      <> im.spec.builder.namespace <> "'.")
    ∷ []
