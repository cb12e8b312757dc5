-- ===== src/Api/Wanted.antt =====
-- The build, the source resolver and the cache claim that an image asks for:
-- pkg/apis/build/v1alpha2/image_builds.go.
use kpack.Prelude.Decimal.{itoa}
use kpack.Prelude.{
  ℤ, pos, String, List, [], ◌∷◌, Option, none, some, if◌then◌else◌, ◌==◌, ◌<>◌, Result, ok, err,
}
use kpack.Api.Meta.{ObjectMeta, Foreign, StringMap, put}
use kpack.Api.Source.{SourceConfig, SourceResolverSpec}
use kpack.Api.Builder.{DuckBuilder, build_builder_spec}
use kpack.Api.Build.{
  Build, BuildStatus, build_number_label, image_label, image_generation_label,
  build_reason_annotation, build_changes_annotation, builder_name_annotation,
  builder_kind_annotation,
}
use kpack.Api.Image.{
  Image, ImagePersistentVolumeCache, volume_size, cache_volume, build_cache_config, last_build_of,
  services, cnb_bindings, env, resources, tolerations, node_selector, affinity, build_timeout,
  runtime_class_name, scheduler_name, creation_time,
}

-- A `name.Tag` of go-containerregistry.
pub record Tag : Type 0 where
  pub registry_str : String
  pub repository_str : String
  pub tag_str : String

-- What the code calls of other projects to name things: `kmeta.ChildName` and `name.NewTag` with
-- weak validation.
pub record Naming : Type 0 where
  pub child_name : String → String → String
  pub new_tag : String → Result Tag

-- `combine`: the entries of the second map win.
unfoldable pub combine : StringMap → StringMap → StringMap
combine m [] = m
combine m ((k, v) ∷ rest) = combine (put k v m) rest

-- The claim for the volume cache, `corev1.PersistentVolumeClaim` as far as kpack fills it in.
pub record VolumeClaim (K : Foreign) : Type 0 where
  pub meta : ObjectMeta
  pub size : Option K.Quantity
  pub storage_class : Option String

module _ {K : Foreign} (naming : Naming) where
  unfoldable pub cache_name : Image K → String
  cache_name im = naming.child_name im.meta.name "-cache"

  unfoldable pub source_resolver_name : Image K → String
  source_resolver_name im = naming.child_name im.meta.name "-source"

  unfoldable pub generate_build_name : Image K → String → String
  generate_build_name im number = naming.child_name im.meta.name ("-build-" <> number)

  -- `stamp` is the date and time of the call, `20060102.150405`.
  unfoldable pub generate_tags : Image K → String → String → List String
  generate_tags im number stamp =
      if im.spec.image_tagging_strategy == "None"
      then im.spec.tag ∷ im.spec.additional_tags
      else elim (naming.new_tag im.spec.tag) [
        | err e ↦ []
        | ok t ↦
            let prefix = if t.tag_str == "latest" then "" else t.tag_str <> "-" in
            im.spec.tag
            ∷ (t.registry_str <> "/" <> t.repository_str <> ":" <> prefix <> "b" <> number <> "."
                <> stamp)
            ∷ im.spec.additional_tags
      ]

  -- `Image.SourceResolver()`: the resolver that the image wants.
  unfoldable pub desired_source_resolver : Image K → ObjectMeta × SourceResolverSpec
  unfolding source_resolver_name
  desired_source_resolver im = (
    record {
      name = source_resolver_name im;
      namespace = im.meta.namespace;
      uid = "";
      controller = some im.meta.uid;
      labels = im.meta.labels;
      annotations = [];
      generation = 0;
      creation_timestamp = none;
    },
    record { service_account_name = im.spec.service_account_name; source = im.spec.source },
  )

  storage_class_of : Option (ImagePersistentVolumeCache K) → Option String
  storage_class_of none = none
  storage_class_of (some v) = if v.storage_class_name == "" then none else some v.storage_class_name

  -- `Image.BuildCache()`, called only where the image needs a volume cache.
  unfoldable pub desired_build_cache : Image K → VolumeClaim K
  unfolding cache_name storage_class_of volume_size cache_volume
  desired_build_cache im = record {
    meta = record {
      name = cache_name im;
      namespace = im.meta.namespace;
      uid = "";
      controller = some im.meta.uid;
      labels = im.meta.labels;
      annotations = [];
      generation = 0;
      creation_timestamp = none;
    };
    size = volume_size (cache_volume im.spec.cache);
    storage_class = storage_class_of (cache_volume im.spec.cache);
  }

  unfoldable pub build_labels : Image K → String → StringMap
  unfolding combine
  build_labels im number = combine im.meta.labels (
      (build_number_label, number)
      ∷ (image_label, im.meta.name)
      ∷ (image_generation_label, itoa (pos im.meta.generation))
      ∷ [])

  unfoldable build_annotations : Image K → DuckBuilder → String → String → StringMap
  unfolding combine
  build_annotations im builder reasons changes = combine im.meta.annotations (
      (build_reason_annotation, reasons)
      ∷ (build_changes_annotation, changes)
      ∷ (builder_name_annotation, builder.meta.name)
      ∷ (builder_kind_annotation, builder.kind)
      ∷ [])

  -- `Image.Build(…)`, given the source configuration, the last build, the reasons, the changes, the
  -- number, the priority class and the stamp. The new build has no status.
  unfoldable pub image_build :
      Image K
      → SourceConfig
      → DuckBuilder
      → Option (Build K)
      → String
      → String
      → ℤ
      → String
      → String
      → Build K
  unfolding build_labels build_annotations generate_build_name generate_tags build_builder_spec
  image_build im source builder latest reasons changes next priority stamp = record {
    meta = record {
      name = generate_build_name im (itoa next);
      namespace = im.meta.namespace;
      uid = "";
      controller = some im.meta.uid;
      labels = build_labels im (itoa next);
      annotations = build_annotations im builder reasons changes;
      generation = 0;
      creation_timestamp = none;
    };
    spec = record {
      tags = generate_tags im (itoa next) stamp;
      builder = build_builder_spec builder;
      service_account_name = im.spec.service_account_name;
      source = source;
      cache = some (build_cache_config im);
      run_image = builder.stack.run_image;
      active_deadline_seconds = build_timeout im;
      services = services im;
      cnb_bindings = cnb_bindings im;
      env = env im;
      project_descriptor_path = im.spec.project_descriptor_path;
      resources = resources im;
      last_build = last_build_of latest;
      notary = im.spec.notary;
      cosign = im.spec.cosign;
      default_process = im.spec.default_process;
      tolerations = tolerations im;
      node_selector = node_selector im;
      affinity = affinity im;
      runtime_class_name = runtime_class_name im;
      scheduler_name = scheduler_name im;
      priority_class_name = priority;
      creation_time = creation_time im;
    };
    status = no_status;
  }
    where
      no_status : BuildStatus
      no_status = record {
        status = record { observed_generation = 0; conditions = [] };
        build_metadata = [];
        stack = record { run_image = ""; id = "" };
        lifecycle_version = "";
        latest_image = "";
        latest_cache_image = "";
        latest_attestation_image = "";
        pod_name = "";
        step_states = [];
        steps_completed = [];
      }
