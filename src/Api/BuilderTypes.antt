-- ===== src/Api/BuilderTypes.antt =====
-- pkg/apis/build/v1alpha2: the resources Builder, ClusterBuilder, ClusterStack and ClusterLifecycle,
-- and the two ways in which the status of a builder is set (builder_lifecycle.go).
use kpack.Prelude.{
  ℕ, ℤ, String, ◌&&◌, not, List, [], ◌∷◌, Option, if◌then◌else◌, ◌==◌, Error, message,
}
use kpack.Api.Meta.{ObjectMeta, ObjectReference, StringMap}
use kpack.Api.Builder.{BuildpackMetadata, BuildStack, condition_up_to_date}
use kpack.Api.Condition.{
  Status, Condition, condition_ready, condition_true, condition_false, condition_at,
}
use kpack.Cnb.Resources.{OrderEntry, BuilderBuildpackRef}

pub record ApiVersions : Type 0 where
  pub deprecated : List String
  pub supported : List String

pub record LifecycleApi : Type 0 where
  pub buildpack_version : String
  pub platform_version : String

pub record LifecycleApis : Type 0 where
  pub buildpack : ApiVersions
  pub platform : ApiVersions

pub record StatusImage : Type 0 where
  pub latest_image : String
  pub image : String

pub record ResolvedClusterLifecycle : Type 0 where
  pub image : StatusImage
  pub version : String
  pub api : LifecycleApi
  pub apis : LifecycleApis

pub record ClusterLifecycle : Type 0 where
  pub meta : ObjectMeta
  pub spec_image : String
  pub service_account_ref : Option ObjectReference
  pub status : Status
  pub resolved : ResolvedClusterLifecycle

pub record ResolvedClusterStack : Type 0 where
  pub id : String
  pub build_image : StatusImage
  pub run_image : StatusImage
  pub mixins : List String
  pub user_id : ℤ
  pub group_id : ℤ

pub record ClusterStackSpec : Type 0 where
  pub id : String
  pub build_image : String
  pub run_image : String
  pub service_account_ref : Option ObjectReference

pub record ClusterStack : Type 0 where
  pub meta : ObjectMeta
  pub spec : ClusterStackSpec
  pub status : Status
  pub resolved : ResolvedClusterStack

pub record CosignSignature : Type 0 where
  pub signing_secret : String
  pub target_digest : String

-- An entry of the order is the list of its references.
pub record BuilderOrderEntry : Type 0 where
  pub group : List BuilderBuildpackRef

-- Of the references to the stack, the lifecycle and the store, the code reads the names.
pub record BuilderSpec : Type 0 where
  pub tag : String
  pub stack : String
  pub lifecycle : String
  pub store : String
  pub order : List BuilderOrderEntry
  pub additional_labels : StringMap

pub record BuilderStatus : Type 0 where
  pub status : Status
  pub builder_metadata : List BuildpackMetadata
  pub order : List OrderEntry
  pub stack : BuildStack
  pub lifecycle : ResolvedClusterLifecycle
  pub latest_image : String
  pub observed_stack_generation : ℕ
  pub observed_store_generation : ℕ
  pub os : String
  pub signature_paths : List CosignSignature

pub record Builder : Type 0 where
  pub meta : ObjectMeta
  pub spec : BuilderSpec
  pub service_account_name : String
  pub backwards_compatible_service_account : String
  pub status : BuilderStatus

pub record ClusterBuilder : Type 0 where
  pub meta : ObjectMeta
  pub spec : BuilderSpec
  pub service_account_ref : ObjectReference
  pub status : BuilderStatus

pub record BuilderRecord : Type 0 where
  pub image : String
  pub stack : BuildStack
  pub lifecycle : ResolvedClusterLifecycle
  pub buildpacks : List BuildpackMetadata
  pub order : List OrderEntry
  pub observed_store_generation : ℕ
  pub observed_stack_generation : ℕ
  pub os : String
  pub signature_paths : List CosignSignature

abbrev pub default_lifecycle_name : String
default_lifecycle_name = "default-lifecycle"

abbrev pub no_latest_image_reason : String
no_latest_image_reason = "NoLatestImage"

abbrev pub no_latest_image_message : String
no_latest_image_message = "Builder has no latestImage"

abbrev pub reconcile_failed_reason : String
reconcile_failed_reason = "ReconcileFailed"

unfoldable pub service_account : Builder → String
service_account b =
    if b.service_account_name == "" && not (b.backwards_compatible_service_account == "")
    then b.backwards_compatible_service_account
    else b.service_account_name

-- `BuilderStatus.BuilderRecord`: the observed generation is left as it was. `now` is the time of
-- the call.
unfoldable pub builder_record : ℕ → BuilderRecord → BuilderStatus → BuilderStatus
builder_record now r bs = record {
  status = record (bs.status) {
    conditions =
        condition_at now condition_ready condition_true "" ""
        ∷ condition_at now condition_up_to_date condition_true "" ""
        ∷ [];
  };
  builder_metadata = r.buildpacks;
  order = r.order;
  stack = r.stack;
  lifecycle = r.lifecycle;
  latest_image = r.image;
  observed_stack_generation = r.observed_stack_generation;
  observed_store_generation = r.observed_store_generation;
  os = r.os;
  signature_paths = r.signature_paths;
}

unfoldable pub builder_condition : ℕ → String → Condition
builder_condition now latest_image =
    if latest_image == ""
    then condition_at now condition_ready condition_false no_latest_image_reason
        no_latest_image_message
    else condition_at now condition_ready condition_true "" ""

-- `BuilderStatus.ErrorCreate`: the observed generation is reset.
unfoldable pub error_create : ℕ → Error → BuilderStatus → BuilderStatus
unfolding builder_condition
error_create now e bs = record bs {
  status = record {
    observed_generation = 0;
    conditions =
        builder_condition now bs.latest_image
        ∷ condition_at now condition_up_to_date condition_false reconcile_failed_reason (message e)
        ∷ [];
  };
}
