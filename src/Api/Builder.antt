-- ===== src/Api/Builder.antt =====
-- pkg/duckbuilder/duck_builder.go: what a Builder or a ClusterBuilder tells the image reconciler.
-- `BuilderResource` is the interface in pkg/apis/build/v1alpha2; `DuckBuilder` implements it.
use kpack.Prelude.{String, Bool, ◌&&◌, List, Option, none, some, ◌==◌, eqb, any}
use kpack.Api.Meta.{ObjectMeta, ObjectReference}
use kpack.Api.Condition.{Status, Condition, condition_ready, get_condition, is_true}

pub record BuildpackMetadata : Type 0 where
  pub id : String
  pub version : String
  pub homepage : String

pub record BuildStack : Type 0 where
  pub run_image : String
  pub id : String

pub record BuildBuilderSpec : Type 0 where
  pub image : String
  pub image_pull_secrets : List String
  pub ref : Option ObjectReference

pub record DuckBuilder : Type 0 where
  pub kind : String
  pub meta : ObjectMeta
  pub image_pull_secrets : List String
  pub status : Status
  pub builder_metadata : List BuildpackMetadata
  pub stack : BuildStack
  pub lifecycle_version : String
  pub latest_image : String

abbrev pub condition_up_to_date : String
condition_up_to_date = "UpToDate"

-- A condition counts only if the status speaks of the resource's present generation.
unfoldable pub builder_ready : DuckBuilder → Bool
unfolding get_condition
builder_ready b =
    is_true (get_condition b.status.conditions condition_ready)
    && eqb b.meta.generation b.status.observed_generation

unfoldable pub up_to_date : DuckBuilder → Bool
unfolding get_condition
up_to_date b =
    is_true (get_condition b.status.conditions condition_up_to_date)
    && eqb b.meta.generation b.status.observed_generation

unfoldable pub build_builder_spec : DuckBuilder → BuildBuilderSpec
build_builder_spec b = record {
  image = b.latest_image;
  image_pull_secrets = b.image_pull_secrets;
  ref = none;
}

abbrev message_or_empty : Option Condition → String
message_or_empty none = ""
message_or_empty (some c) = c.message

unfoldable pub condition_ready_message : DuckBuilder → String
condition_ready_message b = message_or_empty (get_condition b.status.conditions condition_ready)

-- `BuildpackMetadataList.Include`: the homepage is not compared.
unfoldable pub include : BuildpackMetadata → List BuildpackMetadata → Bool
unfolding any
include q l = any (λ bp. bp.id == q.id && bp.version == q.version) l
