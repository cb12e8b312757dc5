-- ===== src/Api/Build.antt =====
-- pkg/apis/build/v1alpha2/build_types.go, build.go, build_lifecycle.go and build_priority.go.
-- A method on a nil *Build has its own answer, so those methods take an `Option`.
use kpack.Prelude.{
  ℕ, String, Bool, false, ◌&&◌, not, List, [], ◌∷◌, Option, none, some, if◌then◌else◌, ◌==◌, any,
  eqb, ℤ, Error, message,
}
use kpack.Api.Meta.{ObjectMeta, ObjectReference, Foreign, StringMap, get, text_or_empty}
use kpack.Api.Condition.{
  Status, Condition, condition_succeeded, condition_false, condition_at, get_condition, is_true,
  is_false, is_unknown,
}
use kpack.Api.Source.{SourceConfig}
use kpack.Api.Builder.{BuildpackMetadata, BuildStack, BuildBuilderSpec}

pub record CnbBinding : Type 0 where
  pub name : String
  pub metadata_ref : Option String
  pub secret_ref : Option String

pub record NotaryV1Config : Type 0 where
  pub url : String
  pub secret_ref : String

pub record NotaryConfig : Type 0 where
  pub v1 : Option NotaryV1Config

pub record CosignAnnotation : Type 0 where
  pub name : String
  pub value : String

pub record CosignConfig : Type 0 where
  pub annotations : List CosignAnnotation

-- `Volume` holds the claim's name, `Registry` the tag.
pub record BuildCacheConfig : Type 0 where
  pub volume : Option String
  pub registry : Option String

pub record LastBuild : Type 0 where
  pub image : String
  pub cache : String
  pub stack_id : String

pub record BuildSpec (K : Foreign) : Type 0 where
  pub tags : List String
  pub builder : BuildBuilderSpec
  pub service_account_name : String
  pub source : SourceConfig
  pub cache : Option BuildCacheConfig
  pub run_image : String
  pub active_deadline_seconds : Option ℤ
  pub services : List ObjectReference
  pub cnb_bindings : List CnbBinding
  pub env : List K.EnvVar
  pub project_descriptor_path : String
  pub resources : K.Resources
  pub last_build : Option LastBuild
  pub notary : Option NotaryConfig
  pub cosign : Option CosignConfig
  pub default_process : String
  pub tolerations : List K.Toleration
  pub node_selector : StringMap
  pub affinity : Option K.Affinity
  pub runtime_class_name : Option String
  pub scheduler_name : String
  pub priority_class_name : String
  pub creation_time : String

-- `corev1.ContainerState`: what a container waits for, or how it ended.
pub data ContainerState : Type 0 where
  waiting : String → String → ContainerState
  running : ContainerState
  terminated : ℤ → String → String → ContainerState

pub record BuildStatus : Type 0 where
  pub status : Status
  pub build_metadata : List BuildpackMetadata
  pub stack : BuildStack
  pub lifecycle_version : String
  pub latest_image : String
  pub latest_cache_image : String
  pub latest_attestation_image : String
  pub pod_name : String
  pub step_states : List ContainerState
  pub steps_completed : List String

pub record Build (K : Foreign) : Type 0 where
  pub meta : ObjectMeta
  pub spec : BuildSpec K
  pub status : BuildStatus

abbrev pub build_number_label : String
build_number_label = "image.kpack.io/buildNumber"

abbrev pub image_label : String
image_label = "image.kpack.io/image"

abbrev pub image_generation_label : String
image_generation_label = "image.kpack.io/imageGeneration"

abbrev pub build_reason_annotation : String
build_reason_annotation = "image.kpack.io/reason"

abbrev pub build_changes_annotation : String
build_changes_annotation = "image.kpack.io/buildChanges"

abbrev pub build_needed_annotation : String
build_needed_annotation = "image.kpack.io/additionalBuildNeeded"

abbrev pub builder_name_annotation : String
builder_name_annotation = "image.kpack.io/builderName"

abbrev pub builder_kind_annotation : String
builder_kind_annotation = "image.kpack.io/builderKind"

module _ {K : Foreign} where
  unfoldable pub succeeded : Build K → Option Condition
  succeeded b = get_condition b.status.status.conditions condition_succeeded

  unfoldable pub is_success : Build K → Bool
  unfolding succeeded get_condition
  is_success b = is_true (succeeded b)

  unfoldable pub is_failure : Build K → Bool
  unfolding succeeded get_condition
  is_failure b = is_false (succeeded b)

  -- Of a build that exists; a nil build is not running.
  unfoldable pub is_running : Build K → Bool
  unfolding succeeded get_condition
  is_running b = is_unknown (succeeded b)

  unfoldable pub finished : Build K → Bool
  unfolding succeeded get_condition
  finished b = not (is_unknown (succeeded b))

  unfoldable pub build_ref : Option (Build K) → String
  build_ref none = ""
  build_ref (some b) = b.meta.name

  unfoldable pub build_reason : Option (Build K) → String
  build_reason none = ""
  build_reason (some b) = text_or_empty (get build_reason_annotation b.meta.annotations)

  unfoldable pub build_changes : Option (Build K) → String
  build_changes none = ""
  build_changes (some b) = text_or_empty (get build_changes_annotation b.meta.annotations)

  unfoldable pub stack_of : Option (Build K) → String
  unfolding is_success
  stack_of none = ""
  stack_of (some b) = if is_success b then b.status.stack.id else ""

  unfoldable pub built_image : Option (Build K) → String
  unfolding is_success
  built_image none = ""
  built_image (some b) = if is_success b then b.status.latest_image else ""

  unfoldable pub cache_image : Option (Build K) → String
  unfolding is_success
  cache_image none = ""
  cache_image (some b) = if is_success b then b.status.latest_cache_image else ""

  -- Whether the build may only rebase: the sole reason is the stack, and the stack is the builder's.
  unfoldable pub rebasable : String → Build K → Bool
  rebasable builder_stack b = elim b.spec.last_build [
    | none ↦ false
    | some l ↦
        text_or_empty (get build_reason_annotation b.meta.annotations) == "STACK"
        && l.stack_id == builder_stack
  ]

-- `BuildStatus.Error`: a permanent error ends the build as failed, and keeps the rest.
unfoldable pub status_error : ℕ → Error → BuildStatus → BuildStatus
status_error now e bs = record bs {
  status = record {
    observed_generation = bs.status.observed_generation;
    conditions = condition_at now condition_succeeded condition_false "" (message e) ∷ [];
  };
}

-- build_pod.go names the steps; `IsBuildStep` is membership in the map `buildSteps`.
abbrev pub completion_container_name : String
completion_container_name = "completion"

abbrev pub build_steps : List String
build_steps =
    "prepare" ∷ "analyze" ∷ "detect" ∷ "restore" ∷ "build" ∷ "export" ∷ "completion" ∷ "rebase" ∷ []

unfoldable pub is_build_step : String → Bool
unfolding any
is_build_step step = any (λ s. s == step) build_steps

-- `BuildPriority` is an int; the map `PriorityClasses` has three keys, and any other number reads
-- as the empty text.
abbrev pub priority_none : ℕ
priority_none = 0

abbrev pub priority_low : ℕ
priority_low = 1

abbrev pub priority_high : ℕ
priority_high = 1000

unfoldable pub priority_class : ℕ → String
priority_class p =
    if eqb p priority_none
    then ""
    else if eqb p priority_low
    then "kpack-build-low-priority"
    else if eqb p priority_high
    then "kpack-build-high-priority"
    else ""
