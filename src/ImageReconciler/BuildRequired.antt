-- ===== src/ImageReconciler/BuildRequired.antt =====
-- build_required.go: whether an image needs a build, and why.
pub mod Verdict
pub mod Decided
pub mod First
use kpack.Prelude.{
  ◌≡◌, String, Bool, true, false, ◌||◌, not, List, [], ◌∷◌, Option, none, some, if◌then◌else◌,
  Result, ok, err, Error, panicked, select,
}
use kpack.Api.Meta.{Foreign, get}
use kpack.Api.Condition.{ConditionStatus, condition_true, condition_false, condition_unknown}
use kpack.Api.Source.{
  SourceConfig, Git, ResolvedGitSource, SourceResolver, resolver_ready, resolver_source_config,
}
use kpack.Api.Builder.{BuildpackMetadata, DuckBuilder, builder_ready, include}
use kpack.Api.Build.{Build, is_success, priority_class, build_needed_annotation}
use kpack.Api.Image.{Image, env, resources, services, cnb_bindings}
use kpack.BuildChange.Changes.{
  Change, Config, Externals, BuildpackInfo, commit_change, config_change, buildpack_change,
  lifecycle_change, new_trigger_change, new_stack_change,
}
use kpack.BuildChange.Processor.{ChangeSummary, new_change_processor, process_all, summarize}

pub record BuildRequiredResult : Type 0 where
  pub condition_status : ConditionStatus
  pub reasons_str : String
  pub changes_str : String
  pub priority_class : String

unfoldable pub new_build_required_result : ChangeSummary → BuildRequiredResult
unfolding priority_class
new_build_required_result summary = record {
  condition_status = if summary.has_changes then condition_true else condition_false;
  reasons_str = summary.reasons_str;
  changes_str = summary.changes_str;
  priority_class = priority_class summary.priority;
}

abbrev info_of : BuildpackMetadata → BuildpackInfo
info_of m = record { id = m.id; version = m.version }

-- The buildpacks of the last build that the builder has no more.
unfoldable pub missing_buildpacks :
    List BuildpackMetadata → List BuildpackMetadata → List BuildpackInfo
missing_buildpacks available [] = []
missing_buildpacks available (m ∷ ms) =
    if include m available
    then missing_buildpacks available ms
    else info_of m ∷ missing_buildpacks available ms

module _ {K : Foreign} where
  unfoldable pub trigger_of : String → Option String → Option (Change K)
  trigger_of now none = none
  trigger_of now (some v) = some (new_trigger_change now)

  -- `now` is the formatted time of the call.
  unfoldable pub trigger_change : String → Option (Build K) → Option (Change K)
  trigger_change now none = none
  trigger_change now (some b) = trigger_of now (get build_needed_annotation b.meta.annotations)

  revisions : Option Git → Option ResolvedGitSource → Option (Change K)
  revisions (some g) (some h) = some (commit_change g.revision h.revision)
  revisions _ _ = none

  unfoldable pub commit_change_of : Option (Build K) → SourceResolver → Option (Change K)
  unfolding revisions
  commit_change_of none sr = none
  commit_change_of (some b) sr = revisions b.spec.source.git sr.source.git

  unfoldable pub old_config : Option (Build K) → Config K
  old_config none = record {
    env = [];
    resources = K.no_resources;
    services = [];
    cnb_bindings = [];
    source = record { git = none; blob = none; registry = none; sub_path = "" };
  }
  old_config (some b) = record {
    env = b.spec.env;
    resources = b.spec.resources;
    services = b.spec.services;
    cnb_bindings = b.spec.cnb_bindings;
    source = b.spec.source;
  }

  unfoldable pub new_config : Image K → SourceConfig → Config K
  unfolding env resources services cnb_bindings
  new_config img source = record {
    env = env img;
    resources = resources img;
    services = services img;
    cnb_bindings = cnb_bindings img;
    source = source;
  }

  unfoldable pub buildpack_change_of : Option (Build K) → DuckBuilder → Option (Change K)
  unfolding missing_buildpacks
  buildpack_change_of none builder = none
  buildpack_change_of (some b) builder =
      if is_success b
      then some (
          buildpack_change (missing_buildpacks builder.builder_metadata b.status.build_metadata) [])
      else none

  unfoldable pub lifecycle_change_of : Option (Build K) → DuckBuilder → Option (Change K)
  lifecycle_change_of none builder = none
  lifecycle_change_of (some b) builder =
      if is_success b
      then some (lifecycle_change b.status.lifecycle_version builder.lifecycle_version)
      else none

module _ {K : Foreign} (E : Externals K) where
  unfoldable pub stack_change_of : Option (Build K) → DuckBuilder → Option (Change K)
  stack_change_of none builder = none
  stack_change_of (some b) builder =
      if is_success b
      then some (new_stack_change E b.status.stack.run_image builder.stack.run_image)
      else none

  -- The changes in the order in which they are processed.
  unfoldable pub changes_of :
      String
      → Image K
      → Option (Build K)
      → SourceResolver
      → DuckBuilder
      → SourceConfig
      → List (Option (Change K))
  changes_of now img last sr builder source =
      trigger_change now last
      ∷ commit_change_of last sr
      ∷ some (config_change (old_config last) (new_config img source))
      ∷ buildpack_change_of last builder
      ∷ stack_change_of last builder
      ∷ lifecycle_change_of last builder
      ∷ []

  result_of : ChangeSummary → Option Error → Result BuildRequiredResult
  unfolding new_build_required_result
  result_of summary none = ok (new_build_required_result summary)
  result_of summary (some e) = err e

  -- `isBuildRequired`. A ready resolver has a source; without one Go dereferences nil.
  unfoldable pub build_required :
      String
      → Image K
      → Option (Build K)
      → SourceResolver
      → DuckBuilder
      → Result BuildRequiredResult
  unfolding result_of changes_of
  build_required now img last sr builder =
      if not (resolver_ready sr) || not (builder_ready builder)
      then ok (record {
        condition_status = condition_unknown;
        reasons_str = "";
        changes_str = "";
        priority_class = "";
      })
      else elim (resolver_source_config sr) [
        | none ↦ err (panicked "nil source")
        | some source ↦
            let (summary, e) =
              summarize E
                (process_all E new_change_processor (changes_of now img last sr builder source)) in
            result_of summary e
      ]
