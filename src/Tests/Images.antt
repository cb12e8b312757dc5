-- ===== src/Tests/Images.antt =====
-- pkg/reconciler/image at concrete images.
use kpack.Prelude.{
  pos, ◌+◌, ◌≡◌, ◌↔◌, refl, ◌⊎◌, inl, inr, ◌≤◌, List, [], ◌∷◌, none, some, ok, err, not_found, In,
  Distinct, arith, increment, select, last?, eq_iff, find, any,
}
use kpack.Prelude.Sorting.{sort}
use kpack.Api.Meta.{get}
use kpack.Api.Condition.{
  condition_true, condition_false, condition_unknown, get_condition, Condition, is_true,
}
use kpack.Api.Source.{resolver_ready, resolver_source_config, resolved_source, source_config}
use kpack.Api.Builder.{up_to_date, builder_ready, include}
use kpack.Api.Build.{Build, is_success, is_failure, is_running, succeeded}
use kpack.Api.Image.{Image}
use kpack.Api.Wanted.{image_build}
use kpack.BuildChange.Changes.{is_build_required, new_stack_change, new_generic_change}
use kpack.BuildChange.Processor.{new_change_processor, summarize, process_all, process}
use kpack.ImageReconciler.BuildRequired.{
  BuildRequiredResult, build_required, old_config, new_config, changes_of, trigger_of,
  trigger_change, commit_change_of, buildpack_change_of, stack_change_of, lifecycle_change_of,
  missing_buildpacks,
}
use kpack.ImageReconciler.BuildRequired.Verdict.{IsCurrent, build_required-false_iff}
use kpack.ImageReconciler.BuildList.{
  new_build_list, oldest_failure, oldest_success, failed_only, number_failed_builds,
  number_successful_builds, less_time, by_creation_timestamp,
}
use kpack.ImageReconciler.BuildList.Oldest.{Older, last_build-latest, name_of}
use kpack.ImageReconciler.Server.{
  Server, Request, delete_build, ◌>>=◌, ◌>>◌, wrap, ask, pure, request,
}
use kpack.ImageReconciler.Schedule.{build_counter, image_generation}
use kpack.ImageReconciler.Schedule.Number.{build_counter-image_build}
use kpack.ImageReconciler.Reconcile.{reconcile, delete_old_builds}
use kpack.ImageReconciler.Reconcile.Counts.{creates}
use kpack.ImageReconciler.Reconcile.Creates.{reconcile-creates_at_most_one}
use kpack.Api.Defaults.{set_defaults}
use kpack.Api.Validation.{validate_build_history_limit}
use kpack.ImageReconciler.Reconcile.Admitted.{delete_old_builds_admitted}
use kpack.ImageReconciler.Reconcile.Deletes.{Spent, delete_old_builds-spares}
use kpack.ImageReconciler.Reconcile.Safety.{
  OnlyReports, Says, reconcile-running, reconcile-no_builder,
}
use kpack.Tests.Samples.{
  foreign, externals, documented, git_config, build_of, builder, resolver, image, naming, setting,
  server_with,
}

-- Two failures, a success and a failure, by age.
abbrev builds : List (Build foreign)
builds =
    build_of "app-build-2" 2 condition_false
    ∷ build_of "app-build-1" 1 condition_false
    ∷ build_of "app-build-3" 3 condition_true
    ∷ build_of "app-build-4" 4 condition_false
    ∷ []

abbrev running_builds : List (Build foreign)
running_builds = build_of "app-build-5" 5 condition_unknown ∷ []

abbrev server : Server foreign
server = server_with (ok builder) builds

creates_example :
    creates (reconcile server setting none "apps" "app" []).1 ≤ creates {K = foreign} [] + 1
creates_example = reconcile-creates_at_most_one server setting none "apps" "app" []

sorted_list : Unit {0}
unfolding new_build_list by_creation_timestamp less_time sort oldest_failure oldest_success
    failed_only select last? is_success is_failure succeeded get_condition
sorted_list = tt

last_build-latest_example :
    In (build_of "app-build-4" 4 condition_false) builds
    × Older (build_of "app-build-1" 1 condition_false) (build_of "app-build-4" 4 condition_false)
unfolding sorted_list
last_build-latest_example =
    last_build-latest builds (build_of "app-build-4" 4 condition_false)
      (build_of "app-build-1" 1 condition_false) refl (inr (inl refl))

names_differ : Distinct name_of builds
names_differ = ground (
  arith,
  eq_iff "app-build-2" "app-build-1",
  eq_iff "app-build-2" "app-build-3",
  eq_iff "app-build-2" "app-build-4",
  eq_iff "app-build-1" "app-build-3",
  eq_iff "app-build-1" "app-build-4",
  eq_iff "app-build-3" "app-build-4",
)

abbrev deletion : Request foreign
deletion = delete_build "app-build-1"

delete_old_builds-spares_example :
    In deletion [] ⊎ ((b : Build foreign) × Spent builds b × (deletion ≡ delete_build b.meta.name))
unfolding sorted_list delete_old_builds ◌>>=◌ wrap ask pure ◌>>◌ number_failed_builds request
    number_successful_builds
delete_old_builds-spares_example =
    delete_old_builds-spares server image [] builds 0 0 deletion refl refl names_differ refl
      (inl refl)

delete_old_builds_admitted_example :
    In deletion [] ⊎ ((b : Build foreign) × Spent builds b × (deletion ≡ delete_build b.meta.name))
unfolding sorted_list delete_old_builds ◌>>=◌ wrap ask pure ◌>>◌ number_failed_builds request
    number_successful_builds set_defaults validate_build_history_limit
delete_old_builds_admitted_example =
    delete_old_builds_admitted server none image [] builds deletion refl names_differ refl
      (inl refl)

reconcile-running_example :
    let S = server_with (ok builder) running_builds in
    (new : Image foreign) × OnlyReports S setting none image new []
    × Says S setting new.status.status.conditions "Ready" condition_unknown "BuildRunning"
    × (is_true (get_condition new.status.status.conditions "BuilderReady") ≡ builder_ready builder)
    × (is_true (get_condition new.status.status.conditions "BuilderUpToDate") ≡ up_to_date builder)
unfolding sorted_list is_running
reconcile-running_example =
    reconcile-running (server_with (ok builder) running_builds) setting none image [] builder
      running_builds (build_of "app-build-5" 5 condition_unknown) (λ h. refl) refl refl refl refl

reconcile-no_builder_example :
    let S = server_with (err (not_found "builder")) builds in
    (new : Image foreign) × OnlyReports S setting none image new []
    × (c : Condition) × (new.status.status.conditions ≡ c ∷ [])
    × (c.type ≡ "Ready")
    × (c.status ≡ condition_false)
    × (c.reason ≡ "BuilderNotFound")
reconcile-no_builder_example =
    reconcile-no_builder (server_with (err (not_found "builder")) builds) setting none image []
      (not_found "builder") (λ h. refl) refl refl

unfoldable pub verdict_program : Unit {0}
unfolding build_required resolver_ready builder_ready resolver_source_config is_success succeeded
    get_condition find resolved_source source_config summarize process_all process is_build_required
    changes_of trigger_change commit_change_of buildpack_change_of stack_change_of
    lifecycle_change_of missing_buildpacks include any sort new_stack_change old_config new_config
    trigger_of get new_change_processor new_generic_change
verdict_program = tt

abbrev current : BuildRequiredResult
current = record {
  condition_status = condition_false;
  reasons_str = "";
  changes_str = "";
  priority_class = "";
}

build_required-false_iff_example :
    (condition_false ≡ condition_false)
    ↔ IsCurrent externals image
        (build_of "app-build-3" 3 condition_true)
        resolver
        builder
        git_config
unfolding verdict_program
build_required-false_iff_example =
    build_required-false_iff externals documented "now" image
      (build_of "app-build-3" 3 condition_true) resolver builder git_config current refl refl refl
      refl refl

build_counter-image_build_example :
    let b =
      image_build naming image git_config builder none "CONFIG" "[changes]"
        (increment (pos 4))
        ""
        "20240101.000000" in
    (build_counter (some b) ≡ ok (pos 5)) × (image_generation (some b) ≡ pos 1)
build_counter-image_build_example =
    build_counter-image_build naming image git_config builder none "CONFIG" "[changes]" ""
      "20240101.000000" 4 (omega arith) (omega arith)
