-- ===== src/Tests/Scheduled.antt =====
-- reconcileBuild after a successful build, at concrete builders.
use kpack.BuildChange.Changes.{Externals}
use kpack.ImageReconciler.BuildRequired.First.{TellsSources, build_required_first}
use kpack.Prelude.{
  Bool, true, false, ◌&&◌, is_some, and_left, and_right, Option, none, ℤ, IsInt64, pos, ◌≡◌, refl,
  increment, [], ◌∷◌, some, Result, ok, err, ne_of_eq_false,
}
use kpack.Prelude.Decimal.{parse_int}
use kpack.Api.Condition.{condition_true, condition_unknown}
use kpack.Api.Builder.{DuckBuilder}
use kpack.Api.Build.{Build, build_number_label, build_ref}
use kpack.Api.Image.{ImageStatus}
use kpack.ImageReconciler.BuildRequired.{BuildRequiredResult, build_required}
use kpack.ImageReconciler.BuildRequired.Verdict.{IsCurrent, build_required-false_iff}
use kpack.ImageReconciler.Server.{
  Server, History, create_build, ◌>>=◌, wrap, lift, wrap_by, request, pure,
}
use kpack.ImageReconciler.Schedule.{build_counter, reconcile_build}
use kpack.ImageReconciler.Schedule.Counter.{IsCounted, reconcile_build-IsCounted}
use kpack.ImageReconciler.Schedule.Requests.{wanted, reconcile_build_stale, reconcile_build_current}
use kpack.Tests.Images.{verdict_program}
use kpack.Tests.Samples.{
  foreign, externals, documented, git_config, build_of, builder, resolver, image, setting,
  server_with,
}

abbrev server : Server foreign
server = server_with (ok builder) []

abbrev built : Build foreign
built =
    let b = build_of "app-build-3" 3 condition_true in
    record b { meta = record (b.meta) { labels = (build_number_label, "3") ∷ [] } }

-- A builder with a newer lifecycle.
abbrev renewed : DuckBuilder
renewed = record builder { lifecycle_version = "0.18" }

abbrev result_from : Result BuildRequiredResult → BuildRequiredResult
result_from (ok r) = r
result_from (err e) = record {
  condition_status = condition_unknown;
  reasons_str = "";
  changes_str = "";
  priority_class = "";
}

abbrev answer : DuckBuilder → BuildRequiredResult
unfolding build_required
answer b = result_from (build_required externals "now" image (some built) resolver b)

renewed-not_current : IsCurrent externals image built resolver renewed git_config → ⊥
renewed-not_current C = ne_of_eq_false "0.17" "0.18" refl C.same_lifecycle

reconcile_build_stale_example :
    (status : ImageStatus) × (reconcile_build server setting image
        (some built)
        resolver
        renewed
        ""
        []
      ≡ (
        ok status,
        create_build (
              wanted server setting image built resolver renewed git_config
                (pos 3)
                (answer renewed))
            ∷ [],
      ))
    × (status.build_counter ≡ increment (pos 3))
    × (status.latest_build_ref
        ≡ build_ref (
            some (
              wanted server setting image built resolver renewed git_config
                (pos 3)
                (answer renewed))))
unfolding verdict_program build_counter parse_int answer
reconcile_build_stale_example =
    reconcile_build_stale server setting image built resolver renewed git_config "" [] (pos 3)
      (answer renewed)
      (wanted server setting image built resolver renewed git_config (pos 3) (answer renewed))
      documented refl refl refl refl renewed-not_current refl refl refl

reconcile_build_current_example :
    (reconcile_build server setting image (some built) resolver builder "" []).1 ≡ []
unfolding verdict_program build_counter parse_int answer
reconcile_build_current_example =
    reconcile_build_current server setting image built resolver builder git_config "" [] (pos 3)
      (answer builder) documented refl refl refl refl
      ((build_required-false_iff externals documented "now" image built resolver builder git_config
          (answer builder) refl refl refl refl refl).0
        refl)
      refl refl

abbrev outcome : Result ImageStatus × History foreign
outcome = reconcile_build server setting image (some built) resolver renewed "" []

abbrev reported : Result ImageStatus → ImageStatus
reported (ok status) = status
reported (err e) = image.status

reconcile_build-IsCounted_example :
    (number : ℤ) × (build_counter (some built) ≡ ok number)
    × IsCounted number [] (reported outcome.0).build_counter outcome.1
    × IsInt64 (reported outcome.0).build_counter
unfolding verdict_program build_counter parse_int reconcile_build ◌>>=◌ wrap lift wrap_by request
    pure
reconcile_build-IsCounted_example =
    reconcile_build-IsCounted server setting image (some built) resolver renewed "" [] outcome.1
      (reported outcome.0) refl

abbrev same_kind : {A B : Type 0} → Option A → Option B → Bool
same_kind none none = true
same_kind (some a) (some b) = true
same_kind _ _ = false

-- Configurations compared by the kinds of source that they have.
abbrev by_kinds : Externals foreign
by_kinds = record externals {
  deep_equal = λ a b.
      same_kind a.source.git b.source.git
      && (same_kind a.source.blob b.source.blob && same_kind a.source.registry b.source.registry);
}

kinds_agree :
    {A B : Type 0} (a : Option A) (b : Option B) → same_kind a b ≡ true → is_some a ≡ is_some b
kinds_agree none none e = refl
kinds_agree (some a) (some b) e = refl
kinds_agree none (some b) e = cc
kinds_agree (some a) none e = cc

tells_sources : TellsSources by_kinds
tells_sources = record {
  same_git = λ c d e. kinds_agree c.source.git d.source.git (and_left _ _ e);
  same_blob = λ c d e. kinds_agree c.source.blob d.source.blob (and_left _ _ (and_right _ _ e));
  same_registry =
      λ c d e. kinds_agree c.source.registry d.source.registry (and_right _ _ (and_right _ _ e));
}

abbrev first_answer : BuildRequiredResult
first_answer = result_from (build_required by_kinds "now" image none resolver builder)

build_required_first_example : first_answer.condition_status ≡ condition_true
unfolding verdict_program
build_required_first_example =
    build_required_first by_kinds tells_sources image "now" resolver builder first_answer refl refl
      refl
