-- ===== src/ImageReconciler/Schedule.antt =====
-- reconcile_build.go: schedule the next build of an image, or report on the last one.
pub mod Number
pub mod Counter
pub mod Requests
use kpack.Prelude.Decimal.{parse_int}
use kpack.Prelude.{
  ℕ, ℤ, pos, increment, String, Bool, true, false, List, Option, none, some, if◌then◌else◌, ◌<>◌,
  Result, ok, err, Error, plain, panicked,
}
use kpack.Api.Meta.{Foreign, get, text_or_empty}
use kpack.Api.Condition.{
  Condition, ConditionStatus, condition_true, condition_false, condition_unknown, condition_other,
}
use kpack.Api.Source.{SourceConfig, SourceResolver, resolver_source_config}
use kpack.Api.Builder.{DuckBuilder}
use kpack.Api.Build.{
  Build, build_ref, build_reason, stack_of, build_number_label, image_generation_label,
}
use kpack.Api.Image.{Image, ImageStatus, latest_for_image}
use kpack.Api.Wanted.{Naming, image_build}
use kpack.BuildChange.Changes.{Externals}
use kpack.ImageReconciler.BuildRequired.{BuildRequiredResult, build_required}
use kpack.ImageReconciler.Conditions.{scheduled_build_condition, no_scheduled_build}
use kpack.ImageReconciler.Server.{
  Server, Request, create_build, M, ◌>>=◌, pure, throw, lift, request, wrap, wrap_by,
}

-- The fixed parameters of a run: the externals, the formatted times, and `EnablePriorityClasses`.
pub record Setting (K : Foreign) : Type 0 where
  pub externals : Externals K
  pub naming : Naming
  pub now : ℕ
  pub formatted_now : String
  pub stamp : String
  pub enable_priority_classes : Bool

abbrev pub counter_of : Option ℤ → Result ℤ
counter_of none = err (plain "parsing build number")
counter_of (some n) = ok n

abbrev generation_of : Option ℤ → ℤ
generation_of none = pos 0
generation_of (some n) = n

module _ {K : Foreign} where
  -- A missing label reads as the empty text, which does not parse.
  unfoldable pub build_counter : Option (Build K) → Result ℤ
  build_counter none = ok (pos 0)
  build_counter (some b) =
      counter_of (parse_int (text_or_empty (get build_number_label b.meta.labels)))

  -- A label that is missing or does not parse counts as generation 0.
  unfoldable pub image_generation : Option (Build K) → ℤ
  image_generation none = pos 0
  image_generation (some b) =
      generation_of (parse_int (text_or_empty (get image_generation_label b.meta.labels)))

  module _ (S : Server K) (set : Setting K) where
    unfoldable pub priority_class_name : BuildRequiredResult → String
    priority_class_name r = if set.enable_priority_classes then r.priority_class else ""

    -- The case `ConditionTrue`. The text of the error names the build that `Create` returned, and
    -- beside an error that is whatever the client gives back.
    unfoldable pub schedule :
        Image K
        → Option (Build K)
        → SourceConfig
        → DuckBuilder
        → String
        → ℤ
        → BuildRequiredResult
        → M (Request K) ImageStatus
    unfolding scheduled_build_condition priority_class_name
    schedule img latest source builder cache_name number r = do
      let wanted =
          image_build set.naming img source builder latest r.reasons_str r.changes_str
            (increment number) (priority_class_name r) set.stamp
      build ←
          wrap_by
            (λ e.
              "error creating build '"
              <> (S.beside_error e).name
              <> "' in namespace '"
              <> (S.beside_error e).namespace
              <> "'")
            (request (create_build wanted) (λ h. S.answer_build h wanted))
      pure (record {
        status = record {
          observed_generation = 0;
          conditions = scheduled_build_condition set.now build builder;
        };
        latest_build_ref = build_ref (some build);
        latest_build_image_generation = image_generation (some build);
        latest_image = latest_for_image img latest;
        latest_stack = stack_of (some build);
        build_counter = increment number;
        build_cache_name = cache_name;
        latest_build_reason = build_reason (some build);
      })

    -- The cases `ConditionUnknown` and `ConditionFalse`.
    unfoldable pub keep :
        Image K
        → Option (Build K)
        → SourceResolver
        → DuckBuilder
        → String
        → ℤ
        → BuildRequiredResult
        → M (Request K) ImageStatus
    unfolding no_scheduled_build
    keep img latest sr builder cache_name number r = do
      conditions ← lift (no_scheduled_build set.now r.condition_status builder latest sr)
      pure (record {
        status = record { observed_generation = 0; conditions = conditions };
        latest_build_ref = build_ref latest;
        latest_build_image_generation = image_generation latest;
        latest_image = latest_for_image img latest;
        latest_stack = stack_of latest;
        build_counter = number;
        build_cache_name = cache_name;
        latest_build_reason = build_reason latest;
      })

    unfoldable pub schedule_with :
        Image K
        → Option (Build K)
        → Option SourceConfig
        → DuckBuilder
        → String
        → ℤ
        → BuildRequiredResult
        → M (Request K) ImageStatus
    unfolding schedule
    schedule_with img latest none builder cache_name number r = throw (panicked "nil source")
    schedule_with img latest (some source) builder cache_name number r =
        schedule img latest source builder cache_name number r

    -- The switch on the verdict.
    unfoldable pub act_on :
        ConditionStatus
        → Image K
        → Option (Build K)
        → SourceResolver
        → DuckBuilder
        → String
        → ℤ
        → BuildRequiredResult
        → M (Request K) ImageStatus
    unfolding schedule_with keep
    act_on condition_true img latest sr builder cache_name number r =
        schedule_with img latest (resolver_source_config sr) builder cache_name number r
    act_on condition_unknown img latest sr builder cache_name number r =
        keep img latest sr builder cache_name number r
    act_on condition_false img latest sr builder cache_name number r =
        keep img latest sr builder cache_name number r
    act_on (condition_other s) img latest sr builder cache_name number r =
        throw (plain ("Error: unexpected build needed condition " <> s))

    unfoldable pub reconcile_build :
        Image K
        → Option (Build K)
        → SourceResolver
        → DuckBuilder
        → String
        → M (Request K) ImageStatus
    unfolding act_on build_counter
    reconcile_build img latest sr builder cache_name = do
      number ← wrap "error parsing the image build number" (lift (build_counter latest))
      r ←
          wrap "error determining if an image build is needed"
            (lift (build_required set.externals set.formatted_now img latest sr builder))
      act_on r.condition_status img latest sr builder cache_name number r
